-- ===== src/Examples/Stores.antt =====
-- The store of internal/state/store.go at concrete records.
use openconnectd.Host.{write_file}
use openconnectd.Host.{rename}
use openconnectd.Host.{call}
use openconnectd.Base.Dict.{erase}
use openconnectd.Base.{◌≡◌, refl, [], ◌∷◌, some, codes, same}
use openconnectd.Base.Dict.{lookup, insert}
use openconnectd.Errors.{ok}
use openconnectd.Store.{Store, Records, delete_client, commit, open_store}
use openconnectd.Store.View.{view, mutate, meaning, view-mutate, deletes_client, puts_client}
use openconnectd.Store.Disk.{Atomic, mutate-Atomic, RoundTrips, open_store-mutate}
use openconnectd.Store.{empty_records}
use openconnectd.Examples.{fine, full, ann, two, codec_of, store, path}

-- A put whose write is torn.
view-mutate_example :
    view (mutate full (codec_of two) (puts_client (codes "lab") ann) store).1.records
    ≡ meaning (puts_client (codes "lab") ann) (view two)
view-mutate_example = view-mutate full (codec_of two) (puts_client (codes "lab") ann) store

mutate-Atomic_example :
    Atomic
      (codec_of two)
      store
      (mutate full (codec_of two) (deletes_client (codes "vpn") (codes "ann")) store)
mutate-Atomic_example =
    mutate-Atomic full (codec_of two) (deletes_client (codes "vpn") (codes "ann")) store

abbrev empty_store : Store
empty_store = record store { records = empty_records }

-- The instance "vpn" without its client, as it is written.
abbrev left : Records
left = record two { clients = (codes "vpn", []) ∷ [] }

left_trips :
    RoundTrips
      (codec_of left)
      (mutate fine (codec_of left) (deletes_client (codes "vpn") (codes "ann")) store).1.records
unfolding mutate delete_client commit insert view lookup same erase
left_trips = record {
  reads = (record { instances = some left.instances; clients = some left.clients }, refl, refl);
  writes = λ e. cc;
}

open_store-mutate_example :
    (s' : Store) × ((open_store fine
        (codec_of left)
        path
        (mutate fine (codec_of left) (deletes_client (codes "vpn") (codes "ann")) store).1.host).0
      ≡ ok s')
    × (view s'.records ≡ meaning (deletes_client (codes "vpn") (codes "ann")) (view two))
unfolding mutate delete_client commit call write_file rename lookup insert same
open_store-mutate_example =
    open_store-mutate (codec_of left) fine (deletes_client (codes "vpn") (codes "ann")) store
      left_trips refl refl

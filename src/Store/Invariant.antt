-- ===== src/Store/Invariant.antt =====
-- What holds of internal/state/store.go after any run of mutations.
use openconnectd.Base.{
  suc, ◌≡◌, ◌≢◌, refl, sym, none, some, Text, arith, same, same_iff, if◌then◌else◌, is_some,
  Option-cases, inl, inr, not, ◌&&◌, [], ◌∷◌, length,
}
use mathlib.Core.Path.{subst}
use openconnectd.Base.Dict.{Dict, lookup, insert, lookup-insert}
use openconnectd.Api.{Instance, ClientPeer}
use openconnectd.Host.{Env}
use openconnectd.Store.{
  Codec, Store, empty_records, get_instance, get_client, count_clients, put_client, commit,
  clients_of,
}
use openconnectd.Store.View.{
  View, view, Mutation, mutate, meaning, view-mutate, puts_instance, deletes_instance, puts_client,
  deletes_client,
}

-- An instance is filed under its name and a client under its common name, and only an instance
-- that exists has clients.
pub record IsSound (v : View) : Type 0 where
  pub named : (n : Text) (i : Instance) → v.instance_at n ≡ some i → i.name ≡ n
  pub owned : (n k : Text) (c : ClientPeer) → v.client_at n k ≡ some c → c.common_name ≡ k
  pub parented : (n k : Text) (c : ClientPeer) → v.client_at n k ≡ some c → v.instance_at n ≢ none

meaning-IsSound : (m : Mutation) (v : View) → IsSound v → IsSound (meaning m v)
unfolding meaning
meaning-IsSound (puts_instance in') v h = record {
  named = λ n i e. ground (arith, h.named n i, same_iff in'.name n);
  owned = h.owned;
  parented = λ n k c e. ground (arith, h.parented n k c e);
}
meaning-IsSound (deletes_instance name) v h = record {
  named = λ n i e. ground (arith, h.named n i);
  owned = λ n k c e. ground (arith, h.owned n k c);
  parented = λ n k c e. ground (arith, h.parented n k c);
}
meaning-IsSound (puts_client name c) v h = record {
  named = λ n i e. ground (arith, h.named n i);
  owned = λ n k d e. ground (arith, h.owned n k d, same_iff c.common_name k);
  parented = λ n k d e. ground (arith, h.parented n k d, same_iff name n);
}
meaning-IsSound (deletes_client name cn) v h = record {
  named = h.named;
  owned = λ n k c e. ground (arith, h.owned n k c);
  parented = λ n k c e. ground (arith, h.parented n k c);
}

-- Every mutation keeps the records sound, also one whose write fails.
pub mutate-IsSound :
    (env : Env) (codec : Codec) (m : Mutation) (s : Store)
    → IsSound (view s.records)
    → IsSound (view (mutate env codec m s).1.records)
mutate-IsSound env codec m s h =
    subst IsSound (sym (view-mutate env codec m s)) (meaning-IsSound m (view s.records) h)

pub empty-IsSound : IsSound (view empty_records)
unfolding view get_instance get_client lookup
empty-IsSound = record {
  named = λ n i e. ground arith;
  owned = λ n k c e. ground arith;
  parented = λ n k c e. ground arith;
}

module _ {ℓ} {V : Type ℓ} where
  length-insert :
      (k : Text) (v : V) (m : Dict V)
      → length (insert k v m) ≡ (if is_some (lookup k m) then length m else suc (length m))
  unfolding insert lookup
  length-insert k v [] = refl
  length-insert k v ((j, w) ∷ m) = ground (arith, length-insert k v m)

-- CountClients counts a client that is put once, whether it was there or not, and leaves the counts
-- of the other instances alone.
count_clients-put_client :
    (env : Env) (codec : Codec) (name n : Text) (c : ClientPeer) (s : Store)
    → get_instance s.records name ≢ none
    → count_clients (mutate env codec (puts_client name c) s).1.records n ≡ (
        if same name n && not (is_some (get_client s.records name c.common_name))
        then suc (count_clients s.records n)
        else count_clients s.records n)
unfolding mutate put_client commit get_instance get_client count_clients
count_clients-put_client env codec name n c s known =
    elim (Option-cases (lookup name s.records.instances)) [
      | inl none' ↦ absurd (known none')
      | inr (i, there) ↦
          rw (there, put_client)
            (ground (
              arith,
              lookup-insert name n (insert c.common_name c (clients_of s.records name))
                  s.records.clients,
              length-insert c.common_name c (clients_of s.records name),
              same_iff name n,
            ))
    ]

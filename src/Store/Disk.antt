-- ===== src/Store/Disk.antt =====
-- flushLocked of internal/state/store.go: what is on disk after each mutation, whatever call fails.
use openconnectd.Base.{
  ◌≡◌, ◌≢◌, refl, sym, ap, ◌∙◌, ◌⊎◌, inl, inr, some, Text, codes, arith, [], ◌∷◌, length,
  length-append, is_some, Bool-cases,
}
use openconnectd.Base.Dict.{lookup}
use openconnectd.Api.{ClientPeer}
use openconnectd.Errors.{Result, ok, err}
use openconnectd.Exec.{continue, ◌>>=◌}
use openconnectd.Host.{done, read_file, Env, Host, call, write_file, rename}
use openconnectd.Host.Laws.{
  file, files-call, read_file-done, write_file-other, write_file_self, rename-Renamed,
}
use openconnectd.Store.{
  started, parse_file, load_result, fill, RawRecords, open_store, Records, Codec, Store, write_all,
  commit, tmp_path, put_instance, delete_instance, put_client, delete_client,
}
use openconnectd.Store.View.{
  view, meaning, view-mutate, Mutation, mutate, puts_instance, deletes_instance, puts_client,
  deletes_client,
}

tmp_path-ne : (path : Text) → tmp_path path ≢ path
tmp_path-ne path e = absurd (omega (arith, ap length e, length-append path (codes ".tmp")))

module _ (env : Env) (codec : Codec) (path : Text) (r : Records) where
  -- The file is the new one in full and the caller is told so, or it is the old one and the caller
  -- is told of an error.
  abbrev pub Written : Host → Result (Unit {0}) × Host → Type 0
  Written h o =
      ((o.0 ≡ ok tt) × (file path o.1 ≡ some (codec.marshal r)))
      ⊎ ((o.0 ≢ ok tt) × (file path o.1 ≡ file path h))

  after_write :
      (h h₂ : Host) (r₂ : Result (Unit {0}))
      → file path h₂ ≡ file path h
      → (r₂ ≡ ok tt → file (tmp_path path) h₂ ≡ some (codec.marshal r))
      → Written h (continue r₂ (λ _. rename env (tmp_path path) path) h₂)
  after_write h h₂ (err e) same' self = inr (ground arith, same')
  after_write h h₂ (ok u) same' self = elim (rename-Renamed env h₂ (tmp_path path) path) [
    | inl (content, good, old, new) ↦ inl (good, new ∙ sym old ∙ self refl)
    | inr (bad, all_same) ↦ inr (bad, ap (lookup path) all_same ∙ same')
  ]

  after_call :
      (h h₁ : Host) (r₁ : Result (Unit {0}))
      → file path h₁ ≡ file path h
      → Written h (
          continue r₁
            (λ _. write_file env (tmp_path path) (codec.marshal r) >>= λ _.
              rename env (tmp_path path) path)
            h₁)
  after_call h h₁ (err e) same' = inr (ground arith, same')
  after_call h h₁ (ok u) same' =
      let w = write_file env (tmp_path path) (codec.marshal r) h₁ in
      after_write h w.1 w.0
        (write_file-other env h₁ (tmp_path path) (codec.marshal r) path (tmp_path-ne path) ∙ same')
        (write_file_self env h₁ (tmp_path path) (codec.marshal r))

  write_all-Written : (h : Host) → Written h (write_all env codec path r h)
  unfolding write_all
  write_all-Written h =
      after_call h (call env h).1 (call env h).0 (ap (lookup path) (files-call env h))

-- The mutation succeeded and the file holds what the memory holds, or it failed and the file is the
-- one from before.
abbrev pub Atomic : Codec → Store → Result (Unit {0}) × Store → Type 0
Atomic codec s o =
    ((o.0 ≡ ok tt) × (file s.path o.1.host ≡ some (codec.marshal o.1.records)))
    ⊎ ((o.0 ≢ ok tt) × (file s.path o.1.host ≡ file s.path s.host))

module _ (env : Env) (codec : Codec) where
  commit-Atomic : (r : Records) (s : Store) → Atomic codec s (commit env codec r s)
  unfolding commit
  commit-Atomic r s = write_all-Written env codec s.path r s.host

  put_client-Atomic :
      (name : Text) (c : ClientPeer) (s : Store) → Atomic codec s (put_client env codec name c s)
  unfolding put_client
  put_client-Atomic name c s = elim (Bool-cases (is_some (lookup name s.records.instances))) [
    | inl known ↦ rw (known, put_client) (commit-Atomic _ s)
    | inr unknown ↦ rw (unknown, put_client) (inr (ground arith, refl))
  ]

  -- A mutation that succeeds leaves the file with exactly what the memory holds. A mutation that
  -- fails leaves the file as it was, in full, whichever call failed and however much of a write was
  -- done.
  pub mutate-Atomic : (m : Mutation) (s : Store) → Atomic codec s (mutate env codec m s)
  unfolding mutate put_instance delete_instance delete_client
  mutate-Atomic (puts_instance in') s = commit-Atomic _ s
  mutate-Atomic (deletes_instance name) s = commit-Atomic _ s
  mutate-Atomic (puts_client name c) s = put_client-Atomic name c s
  mutate-Atomic (deletes_client name cn) s = commit-Atomic _ s

-- What the program relies on of encoding/json, for the records that it writes: they are read back as
-- records that show the same, and the text is not empty.
pub record RoundTrips (codec : Codec) (r : Records) : Type 0 where
  pub reads :
      (raw : RawRecords) × (codec.unmarshal (codec.marshal r) ≡ ok raw) × (view (fill raw) ≡ view r)
  pub writes : codec.marshal r ≢ []

module _ (codec : Codec) (r : Records) (trips : RoundTrips codec r) where
  parse_file-ne-nil :
      (path t : Text) {raw : RawRecords}
      → t ≢ []
      → codec.unmarshal t ≡ ok raw
      → parse_file codec path t ≡ ok (fill raw)
  unfolding parse_file
  parse_file-ne-nil path [] ne e = absurd (ne refl)
  parse_file-ne-nil path (c ∷ t) ne e = rw (e, parse_file)

  load_written :
      (path : Text)
      → (r' : Records) × (load_result codec path (ok (codec.marshal r)) ≡ ok r')
        × (view r' ≡ view r)
  unfolding load_result
  load_written path =
      let (raw, e, shows) = trips.reads in
      (fill raw, parse_file-ne-nil path (codec.marshal r) trips.writes e, shows)

  opens :
      (env : Env) (path : Text) (h : Host)
      → env.outcome h.calls ≡ done
      → file path h ≡ some (codec.marshal r)
      → (s : Store) × ((open_store env codec path h).0 ≡ ok s) × (view s.records ≡ view r)
  unfolding open_store
  opens env path h readable there =
      let (r', e, shows) = load_written path in
      (
        record { path = path; records = r'; host = (read_file env path h).1 },
        rw (read_file-done env h path (codec.marshal r) readable there, e, started),
        shows,
      )

-- A mutation that reports success, and how far the file and the memory agree then.
written_file :
    (env : Env) (codec : Codec) (m : Mutation) (s : Store)
    → (mutate env codec m s).0 ≡ ok tt
    → file s.path (mutate env codec m s).1.host
      ≡ some (codec.marshal (mutate env codec m s).1.records)
written_file env codec m s good = elim (mutate-Atomic env codec m s) [
  | inl (_, there) ↦ there
  | inr (bad, _) ↦ absurd (bad good)
]

-- A daemon that starts again after a mutation that succeeded sees the store as the mutation means
-- it to be, if the file can be read.
pub open_store-mutate :
    (codec : Codec) (env : Env) (m : Mutation) (s : Store)
    → RoundTrips codec (mutate env codec m s).1.records
    → (mutate env codec m s).0 ≡ ok tt
    → env.outcome (mutate env codec m s).1.host.calls ≡ done
    → (s' : Store) × ((open_store env codec s.path (mutate env codec m s).1.host).0 ≡ ok s')
      × (view s'.records ≡ meaning m (view s.records))
open_store-mutate codec env m s trips good readable =
    let r = (mutate env codec m s).1.records in
    let h = (mutate env codec m s).1.host in
    let (s', e, shows) =
      opens codec r trips env s.path h readable (written_file env codec m s good) in
    (s', e, shows ∙ view-mutate env codec m s)

-- ===== src/Store/Open.antt =====
-- Open of internal/state/store.go: what a store holds when it opens.
use openconnectd.Base.{◌≡◌, refl, some, [], ◌∷◌, Text, Bool-cases, inl, inr}
use openconnectd.Errors.{Result, ok, err, Returns, Result-cases, is_not_exist}
use openconnectd.Host.{Env, Host, read_file}
use openconnectd.Host.Laws.{file, read_file-file}
use openconnectd.Store.{
  Records, RawRecords, Codec, fill, empty_records, parse_file, load_result, started, open_store,
}

module _ (P : Records → Type 0) (codec : Codec) (empty : P empty_records) where
  -- What the text decodes to, if it does.
  abbrev pub Decodes : Text → Type 0
  Decodes t = (raw : RawRecords) → codec.unmarshal t ≡ ok raw → P (fill raw)

  Returns-parse_file : (path t : Text) → Decodes t → Returns P (parse_file codec path t)
  unfolding parse_file
  Returns-parse_file path [] read = empty
  Returns-parse_file path (c ∷ t) read = elim (Result-cases (codec.unmarshal (c ∷ t))) [
    | inl (raw, e) ↦ rw (e, parse_file, Returns) (read raw e)
    | inr (x, e) ↦ rw (e, parse_file, Returns) tt
  ]

  Returns-load_result :
      (path : Text) (r : Result Text)
      → ((t : Text) → r ≡ ok t → Decodes t)
      → Returns P (load_result codec path r)
  unfolding load_result
  Returns-load_result path (ok t) read = Returns-parse_file path t (read t refl)
  Returns-load_result path (err e) read = elim (Bool-cases (is_not_exist e)) [
    | inl b ↦ rw (b, load_result) empty
    | inr b ↦ rw (b, load_result) tt
  ]

  Returns-started :
      (path : Text) (r : Result Records) (h : Host)
      → Returns P r
      → Returns (λ s. P s.records) (started path r h).0
  unfolding started
  Returns-started path (ok r) h p = p
  Returns-started path (err e) h p = tt

  -- A store that opens holds no records, or those that the file decodes to.
  pub Returns-open_store :
      (env : Env) (path : Text) (h : Host)
      → ((t : Text) → file path h ≡ some t → Decodes t)
      → Returns (λ s. P s.records) (open_store env codec path h).0
  unfolding open_store
  Returns-open_store env path h read = Returns-started path _ (read_file env path h).1 (
      Returns-load_result path (read_file env path h).0
        (λ t e. read t (read_file-file env h path t e)))

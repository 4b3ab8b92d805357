-- ===== src/Host/Laws.antt =====
-- What each call leaves alone, and what a write can leave behind.
use openconnectd.Base.{
  codes, suc, false, ◌≡◌, ◌≢◌, refl, Option, none, some, Text, arith, ◌⊎◌, inl, inr, take, ◌∙◌,
}
use openconnectd.Base.Dict.{
  lookup, erase, lookup-insert_self, lookup-insert_ne, lookup-erase_ne, lookup-erase_self,
}
use openconnectd.Errors.{Error, Result, ok, err, is_not_exist, not_exist, system}
use openconnectd.Host.{
  Env, Host, Outcome, done, failed, torn, call, write_file, remove, rename, read_file, read_as,
  write_as, remove_found, remove_as, rename_found, rename_as,
}

-- The content of a file, if it is there.
abbrev pub file : Text → Host → Option Text
file path h = lookup path h.files

read_as-found :
    (path content : Text) (o : Outcome) (h : Host)
    → file path h ≡ some content
    → ((read_as o path h).0 ≡ ok content)
      ⊎ ((e : Error) × ((read_as o path h).0 ≡ err e) × (is_not_exist e ≡ false))
read_as-found path content done h there = inl (rw there)
read_as-found path content (failed e) h there = inr (system e, refl, refl)
read_as-found path content (torn e n) h there = inr (system e, refl, refl)

read_as-file :
    (o : Outcome) (path t : Text) (h : Host) → (read_as o path h).0 ≡ ok t → file path h ≡ some t
read_as-file done path t h e = ground arith
read_as-file (failed x) path t h e = ground arith
read_as-file (torn x n) path t h e = ground arith

module _ (path content other : Text) (h : Host) where
  write_as-other :
      (o : Outcome) → path ≢ other → file other (write_as o path content h).1 ≡ file other h
  write_as-other done ne = lookup-insert_ne path other content h.files ne
  write_as-other (failed e) ne = refl
  write_as-other (torn e n) ne = lookup-insert_ne path other (take n content) h.files ne

  write_as_self :
      (o : Outcome)
      → (write_as o path content h).0 ≡ ok tt
      → file path (write_as o path content h).1 ≡ some content
  write_as_self done r = lookup-insert_self path content h.files
  write_as_self (failed e) r = ground arith
  write_as_self (torn e n) r = ground arith

module _ (old new : Text) (h : Host) where
  remove_found-other :
      (o : Option Text) → old ≢ new → file new (remove_found o old h).1 ≡ file new h
  remove_found-other none ne = refl
  remove_found-other (some content) ne = lookup-erase_ne old new h.files ne

  remove_found-gone :
      (o : Option Text) → lookup old h.files ≡ o → file old (remove_found o old h).1 ≡ none
  remove_found-gone none e = e
  remove_found-gone (some content) e = lookup-erase_self old h.files

  -- The file is gone, or the call failed for another reason than that there was none.
  remove_as-gone :
      (o : Outcome)
      → (file old (remove_as o old h).1 ≡ none)
        ⊎ ((e : Error) × ((remove_as o old h).0 ≡ err e) × (is_not_exist e ≡ false))
  remove_as-gone done = inl (remove_found-gone (lookup old h.files) refl)
  remove_as-gone (failed e) = inr (system e, refl, refl)
  remove_as-gone (torn e n) = inr (system e, refl, refl)

  remove_as-other : (o : Outcome) → old ≢ new → file new (remove_as o old h).1 ≡ file new h
  remove_as-other done ne = remove_found-other (lookup old h.files) ne
  remove_as-other (failed e) ne = refl
  remove_as-other (torn e n) ne = refl

  rename_found-other :
      (o : Option Text) (other : Text)
      → old ≢ other
      → new ≢ other
      → file other (rename_found o old new h).1 ≡ file other h
  rename_found-other none other ne ne' = refl
  rename_found-other (some content) other ne ne' =
      lookup-insert_ne new other content (erase old h.files) ne'
      ∙ lookup-erase_ne old other h.files ne

  rename_as-other :
      (o : Outcome) (other : Text)
      → old ≢ other
      → new ≢ other
      → file other (rename_as o old new h).1 ≡ file other h
  rename_as-other done other ne ne' = rename_found-other (lookup old h.files) other ne ne'
  rename_as-other (failed e) other ne ne' = refl
  rename_as-other (torn e n) other ne ne' = refl

  -- The new file is the old one in full and the call succeeds, or nothing has changed.
  abbrev pub Renamed : Result (Unit {0}) × Host → Type 0
  Renamed r =
      ((content : Text) × (r.0 ≡ ok tt)
        × (file old h ≡ some content)
        × (file new r.1 ≡ some content))
      ⊎ ((r.0 ≢ ok tt) × (r.1.files ≡ h.files))

  rename_found-Renamed :
      (o : Option Text) → lookup old h.files ≡ o → Renamed (rename_found o old new h)
  rename_found-Renamed none e = inr (ground arith, refl)
  rename_found-Renamed (some content) e =
      inl (content, refl, e, lookup-insert_self new content (erase old h.files))

  rename_as-Renamed : (o : Outcome) → Renamed (rename_as o old new h)
  rename_as-Renamed done = rename_found-Renamed (lookup old h.files) refl
  rename_as-Renamed (failed e) = inr (ground arith, refl)
  rename_as-Renamed (torn e n) = inr (ground arith, refl)

module _ (env : Env) (h : Host) where
  pub files-call : (call env h).1.files ≡ h.files
  unfolding call
  files-call = refl

  pub files-read_file : (path : Text) → (read_file env path h).1.files ≡ h.files
  unfolding read_file
  files-read_file path = ground arith

  -- What is read is what the file holds.
  pub read_file-file : (path t : Text) → (read_file env path h).0 ≡ ok t → file path h ≡ some t
  unfolding read_file
  read_file-file path t e =
      read_as-file (env.outcome h.calls) path t (record h { calls = suc h.calls }) e

  pub read_file-done :
      (path content : Text)
      → env.outcome h.calls ≡ done
      → file path h ≡ some content
      → (read_file env path h).0 ≡ ok content
  unfolding read_file
  read_file-done path content good there = rw (good, there)

  pub read_file-missing :
      (path : Text)
      → env.outcome h.calls ≡ done
      → file path h ≡ none
      → (read_file env path h).0 ≡ err (not_exist (codes "open") path)
  unfolding read_file
  read_file-missing path good there = rw (good, there)

  pub calls-read_file : (path : Text) → (read_file env path h).1.calls ≡ suc h.calls
  unfolding read_file
  calls-read_file path = ground arith

  pub write_file-done :
      (path content : Text) → env.outcome h.calls ≡ done → (write_file env path content h).0 ≡ ok tt
  unfolding write_file
  write_file-done path content good = rw good

  -- A file that is there is read, or the call fails for another reason than that there is none.
  pub read_file-found :
      (path content : Text)
      → file path h ≡ some content
      → ((read_file env path h).0 ≡ ok content)
        ⊎ ((e : Error) × ((read_file env path h).0 ≡ err e) × (is_not_exist e ≡ false))
  unfolding read_file
  read_file-found path content there =
      read_as-found path content (env.outcome h.calls) (record h { calls = suc h.calls }) there

  pub write_file-other :
      (path content other : Text)
      → path ≢ other
      → file other (write_file env path content h).1 ≡ file other h
  unfolding write_file
  write_file-other path content other ne =
      write_as-other path content other (record h { calls = suc h.calls }) (env.outcome h.calls) ne

  pub write_file_self :
      (path content : Text)
      → (write_file env path content h).0 ≡ ok tt
      → file path (write_file env path content h).1 ≡ some content
  unfolding write_file
  write_file_self path content r =
      write_as_self path content path (record h { calls = suc h.calls }) (env.outcome h.calls) r

  pub remove-other :
      (path other : Text) → path ≢ other → file other (remove env path h).1 ≡ file other h
  unfolding remove
  remove-other path other ne =
      remove_as-other path other (record h { calls = suc h.calls }) (env.outcome h.calls) ne

  pub remove-gone :
      (path : Text)
      → (file path (remove env path h).1 ≡ none)
        ⊎ ((e : Error) × ((remove env path h).0 ≡ err e) × (is_not_exist e ≡ false))
  unfolding remove
  remove-gone path =
      remove_as-gone path path (record h { calls = suc h.calls }) (env.outcome h.calls)

  pub rename-other :
      (old new other : Text)
      → old ≢ other
      → new ≢ other
      → file other (rename env old new h).1 ≡ file other h
  unfolding rename
  rename-other old new other ne ne' =
      rename_as-other old new (record h { calls = suc h.calls }) (env.outcome h.calls) other ne ne'

  pub rename-Renamed : (old new : Text) → Renamed old new h (rename env old new h)
  unfolding rename
  rename-Renamed old new =
      rename_as-Renamed old new (record h { calls = suc h.calls }) (env.outcome h.calls)

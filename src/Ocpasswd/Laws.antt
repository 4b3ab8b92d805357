-- ===== src/Ocpasswd/Laws.antt =====
-- DeleteUser and ListUsers of internal/ocserv/ocpasswd.go, on the lines of the file.
use openconnectd.Base.{
  suc, ◌≡◌, refl, sym, ap, ◌∙◌, true, not, ◌&&◌, List, [], map, none, some, Text, any, all, keep,
  same, arith, Bool-cases, inl, inr,
}
use openconnectd.Base.Dict.{lookup}
use openconnectd.Errors.{ok}
use openconnectd.Host.{Env, Host, done, read_file, write_file}
use openconnectd.Host.Laws.{
  file, files-read_file, write_file_self, read_file-found, read_file-done, read_file-missing,
  calls-read_file, write_file-done,
}
use openconnectd.Ocpasswd.{
  Ocpasswd, scan, line_user, users_of, read, listed, list_users, without, delete_read, delete_user,
  strip_cr, unlines,
}
use openconnectd.Ocpasswd.Lines.{is_scanned, scan-is_scanned, scan-unlines}
use openconnectd.Ocpasswd.Users.{
  has_user, users_of-has_user, has_user-keep, has_user-absent, keep-is_scanned,
}

-- What the file holds behind a deletion.
abbrev pub Deleted : Text → Text → List Text → Host → Type 0
Deleted path user lines h =
    (content : Text) × (file path h ≡ some content)
    × ((lines' : List Text) × (scan content ≡ some lines')
        × ((v : Text) → has_user v lines' ≡ (not (same v user) && has_user v lines)))

module _ (env : Env) (o : Ocpasswd) where
  written-Deleted :
      (user : Text) (lines : List Text) (h : Host)
      → all is_scanned lines ≡ true
      → let r =
          write_file env o.file (unlines (keep (λ l. not (same (line_user l) user)) lines)) h in
        r.0 ≡ ok tt → Deleted o.file user lines r.1
  written-Deleted user lines h good r =
      let kept = keep (λ l. not (same (line_user l) user)) lines in
      (
        unlines kept,
        write_file_self env h o.file (unlines kept) r,
        (
          map strip_cr kept,
          scan-unlines kept (keep-is_scanned (λ l. not (same (line_user l) user)) lines good),
          λ v. has_user-keep user v lines,
        ),
      )

  without-Deleted :
      (user content : Text) (lines : List Text) (h : Host)
      → file o.file h ≡ some content
      → scan content ≡ some lines
      → (without env o user lines h).0 ≡ ok tt
      → Deleted o.file user lines (without env o user lines h).1
  unfolding without
  without-Deleted user content lines h there e =
      elim (Bool-cases (any (λ u. same u user) (users_of lines))) [
        | inl found ↦
            rw (found, without) (written-Deleted user lines h (scan-is_scanned content lines e))
        | inr absent ↦
            rw (absent, without)
              (λ _. (
                content,
                there,
                (
                  lines,
                  e,
                  λ v. has_user-absent user v lines (sym (users_of-has_user user lines) ∙ absent),
                ),
              ))
      ]

  -- If DeleteUser succeeds on a file that the scanner can read, then the file still can be read, and
  -- its users are those from before without the one deleted.
  pub delete_user_lem :
      (user content : Text) (lines : List Text) (h : Host)
      → file o.file h ≡ some content
      → scan content ≡ some lines
      → (delete_user env o user h).0 ≡ ok tt
      → Deleted o.file user lines (delete_user env o user h).1
  unfolding delete_user read delete_read
  delete_user_lem user content lines h there e = elim (read_file-found env h o.file content there) [
    | inl good ↦
        rw (good, e, delete_user)
          (without-Deleted user content lines (read_file env o.file h).1
            (ap (lookup o.file) (files-read_file env h o.file) ∙ there) e)
    | inr (x, bad, other) ↦ rw (bad, other, delete_user) (λ r. absurd (ground arith))
  ]

  -- ListUsers, if the file can be read: of a file that is not there it is empty, and else it has the
  -- names that have a line.
  pub list_users_lem :
      (v : Text) (h : Host)
      → env.outcome h.calls ≡ done
      → (file o.file h ≡ none → (list_users env o h).0 ≡ ok [])
        × ((content : Text) (lines : List Text)
            → file o.file h ≡ some content
            → scan content ≡ some lines
            → (users : List Text) × ((list_users env o h).0 ≡ ok users)
              × (any (λ u. same u v) users ≡ has_user v lines))
  unfolding list_users read listed
  list_users_lem v h good = (
    λ missing. rw (read_file-missing env h o.file good missing, list_users) refl,
    λ content lines there e. (
      users_of lines,
      rw (read_file-done env h o.file content good there, e, list_users) refl,
      users_of-has_user v lines,
    ),
  )

  without-ok :
      (user : Text) (lines : List Text) (h : Host)
      → env.outcome h.calls ≡ done
      → (without env o user lines h).0 ≡ ok tt
  unfolding without
  without-ok user lines h good = ground (
    arith,
    write_file-done env h o.file (unlines (keep (λ l. not (same (line_user l) user)) lines)) good,
  )

  -- DeleteUser succeeds if the file can be read and written, or if it is not there.
  pub delete_user-ok :
      (user : Text) (h : Host)
      → env.outcome h.calls ≡ done
      → (file o.file h ≡ none → (delete_user env o user h).0 ≡ ok tt)
        × ((content : Text) (lines : List Text)
            → file o.file h ≡ some content
            → scan content ≡ some lines
            → env.outcome (suc h.calls) ≡ done
            → (delete_user env o user h).0 ≡ ok tt)
  unfolding delete_user read delete_read
  delete_user-ok user h good = (
    λ missing. rw (read_file-missing env h o.file good missing, delete_user) refl,
    λ content lines there e good'.
        rw (read_file-done env h o.file content good there, e, delete_user)
          (without-ok user lines (read_file env o.file h).1
            (rw (calls-read_file env h o.file) good')),
  )

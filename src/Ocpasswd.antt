-- ===== src/Ocpasswd.antt =====
-- internal/ocserv/ocpasswd.go: the password file of an instance, "username:groupname:hash" per line.
-- A password is set by the `ocpasswd` tool, which is a parameter; reads and deletions are here.
pub mod Lines
pub mod Users
pub mod Laws
use openconnectd.Base.{
  ℕ, suc, ◌≡◌, refl, Bool, true, false, not, ◌&&◌, ◌||◌, List, [], ◌∷◌, ◌++◌, reverse, map, Option,
  none, some, Text, codes, is_nil, any, keep, length, take, ◌==◌, leb, same, if◌then◌else◌,
}
use openconnectd.Strings.{trim_space, is_blank, has_prefix, index_byte}
use openconnectd.Errors.{
  Error, Result, ok, err, Ok, ◌>>=◌, user_required, line_too_long, ocpasswd_missing,
  ocpasswd_failed, is_not_exist, wrap,
}
use openconnectd.Exec.{Exec, continue, skip}
use openconnectd.Host.{Env, Host, call, read_file, write_file}

pub record Ocpasswd : Type 0 where
  pub bin : Text
  pub file : Text

abbrev strip_cr_reversed : Text → Text
strip_cr_reversed [] = []
strip_cr_reversed (c ∷ s) = if c == b'\r' then s else c ∷ s

-- bufio.ScanLines drops one carriage return before the newline.
pub strip_cr : Text → Text
strip_cr line = reverse (strip_cr_reversed (reverse line))

-- The line that is being read, reversed, and the file behind it. The last line may have no newline.
raw_lines : Text → Text → List Text
raw_lines line [] = if is_nil line then [] else reverse line ∷ []
raw_lines line (c ∷ s) =
    let rest = raw_lines [] s in
    let more = raw_lines (c ∷ line) s in if c == b'\n' then reverse line ∷ rest else more

-- bufio.MaxScanTokenSize: no newline within the buffer is an error
max_token : ℕ
max_token = 65536

-- The scanner's lines; `none` is bufio.ErrTooLong.
unfoldable pub scan : Text → Option (List Text)
unfolding raw_lines strip_cr max_token
scan content =
    let raw = raw_lines [] content in
    if any (λ l. leb max_token (length l)) raw then none else some (map strip_cr raw)

user_before : Text → Option ℕ → Text
user_before line none = []
user_before line (some i) = take i line

-- Behind the trim. An empty name is no name.
user_of : Text → Text
unfolding user_before
user_of line =
    if is_nil line || has_prefix line (codes "#")
    then []
    else user_before line (index_byte line b':')

unfoldable pub line_user : Text → Text
unfolding user_of
line_user line = user_of (trim_space line)

-- The keys of `users`: each name once. Go ranges over them in any order.
unfoldable pub users_of : List Text → List Text
unfolding line_user
users_of [] = []
users_of (l ∷ lines) =
    let u = line_user l in
    let rest = users_of lines in if is_nil u || any (λ v. same v u) rest then rest else u ∷ rest

scanned : Option (List Text) → Result (List Text)
scanned none = err line_too_long
scanned (some lines) = ok lines

-- `write` puts a newline behind each line.
unfoldable pub unlines : List Text → Text
unlines [] = []
unlines (l ∷ lines) = l ++ b'\n' ∷ unlines lines

listed : Result (List Text) → Result (List Text)
listed (ok lines) = ok (users_of lines)
listed (err e) = if is_not_exist e then ok [] else err e

-- exec.Cmd with CombinedOutput: the program, its arguments and its input; how it ends, what it
-- prints, and the host behind it.
abbrev pub Tool : Type 0
Tool = Text → List Text → Text → Host → Ok × Text × Host

-- `-c file`, `-g group` if there is one, and the user
unfoldable pub tool_args : Text → Text → Text → List Text
tool_args file user group =
    codes "-c" ∷ file ∷ (if is_nil group then user ∷ [] else codes "-g" ∷ group ∷ user ∷ [])

tool_result : Text → Ok → Text → Ok
tool_result user (ok done) out = ok done
tool_result user (err e) out = err (ocpasswd_failed user e (trim_space out))

module _ (env : Env) (o : Ocpasswd) where
  read : Exec Host (List Text)
  unfolding scanned
  read h = let (r, h') = read_file env o.file h in (r >>= λ content. scanned (scan content), h')

  -- A file that is not there has no users.
  unfoldable pub list_users : Exec Host (List Text)
  unfolding read listed
  list_users h = let (r, h') = read h in (listed r, h')

  without : Text → List Text → Exec Host (Unit {0})
  without user lines =
      if any (λ u. same u user) (users_of lines)
      then write_file env o.file (unlines (keep (λ l. not (same (line_user l) user)) lines))
      else skip

  delete_read : Text → Result (List Text) → Exec Host (Unit {0})
  unfolding without
  delete_read user (ok lines) h = without user lines h
  delete_read user (err e) h = if is_not_exist e then (ok tt, h) else (err e, h)

  unfoldable pub delete_user : Text → Exec Host (Unit {0})
  unfolding read delete_read
  delete_user user h = let (r, h') = read h in delete_read user r h'

  -- The tool is `bin`, or what LookPath finds, whose path stands here as its name.
  find_tool : Exec Host Text
  find_tool h =
      if is_nil o.bin
      then (let (r, h') = call env h in
          (wrap ocpasswd_missing r >>= λ _. ok (codes "ocpasswd"), h'))
      else (ok o.bin, h)

  run_tool : Tool → Text → Text → Text → Text → Exec Host (Unit {0})
  unfolding tool_result
  run_tool tool user group password bin h =
      let (r, out, h') =
        tool bin (tool_args o.file user group) (password ++ b'\n' ∷ (password ++ b'\n' ∷ [])) h in
      (tool_result user r out, h')

  unfoldable pub set_password : Tool → Text → Text → Text → Exec Host (Unit {0})
  unfolding find_tool run_tool
  set_password tool user group password h =
      if is_blank user
      then (err user_required, h)
      else (let (r, h') = find_tool h in continue r (run_tool tool user group password) h')

sample : Text
sample = codes "# users\nalice:*:$5$x\r\n\n bob::h\nalice:g:y"

lines_of_sample :
    (scan sample
      ≡ some
          (codes "# users" ∷ codes "alice:*:$5$x" ∷ [] ∷ codes " bob::h" ∷ codes "alice:g:y" ∷ []))
    × (map line_user (codes "# users" ∷ codes " bob::h" ∷ codes ":x" ∷ codes "nobody" ∷ [])
        ≡ [] ∷ codes "bob" ∷ [] ∷ [] ∷ [])
unfolding scan sample line_user trim_space has_prefix index_byte
lines_of_sample = (refl, refl)

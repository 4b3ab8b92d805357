-- ===== src/Occtl.antt =====
-- internal/ocserv/occtl.go: what a running ocserv answers on its control socket. json.Unmarshal and
-- strconv.ParseFloat are parameters, and so is the tool.
pub mod Commas
pub mod Laws
use openconnectd.Base.{
  ℕ, zero, suc, ◌+◌, ◌-◌, ◌%◌, ◌^◌, Bool, true, false, ◌&&◌, ◌||◌, not, List, [], ◌∷◌, ◌++◌, map,
  Option, none, some, Text, codes, same, take, is_nil, if◌then◌else◌, ltb,
}
use openconnectd.Base.Int.{ℤ, pos, negsuc, is_pos}
use openconnectd.Strings.{trim_space, trim_byte, to_lower, index_byte, contains, is_blank, atoi}
use openconnectd.Errors.{
  Error, Result, Ok, ok, err, wrap, username_required, occtl_ip_required, occtl_missing,
  occtl_failed, not_banned_here, parse_users, parse_ban_list, bad_numeric,
}
use openconnectd.Exec.{Exec, continue, ◌>>=◌, ◌>>◌, pure, raise, refuse, lift, wrapping, skip}
use openconnectd.Host.{Env, Host, call}
use openconnectd.Api.{Session, Ban}
use openconnectd.Occtl.Commas.{strip_commas}

pub record Occtl : Type 0 where
  pub bin : Text

-- A row of `show users`. Its numbers are flexUint, and `id` and `raw_connected` the text of a number.
pub record RawSession : Type 0 where
  pub id : Text
  pub username : Text
  pub vhost : Text
  pub device : Text
  pub remote_ip : Text
  pub ipv4 : Text
  pub rx : ℕ
  pub tx : ℕ
  pub raw_connected : Text
  pub user_agent : Text
  pub dtls_cipher : Text
  pub session : Text

-- A row of `show ip bans` or `show ip ban points`.
pub record RawBan : Type 0 where
  pub ip : Text
  pub since : Text
  pub score : ℕ

-- strconv.ParseFloat with the conversion to uint64, and json.Unmarshal into rows, which calls the
-- method it is given for each flexUint.
pub record Reader : Type 0 where
  pub parse_float : Text → Result ℕ
  pub unmarshal_users : (Text → Result ℕ) → Text → Result (List RawSession)
  pub unmarshal_bans : (Text → Result ℕ) → Text → Result (List RawBan)

-- occtl: whether it succeeds with these arguments, and what it prints, if it is the n-th call to the
-- system. It writes no file of the daemon.
abbrev pub Tool : Type 0
Tool = Text → List Text → ℕ → Ok × Text

-- `s[:i]` at the first space, unless it is at the front
abbrev cut_at : Text → Option ℕ → Text
cut_at s none = s
cut_at s (some zero) = s
cut_at s (some (suc i)) = take (suc i) s

abbrev without_unit : Text → Text
without_unit s = cut_at s (index_byte s b' ')

-- `s` is behind strings.Trim.
unfoldable pub read_number : (Text → Result ℕ) → Text → Result ℕ
read_number parse s =
    if is_nil s || same s (codes "null")
    then ok 0
    else wrap (bad_numeric (without_unit s)) (parse (without_unit s))

-- flexUint.UnmarshalJSON
unfoldable pub flex_uint : (Text → Result ℕ) → Text → Result ℕ
flex_uint parse b = read_number parse (trim_byte b'"' b)

unfoldable pub dtls_active : Text → Bool
dtls_active cipher =
    let c = to_lower (trim_space cipher) in
    not (is_nil c) && not (same c (codes "(none)")) && not (same c (codes "none"))

-- time.Unix of a positive number; the zero time is `none`.
abbrev time_of : Option ℤ → Option ℤ
time_of none = none
time_of (some n) = if is_pos n then some n else none

unfoldable pub connected_at : Text → Option ℤ
connected_at raw = if is_nil raw then none else time_of (atoi raw)

unfoldable pub session_of : RawSession → Session
session_of r = record {
  common_name = r.username;
  instance_name = [];
  vpn_address = r.ipv4;
  device = r.device;
  remote_ip = r.remote_ip;
  rx_bytes = r.rx;
  tx_bytes = r.tx;
  connected_at = connected_at r.raw_connected;
  user_agent = r.user_agent;
  dtls = dtls_active r.dtls_cipher;
  session_id = r.session;
}

unfoldable pub parse_sessions : List RawSession → List Session
parse_sessions raw = map session_of raw

-- `int(n)` of a uint64, in two's complement
unfoldable pub to_int : ℕ → ℤ
to_int n = let u = n % 2 ^ 64 in if ltb u (2 ^ 63) then pos u else negsuc (2 ^ 64 - 1 - u)

unfoldable pub ban_of : Bool → RawBan → Ban
ban_of banned r = record {
  ip = r.ip;
  instance_name = [];
  score = to_int r.score;
  banned = banned;
  since = trim_space r.since;
}

-- A row without an address is left out.
unfoldable pub bans_of : Bool → List RawBan → List Ban
bans_of banned [] = []
bans_of banned (r ∷ raw) =
    let rest = bans_of banned raw in if is_blank r.ip then rest else ban_of banned r ∷ rest

abbrev listed_bans : Bool → Result (List RawBan) → Result (List Ban)
listed_bans banned (ok raw) = ok (bans_of banned raw)
listed_bans banned (err e) = err (parse_ban_list e)

abbrev listed_users : Result (List RawSession) → Result (List Session)
listed_users (ok raw) = ok (parse_sessions raw)
listed_users (err e) = err (parse_users e)

module _ (reader : Reader) where
  abbrev number : Text → Result ℕ
  number = flex_uint reader.parse_float

  -- `s` is behind strings.TrimSpace.
  unfoldable pub parse_users_text : Text → Result (List Session)
  parse_users_text s =
      if is_nil s || same s (codes "[]")
      then ok []
      else listed_users (reader.unmarshal_users number s)

  abbrev stripped_bans : Text → Bool → Result (List Ban)
  stripped_bans s banned =
      if same s (codes "[]") then ok [] else listed_bans banned (reader.unmarshal_bans number s)

  unfoldable pub parse_bans : Text → Bool → Result (List Ban)
  parse_bans out banned =
      if is_blank out then ok [] else stripped_bans (strip_commas (trim_space out)) banned

unfoldable pub full_args : Text → List Text → List Text
full_args socket args = codes "-j" ∷ (if is_nil socket then args else codes "-s" ∷ socket ∷ args)

-- `CombinedOutput`: what the tool prints, and whether it succeeds.
abbrev pub output_of : List Text → Text → Result (Unit {0}) → Result Text
output_of args out (ok _) = ok out
output_of args out (err e) = err (occtl_failed args e (trim_space out))

-- occtl says so of an address it does not hold, and succeeds.
unfoldable pub denies : Text → Bool
denies out = contains (to_lower out) (codes "could not unban")

module _ (env : Env) (tool : Tool) (o : Occtl) where
  -- The path that LookPath finds stands as the tool's name.
  unfoldable pub find_occtl : Exec Host Text
  find_occtl =
      if is_nil o.bin
      then (do wrapping occtl_missing (call env); pure (codes "occtl"))
      else pure o.bin

  unfoldable pub command : Text → List Text → List Text → Exec Host Text
  command bin full args h =
      let (r, out) = tool bin full h.calls in
      (output_of args out r, record h { calls = suc h.calls })

  unfoldable pub run : Text → List Text → Exec Host Text
  run socket args = do bin ← find_occtl; command bin (full_args socket args) args

  unfoldable pub show_users : Reader → Text → Exec Host (List Session)
  show_users reader socket = run socket (codes "show" ∷ codes "users" ∷ []) >>= λ out.
      lift (parse_users_text reader (trim_space out))

  unfoldable pub show_ip_bans : Reader → Text → Exec Host (List Ban)
  show_ip_bans reader socket = run socket (codes "show" ∷ codes "ip" ∷ codes "bans" ∷ []) >>= λ out.
      lift (parse_bans reader out true)

  unfoldable pub show_ip_ban_points : Reader → Text → Exec Host (List Ban)
  show_ip_ban_points reader socket =
      run socket (codes "show" ∷ codes "ip" ∷ codes "ban" ∷ codes "points" ∷ []) >>= λ out.
      lift (parse_bans reader out false)

  unfoldable pub disconnect : Text → Text → Exec Host (Unit {0})
  disconnect socket username = do
    refuse (is_blank username) username_required
    run socket (codes "disconnect" ∷ codes "user" ∷ username ∷ [])
    skip

  unfoldable pub unban_ip : Text → Text → Exec Host (Unit {0})
  unban_ip socket ip = do
    refuse (is_blank ip) occtl_ip_required
    out ← run socket (codes "unban" ∷ codes "ip" ∷ ip ∷ [])
    refuse (denies out) (not_banned_here ip)

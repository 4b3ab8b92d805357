-- ===== src/Occtl/Laws.antt =====
-- What the lists of internal/ocserv/occtl.go hold.
use openconnectd.Base.{
  ◌≡◌, refl, Bool, true, false, [], ◌∷◌, List, Text, All, codes, same, Bool-cases, inl, inr,
  if◌then◌else◌,
}
use openconnectd.Strings.{is_blank, trim_space}
use openconnectd.Errors.{Result, ok, err, Returns}
use openconnectd.Exec.Gives.{Gives, Gives-then, Gives-lift}
use openconnectd.Host.{Env}
use openconnectd.Api.{Ban}
use openconnectd.Occtl.{
  Occtl, Tool, Reader, RawBan, bans_of, ban_of, listed_bans, parse_bans, show_ip_bans,
  show_ip_ban_points,
}
use openconnectd.Occtl.Commas.{strip_commas}

-- A ban of an address, from the list that `banned` names.
abbrev pub IsFrom : Bool → Ban → Type 0
IsFrom banned b = (is_blank b.ip ≡ false) × (b.banned ≡ banned)

bans_of-IsFrom : (banned : Bool) (raw : List RawBan) → All (IsFrom banned) (bans_of banned raw)
unfolding bans_of ban_of
bans_of-IsFrom banned [] = tt
bans_of-IsFrom banned (r ∷ raw) = elim (Bool-cases (is_blank r.ip)) [
  | inl e ↦ rw e (bans_of-IsFrom banned raw)
  | inr e ↦ rw e ((e, refl), bans_of-IsFrom banned raw)
]

listed_bans-IsFrom :
    (banned : Bool) (r : Result (List RawBan))
    → Returns (All (IsFrom banned)) (listed_bans banned r)
listed_bans-IsFrom banned (ok raw) = bans_of-IsFrom banned raw
listed_bans-IsFrom banned (err e) = tt

Returns-if :
    (P : List Ban → Type 0) (b : Bool) (r q : Result (List Ban))
    → Returns P r
    → Returns P q
    → Returns P (if b then r else q)
Returns-if P true r q hr hq = hr
Returns-if P false r q hr hq = hq

-- No ban list has a row without an address, and each row is marked with the list it came from.
pub parse_bans-IsFrom :
    (reader : Reader) (out : Text) (banned : Bool)
    → Returns (All (IsFrom banned)) (parse_bans reader out banned)
unfolding parse_bans
parse_bans-IsFrom reader out banned = Returns-if _ (is_blank out) (ok []) _ tt (
    Returns-if _ (same (strip_commas (trim_space out)) (codes "[]")) (ok []) _ tt
      (listed_bans-IsFrom banned _))

module _ (env : Env) (tool : Tool) (o : Occtl) (reader : Reader) (socket : Text) where
  pub show_ip_bans-IsFrom : Gives (All (IsFrom true)) (show_ip_bans env tool o reader socket)
  unfolding show_ip_bans
  show_ip_bans-IsFrom = Gives-then _ _ λ out. Gives-lift _ (parse_bans-IsFrom reader out true)

  pub show_ip_ban_points-IsFrom :
      Gives (All (IsFrom false)) (show_ip_ban_points env tool o reader socket)
  unfolding show_ip_ban_points
  show_ip_ban_points-IsFrom =
      Gives-then _ _ λ out. Gives-lift _ (parse_bans-IsFrom reader out false)

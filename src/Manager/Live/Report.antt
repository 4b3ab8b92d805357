-- ===== src/Manager/Live/Report.antt =====
-- Reports of bans, as the manager of internal/ocserv/manager.go puts them together.
use openconnectd.Base.{
  ◌≡◌, ℕ, refl, Bool, true, false, ◌&&◌, ◌||◌, not, List, [], ◌∷◌, ◌++◌, any, keep, All, All-append,
  length, Text, same, same_iff, arith, Bool-cases, inl, inr, ltb, ◌==◌,
}
use openconnectd.Errors.{Result, ok, err, Returns}
use openconnectd.Api.{Ban}
use openconnectd.Occtl.Laws.{IsFrom}
use openconnectd.Manager.Live.{bans_on, is_seen, merge, Tally, tally, report}

-- The report names the address as banned on the instance, or as scored.
abbrev pub is_banned : Text → Text → List Ban → Bool
is_banned n ip = any (λ b. same b.instance_name n && same b.ip ip && b.banned)

abbrev pub is_scored : Text → Text → List Ban → Bool
is_scored n ip = any (λ b. same b.instance_name n && same b.ip ip && not b.banned)

abbrev pub is_in : Text → List Text → Bool
is_in n names = any (λ k. same k n) names

abbrev pub IsAmong : List Text → Ban → Type 0
IsAmong names b = is_in b.instance_name names ≡ true

abbrev pub IsClean : List Ban → Type 0
IsClean out = (n ip : Text) → is_banned n ip out ≡ true → is_scored n ip out ≡ false

abbrev pub Distinct : List Text → Type 0
Distinct [] = Unit
Distinct (k ∷ names) = (is_in k names ≡ false) × Distinct names

any-append : (p : Ban → Bool) (xs ys : List Ban) → any p (xs ++ ys) ≡ (any p xs || any p ys)
any-append p [] ys = refl
any-append p (x ∷ xs) ys = ground (arith, any-append p xs ys)

bans_on-IsAmong :
    (name : Text) (names : List Text) (bs : List Ban)
    → All (IsAmong (name ∷ names)) (bans_on name bs)
unfolding bans_on
bans_on-IsAmong name names [] = tt
bans_on-IsAmong name names (b ∷ bs) =
    (ground (arith, same_iff name name), bans_on-IsAmong name names bs)

wider :
    (name : Text) (names : List Text) (bs : List Ban)
    → All (IsAmong names) bs
    → All (IsAmong (name ∷ names)) bs
wider name names [] h = tt
wider name names (b ∷ bs) h = (ground arith, wider name names bs h.1)

scored-bans :
    (name n ip : Text) (bs : List Ban)
    → All (IsFrom true) bs
    → is_scored n ip (bans_on name bs) ≡ false
unfolding bans_on
scored-bans name n ip [] h = refl
scored-bans name n ip (b ∷ bs) h = ground (arith, scored-bans name n ip bs)

banned-points :
    (name n ip : Text) (bs : List Ban)
    → All (IsFrom false) bs
    → is_banned n ip (bans_on name bs) ≡ false
unfolding bans_on
banned-points name n ip [] h = refl
banned-points name n ip (b ∷ bs) h = ground (arith, banned-points name n ip bs)

banned-seen :
    (name n ip : Text) (bs : List Ban)
    → is_banned n ip (bans_on name bs) ≡ true
    → any (λ a. same a.ip ip) bs ≡ true
unfolding bans_on
banned-seen name n ip [] h = cc
banned-seen name n ip (b ∷ bs) h = ground (arith, banned-seen name n ip bs)

IsFrom-keep :
    (f : Bool) (p : Ban → Bool) (bs : List Ban) → All (IsFrom f) bs → All (IsFrom f) (keep p bs)
IsFrom-keep f p [] h = tt
IsFrom-keep f p (b ∷ bs) h = elim (Bool-cases (p b)) [
  | inl e ↦ rw e (h.0, IsFrom-keep f p bs h.1)
  | inr e ↦ rw e (IsFrom-keep f p bs h.1)
]

seen-point :
    (bs : List Ban) (ip : Text) (b : Ban)
    → any (λ a. same a.ip ip) bs ≡ true
    → same b.ip ip ≡ true
    → is_seen bs b ≡ true
seen-point bs ip b h e = rw ((same_iff b.ip ip).0 e) h

scored-points :
    (name n ip : Text) (bs ps : List Ban)
    → any (λ a. same a.ip ip) bs ≡ true
    → is_scored n ip (bans_on name (keep (λ b. not (is_seen bs b)) ps)) ≡ false
unfolding bans_on
scored-points name n ip bs [] h = refl
scored-points name n ip bs (p ∷ ps) h = elim (Bool-cases (is_seen bs p)) [
  | inl e ↦ rw e (scored-points name n ip bs ps h)
  | inr e ↦ rw e (ground (arith, scored-points name n ip bs ps h, seen-point bs ip p h))
]

-- The answer for one instance.
pub merge-IsClean :
    (name : Text) (bs : List Ban) (ps : Result (List Ban))
    → All (IsFrom true) bs
    → Returns (All (IsFrom false)) ps
    → IsClean (merge name bs ps)
unfolding merge
merge-IsClean name bs (err e) hb hp n ip h = scored-bans name n ip bs hb
merge-IsClean name bs (ok ps) hb hp n ip h =
    let kept = keep (λ b. not (is_seen bs b)) ps in
    let none' = banned-points name n ip kept (IsFrom-keep false _ ps hp) in
    let mine : is_banned n ip (bans_on name bs) ≡ true = ground (
      arith,
      any-append (λ b. same b.instance_name n && same b.ip ip && b.banned) (bans_on name bs)
          (bans_on name kept),
    ) in
    ground (
      arith,
      any-append (λ b. same b.instance_name n && same b.ip ip && not b.banned) (bans_on name bs)
          (bans_on name kept),
      scored-bans name n ip bs hb,
      scored-points name n ip bs ps (banned-seen name n ip bs mine),
    )

pub merge-IsAmong :
    (name : Text) (names : List Text) (bs : List Ban) (ps : Result (List Ban))
    → All (IsAmong (name ∷ names)) (merge name bs ps)
unfolding merge
merge-IsAmong name names bs (err e) = bans_on-IsAmong name names bs
merge-IsAmong name names bs (ok ps) =
    All-append _ _ _ (bans_on-IsAmong name names bs) (bans_on-IsAmong name names _)

among-banned :
    (n ip : Text) (names : List Text) (bs : List Ban)
    → All (IsAmong names) bs
    → is_banned n ip bs ≡ true
    → is_in n names ≡ true
among-banned n ip names [] h e = cc
among-banned n ip names (b ∷ bs) h e = elim (Bool-cases (same b.instance_name n)) [
  | inl s ↦ rw (← (same_iff b.instance_name n).0 s) h.0
  | inr s ↦ among-banned n ip names bs h.1 (ground arith)
]

among-scored :
    (n ip : Text) (names : List Text) (bs : List Ban)
    → All (IsAmong names) bs
    → is_scored n ip bs ≡ true
    → is_in n names ≡ true
among-scored n ip names [] h e = cc
among-scored n ip names (b ∷ bs) h e = elim (Bool-cases (same b.instance_name n)) [
  | inl s ↦ rw (← (same_iff b.instance_name n).0 s) h.0
  | inr s ↦ among-scored n ip names bs h.1 (ground arith)
]

-- Two reports that are clean, and have no instance in common.
append-IsClean :
    (names : List Text) (k : Text) (mine rest : List Ban)
    → is_in k names ≡ false
    → All (IsAmong (k ∷ [])) mine
    → All (IsAmong names) rest
    → IsClean mine
    → IsClean rest
    → IsClean (mine ++ rest)
append-IsClean names k mine rest new hm hr cm cr n ip h = ground (
  arith,
  any-append (λ b. same b.instance_name n && same b.ip ip && b.banned) mine rest,
  any-append (λ b. same b.instance_name n && same b.ip ip && not b.banned) mine rest,
  cm n ip,
  cr n ip,
  among-banned n ip (k ∷ []) mine hm,
  among-scored n ip (k ∷ []) mine hm,
  among-banned n ip names rest hr,
  among-scored n ip names rest hr,
  same_iff k n,
)

abbrev pub IsReport : List Text → List Ban → Type 0
IsReport names out = IsClean out × All (IsAmong names) out

-- Every answer keeps the tally a report.
pub tally-IsReport :
    (name : Text) (names : List Text) (answer : Result (List Ban)) (t : Tally)
    → is_in name names ≡ false
    → Returns (IsReport (name ∷ [])) answer
    → IsReport names t.0
    → IsReport (name ∷ names) (tally name answer t).0
unfolding tally
tally-IsReport name names (ok mine) (rest, failed) new h hr = (
  append-IsClean names name mine rest new h.1 hr.1 h.0 hr.0,
  All-append _ mine rest (narrow mine h.1) (wider name names rest hr.1),
)
  where
    narrow : (bs : List Ban) → All (IsAmong (name ∷ [])) bs → All (IsAmong (name ∷ names)) bs
    narrow [] h = tt
    narrow (b ∷ bs) h = (ground arith, narrow bs h.1)
tally-IsReport name names (err e) (rest, failed) new h hr = (hr.0, wider name names rest hr.1)

pub report-Returns : (asked : ℕ) (t : Tally) → IsClean t.0 → Returns IsClean (report asked t)
unfolding report
report-Returns asked (out, failed) h =
    elim (Bool-cases (ltb 0 (length failed) && (length failed == asked))) [
      | inl e ↦ rw e tt
      | inr e ↦ rw e h
    ]

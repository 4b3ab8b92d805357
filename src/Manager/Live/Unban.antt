-- ===== src/Manager/Live/Unban.antt =====
-- Unban of internal/ocserv/manager.go gives every instance its turn, whatever the others answer.
use openconnectd.Base.{
  ℕ, zero, suc, ◌≡◌, refl, ap, ◌∙◌, Bool, true, false, ◌||◌, not, List, [], ◌∷◌, none, some, Text,
  codes, is_nil, ltb, arith, inl, inr, Bool-cases, if◌then◌else◌,
}
use openconnectd.Strings.{is_blank}
use openconnectd.Errors.{
  Result, Result-cases, Ok, ok, err, is_ok, Error, occtl_failed, not_banned_here,
}
use openconnectd.Exec.{refuse, continue}
use openconnectd.Host.{Host, call}
use openconnectd.Strings.{trim_space}
use openconnectd.Occtl.{full_args, denies, unban_ip, run, find_occtl, command, output_of}
use openconnectd.Manager.{Setting, World, on_host}
use openconnectd.Manager.Config.{occtl_socket}
use openconnectd.Manager.Live.{
  instance_names, occtl, Cleared, count, verdict, clear, clear_all, unban,
}

-- The tool did what it was asked.
abbrev accepted : Ok × Text → Bool
accepted (ok _, out) = not (denies out)
accepted (err e, out) = false

-- The world with its next call to the system being the `n`-th.
abbrev pub at_call : ℕ → World → World
at_call n w = record w { host = record w.host { calls = n } }

module _ (m : Setting) (ip : Text) where
  abbrev asked : List Text
  asked = codes "unban" ∷ codes "ip" ∷ ip ∷ []

  -- What occtl, under the path `bin`, answers for one instance, as the n-th call.
  abbrev answer : Text → Text → ℕ → Ok × Text
  answer bin name n = m.prints bin (full_args (occtl_socket m.cfg name) asked) n

  -- The n-th call succeeds.
  unfoldable pub succeeds : ℕ → Bool
  succeeds n = is_ok (call m.env (record { files = []; calls = n })).0

  succeeds-call : (h : Host) → succeeds h.calls ≡ is_ok (call m.env h).0
  unfolding call succeeds
  succeeds-call h = refl

  -- Whether one instance lets the address go, and the next call. Without a path the tool is looked for
  -- first, which is a call of its own.
  abbrev pub turn : Text → ℕ → Bool × ℕ
  turn name n =
      if is_nil m.cfg.occtl_bin
      then (if succeeds n
          then (accepted (answer (codes "occtl") name (suc n)), suc (suc n))
          else (false, suc n))
      else (accepted (answer m.cfg.occtl_bin name n), suc n)

  -- One of the instances lets the address go, the first one's turn being at the n-th call.
  abbrev pub lets_go : List Text → ℕ → Bool
  lets_go [] n = false
  lets_go (name ∷ names) n = (turn name n).0 || lets_go names (turn name n).1

  -- The call behind all of them.
  abbrev pub behind : List Text → ℕ → ℕ
  behind [] n = n
  behind (name ∷ names) n = behind names (turn name n).1

  abbrev judged : Ok × Text → Result (Unit {0})
  judged (ok _, out) = (refuse {S = Unit} (denies out) (not_banned_here ip) tt).0
  judged (err e, out) = err (occtl_failed asked e (trim_space out))

  is_ok-refuse : {S : Type 0} (b : Bool) (e : Error) (s : S) → is_ok (refuse b e s).0 ≡ not b
  is_ok-refuse true e s = refl
  is_ok-refuse false e s = refl

  is_ok-judged : (a : Ok × Text) → is_ok (judged a) ≡ accepted a
  is_ok-judged (ok _, out) = is_ok-refuse (denies out) (not_banned_here ip) tt
  is_ok-judged (err e, out) = refl

  refuse-state :
      (b : Bool) (h : Host)
      → refuse b (not_banned_here ip) h ≡ ((refuse {S = Unit} b (not_banned_here ip) tt).0, h)
  refuse-state true h = refl
  refuse-state false h = refl

  continue-judged :
      (a : Ok × Text) (h : Host)
      → continue (output_of asked a.1 a.0) (λ out. refuse (denies out) (not_banned_here ip)) h
        ≡ (judged a, h)
  continue-judged (ok _, out) h = refuse-state (denies out) h
  continue-judged (err e, out) h = refl

  ltb-count :
      (r : Result (Unit {0})) (a : Bool) (c : Cleared) (rest : Bool)
      → is_ok r ≡ a
      → (ltb 0 (count r c).0 || rest) ≡ (ltb 0 c.0 || (a || rest))
  unfolding count
  ltb-count (ok u) a (n, last) rest e = ground arith
  ltb-count (err x) a (n, last) rest e = ground arith

  is_ok-verdict : (c : Cleared) → is_ok (verdict ip c) ≡ ltb 0 c.0
  unfolding verdict
  is_ok-verdict (zero, none) = refl
  is_ok-verdict (zero, some e) = refl
  is_ok-verdict (suc k, last) = ground arith

  -- What unban_ip comes to for one instance: a result that is good if the instance lets go, and the
  -- next call.
  abbrev Asked : Text → World → Result (Unit {0}) × World → Type 0
  Asked name w r =
      (is_ok r.0 ≡ (turn name w.host.calls).0) × (r.1 ≡ at_call (turn name w.host.calls).1 w)

  module _ (shown : is_blank ip ≡ false) where
    unban_ip-Asked :
        (name : Text) (w : World)
        → Asked name w (on_host (unban_ip m.env m.prints (occtl m) (occtl_socket m.cfg name) ip) w)
    unfolding on_host unban_ip run find_occtl command full_args call denies
    unban_ip-Asked name w = elim (Bool-cases (is_nil m.cfg.occtl_bin)) [
      | inr set ↦
          let h' = record w.host { calls = suc w.host.calls } in
          rw (set, shown, continue-judged (answer m.cfg.occtl_bin name w.host.calls) h')
            (is_ok-judged (answer m.cfg.occtl_bin name w.host.calls), refl)
      | inl unset ↦ elim (Result-cases (call m.env w.host).0) [
        | inl (u, e) ↦
            let h' = record w.host { calls = suc (suc w.host.calls) } in
            rw (unset, shown)
              (rw (succeeds-call w.host, e)
                (rw (continue-judged (answer (codes "occtl") name (suc w.host.calls)) h')
                  (is_ok-judged (answer (codes "occtl") name (suc w.host.calls)), refl)))
        | inr (x, e) ↦ rw (unset, shown) (rw (succeeds-call w.host, e) (refl, refl))
      ]
    ]

    -- What is counted at the end, and the world then.
    abbrev Counts : List Text → Cleared → World → Result Cleared × World → Type 0
    Counts names c w r =
        (end : Cleared) × (r ≡ (ok end, at_call (behind names w.host.calls) w))
        × (ltb 0 end.0 ≡ (ltb 0 c.0 || lets_go names w.host.calls))

    clear-Counts :
        (names : List Text) (c : Cleared) (w : World) → Counts names c w (clear m ip names c w)
    unfolding clear
    clear-Counts [] c w = (c, refl, ground arith)
    clear-Counts (name ∷ names) c w =
        let r = on_host (unban_ip m.env m.prints (occtl m) (occtl_socket m.cfg name) ip) w in
        let (good, next) = unban_ip-Asked name w in
        let (t, n) = turn name w.host.calls in
        let (end, ends, counted) = clear-Counts names (count r.0 c) (at_call n w) in
        (
          end,
          ap (clear m ip names (count r.0 c)) next ∙ ends,
          counted ∙ ltb-count r.0 t c (lets_go names n) good,
        )

  -- If the address is not blank, Unban has every instance's turn, whatever the others answer, and succeeds
  -- exactly if one of the instances lets the address go. A turn is one call of occtl; without a path
  -- in the settings the tool is looked for first, at each turn, and if it is not found the turn is over
  -- and the instance has not been asked.
  pub unban_lem :
      (w : World)
      → is_blank ip ≡ false
      → ((unban m ip w).1 ≡ at_call (behind (instance_names w) w.host.calls) w)
        × (is_ok (unban m ip w).0 ≡ lets_go (instance_names w) w.host.calls)
  unfolding unban clear_all
  unban_lem w shown =
      let names = instance_names w in
      let (end, ends, counted) = clear-Counts shown names (0, none) w in
      rw (shown, ends) (refl, is_ok-verdict end ∙ counted)

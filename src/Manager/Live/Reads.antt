-- ===== src/Manager/Live/Reads.antt =====
-- What internal/ocserv/manager.go asks of a running ocserv leaves the records and the processes alone.
use openconnectd.Base.{List, [], ◌∷◌, ◌++◌, length, Text, is_nil}
use openconnectd.Errors.{Result, ok, err}
use openconnectd.Exec.{pure}
use openconnectd.Api.{Ban}
use openconnectd.Manager.{Setting}
use openconnectd.Manager.Keeps.{
  Cond, Moves, moves_rules, Moves-bind, Moves-attempt, Moves-on_host, Moves-pure, Moves-if,
  Moves-refuse, Moves-guard,
}
use openconnectd.Manager.Live.{
  gather_sessions, sessions, with_points, ask_bans, gather_bans, bans_of_names, bans, Cleared,
  clear, clear_all, unban, disconnect, instance_names, report, verdict, tally, sessions_on,
}

module _ (m : Setting) (P : Cond) where
  returns {ℓ} : {A : Type ℓ} (a : A) → Moves P P (pure a)
  returns a = Moves-pure (λ r s p. p) a

  Moves-gather_sessions : (names : List Text) → Moves P P (gather_sessions m names)
  unfolding gather_sessions
  Moves-gather_sessions [] = returns _
  Moves-gather_sessions (name ∷ names) = Moves-bind _ _ (Moves-attempt _ (Moves-on_host _)) λ found.
      Moves-bind _ _ (Moves-gather_sessions names) λ rest. returns (sessions_on name found ++ rest)

  pub Moves-sessions : (name : Text) → Moves P P (sessions m name)
  unfolding sessions
  Moves-sessions name =
      Moves-if (is_nil name) _ _
        (record { at = λ w. (Moves-gather_sessions (instance_names w)).at w })
        (Moves-bind _ _ (Moves-guard _ _) λ _. Moves-gather_sessions (name ∷ []))

  Moves-with_points :
      (name : Text) (answer : Result (List Ban)) → Moves P P (with_points m name answer)
  unfolding with_points
  Moves-with_points name (ok bs) = search (moves_rules, returns)
  Moves-with_points name (err e) = returns _

  Moves-ask_bans : (name : Text) → Moves P P (ask_bans m name)
  unfolding ask_bans
  Moves-ask_bans name = search (moves_rules, Moves-with_points)

  Moves-gather_bans : (names : List Text) → Moves P P (gather_bans m names)
  unfolding gather_bans
  Moves-gather_bans [] = returns _
  Moves-gather_bans (name ∷ names) =
      Moves-bind _ _ (Moves-ask_bans name)
        λ answer. Moves-bind _ _ (Moves-gather_bans names) λ rest. returns (tally name answer rest)

  Moves-bans_of_names : (names : List Text) → Moves P P (bans_of_names m names)
  unfolding bans_of_names
  Moves-bans_of_names names =
      Moves-bind _ (λ t w. (report (length names) t, w)) (Moves-gather_bans names)
        λ t. record { at = λ w p. p }

  pub Moves-bans : Moves P P (bans m)
  unfolding bans
  Moves-bans = record { at = λ w. (Moves-bans_of_names (instance_names w)).at w }

  Moves-clear : (ip : Text) (names : List Text) (c : Cleared) → Moves P P (clear m ip names c)
  unfolding clear
  Moves-clear ip [] c = returns _
  Moves-clear ip (name ∷ names) c = search (moves_rules, Moves-clear ip names)

  Moves-clear_all : (ip : Text) (names : List Text) → Moves P P (clear_all m ip names)
  unfolding clear_all
  Moves-clear_all ip names =
      Moves-bind _ (λ c w. (verdict ip c, w)) (Moves-clear ip names _) λ c. record { at = λ w p. p }

  pub Moves-unban : (ip : Text) → Moves P P (unban m ip)
  unfolding unban
  Moves-unban ip =
      Moves-bind _ (λ _ w. clear_all m ip (instance_names w) w) (Moves-refuse _ _)
        λ _. record { at = λ w. (Moves-clear_all ip (instance_names w)).at w }

  pub Moves-disconnect : (name cn : Text) → Moves P P (disconnect m name cn)
  unfolding disconnect
  Moves-disconnect name cn = search moves_rules

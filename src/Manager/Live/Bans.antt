-- ===== src/Manager/Live/Bans.antt =====
-- Bans of internal/ocserv/manager.go reports an address of an instance once: as banned, or as scored.
use openconnectd.Base.{◌≡◌, none, refl, true, false, List, [], ◌∷◌, map, All, Text, same_iff, arith}
use openconnectd.Base.Dict.{Dict, NodupKeys, lookup, values}
use openconnectd.Errors.{Result, ok, err, Returns}
use openconnectd.Exec.Gives.{Gives, Gives-pure, Gives-attempt, Gives-bind, Gives-lift}
use openconnectd.Exec.{Exec}
use openconnectd.Host.{Host}
use openconnectd.Api.{Instance, Ban}
use openconnectd.Store.{list_instances}
use openconnectd.Occtl.Laws.{IsFrom, show_ip_bans-IsFrom, show_ip_ban_points-IsFrom}
use openconnectd.Manager.{Setting, World, on_host}
use openconnectd.Manager.Config.{occtl_socket}
use openconnectd.Manager.Invariant.{is_filed}
use openconnectd.Manager.Live.Report.{
  is_banned, is_scored, is_in, IsClean, Distinct, IsReport, merge-IsClean, merge-IsAmong,
  tally-IsReport, report-Returns,
}
use openconnectd.Manager.Live.{
  instance_names, merge, occtl, with_points, ask_bans, gather_bans, bans_of_names, bans,
}

names-in :
    (k : Text) (r : Dict Instance)
    → is_filed r ≡ true
    → lookup k r ≡ none
    → is_in k (map (λ in'. in'.name) (values r)) ≡ false
unfolding values lookup
names-in k [] f h = refl
names-in k ((j, v) ∷ r) f h = ground (arith, names-in k r, same_iff v.name j, same_iff j k)

pub names-Distinct :
    (r : Dict Instance)
    → is_filed r ≡ true
    → NodupKeys r
    → Distinct (map (λ in'. in'.name) (values r))
unfolding values
names-Distinct [] f h = tt
names-Distinct ((j, v) ∷ r) f h =
    (ground (arith, names-in v.name r, h.0, same_iff v.name j), names-Distinct r (ground arith) h.1)

Gives-on_host {ℓ κ} :
    {A : Type ℓ} {P : A → Type κ} (a : Exec Host A) → Gives P a → Gives P (on_host a)
unfolding on_host
Gives-on_host a h = record { at = λ w. h.at w.host }

module _ (m : Setting) where
  Gives-with_points :
      (name : Text) (answer : Result (List Ban))
      → Returns (All (IsFrom true)) answer
      → Gives (Returns (IsReport (name ∷ []))) (with_points m name answer)
  unfolding with_points
  Gives-with_points name (err e) h = Gives-pure _ tt
  Gives-with_points name (ok bs) h =
      Gives-bind {P = Returns (All (IsFrom false))} _ _
        (Gives-attempt _ (
          Gives-on_host _ (
            show_ip_ban_points-IsFrom m.env m.prints (occtl m) m.reader (occtl_socket m.cfg name))))
        λ ps hp.
          Gives-pure (ok (merge name bs ps))
            (merge-IsClean name bs ps h hp, merge-IsAmong name [] bs ps)

  Gives-ask_bans : (name : Text) → Gives (Returns (IsReport (name ∷ []))) (ask_bans m name)
  unfolding ask_bans
  Gives-ask_bans name =
      Gives-bind {P = Returns (All (IsFrom true))} _ _
        (Gives-attempt _ (
          Gives-on_host _
            (show_ip_bans-IsFrom m.env m.prints (occtl m) m.reader (occtl_socket m.cfg name))))
        λ answer h. Gives-with_points name answer h

  Gives-gather_bans :
      (names : List Text) → Distinct names → Gives (λ t. IsReport names t.0) (gather_bans m names)
  unfolding gather_bans
  Gives-gather_bans [] d = Gives-pure _ (λ n ip h. cc, tt)
  Gives-gather_bans (name ∷ names) d = Gives-bind _ _ (Gives-ask_bans name) λ answer h.
      Gives-bind _ _ (Gives-gather_bans names d.1)
        λ t hr. Gives-pure _ (tally-IsReport name names answer t d.0 h hr)

  Gives-bans_of_names : (names : List Text) → Distinct names → Gives IsClean (bans_of_names m names)
  unfolding bans_of_names
  Gives-bans_of_names names d =
      Gives-bind _ _ (Gives-gather_bans names d) λ t h. Gives-lift _ (report-Returns _ t h.0)

  -- If Bans returns a list, no address is in it both as banned and as scored for one instance. The
  -- instances are filed under their names, each once, as in a Go map.
  pub bans_lem :
      (w : World)
      → is_filed w.store.records.instances ≡ true
      → NodupKeys w.store.records.instances
      → Returns
          (λ out. (n ip : Text) → is_banned n ip out ≡ true → is_scored n ip out ≡ false)
          (bans m w).0
  unfolding bans list_instances
  bans_lem w f d =
      (Gives-bans_of_names (instance_names w) (names-Distinct w.store.records.instances f d)).at w

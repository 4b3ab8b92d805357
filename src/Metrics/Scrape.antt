-- ===== src/Metrics/Scrape.antt =====
-- The exporter of internal/metrics/exporter.go over the manager of internal/ocserv/manager.go.
use openconnectd.Base.{
  ℕ, suc, ◌+◌, ◌≡◌, refl, true, false, List, [], ◌∷◌, ◌++◌, length, map, Text, same, same_iff,
  arith, Bool-cases, inl, inr, if◌then◌else◌, All, All-append, ◌∙◌,
}
use openconnectd.Base.Dict.{NodupKeys}
use openconnectd.Errors.{Result, ok, err, Returns}
use openconnectd.Exec.Gives.{Gives, Gives-pure, Gives-bind, Gives-then}
use openconnectd.Exec.{attempt}
use openconnectd.Api.{Instance, Session}
use openconnectd.Store.{list_instances}
use openconnectd.Manager.{Setting, World, decorate, on_host}
use openconnectd.Manager.Config.{occtl_socket}
use openconnectd.Occtl.{show_users}
use openconnectd.Manager.Instances.{list_all}
use openconnectd.Manager.Invariant.{is_filed}
use openconnectd.Manager.Live.{instance_names, sessions, gather_sessions, sessions_on, occtl}
use openconnectd.Manager.Live.Bans.{names-Distinct}
use openconnectd.Manager.Live.Report.{is_in, Distinct}
use openconnectd.Metrics.{Source, session_count}

-- The manager as the exporter sees it.
unfoldable pub manager_source : Setting → Source World
manager_source m = record { list_instances = list_all; sessions = sessions m }

-- The sum of the counts that the exposition shows.
abbrev pub total : List Instance → List Session → ℕ
total [] xs = 0
total (in' ∷ rest) xs = session_count in'.name xs + total rest xs

abbrev total_of : List Text → List Session → ℕ
total_of [] xs = 0
total_of (n ∷ names) xs = session_count n xs + total_of names xs

abbrev IsFor : List Text → Session → Type 0
IsFor names s = is_in s.instance_name names ≡ true

times_in : Text → List Text → ℕ
times_in k [] = 0
times_in k (n ∷ names) = let rest = times_in k names in if same k n then suc rest else rest

times_in-absent : (k : Text) (names : List Text) → is_in k names ≡ false → times_in k names ≡ 0
unfolding times_in
times_in-absent k [] h = refl
times_in-absent k (n ∷ names) h =
    ground (arith, times_in-absent k names, same_iff k n, same_iff n k)

times_in-Distinct :
    (k : Text) (names : List Text) → Distinct names → is_in k names ≡ true → times_in k names ≡ 1
unfolding times_in
times_in-Distinct k [] d h = cc
times_in-Distinct k (n ∷ names) d h = elim (Bool-cases (same k n)) [
  | inl e ↦ rw (e, times_in-absent k names (rw ((same_iff k n).0 e) d.0)) refl
  | inr e ↦ rw (e, times_in-Distinct k names d.1 (ground (arith, same_iff k n, same_iff n k))) refl
]

total_of-cons :
    (names : List Text) (s : Session) (xs : List Session)
    → total_of names (s ∷ xs) ≡ times_in s.instance_name names + total_of names xs
unfolding session_count times_in
total_of-cons [] s xs = omega arith
total_of-cons (n ∷ names) s xs = ground (arith, total_of-cons names s xs)

total_of-nil : (names : List Text) → total_of names [] ≡ 0
unfolding session_count
total_of-nil [] = refl
total_of-nil (n ∷ names) = omega (arith, total_of-nil names)

total_of-length :
    (names : List Text) (xs : List Session)
    → Distinct names
    → All (IsFor names) xs
    → total_of names xs ≡ length xs
total_of-length names [] d h = total_of-nil names
total_of-length names (s ∷ xs) d h =
    rw
      (
        total_of-cons names s xs,
        times_in-Distinct s.instance_name names d h.0,
        total_of-length names xs d h.1,
      )
      (omega arith)

-- The sessions of an instance carry its name.
sessions_on-IsFor :
    (name : Text) (names : List Text) (r : Result (List Session))
    → All (IsFor (name ∷ names)) (sessions_on name r)
unfolding sessions_on
sessions_on-IsFor name names (ok []) = tt
sessions_on-IsFor name names (ok (x ∷ xs)) =
    (ground (arith, same_iff name name), sessions_on-IsFor name names (ok xs))
sessions_on-IsFor name names (err e) = tt

wider :
    (name : Text) (names : List Text) (xs : List Session)
    → All (IsFor names) xs
    → All (IsFor (name ∷ names)) xs
wider name names [] h = tt
wider name names (x ∷ xs) h = (ground arith, wider name names xs h.1)

list_all-names :
    (w : World) (xs : List Instance)
    → map (λ in'. in'.name) (map (λ in'. decorate in' w) xs) ≡ map (λ in'. in'.name) xs
unfolding decorate
list_all-names w [] = refl
list_all-names w (x ∷ xs) = rw (list_all-names w xs) refl

total-names :
    (xs : List Instance) (ss : List Session) → total xs ss ≡ total_of (map (λ in'. in'.name) xs) ss
total-names [] ss = refl
total-names (x ∷ xs) ss = rw (total-names xs ss) refl

module _ (m : Setting) where
  Gives-gather_sessions : (names : List Text) → Gives (All (IsFor names)) (gather_sessions m names)
  unfolding gather_sessions
  Gives-gather_sessions [] = Gives-pure _ tt
  Gives-gather_sessions (name ∷ names) =
      Gives-then
        (attempt (on_host (show_users m.env m.prints (occtl m) m.reader (occtl_socket m.cfg name))))
        _
        λ found. Gives-bind _ _ (Gives-gather_sessions names) λ rest h.
          Gives-pure (sessions_on name found ++ rest) (
            All-append _ (sessions_on name found) rest (sessions_on-IsFor name names found)
              (wider name names rest h))

  Returns-total :
      (xs : List Instance) (names : List Text) (r : Result (List Session))
      → map (λ in'. in'.name) xs ≡ names
      → Distinct names
      → Returns (All (IsFor names)) r
      → Returns (λ ss. total xs ss ≡ length ss) r
  Returns-total xs names (ok ss) e d h = total-names xs ss ∙ rw e (total_of-length names ss d h)
  Returns-total xs names (err x) e d h = tt

  -- The sessions that a scrape counts for the instances are, together, all the sessions that are there:
  -- none is counted twice or left out. The instances are filed under their names, each once.
  pub sessions-total :
      (w : World)
      → is_filed w.store.records.instances ≡ true
      → NodupKeys w.store.records.instances
      → Returns
          (λ xs. total ((manager_source m).list_instances w) xs ≡ length xs)
          ((manager_source m).sessions [] w).0
  unfolding sessions manager_source list_all list_instances
  sessions-total w f d =
      Returns-total (list_all w) (instance_names w) _
        (list_all-names w (list_instances w.store.records))
        (names-Distinct w.store.records.instances f d)
        ((Gives-gather_sessions (instance_names w)).at w)

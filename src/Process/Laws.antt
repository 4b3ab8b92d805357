-- ===== src/Process/Laws.antt =====
-- What the operations of internal/ocserv/process.go do, and that they keep the supervisor sound.
use openconnectd.Base.{
  ℕ, suc, ◌<◌, ◌≡◌, ◌≢◌, refl, sym, ap, ◌∙◌, true, false, List, [], ◌∷◌, ◌++◌, none, some, Text,
  any, all, ◌==◌, ==_iff, ltb, if◌then◌else◌, is_nil, same_iff, same, arith, ◌⊎◌, inl, inr,
  Bool-cases, Option-cases,
}
use openconnectd.Base.Dict.{lookup, insert, erase, lookup-insert, lookup-erase}
use openconnectd.Errors.{Result, ok, Result-cases}
use openconnectd.Host.{Env, call}
use openconnectd.Process.{
  Signal, hup, term, Proc, Supervisor, alive, running, on_host, look_path, launch, start, signal,
  reload_found, reload, stop_found, stop,
}

-- No process has an id that is still to come, and no two instances share one.
pub record IsSound (s : Supervisor) : Type 0 where
  pub started : (i : Text) (pid : ℕ) → lookup i s.procs ≡ some pid → pid < s.next_pid
  pub known : all (λ p. ltb p.pid s.next_pid) s.running ≡ true
  pub apart :
      (i j : Text) (pid : ℕ) → lookup i s.procs ≡ some pid → lookup j s.procs ≡ some pid → i ≡ j

-- The supervisor without its host.
abbrev pub Agrees : Supervisor → Supervisor → Type 0
Agrees s t = (s.procs ≡ t.procs) × (s.running ≡ t.running) × (s.next_pid ≡ t.next_pid)

all-ltb-suc :
    (n : ℕ) (ps : List Proc)
    → all (λ p. ltb p.pid n) ps ≡ true
    → all (λ p. ltb p.pid (suc n)) ps ≡ true
all-ltb-suc n [] h = refl
all-ltb-suc n (p ∷ ps) h = ground (arith, all-ltb-suc n ps)

-- The id of the next process is nobody's.
pub any-fresh :
    (n : ℕ) (ps : List Proc) → all (λ p. ltb p.pid n) ps ≡ true → any (λ p. p.pid == n) ps ≡ false
any-fresh n [] h = refl
any-fresh n (p ∷ ps) h = ground (arith, any-fresh n ps, ==_iff p.pid n)

-- A start that runs is the state after a launch.
abbrev pub launched : Text → Text → Supervisor → Supervisor
launched i c s = record s {
  procs = insert i s.next_pid s.procs;
  running = record { pid = s.next_pid; config = c } ∷ s.running;
  next_pid = suc s.next_pid;
}

pub launched-IsSound : (i c : Text) (s : Supervisor) → IsSound s → IsSound (launched i c s)
launched-IsSound i c s h = record {
  started = λ j pid e. ground (arith, lookup-insert i j s.next_pid s.procs, h.started j pid);
  known = ground (arith, all-ltb-suc s.next_pid s.running h.known);
  apart = λ j k pid e e'. ground (
    arith,
    lookup-insert i j s.next_pid s.procs,
    lookup-insert i k s.next_pid s.procs,
    h.apart j k pid,
    h.started j pid,
    h.started k pid,
    same_iff i j,
    same_iff i k,
  );
}

-- A start succeeds and launches, or fails and changes nothing but the host.
abbrev pub Launches : Text → Text → Supervisor → Result (Unit {0}) × Supervisor → Type 0
Launches i c s r = ((r.0 ≡ ok tt) × Agrees (launched i c s) r.1) ⊎ ((r.0 ≢ ok tt) × Agrees s r.1)

Launches-Agrees :
    (i c : Text) (s t : Supervisor) (r : Result (Unit {0}) × Supervisor)
    → Agrees s t
    → Launches i c t r
    → Launches i c s r
Launches-Agrees i c s t r (p, q, n) (inl (e, (p', q', n'))) =
    inl (e, (rw (p, n) p', rw (q, n) q', rw n n'))
Launches-Agrees i c s t r (p, q, n) (inr (e, (p', q', n'))) = inr (e, (p ∙ p', q ∙ q', n ∙ n'))

-- What `signal` puts on the log, if the call succeeds.
abbrev pub Delivers : ℕ → Signal → Supervisor → Result (Unit {0}) × Supervisor → Type 0
Delivers pid sig s r =
    ((r.0 ≡ ok tt) × (r.1.signals ≡ (s.signals ++ (pid, sig) ∷ [])))
    ⊎ ((r.0 ≢ ok tt) × (r.1.signals ≡ s.signals))

-- The supervisor that has forgotten an instance.
abbrev pub forgotten : Text → Supervisor → Supervisor
forgotten i s = record s { procs = erase i s.procs }

module _ (env : Env) where
  look_path-Agrees : (s : Supervisor) → Agrees s (look_path env s).1
  unfolding look_path on_host
  look_path-Agrees s = elim (Bool-cases (is_nil s.bin)) [
    | inl e ↦ rw (e, look_path) (refl, refl, refl)
    | inr e ↦ rw (e, look_path) (refl, refl, refl)
  ]

  launch-Launches : (i c : Text) (s : Supervisor) → Launches i c s (launch env i c tt s)
  unfolding launch on_host
  launch-Launches i c s = elim (Result-cases (call env s.host).0) [
    | inl (u, e) ↦ rw (e, launch) (inl (refl, (refl, refl, refl)))
    | inr (x, e) ↦ rw (e, launch) (inr (ground arith, (refl, refl, refl)))
  ]

  pub start-Launches :
      (i c : Text) (s : Supervisor) → running s i ≡ false → Launches i c s (start env i c s)
  unfolding start
  start-Launches i c s down = elim (Result-cases (look_path env s).0) [
    | inl (u, e) ↦
        rw (down, e, start)
          (Launches-Agrees i c s (look_path env s).1 (launch env i c tt (look_path env s).1)
            (look_path-Agrees s) (launch-Launches i c (look_path env s).1))
    | inr (x, e) ↦ rw (down, e, start) (inr (ground arith, look_path-Agrees s))
  ]

  signal-Agrees : (pid : ℕ) (sig : Signal) (s : Supervisor) → Agrees s (signal env pid sig s).1
  unfolding signal on_host
  signal-Agrees pid sig s = elim (Result-cases (call env s.host).0) [
    | inl (u, e) ↦ rw (e, signal) (refl, refl, refl)
    | inr (x, e) ↦ rw (e, signal) (refl, refl, refl)
  ]

  pub signal-Delivers :
      (pid : ℕ) (sig : Signal) (s : Supervisor) → Delivers pid sig s (signal env pid sig s)
  unfolding signal on_host
  signal-Delivers pid sig s = elim (Result-cases (call env s.host).0) [
    | inl (u, e) ↦ rw (e, signal) (inl (refl, refl))
    | inr (x, e) ↦ rw (e, signal) (inr (ground arith, refl))
  ]

  pub stop-procs :
      (i j : Text) (s : Supervisor)
      → lookup j (stop env i s).1.procs ≡ (if same i j then none else lookup j s.procs)
  unfolding stop stop_found
  stop-procs i j s = elim (Option-cases (lookup i s.procs)) [
    | inl e ↦ rw (e, stop) (ground (arith, same_iff i j))
    | inr (pid, e) ↦ elim (Bool-cases (alive (forgotten i s) pid)) [
      | inl up ↦
          rw (e, up, stop)
            (ground (
              arith,
              lookup-erase i j s.procs,
              ap (lookup j) (sym ((signal-Agrees pid term (forgotten i s)).0)),
            ))
      | inr down ↦ rw (e, down, stop) (lookup-erase i j s.procs)
    ]
  ]

  pub stop-rest :
      (i : Text) (s : Supervisor)
      → ((stop env i s).1.running ≡ s.running) × ((stop env i s).1.next_pid ≡ s.next_pid)
  unfolding stop stop_found
  stop-rest i s = elim (Option-cases (lookup i s.procs)) [
    | inl e ↦ rw (e, stop) (refl, refl)
    | inr (pid, e) ↦ elim (Bool-cases (alive (forgotten i s) pid)) [
      | inl up ↦
          rw (e, up, stop)
            (let (p, q, n) = signal-Agrees pid term (forgotten i s) in (sym q, sym n))
      | inr down ↦ rw (e, down, stop) (refl, refl)
    ]
  ]

  pub reload-Agrees : (i : Text) (s : Supervisor) → Agrees s (reload env i s).1
  unfolding reload reload_found
  reload-Agrees i s = elim (Option-cases (lookup i s.procs)) [
    | inl e ↦ rw (e, reload) (refl, refl, refl)
    | inr (pid, e) ↦ elim (Bool-cases (alive s pid)) [
      | inl up ↦ rw (e, up, reload) (signal-Agrees pid hup s)
      | inr down ↦ rw (e, down, reload) (refl, refl, refl)
    ]
  ]

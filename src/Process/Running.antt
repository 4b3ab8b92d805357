-- ===== src/Process/Running.antt =====
-- Start, Stop and Reload of internal/ocserv/process.go, as Running and the log of signals show them.
use openconnectd.Base.{
  false, ℕ, ◌≡◌, ◌≢◌, refl, true, not, ◌&&◌, ◌||◌, [], ◌∷◌, ◌++◌, some, Text, ==_iff, same_iff,
  same, arith, ◌⊎◌, inl, inr, Bool-cases, Option-cases,
}
use openconnectd.Base.Dict.{lookup, lookup-insert}
use openconnectd.Errors.{Result, ok, is_ok, Result-cases}
use openconnectd.Host.{Env, call}
use openconnectd.Process.{
  Signal, term, on_host, signal, stop_found, hup, Supervisor, alive, running, start, reload_found,
  reload, stop,
}
use openconnectd.Process.Laws.{
  IsSound, Agrees, launched, Launches, forgotten, start-Launches, signal-Delivers, stop-procs,
  stop-rest,
}

running-Agrees : (s t : Supervisor) (j : Text) → Agrees s t → running t j ≡ running s j
unfolding running alive
running-Agrees s t j (p, q, n) = rw (p, q)

running-launched :
    (i c j : Text) (s : Supervisor)
    → IsSound s
    → running (launched i c s) j ≡ (same i j || running s j)
unfolding running alive
running-launched i c j s h = elim (Option-cases (lookup j s.procs)) [
  | inl e ↦
      ground
        (arith, lookup-insert i j s.next_pid s.procs, same_iff i j, ==_iff s.next_pid s.next_pid)
  | inr (pid, e) ↦ ground (
    arith,
    lookup-insert i j s.next_pid s.procs,
    same_iff i j,
    ==_iff s.next_pid s.next_pid,
    ==_iff s.next_pid pid,
    h.started j pid,
  )
]

Launches_lem :
    (i c : Text) (s : Supervisor) (r : Result (Unit {0}) × Supervisor)
    → IsSound s
    → Launches i c s r
    → (r.0 ≡ ok tt → running r.1 i ≡ true) × ((j : Text) → i ≢ j → running r.1 j ≡ running s j)
Launches_lem i c s r h (inl (e, a)) = (
  λ _.
      ground
        (arith, running-Agrees (launched i c s) r.1 i a, running-launched i c i s h, same_iff i i),
  λ j ne.
      ground
        (arith, running-Agrees (launched i c s) r.1 j a, running-launched i c j s h, same_iff i j),
)
Launches_lem i c s r h (inr (e, a)) = (λ e'. absurd (e e'), λ j ne. running-Agrees s r.1 j a)

-- Start does nothing if the instance runs; if it succeeds the instance runs; and it changes for no
-- other instance whether that runs.
pub start_lem :
    (env : Env) (i c : Text) (s : Supervisor)
    → IsSound s
    → (running s i ≡ true → start env i c s ≡ (ok tt, s))
      × ((start env i c s).0 ≡ ok tt → running (start env i c s).1 i ≡ true)
      × ((j : Text) → i ≢ j → running (start env i c s).1 j ≡ running s j)
unfolding start
start_lem env i c s h = elim (Bool-cases (running s i)) [
  | inl up ↦ rw (up, start) (λ _. refl, λ _. up, λ j ne. refl)
  | inr down ↦
      let (own, others) = Launches_lem i c s (start env i c s) h (start-Launches env i c s down) in
      (λ up. absurd (ground arith), own, others)
]

-- Behind Stop the supervisor holds no process for the instance, and for the others nothing changed.
pub running-stop :
    (env : Env) (i j : Text) (s : Supervisor)
    → running (stop env i s).1 j ≡ (not (same i j) && running s j)
unfolding running alive
running-stop env i j s = elim (Option-cases (lookup j s.procs)) [
  | inl e ↦ ground (arith, stop-procs env i j s, (stop-rest env i s).0, same_iff i j)
  | inr (pid, e) ↦ ground (arith, stop-procs env i j s, (stop-rest env i s).0, same_iff i j)
]

-- The signal was delivered and is on the log behind those from before, or the call to the system
-- failed, which is the result, and none was.
abbrev pub Sends : Env → ℕ → Signal → Supervisor → Result (Unit {0}) × Supervisor → Type 0
Sends env pid sig s r =
    ((is_ok (call env s.host).0 ≡ true)
      × (r.0 ≡ ok tt)
      × (r.1.signals ≡ (s.signals ++ (pid, sig) ∷ [])))
    ⊎ ((is_ok (call env s.host).0 ≡ false) × (r.0 ≢ ok tt) × (r.1.signals ≡ s.signals))

signal-Sends :
    (env : Env) (pid : ℕ) (sig : Signal) (s : Supervisor)
    → Sends env pid sig s (signal env pid sig s)
unfolding signal on_host
signal-Sends env pid sig s = elim (Result-cases (call env s.host).0) [
  | inl (u, e) ↦ rw (e, signal) (inl (refl, refl, refl))
  | inr (x, e) ↦ rw (e, signal) (inr (refl, ground arith, refl))
]

-- Behind Stop the supervisor holds no process for the instance, and for the others nothing changed.
-- If the instance runs, its process, and no other, is sent SIGTERM, unless the call to the system
-- fails: then Stop fails, and the process is forgotten without a signal. If the instance does not
-- run, Stop succeeds and sends none.
pub stop_lem :
    (env : Env) (i : Text) (s : Supervisor)
    → ((j : Text) → running (stop env i s).1 j ≡ (not (same i j) && running s j))
      × ((pid : ℕ)
          → lookup i s.procs ≡ some pid
          → alive s pid ≡ true
          → Sends env pid term s (stop env i s))
      × (running s i ≡ false → ((stop env i s).0 ≡ ok tt) × ((stop env i s).1.signals ≡ s.signals))
unfolding stop stop_found running alive
stop_lem env i s = (
  λ j. running-stop env i j s,
  λ pid e up. rw (e, up, stop) (signal-Sends env pid term (forgotten i s)),
  λ down. elim (Option-cases (lookup i s.procs)) [
    | inl e ↦ rw (e, stop) (refl, refl)
    | inr (pid, e) ↦
        let dead : alive (forgotten i s) pid ≡ false = ground arith in
        rw (e, dead, stop) (refl, refl)
  ],
)

-- Reload succeeds only for an instance that runs, and then the one signal it sends is a SIGHUP to
-- the process of that instance; a Reload that fails has sent none.
reload_lem :
    (env : Env) (i : Text) (s : Supervisor)
    → (((reload env i s).0 ≡ ok tt)
        × (running s i ≡ true)
        × ((pid : ℕ) × (lookup i s.procs ≡ some pid)
            × ((reload env i s).1.signals ≡ (s.signals ++ (pid, hup) ∷ []))))
      ⊎ (((reload env i s).0 ≢ ok tt) × ((reload env i s).1.signals ≡ s.signals))
unfolding reload reload_found running
reload_lem env i s = elim (Option-cases (lookup i s.procs)) [
  | inl e ↦ rw (e, reload) (inr (ground arith, refl))
  | inr (pid, e) ↦ elim (Bool-cases (alive s pid)) [
    | inl up ↦ elim (signal-Delivers env pid hup s) [
      | inl (d, l) ↦ rw (e, up, reload) (inl (d, refl, (pid, refl, l)))
      | inr (d, l) ↦ rw (e, up, reload) (inr (d, l))
    ]
    | inr down ↦ rw (e, down, reload) (inr (ground arith, refl))
  ]
]

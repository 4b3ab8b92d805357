-- ===== src/Process/Reach.antt =====
-- Every run of internal/ocserv/process.go: the calls of its operations, in any order and with any
-- failures, and processes that end by themselves between them.
use openconnectd.Base.{
  ℕ, ◌≡◌, refl, sym, Bool, true, not, ◌||◌, List, [], ◌∷◌, some, Text, all, keep, ◌==◌, ==_iff, ltb,
  same_iff, same, same_refl, arith, inl, inr, Bool-cases,
}
use openconnectd.Base.Dict.{lookup, insert, lookup-insert}
use openconnectd.Errors.{Result}
use openconnectd.Host.{Env, Host}
use openconnectd.Process.{Proc, Supervisor, running, start, reload, stop}
use openconnectd.Process.Laws.{
  IsSound, Agrees, launched, launched-IsSound, Launches, start-Launches, stop-procs, stop-rest,
  reload-Agrees,
}

-- The process is gone, by itself or by a signal that it obeys.
unfoldable pub ended : ℕ → Supervisor → Supervisor
ended pid s = record s { running = keep (λ p. not (p.pid == pid)) s.running }

unfoldable pub empty : Text → Host → Supervisor
empty bin h = record { bin = bin; procs = []; running = []; next_pid = 1; signals = []; host = h }

-- The manager starts each instance with the config file `config` of it. Each call is made in an
-- environment of its own.
pub data Reach (config : Text → Text) : Supervisor → Type 0 where
  begins : (bin : Text) (h : Host) → Reach config (empty bin h)
  starts :
      (env : Env) (i : Text) (s : Supervisor)
      → Reach config s
      → Reach config (start env i (config i) s).1
  reloads :
      (env : Env) (i : Text) (s : Supervisor) → Reach config s → Reach config (reload env i s).1
  stops : (env : Env) (i : Text) (s : Supervisor) → Reach config s → Reach config (stop env i s).1
  ends : (pid : ℕ) (s : Supervisor) → Reach config s → Reach config (ended pid s)

-- Every process that has the id reads the file.
abbrev reads : Text → ℕ → List Proc → Bool
reads file pid ps = all (λ p. not (p.pid == pid) || same p.config file) ps

-- The processes of an instance read its own config.
pub record IsServed (config : Text → Text) (s : Supervisor) : Type 0 where
  pub sound : IsSound s
  pub own :
      (i : Text) (pid : ℕ) → lookup i s.procs ≡ some pid → reads (config i) pid s.running ≡ true

module _ (config : Text → Text) where
  pub IsServed-Agrees : (s t : Supervisor) → Agrees s t → IsServed config s → IsServed config t
  IsServed-Agrees s t (p, q, n) h = record {
    sound = record {
      started = λ i pid e. ground (arith, p, n, h.sound.started i pid);
      known = ground (arith, q, n, h.sound.known);
      apart = λ i j pid e e'. h.sound.apart i j pid (rw p e) (rw p e');
    };
    own = λ i pid e. rw (sym q) (h.own i pid (rw p e));
  }

  reads-fresh :
      (file : Text) (n pid : ℕ) (ps : List Proc)
      → pid ≡ n
      → all (λ p. ltb p.pid n) ps ≡ true
      → reads file pid ps ≡ true
  reads-fresh file n pid [] e h = refl
  reads-fresh file n pid (p ∷ ps) e h = ground (arith, reads-fresh file n pid ps, ==_iff p.pid pid)

  launched_own :
      (i j : Text) (pid : ℕ) (s : Supervisor)
      → IsServed config s
      → lookup j (insert i s.next_pid s.procs) ≡ some pid
      → same i j ≡ true
      → reads (config j) pid (record { pid = s.next_pid; config = config i } ∷ s.running) ≡ true
  launched_own i j pid s h e e' =
      let here : pid ≡ s.next_pid = ground (arith, lookup-insert i j s.next_pid s.procs) in
      let who : i ≡ j = ground (arith, same_iff i j) in
      let old : reads (config j) pid s.running ≡ true =
        reads-fresh (config j) s.next_pid pid s.running here h.sound.known in
      rw (who, old, same_refl (config j)) (ground arith)

  launched-IsServed :
      (i : Text) (s : Supervisor) → IsServed config s → IsServed config (launched i (config i) s)
  launched-IsServed i s h = record {
    sound = launched-IsSound i (config i) s h.sound;
    own = λ j pid e. elim (Bool-cases (same i j)) [
      | inl e' ↦ launched_own i j pid s h e e'
      | inr e' ↦ ground (
        arith,
        lookup-insert i j s.next_pid s.procs,
        h.own j pid,
        h.sound.started j pid,
        ==_iff s.next_pid pid,
      )
    ];
  }

  keep-all :
      (t : Proc → Bool) (f : Proc → Bool) (ps : List Proc)
      → all f ps ≡ true
      → all f (keep t ps) ≡ true
  keep-all t f [] h = refl
  keep-all t f (p ∷ ps) h = ground (arith, keep-all t f ps)

  pub ended-IsServed :
      (pid : ℕ) (s : Supervisor) → IsServed config s → IsServed config (ended pid s)
  unfolding ended
  ended-IsServed pid s h = record {
    sound = record {
      started = h.sound.started;
      known =
          keep-all (λ p. not (p.pid == pid)) (λ p. ltb p.pid s.next_pid) s.running h.sound.known;
      apart = h.sound.apart;
    };
    own = λ i q e.
        keep-all (λ p. not (p.pid == pid)) (λ p. not (p.pid == q) || same p.config (config i))
          s.running (h.own i q e);
  }

  pub stop-IsServed :
      (env : Env) (i : Text) (s : Supervisor) → IsServed config s → IsServed config (stop env i s).1
  stop-IsServed env i s h = record {
    sound = record {
      started = λ j pid e.
          ground (arith, stop-procs env i j s, (stop-rest env i s).1, h.sound.started j pid);
      known = ground (arith, (stop-rest env i s).0, (stop-rest env i s).1, h.sound.known);
      apart = λ j k pid e e'.
          ground (arith, stop-procs env i j s, stop-procs env i k s, h.sound.apart j k pid);
    };
    own = λ j pid e. ground (arith, stop-procs env i j s, (stop-rest env i s).0, h.own j pid);
  }

  Launches-IsServed :
      (i : Text) (s : Supervisor) (r : Result (Unit {0}) × Supervisor)
      → IsServed config s
      → Launches i (config i) s r
      → IsServed config r.1
  Launches-IsServed i s r h (inl (e, a)) =
      IsServed-Agrees (launched i (config i) s) r.1 a (launched-IsServed i s h)
  Launches-IsServed i s r h (inr (e, a)) = IsServed-Agrees s r.1 a h

  pub start-IsServed :
      (env : Env) (i : Text) (s : Supervisor)
      → IsServed config s
      → IsServed config (start env i (config i) s).1
  unfolding start
  start-IsServed env i s h = elim (Bool-cases (running s i)) [
    | inl up ↦ rw (up, start) h
    | inr down ↦
        Launches-IsServed i s (start env i (config i) s) h (start-Launches env i (config i) s down)
  ]

  pub empty-IsServed : (bin : Text) (h : Host) → IsServed config (empty bin h)
  unfolding empty lookup
  empty-IsServed bin h = record {
    sound = record {
      started = λ i pid e. ground arith;
      known = refl;
      apart = λ i j pid e e'. ground arith;
    };
    own = λ i pid e. refl;
  }

  -- In every run, no two instances share a process, and each process that the supervisor holds for
  -- an instance, and could signal, was started with the config file of that instance.
  Reach-IsServed : (s : Supervisor) → Reach config s → IsServed config s
  Reach-IsServed _ (begins bin h) = empty-IsServed bin h
  Reach-IsServed _ (starts env i s r) = start-IsServed env i s (Reach-IsServed s r)
  Reach-IsServed _ (reloads env i s r) =
      IsServed-Agrees s (reload env i s).1 (reload-Agrees env i s) (Reach-IsServed s r)
  Reach-IsServed _ (stops env i s r) = stop-IsServed env i s (Reach-IsServed s r)
  Reach-IsServed _ (ends pid s r) = ended-IsServed pid s (Reach-IsServed s r)

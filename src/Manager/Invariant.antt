-- ===== src/Manager/Invariant.antt =====
-- What the manager of internal/ocserv/manager.go keeps true of its records and its processes together.
use openconnectd.Base.{
  ℕ, ◌≡◌, refl, Bool, true, [], ◌∷◌, none, some, is_some, Text, all, same, same_iff, same_refl,
  arith, Bool-cases, ◌⊎◌, inl, inr,
}
use openconnectd.Base.Dict.{Dict, lookup, insert, erase, lookup-insert, lookup-erase}
use openconnectd.Api.{Instance, ClientPeer}
use openconnectd.Errors.{Result}
use openconnectd.Host.{Env, Host}
use openconnectd.Store.{
  Records, Store, Codec, get_instance, put_instance, delete_instance, put_client, delete_client,
  commit,
}
use openconnectd.Store.View.{
  view, mutate, Mutation, puts_instance, deletes_instance, puts_client, deletes_client,
}
use openconnectd.Store.Invariant.{IsSound, mutate-IsSound}
use openconnectd.Process.{Supervisor, running, start, stop, reload}
use openconnectd.Process.Laws.{Agrees, Launches, start-Launches, stop-procs, reload-Agrees}
use openconnectd.Process.Reach.{IsServed, IsServed-Agrees, start-IsServed, stop-IsServed}
use openconnectd.DaemonConfig
use openconnectd.Manager.Config.{config_path}

-- Each instance is filed under its own name.
abbrev pub is_filed : Dict Instance → Bool
is_filed = all (λ e. same e.1.name e.0)

-- The records are sound, each process that is held for an instance reads the config file of it, and
-- no process is held for an instance that has no record.
pub record IsManaged (cfg : DaemonConfig.Config) (r : Records) (s : Supervisor) : Type 0 where
  pub sound : IsSound (view r)
  pub filed : is_filed r.instances ≡ true
  pub served : IsServed (config_path cfg) s
  pub recorded :
      (i : Text) (pid : ℕ) → lookup i s.procs ≡ some pid → is_some (get_instance r i) ≡ true

-- Besides, the instance has a record.
pub record IsKnown (cfg : DaemonConfig.Config) (name : Text) (r : Records) (s : Supervisor)
    : Type 0 where
  pub managed : IsManaged cfg r s
  pub known : is_some (get_instance r name) ≡ true

-- Besides, no process is held for the instance.
pub record IsStopped (cfg : DaemonConfig.Config) (name : Text) (r : Records) (s : Supervisor)
    : Type 0 where
  pub managed : IsManaged cfg r s
  pub gone : lookup name s.procs ≡ none

module _ (cfg : DaemonConfig.Config) (env : Env) where
  IsManaged-Agrees :
      (r : Records) (s t : Supervisor) → Agrees s t → IsManaged cfg r s → IsManaged cfg r t
  IsManaged-Agrees r s t a h = record {
    sound = h.sound;
    filed = h.filed;
    served = IsServed-Agrees (config_path cfg) s t a h.served;
    recorded = λ i pid e. h.recorded i pid (rw a.0 e);
  }

  pub IsManaged-host :
      (r : Records) (s : Supervisor) (h : Host)
      → IsManaged cfg r s
      → IsManaged cfg r (record s { host = h })
  IsManaged-host r s h p = IsManaged-Agrees r s (record s { host = h }) (refl, refl, refl) p

  pub IsKnown-host :
      (name : Text) (r : Records) (s : Supervisor) (h : Host)
      → IsKnown cfg name r s
      → IsKnown cfg name r (record s { host = h })
  IsKnown-host name r s h p = record { managed = IsManaged-host r s h p.managed; known = p.known }

  Launches-procs :
      (i c j : Text) (pid : ℕ) (s : Supervisor) (r : Result (Unit {0}) × Supervisor)
      → Launches i c s r
      → lookup j r.1.procs ≡ some pid
      → (lookup j s.procs ≡ some pid) ⊎ (i ≡ j)
  Launches-procs i c j pid s r (inl (e, a)) h =
      let h' : lookup j (insert i s.next_pid s.procs) ≡ some pid = rw a.0 h in
      ground (arith, lookup-insert i j s.next_pid s.procs, same_iff i j)
  Launches-procs i c j pid s r (inr (e, a)) h = inl (rw a.0 h)

  -- A process that is held behind a start was held before, or is the new one.
  start-procs :
      (i c j : Text) (pid : ℕ) (s : Supervisor)
      → lookup j (start env i c s).1.procs ≡ some pid
      → (lookup j s.procs ≡ some pid) ⊎ (i ≡ j)
  unfolding start
  start-procs i c j pid s = elim (Bool-cases (running s i)) [
    | inl up ↦ rw (up, start) (λ h. inl h)
    | inr down ↦ Launches-procs i c j pid s (start env i c s) (start-Launches env i c s down)
  ]

  recorded_or :
      (name i : Text) (pid : ℕ) (r : Records) (s : Supervisor)
      → IsKnown cfg name r s
      → (lookup i s.procs ≡ some pid) ⊎ (name ≡ i)
      → is_some (get_instance r i) ≡ true
  recorded_or name i pid r s h (inl e) = h.managed.recorded i pid e
  recorded_or name i pid r s h (inr e) = rw (← e) h.known

  pub start-IsKnown :
      (name : Text) (r : Records) (s : Supervisor)
      → IsKnown cfg name r s
      → IsKnown cfg name r (start env name (config_path cfg name) s).1
  start-IsKnown name r s h = record {
    managed = record {
      sound = h.managed.sound;
      filed = h.managed.filed;
      served = start-IsServed (config_path cfg) env name s h.managed.served;
      recorded = λ i pid e.
          recorded_or name i pid r s h (start-procs name (config_path cfg name) i pid s e);
    };
    known = h.known;
  }

  pub stop-IsStopped :
      (name : Text) (r : Records) (s : Supervisor)
      → IsManaged cfg r s
      → IsStopped cfg name r (stop env name s).1
  stop-IsStopped name r s h = record {
    managed = record {
      sound = h.sound;
      filed = h.filed;
      served = stop-IsServed (config_path cfg) env name s h.served;
      recorded = λ i pid e. h.recorded i pid (ground (arith, stop-procs env name i s));
    };
    gone = ground (arith, stop-procs env name name s, same_iff name name);
  }

  pub reload-IsManaged :
      (name : Text) (r : Records) (s : Supervisor)
      → IsManaged cfg r s
      → IsManaged cfg r (reload env name s).1
  reload-IsManaged name r s h =
      IsManaged-Agrees r s (reload env name s).1 (reload-Agrees env name s) h

is_filed-insert :
    (in' : Instance) (m : Dict Instance)
    → is_filed m ≡ true
    → is_filed (insert in'.name in' m) ≡ true
unfolding insert
is_filed-insert in' [] h = ground (arith, same_refl in'.name)
is_filed-insert in' ((k, v) ∷ m) h =
    ground (arith, is_filed-insert in' m, same_refl in'.name, same_iff k in'.name)

is_filed-erase : (k : Text) (m : Dict Instance) → is_filed m ≡ true → is_filed (erase k m) ≡ true
unfolding erase
is_filed-erase k [] h = refl
is_filed-erase k ((j, v) ∷ m) h = ground (arith, is_filed-erase k m)

module _ (cfg : DaemonConfig.Config) (env : Env) (codec : Codec) where
  pub put_instance-IsKnown :
      (in' : Instance) (s : Store) (p : Supervisor)
      → IsManaged cfg s.records p
      → IsKnown cfg in'.name (put_instance env codec in' s).1.records p
  unfolding put_instance mutate commit get_instance
  put_instance-IsKnown in' s p h = record {
    managed = record {
      sound = mutate-IsSound env codec (puts_instance in') s h.sound;
      filed = is_filed-insert in' s.records.instances h.filed;
      served = h.served;
      recorded = λ i pid e.
          ground (arith, h.recorded i pid e, lookup-insert in'.name i in' s.records.instances);
    };
    known =
        ground (arith, lookup-insert in'.name in'.name in' s.records.instances, same_refl in'.name);
  }

  pub delete_instance-IsManaged :
      (name : Text) (s : Store) (p : Supervisor)
      → IsStopped cfg name s.records p
      → IsManaged cfg (delete_instance env codec name s).1.records p
  unfolding delete_instance mutate commit get_instance
  delete_instance-IsManaged name s p h = record {
    sound = mutate-IsSound env codec (deletes_instance name) s h.managed.sound;
    filed = is_filed-erase name s.records.instances h.managed.filed;
    served = h.managed.served;
    recorded = λ i pid e. ground (
      arith,
      h.managed.recorded i pid e,
      lookup-erase name i s.records.instances,
      same_iff name i,
      h.gone,
    );
  }

  -- A mutation of the clients leaves the instances as they are.
  same_instances :
      (m : Mutation) (s : Store) (p : Supervisor)
      → (mutate env codec m s).1.records.instances ≡ s.records.instances
      → IsManaged cfg s.records p
      → IsManaged cfg (mutate env codec m s).1.records p
  unfolding get_instance
  same_instances m s p e h = record {
    sound = mutate-IsSound env codec m s h.sound;
    filed = rw e h.filed;
    served = h.served;
    recorded = λ i pid e'. rw e (h.recorded i pid e');
  }

  pub put_client-IsManaged :
      (name : Text) (c : ClientPeer) (s : Store) (p : Supervisor)
      → IsManaged cfg s.records p
      → IsManaged cfg (put_client env codec name c s).1.records p
  unfolding mutate
  put_client-IsManaged name c s p = same_instances (puts_client name c) s p (instances name c s)
    where
      instances :
          (name : Text) (c : ClientPeer) (s : Store)
          → (put_client env codec name c s).1.records.instances ≡ s.records.instances
      instances name c s = unfold put_client commit in ground arith

  pub delete_client-IsManaged :
      (name cn : Text) (s : Store) (p : Supervisor)
      → IsManaged cfg s.records p
      → IsManaged cfg (delete_client env codec name cn s).1.records p
  unfolding mutate delete_client commit
  delete_client-IsManaged name cn s p = same_instances (deletes_client name cn) s p refl

-- ===== src/Manager/Reach.antt =====
-- The runs of the daemon in which no two operations of internal/ocserv/manager.go overlap: a start from
-- a file with sound records, Reconcile, the operations in any order, and processes that end between
-- them. The environment may fail any call.
use openconnectd.Base.{ℕ, ◌≡◌, refl, Bool, true, List, [], ◌∷◌, is_some, Text, all, same_iff, arith}
use openconnectd.Base.Dict.{Dict, lookup, values}
use openconnectd.Api.{Instance, InstanceCreateRequest, ClientCreateRequest}
use openconnectd.Host.{Host}
use openconnectd.Store.{Records, get_instance, list_instances}
use openconnectd.Store.View.{view}
use openconnectd.Store.Invariant.{IsSound}
use openconnectd.Process.{Supervisor, start}
use openconnectd.Process.Reach.{empty, ended, ended-IsServed, empty-IsServed}
use openconnectd.Params.Json.{Fields}
use openconnectd.Manager.{Setting, World}
use openconnectd.Manager.Config.{config_path}
use openconnectd.Manager.Files.{start_instance}
use openconnectd.Manager.Keeps.{
  Cond, Moves, Moves-bind, Moves-when, Moves-forget, Moves-skip, Moves-on_sup,
}
use openconnectd.Manager.Invariant.{IsManaged, is_filed, IsManaged-host, start-IsKnown}
use openconnectd.Manager.Instances.{
  create_instance, delete, patch_instance, reconcile, reconcile_all,
}
use openconnectd.Manager.Instances.Managed.{
  Managed, Moves-create_instance, Moves-delete, Moves-patch_instance, Moves-render_and_write,
}
use openconnectd.Manager.Clients.{create_client, delete_client_of, patch_client}
use openconnectd.Manager.Clients.Managed.{
  Moves-create_client, Moves-delete_client_of, Moves-patch_client,
}

-- A daemon that has opened its file: no process is held yet.
unfoldable pub booted : Text → Text → Host → Records → World
unfolding empty
booted path bin h r = record {
  store = record { path = path; records = r; host = h };
  sup = empty bin h;
  host = h;
}

unfoldable pub process_ended : ℕ → World → World
unfolding ended
process_ended pid w = record w { sup = ended pid w.sup }

pub data Reach (m : Setting) : World → Type 0 where
  boots :
      (path bin : Text) (h : Host) (r : Records)
      → IsSound (view r)
      → is_filed r.instances ≡ true
      → Reach m (booted path bin h r)
  reconciles : (w : World) → Reach m w → Reach m (reconcile m w).1
  creates :
      (req : InstanceCreateRequest) (w : World) → Reach m w → Reach m (create_instance m req w).1
  patches :
      (name : Text) (body : Fields) (w : World)
      → Reach m w
      → Reach m (patch_instance m name body w).1
  deletes : (name : Text) (w : World) → Reach m w → Reach m (delete m name w).1
  creates_client :
      (i : Text) (req : ClientCreateRequest) (w : World)
      → Reach m w
      → Reach m (create_client m i req w).1
  patches_client :
      (i cn : Text) (body : Fields) (w : World) → Reach m w → Reach m (patch_client m i cn body w).1
  deletes_client : (i cn : Text) (w : World) → Reach m w → Reach m (delete_client_of m i cn w).1
  ends : (pid : ℕ) (w : World) → Reach m w → Reach m (process_ended pid w)

-- Every instance of the list has a record.
abbrev all_known : List Instance → Dict Instance → Bool
all_known xs r = all (λ in'. is_some (lookup in'.name r)) xs

all_known-cons :
    (k : Text) (v : Instance) (r : Dict Instance) (xs : List Instance)
    → all_known xs r ≡ true
    → all_known xs ((k, v) ∷ r) ≡ true
unfolding lookup
all_known-cons k v r [] h = refl
all_known-cons k v r (x ∷ xs) h = ground (arith, all_known-cons k v r xs)

all_known-values : (r : Dict Instance) → is_filed r ≡ true → all_known (values r) r ≡ true
unfolding values lookup
all_known-values [] h = refl
all_known-values ((k, v) ∷ r) h = ground (
  arith,
  all_known-values r,
  all_known-cons k v r (values r),
  same_iff v.name k,
  same_iff k v.name,
)

module _ (m : Setting) (r0 : Records) where
  -- The records do not change.
  abbrev At : Cond
  At r s = (r ≡ r0) × IsManaged m.cfg r s

  Moves-start-at :
      (in' : Instance)
      → is_some (get_instance r0 in'.name) ≡ true
      → Moves At At (start_instance m in')
  unfolding start_instance
  Moves-start-at in' k = Moves-bind _ _ (Moves-render_and_write m in') λ _.
      Moves-on_sup (start m.env in'.name (config_path m.cfg in'.name))
        (λ r s h (e, p). (e, IsManaged-host m.cfg m.env r s h p))
        (λ r s (e, p). (
          e,
          (start-IsKnown m.cfg m.env in'.name r s (record { managed = p; known = rw e k })).managed,
        ))

  Moves-reconcile_all :
      (xs : List Instance) → all_known xs r0.instances ≡ true → Moves At At (reconcile_all m xs)
  unfolding reconcile_all get_instance
  Moves-reconcile_all [] h = Moves-skip
  Moves-reconcile_all (x ∷ xs) h =
      Moves-bind _ _ (Moves-when x.enabled _ (Moves-forget _ (Moves-start-at x (ground arith))))
        λ _. Moves-reconcile_all xs (ground arith)

module _ (m : Setting) where
  pub reconcile-IsManaged :
      (w : World)
      → Managed m w.store.records w.sup
      → Managed m (reconcile m w).1.store.records (reconcile m w).1.sup
  unfolding reconcile list_instances
  reconcile-IsManaged w p =
      ((Moves-reconcile_all m w.store.records (values w.store.records.instances)
          (all_known-values w.store.records.instances p.filed)).at
        w (refl, p)).1

  pub ended-IsManaged :
      (pid : ℕ) (r : Records) (s : Supervisor)
      → IsManaged m.cfg r s
      → IsManaged m.cfg r (ended pid s)
  unfolding ended
  ended-IsManaged pid r s h = record {
    sound = h.sound;
    filed = h.filed;
    served = ended-IsServed (config_path m.cfg) pid s h.served;
    recorded = h.recorded;
  }

  pub empty-IsManaged :
      (bin : Text) (h : Host) (r : Records)
      → IsSound (view r)
      → is_filed r.instances ≡ true
      → IsManaged m.cfg r (empty bin h)
  unfolding empty lookup
  empty-IsManaged bin h r sound filed = record {
    sound = sound;
    filed = filed;
    served = empty-IsServed (config_path m.cfg) bin h;
    recorded = λ i pid e. ground arith;
  }

  -- In every run in which the operations of the manager do not overlap: the records are sound, each
  -- process that is held for an instance was started with the config file of that instance, no two
  -- instances share one, and no process is held for an instance that has no record. No call that fails
  -- breaks this.
  pub Reach-IsManaged : (w : World) → Reach m w → IsManaged m.cfg w.store.records w.sup
  unfolding booted process_ended
  Reach-IsManaged _ (boots path bin h r sound filed) = empty-IsManaged bin h r sound filed
  Reach-IsManaged _ (reconciles w r) = reconcile-IsManaged w (Reach-IsManaged w r)
  Reach-IsManaged _ (creates req w r) = (Moves-create_instance m req).at w (Reach-IsManaged w r)
  Reach-IsManaged _ (patches name body w r) =
      (Moves-patch_instance m name body).at w (Reach-IsManaged w r)
  Reach-IsManaged _ (deletes name w r) = (Moves-delete m name).at w (Reach-IsManaged w r)
  Reach-IsManaged _ (creates_client i req w r) =
      (Moves-create_client m i req).at w (Reach-IsManaged w r)
  Reach-IsManaged _ (patches_client i cn body w r) =
      (Moves-patch_client m i cn body).at w (Reach-IsManaged w r)
  Reach-IsManaged _ (deletes_client i cn w r) =
      (Moves-delete_client_of m i cn).at w (Reach-IsManaged w r)
  Reach-IsManaged _ (ends pid w r) = ended-IsManaged pid w.store.records w.sup (Reach-IsManaged w r)

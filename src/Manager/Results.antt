-- ===== src/Manager/Results.antt =====
-- What the operations of internal/ocserv/manager.go do to the records, as the store's view shows them.
use openconnectd.Base.{
  ℕ, ◌⊎◌, inl, inr, ◌++◌, ◌∷◌, ◌≡◌, refl, ap, ◌∙◌, Bool, true, false, Option, none, some, is_nil,
  Text, same_refl, arith,
}
use openconnectd.Strings.{trim_space}
use openconnectd.Api.{Instance, InstanceCreateRequest, ClientPeer}
use openconnectd.Errors.{is_ok, ok, err, instance_name_required, instance_exists}
use openconnectd.Exec.{Exec}
use openconnectd.Host.{Env, call, remove}
use openconnectd.Base.Dict.{lookup}
use openconnectd.Store.{Records, get_client}
use openconnectd.Store.View.{
  View, view, Mutation, mutate, meaning, view-mutate, puts_instance, deletes_instance,
  deletes_client,
}
use openconnectd.Process.{Supervisor, term, alive, running, stop, start, reload}
use openconnectd.Process.Running.{Sends, running-stop, stop_lem}
use openconnectd.Manager.{Setting, World, on_host, on_store, on_sup, guard, knows}
use openconnectd.Manager.Config.{config_path}
use openconnectd.Manager.Keeps.{
  Cond, Moves, Moves-bind, Moves-when, Moves-wrapping, Moves-forget, Moves-on_host, Moves-on_sup,
  Moves-on_store, Moves-guard, Moves-refuse, Moves-skip, Moves-gets, Yields, Yields-of, Yields-bind,
}
use openconnectd.Manager.Instances.Managed.{Moves-render_and_write}
use openconnectd.Manager.Files.{start_instance}
use openconnectd.Ocpasswd.{delete_user}
use openconnectd.PerUser.{remove_per_user_config}
use openconnectd.Errors.{client_not_found}
use openconnectd.Base.{[]}
use openconnectd.Manager.Instances.{requested, create, create_instance, delete, ensure_pki, make_ca}
use openconnectd.Manager.Clients.{delete_found, delete_client_of, revoke, passwords}

-- The records are these, and the view of them is this one.
abbrev Holds : Records → Cond
Holds r0 = λ r s. r ≡ r0

abbrev Shows : View → Cond
Shows v = λ r s. view r ≡ v

-- The process was sent SIGTERM, and no other a signal, or the first call failed and none was sent.
abbrev pub IsSignalled : Env → ℕ → World → World → Type 0
IsSignalled env pid before after =
    ((is_ok (call env before.host).0 ≡ true)
      × (after.sup.signals ≡ (before.sup.signals ++ (pid, term) ∷ [])))
    ⊎ ((is_ok (call env before.host).0 ≡ false) × (after.sup.signals ≡ before.sup.signals))

module _ (m : Setting) where
  -- Delete of an instance that has a record: whatever call fails, the records are those without it
  -- and its clients, and the supervisor holds no process for it. If it ran, its process was sent
  -- SIGTERM, and no other a signal, unless the call to the system that sends it failed: then the
  -- process is forgotten without a signal.
  pub delete_lem :
      (name : Text) (w : World)
      → knows name w ≡ true
      → (view (delete m name w).1.store.records
          ≡ meaning (deletes_instance name) (view w.store.records))
        × (running (delete m name w).1.sup name ≡ false)
        × ((pid : ℕ)
            → lookup name w.sup.procs ≡ some pid
            → alive w.sup pid ≡ true
            → IsSignalled m.env pid w (delete m name w).1)
  unfolding delete guard on_host on_store on_sup mutate alive
  delete_lem name w k =
      let sup = record w.sup { host = w.host } in
      let stopped = (stop m.env name sup).1 in
      let h = (remove m.env (config_path m.cfg name) stopped.host).1 in
      rw (k, delete)
        (
          view-mutate m.env m.codec (deletes_instance name) (record w.store { host = h }),
          running-stop m.env name name sup ∙ ground (arith, same_refl name),
          λ pid e up. signalled pid ((stop_lem m.env name sup).1 pid e up),
        )
    where
      signalled :
          (pid : ℕ)
          → Sends m.env pid term
              (record w.sup { host = w.host })
              (stop m.env name (record w.sup { host = w.host }))
          → ((is_ok (call m.env w.host).0 ≡ true)
              × ((stop m.env name (record w.sup { host = w.host })).1.signals
                  ≡ (w.sup.signals ++ (pid, term) ∷ [])))
            ⊎ ((is_ok (call m.env w.host).0 ≡ false)
                × ((stop m.env name (record w.sup { host = w.host })).1.signals ≡ w.sup.signals))
      signalled pid (inl (c, d, e)) = inl (c, e)
      signalled pid (inr (c, d, e)) = inr (c, e)

  Moves-sup {ℓ} :
      {A : Type ℓ} (r0 : Records) (a : Exec Supervisor A) → Moves (Holds r0) (Holds r0) (on_sup a)
  Moves-sup r0 a = Moves-on_sup a (λ r s h e. e) (λ r s e. e)

  Moves-mutate :
      (r0 : Records) (u : Mutation)
      → Moves (Holds r0) (Shows (meaning u (view r0))) (on_store (mutate m.env m.codec u))
  Moves-mutate r0 u =
      Moves-on_store _ (λ s p e. view-mutate m.env m.codec u s ∙ ap (λ r. meaning u (view r)) e)

  Yields-delete_found :
      (r0 : Records) (i cn : Text) (o : Option ClientPeer)
      → Yields (Holds r0) (Shows (meaning (deletes_client i cn) (view r0))) (delete_found m i cn o)
  unfolding delete_found revoke mutate
  Yields-delete_found r0 i cn none = record { at = λ w a p e. cc }
  Yields-delete_found r0 i cn (some c) =
      Yields-bind _ _
        (Moves-when _ _ (
          Moves-bind _ _ (Moves-wrapping _ _ (Moves-on_host _))
            λ _. Moves-forget _ (Moves-sup r0 (reload m.env i))))
        λ _.
          Yields-bind _ _
            (Moves-when _ _
              (Moves-forget _ (Moves-on_host (delete_user m.env (passwords m [] i) cn))))
            λ _.
              Yields-bind _ _
                (Moves-forget _ (Moves-on_host (remove_per_user_config m.env m.cfg i cn)))
                λ _. Yields-of _ (Moves-mutate r0 (deletes_client i cn))

  -- If DeleteClient succeeds, the records are those without the client. A client that has no record is
  -- refused, and nothing is touched.
  pub delete_client_lem :
      (i cn : Text) (w : World)
      → (get_client w.store.records i cn ≡ none
          → delete_client_of m i cn w ≡ (err (client_not_found cn), w))
        × ((delete_client_of m i cn w).0 ≡ ok tt
            → view (delete_client_of m i cn w).1.store.records
              ≡ meaning (deletes_client i cn) (view w.store.records))
  unfolding delete_client_of delete_found
  delete_client_lem i cn w = (
    λ none'. rw (none', delete_client_of) refl,
    λ done.
        (Yields-delete_found w.store.records i cn (get_client w.store.records i cn)).at w tt refl
          done,
  )

  -- The instance that was asked for is in the records.
  Yields-create :
      (r0 : Records) (in' : Instance) (ca : Bool)
      → Yields (Holds r0) (Shows (meaning (puts_instance in') (view r0))) (create m in' ca)
  unfolding create ensure_pki make_ca mutate start_instance
  Yields-create r0 in' ca = Yields-bind _ _ (Moves-guard _ _) λ _.
      Yields-bind _ _ (Moves-refuse _ _) λ _.
        Yields-bind _ _
          (Moves-bind _ _
            (Moves-when ca _
              (Moves-bind _ _ (Moves-wrapping _ _ (Moves-on_host _)) λ _. Moves-skip))
            λ _. Moves-wrapping _ _ (Moves-on_host _))
          λ _. Yields-bind _ _ (Moves-render_and_write m in') λ _.
            Yields-bind _ _ (Moves-mutate r0 (puts_instance in')) λ _.
              Yields-bind _ _
                (Moves-when in'.enabled _ (
                  Moves-forget _ (
                    Moves-bind _ _ (Moves-render_and_write m in') λ _.
                      Moves-on_sup (start m.env in'.name (config_path m.cfg in'.name))
                        (λ r s h e. e) (λ r s e. e))))
                λ _. Yields-of _ (Moves-gets (λ r s e. e) _)

  -- CreateInstance refuses an empty name and one that is taken, touching nothing. If it succeeds, the
  -- records have the instance that was asked for, and nothing else has changed in them, even if ocserv
  -- did not start.
  pub create_instance_lem :
      (req : InstanceCreateRequest) (w : World)
      → let name = trim_space req.name in
        (is_nil name ≡ true → create_instance m req w ≡ (err instance_name_required, w))
        × (is_nil name ≡ false
            → knows name w ≡ true
            → create_instance m req w ≡ (err (instance_exists name), w))
        × ((in' : Instance)
            → (create_instance m req w).0 ≡ ok in'
            → view (create_instance m req w).1.store.records
              ≡ meaning (puts_instance (requested req)) (view w.store.records))
  unfolding create_instance create guard requested
  create_instance_lem req w = (
    λ blank. rw (blank, create_instance) refl,
    λ named known. rw (named, known, create_instance) refl,
    λ in' done.
        (Yields-bind _ _ (Moves-refuse _ _)
            (λ _. Yields-create w.store.records (requested req) _)).at
          w in' refl done,
  )

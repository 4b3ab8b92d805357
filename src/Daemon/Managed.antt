-- ===== src/Daemon/Managed.antt =====
-- A daemon of cmd/openconnectd/main.go keeps its records and its processes in step as long as it lives.
use openconnectd.Base.{
  ◌≡◌, refl, sym, ap, ◌∙◌, arith, some, codes, is_nil, Bool-cases, inl, inr, true, List, [], ◌∷◌,
  Text,
}
use openconnectd.Errors.{ok, Returns-ok, Result-cases}
use openconnectd.Exec.{Exec, ◌>>=◌, continue-eq-ok}
use openconnectd.Base.Dict.{lookup}
use openconnectd.FilePath.{join}
use openconnectd.Host.Laws.{file, files-read_file}
use openconnectd.Host.{Env, Host, read_file}
use openconnectd.Store.{RawRecords, Records, Codec, fill, open_store}
use openconnectd.Store.View.{view}
use openconnectd.Store.Invariant.{IsSound, empty-IsSound}
use openconnectd.Store.Open.{Returns-open_store}
use openconnectd.DaemonConfig
use openconnectd.DaemonConfig.{Yaml, load}
use openconnectd.Manager.{World}
use openconnectd.Manager.Invariant.{IsManaged, is_filed}
use openconnectd.Manager.Reach.{
  booted, process_ended, empty-IsManaged, reconcile-IsManaged, ended-IsManaged,
}
use openconnectd.HttpApi.{Server}
use openconnectd.HttpApi.Managed.{serve-IsManaged}
use openconnectd.Daemon.{
  Flags, Event, request, process_ends, with_config, overridden, opened, boot, step, run, live,
}

-- The records of a file that the daemon wrote: sound, and each instance under its own name.
abbrev pub IsWritten : Records → Type 0
IsWritten r = IsSound (view r) × (is_filed r.instances ≡ true)

-- If there is a file under the path, and its text decodes, then the records that it decodes to are
-- as the daemon writes them. Nothing is asked of other texts.
abbrev pub HasWritten : Codec → Text → Host → Type 0
HasWritten codec path h =
    (t : Text)
    → file path h ≡ some t
    → (raw : RawRecords) → codec.unmarshal t ≡ ok raw
    → IsWritten (fill raw)

abbrev pub state_path : DaemonConfig.Config → Text
state_path cfg = join cfg.state_dir (codes "state.json")

module _ (s : Server) where
  step-IsManaged :
      (e : Event) (w : World)
      → IsManaged s.setting.cfg w.store.records w.sup
      → IsManaged s.setting.cfg (step s e w).store.records (step s e w).sup
  unfolding step process_ended
  step-IsManaged (request req) w h = serve-IsManaged s req w h
  step-IsManaged (process_ends pid) w h = ended-IsManaged s.setting pid w.store.records w.sup h

  run-IsManaged :
      (es : List Event) (w : World)
      → IsManaged s.setting.cfg w.store.records w.sup
      → IsManaged s.setting.cfg (run s es w).store.records (run s es w).sup
  unfolding run
  run-IsManaged [] w h = h
  run-IsManaged (e ∷ es) w h = run-IsManaged es (step s e w) (step-IsManaged e w h)

files-load :
    (env : Env) (yaml : Yaml) (path : Text) (h : Host) → (load env yaml path h).1.files ≡ h.files
unfolding load
files-load env yaml path h = elim (Bool-cases (is_nil path)) [
  | inl blank ↦ rw (blank, load) refl
  | inr given ↦
      rw (given, load)
        (elim (Result-cases (read_file env path h).0) [
          | inl (t, e) ↦ rw e (files-read_file env h path)
          | inr (x, e) ↦ rw e (files-read_file env h path)
        ])
]

module _ (s : Server) where
  -- What is behind the settings in `boot`.
  abbrev opens : Flags → DaemonConfig.Config → Exec Host (DaemonConfig.Config × World)
  opens flags cfg = do
    store ← open_store s.setting.env s.setting.codec (state_path (overridden flags cfg))
    opened (overridden flags cfg) store

  boot-IsManaged :
      (yaml : Yaml) (flags : Flags) (h : Host) (cfg : DaemonConfig.Config) (w : World)
      → HasWritten s.setting.codec (state_path cfg) h
      → (boot s yaml flags h).0 ≡ ok (cfg, w)
      → IsManaged cfg w.store.records w.sup
  unfolding boot booted
  boot-IsManaged yaml flags h cfg w read e =
      let (r, h1) = load s.setting.env yaml flags.config h in
      let (found, er, e1) = continue-eq-ok r (opens flags) h1 e in
      let good = ap (λ o. o.0) (sym e1) ∙ e in
      let path = state_path (overridden flags found) in
      let (r2, h2) = open_store s.setting.env s.setting.codec path h1 in
      let (store, es, e2) = continue-eq-ok r2 (opened (overridden flags found)) h2 good in
      let good2 = ap (λ o. o.0) (sym e2) ∙ good in
      let both : (overridden flags found ≡ cfg)
          × (booted store.path (overridden flags found).ocserv_bin h2 store.records ≡ w) =
        ground arith in
      let there : file (state_path cfg) h ≡ file path h1 =
        ap (λ c. lookup (state_path c) h.files) (sym both.0)
        ∙ ap (lookup path) (sym (files-load s.setting.env yaml flags.config h)) in
      let sound : IsWritten store.records =
        Returns-ok (λ st. IsWritten st.records) r2 store
          (Returns-open_store IsWritten s.setting.codec (empty-IsSound, refl) s.setting.env path h1
            (λ t e'. read t (there ∙ e')))
          es in
      rw (← both.0, ← both.1)
        (empty-IsManaged (with_config s (overridden flags found)).setting
          (overridden flags found).ocserv_bin h2 store.records sound.0 sound.1)

  -- If the daemon boots, what the manager keeps true of its records and its processes together holds
  -- behind every sequence of requests and of processes that end, in which each request is answered
  -- before the next one begins, whatever call fails on the way. The state file, if there is one and it
  -- decodes, holds sound records, with each instance under its own name.
  pub live-IsManaged :
      (yaml : Yaml) (flags : Flags) (h : Host) (cfg : DaemonConfig.Config) (w : World)
      (es : List Event)
      → HasWritten s.setting.codec (state_path cfg) h
      → (boot s yaml flags h).0 ≡ ok (cfg, w)
      → IsManaged cfg
          (live (with_config s cfg) es w).store.records
          (live (with_config s cfg) es w).sup
  unfolding live
  live-IsManaged yaml flags h cfg w es read e =
      run-IsManaged (with_config s cfg) es _ (
        reconcile-IsManaged (with_config s cfg).setting w
          (boot-IsManaged yaml flags h cfg w read e))

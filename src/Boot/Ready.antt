-- ===== src/Boot/Ready.antt =====
-- What holds when the server of server/cmd/pstad/main.go begins to listen.
use eagle_condor_sandbox.Prelude.{
  ◌≤◌, Bool, true, false, List, [], Option, none, some, ◌≡◌, refl, sym, ◌∙◌, subst, arith,
  if◌then◌else◌,
}
use eagle_condor_sandbox.Prelude.Int.{ℤ, pos, negsuc, pos_part, ◌≤ℤ◌}
use eagle_condor_sandbox.Prelude.Assoc.{lookup}
use eagle_condor_sandbox.Exec.{Runtime}
use eagle_condor_sandbox.Catalog.Load.{
  Catalog, Loading, catalog_loaded, load_catalog, IsLoaded, load_catalog-IsLoaded,
}
use eagle_condor_sandbox.Catalog.Index.{index}
use eagle_condor_sandbox.Config.{Config, Loaded, loaded, load, exists, manifest_path}
use eagle_condor_sandbox.Config.Checks.{IsFrom, load_lem}
use eagle_condor_sandbox.Config.Valid.{IsValid}
use eagle_condor_sandbox.Store.Persist.{Disk}
use eagle_condor_sandbox.Store.Recovery.{
  Scan, not_exist, scan_failed, listed, World, Progress, recover, fresh,
}
use eagle_condor_sandbox.Store.Recovery.Adopted.{AllFinal, recover_lem, nothing-AllFinal}
use eagle_condor_sandbox.Queue.Defs.{new_queue}
use eagle_condor_sandbox.Http.Server.{Server, Answers}
use eagle_condor_sandbox.Http.Create.Outcomes.{MakesFresh}
use eagle_condor_sandbox.Boot.{
  Flags, Machine, serves, shows_version, config_ok, runtime, new_server, recovered, cataloged,
  configured, real_main,
}

pub record IsReady (m : Machine) (s : Server) (rt : Runtime) : Type 0 where
  pub from : IsFrom m.host s.config
  pub valid : IsValid m.host s.config
  pub no_problem : (index (λ p. exists (m.host.stat p)) s.config.automation_dir s.manifest).0 ≡ []
  pub indexed : s.by_id ≡ (index (λ p. exists (m.host.stat p)) s.config.automation_dir s.manifest).1
  pub final : AllFinal s.sys.store.runs
  pub open_queue : s.sys.queue.closed ≡ false
  pub idle : s.sys.queue.jobs ≡ []
  pub has_worker : 1 ≤ s.sys.queue.workers
  pub has_place : 1 ≤ s.sys.queue.depth
  pub no_job : (w : Answers) → MakesFresh s w
  pub of_config : rt ≡ runtime s.config

some-injective : (a b : Progress) → some a ≡ some b → a ≡ b
some-injective a b e = cc

recover-AllFinal :
    (w : World) (scan : Scan) (disk : Disk) (p : Progress)
    → recover w scan disk ≡ some p
    → AllFinal p.runs
unfolding recover
recover-AllFinal w (listed es) disk p e =
    let (p', e', final, k) = recover_lem w es disk in
    subst (λ (x : Progress). AllFinal x.runs) (some-injective p' p (sym e' ∙ e)) final
recover-AllFinal w not_exist disk p e =
    subst (λ (x : Progress). AllFinal x.runs) (some-injective (fresh disk) p e) nothing-AllFinal
recover-AllFinal w scan_failed disk p e = absurd (cc)

pos_part_min : (a : ℤ) → pos 1 ≤ℤ a → 1 ≤ pos_part a
pos_part_min (pos n) h = omega arith
pos_part_min (negsuc n) h = omega arith

new_server-IsReady :
    (m : Machine) (c : Config) (cat : Catalog) (p : Progress)
    → IsFrom m.host c × IsValid m.host c
    → IsLoaded (λ p. exists (m.host.stat p)) c.automation_dir cat
    → AllFinal p.runs
    → IsReady m (new_server m c cat p) (runtime c)
unfolding new_server new_queue lookup
new_server-IsReady m c cat p (from, valid) (none_wrong, by_id) final = record {
  from = from;
  valid = valid;
  no_problem = none_wrong;
  indexed = by_id;
  final = final;
  open_queue = refl;
  idle = refl;
  has_worker = pos_part_min c.max_concurrent valid.workers;
  has_place = pos_part_min c.queue_depth valid.depth;
  no_job = λ w id e. (refl, refl);
  of_config = refl;
}

module _ (m : Machine) (f : Flags) (s : Server) (rt : Runtime) (kills : List ℤ) where
  recovered-IsReady :
      (c : Config) (cat : Catalog) (o : Option Progress)
      → o ≡ recover m.world (m.scan c.runs_dir) m.disk
      → IsFrom m.host c × IsValid m.host c
      → IsLoaded (λ p. exists (m.host.stat p)) c.automation_dir cat
      → recovered m c cat o ≡ serves s rt kills
      → IsReady m s rt
  recovered-IsReady c cat none q v l e = absurd (cc)
  recovered-IsReady c cat (some p) q v l e =
      subst (λ x. IsReady m x rt) (server _ s _ rt _ kills e)
        (subst (IsReady m (new_server m c cat p)) (tools _ s _ rt _ kills e)
          (new_server-IsReady m c cat p v l (recover-AllFinal _ _ _ p (sym q))))
    where
      server : (a b : Server) (x y : Runtime) (k l : List ℤ) → serves a x k ≡ serves b y l → a ≡ b
      server a b x y k l e = cc

      tools : (a b : Server) (x y : Runtime) (k l : List ℤ) → serves a x k ≡ serves b y l → x ≡ y
      tools a b x y k l e = cc

  cataloged-IsReady :
      (c : Config) (l : Loading)
      → l
        ≡ load_catalog m.codec
            (λ p. exists (m.host.stat p))
            c.automation_dir
            (m.read_file (manifest_path c))
      → IsFrom m.host c × IsValid m.host c
      → cataloged m f c l ≡ serves s rt kills
      → IsReady m s rt
  cataloged-IsReady c (catalog_loaded cat) q v e = by_flag f.check_only e
    where
      by_flag :
          (b : Bool)
          → (if b
              then config_ok c cat
              else recovered m c cat (recover m.world (m.scan c.runs_dir) m.disk))
            ≡ serves s rt kills
          → IsReady m s rt
      by_flag true e = absurd (cc)
      by_flag false e =
          recovered-IsReady c cat _ refl v (load_catalog-IsLoaded _ _ _ _ cat (sym q)) e
  cataloged-IsReady c _ q v e = absurd (cc)

  configured-IsReady :
      (l : Loaded) → l ≡ load m.host → configured m f l ≡ serves s rt kills → IsReady m s rt
  configured-IsReady (loaded c) q e = cataloged-IsReady c _ refl ((load_lem m.host c).0 (sym q)) e
  configured-IsReady _ q e = absurd (cc)

  by_version :
      (b : Bool)
      → (if b then shows_version else configured m f (load m.host)) ≡ serves s rt kills
      → IsReady m s rt
  by_version true e = absurd (cc)
  by_version false e = configured-IsReady _ refl e

-- When the process begins to serve, the configuration passed every check and stands for the
-- environment, the manifest has no problem and its workflows are indexed, every run in the store
-- is final, the queue is open and empty with at least one worker and one place, it holds no job
-- or buffer of any id, and the workers run with the configuration's tools.
pub real_main-IsReady :
    (m : Machine) (f : Flags) (s : Server) (rt : Runtime) (kills : List ℤ)
    → real_main m f ≡ serves s rt kills
    → IsReady m s rt
unfolding real_main
real_main-IsReady m f s rt kills e = by_version m f s rt kills f.show_version e

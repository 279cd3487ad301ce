-- ===== src/Config/Checks.antt =====
-- What a configuration that Load (server/internal/config/config.go) returns is sure to hold.
use eagle_condor_sandbox.Prelude.{
  true, false, List, [], ◌∷◌, Option, none, some, ◌≡◌, ◌≢◌, ◌↔◌, refl, sym, ap, ◌∙◌, subst, ◌⊎◌,
  inl, inr, Bool-cases,
}
use eagle_condor_sandbox.Prelude.Int.{ℤ, pos}
use eagle_condor_sandbox.Prelude.Text.{Text, codes, text_eq, text_eq_iff, text_eq_refl}
use eagle_condor_sandbox.Prelude.Decimal.Reads.{IsDecimal, parse_int_iff}
use eagle_condor_sandbox.Layout.Path.{abs, join_all}
use eagle_condor_sandbox.Config.{
  Config, Host, env, env_int, default_automation_dir, Problem, Loaded, loaded, checked, settings,
  load_in, load, number,
}
use eagle_condor_sandbox.Config.Defaults.{candidates, FirstFolder, default_automation_dir_iff}
use eagle_condor_sandbox.Config.Valid.{IsValid, validate→IsValid, IsValid→validate}

-- A setting that is what the environment gives for the key, or the default if that is empty.
abbrev pub IsSetting : Host → Text → Text → Text → Type 0
IsSetting h key def v =
    ((h.getenv key ≡ []) × (v ≡ def)) ⊎ ((h.getenv key ≢ []) × (v ≡ h.getenv key))

-- A number that the environment spells for the key, or the default if it gives nothing.
abbrev pub IsNumber : Host → Text → ℤ → ℤ → Type 0
IsNumber h key def z =
    ((h.getenv key ≡ []) × (z ≡ def)) ⊎ ((h.getenv key ≢ []) × IsDecimal (h.getenv key) z)

-- What names the automation directory: its variable, or, if that is empty, the first of the usual
-- places that is a directory.
abbrev pub IsNamed : Host → Text → Type 0
IsNamed h v =
    ((h.getenv (codes "PSTAD_AUTOMATION_DIR") ≡ []) × FirstFolder h (candidates h) v)
    ⊎ ((h.getenv (codes "PSTAD_AUTOMATION_DIR") ≢ [])
        × (v ≡ h.getenv (codes "PSTAD_AUTOMATION_DIR")))

-- Where the settings come from.
pub record IsFrom (h : Host) (c : Config) : Type 0 where
  pub named : Text
  pub naming : IsNamed h named
  pub automation : abs h.getwd named ≡ some c.automation_dir
  pub addr : IsSetting h (codes "PSTAD_ADDR") (codes "127.0.0.1:8080") c.addr
  pub runs :
      IsSetting h
        (codes "PSTAD_RUNS_DIR")
        (join_all (c.automation_dir ∷ codes ".runs" ∷ []))
        c.runs_dir
  pub receipts :
      IsSetting h
        (codes "PSTAD_RECEIPTS_DIR")
        (join_all (c.automation_dir ∷ codes "data" ∷ codes "receipts" ∷ []))
        c.receipts_dir
  pub node : IsSetting h (codes "PSTAD_NODE_BIN") (codes "node") c.node_bin
  pub workers : IsNumber h (codes "PSTAD_MAX_CONCURRENT") (pos 2) c.max_concurrent
  pub depth : IsNumber h (codes "PSTAD_QUEUE_DEPTH") (pos 32) c.queue_depth
  pub upload : IsNumber h (codes "PSTAD_MAX_UPLOAD_BYTES") (pos 10485760) c.max_upload_bytes
  pub token : c.token ≡ h.getenv (codes "PSTAD_TOKEN")
  pub grace : c.shutdown_grace ≡ pos 15000000000

apart : (t : Text) → text_eq t [] ≡ false → t ≢ []
apart t e q = differ (sym e ∙ ap (λ k. text_eq k []) q ∙ text_eq_refl [])
  where
    differ : false ≡ true → ⊥
    differ p = cc

env_iff : (h : Host) (key def v : Text) → (v ≡ env h key def) ↔ IsSetting h key def v
unfolding env
env_iff h key def v = elim (Bool-cases (text_eq (h.getenv key) [])) [
  | inl e ↦
      let nil : h.getenv key ≡ [] = (text_eq_iff (h.getenv key) []).0 e in
      rw e (λ q. inl (nil, q), λ s. elim s [ inl (_, q) ↦ q | inr (ne, _) ↦ absurd (ne nil) ])
  | inr e ↦
      let ne : h.getenv key ≢ [] = apart (h.getenv key) e in
      rw e (λ q. inr (ne, q), λ s. elim s [ inl (nil, _) ↦ absurd (ne nil) | inr (_, q) ↦ q ])
]

IsNamed-iff :
    (h : Host) (v : Text)
    → (v ≡ env h (codes "PSTAD_AUTOMATION_DIR") (default_automation_dir h)) ↔ IsNamed h v
IsNamed-iff h v = (λ e. there ((env_iff h _ _ v).0 e), λ n. (env_iff h _ _ v).1 (back n))
  where
    there : IsSetting h (codes "PSTAD_AUTOMATION_DIR") (default_automation_dir h) v → IsNamed h v
    there (inl (n, e)) = inl (n, (default_automation_dir_iff h v).0 e)
    there (inr k) = inr k

    back : IsNamed h v → IsSetting h (codes "PSTAD_AUTOMATION_DIR") (default_automation_dir h) v
    back (inl (n, f)) = inl (n, (default_automation_dir_iff h v).1 f)
    back (inr k) = inr k

env_int_iff :
    (h : Host) (key : Text) (def z : ℤ) → (env_int h key def ≡ some z) ↔ IsNumber h key def z
unfolding env_int
env_int_iff h key def z = elim (Bool-cases (text_eq (h.getenv key) [])) [
  | inl e ↦
      let nil : h.getenv key ≡ [] = (text_eq_iff (h.getenv key) []).0 e in
      rw e (
        λ q. inl (nil, cc),
        λ s. elim s [ inl (_, q) ↦ ap some (sym q) | inr (ne, _) ↦ absurd (ne nil) ],
      )
  | inr e ↦
      let ne : h.getenv key ≢ [] = apart (h.getenv key) e in
      rw e (
        λ q. inr (ne, (parse_int_iff (h.getenv key) z).0 q),
        λ s. elim s [
          | inl (nil, _) ↦ absurd (ne nil)
          | inr (_, q) ↦ (parse_int_iff (h.getenv key) z).1 q
        ],
      )
]

checked_iff : (c d : Config) (ps : List Problem) → (checked c ps ≡ loaded d) ↔ ((ps ≡ []) × (d ≡ c))
checked_iff c d [] = (λ e. (refl, cc), λ e. ap loaded (sym e.1))
checked_iff c d (p ∷ ps) = (λ e. absurd (cc), λ e. absurd (cc))

number_iff :
    (key : Text) (o : Option ℤ) (next : ℤ → Loaded) (c : Config)
    → (number key o next ≡ loaded c) ↔ ((n : ℤ) × (o ≡ some n) × (next n ≡ loaded c))
number_iff key none next c = (λ e. absurd (cc), λ (n, e, q). absurd (cc))
number_iff key (some m) next c =
    (λ q. (m, refl, q), λ (n, e, q). subst (λ k. next k ≡ loaded c) (some_eq m n e) q)
  where
    some_eq : (a b : ℤ) → some a ≡ some b → b ≡ a
    some_eq a b e = cc

settings-IsFrom :
    (h : Host) (automation : Text) (workers depth upload : ℤ)
    → abs h.getwd (env h (codes "PSTAD_AUTOMATION_DIR") (default_automation_dir h))
      ≡ some automation
    → IsNumber h (codes "PSTAD_MAX_CONCURRENT") (pos 2) workers
    → IsNumber h (codes "PSTAD_QUEUE_DEPTH") (pos 32) depth
    → IsNumber h (codes "PSTAD_MAX_UPLOAD_BYTES") (pos 10485760) upload
    → IsFrom h (settings h automation workers depth upload)
unfolding settings
settings-IsFrom h automation workers depth upload q w d u = record {
  named = env h (codes "PSTAD_AUTOMATION_DIR") (default_automation_dir h);
  naming = (IsNamed-iff h _).0 refl;
  automation = q;
  addr = (env_iff h _ _ _).0 refl;
  runs = (env_iff h _ _ _).0 refl;
  receipts = (env_iff h _ _ _).0 refl;
  node = (env_iff h _ _ _).0 refl;
  workers = w;
  depth = d;
  upload = u;
  token = refl;
  grace = refl;
}

IsFrom→settings :
    (h : Host) (c : Config)
    → IsFrom h c
    → c ≡ settings h c.automation_dir c.max_concurrent c.queue_depth c.max_upload_bytes
unfolding settings
IsFrom→settings h c f = λ i. record {
  addr = (env_iff h _ _ _).1 f.addr i;
  automation_dir = c.automation_dir;
  runs_dir = (env_iff h _ _ _).1 f.runs i;
  receipts_dir = (env_iff h _ _ _).1 f.receipts i;
  node_bin = (env_iff h _ _ _).1 f.node i;
  max_concurrent = c.max_concurrent;
  queue_depth = c.queue_depth;
  token = f.token i;
  max_upload_bytes = c.max_upload_bytes;
  shutdown_grace = f.grace i;
}

load_in→ :
    (h : Host) (c : Config) (o : Option Text)
    → o ≡ abs h.getwd (env h (codes "PSTAD_AUTOMATION_DIR") (default_automation_dir h))
    → load_in h o ≡ loaded c
    → IsFrom h c × IsValid h c
load_in→ h c none q e = absurd (cc)
load_in→ h c (some a) q e =
    let (w, ew, e1) = (number_iff _ _ _ c).0 e in
    let (d, ed, e2) = (number_iff _ _ _ c).0 e1 in
    let (u, eu, e3) = (number_iff _ _ _ c).0 e2 in
    let (v, ec) = (checked_iff (settings h a w d u) c _).0 e3 in
    (
      subst (IsFrom h) (sym ec) (
          settings-IsFrom h a w d u (sym q) ((env_int_iff h _ _ w).0 ew)
            ((env_int_iff h _ _ d).0 ed) ((env_int_iff h _ _ u).0 eu)),
      subst (IsValid h) (sym ec) (validate→IsValid h (settings h a w d u) v),
    )

→load_in :
    (h : Host) (c : Config)
    → IsFrom h c
    → IsValid h c
    → load_in h (some c.automation_dir) ≡ loaded c
→load_in h c f v = (number_iff _ _ _ c).1 (
  c.max_concurrent,
  (env_int_iff h _ _ _).1 f.workers,
  (number_iff _ _ _ c).1 (
    c.queue_depth,
    (env_int_iff h _ _ _).1 f.depth,
    (number_iff _ _ _ c).1 (
      c.max_upload_bytes,
      (env_int_iff h _ _ _).1 f.upload,
      (checked_iff (settings h c.automation_dir c.max_concurrent c.queue_depth c.max_upload_bytes) c
            _).1
          (
            IsValid→validate h _ (subst (IsValid h) (IsFrom→settings h c f) v),
            IsFrom→settings h c f,
          ),
    ),
  ),
)

-- Load returns a configuration exactly if each setting is what its variable gives or, if that is
-- empty, its default; the automation directory is by default the first directory of ../automation
-- from the executable, automation and ../automation from the working directory, or else the name
-- automation, and is made absolute; the runs and receipts directories stand in it by default; the three numbers are int64s that their variables spell in
-- decimal, or their defaults; the token is its variable's; and the checks of validate hold: at least
-- one worker, a queue of at least one place, a token, an automation directory with its manifest and
-- its Playwright, and a runs directory that could be made.
pub load_lem : (h : Host) (c : Config) → (load h ≡ loaded c) ↔ (IsFrom h c × IsValid h c)
unfolding load
load_lem h c = (
  load_in→ h c _ refl,
  λ (f, v).
      ap (load_in h) (ap (abs h.getwd) (sym ((IsNamed-iff h _).1 f.naming)) ∙ f.automation)
      ∙ →load_in h c f v,
)

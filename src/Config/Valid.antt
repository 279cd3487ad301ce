-- ===== src/Config/Valid.antt =====
-- What validate (server/internal/config/config.go) asks for.
use eagle_condor_sandbox.Prelude.{
  Bool, true, false, not, List, [], ◌∷◌, ◌++◌, ◌≡◌, ◌≢◌, ◌↔◌, refl, arith,
}
use eagle_condor_sandbox.Prelude.Int.{ℤ, pos, ltb_ℤ, ◌≤ℤ◌}
use eagle_condor_sandbox.Prelude.Text.{Text, text_eq}
use eagle_condor_sandbox.Config.{
  Config, Host, Stat, absent, file, folder, playwright_cli, manifest_path, is_folder, exists,
  Problem, unless, validate,
}

-- What validate asks for.
pub record IsValid (h : Host) (c : Config) : Type 0 where
  pub workers : pos 1 ≤ℤ c.max_concurrent
  pub depth : pos 1 ≤ℤ c.queue_depth
  pub token : c.token ≢ []
  pub automation : h.stat c.automation_dir ≡ folder
  pub manifest : h.stat (manifest_path c) ≢ absent
  pub cli : h.stat (playwright_cli c) ≢ absent
  pub runs : h.mkdir_all c.runs_dir ≡ true

unless-nil :
    (b : Bool) (p : Problem) (ps : List Problem)
    → (unless b p ++ ps ≡ []) ↔ ((b ≡ true) × (ps ≡ []))
unless-nil true p ps = (λ e. (refl, e), λ e. e.1)
unless-nil false p ps = (λ e. absurd (cc), λ e. absurd (cc))

unless-last : (b : Bool) (p : Problem) → unless b p ≡ [] → b ≡ true
unless-last true p e = refl
unless-last false p e = absurd (cc)

is_folder→folder : (s : Stat) → is_folder s ≡ true → s ≡ folder
is_folder→folder folder e = refl
is_folder→folder file e = absurd (cc)
is_folder→folder absent e = absurd (cc)

exists→ne : (s : Stat) → exists s ≡ true → s ≢ absent
exists→ne folder e = cc
exists→ne file e = cc
exists→ne absent e = absurd (cc)

ne→exists : (s : Stat) → s ≢ absent → exists s ≡ true
ne→exists folder e = refl
ne→exists file e = refl
ne→exists absent e = absurd (e refl)

not_less : (a : ℤ) → (not (ltb_ℤ a (pos 1)) ≡ true) ↔ (pos 1 ≤ℤ a)
not_less a = ground arith

not_empty : (t : Text) → (not (text_eq t []) ≡ true) ↔ (t ≢ [])
not_empty [] = unfold text_eq in (λ e. absurd (cc), λ e. absurd (e refl))
not_empty (c ∷ t) = unfold text_eq in (λ e. cc, λ e. refl)

pub validate→IsValid : (h : Host) (c : Config) → validate h c ≡ [] → IsValid h c
unfolding validate
validate→IsValid h c e =
    let (w, e1) = (unless-nil _ _ _).0 e in
    let (d, e2) = (unless-nil _ _ _).0 e1 in
    let (t, e3) = (unless-nil _ _ _).0 e2 in
    let (a, e4) = (unless-nil _ _ _).0 e3 in
    let (m, e5) = (unless-nil _ _ _).0 e4 in
    let (p, e6) = (unless-nil _ _ _).0 e5 in
    record {
      workers = (not_less c.max_concurrent).0 w;
      depth = (not_less c.queue_depth).0 d;
      token = (not_empty c.token).0 t;
      automation = is_folder→folder _ a;
      manifest = exists→ne _ m;
      cli = exists→ne _ p;
      runs = unless-last _ _ e6;
    }

pub IsValid→validate : (h : Host) (c : Config) → IsValid h c → validate h c ≡ []
unfolding validate
IsValid→validate h c v =
    rw
      (
        (not_less c.max_concurrent).1 v.workers,
        (not_less c.queue_depth).1 v.depth,
        (not_empty c.token).1 v.token,
        v.automation,
        ne→exists _ v.manifest,
        ne→exists _ v.cli,
        v.runs,
      )
      refl

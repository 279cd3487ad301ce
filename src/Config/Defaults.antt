-- ===== src/Config/Defaults.antt =====
-- Which directory defaultAutomationDir (server/internal/config/config.go) chooses.
use eagle_condor_sandbox.Prelude.{
  Bool, true, false, List, [], ◌∷◌, ◌++◌, Option, none, some, ◌≡◌, ◌≢◌, ◌⊎◌, ◌↔◌, refl, sym, ap,
  ◌∙◌, if◌then◌else◌, Bool-cases, inl, inr,
}
use eagle_condor_sandbox.Prelude.Text.{Text, codes}
use eagle_condor_sandbox.Layout.Path.{join_all, dir}
use eagle_condor_sandbox.Config.{
  Host, Stat, absent, file, folder, is_folder, dir_exists, first_dir, beside_exe, in_cwd, or_else,
  default_automation_dir,
}

abbrev from_exe : Option Text → List Text
from_exe none = []
from_exe (some exe) = join_all (dir exe ∷ codes ".." ∷ codes "automation" ∷ []) ∷ []

abbrev from_cwd : Option Text → List Text
from_cwd none = []
from_cwd (some wd) =
    join_all (wd ∷ codes "automation" ∷ [])
    ∷ join_all (wd ∷ codes ".." ∷ codes "automation" ∷ [])
    ∷ []

-- The places where the automation directory may be: beside that of the executable, in the working
-- directory, and beside it.
abbrev pub candidates : Host → List Text
candidates h = from_exe h.executable ++ from_cwd h.getwd

-- The first place that is a directory, or the bare name if there is none.
abbrev pub FirstFolder : Host → List Text → Text → Type 0
FirstFolder h [] v = v ≡ codes "automation"
FirstFolder h (p ∷ ps) v =
    ((h.stat p ≡ folder) × (v ≡ p)) ⊎ ((h.stat p ≢ folder) × FirstFolder h ps v)

abbrev first_of : Host → List Text → Text
first_of h [] = codes "automation"
first_of h (p ∷ ps) = let rest = first_of h ps in if dir_exists h p then p else rest

is_folder_iff : (s : Stat) → (is_folder s ≡ true) ↔ (s ≡ folder)
is_folder_iff folder = (λ e. refl, λ e. refl)
is_folder_iff file = (λ e. absurd (cc), λ e. absurd (cc))
is_folder_iff absent = (λ e. absurd (cc), λ e. absurd (cc))

dir_exists_iff : (h : Host) (p : Text) → (dir_exists h p ≡ true) ↔ (h.stat p ≡ folder)
unfolding dir_exists
dir_exists_iff h p = is_folder_iff (h.stat p)

apart : {t : Bool} → t ≡ true → t ≡ false → ⊥
apart p r = cc

first_of_iff : (h : Host) (ps : List Text) (v : Text) → (v ≡ first_of h ps) ↔ FirstFolder h ps v
first_of_iff h [] v = (λ e. e, λ e. e)
first_of_iff h (p ∷ ps) v = elim (Bool-cases (dir_exists h p)) [
  | inl e ↦
      let there : h.stat p ≡ folder = (dir_exists_iff h p).0 e in
      rw e (λ q. inl (there, q), λ s. elim s [ inl (_, q) ↦ q | inr (ne, _) ↦ absurd (ne there) ])
  | inr e ↦
      let ne : h.stat p ≢ folder = λ q. apart ((dir_exists_iff h p).1 q) e in
      rw e (
        λ q. inr (ne, (first_of_iff h ps v).0 q),
        λ s. elim s [ inl (q, _) ↦ absurd (ne q) | inr (_, q) ↦ (first_of_iff h ps v).1 q ],
      )
]

beside_exe-first :
    (h : Host) (o : Option Text) (ps : List Text)
    → or_else (beside_exe h o) (first_of h ps) ≡ first_of h (from_exe o ++ ps)
beside_exe-first h none ps = refl
beside_exe-first h (some exe) ps =
    elim (Bool-cases (dir_exists h (join_all (dir exe ∷ codes ".." ∷ codes "automation" ∷ [])))) [
      | inl e ↦ rw e refl
      | inr e ↦ rw e refl
    ]

first_dir-first :
    (h : Host) (ps : List Text) → or_else (first_dir h ps) (codes "automation") ≡ first_of h ps
unfolding first_dir
first_dir-first h [] = refl
first_dir-first h (p ∷ ps) = elim (Bool-cases (dir_exists h p)) [
  | inl e ↦ rw e refl
  | inr e ↦ rw e (first_dir-first h ps)
]

in_cwd-first :
    (h : Host) (o : Option Text)
    → or_else (in_cwd h o) (codes "automation") ≡ first_of h (from_cwd o)
in_cwd-first h none = refl
in_cwd-first h (some wd) = first_dir-first h _

-- defaultAutomationDir chooses the first of the places that is a directory.
pub default_automation_dir_iff :
    (h : Host) (v : Text) → (v ≡ default_automation_dir h) ↔ FirstFolder h (candidates h) v
unfolding default_automation_dir
default_automation_dir_iff h v =
    (λ e. (first_of_iff h _ v).0 (e ∙ same), λ f. (first_of_iff h _ v).1 f ∙ sym same)
  where
    same :
        or_else (beside_exe h h.executable) (or_else (in_cwd h h.getwd) (codes "automation"))
        ≡ first_of h (candidates h)
    same =
        ap (or_else (beside_exe h h.executable)) (in_cwd-first h h.getwd)
        ∙ beside_exe-first h h.executable (from_cwd h.getwd)

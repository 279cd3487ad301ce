-- ===== src/Examples/Layouts.antt =====
-- The theorems of server/internal/run/layout.go at concrete inputs.
use eagle_condor_sandbox.Prelude.{ℕ, List, [], ◌∷◌, none, some, ◌≡◌, ◌≢◌, refl, arith, All}
use eagle_condor_sandbox.Prelude.Text.{Text, codes, text_eq}
use eagle_condor_sandbox.Layout.Path.{abs}
use eagle_condor_sandbox.Layout.Components.{Proper, render}
use eagle_condor_sandbox.Layout.Inside.{Below, resolve-Below}
use eagle_condor_sandbox.Layout.{escapes, absolute, resolve}

refuses_parent : resolve none (codes "/srv/runs/a") (codes "output/../../b/meta.json") ≡ escapes
unfolding resolve
refuses_parent = refl

refuses_absolute : resolve none (codes "/srv/runs/a") (codes "/etc/passwd") ≡ absolute
unfolding resolve
refuses_absolute = refl

a-Proper : Proper (codes "a")
a-Proper = unfold text_eq in record { plain = (omega arith, tt); named = refl; down = refl }

resolve-Below_example :
    (rs : List Text) × (abs none (codes "/srv/runs/a") ≡ some (render rs))
    × All Proper rs
    × Below rs (codes "/srv/runs/a/b")
unfolding resolve
resolve-Below_example =
    resolve-Below none (codes "/srv/runs/a") (codes "x/../b") (codes "/srv/runs/a/b") tt refl

b-Proper : Proper (codes "b")
b-Proper = unfold text_eq in record { plain = (omega arith, tt); named = refl; down = refl }

head_inj : (x y : ℕ) (s t : Text) → (x ∷ s) ≡ (y ∷ t) → x ≡ y
head_inj x y s t e = cc

apart : codes "a" ≢ codes "b"
apart e = omega (arith, head_inj b'a' b'b' [] [] e)

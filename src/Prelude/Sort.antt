-- ===== src/Prelude/Sort.antt =====
-- Strings in the order of their bytes, and sort.Slice by a string. Elements with equal strings may
-- come out in any order of sort.Slice; here a later one comes first.
use eagle_condor_sandbox.Prelude.Tests.{ltb, if◌then◌else◌, Bool-cases}
use eagle_condor_sandbox.Prelude.Lists.{All, All-map}
use eagle_condor_sandbox.Prelude.Text.{Text}
use mathlib.Core.Path.{◌≡◌, refl}
use mathlib.Core.Logic.{inl, inr}
use mathlib.Core.Bool.{Bool, true, false}
use mathlib.Core.List.{List, [], ◌∷◌, Perm}
use mathlib.Core.List.Perm
use native.Mathlib.Omega.{arith}

-- `<` on strings
unfoldable pub less : Text → Text → Bool
less s [] = false
less [] (y ∷ ys) = true
less (x ∷ xs) (y ∷ ys) =
    let rest = less xs ys in if ltb x y then true else if ltb y x then false else rest

less_asym : (s t : Text) → less s t ≡ true → less t s ≡ false
unfolding less
less_asym s [] h = absurd (cc)
less_asym [] (y ∷ ys) h = refl
less_asym (x ∷ xs) (y ∷ ys) h = ground (arith, less_asym xs ys)

less_trans : (s t u : Text) → less t s ≡ false → less u t ≡ false → less u s ≡ false
unfolding less
less_trans [] t u h k = refl
less_trans (x ∷ xs) [] u h k = absurd (cc)
less_trans (x ∷ xs) (y ∷ ys) [] h k = absurd (cc)
less_trans (x ∷ xs) (y ∷ ys) (z ∷ zs) h k = ground (arith, less_trans xs ys zs)

module _ {ℓ} {A : Type ℓ} (key : A → Text) where
  unfoldable pub place : A → List A → List A
  unfolding less
  place a [] = a ∷ []
  place a (x ∷ xs) = let rest = place a xs in if less (key x) (key a) then x ∷ rest else a ∷ x ∷ xs

  -- sort.Slice(xs, func(i, j) { return key(xs[i]) < key(xs[j]) })
  unfoldable pub sort_by : List A → List A
  unfolding place
  sort_by [] = []
  sort_by (x ∷ xs) = place x (sort_by xs)

  -- No element comes before one with a smaller string.
  abbrev pub Sorted : List A → Type ℓ
  Sorted [] = Unit
  Sorted (x ∷ xs) = All (λ y. less (key y) (key x) ≡ false) xs × Sorted xs

  place-Perm : (a : A) (xs : List A) → Perm (place a xs) (a ∷ xs)
  unfolding place
  place-Perm a [] = Perm.refl (a ∷ [])
  place-Perm a (x ∷ xs) = elim (Bool-cases (less (key x) (key a))) [
    | inl e ↦ rw e (Perm.trans (Perm.cons x (place-Perm a xs)) (Perm.swap a x xs))
    | inr e ↦ rw e (Perm.refl (a ∷ x ∷ xs))
  ]

  pub sort_by-Perm : (xs : List A) → Perm (sort_by xs) xs
  unfolding sort_by
  sort_by-Perm [] = Perm.refl []
  sort_by-Perm (x ∷ xs) = Perm.trans (place-Perm x (sort_by xs)) (Perm.cons x (sort_by-Perm xs))

  place-All {κ} : (P : A → Type κ) (a : A) (xs : List A) → P a → All P xs → All P (place a xs)
  unfolding place
  place-All P a [] h hx = (h, tt)
  place-All P a (x ∷ xs) h (p, hx) = elim (Bool-cases (less (key x) (key a))) [
    | inl e ↦ rw e (p, place-All P a xs h hx)
    | inr e ↦ rw e (h, (p, hx))
  ]

  pub sort_by-All {κ} : (P : A → Type κ) (xs : List A) → All P xs → All P (sort_by xs)
  unfolding sort_by
  sort_by-All P [] h = tt
  sort_by-All P (x ∷ xs) (p, h) = place-All P x (sort_by xs) p (sort_by-All P xs h)

  place-Sorted : (a : A) (xs : List A) → Sorted xs → Sorted (place a xs)
  unfolding place
  place-Sorted a [] d = (tt, tt)
  place-Sorted a (x ∷ xs) (h, d) = elim (Bool-cases (less (key x) (key a))) [
    | inl e ↦ rw e (
      place-All (λ y. less (key y) (key x) ≡ false) a xs (less_asym (key x) (key a) e) h,
      place-Sorted a xs d,
    )
    | inr e ↦ rw e (
      (
        e,
        All-map (λ y (p : less (key y) (key x) ≡ false). less_trans (key a) (key x) (key y) e p) xs
            h,
      ),
      (h, d),
    )
  ]

  pub sort_by-Sorted : (xs : List A) → Sorted (sort_by xs)
  unfolding sort_by
  sort_by-Sorted [] = tt
  sort_by-Sorted (x ∷ xs) = place-Sorted x (sort_by xs) (sort_by-Sorted xs)

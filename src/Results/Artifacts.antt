-- ===== src/Results/Artifacts.antt =====
-- Which artifacts newArtifact (server/internal/run/results.go) marks as sensitive.
use eagle_condor_sandbox.Prelude.{
  ℕ, Bool, true, false, ◌≡◌, ◌≢◌, ◌↔◌, refl, ap, Bool-cases, inl, inr, if◌then◌else◌,
}
use eagle_condor_sandbox.Prelude.Text.{Text, codes, text_eq, text_eq_iff, has_prefix, has_suffix}
use eagle_condor_sandbox.Layout.Path.{base}
use eagle_condor_sandbox.Run.{
  Kind, output_json, policy_csv, trace, inputs, screenshot, video, other_kind,
}
use eagle_condor_sandbox.Results.{classify, is_trace, new_artifact}

classify-named :
    (name other : Text) → is_trace other ≡ false → is_trace name ≡ true → text_eq name other ≡ false
classify-named name other apart here = elim (Bool-cases (text_eq name other)) [
  | inl e ↦ absurd (cc (ap is_trace ((text_eq_iff name other).0 e), apart, here))
  | inr e ↦ e
]

classify-trace : (name : Text) → is_trace name ≡ true → classify name ≡ (trace, true)
unfolding classify has_prefix has_suffix
classify-trace name t = rw (
  classify-named name (codes "output.json") refl t,
  classify-named name (codes "policyViolations.csv") refl t,
  classify-named name (codes "inputs.json") refl t,
  classify-named name (codes "report.json") refl t,
  t,
)

abbrev Harmless : Kind × Bool → Type 0
Harmless (kind, sensitive) = (sensitive ≡ false) × (kind ≢ trace)

if-Harmless :
    (b : Bool) (k : Kind) (y : Kind × Bool)
    → k ≢ trace
    → Harmless y
    → Harmless (if b then (k, false) else y)
if-Harmless true k y h g = (refl, h)
if-Harmless false k y h g = g

other_kind-Harmless : Harmless (other_kind, false)
other_kind-Harmless = (refl, λ e. cc)

classify-Harmless : (name : Text) → is_trace name ≡ false → Harmless (classify name)
unfolding classify
classify-Harmless name t = rw t (
    if-Harmless _ output_json _ (λ e. cc)
      (if-Harmless _ policy_csv _ (λ e. cc)
        (if-Harmless _ inputs _ (λ e. cc)
          (if-Harmless _ other_kind _ (λ e. cc)
            (if-Harmless _ screenshot _ (λ e. cc)
              (if-Harmless _ video _ (λ e. cc) other_kind-Harmless))))))

-- An artifact is marked as sensitive, and taken for a trace, exactly if its file's name begins with
-- "trace" and ends in ".zip".
pub new_artifact_lem :
    (hash : Text → Text) (rel : Text) (size : ℕ)
    → let a = new_artifact hash rel size in
      ((a.sensitive ≡ true) ↔ (is_trace (base rel) ≡ true))
      × ((a.kind ≡ trace) ↔ (is_trace (base rel) ≡ true))
unfolding new_artifact
new_artifact_lem hash rel size = elim (Bool-cases (is_trace (base rel))) [
  | inl t ↦
      let e = classify-trace (base rel) t in
      ((λ q. t, λ q. ap (λ p. p.1) e), (λ q. t, λ q. ap (λ p. p.0) e))
  | inr t ↦
      let (plain, other) = classify-Harmless (base rel) t in
      ((λ q. cc (q, plain), λ q. cc (q, t)), (λ q. absurd (other q), λ q. cc (q, t)))
]

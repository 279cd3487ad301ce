-- ===== src/Exec/Environment/Chosen.antt =====
-- Where each variable of the child's environment comes from (buildEnv of
-- server/internal/run/exec.go), and the timeout it is told.
use eagle_condor_sandbox.Prelude.{
  ℕ, ◌-◌, ◌*◌, ◌≤◌, ◌<◌, Bool, true, false, List, [], ◌∷◌, Option, none, some, ltb, ◌≡◌, ◌⊎◌, ◌↔◌,
  refl, ap, ◌∙◌, arith, Bool-cases, inl, inr, if◌then◌else◌,
}
use eagle_condor_sandbox.Prelude.Int.{pos}
use eagle_condor_sandbox.Prelude.Text.{Text, text_eq, text_eq_iff}
use eagle_condor_sandbox.Prelude.Assoc.{Assoc, lookup, lookup-insert}
use eagle_condor_sandbox.Exec.{Spec, Runtime}
use eagle_condor_sandbox.Exec.Environment.{
  passthrough, with_host, inherit, playwright_time, playwright_ms, own, assign, env_map,
}

abbrev pub or_from : Option Text → Option Text → Option Text
or_from (some v) other = some v
or_from none other = other

abbrev pub member : Text → List Text → Bool
member k [] = false
member k (j ∷ js) = if text_eq j k then true else member k js

-- A variable of the server, if it is one that may pass.
abbrev pub allowed : (Text → Option Text) → Text → Option Text
allowed host k = if member k passthrough then host k else none

assign-lookup :
    (k : Text) (kvs env : Assoc Text)
    → lookup k (assign kvs env) ≡ or_from (lookup k kvs) (lookup k env)
unfolding assign lookup
assign-lookup k [] env = refl
assign-lookup k ((j, v) ∷ kvs) env = elim (Bool-cases (text_eq j k)) [
  | inl e ↦ lookup-insert j k v (assign kvs env) ∙ rw e
  | inr e ↦ lookup-insert j k v (assign kvs env) ∙ rw e (assign-lookup k kvs env)
]

with_host-lookup :
    (host : Text → Option Text) (j k : Text) (env : Assoc Text)
    → lookup k (with_host j (host j) env)
      ≡ (if text_eq j k then or_from (host k) (lookup k env) else lookup k env)
with_host-lookup host j k env = elim (Bool-cases (text_eq j k)) [
  | inl e ↦
      rw e (found (host j) e ∙ ap (λ i. or_from (host i) (lookup k env)) ((text_eq_iff j k).0 e))
  | inr e ↦ rw e (missed (host j) e)
]
  where
    found :
        (o : Option Text)
        → text_eq j k ≡ true
        → lookup k (with_host j o env) ≡ or_from o (lookup k env)
    found none e = refl
    found (some v) e = lookup-insert j k v env ∙ rw e

    missed : (o : Option Text) → text_eq j k ≡ false → lookup k (with_host j o env) ≡ lookup k env
    missed none e = refl
    missed (some v) e = lookup-insert j k v env ∙ rw e

or_from_twice : (o p : Option Text) → or_from o (or_from o p) ≡ or_from o p
or_from_twice none p = refl
or_from_twice (some v) p = refl

inherit-lookup :
    (host : Text → Option Text) (k : Text) (ks : List Text) (env : Assoc Text)
    → lookup k (inherit host ks env)
      ≡ (if member k ks then or_from (host k) (lookup k env) else lookup k env)
unfolding inherit
inherit-lookup host k [] env = refl
inherit-lookup host k (j ∷ js) env =
    inherit-lookup host k js (with_host j (host j) env) ∙ by_key (Bool-cases (text_eq j k))
  where
    x : Option Text
    x = lookup k (with_host j (host j) env)

    by_key :
        (text_eq j k ≡ true) ⊎ (text_eq j k ≡ false)
        → (if member k js then or_from (host k) x else x)
          ≡ (if member k (j ∷ js) then or_from (host k) (lookup k env) else lookup k env)
    by_key (inl e) = elim (Bool-cases (member k js)) [
      | inl m ↦ rw (m, with_host-lookup host j k env, e) (or_from_twice (host k) (lookup k env))
      | inr m ↦ rw (m, with_host-lookup host j k env, e)
    ]
    by_key (inr e) = rw (with_host-lookup host j k env, e)

-- The child sees, under each name, what the request sets; else what the server sets for the run;
-- else the server's own value if the name is on the list of those that may pass; and nothing
-- else.
pub env_map-lookup :
    (host : Text → Option Text) (rt : Runtime) (spec : Spec) (k : Text)
    → lookup k (env_map host rt spec)
      ≡ or_from (lookup k spec.env) (or_from (lookup k (own rt spec)) (allowed host k))
unfolding env_map
env_map-lookup host rt spec k =
    assign-lookup k spec.env (assign (own rt spec) (inherit host passthrough []))
    ∙ ap (or_from (lookup k spec.env)) (
        assign-lookup k (own rt spec) (inherit host passthrough [])
        ∙ ap (or_from (lookup k (own rt spec)))
            (inherit-lookup host k passthrough [] ∙ nothing_else))
  where
    nothing_else :
        (if member k passthrough then or_from (host k) (lookup k []) else lookup k [])
        ≡ allowed host k
    nothing_else = elim (Bool-cases (member k passthrough)) [
      | inl m ↦ rw m (unfold lookup in alone (host k))
      | inr m ↦ rw m (unfold lookup in refl)
    ]
      where
        alone : (o : Option Text) → or_from o none ≡ o
        alone none = refl
        alone (some v) = refl

playwright_ms-short : (n : ℕ) → n ≤ 150 → playwright_ms (pos n) ≡ 30000
unfolding playwright_ms playwright_time
playwright_ms-short n h = ground arith

playwright_ms-long : (n : ℕ) → 150 ≤ n → n ≤ 9000000000 → playwright_ms (pos n) ≡ (n - 120) * 1000
unfolding playwright_ms playwright_time
playwright_ms-long n lo hi = ground arith

-- For a timeout of at most 9000000000 seconds, which a Duration can hold, Playwright is told to
-- give up two minutes before it, but not before half a minute. So it gives up before the run is
-- killed exactly if the timeout is longer than half a minute.
pub playwright_ms_lem :
    (n : ℕ)
    → n ≤ 9000000000
    → (n ≤ 150 → playwright_ms (pos n) ≡ 30000)
      × (150 ≤ n → playwright_ms (pos n) ≡ (n - 120) * 1000)
      × ((playwright_ms (pos n) < n * 1000) ↔ (30 < n))
playwright_ms_lem n h = (playwright_ms-short n, λ lo. playwright_ms-long n lo h, sooner)
  where
    sooner : (playwright_ms (pos n) < n * 1000) ↔ (30 < n)
    sooner = elim (Bool-cases (ltb n 150)) [
      | inl e ↦ rw (playwright_ms-short n (ground arith)) (λ lt. omega arith, λ lt. omega arith)
      | inr e ↦ rw (playwright_ms-long n (ground arith) h) (λ lt. ground arith, λ lt. ground arith)
    ]

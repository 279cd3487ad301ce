-- ===== src/Http/Serve/Guarded.antt =====
-- What Handler (server/internal/httpapi/server.go) lets through, and what it shows to whom.
use eagle_condor_sandbox.Prelude.{
  Bool, true, false, ◌||◌, List, [], ◌∷◌, Option, none, some, ◌≡◌, ◌⊎◌, inl, inr, refl, sym, ap,
  ◌∙◌, subst, arith, if◌then◌else◌, All, Bool-cases,
}
use eagle_condor_sandbox.Prelude.Text.{Text, codes, text_eq, text_eq_iff}
use eagle_condor_sandbox.Http.Server.{Server, Surroundings, HttpRequest}
use eagle_condor_sandbox.Http.Reply.{Response, Body, nothing, problem, health, reply}
use eagle_condor_sandbox.Http.Read.{get_health}
use eagle_condor_sandbox.Http.Write.{Handled, answers, panics}
use eagle_condor_sandbox.Http.Serve.{
  Endpoint, health, create, cancel, Route, routes, is_public, match_path, method_fits, Found,
  handler, wrong_method, no_route, found_or, find_handler, authorized, handle, unauthorized,
  guarded, dispatch, recover_panics, with_cors, serve,
}

-- The endpoints whose handlers change something.
abbrev pub changes : Endpoint → Bool
changes create = true
changes cancel = true
changes _ = false

-- A handler that changes something is only found for POST.
abbrev OnlyPost : Text → Found → Type 0
OnlyPost asked (handler e vs) = changes e ≡ true → text_eq (codes "POST") asked ≡ true
OnlyPost asked wrong_method = Unit
OnlyPost asked no_route = Unit

abbrev PostRoute : Route → Type 0
PostRoute r = changes r.endpoint ≡ true → r.method ≡ codes "POST"

post_fits :
    (m asked : Text)
    → m ≡ codes "POST"
    → method_fits m asked ≡ true
    → text_eq (codes "POST") asked ≡ true
post_fits m asked e f =
    only (text_eq (codes "POST") asked) (subst (λ t. method_fits t asked ≡ true) e f)
  where
    or_false : (b : Bool) → b || false ≡ true → b ≡ true
    or_false true h = refl
    or_false false h = h

    only :
        (b : Bool) → method_fits (codes "POST") asked ≡ true → text_eq (codes "POST") asked ≡ true
    only b h = unfold method_fits in or_false (text_eq (codes "POST") asked) h

found_or-OnlyPost :
    (asked : Text) (r : Route) (o : Option (List Text)) (known rest : Found)
    → PostRoute r
    → OnlyPost asked known
    → OnlyPost asked rest
    → OnlyPost asked (found_or asked r o known rest)
found_or-OnlyPost asked r none known rest p k h = h
found_or-OnlyPost asked r (some vs) known rest p k h =
    elim (Bool-cases (method_fits r.method asked)) [
      | inl f ↦ rw f (λ c. post_fits r.method asked (p c) f)
      | inr f ↦ rw f k
    ]

find_handler-OnlyPost :
    (asked : Text) (path : List Text) (rs : List Route) (seen : Bool)
    → All PostRoute rs
    → OnlyPost asked (find_handler asked path rs seen)
unfolding find_handler
find_handler-OnlyPost asked path [] true h = tt
find_handler-OnlyPost asked path [] false h = tt
find_handler-OnlyPost asked path (r ∷ rs) seen (p, h) =
    found_or-OnlyPost asked r (match_path r.pattern path) _ _ p
      (find_handler-OnlyPost asked path rs true h) (find_handler-OnlyPost asked path rs seen h)

routes-PostRoute : All PostRoute routes
unfolding routes
routes-PostRoute =
    let no : (t : Text) → false ≡ true → t ≡ codes "POST" = λ t e. absurd (cc) in
    (
      no _,
      (
        no _,
        (
          no _,
          (
            no _,
            (
              no _,
              ((λ e. refl), (no _, (no _, (no _, ((λ e. refl), (no _, (no _, (no _, tt)))))))),
            ),
          ),
        ),
      ),
    )

-- What answers a request that is not let through, or finds no handler.
abbrev pub IsPublic : Body → Type 0
IsPublic nothing = Unit
IsPublic (problem t) = Unit
IsPublic (health version running waiting capacity) = Unit
IsPublic _ = ⊥

-- What a request can have done.
abbrev pub Changed : Server → HttpRequest → Server → Type 0
Changed s q s' = (s' ≡ s) ⊎ ((authorized s q ≡ true) × (q.method ≡ codes "POST"))

module _ (s : Server) (w : Surroundings) (q : HttpRequest) where
  handle-Unchanged : (e : Endpoint) (vs : List Text) → changes e ≡ false → (handle s w q e vs).0 ≡ s
  unfolding handle
  handle-Unchanged create vs h = absurd (cc)
  handle-Unchanged cancel vs h = absurd (cc)
  handle-Unchanged _ vs h = refl

  recover_panics-keeps : (p : Server × Handled) → (recover_panics p).0 ≡ p.0
  unfolding recover_panics
  recover_panics-keeps (s', answers r) = refl
  recover_panics-keeps (s', panics) = refl

  closed_endpoint :
      (e : Endpoint) (b : Bool) → changes e ≡ true → is_public e || b ≡ true → b ≡ true
  closed_endpoint create b c h = h
  closed_endpoint cancel b c h = h
  closed_endpoint _ b c h = absurd (cc)

  refused_guard :
      (e : Endpoint) (vs : List Text)
      → is_public e || authorized s q ≡ false
      → guarded s w q e vs ≡ (s, answers unauthorized)
  unfolding guarded
  refused_guard e vs h = rw h refl

  passed_guard :
      (e : Endpoint) (vs : List Text)
      → is_public e || authorized s q ≡ true
      → guarded s w q e vs ≡ handle s w q e vs
  unfolding guarded
  passed_guard e vs h = rw h refl

  guarded-Changed :
      (e : Endpoint) (vs : List Text)
      → OnlyPost q.method (handler e vs)
      → Changed s q (guarded s w q e vs).0
  guarded-Changed e vs post = elim (Bool-cases (is_public e || authorized s q)) [
    | inr out ↦ inl (ap (λ p. p.0) (refused_guard e vs out))
    | inl let_in ↦ elim (Bool-cases (changes e)) [
      | inr c ↦ inl (ap (λ p. p.0) (passed_guard e vs let_in) ∙ handle-Unchanged e vs c)
      | inl c ↦ inr (
        closed_endpoint e (authorized s q) c let_in,
        sym ((text_eq_iff (codes "POST") q.method).0 (post c)),
      )
    ]
  ]

  dispatch-Changed :
      (f : Found) → OnlyPost q.method f → Changed s q (recover_panics (dispatch s w q f)).0
  dispatch-Changed (handler e vs) post =
      subst (Changed s q) (sym (recover_panics-keeps (guarded s w q e vs)))
        (guarded-Changed e vs post)
  dispatch-Changed wrong_method post = inl (recover_panics-keeps (dispatch s w q wrong_method))
  dispatch-Changed no_route post = inl (recover_panics-keeps (dispatch s w q no_route))

  abbrev outcome : Bool → Server × Response
  outcome b = with_cors (
      if b
      then (s, reply 204 nothing)
      else recover_panics (dispatch s w q (find_handler q.method q.path routes false)))

  outcome-Changed : (b : Bool) → Changed s q (outcome b).0
  outcome-Changed true = inl refl
  outcome-Changed false =
      dispatch-Changed _ (find_handler-OnlyPost q.method q.path routes false routes-PostRoute)

  -- A request leaves the server as it was, unless it is a POST with the server's token. This
  -- includes every request that panics.
  pub serve-Changed : Changed s q (serve s w q).0
  unfolding serve
  serve-Changed = outcome-Changed (text_eq q.method (codes "OPTIONS"))

  public_health : (e : Endpoint) → is_public e ≡ true → e ≡ health
  public_health health h = refl
  public_health _ h = absurd (cc)

  health-IsPublic : (vs : List Text) → IsPublic (recover_panics (guarded s w q health vs)).1.body
  health-IsPublic vs =
      subst (λ p. IsPublic (recover_panics p).1.body) (sym (passed_guard health vs refl))
        (unfold recover_panics handle get_health reply in tt)

  guarded-IsPublic :
      (e : Endpoint) (vs : List Text)
      → authorized s q ≡ false
      → IsPublic (recover_panics (guarded s w q e vs)).1.body
  guarded-IsPublic e vs wrong = elim (Bool-cases (is_public e)) [
    | inl p ↦
        subst (λ x. IsPublic (recover_panics (guarded s w q x vs)).1.body) (sym (public_health e p))
          (health-IsPublic vs)
    | inr p ↦
        subst (λ x. IsPublic (recover_panics x).1.body)
          (sym (refused_guard e vs (neither (is_public e) (authorized s q) p wrong)))
          (unfold recover_panics in tt)
  ]
    where
      neither : (a b : Bool) → a ≡ false → b ≡ false → a || b ≡ false
      neither a b p q = ground arith

  dispatch-IsPublic :
      (f : Found) → authorized s q ≡ false → IsPublic (recover_panics (dispatch s w q f)).1.body
  dispatch-IsPublic (handler e vs) wrong = guarded-IsPublic e vs wrong
  dispatch-IsPublic wrong_method wrong = unfold recover_panics reply in tt
  dispatch-IsPublic no_route wrong = unfold recover_panics reply in tt

  outcome-IsPublic : (b : Bool) → authorized s q ≡ false → IsPublic (outcome b).1.body
  outcome-IsPublic true wrong = unfold reply in tt
  outcome-IsPublic false wrong = dispatch-IsPublic _ wrong

  -- Without the server's token a request is answered with nothing, an error, or the health of
  -- the server: nothing of the catalog, the receipts, the runs or their files.
  pub serve-IsPublic : authorized s q ≡ false → IsPublic (serve s w q).1.body
  unfolding serve
  serve-IsPublic wrong = outcome-IsPublic (text_eq q.method (codes "OPTIONS")) wrong

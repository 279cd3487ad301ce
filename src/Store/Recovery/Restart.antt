-- ===== src/Store/Recovery/Restart.antt =====
-- What a run loses when the server restarts (server/internal/run/store.go).
use mathlib.Core.List.{map}
use eagle_condor_sandbox.Prelude.{
  ℕ, true, false, List, [], ◌∷◌, ◌++◌, Option, none, some, ◌≡◌, ◌≢◌, refl, sym, ap, ◌∙◌, Bool-cases,
  inl, inr, All, subst,
}
use eagle_condor_sandbox.Prelude.Text.{Text, text_eq, append_cancel}
use eagle_condor_sandbox.Prelude.Assoc.{lookup, lookup-insert_self}
use eagle_condor_sandbox.Run.{Run, Artifact, errored, state_text, terminal}
use eagle_condor_sandbox.Run.Terminal.{terminal_by_text, terminal-errored}
use eagle_condor_sandbox.Store.Persist.{
  Disk, Content, whole, Faults, PersistError, json_view, unnamed, persist,
}
use eagle_condor_sandbox.Store.Persist.Atomic.{Tells, persist_lem}
use eagle_condor_sandbox.Store.Recovery.{
  Meta, unreadable, malformed, holds, Entry, listed, World, Progress, adopt, orphan, restarted,
  recover,
}
use eagle_condor_sandbox.Store.Recovery.Adopted.{found_run, read_run}
use eagle_condor_sandbox.Store.Recovery.Kept.{Elsewhere, settled, recover-get}

orphan-error : (now : ℕ) (r : Run) → (orphan now r).error ≡ restarted ++ state_text errored
unfolding orphan
orphan-error now r = refl

-- A run that can be read back and was not final, and whose id no later entry takes, is closed
-- with a message that never names the state that it was in, though its text begins "server
-- restarted while this run was": the state is overwritten before the message is put together,
-- which so always ends in "errored".
pub recover_message :
    (w : World) (xs ys : List Entry) (e : Entry) (r : Run) (disk : Disk)
    → found_run e ≡ some r
    → All (λ y. Elsewhere r.id (found_run y)) ys
    → terminal r.state ≡ false
    → (p : Progress) × (x : Run) × (recover w (listed (xs ++ e ∷ ys)) disk ≡ some p)
      × (lookup r.id p.runs ≡ some x)
      × (x.error ≡ restarted ++ state_text errored)
      × (x.error ≢ restarted ++ state_text r.state)
recover_message w xs ys e r disk found other live =
    let (p, run, kept) = recover-get w xs ys e r disk found other in
    (
      p,
      orphan (w.clock e.name) r,
      run,
      kept ∙ ap some closed,
      message,
      λ q. wrong (sym message ∙ q),
    )
  where
    closed : settled (w.clock e.name) r ≡ orphan (w.clock e.name) r
    closed = rw live

    message : (orphan (w.clock e.name) r).error ≡ restarted ++ state_text errored
    message = orphan-error (w.clock e.name) r

    wrong : restarted ++ state_text errored ≡ restarted ++ state_text r.state → ⊥
    wrong q =
        cc
          (live, terminal-errored, terminal_by_text errored r.state (append_cancel restarted _ _ q))

unnamed-All : (xs : List Artifact) → All (λ (a : Artifact). a.rel ≡ []) (map unnamed xs)
unnamed-All [] = tt
unnamed-All (a ∷ xs) = (refl, unnamed-All xs)

json_view-rel : (r : Run) → All (λ (a : Artifact). a.rel ≡ []) (json_view r).artifacts
unfolding json_view
json_view-rel r = unnamed-All r.artifacts

orphan-artifacts : (now : ℕ) (r : Run) → (settled now r).artifacts ≡ r.artifacts
unfolding orphan
orphan-artifacts now r = elim (Bool-cases (terminal r.state)) [ inl t ↦ rw t | inr t ↦ rw t ]

-- The entry of a run's directory, as its meta.json reads.
abbrev pub document : Option Content → Meta
document none = unreadable
document (some (whole r)) = holds r
document (some c) = malformed

abbrev pub entry_of : Disk → Text → Entry
entry_of d id = record { name = id; is_dir = true; meta = document (lookup id d.meta) }

Tells-saved :
    (d : Disk) (f : Faults) (r : Run) (p : Disk × Option PersistError)
    → Tells d f r p
    → p.1 ≡ none
    → lookup r.id p.0.meta ≡ some (whole (json_view r))
Tells-saved d f r (d', none) (e, _) h =
    ap (lookup r.id) e ∙ lookup-insert_self r.id (whole (json_view r)) d.meta
Tells-saved d f r (d', some x) t h = absurd (cc)

json_view-fields :
    (r : Run)
    → ((json_view r).id ≡ r.id)
      × (map (λ (a : Artifact). a.id) (json_view r).artifacts
          ≡ map (λ (a : Artifact). a.id) r.artifacts)
unfolding json_view
json_view-fields r = (refl, ids r.artifacts)
  where
    ids :
        (xs : List Artifact)
        → map (λ (a : Artifact). a.id) (map unnamed xs) ≡ map (λ (a : Artifact). a.id) xs
    ids [] = refl
    ids (a ∷ xs) = ap (◌∷◌ a.id) (ids xs)

adopt_named : (name : Text) (r : Run) → text_eq r.id [] ≡ false → adopt name r ≡ r
unfolding adopt
adopt_named name r h = rw h

-- Once a run with an id was saved without an error, under a new temporary name, a restart in
-- which it is listed, and no entry listed after it holds its id, finds its artifacts by their ids,
-- but has forgotten where they lie: each has the empty path, because the field is left out of meta.json.
pub restart_forgets_rel :
    (w : World) (d : Disk) (f : Faults) (r : Run) (before behind : List Entry)
    → lookup f.temp_name d.temps ≡ none
    → (persist d f r).1 ≡ none
    → text_eq r.id [] ≡ false
    → All (λ e. Elsewhere r.id (found_run e)) behind
    → let d' = (persist d f r).0 in
      (p : Progress) × (x : Run) × (recover w (listed (before ++ entry_of d' r.id ∷ behind)) d'
        ≡ some p)
      × (lookup r.id p.runs ≡ some x)
      × (map (λ (a : Artifact). a.id) x.artifacts ≡ map (λ (a : Artifact). a.id) r.artifacts)
      × All (λ (a : Artifact). a.rel ≡ []) x.artifacts
restart_forgets_rel w d f r before behind fresh ok named apart =
    let (p, run, kept) =
      recover-get w before behind (entry_of d' r.id) v d' found
        (subst (λ k. All (λ e. Elsewhere k (found_run e)) behind) (sym ids.0) apart) in
    (
      p,
      settled (w.clock r.id) v,
      run,
      ap (λ id. lookup id p.runs) (sym ids.0) ∙ kept,
      ap (map (λ (a : Artifact). a.id)) same ∙ ids.1,
      subst (All (λ (a : Artifact). a.rel ≡ [])) (sym same) (json_view-rel r),
    )
  where
    d' : Disk
    d' = (persist d f r).0

    v : Run
    v = json_view r

    ids :
        ((json_view r).id ≡ r.id)
        × (map (λ (a : Artifact). a.id) (json_view r).artifacts
            ≡ map (λ (a : Artifact). a.id) r.artifacts)
    ids = json_view-fields r

    same : (settled (w.clock r.id) v).artifacts ≡ v.artifacts
    same = orphan-artifacts (w.clock r.id) v

    found : found_run (entry_of d' r.id) ≡ some v
    found =
        ap (λ o. read_run r.id (document o))
          (Tells-saved d f r (persist d f r) (persist_lem d f r fresh) ok)
        ∙ ap some (adopt_named r.id v (ap (λ t. text_eq t []) ids.0 ∙ named))

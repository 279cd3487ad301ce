-- ===== src/Store/Recovery/Kept.antt =====
-- The runs that Recover of server/internal/run/store.go finds again.
use eagle_condor_sandbox.Prelude.{
  ℕ, false, List, [], ◌∷◌, ◌++◌, Option, none, some, if◌then◌else◌, ◌≡◌, refl, ap, ◌∙◌, Bool-cases,
  inl, inr, All,
}
use eagle_condor_sandbox.Prelude.Text.{Text, text_eq}
use eagle_condor_sandbox.Prelude.Assoc.{Assoc, lookup, insert, lookup-insert, lookup-insert_self}
use eagle_condor_sandbox.Run.{Run, terminal}
use eagle_condor_sandbox.Store.Persist.{Disk}
use eagle_condor_sandbox.Store.Recovery.{
  Meta, unreadable, malformed, holds, Entry, listed, World, Progress, adopt, orphan, settle_run,
  settle_meta, settle, settle_all, fresh, recover,
}
use eagle_condor_sandbox.Store.Recovery.Adopted.{found_run, read_run}

-- What becomes of a run: a final one is kept as it is, any other is closed as errored.
abbrev pub settled : ℕ → Run → Run
settled now r = if terminal r.state then r else orphan now r

abbrev pub Elsewhere : Text → Option Run → Type 0
Elsewhere id none = Unit
Elsewhere id (some r) = text_eq r.id id ≡ false

settled-id : (now : ℕ) (r : Run) → (settled now r).id ≡ r.id
unfolding orphan
settled-id now r = elim (Bool-cases (terminal r.state)) [ inl t ↦ rw t | inr t ↦ rw t ]

settle_run-runs :
    (w : World) (name : Text) (r : Run) (p : Progress)
    → (settle_run w name r p).runs ≡ insert r.id (settled (w.clock name) r) p.runs
unfolding settle_run
settle_run-runs w name r p = elim (Bool-cases (terminal r.state)) [ inl t ↦ rw t | inr t ↦ rw t ]

abbrev with_found : World → Text → Option Run → Assoc Run → Assoc Run
with_found w name none m = m
with_found w name (some r) m = insert r.id (settled (w.clock name) r) m

settle-runs :
    (w : World) (e : Entry) (p : Progress)
    → (settle w e p).runs ≡ with_found w e.name (found_run e) p.runs
unfolding settle
settle-runs w e p = elim (Bool-cases e.is_dir) [ inl d ↦ rw d (by_meta e.meta) | inr d ↦ rw d ]
  where
    by_meta :
        (m : Meta)
        → (settle_meta w e.name m p).runs ≡ with_found w e.name (read_run e.name m) p.runs
    by_meta unreadable = refl
    by_meta malformed = refl
    by_meta (holds r) = settle_run-runs w e.name (adopt e.name r) p

settle-kept :
    (w : World) (e : Entry) (p : Progress) (id : Text)
    → Elsewhere id (found_run e)
    → lookup id (settle w e p).runs ≡ lookup id p.runs
settle-kept w e p id h = ap (lookup id) (settle-runs w e p) ∙ passed (found_run e) h
  where
    passed :
        (o : Option Run)
        → Elsewhere id o
        → lookup id (with_found w e.name o p.runs) ≡ lookup id p.runs
    passed none q = refl
    passed (some r) q = lookup-insert r.id id (settled (w.clock e.name) r) p.runs ∙ rw q

settle_all-kept :
    (w : World) (es : List Entry) (p : Progress) (id : Text)
    → All (λ e. Elsewhere id (found_run e)) es
    → lookup id (settle_all w es p).runs ≡ lookup id p.runs
unfolding settle_all
settle_all-kept w [] p id h = refl
settle_all-kept w (e ∷ es) p id (h, hs) =
    settle_all-kept w es (settle w e p) id hs ∙ settle-kept w e p id h

settle_all-append :
    (w : World) (xs ys : List Entry) (p : Progress)
    → settle_all w (xs ++ ys) p ≡ settle_all w ys (settle_all w xs p)
unfolding settle_all
settle_all-append w [] ys p = refl
settle_all-append w (x ∷ xs) ys p = settle_all-append w xs ys (settle w x p)

-- A run that can be read back, and whose id no later entry takes, is found after a restart: as it
-- was if it was final, and otherwise closed as errored.
pub recover-get :
    (w : World) (xs ys : List Entry) (e : Entry) (r : Run) (disk : Disk)
    → found_run e ≡ some r
    → All (λ y. Elsewhere r.id (found_run y)) ys
    → (p : Progress) × (recover w (listed (xs ++ e ∷ ys)) disk ≡ some p)
      × (lookup r.id p.runs ≡ some (settled (w.clock e.name) r))
unfolding recover
recover-get w xs ys e r disk found other = (settle_all w (xs ++ e ∷ ys) (fresh disk), refl, kept)
  where
    before : Progress
    before = settle_all w xs (fresh disk)

    kept :
        lookup r.id (settle_all w (xs ++ e ∷ ys) (fresh disk)).runs
        ≡ some (settled (w.clock e.name) r)
    kept =
        ap (λ p. lookup r.id p.runs) (settle_all-append w xs (e ∷ ys) (fresh disk))
        ∙ unfold settle_all in
          settle_all-kept w ys (settle w e before) r.id other
          ∙ ap (lookup r.id)
              (settle-runs w e before ∙ ap (λ o. with_found w e.name o before.runs) found)
          ∙ lookup-insert_self r.id (settled (w.clock e.name) r) before.runs

-- ===== src/Store/Persist/Atomic.antt =====
-- What persist of server/internal/run/store.go leaves on the disk, also when it is cut short.
use eagle_condor_sandbox.Prelude.{
  ℕ, zero, suc, false, List, [], ◌∷◌, Option, none, some, ◌≡◌, ◌⊎◌, inl, inr, refl, sym, ap, ◌∙◌,
  subst, take, Bool-cases,
}
use eagle_condor_sandbox.Prelude.Text.{Text, text_eq, text_eq_iff}
use eagle_condor_sandbox.Prelude.Assoc.{
  Assoc, lookup, insert, delete, lookup-insert, lookup-insert_self, delete-fresh, insert-insert,
  delete-insert_fresh,
}
use eagle_condor_sandbox.Run.{Run}
use eagle_condor_sandbox.Store.Persist.{
  Disk, Faults, PersistError, encode_failed, removal, temp_failed, write_failed, close_failed,
  rename_failed, Content, empty, partial, whole, Op, create, remove, write, rename, do_op, do_ops,
  json_view, rename_loop, persist_ops, persist,
}

-- After any part of a persist the document of a run is the old one or, for the run that is being
-- saved, the whole new one.
abbrev pub OldOrNew : Disk → Disk → Run → Type 0
OldOrNew d d' r =
    (j : Text)
    → (lookup j d'.meta ≡ lookup j d.meta)
      ⊎ ((j ≡ r.id) × (lookup j d'.meta ≡ some (whole (json_view r))))

insert_twice_delete :
    (k : Text) (u v : Content) (m : Assoc Content)
    → lookup k m ≡ none
    → delete k (insert k v (insert k u m)) ≡ m
insert_twice_delete k u v m h = ap (delete k) (insert-insert k u v m) ∙ delete-insert_fresh k v m h

insert_thrice_delete :
    (k : Text) (t u v : Content) (m : Assoc Content)
    → lookup k m ≡ none
    → delete k (insert k v (insert k u (insert k t m))) ≡ m
insert_thrice_delete k t u v m h =
    ap (λ x. delete k (insert k v x)) (insert-insert k t u m) ∙ insert_twice_delete k u v m h

abbrev opened : Faults → List Op → List Op
opened f os = create f.temp_name ∷ write f.temp_name partial ∷ os

-- The four courses that a persist takes.
data Course (f : Faults) (r : Run) : List Op × Option PersistError → Type 0 where
  nothing : (e : PersistError) → Course f r ([], some e)
  cut : (e : PersistError) → Course f r (opened f (removal f), some e)
  undone :
      (e : PersistError)
      → Course f r (opened f (write f.temp_name (whole (json_view r)) ∷ removal f), some e)
  done : Course f r (
    opened f (write f.temp_name (whole (json_view r)) ∷ rename f.temp_name r.id ∷ removal f),
    none,
  )

course : (f : Faults) (r : Run) → Course f r (persist_ops f r)
unfolding persist_ops
course f r = elim (Bool-cases f.encode_ok) [
  | inr n ↦ rw n (nothing encode_failed)
  | inl n ↦ elim (Bool-cases f.create_ok) [
    | inr c ↦ rw (n, c) (nothing temp_failed)
    | inl c ↦ elim (Bool-cases f.write_ok) [
      | inr w ↦ rw (n, c, w) (cut write_failed)
      | inl w ↦ elim (Bool-cases f.close_ok) [
        | inr l ↦ rw (n, c, w, l) (undone close_failed)
        | inl l ↦ elim (Bool-cases (rename_loop 5 0 f.rename_ok)) [
          | inr m ↦ rw (n, c, w, l, m) (undone rename_failed)
          | inl m ↦ rw (n, c, w, l, m) done
        ]
      ]
    ]
  ]
]

-- The deferred removal, also when a crash cuts it off, is of no meta.json.
removal-meta : (d : Disk) (f : Faults) (n : ℕ) → (do_ops d (take n (removal f))).meta ≡ d.meta
unfolding do_ops
removal-meta d f n = elim (Bool-cases f.remove_ok) [
  | inl k ↦ rw k (one n)
  | inr k ↦ rw k (none_left n)
]
  where
    one : (n : ℕ) → (do_ops d (take n (remove f.temp_name ∷ []))).meta ≡ d.meta
    one zero = refl
    one (suc zero) = refl
    one (suc (suc n)) = refl

    none_left : (n : ℕ) → (do_ops d (take n [])).meta ≡ d.meta
    none_left zero = refl
    none_left (suc n) = refl

abbrev written : Disk → Text → Content → Disk
written d t c = do_op (do_op (do_op d (create t)) (write t partial)) (write t c)

abbrev staged : Disk → Text → Content → Assoc Content
staged d t c = insert t c (insert t partial (insert t empty d.temps))

abbrev installed : Disk → Text → Text → Content → Disk
installed d t id c = record d { meta = insert id c d.meta; temps = delete t (staged d t c) }

staged_once : (d : Disk) (t : Text) (c : Content) → staged d t c ≡ insert t c d.temps
staged_once d t c =
    ap (insert t c) (insert-insert t empty partial d.temps) ∙ insert-insert t partial c d.temps

renamed :
    (d : Disk) (t id : Text) (c : Content)
    → do_op (written d t c) (rename t id) ≡ installed d t id c
unfolding do_op
renamed d t id c = rw (lookup-insert_self t c (insert t partial (insert t empty d.temps)))

inserted-OldOrNew :
    (d : Disk) (r : Run) (temps : Assoc Content)
    → OldOrNew d (record { meta = insert r.id (whole (json_view r)) d.meta; temps = temps }) r
inserted-OldOrNew d r temps j = elim (Bool-cases (text_eq r.id j)) [
  | inl e ↦ inr (sym ((text_eq_iff r.id j).0 e), lookup-insert r.id j _ d.meta ∙ rw e)
  | inr e ↦ inl (lookup-insert r.id j _ d.meta ∙ rw e)
]

installed-OldOrNew :
    (d : Disk) (f : Faults) (r : Run) (n : ℕ)
    → OldOrNew d
        (do_ops (installed d f.temp_name r.id (whole (json_view r))) (take n (removal f)))
        r
installed-OldOrNew d f r n j =
    subst
      (λ m.
        (lookup j m ≡ lookup j d.meta) ⊎ ((j ≡ r.id) × (lookup j m ≡ some (whole (json_view r)))))
      (sym (removal-meta (installed d f.temp_name r.id (whole (json_view r))) f n))
      (inserted-OldOrNew d r (delete f.temp_name (staged d f.temp_name (whole (json_view r)))) j)

Course-crash :
    (d : Disk) (f : Faults) (r : Run) {p : List Op × Option PersistError}
    → Course f r p
    → (n : ℕ) → OldOrNew d (do_ops d (take n p.0)) r
unfolding do_ops
Course-crash d f r (nothing e) zero j = inl refl
Course-crash d f r (nothing e) (suc n) j = inl refl
Course-crash d f r (cut e) n j = inl (ap (lookup j) (unmoved n))
  where
    unmoved : (n : ℕ) → (do_ops d (take n (opened f (removal f)))).meta ≡ d.meta
    unmoved zero = refl
    unmoved (suc zero) = refl
    unmoved (suc (suc n)) =
        removal-meta (do_op (do_op d (create f.temp_name)) (write f.temp_name partial)) f n
Course-crash d f r (undone e) n j = inl (ap (lookup j) (unmoved n))
  where
    unmoved :
        (n : ℕ)
        → (do_ops d (take n (opened f (write f.temp_name (whole (json_view r)) ∷ removal f)))).meta
          ≡ d.meta
    unmoved zero = refl
    unmoved (suc zero) = refl
    unmoved (suc (suc zero)) = refl
    unmoved (suc (suc (suc n))) = removal-meta (written d f.temp_name (whole (json_view r))) f n
Course-crash d f r done zero j = inl refl
Course-crash d f r done (suc zero) j = inl refl
Course-crash d f r done (suc (suc zero)) j = inl refl
Course-crash d f r done (suc (suc (suc zero))) j = inl refl
Course-crash d f r done (suc (suc (suc (suc n)))) j =
    subst (λ x. OldOrNew d (do_ops x (take n (removal f))) r)
      (sym (renamed d f.temp_name r.id (whole (json_view r)))) (installed-OldOrNew d f r n) j

-- A crash at any point of persist leaves every meta.json either as it was or, for the run being
-- saved, with the whole new document: never a part of one.
pub persist_crash :
    (d : Disk) (f : Faults) (r : Run) (n : ℕ) → OldOrNew d (do_ops d (take n (persist_ops f r).0)) r
persist_crash d f r n = Course-crash d f r (course f r) n

-- The temporary file is gone, or could not be removed.
abbrev pub Tidied : Disk → Faults → Disk → Type 0
Tidied d f d' =
    (d'.temps ≡ d.temps)
    ⊎ ((f.remove_ok ≡ false) × (c : Content) × (d'.temps ≡ insert f.temp_name c d.temps))

-- What the error says of the disk afterwards.
abbrev pub Tells : Disk → Faults → Run → Disk × Option PersistError → Type 0
Tells d f r (d', none) = (d'.meta ≡ insert r.id (whole (json_view r)) d.meta) × (d'.temps ≡ d.temps)
Tells d f r (d', some e) = (d'.meta ≡ d.meta) × Tidied d f d'

-- What the deferred removal makes of a disk with the temporary file.
removal-Tidied :
    (d d' : Disk) (f : Faults) (c : Content)
    → d'.temps ≡ insert f.temp_name c d.temps
    → lookup f.temp_name d.temps ≡ none
    → Tidied d f (do_ops d' (removal f))
unfolding do_ops do_op
removal-Tidied d d' f c e h = elim (Bool-cases f.remove_ok) [
  | inl k ↦ rw k (inl (ap (delete f.temp_name) e ∙ delete-insert_fresh f.temp_name c d.temps h))
  | inr k ↦ rw k (inr (refl, c, e))
]

removal-gone :
    (d d' : Disk) (f : Faults)
    → d'.temps ≡ d.temps
    → lookup f.temp_name d.temps ≡ none
    → (do_ops d' (removal f)).temps ≡ d.temps
unfolding do_ops do_op
removal-gone d d' f e h = elim (Bool-cases f.remove_ok) [
  | inl k ↦ rw k (ap (delete f.temp_name) e ∙ delete-fresh f.temp_name d.temps h)
  | inr k ↦ rw k e
]

removal-meta_all : (d : Disk) (f : Faults) → (do_ops d (removal f)).meta ≡ d.meta
unfolding do_ops do_op
removal-meta_all d f = elim (Bool-cases f.remove_ok) [ inl k ↦ rw k refl | inr k ↦ rw k refl ]

Course-Tells :
    (d : Disk) (f : Faults) (r : Run) {p : List Op × Option PersistError}
    → Course f r p
    → lookup f.temp_name d.temps ≡ none
    → Tells d f r (do_ops d p.0, p.1)
unfolding do_ops
Course-Tells d f r (nothing e) h = (refl, inl refl)
Course-Tells d f r (cut e) h =
    let x = do_op (do_op d (create f.temp_name)) (write f.temp_name partial) in
    (
      removal-meta_all x f,
      removal-Tidied d x f partial (insert-insert f.temp_name empty partial d.temps) h,
    )
Course-Tells d f r (undone e) h =
    let x = written d f.temp_name (whole (json_view r)) in
    (
      removal-meta_all x f,
      removal-Tidied d x f (whole (json_view r)) (staged_once d f.temp_name (whole (json_view r)))
          h,
    )
Course-Tells d f r done h =
    let x = installed d f.temp_name r.id (whole (json_view r)) in
    subst (λ y. Tells d f r (do_ops y (removal f), none))
      (sym (renamed d f.temp_name r.id (whole (json_view r))))
      (
        removal-meta_all x f,
        removal-gone d x f
            (insert_thrice_delete f.temp_name empty partial (whole (json_view r)) d.temps h) h,
      )

-- The error that persist returns tells what is on the disk, if the name of the temporary file is
-- new: without one, the run's whole document, and nothing else changed; with one, every meta.json
-- is what was there before. The temporary file is gone, unless there was an error and the file
-- could not be removed either.
pub persist_lem :
    (d : Disk) (f : Faults) (r : Run)
    → lookup f.temp_name d.temps ≡ none
    → Tells d f r (persist d f r)
unfolding persist
persist_lem d f r fresh = Course-Tells d f r (course f r) fresh

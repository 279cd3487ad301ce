-- ===== src/Http/Read/Downloads.antt =====
-- Which file getArtifact (server/internal/httpapi/handlers.go) opens, and that a trace is kept out of
-- caches.
use eagle_condor_sandbox.Prelude.{
  Bool, true, false, List, Option, none, some, ◌≡◌, refl, subst, if◌then◌else◌, All, [], ◌∷◌, ◌++◌,
  sym, ap, ◌∙◌, Bool-cases, inl, inr,
}
use eagle_condor_sandbox.Prelude.Text.{Text, codes, text_eq, text_eq_iff}
use eagle_condor_sandbox.Prelude.Assoc.{lookup}
use eagle_condor_sandbox.Layout.{Resolved, ok, absolute, no_cwd, escapes, resolve}
use eagle_condor_sandbox.Layout.Path.{abs}
use eagle_condor_sandbox.Layout.Components.{Proper, render}
use eagle_condor_sandbox.Layout.Inside.{IsRooted, Below, resolve-Below}
use eagle_condor_sandbox.Run.{Run, Artifact}
use eagle_condor_sandbox.Store.{get}
use eagle_condor_sandbox.Queue.Defs.{layout}
use eagle_condor_sandbox.Http.Server.{Server, Surroundings}
use eagle_condor_sandbox.Http.Reply.{Response, problem, attachment, reply}
use eagle_condor_sandbox.Http.Read.{
  find_artifact, artifact_headers, serve_file, artifact_reply, run_artifact, get_artifact,
}

abbrev pub no_store : Text
no_store = codes "no-store, private"

-- The first of the artifacts with the id.
pub record IsFirstNamed (wanted : Text) (xs : List Artifact) (a : Artifact) : Type 0 where
  pub ahead : List Artifact
  pub behind : List Artifact
  pub parts : xs ≡ ahead ++ a ∷ behind
  pub named : a.id ≡ wanted
  pub others : All (λ (x : Artifact). text_eq x.id wanted ≡ false) ahead

find_artifact-IsFirstNamed :
    (wanted : Text) (xs : List Artifact) (a : Artifact)
    → find_artifact wanted xs ≡ some a
    → IsFirstNamed wanted xs a
unfolding find_artifact
find_artifact-IsFirstNamed wanted [] a e = absurd (cc)
find_artifact-IsFirstNamed wanted (x ∷ xs) a e = elim (Bool-cases (text_eq x.id wanted)) [
  | inl q ↦ subst (IsFirstNamed wanted (x ∷ xs)) (one x a (sym (chosen true q) ∙ e)) (record {
    ahead = [];
    behind = xs;
    parts = refl;
    named = (text_eq_iff x.id wanted).0 q;
    others = tt;
  })
  | inr q ↦
      let f = find_artifact-IsFirstNamed wanted xs a (sym (chosen false q) ∙ e) in
      record {
        ahead = x ∷ f.ahead;
        behind = f.behind;
        parts = ap (◌∷◌ x) f.parts;
        named = f.named;
        others = (q, f.others);
      }
]
  where
    one : (y z : Artifact) → some y ≡ some z → y ≡ z
    one y z e = cc

    chosen :
        (b : Bool)
        → text_eq x.id wanted ≡ b
        → find_artifact wanted (x ∷ xs) ≡ (if b then some x else find_artifact wanted xs)
    chosen b q = unfold find_artifact in rw q refl

module _ (s : Server) (w : Surroundings) (id wanted : Text) where
  -- What is true of an answer that sends the file `path`.
  pub record IsSent (r : Response) (name path : Text) : Type 0 where
    pub of_run : Run
    pub artifact : Artifact
    pub stored : get s.sys.store id ≡ some of_run
    pub listed : IsFirstNamed wanted of_run.artifacts artifact
    pub named : name ≡ artifact.name
    pub resolved : resolve w.cwd (layout s.sys.store id) artifact.rel ≡ ok path
    pub opened : w.can_open path ≡ true
    pub private :
        artifact.sensitive ≡ true → lookup (codes "Cache-Control") r.headers ≡ some no_store

  abbrev Sends : Response → Type 0
  Sends r = (name path : Text) → r.body ≡ attachment name path → IsSent r name path

  headers_private :
      (a : Artifact)
      → a.sensitive ≡ true
      → lookup (codes "Cache-Control") (artifact_headers a) ≡ some no_store
  headers_private a e = unfold lookup in rw e refl

  abbrev opened_reply : Artifact → Text → Bool → Response
  opened_reply a p b =
      if b
      then record { status = 200; headers = artifact_headers a; body = attachment a.name p }
      else reply 404 (problem (codes "artifact file is gone"))

  opened_reply-Sends :
      (r : Run) (a : Artifact) (p : Text) (b : Bool)
      → get s.sys.store id ≡ some r
      → find_artifact wanted r.artifacts ≡ some a
      → resolve w.cwd (layout s.sys.store id) a.rel ≡ ok p
      → w.can_open p ≡ b
      → Sends (opened_reply a p b)
  unfolding reply
  opened_reply-Sends r a p false g f e c name path q = absurd (cc)
  opened_reply-Sends r a p true g f e c name path q = record {
    of_run = r;
    artifact = a;
    stored = g;
    listed = find_artifact-IsFirstNamed wanted r.artifacts a f;
    named = cc;
    resolved = subst (λ t. resolve w.cwd (layout s.sys.store id) a.rel ≡ ok t) same e;
    opened = subst (λ t. w.can_open t ≡ true) same c;
    private = headers_private a;
  }
    where
      same : p ≡ path
      same = cc

  serve_file-Sends :
      (r : Run) (a : Artifact) (o : Resolved)
      → get s.sys.store id ≡ some r
      → find_artifact wanted r.artifacts ≡ some a
      → resolve w.cwd (layout s.sys.store id) a.rel ≡ o
      → Sends (serve_file w a o)
  serve_file-Sends r a absolute g f e = unfold reply in λ name path q. absurd (cc)
  serve_file-Sends r a no_cwd g f e = unfold reply in λ name path q. absurd (cc)
  serve_file-Sends r a escapes g f e = unfold reply in λ name path q. absurd (cc)
  serve_file-Sends r a (ok p) g f e = opened_reply-Sends r a p (w.can_open p) g f e refl

  artifact_reply-Sends :
      (r : Run) (o : Option Artifact)
      → get s.sys.store id ≡ some r
      → find_artifact wanted r.artifacts ≡ o
      → Sends (artifact_reply s w id o)
  artifact_reply-Sends r none g f = unfold reply in λ name path q. absurd (cc)
  artifact_reply-Sends r (some a) g f = serve_file-Sends r a _ g f refl

  run_artifact-Sends :
      (o : Option Run) → get s.sys.store id ≡ o → Sends (run_artifact s w id wanted o)
  run_artifact-Sends none g = unfold reply in λ name path q. absurd (cc)
  run_artifact-Sends (some r) g = artifact_reply-Sends r (find_artifact wanted r.artifacts) g refl

  -- When getArtifact sends a file, it is that of the run's first artifact with the id that was
  -- asked for, and it is the run's directory itself or lies below it by a chain of names. The
  -- file of a sensitive artifact is marked so that no cache keeps it. The working directory, if
  -- it can be read, is an absolute path.
  pub get_artifact_lem :
      (name path : Text)
      → IsRooted w.cwd
      → (get_artifact s w id wanted).body ≡ attachment name path
      → IsSent (get_artifact s w id wanted) name path
        × (rs : List Text) × (abs w.cwd (layout s.sys.store id) ≡ some (render rs))
        × All Proper rs
        × Below rs path
  unfolding get_artifact
  get_artifact_lem name path rooted q =
      let sent = run_artifact-Sends (get s.sys.store id) refl name path q in
      let (rs, e, proper, below) =
        resolve-Below w.cwd (layout s.sys.store id) sent.artifact.rel path rooted sent.resolved in
      (sent, rs, e, proper, below)

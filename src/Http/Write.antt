-- ===== src/Http/Write.antt =====
-- The two handlers of server/internal/httpapi/handlers.go that change something, and what they answer.
use eagle_condor_sandbox.Prelude.{List, [], ◌∷◌, ◌++◌, Option, some}
use eagle_condor_sandbox.Prelude.Int.{ℤ}
use eagle_condor_sandbox.Prelude.Text.{Text, codes}
use eagle_condor_sandbox.Store.{get}
use eagle_condor_sandbox.Queue.Defs.{
  Sys, Answer, done, not_found, already_finished, update_failed, save_failed, cancel,
}
use eagle_condor_sandbox.Http.Server.{Server, Surroundings, Next}
use eagle_condor_sandbox.Http.Create.{
  Created, rejected, not_added, queue_full, panicked, created, created_status, with_sys, create_run,
}
use eagle_condor_sandbox.Http.Reply.{Response, reply, problem, refusal, unsaved, run}

-- A handler answers or panics.
pub data Handled : Type 0 where
  answers : Response → Handled
  panics : Handled

-- What cancelRun answers, by the error of Cancel.
abbrev pub cancel_reply : Text → Sys → Answer → Response
cancel_reply id sys done = reply 202 (run (get sys.store id))
cancel_reply id sys already_finished = reply 409 (problem (codes "run has already finished"))
cancel_reply id sys not_found = reply 404 (problem (codes "no such run"))
cancel_reply id sys update_failed = reply 500 (problem (codes "no run"))
cancel_reply id sys (save_failed e) = reply 500 (unsaved e)

abbrev pub cancelled_with : Server → Text → Sys × Answer → Server × Response
cancelled_with s id (sys, a) = (with_sys s sys, cancel_reply id sys a)

-- cancelRun
unfoldable pub cancel_run : Server → Surroundings → Text → Server × Response
unfolding cancel get reply
cancel_run s w id = cancelled_with s id (cancel s.sys w.faults w.now id)

-- What createRun answers.
unfoldable pub created_reply : Created → Handled
unfolding reply created_status
created_reply (rejected e) = answers (reply (created_status (rejected e)) (refusal e))
created_reply (not_added e) = answers (reply (created_status (not_added e)) (unsaved e))
created_reply queue_full = answers (record {
  status = created_status queue_full;
  headers = (codes "Retry-After", codes "60") ∷ [];
  body = problem (codes "run queue is full; retry shortly");
})
created_reply panicked = panics
created_reply (created r) = answers (record {
  status = created_status (created r);
  headers = (codes "Location", codes "/v1/runs/" ++ r.id) ∷ [];
  body = run (some r);
})

-- createRun and its answer.
unfoldable pub post_run : Server → Surroundings → (ℤ → Option (List Next)) → Server × Handled
unfolding create_run created_reply
post_run s w body = let (s', c) = create_run s w.codec w.answers body in (s', created_reply c)

-- ===== src/Lib.antt =====
-- The server that runs Playwright workflows (server/): its configuration and catalog, its HTTP
-- API, its log buffers, its runs and their directories, the store that mirrors them to disk, and
-- the queue with its workers.
--
-- At the start the settings and the manifest are loaded and the store is read back from the
-- meta.json files (Boot). A request is routed and authorized (Http.Serve); one that creates a run
-- is read, checked against the catalog (Http.Create), stored as a run (Store.Add) and put into a
-- bounded channel (Queue.Submit). A worker takes it, starts a child process whose output goes
-- into the run's log buffer, and records how it ended. Clients poll the buffer, cancel runs, and
-- fetch files by paths inside the run's directory.
--
-- Prelude passes the library's names on and holds what the modules share: tests, lists over
-- native numbers, 64-bit integers, texts as lists of bytes, maps as association lists, decimal
-- numbers (Decimal, and Decimal.Reads on what ParseInt reads), TrimSpace (Space), a sort by a key (Sort).
-- Logbuf (server/internal/logbuf/logbuf.go): New, Append as `record_line` under the lock and
--   `fan_out` after it, Since, Subscribe and its cancel function as `unsubscribe`, Close.
--   Channels are shared by pointers, so they live in a list, and an address is a position.
--   Logbuf.Ansi is StripANSI. Ring, Pages, Poll, Resume, Subscribers, Sessions (sequences of
--   calls) and Race are the proofs.
-- Run (server/internal/run/run.go): the records, State with its seven constants and any other
--   text, Terminal, Duration. Run.Id is NewID, over random bytes and the fields that package time
--   gives for an instant; Run.Kill is KillTree of server/internal/run/kill_unix.go. Names, Order,
--   Apart, Rounds and Ends are the proofs.
-- Layout (server/internal/run/layout.go): the paths of a run's directory, Create, Resolve, RelTo.
--   Layout.Path are the functions of path/filepath they use, for a system with the separator "/",
--   on which ToSlash and FromSlash change nothing; Components, Inside and Isolation are the
--   proofs.
-- Store (server/internal/run/store.go): Add, Get, Update (`update_memory` under the lock, then
--   `save`), List, Counts. Store.Persist is persist as the list of file operations that it makes,
--   on a disk that holds documents and temporary files; a crash keeps a prefix of the list. What
--   the file system answers is a parameter. Store.Recovery is Recover. Updates, Listing, Atomic,
--   Retries, Adopted, Kept and Restart are the proofs.
-- Queue (server/internal/run/queue.go): Queue.Defs has Submit (`register`, then `send`), Cancel
--   (`cancel_check`, `cancel_flag`, `cancel_act`), Buffer, Stop; Queue.Loop the worker in the pieces
--   between which other goroutines may run (`take_job`, `must_skip`, `arm`, `start_run`,
--   `note_pid`, `finish`) and one round of it. What the clock, the child process and Collect
--   answer is a parameter of a round. Queue.Steps is every interleaving of these pieces and of Stop
--   as a step relation, with what an observer sees of each step; Queue.History reads the maps, the
--   channel and the contexts off what was seen, and Follows proves that the state is that. Position
--   is QueuePosition, and Drain is the loop of a worker after Stop; Submit, Cancel, Work, Rounds,
--   Ownership, Signals, Sends, Halts and Races are the proofs.
-- Exec (server/internal/run/exec.go): Execute as `run_child`, over a script of what the system
--   answers and of the events up to the process's end. An event that reads is a line that the pipe
--   delivers: what cmd.Wait cuts off when it closes the pipe is in no event. `scanned` is the
--   bufio.Scanner with its limit of 4 MB. Exec.Environment is buildEnv, over the server's own
--   environment. Scanner, Outcomes, Success, Logs and Chosen are the proofs; Queue.Ends puts it into
--   a worker's round.
-- Results (server/internal/run/results.go): readSummary of a decoded report, isInternal,
--   newArtifact with the digest as a parameter. Results.Scan is scanArtifacts over a tree of
--   files. Summaries, Artifacts, Down and Served are the proofs.
-- Catalog (server/internal/catalog/catalog.go): the manifest's records, Workflow.Input, IsSecret;
--   Catalog.Comments is stripComments on decoded JSON, Catalog.Index is index, with a constructor
--   for each message, and Catalog.Load is Load, with encoding/json as a parameter. Stripped,
--   Kinds, Inputs, Workflows, Accepts and Listed are the proofs. EqualFold is on ASCII, as is
--   ToUpper in Http.
-- Config (server/internal/config/config.go): Load, env, envInt, validate and
--   defaultAutomationDir, over a record `Host` of what the system answers. Defaults, Valid and
--   Checks have the proofs.
-- Receipts (server/internal/receipts/receipts.go): List, Has, ETag. Shown has the proofs.
-- Http (server/internal/httpapi): Http.Server has the server's state, a request, and a record of
--   what the system answers while one request is served. Upload, Inputs and Create are createRun,
--   from the body to the answer of Submit; Header and Csv are findHeaderRow and validateCSV; Tail
--   is tailFile, Query queryInt and queryInt64; Read has the handlers that read, Write the two
--   that change something; Serve is Handler with auth, cors, recoverPanics and the rules of
--   ServeMux. The other modules below these are the proofs.
-- Boot (server/cmd/pstad/main.go): realMain up to the point where the server listens. Ready has
--   the proofs.
-- Examples has the theorems at concrete inputs, and tests.
--
-- Bounds: a sequence number, a number in a query or in the environment and the limit of an upload
-- are 64-bit integers; eight times that limit wraps, and the theorems on buffers ask for fewer
-- than 2^63 lines. A loop over fuel are the five attempts at a rename, which is the bound of the
-- source, the 19 digits of a number below 2^63, TrimSpace, which takes as many rounds as there
-- are bytes, a worker's loop after Stop, for which one round more than there are jobs is enough
-- (Drain), and the loop of KillTree, for which 51 rounds are, since each but the last pauses for a
-- fiftieth of its ten seconds (Run.Kill.Rounds). Instants are nanoseconds since a fixed moment.
--
-- Not modelled: that no run's id is made twice, which rests on the random bytes and is a
-- hypothesis on the queue; KillTree for Windows, which runs a program of the system; signals to
-- the server, the time limits of http.TimeoutHandler and of the HTTP server, and logging. The
-- formats of JSON, CSV and multipart are parameters, since the source only calls the library for
-- them.
pub mod Boot
pub mod Prelude
pub mod Logbuf
pub mod Run
pub mod Config
pub mod Receipts
pub mod Http
pub mod Catalog
pub mod Layout
pub mod Store
pub mod Results
pub mod Exec
pub mod Queue
pub mod Examples

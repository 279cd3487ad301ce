-- ===== src/Run/Id/Apart.antt =====
-- The directories of runs with ids of NewID (server/internal/run/run.go) are apart.
use eagle_condor_sandbox.Prelude.{ℕ, true, List, Option, some, ◌≡◌, ◌≢◌, ◌<◌}
use eagle_condor_sandbox.Prelude.Text.{Text}
use eagle_condor_sandbox.Layout.{ok, resolve}
use eagle_condor_sandbox.Layout.Path.{is_abs, join}
use eagle_condor_sandbox.Layout.Inside.{IsRooted}
use eagle_condor_sandbox.Layout.Isolation.{resolve_isolated}
use eagle_condor_sandbox.Run.Id.{Stamp, new_id}
use eagle_condor_sandbox.Run.Id.Names.{new_id-Proper}
use eagle_condor_sandbox.Run.Id.Order.{IsBytes, new_id_lem}

-- Two runs under one absolute directory, whose ids NewID made from different bytes in years of
-- four digits, never resolve to one file, whatever paths are asked for. The working directory,
-- if it can be read, is an absolute path.
pub new_id_isolated :
    (xs ys : List ℕ) (t u : Stamp) (a b : Text) (cwd : Option Text) (dir rel rel' full full' : Text)
    → t.year < 10000
    → u.year < 10000
    → IsBytes xs
    → IsBytes ys
    → xs ≢ ys
    → new_id (some xs) t ≡ some a
    → new_id (some ys) u ≡ some b
    → is_abs dir ≡ true
    → IsRooted cwd
    → resolve cwd (join dir a) rel ≡ ok full
    → resolve cwd (join dir b) rel' ≡ ok full'
    → full ≢ full'
new_id_isolated xs ys t u a b cwd dir rel rel' full full' it iu hx hy ne ea eb w c =
    resolve_isolated cwd dir a b rel rel' full full' w c (new_id-Proper xs t a ea)
      (new_id-Proper ys u b eb) ((new_id_lem xs ys t u a b it iu hx hy ea eb).1 ne)

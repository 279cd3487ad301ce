-- ===== src/Examples/Ids.antt =====
-- The theorems of NewID (server/internal/run/run.go) and KillTree (server/internal/run/kill_unix.go) at
-- concrete inputs.
use eagle_condor_sandbox.Prelude.{
  ℕ, ◌*◌, true, List, [], ◌∷◌, Option, none, some, ◌≡◌, ◌≢◌, refl, arith,
}
use eagle_condor_sandbox.Prelude.Int.{pos}
use eagle_condor_sandbox.Prelude.Text.{Text, codes}
use eagle_condor_sandbox.Prelude.Sort.{less}
use eagle_condor_sandbox.Layout.{resolve}
use eagle_condor_sandbox.Layout.Path.{is_abs, join}
use eagle_condor_sandbox.Run.Id.{Stamp, new_id}
use eagle_condor_sandbox.Run.Id.Order.{fields, IsBefore, new_id_lem}
use eagle_condor_sandbox.Run.Id.Apart.{new_id_isolated}
use eagle_condor_sandbox.Run.Kill.{Errno, no_process, Group, kill_tree}
use eagle_condor_sandbox.Run.Kill.Ends.{IsKilled, kill_tree_lem}

abbrev morning : Stamp
morning = record { year = 2026; month = 11; day = 26; hour = 8; minute = 59; second = 7 }

abbrev noon : Stamp
noon = record { year = 2026; month = 11; day = 26; hour = 12; minute = 0; second = 0 }

abbrev first_bytes : List ℕ
first_bytes = 1 ∷ 255 ∷ []

abbrev second_bytes : List ℕ
second_bytes = 2 ∷ 255 ∷ []

abbrev first_id : Text
first_id = codes "20261126T085907Z-01ff"

abbrev second_id : Text
second_id = codes "20261126T120000Z-02ff"

first_made : new_id (some first_bytes) morning ≡ some first_id
unfolding new_id
first_made = refl

second_made : new_id (some second_bytes) noon ≡ some second_id
unfolding new_id
second_made = refl

bytes_differ : first_bytes ≢ second_bytes
bytes_differ e = omega (arith, heads 1 2 (255 ∷ []) (255 ∷ []) e)
  where
    heads : (a b : ℕ) (xs ys : List ℕ) → a ∷ xs ≡ b ∷ ys → a ≡ b
    heads a b xs ys e = cc

new_id_lem_example :
    (IsBefore (fields morning) (fields noon) → less first_id second_id ≡ true)
    × (first_bytes ≢ second_bytes → first_id ≢ second_id)
new_id_lem_example =
    new_id_lem first_bytes second_bytes morning noon first_id second_id (omega arith) (omega arith)
      (omega arith, (omega arith, tt)) (omega arith, (omega arith, tt)) first_made second_made

new_id_isolated_example :
    codes "/srv/runs/20261126T085907Z-01ff/x" ≢ codes "/srv/runs/20261126T120000Z-02ff/x"
unfolding resolve join is_abs
new_id_isolated_example =
    new_id_isolated first_bytes second_bytes morning noon first_id second_id none
      (codes "/srv/runs") (codes "x") (codes "x") (codes "/srv/runs/20261126T085907Z-01ff/x")
      (codes "/srv/runs/20261126T120000Z-02ff/x") (omega arith) (omega arith)
      (omega arith, (omega arith, tt)) (omega arith, (omega arith, tt)) bytes_differ first_made
      second_made refl tt refl refl

abbrev ticks : ℕ → ℕ
ticks n = n * 200000000

-- Nothing answers to SIGTERM, and the group is there for good.
abbrev stubborn_probe : ℕ → Option Errno
stubborn_probe n = none

abbrev stubborn : Group
stubborn = record {
  on_term = none;
  started = 0;
  now = ticks;
  on_probe = stubborn_probe;
  on_kill = some no_process;
}

kill_tree_lem_example : IsKilled (pos 4711) stubborn (kill_tree 51 (pos 4711) stubborn)
kill_tree_lem_example = kill_tree_lem (pos 4711) stubborn (λ n. omega arith) (omega arith)

-- ===== src/Engine/Resume/Bounds.antt =====
-- internal/engine/engine.go: how many results the loops that `Run` and `Continue` start can receive.
use bpmn_ai.Base.{ℕ, ◌*◌, ◌≤◌, String, true, false, List, length, is_empty, ◌≡◌, refl}
use bpmn_ai.Engine.FailSafe.Bounds.{named, all_known, runs_of, check_all_bounds}
use bpmn_ai.Engine.Loop.{Moment, Move, run_moves, running}
use bpmn_ai.Engine.Loop.Progress.{received, run_moves-Passes}
use bpmn_ai.Engine.Registry.{Registry}
use bpmn_ai.Engine.Resume
use bpmn_ai.Engine.State.{WorkItem, Loop, Engine}

module _ {S : Type 0} (engine : Engine S) (registry : Registry) (max_timeout max_loops : ℕ) where
  -- While a started loop has not returned, whatever the goroutines did, it has received no more than
  -- `MaxLoops` results for any one element that has a name, and at most `MaxLoops` together for each
  -- of any list of named elements to which all of its results belong.
  pub run_moves_bounds :
      (vs : List (Moment × Move)) (ws : List WorkItem) (l : Loop S) (ids : List String)
      (id : String)
      → named ids ≡ true
      → all_known ids
          (received engine registry vs (Resume.begin engine registry max_timeout max_loops ws l))
        ≡ true
      → is_empty id ≡ false
      → (run_moves engine registry vs
          (Resume.begin engine registry max_timeout max_loops ws l)).status
        ≡ running
      → (length
            (received engine registry vs (Resume.begin engine registry max_timeout max_loops ws l))
          ≤ length ids * max_loops)
        × (runs_of id (
              received engine registry vs (Resume.begin engine registry max_timeout max_loops ws l))
            ≤ max_loops)
  unfolding Resume.begin
  run_moves_bounds vs ws l ids id n k m h =
      check_all_bounds ids engine.now max_timeout max_loops _ id n k m (
        run_moves-Passes engine registry vs
          (Resume.begin engine registry max_timeout max_loops ws l) refl h)

-- ===== src/Engine/Handle/Lifecycle.antt =====
-- internal/engine/engine.go: what `handleResult` does to the state of the instance.
use bpmn_ai.Base.{ℕ, Bool, true, false, ◌≡◌, refl, arith}
use bpmn_ai.Element.{ExecutionResult}
use bpmn_ai.Engine.Handle
use bpmn_ai.Engine.Send
use bpmn_ai.Engine.State.{Loop, Engine, ◌>>=◌, pure}
use bpmn_ai.Errors.{Result}
use bpmn_ai.Process.Instance.{Instance, transition, try_complete}
use bpmn_ai.Process.State.{waiting}

try_complete_waiting :
    (now : ℕ) (i : Instance)
    → i.state ≡ waiting
    → i.completed_ok ≡ false
    → ((try_complete now i).0.state ≡ waiting) × ((try_complete now i).1 ≡ false)
unfolding try_complete transition
try_complete_waiting now i s k = ground arith

module _ {S : Type 0} (E : Engine S) where
  abbrev Waits : Loop S → Loop S × Result (Unit {0}) → Type 0
  Waits l r = (r.0.instance.state ≡ waiting) × (r.0.events ≡ l.events)

  completion-Waits :
      (l : Loop S)
      → l.instance.state ≡ waiting
      → l.instance.completed_ok ≡ false
      → Waits l (Handle.completion E l)
  unfolding Handle.completion Send.completes Send.when ◌>>=◌ pure
  completion-Waits l s k = let (w, n) = try_complete_waiting E.now l.instance s k in rw n (w, refl)

  when-Waits :
      (b : Bool) (l : Loop S)
      → l.instance.state ≡ waiting
      → l.instance.completed_ok ≡ false
      → Waits l (Send.when E b (Handle.completion E) l)
  unfolding Send.when pure
  when-Waits true l s k = completion-Waits l s k
  when-Waits false l s k = (s, refl)

  -- An end event does not complete an instance that waits: a COMPLETE result leaves it WAITING, and
  -- dispatches no event.
  pub handle_complete_waiting :
      (r : ExecutionResult) (l : Loop S)
      → l.instance.state ≡ waiting
      → l.instance.completed_ok ≡ false
      → ((Handle.handle_complete E r l).0.instance.state ≡ waiting)
        × ((Handle.handle_complete E r l).0.events ≡ l.events)
  unfolding Handle.handle_complete Send.with_instance
  handle_complete_waiting r l s k = when-Waits _ l s k

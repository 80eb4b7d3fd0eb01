-- ===== src/Engine/Send.antt =====
-- internal/engine/engine.go: how a step of the loop makes flows and threads and sends the items.
use bpmn_ai.Base.{ℕ, ◌+◌, String, Bool, true, false, List, [], ◌∷◌, ◌++◌, Option, some}
use bpmn_ai.Engine.Router.{NextFlow, create_flow_record}
use bpmn_ai.Engine.State.{WorkItem, Engine, M, ◌>>=◌, ◌>>◌, pure, create}
use bpmn_ai.Errors.{ok, err, context_done}
use bpmn_ai.Process.Instance.{Instance, try_complete, next_thread_id, new_thread}
use bpmn_ai.Records.{FlowRecord}

module _ {S : Type 0} (E : Engine S) where
  open E use {ops, now, done}

  -- `select { case workCh <- item: … case <-ctx.Done(): … }`, with the item counted before.
  unfoldable pub sent : Bool → WorkItem → M S (Unit {0})
  sent true item l = (record l { pending = l.pending + 1 }, err context_done)
  sent false item l = (record l { pending = l.pending + 1; work = l.work ++ item ∷ [] }, ok tt)

  unfoldable pub send : WorkItem → M S (Unit {0})
  unfolding sent
  send item = sent done item

  unfoldable pub create_and_send : String → FlowRecord → ℕ → M S (Unit {0})
  create_and_send what f thread_id = do
    flow ← create what (ops.create_flow f)
    send (record { flow = flow; thread_id = thread_id })

  -- The loop's instance, which every branch reads.
  unfoldable pub with_instance : {A : Type 0} → (Instance → M S A) → M S A
  with_instance f l = f l.instance l

  unfoldable pub enqueue_flow : NextFlow → ℕ → String → M S (Unit {0})
  enqueue_flow next thread_id prev = with_instance λ i.
      create_and_send "create flow"
        (create_flow_record i.id next.element_id next.element_type thread_id prev) next.thread_id

  unfoldable pub enqueue_all : List NextFlow → ℕ → String → M S (Unit {0})
  enqueue_all [] thread_id prev = pure tt
  enqueue_all (n ∷ ns) thread_id prev = do
    enqueue_flow n thread_id prev
    enqueue_all ns thread_id prev

  unfoldable pub number_thread : M S ℕ
  number_thread l = let (i, k) = next_thread_id l.instance in (record l { instance = i }, ok k)

  unfoldable pub store_thread : ℕ → Option ℕ → String → M S (Unit {0})
  store_thread k parent flow_id = with_instance λ i. do
    t ← create "create thread" (ops.create_thread (new_thread now i.id k parent flow_id))
    pure tt

  -- A new thread for each branch; the item keeps the number of the router.
  unfoldable pub fork : List NextFlow → FlowRecord → M S (Unit {0})
  unfolding store_thread
  fork [] f = pure tt
  fork (n ∷ ns) f = do
    k ← number_thread
    store_thread k (some f.thread_id) n.flow_id
    enqueue_flow n k f.id
    fork ns f

  -- `TryComplete`, whose result the caller may use.
  unfoldable pub completes : M S Bool
  completes l = let (i, b) = try_complete now l.instance in (record l { instance = i }, ok b)

  unfoldable pub ignoring : M S Bool → M S (Unit {0})
  ignoring m = m >>= λ _. pure tt

  unfoldable pub when : Bool → M S (Unit {0}) → M S (Unit {0})
  when true m = m
  when false m = pure tt

-- ===== src/Tests/Stores.antt =====
-- A store in which flows are created, updated and changed through a pointer.
use bpmn_ai.Store.Memory.{create_flow}
use bpmn_ai.Base.Dict.{put}
use bpmn_ai.Store.Memory.{update_flow}
use bpmn_ai.Base.Dict.{get}
use bpmn_ai.Store.Memory.{share_flow}
use bpmn_ai.Base.Dict.{values}
use bpmn_ai.Base.{[], ◌∷◌, List, keep, ◌==◌, ◌≡◌, refl}
use bpmn_ai.Model.{start_event}
use bpmn_ai.Records.{FlowRecord}
use bpmn_ai.Records
use bpmn_ai.Store.Memory.{Store, new_store, get_flows_by_instance}
use bpmn_ai.Store.Memory.Listing.{Call, creates, updates, changes, ticks, run}
use bpmn_ai.Tests.{flow_at, identifiers}

abbrev plain : FlowRecord
plain = record (flow_at "start" start_event) { id = "f" }

-- The first flow gets an identifier from the store.
abbrev calls : List Call
calls =
    creates (record plain { id = "" })
    ∷ ticks 7
    ∷ creates plain
    ∷ updates (record plain { status = Records.FlowStatus.completed })
    ∷ changes (record plain { thread_id = 2 })
    ∷ []

abbrev used : Store
used = run calls (new_store identifiers 3)

test_listed :
    keep (λ f. f.id == "f") (get_flows_by_instance "case" used)
    ≡ record plain { thread_id = 2 } ∷ []
unfolding get_flows_by_instance values run share_flow get update_flow put create_flow new_store
test_listed = refl

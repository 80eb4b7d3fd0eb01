-- ===== src/Engine/Router/Selection.antt =====
-- internal/engine/router.go: which flows `Route` selects, and with an exclusive gateway in front.
use bpmn_ai.Base.{
  ℕ, String, Bool, true, false, not, ◌&&◌, ◌||◌, List, [], ◌∷◌, map, Option, none, some, keep, ◌≡◌,
  refl, arith, eq_iff, if◌then◌else◌, Option-cases, Bool-cases, inl, inr, ◌⊎◌,
}
use bpmn_ai.Base.Dict.{get}
use bpmn_ai.Element.{Action, ExecutionResult}
use bpmn_ai.Engine.Router.{
  NextFlow, contains, is_routed, no_filters, next_flow, next_flows, next_of, route, type_of,
  is_sequence_flow,
}
use bpmn_ai.Model.{Process, Flow, Element}

abbrev pub is_some {ℓ} : {A : Type ℓ} → Option A → Bool
is_some none = false
is_some (some a) = true

-- The flow exists, and the filters, if there are any, name it.
abbrev pub is_selected : Process → List String → String → Bool
is_selected proc filters f =
    is_some (get f proc.flows) && (no_filters filters || contains filters f)

flow_ids-next_flows :
    (proc : Process) (filters : List String) (t : ℕ) (fs : List String)
    → map (λ n. n.flow_id) (next_flows proc filters t fs) ≡ keep (is_selected proc filters) fs
unfolding next_flows
flow_ids-next_flows proc filters t [] = refl
flow_ids-next_flows proc filters t (f ∷ fs) = ground (arith, flow_ids-next_flows proc filters t fs)

-- The outgoing flows of the element that a result is about.
abbrev pub outgoing : Process → String → List String
outgoing proc id = elim (get id proc.elements) [ none ↦ [] | some e ↦ e.outgoing_flows ]

-- `Route` yields, in their order and each as often, exactly the outgoing flows of the element that
-- the process defines and that the result's filters name, if it has any; and nothing for a result
-- whose action is neither ROUTE nor QUEUE.
pub flow_ids-route :
    (r : ExecutionResult) (proc : Process) (t : ℕ)
    → map (λ n. n.flow_id) (route r proc t) ≡ (
        if is_routed r.action
        then keep (is_selected proc r.flow_filters) (outgoing proc r.flow_data.element_id)
        else [])
unfolding route
flow_ids-route r proc t =
    ground (arith, flow_ids-next_flows proc r.flow_filters t (outgoing proc r.flow_data.element_id))

-- A step goes to the sequence flow's own element, where the process has one, and else to the
-- element that the flow points at.
abbrev pub IsNext : Process → ℕ → NextFlow → Type 0
IsNext proc t n =
    (flow : Flow) × (get n.flow_id proc.flows ≡ some flow)
    × (n.thread_id ≡ t)
    × (n.element_type ≡ type_of (get n.element_id proc.elements))
    × (((n.element_id ≡ n.flow_id) × (is_sequence_flow n.element_type ≡ true))
        ⊎ ((n.element_id ≡ flow.target_ref)
            × (is_sequence_flow (type_of (get n.flow_id proc.elements)) ≡ false)))

abbrev pub All {ℓ κ} : {A : Type ℓ} → (A → Type κ) → List A → Type κ
All P [] = Unit
All P (x ∷ xs) = P x × All P xs

next_of-IsNext :
    (proc : Process) (t : ℕ) (f : String) (flow : Flow)
    → get f proc.flows ≡ some flow
    → IsNext proc t (next_of proc t f flow)
unfolding next_of
next_of-IsNext proc t f flow h = (flow, ground arith, ground arith, ground arith, ground arith)

next_flows-IsNext :
    (proc : Process) (filters : List String) (t : ℕ) (fs : List String)
    → All (IsNext proc t) (next_flows proc filters t fs)
unfolding next_flows
next_flows-IsNext proc filters t [] = tt
next_flows-IsNext proc filters t (f ∷ fs) = elim (Option-cases (get f proc.flows)) [
  | inl e ↦ rw (All, e, next_flow) (next_flows-IsNext proc filters t fs)
  | inr (flow, e) ↦ elim (Bool-cases (no_filters filters || contains filters f)) [
    | inl b ↦
        rw (All, e, b, next_flow)
          (next_of-IsNext proc t f flow e, next_flows-IsNext proc filters t fs)
    | inr b ↦ rw (All, e, b, next_flow) (next_flows-IsNext proc filters t fs)
  ]
]

-- Every step that `Route` yields is one of a flow that the process defines, on the thread that it
-- was called for, and goes where that flow leads.
pub route-IsNext :
    (r : ExecutionResult) (proc : Process) (t : ℕ) → All (IsNext proc t) (route r proc t)
unfolding route
route-IsNext r proc t = elim (Bool-cases (is_routed r.action)) [
  | inr b ↦ rw (All, b) tt
  | inl b ↦ elim (Option-cases (get r.flow_data.element_id proc.elements)) [
    | inl e ↦ rw (All, b, e) tt
    | inr (elem, e) ↦ rw (All, b, e) (next_flows-IsNext proc r.flow_filters t elem.outgoing_flows)
  ]
]

-- A list of flows in which none occurs twice.
abbrev pub distinct : List String → Bool
distinct [] = true
distinct (f ∷ fs) = not (contains fs f) && distinct fs

abbrev pub all_defined : Process → List String → Bool
all_defined proc [] = true
all_defined proc (f ∷ fs) = is_some (get f proc.flows) && all_defined proc fs

keep_absent :
    (proc : Process) (x : String) (fs : List String)
    → contains fs x ≡ false
    → keep (is_selected proc (x ∷ [])) fs ≡ []
unfolding contains
keep_absent proc x [] h = refl
keep_absent proc x (f ∷ fs) h = ground (arith, keep_absent proc x fs, eq_iff x f, eq_iff f x)

-- A filter of one flow that is among the outgoing ones selects that flow alone.
pub keep_one :
    (proc : Process) (x : String) (fs : List String)
    → contains fs x ≡ true
    → distinct fs ≡ true
    → all_defined proc fs ≡ true
    → keep (is_selected proc (x ∷ [])) fs ≡ x ∷ []
unfolding contains
keep_one proc x [] h d a = cc
keep_one proc x (f ∷ fs) h d a =
    ground (arith, keep_absent proc x fs, keep_one proc x fs, eq_iff x f, eq_iff f x)

-- `Route` for a result that routes, from an element of the process.
pub flow_ids-routed :
    (r : ExecutionResult) (proc : Process) (t : ℕ) (e : Element) (filters fs : List String)
    → r.action ≡ Action.route
    → get r.flow_data.element_id proc.elements ≡ some e
    → r.flow_filters ≡ filters
    → e.outgoing_flows ≡ fs
    → map (λ n. n.flow_id) (route r proc t) ≡ keep (is_selected proc filters) fs
flow_ids-routed r proc t e filters fs a h f o = ground (arith, flow_ids-route r proc t)

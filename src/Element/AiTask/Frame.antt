-- ===== src/Element/AiTask/Frame.antt =====
-- internal/element/activities/ai_task.go: what a task may change, and how it ends.
use Prim.Native.String.{◌++◌ as append}
use text.Mathlib.Text.{starts_with}
use text.Mathlib.TextEquality.{eq_iff}
use text.Mathlib.TextPositions.{starts_with-append}
use bpmn_ai.Base.{
  String, false, List, [], ◌∷◌, Option, none, some, ◌==◌, ◌≡◌, refl, sym, ap, ◌∙◌, inl, inr, ◌⊎◌,
  Bool-cases, is_empty, not,
}
use mathlib.Core.Bool.{true≢false}
use bpmn_ai.Base.Dict.{Dict}
use bpmn_ai.Errors.{Error, Result, ok, err, wrap}
use bpmn_ai.Model.{Value}
use bpmn_ai.Process.Instance.{Instance, get_variable}
use bpmn_ai.Records
use bpmn_ai.Element.{ExecutionContext, ExecutionResult, route, error, set, variable, variable-set}
use bpmn_ai.Ai.Gateway.{Response, ToolCall}
use bpmn_ai.Ai.Agent.{SubAgentTask}
use bpmn_ai.Element.AiTask.{Outside, AiTask, build_prompt, prompt_source}
use bpmn_ai.Element.AiTask.Execute.{
  execute, execute_single, execute_multi_agent, answered, fails, succeeds, set_output_variables,
  set_parsed, set_validated, set_answer, set_cost, set_tool_calls, on_chunks, streamed, set_results,
  reported, agent_results,
}

-- A result that routes on, or one that carries an error of the task.
abbrev pub Ends : String → ExecutionResult → Type 0
Ends id r =
    ((r.action ≡ route) × (r.flow_data.status ≡ Records.FlowStatus.completed) × (r.error ≡ none))
    ⊎ ((r.action ≡ error)
        × (r.flow_data.status ≡ Records.FlowStatus.error)
        × (e : Error) × (r.error ≡ some (wrap (append "ai_task " id) e)))

-- Neither the total cost nor a variable whose name starts with the task's identifier.
abbrev pub IsForeign : String → String → Type 0
IsForeign id k = (starts_with k id ≡ false) × (("ai_total_cost" == k) ≡ false)

own_key : (id suffix k : String) → starts_with k id ≡ false → (append id suffix == k) ≡ false
own_key id suffix k h = elim (Bool-cases (append id suffix == k)) [
  | inl e ↦ absurd (
      true≢false (
        sym (starts_with-append id suffix)
        ∙ ap (λ s. starts_with s id) ((eq_iff (append id suffix) k).0 e)
        ∙ h))
  | inr e ↦ e
]

module _ {F T G S V W : Type 0} (o : Outside F T G W) (t : AiTask F T G S V W) (k : String)
    (h : IsForeign t.id k) where
  variable-own :
      (suffix : String) (v : Value) (c : ExecutionContext)
      → variable k (set (append t.id suffix) v c) ≡ variable k c
  variable-own suffix v c =
      variable-set (append t.id suffix) k v c ∙ rw (own_key t.id suffix k h.0) refl

  variable-set_validated :
      (v : Result Value) (c : ExecutionContext) → variable k (set_validated o t v c) ≡ variable k c
  unfolding set_validated
  variable-set_validated (err e) c = variable-own "_validation_error" _ c
  variable-set_validated (ok v) c = variable-own "_parsed" v c

  variable-set_parsed :
      (r : Response) (c : ExecutionContext) → variable k (set_parsed o t r c) ≡ variable k c
  unfolding set_parsed
  variable-set_parsed r c = elim (Bool-cases (is_empty t.output_schema)) [
    | inl e ↦ rw e refl
    | inr e ↦ rw e (variable-set_validated _ c)
  ]

  variable-set_cost : (x : F) (c : ExecutionContext) → variable k (set_cost o t x c) ≡ variable k c
  unfolding set_cost
  variable-set_cost x c =
      variable-own "_cost" _ _ ∙ variable-set "ai_total_cost" k _ c ∙ rw h.1 refl

  variable-set_answer :
      (r : Response) (c : ExecutionContext) → variable k (set_answer o t r c) ≡ variable k c
  unfolding set_answer
  variable-set_answer r c = simp variable-own

  variable-set_tool_calls :
      (ts : List ToolCall) (c : ExecutionContext)
      → variable k (set_tool_calls o t ts c) ≡ variable k c
  unfolding set_tool_calls
  variable-set_tool_calls [] c = refl
  variable-set_tool_calls (a ∷ rest) c = variable-own "_tool_calls" _ c

  variable-on_chunks :
      (partial : String) (ss : List String) (c : ExecutionContext)
      → variable k (on_chunks o t partial ss c) ≡ variable k c
  unfolding on_chunks
  variable-on_chunks partial [] c = refl
  variable-on_chunks partial (s ∷ ss) c =
      variable-on_chunks (append partial s) ss _ ∙ variable-own "_partial" _ c

  variable-streamed :
      (ss : List String) (c : ExecutionContext) → variable k (streamed o t ss c) ≡ variable k c
  unfolding streamed
  variable-streamed ss c = elim (Bool-cases t.stream) [
    | inl e ↦ rw e (variable-on_chunks "" ss c)
    | inr e ↦ rw e refl
  ]

  variable-set_results :
      (vs : Dict String) (c : ExecutionContext) → variable k (set_results o t vs c) ≡ variable k c
  unfolding set_results
  variable-set_results [] c = refl
  variable-set_results ((j, v) ∷ vs) c =
      variable-set_results vs _ ∙ variable-own (append "_agent_" j) _ c

  variable-prompt_source :
      (p : Option (String × String)) (c : ExecutionContext)
      → variable k (prompt_source o t p c).1 ≡ variable k c
  unfolding prompt_source
  variable-prompt_source none c = refl
  variable-prompt_source (some (body, hash)) c = simp variable-own

  -- The outcome of a run: it keeps the foreign variable, and it ends in one of the two ways.
  abbrev Outcome : ExecutionContext → Instance → ExecutionResult → Type 0
  Outcome c i r = (get_variable k i ≡ variable k c) × Ends t.id r

  answered-Outcome :
      (r : Result Response) (ss : List String) (c d : ExecutionContext)
      → variable k d ≡ variable k c
      → Outcome c (answered o t r ss d).0 (answered o t r ss d).1
  unfolding answered fails succeeds set_output_variables get_variable variable
  answered-Outcome (err x) ss c d e = (variable-streamed ss d ∙ e, inr (refl, refl, _, refl))
  answered-Outcome (ok r) ss c d e = (
    variable-set_tool_calls r.tool_calls _
        ∙ variable-set_cost _ _
        ∙ variable-set_answer r _
        ∙ variable-set_parsed r _
        ∙ variable-streamed ss d
        ∙ e,
    inl (refl, refl, refl),
  )

  reported-Outcome :
      (a : Dict String × W) (c : ExecutionContext)
      → Outcome c (reported o t a c).0 (reported o t a c).1
  unfolding reported succeeds get_variable variable
  reported-Outcome (results, w) c =
      (variable-set_results (o.order_texts results) c, inl (refl, refl, refl))

  multi_agent-Outcome :
      (a : Result (List SubAgentTask)) (c : ExecutionContext) (w : W)
      → Outcome c (execute_multi_agent o t a c w).0 (execute_multi_agent o t a c w).1
  unfolding execute_multi_agent fails get_variable variable
  multi_agent-Outcome (err e) c w = (refl, inr (refl, refl, _, refl))
  multi_agent-Outcome (ok agents) c w = reported-Outcome (agent_results o t agents c w) c

  single-Outcome :
      (c : ExecutionContext) (w : W)
      → Outcome c (execute_single o t c w).0 (execute_single o t c w).1
  unfolding execute_single build_prompt
  single-Outcome c w = answered-Outcome _ _ c _ (variable-prompt_source _ c)

  -- A task routes on or fails with an error that names it, and whatever a model, a template or an
  -- agent answers, it changes none of the variables of the instance but the total cost and those
  -- whose names start with its identifier.
  pub execute-Ends :
      (c : ExecutionContext) (w : W)
      → (get_variable k (execute o t c w).0 ≡ variable k c) × Ends t.id (execute o t c w).1
  unfolding execute
  execute-Ends c w = elim (Bool-cases (not (is_empty t.agent_defs))) [
    | inl e ↦ rw e (multi_agent-Outcome _ c w)
    | inr e ↦ rw e (single-Outcome c w)
  ]

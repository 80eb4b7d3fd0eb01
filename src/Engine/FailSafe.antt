-- ===== src/Engine/FailSafe.antt =====
-- internal/engine/failsafe.go. `now` is the clock, which does not run backwards; `New` of engine.go
-- makes both limits positive.
pub mod Bounds
use bpmn_ai.Base.{
  ℕ, ◌+◌, ◌-◌, String, List, [], ◌∷◌, Option, none, some, is_empty, ltb, if◌then◌else◌,
}
use bpmn_ai.Base.Dict.{Dict, get, put}
use bpmn_ai.Errors.{Error, execution_timeout, nested_loop}

pub record FailSafe : Type 0 where
  pub start_time : ℕ
  pub max_timeout : ℕ
  pub max_loops : ℕ
  pub element_counts : Dict ℕ
  pub total_executions : ℕ

unfoldable pub new : ℕ → ℕ → ℕ → FailSafe
new now max_timeout max_loops = record {
  start_time = now;
  max_timeout = max_timeout;
  max_loops = max_loops;
  element_counts = [];
  total_executions = 0;
}

unfoldable pub check_timeout : ℕ → FailSafe → Option Error
check_timeout now f =
    if ltb f.max_timeout (now - f.start_time)
    then some (execution_timeout (now - f.start_time) f.max_timeout)
    else none

-- A missing key of the map counts as 0.
unfoldable pub count_of : String → FailSafe → ℕ
count_of id f = elim (get id f.element_counts) [ none ↦ 0 | some n ↦ n ]

unfoldable pub check_loop_count : String → FailSafe → FailSafe × Option Error
unfolding count_of
check_loop_count id f = if is_empty id then (f, none) else (
  record f {
    element_counts = put id (count_of id f + 1) f.element_counts;
    total_executions = f.total_executions + 1;
  },
  if ltb f.max_loops (count_of id f + 1)
      then some (nested_loop id (count_of id f + 1) f.max_loops)
      else none,
)

unfoldable pub check : ℕ → String → FailSafe → FailSafe × Option Error
unfolding check_timeout check_loop_count
check now id f = elim (check_timeout now f) [ some e ↦ (f, some e) | none ↦ check_loop_count id f ]

-- The checks of a run, in the order of its results, up to the first that fails.
unfoldable pub check_all : List (ℕ × String) → FailSafe → FailSafe × Option Error
check_all [] f = (f, none)
check_all ((now, id) ∷ rest) f =
    let (g, e) = check now id f in
    let later = check_all rest g in elim e [ none ↦ later | some x ↦ (g, some x) ]

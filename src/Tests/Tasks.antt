-- ===== src/Tests/Tasks.antt =====
-- A task of a language model that streams its answer, with natural numbers for float64.
use bpmn_ai.Base.Text.{trim_space}
use bpmn_ai.Base.{ℕ, ◌+◌, ◌*◌, ◌/◌, [], ◌∷◌, none, some, ltb, leb, ◌≡◌, refl}
use bpmn_ai.Base.Dict.{Dict, get, put}
use bpmn_ai.Errors.{ok, err, message}
use bpmn_ai.Model.{Element, text, number, ai_task, end, dict}
use bpmn_ai.Process.Instance.{get_variable}
use bpmn_ai.Element.{ExecutionContext, variable, set}
use bpmn_ai.Ai.Agent.{replace_all}
use bpmn_ai.Ai.Float.{Floats}
use bpmn_ai.Ai.Gateway.{Response}
use bpmn_ai.Element.AiTask.{Outside, AiTask, new_ai_task, build_prompt}
use bpmn_ai.Element.AiTask.Names.{extract_var_names}
use bpmn_ai.Base.Text.{trim_space, lacks}
use bpmn_ai.Element.AiTask.Names.Template.{render, extract_var_names-render}
use bpmn_ai.Element.AiTask.Cost.{estimate_cost, Price}
use bpmn_ai.Element.AiTask.Execute.{execute}
use bpmn_ai.Element.AiTask.Frame.{Ends, execute-Ends}
use bpmn_ai.Tests.{node, at_gateway}

abbrev whole : Floats ℕ
whole = record {
  literal = λ s. 7;
  of_int = λ n. n;
  plus = λ a b. a + b;
  times = λ a b. a * b;
  over = λ a b. a / b;
  above = λ a b. ltb b a;
  at_most = λ a b. leb a b;
}

abbrev reply : Response
reply = record {
  text = "yes";
  model = "gpt-4o-mini";
  tokens_in = 1000;
  tokens_out = 2000;
  duration_ms = 1;
  tool_calls = [];
}

-- The one gateway answers in two chunks and counts its calls.
abbrev around : Outside ℕ ℕ ℕ ℕ
around = record {
  floats = whole;
  ask = λ g r w. (ok reply, w + 1, "ye" ∷ "s" ∷ []);
  decode_agents = λ s. err (message "no agents");
  order_texts = λ vs. vs;
  order_names = λ ns. ns;
  order_prices = λ ps. ps;
  order_models = record { catalog = λ ks. ks; pool = λ ks. ks };
  shown_error = λ e. "error";
  shown_value = λ v. "value";
  decimal = λ n. "1";
  scan_version = λ s. 0;
  as_float = λ v. none;
  of_float = λ n. number "7";
  of_int = λ n. number "1";
  tool_calls_json = λ ts. "[]";
  unmarshal = λ s. ok (dict end);
  violations = λ s v. ok [];
}

abbrev asks : Element
asks = record (node "a" ai_task [] []) {
  extension_data = ("scriptBody", "Is {{x}} a number?") ∷ ("stream", "true") ∷ [];
}

abbrev asking : AiTask ℕ ℕ ℕ ℕ ℕ ℕ
asking = new_ai_task 0 none none none none asks

abbrev given_x : ExecutionContext
given_x = set "x" (text "1") (at_gateway ai_task)

execute-Ends_example :
    (get_variable "x" (execute around asking given_x 0).0 ≡ variable "x" given_x)
    × Ends "a" (execute around asking given_x 0).1
unfolding new_ai_task
execute-Ends_example = execute-Ends around asking "x" (refl, refl) given_x 0

test_result : get_variable "a_result" (execute around asking given_x 0).0 ≡ some (text "yes")
unfolding get_variable get execute new_ai_task set put build_prompt
test_result = refl

test_partial : get_variable "a_partial" (execute around asking given_x 0).0 ≡ some (text "yes")
unfolding get_variable get execute new_ai_task set put build_prompt
test_partial = refl

test_prompt : (build_prompt around asking given_x).0 ≡ "Is value a number?"
unfolding build_prompt extract_var_names new_ai_task get trim_space variable set put replace_all
test_prompt = refl

-- A name with spaces around it is found, but what is replaced has none.
abbrev spaced : AiTask ℕ ℕ ℕ ℕ ℕ ℕ
spaced = record asking { prompt = "Is {{ x }} a number?" }

test_spaced : (build_prompt around spaced given_x).0 ≡ "Is {{ x }} a number?"
unfolding build_prompt extract_var_names new_ai_task get trim_space variable set put replace_all
test_spaced = refl

test_names : extract_var_names "{{ a }}, {{}} and {{{b}} {{c" ≡ "a" ∷ "{b" ∷ []
unfolding extract_var_names trim_space
test_names = refl

-- The price of gpt-4o or of gpt-4o-mini, whichever the loop over the map meets first.
abbrev literal_length : Floats ℕ
literal_length = record whole { literal = λ s. Prim.Native.String.len s }

abbrev turned : Dict (Price ℕ) → Dict (Price ℕ)
turned (p ∷ q ∷ ps) = q ∷ p ∷ ps
turned ps = ps

test_price : estimate_cost literal_length (λ ps. ps) reply ≡ 12
unfolding estimate_cost
test_price = refl

test_other_price : estimate_cost literal_length turned reply ≡ 16
unfolding estimate_cost
test_other_price = refl

extract_var_names-render_example :
    extract_var_names (render (("Is ", " x ") ∷ (" or ", "") ∷ (" in ", "y") ∷ []) "?")
    ≡ "x" ∷ "y" ∷ []
unfolding trim_space
extract_var_names-render_example =
    extract_var_names-render (("Is ", " x ") ∷ (" or ", "") ∷ (" in ", "y") ∷ []) "?"
      (unfold lacks in refl) (unfold lacks in refl)

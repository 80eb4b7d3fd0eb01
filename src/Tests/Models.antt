-- ===== src/Tests/Models.antt =====
-- The library for language models, with natural numbers for float64 and providers that always
-- answer or always fail.
use bpmn_ai.Base.Text.{cut}
use bpmn_ai.Ai.Prompt.Versions.{bodies}
use bpmn_ai.Ai.Gateway.{with_defaults}
use bpmn_ai.Ai.Cache.Refinement.{hold_all}
use bpmn_ai.Ai.Cache.Refinement.{live}
use bpmn_ai.Ai.Cache.{stamped}
use bpmn_ai.Base.{
  ℕ, ◌+◌, ◌*◌, ◌/◌, String, true, false, List, [], ◌∷◌, none, some, ltb, leb, ◌≡◌, refl, arith,
}
use bpmn_ai.Base.Dict.{get, keys}
use bpmn_ai.Errors.{ok, err, message}
use bpmn_ai.Ai.Float.{Floats, IsOrdered}
use bpmn_ai.Ai.Gateway.{Request, Response, Message, Gateway}
use bpmn_ai.Ai.Gateway
use bpmn_ai.Ai.Cache.{CacheEntry, CachedGateway, MemoryCache, lookup, generate, new_memory_cache}
use bpmn_ai.Ai.Cache.Calls.{generate_again, generate_all}
use bpmn_ai.Ai.Cache.Refinement.{run, lookup-run, set_entry, get_entry}
use bpmn_ai.Ai.Fallback.{
  FallbackGateway, generate_fallback, generate_cross, as_options, outcome,
  generate_fallback-generate_cross,
}
use bpmn_ai.Ai.Guardrail.{Guard, token_limit, pii_redactor, run_chain, redact_request}
use bpmn_ai.Ai.Guardrail.Chain.{run_chain_passes, patterns, AllAllow}
use bpmn_ai.Ai.Prompt.{new_prompt_template, versions_of}
use bpmn_ai.Ai.Prompt.Versions.{register_all, versions_of-register_all}
use bpmn_ai.Ai.Router.{ModelRouter, Order, find_best_match, resolve}
use bpmn_ai.Ai.Router.Best.{find_best_match-Tops, Scores, Tops}
use bpmn_ai.Ai.Router.Resolve.{resolve_total, Has}
use bpmn_ai.Ai.Router.Tables.{ModelInfo}

abbrev whole : Floats ℕ
whole = record {
  literal = λ s. 0;
  of_int = λ n. n;
  plus = λ a b. a + b;
  times = λ a b. a * b;
  over = λ a b. a / b;
  above = λ a b. ltb b a;
  at_most = λ a b. leb a b;
}

whole-IsOrdered : IsOrdered whole
whole-IsOrdered = (λ a. ground arith, λ a b c h k. ground arith)

abbrev question : Request ℕ ℕ
question = record {
  model = "m";
  system = "s";
  messages = [];
  max_tokens = 10;
  temperature = 1;
  tools = [];
  max_tool_rounds = 5;
  output_schema = "";
  stream = false;
}

abbrev answer : Response
answer = record {
  text = "yes";
  model = "m";
  tokens_in = 1;
  tokens_out = 1;
  duration_ms = 1;
  tool_calls = [];
}

-- A world is the number of calls that were made.
abbrev answering : Gateway ℕ ℕ ℕ
answering r w = (ok answer, w + 1)

abbrev failing : Gateway ℕ ℕ ℕ
failing r w = (err (message "down"), w + 1)

abbrev entry : CacheEntry
entry = record { response = answer; created_at = 0; ttl = 0 }

lookup-run_example :
    (lookup "k" 9
      (run ((1, set_entry "k" entry) ∷ (2, get_entry "k") ∷ []) (new_memory_cache 10))).0
    ≡ some (record { response = answer; created_at = 1; ttl = 10 })
unfolding lookup get new_memory_cache stamped live hold_all
lookup-run_example =
    lookup-run 10 9 ((1, set_entry "k" entry) ∷ (2, get_entry "k") ∷ []) "k"
      (omega arith, (omega arith, omega arith))

abbrev cached : CachedGateway ℕ ℕ ℕ
cached = record { inner = answering; sha256 = λ s. s; ttl = 10 }

-- The second request differs in its temperature; between them another model is asked.
abbrev after_both : ℕ × MemoryCache
after_both =
    generate_all cached ((2, record question { model = "n" }) ∷ [])
      (1, (generate cached question 1 0 (new_memory_cache 0)).2)

generate_again_example :
    ((generate cached question 1 0 (new_memory_cache 0)).0 ≡ ok answer)
    × (generate cached (record question { temperature = 0 }) 5 after_both.0 after_both.1
        ≡ (ok answer, after_both.0, after_both.1))
unfolding lookup get new_memory_cache stamped
generate_again_example =
    generate_again cached question (record question { temperature = 0 }) 1 5 0 1
      (new_memory_cache 0) answer ((2, record question { model = "n" }) ∷ []) refl refl refl refl
      refl refl refl

abbrev pair : FallbackGateway ℕ ℕ ℕ
pair = record { primary = failing; secondary = answering }

generate_fallback-generate_cross_example :
    outcome (generate_fallback pair question 0)
    ≡ outcome (generate_cross (as_options pair) question 0)
generate_fallback-generate_cross_example = generate_fallback-generate_cross pair question 0

abbrev hide : String → String
hide s = "[SSN]"

abbrev guards : List (Guard ℕ ℕ)
guards = token_limit 20 ∷ pii_redactor (hide ∷ []) ∷ []

run_chain_passes_example :
    (record question { system = "[SSN]" } ≡ redact_request (patterns guards) question)
    × AllAllow guards 10
unfolding run_chain
run_chain_passes_example =
    run_chain_passes whole (λ s. 0) false guards question (record question { system = "[SSN]" })
      none refl

-- A request without a number of tokens passes every limit and gets its default afterwards.
test_default_tokens :
    run_chain whole (λ s. 0) false (token_limit 20 ∷ []) (record question { max_tokens = 0 }) none
    ≡ ok (record question { max_tokens = 0 })
unfolding run_chain
test_default_tokens = refl

test_defaults : (Gateway.with_defaults whole (record question { max_tokens = 0 })).max_tokens ≡ 4096
unfolding with_defaults
test_defaults = refl

versions_of-register_all_example :
    versions_of "p"
      (register_all (λ s. s) (("p", "x") ∷ ("p", "x") ∷ ("q", "z") ∷ ("p", "y") ∷ []) [])
    ≡ new_prompt_template (λ s. s) "p" "x" 1 ∷ new_prompt_template (λ s. s) "p" "y" 2 ∷ []
unfolding bodies
versions_of-register_all_example =
    versions_of-register_all (λ s. s) "p" (("p", "x") ∷ ("p", "x") ∷ ("q", "z") ∷ ("p", "y") ∷ [])

abbrev llama : String → ModelInfo ℕ
llama provider = record {
  provider = provider;
  name = "llama-4";
  context_win = 131072;
  max_output = 32768;
  price_per_1k_in = 0;
  price_per_1k_out = 0;
  supports_tools = true;
  supports_json = true;
  is_fast = false;
}

-- Two providers have the model and only one of them is registered.
abbrev router : ModelRouter ℕ ℕ
router = record {
  pool = ("openrouter", 2) ∷ ("groq", 1) ∷ [];
  catalog = ("meta/llama-4", llama "meta") ∷ ("groq/llama-4", llama "groq") ∷ [];
  aliases = [];
  profiles = [];
}

abbrev listed : Order
listed = record { catalog = λ ks. ks; pool = λ ks. ks }

abbrev turned : List String → List String
turned (k ∷ l ∷ []) = l ∷ k ∷ []
turned ks = ks

-- Which provider answers for a model whose own is missing depends on the order of the catalog: the
-- search may stop at the model of the missing provider itself.
test_own_model : resolve whole listed "" "meta/llama-4" false false router ≡ ok (2, "llama-4")
unfolding resolve get keys cut
test_own_model = refl

test_other_model :
    resolve whole (record listed { catalog = turned }) "" "meta/llama-4" false false router
    ≡ ok (1, "groq/llama-4")
unfolding resolve get keys cut
test_other_model = refl

find_best_match-Tops_example :
    (high : ℕ) × Scores whole true false "meta" router.catalog
      (find_best_match whole listed true false "meta" "" router)
      high
    × Tops whole true false "meta" router.catalog (keys router.catalog) high
find_best_match-Tops_example =
    find_best_match-Tops whole listed true false "meta" router whole-IsOrdered

resolve_total_example :
    (g : ℕ) × (m : String) × (resolve whole listed "" "any" false false router ≡ ok (g, m))
    × Has router.pool g
unfolding keys get
resolve_total_example =
    resolve_total whole listed false false router "" "any" "openrouter" ("groq" ∷ []) 2 refl refl

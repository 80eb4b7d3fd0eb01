-- ===== src/Ai/Router/Tables.antt =====
-- pkg/ai/router.go: the tables DefaultCatalog, ModelAliases, LabAliases and DefaultProfiles.
use bpmn_ai.Base.{ℕ, String, Bool, true, false, [], ◌∷◌}
use bpmn_ai.Base.Dict.{Dict}
use bpmn_ai.Ai.Float.{Floats}

pub record ModelInfo (F : Type 0) : Type 0 where
  pub provider : String
  pub name : String
  pub context_win : ℕ
  pub max_output : ℕ
  pub price_per_1k_in : F
  pub price_per_1k_out : F
  pub supports_tools : Bool
  pub supports_json : Bool
  pub is_fast : Bool

pub record Profile : Type 0 where
  pub model : String
  pub max_tokens : ℕ
  pub priority : String

abbrev model :
    {F : Type 0}
    → Floats F
    → String
    → String
    → String
    → ℕ
    → ℕ
    → String
    → String
    → Bool
    → Bool
    → String × ModelInfo F
model x key provider name context_win max_output price_in price_out tools fast = (
  key,
  record {
    provider = provider;
    name = name;
    context_win = context_win;
    max_output = max_output;
    price_per_1k_in = x.literal price_in;
    price_per_1k_out = x.literal price_out;
    supports_tools = tools;
    supports_json = true;
    is_fast = fast;
  },
)

-- Every model of the table supports JSON.
abbrev pub default_catalog : {F : Type 0} → Floats F → Dict (ModelInfo F)
default_catalog x =
    model x "openai/gpt-5.5-pro" "openai" "gpt-5.5-pro" 1050000 128000 "0.2727" "1.6364" true false
    ∷ model x "openai/gpt-5.5" "openai" "gpt-5.5" 1050000 128000 "0.03" "0.18" true false
    ∷ model x "openai/gpt-5.5-instant" "openai" "gpt-5.5-instant" 400000 128000 "0.05" "0.30" true
        true
    ∷ model x "openai/gpt-5.4" "openai" "gpt-5.4" 1050000 128000 "0.022" "0.14" true false
    ∷ model x "openai/gpt-5.4-mini" "openai" "gpt-5.4-mini" 400000 128000 "0.0068" "0.04" true true
    ∷ model x "openai/gpt-5.4-nano" "openai" "gpt-5.4-nano" 400000 128000 "0.0018" "0.011" true true
    ∷ model x "openai/gpt-4o" "openai" "gpt-4o" 128000 16384 "0.01" "0.03" true false
    ∷ model x "openai/gpt-4o-mini" "openai" "gpt-4o-mini" 128000 16384 "0.0015" "0.006" true true
    ∷ model x "openai/o4-mini" "openai" "o4-mini" 200000 100000 "0.011" "0.044" true true
    ∷ model x "openai/o3" "openai" "o3" 200000 100000 "0.05" "0.20" true false
    ∷ model x "anthropic/claude-opus-4-8" "anthropic" "claude-opus-4-8" 1000000 128000 "0.0429"
        "0.2146" true false
    ∷ model x "anthropic/claude-opus-4-7" "anthropic" "claude-opus-4-7" 1000000 128000 "0.045"
        "0.225" true false
    ∷ model x "anthropic/claude-sonnet-4-6" "anthropic" "claude-sonnet-4-6" 200000 64000 "0.03"
        "0.15" true false
    ∷ model x "anthropic/claude-haiku-4-5" "anthropic" "claude-haiku-4-5" 200000 8192 "0.008" "0.04"
        true true
    ∷ model x "anthropic/claude-fable-5" "anthropic" "claude-fable-5" 1000000 128000 "0.10" "0.50"
        true false
    ∷ model x "google/gemini-3.5-flash" "google" "gemini-3.5-flash" 1048576 65536 "0.0015" "0.009"
        true true
    ∷ model x "google/gemini-3.1-pro" "google" "gemini-3.1-pro" 1048576 65536 "0.02" "0.12" true
        false
    ∷ model x "google/gemini-3.1-flash-lite" "google" "gemini-3.1-flash-lite" 1048576 65536 "0.0025"
        "0.015" true true
    ∷ model x "deepseek/deepseek-v4-pro" "deepseek" "deepseek-v4-pro" 1000000 384000 "0.0" "0.0"
        true false
    ∷ model x "deepseek/deepseek-v4-flash" "deepseek" "deepseek-v4-flash" 1000000 384000 "0.0" "0.0"
        true true
    ∷ model x "deepseek/deepseek-chat" "deepseek" "deepseek-chat" 1000000 384000 "0.0014" "0.0028"
        true true
    ∷ model x "mistral/mistral-large-latest" "mistral" "mistral-large-latest" 262144 262144 "0.02"
        "0.06" true false
    ∷ model x "mistral/mistral-medium-3.5" "mistral" "mistral-medium-3.5" 262144 262144 "0.015"
        "0.069" true false
    ∷ model x "mistral/mistral-small-latest" "mistral" "mistral-small-latest" 256000 256000 "0.0015"
        "0.006" true true
    ∷ model x "meta/llama-4" "meta" "llama-4" 131072 32768 "0.0" "0.0" true false
    ∷ model x "meta/llama-nemotron-3-super" "meta" "llama-nemotron-3-super" 262144 262144 "0.0"
        "0.0" true false
    ∷ model x "xai/grok-4.3" "xai" "grok-4.3" 1000000 30000 "0.0125" "0.025" true false
    ∷ model x "xai/grok-build-0.1" "xai" "grok-build-0.1" 256000 256000 "0.01" "0.02" true true
    ∷ model x "cohere/command-a-plus" "cohere" "command-a-plus" 128000 64000 "0.025" "0.10" true
        false
    ∷ model x "zhipu/glm-5.2" "zhipu" "glm-5.2" 1000000 131072 "0.0" "0.0" true false
    ∷ model x "zhipu/glm-5.1" "zhipu" "glm-5.1" 200000 131072 "0.0" "0.0" true false
    ∷ model x "moonshot/kimi-k2.6" "moonshot" "kimi-k2.6" 262144 262144 "0.0" "0.0" true false
    ∷ model x "alibaba/qwen3.6-plus" "alibaba" "qwen3.6-plus" 1000000 65536 "0.0" "0.0" true false
    ∷ model x "alibaba/qwen3.6-max" "alibaba" "qwen3.6-max" 262144 65536 "0.0104" "0.0624" true
        false
    ∷ model x "alibaba/qwen3.5-122b" "alibaba" "qwen3.5-122b" 262144 65536 "0.0012" "0.0092" true
        false
    ∷ model x "nvidia/nemotron-3-super" "nvidia" "nemotron-3-super" 262144 262144 "0.0" "0.0" true
        false
    ∷ model x "nvidia/nemotron-3-nano" "nvidia" "nemotron-3-nano" 256000 65536 "0.0" "0.0" true true
    ∷ model x "xiaomi/mimo-v2.5-pro" "xiaomi" "mimo-v2.5-pro" 1048576 131072 "0.0" "0.0" true false
    ∷ model x "groq/llama-4" "groq" "llama-4" 131072 32768 "0.0" "0.0" true true
    ∷ model x "groq/llama-3.3-70b" "groq" "llama-3.3-70b" 131072 32768 "0.0" "0.0" true true
    ∷ model x "groq/deepseek-distill" "groq" "deepseek-r1-distill-llama-70b" 131072 32768 "0.0"
        "0.0" false true
    ∷ model x "groq/mixtral-8x7b" "groq" "mixtral-8x7b-32768" 32768 32768 "0.0" "0.0" true true
    ∷ model x "openrouter/openai/gpt-4o" "openrouter" "openai/gpt-4o" 128000 16384 "0.0025" "0.01"
        true false
    ∷ model x "openrouter/openai/gpt-4o-mini" "openrouter" "openai/gpt-4o-mini" 128000 16384
        "0.00015" "0.0006" true true
    ∷ model x "openrouter/anthropic/claude-sonnet-4-6" "openrouter" "anthropic/claude-sonnet-4-6"
        200000 64000 "0.009" "0.045" true false
    ∷ model x "openrouter/anthropic/claude-haiku-4-5" "openrouter" "anthropic/claude-haiku-4-5"
        200000 8192 "0.0025" "0.0125" true true
    ∷ model x "openrouter/google/gemini-3.5-flash" "openrouter" "google/gemini-3.5-flash" 1048576
        65536 "0.0003" "0.0015" true true
    ∷ model x "openrouter/google/gemini-3.1-pro" "openrouter" "google/gemini-3.1-pro" 1048576 65536
        "0.005" "0.03" true false
    ∷ model x "openrouter/deepseek/deepseek-v4-flash" "openrouter" "deepseek/deepseek-v4-flash"
        1000000 384000 "0.0" "0.0" true true
    ∷ model x "openrouter/deepseek/deepseek-chat" "openrouter" "deepseek/deepseek-chat" 1000000
        384000 "0.0007" "0.0014" true true
    ∷ model x "openrouter/meta/llama-4" "openrouter" "meta/llama-4" 131072 32768 "0.0" "0.0" true
        false
    ∷ model x "openrouter/mistral/mistral-small" "openrouter" "mistral/mistral-small" 256000 256000
        "0.001" "0.003" true true
    ∷ model x "openrouter/xai/grok-4.3" "openrouter" "xai/grok-4.3" 1000000 30000 "0.003" "0.006"
        true false
    ∷ model x "openrouter/cohere/command-a-plus" "openrouter" "cohere/command-a-plus" 128000 64000
        "0.0075" "0.03" true false
    ∷ model x "openrouter/alibaba/qwen3.5-122b" "openrouter" "alibaba/qwen3.5-122b" 262144 65536
        "0.0006" "0.0046" true false
    ∷ []

abbrev pub model_aliases : Dict String
model_aliases =
    ("gpt-4o", "openai/gpt-4o")
    ∷ ("gpt-4o-mini", "openai/gpt-4o-mini")
    ∷ ("gpt-5.5", "openai/gpt-5.5")
    ∷ ("gpt-5.5-pro", "openai/gpt-5.5-pro")
    ∷ ("gpt-5.4", "openai/gpt-5.4")
    ∷ ("gpt-5.4-mini", "openai/gpt-5.4-mini")
    ∷ ("gpt-5.4-nano", "openai/gpt-5.4-nano")
    ∷ ("claude-sonnet-4-6", "anthropic/claude-sonnet-4-6")
    ∷ ("claude-haiku-4-5", "anthropic/claude-haiku-4-5")
    ∷ ("claude-opus-4-8", "anthropic/claude-opus-4-8")
    ∷ ("claude-fable-5", "anthropic/claude-fable-5")
    ∷ ("gemini-3.5-flash", "google/gemini-3.5-flash")
    ∷ ("deepseek-v4-flash", "deepseek/deepseek-v4-flash")
    ∷ ("deepseek-chat", "deepseek/deepseek-chat")
    ∷ ("grok-4.3", "xai/grok-4.3")
    ∷ ("openrouter/gpt-4o", "openrouter/openai/gpt-4o")
    ∷ ("openrouter/gpt-4o-mini", "openrouter/openai/gpt-4o-mini")
    ∷ ("openrouter/claude-sonnet-4-6", "openrouter/anthropic/claude-sonnet-4-6")
    ∷ ("openrouter/claude-haiku-4-5", "openrouter/anthropic/claude-haiku-4-5")
    ∷ ("openrouter/deepseek-chat", "openrouter/deepseek/deepseek-chat")
    ∷ ("openrouter/llama-4", "openrouter/meta/llama-4")
    ∷ ("openrouter/grok-4.3", "openrouter/xai/grok-4.3")
    ∷ []

abbrev pub lab_aliases : Dict String
lab_aliases =
    ("openai", "openai")
    ∷ ("anthropic", "anthropic")
    ∷ ("google", "google")
    ∷ ("deepseek", "deepseek")
    ∷ ("mistral", "mistral")
    ∷ ("meta", "meta")
    ∷ ("xai", "xai")
    ∷ ("cohere", "cohere")
    ∷ ("zhipu", "openrouter")
    ∷ ("zhipuai", "openrouter")
    ∷ ("moonshot", "openrouter")
    ∷ ("moonshotai", "openrouter")
    ∷ ("stepfun", "openrouter")
    ∷ ("alibaba", "openrouter")
    ∷ ("minimax", "openrouter")
    ∷ ("nvidia", "nvidia")
    ∷ ("xiaomi", "xiaomi")
    ∷ ("groq", "groq")
    ∷ ("together", "openrouter")
    ∷ ("fireworks", "openrouter")
    ∷ ("perplexity", "openrouter")
    ∷ []

abbrev pub default_profiles : Dict Profile
default_profiles =
    ("complex", record { model = "openai/gpt-4o"; max_tokens = 8192; priority = "quality" })
    ∷ ("fast", record { model = "openai/gpt-4o-mini"; max_tokens = 2048; priority = "speed" })
    ∷ ("cheap", record { model = "openai/gpt-4o-mini"; max_tokens = 1024; priority = "cost" })
    ∷ ("auto", record { model = "openai/gpt-4o"; max_tokens = 4096; priority = "quality" })
    ∷ []

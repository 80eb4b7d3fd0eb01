-- ===== src/Ai/Fallback.antt =====
-- pkg/ai/fallback.go and pkg/ai/cross_provider.go: gateways that turn to another one when one fails.
-- The texts of their errors leave the number of providers out, and logging is left out.
use bpmn_ai.Base.{
  String, not, List, [], ◌∷◌, ◌++◌, Option, none, some, is_empty, if◌then◌else◌, ◌≡◌, refl, ◌∙◌,
}
use bpmn_ai.Errors.{Result, ok, err, Error, message, wrap}
use bpmn_ai.Ai.Gateway.{Request, Response, Gateway}

pub record FallbackGateway (F T W : Type 0) : Type 0 where
  pub primary : Gateway F T W
  pub secondary : Gateway F T W

unfoldable pub all_failed : {W : Type 0} → Result Response × W → Result Response × W
all_failed (ok a, w) = (ok a, w)
all_failed (err e, w) = (err (wrap "all AI providers failed" e), w)

-- After the primary has been asked.
unfoldable pub fall_back :
    {F T W : Type 0}
    → FallbackGateway F T W
    → Request F T
    → Result Response × W
    → Result Response × W
unfolding all_failed
fall_back g r (ok a, w) = (ok a, w)
fall_back g r (err e, w) = all_failed (g.secondary r w)

unfoldable pub generate_fallback : {F T W : Type 0} → FallbackGateway F T W → Gateway F T W
unfolding fall_back
generate_fallback g r w = fall_back g r (g.primary r w)

pub record ProviderOption (F T W : Type 0) : Type 0 where
  pub gateway : Gateway F T W
  pub model : String

-- The request with the model of the option, if it names one.
unfoldable pub with_model : {F T W : Type 0} → ProviderOption F T W → Request F T → Request F T
with_model o r = if not (is_empty o.model) then record r { model = o.model } else r

-- After an option has been asked: its response, or what is done with its error.
unfoldable pub or_next :
    {W : Type 0} → Result Response × W → (Error → W → Result Response × W) → Result Response × W
or_next (ok a, w) next = (ok a, w)
or_next (err e, w) next = next e w

-- The loop over the options, with the error of the last one that was asked.
unfoldable pub try_options :
    {F T W : Type 0} → Request F T → Error → List (ProviderOption F T W) → W → Result Response × W
unfolding or_next with_model
try_options r last [] w = (err (wrap "cross-provider: all providers failed" last), w)
try_options r last (o ∷ os) w = or_next (o.gateway (with_model o r) w) (λ e v. try_options r e os v)

unfoldable pub generate_cross : {F T W : Type 0} → List (ProviderOption F T W) → Gateway F T W
unfolding try_options
generate_cross [] r w = (err (message "cross-provider: no providers configured"), w)
generate_cross (o ∷ os) r w = try_options r (message "") (o ∷ os) w

unfoldable pub add_option :
    {F T W : Type 0}
    → ProviderOption F T W
    → List (ProviderOption F T W)
    → List (ProviderOption F T W)
add_option o os = os ++ o ∷ []

-- The two gateways as options that keep the model of the request.
unfoldable pub as_options : {F T W : Type 0} → FallbackGateway F T W → List (ProviderOption F T W)
as_options g =
    record { gateway = g.primary; model = "" } ∷ record { gateway = g.secondary; model = "" } ∷ []

-- A result without the text of its error.
abbrev pub outcome : {W : Type 0} → Result Response × W → Option Response × W
outcome (ok a, w) = (some a, w)
outcome (err e, w) = (none, w)

outcome-all_failed : {W : Type 0} (x : Result Response × W) → outcome (all_failed x) ≡ outcome x
unfolding all_failed
outcome-all_failed (ok a, w) = refl
outcome-all_failed (err e, w) = refl

or_last_outcome :
    {W : Type 0} (x : Result Response × W) (wrapped : Error → Error)
    → outcome x ≡ outcome (or_next x (λ e v. (err (wrapped e), v)))
unfolding or_next
or_last_outcome (ok a, w) f = refl
or_last_outcome (err e, w) f = refl

outcome-fall_back :
    {F T W : Type 0} (g : FallbackGateway F T W) (r : Request F T) (x : Result Response × W)
    → outcome (fall_back g r x)
      ≡ outcome (
          or_next x (λ e v.
            or_next
              (g.secondary r v)
              (λ f u. (err (wrap "cross-provider: all providers failed" f), u))))
unfolding fall_back or_next
outcome-fall_back g r (ok a, w) = refl
outcome-fall_back g r (err e, w) =
    outcome-all_failed (g.secondary r w) ∙ or_last_outcome (g.secondary r w) (wrap _)

-- A fallback gateway asks the same gateways with the same requests, and answers the same, as a
-- cross-provider gateway of its two gateways; only the texts of their errors differ.
pub generate_fallback-generate_cross :
    {F T W : Type 0} (g : FallbackGateway F T W) (r : Request F T) (w : W)
    → outcome (generate_fallback g r w) ≡ outcome (generate_cross (as_options g) r w)
unfolding generate_fallback generate_cross as_options try_options with_model
generate_fallback-generate_cross g r w = outcome-fall_back g r (g.primary r w)

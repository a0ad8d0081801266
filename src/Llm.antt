-- ===== src/Llm.antt =====
-- internal/config/llm.go and internal/llm/router.go: the models of the five task categories, their
-- check against the models that the server offers, and the choice of the router. The parameters that
-- the source keeps and ignores (complexity and hints) are left out, and so are the reload callbacks.
pub mod Models
use one_dev_army.Common.{
  Bool, true, false, not, ◌||◌, List, [], ◌∷◌, ◌++◌, String, str_eq, if◌then◌else◌, any, is_empty,
}

-- `unknown` is any other text.
pub data TaskCategory : Type 0 where
  category_code category_code_heavy category_planning category_orchestration : TaskCategory
  category_setup unknown : TaskCategory

pub record LlmConfig : Type 0 where
  pub setup : String
  pub planning : String
  pub orchestration : String
  pub code : String
  pub code_heavy : String

unfoldable pub get_model_for_category : LlmConfig → TaskCategory → String
get_model_for_category cfg category_setup = cfg.setup
get_model_for_category cfg category_planning = cfg.planning
get_model_for_category cfg category_orchestration = cfg.orchestration
get_model_for_category cfg category_code = cfg.code
get_model_for_category cfg category_code_heavy = cfg.code_heavy
get_model_for_category cfg unknown = cfg.code

-- `availableSet[model]`
abbrev pub is_available : List String → String → Bool
is_available models m = any (λ a. str_eq a m) models

abbrev pub get_first_available_model : List String → String
get_first_available_model [] = ""
get_first_available_model (m ∷ ms) = m

-- One row of `ReplacedModels`.
pub record Replacement : Type 0 where
  pub mode : String
  pub old_model : String
  pub new_model : String

pub record ModelValidationResult : Type 0 where
  pub replaced_models : List Replacement
  pub has_replacements : Bool
  pub validated_config : LlmConfig

abbrev pub must_replace : List String → String → Bool
must_replace models m = str_eq m "" || not (is_available models m)

-- One round of the loop over the modes, on the model and on the record of the replacements.
abbrev pub replacement : List String → String → String
replacement models m = if must_replace models m then get_first_available_model models else m

abbrev pub note : List String → String → String → List Replacement
note models name m =
    if must_replace models m
    then record {
      mode = name;
      old_model = if str_eq m "" then "(empty)" else m;
      new_model = get_first_available_model models;
    }
      ∷ []
    else []

unfoldable pub validate_and_fallback_models : List String → LlmConfig → ModelValidationResult
validate_and_fallback_models [] cfg = record {
  replaced_models = [];
  has_replacements = false;
  validated_config = cfg;
}
validate_and_fallback_models (a ∷ ms) cfg =
    let models = a ∷ ms in
    let replaced =
      note models "Setup" cfg.setup
      ++ note models "Planning" cfg.planning
      ++ note models "Orchestration" cfg.orchestration
      ++ note models "Code" cfg.code
      ++ note models "CodeHeavy" cfg.code_heavy in
    record {
      replaced_models = replaced;
      has_replacements = not (is_empty replaced);
      validated_config = record {
        setup = replacement models cfg.setup;
        planning = replacement models cfg.planning;
        orchestration = replacement models cfg.orchestration;
        code = replacement models cfg.code;
        code_heavy = replacement models cfg.code_heavy;
      };
    }

pub record Router : Type 0 where
  pub cfg : LlmConfig
  pub available_models : List String

unfoldable pub select_model_with_fallback : List String → String → String
select_model_with_fallback [] model = model
select_model_with_fallback (a ∷ ms) model = if is_available (a ∷ ms) model then model else a

unfoldable pub select_model : Router → TaskCategory → String
unfolding get_model_for_category select_model_with_fallback
select_model r c = select_model_with_fallback r.available_models (get_model_for_category r.cfg c)

unfoldable pub category_for_stage : String → TaskCategory
category_for_stage s =
    if str_eq s "analysis" || str_eq s "planning" || str_eq s "plan-review"
    then category_planning
    else (if str_eq s "coding" || str_eq s "testing" || str_eq s "code-review"
        then category_code
        else (if str_eq s "orchestration" || str_eq s "ticket-selection"
            then category_orchestration
            else (if str_eq s "setup" || str_eq s "ci-generation" || str_eq s "project-setup"
                then category_setup
                else category_code)))

unfoldable pub select_model_for_stage : Router → String → String
unfolding select_model category_for_stage
select_model_for_stage r stage = select_model r (category_for_stage stage)

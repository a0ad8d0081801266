-- ===== src/Llm/Models.antt =====
-- The models that the router chooses, and the check of a configuration against them.
use one_dev_army.Common.{
  ◌≡◌, refl, true, false, List, [], ◌∷◌, String, eq_refl, eq_iff, arith, is_empty,
}
use one_dev_army.Llm.{
  TaskCategory, category_setup, category_planning, category_orchestration, category_code,
  category_code_heavy, unknown, LlmConfig, get_model_for_category, is_available, must_replace,
  replacement, validate_and_fallback_models, Router, select_model, select_model_with_fallback,
  select_model_for_stage, category_for_stage,
}

fallback-is_available :
    (models : List String) (m : String)
    → is_empty models ≡ false
    → is_available models (select_model_with_fallback models m) ≡ true
unfolding select_model_with_fallback
fallback-is_available [] m h = cc
fallback-is_available (a ∷ ms) m h = ground (arith, eq_refl a)

-- Where the server offers models at all, the router chooses one of them, for every category and for
-- every stage, whatever is configured.
pub select_model-is_available :
    (r : Router) (c : TaskCategory) (stage : String)
    → is_empty r.available_models ≡ false
    → (is_available r.available_models (select_model r c) ≡ true)
      × (is_available r.available_models (select_model_for_stage r stage) ≡ true)
unfolding select_model select_model_for_stage
select_model-is_available r c stage h = (
  fallback-is_available r.available_models (get_model_for_category r.cfg c) h,
  fallback-is_available r.available_models (get_model_for_category r.cfg (category_for_stage stage))
      h,
)

fallback-replacement :
    (a : String) (ms : List String) (m : String)
    → is_available (a ∷ ms) "" ≡ false
    → select_model_with_fallback (a ∷ ms) (replacement (a ∷ ms) m)
      ≡ select_model_with_fallback (a ∷ ms) m
unfolding select_model_with_fallback
fallback-replacement a ms m h = ground (arith, eq_iff m "", eq_refl a)

-- The check of a configuration changes no choice of the router: with the checked configuration it
-- chooses the same models as with the one that was given, if no offered model has an empty name.
pub select_model-validate :
    (cfg : LlmConfig) (models : List String) (c : TaskCategory)
    → is_available models "" ≡ false
    → select_model
        (record {
          cfg = (validate_and_fallback_models models cfg).validated_config;
          available_models = models;
        })
        c
      ≡ select_model (record { cfg = cfg; available_models = models }) c
unfolding select_model validate_and_fallback_models get_model_for_category
select_model-validate cfg [] c h = refl
select_model-validate cfg (a ∷ ms) category_setup h = fallback-replacement a ms cfg.setup h
select_model-validate cfg (a ∷ ms) category_planning h = fallback-replacement a ms cfg.planning h
select_model-validate cfg (a ∷ ms) category_orchestration h =
    fallback-replacement a ms cfg.orchestration h
select_model-validate cfg (a ∷ ms) category_code h = fallback-replacement a ms cfg.code h
select_model-validate cfg (a ∷ ms) category_code_heavy h =
    fallback-replacement a ms cfg.code_heavy h
select_model-validate cfg (a ∷ ms) unknown h = fallback-replacement a ms cfg.code h

must_replace-replacement :
    (a : String) (ms : List String) (m : String)
    → is_available (a ∷ ms) "" ≡ false
    → must_replace (a ∷ ms) (replacement (a ∷ ms) m) ≡ false
must_replace-replacement a ms m h = ground (arith, eq_iff a "", eq_refl a)

-- A check of a configuration that was checked before replaces nothing and changes nothing, if no
-- offered model has an empty name.
pub validate-twice :
    (cfg : LlmConfig) (models : List String)
    → is_available models "" ≡ false
    → let once = validate_and_fallback_models models cfg in
      let twice = validate_and_fallback_models models once.validated_config in
      (twice.has_replacements ≡ false) × (twice.validated_config ≡ once.validated_config)
unfolding validate_and_fallback_models
validate-twice cfg [] h = (refl, refl)
validate-twice cfg (a ∷ ms) h =
    let kept = λ (m : String). must_replace-replacement a ms m h in
    simp
      (
        kept cfg.setup,
        kept cfg.planning,
        kept cfg.orchestration,
        kept cfg.code,
        kept cfg.code_heavy,
      )
      (refl, refl)

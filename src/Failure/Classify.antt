-- ===== src/Failure/Classify.antt =====
-- src/core/failure.ts: `classifyFailure` and `classifyFromEnvelope`. The regular expression engine is
-- a parameter.
use multi_agent_build_system.Prelude.{
  ℕ, String, Bool, true, false, ◌&&◌, ◌||◌, not, Option, none, some, ltb, ◌==◌, if◌then◌else◌,
  or_default, last_text, option_eq,
}
use multi_agent_build_system.Failure.{FailureClass, code, auth, quota, infra, config}
use multi_agent_build_system.Failure.Patterns.{
  Pattern, matched, quota_patterns, auth_patterns, config_patterns, environment_patterns,
  infra_patterns,
}

-- What the harness reports of a run. `model_usage` counts the keys of `modelUsage`, and is null when
-- that is no object.
pub record Envelope : Type 0 where
  pub terminal_reason : Option String
  pub model_usage : Option ℕ

-- `reachedAModel`
unfoldable pub reached_a_model : Envelope → Bool
reached_a_model e = ltb 0 (or_default e.model_usage 0)

abbrev pub is_api_error : Option String → Bool
is_api_error reason = option_eq reason (some "api_error")

abbrev is_code : FailureClass → Bool
is_code code = true
is_code _ = false

module _ (regex_test : Pattern → String → Bool) where
  unfoldable pub is_environment_failure : String → Bool
  unfolding matched
  is_environment_failure text = matched regex_test environment_patterns text

  exit_class : Option ℕ → FailureClass
  exit_class none = infra
  exit_class (some n) = if n == 126 || n == 127 then config else code

  unfoldable pub classify_failure : String → Option ℕ → FailureClass
  unfolding exit_class
  classify_failure text exit_code =
      let haystack = last_text 8000 text in
      if matched regex_test quota_patterns haystack
      then quota
      else if matched regex_test auth_patterns haystack
      then auth
      else if matched regex_test config_patterns haystack
      then config
      else if is_environment_failure haystack
      then config
      else if matched regex_test infra_patterns haystack
      then infra
      else exit_class exit_code

  unfoldable pub classify_from_envelope : Envelope → String → Option ℕ → FailureClass
  classify_from_envelope envelope text exit_code =
      let textual = classify_failure text exit_code in
      if not (is_code textual)
      then textual
      else if is_api_error envelope.terminal_reason && not (reached_a_model envelope)
      then infra
      else textual

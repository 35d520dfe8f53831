-- ===== src/Failure/Patterns.antt =====
-- src/core/failure.ts: the pattern tables by which failure text is read. A pattern is the source of a
-- regular expression with its flags `i` and `m`; what it matches is the regular expression engine's
-- business, which the functions that use these tables take as a parameter.
use multi_agent_build_system.Prelude.{String, Bool, true, false, List, [], ◌∷◌, any}

pub record Pattern : Type 0 where
  pub source : String
  pub ignore_case : Bool
  pub multiline : Bool

abbrev re : String → Bool → Bool → Pattern
re s i m = record { source = s; ignore_case = i; multiline = m }

-- `patterns.some((pattern) => pattern.test(haystack))`
unfoldable pub matched : (Pattern → String → Bool) → List Pattern → String → Bool
matched regex_test patterns haystack = any (λ p. regex_test p haystack) patterns

unfoldable pub quota_patterns : List Pattern
quota_patterns =
    re "rate.?limit" true false
    ∷ re "quota" true false
    ∷ re "usage limit" true false
    ∷ re "hit your (?:session|weekly|daily|usage|opus) limit" true false
    ∷ re "too many requests" true false
    ∷ re "\\b429\\b" false false
    ∷ re "overloaded" true false
    ∷ re "capacity" true false
    ∷ re "upgrade to (?:pro|max|plus)" true false
    ∷ []

unfoldable pub auth_patterns : List Pattern
auth_patterns =
    re "unauthor" true false
    ∷ re "authentication" true false
    ∷ re "not logged in" true false
    ∷ re "invalid api key" true false
    ∷ re "credential" true false
    ∷ re "\\b401\\b" false false
    ∷ re "\\b403\\b" false false
    ∷ re "please run .*login" true false
    ∷ []

unfoldable pub config_patterns : List Pattern
config_patterns =
    re "model metadata for .* not found" true false
    ∷ re "(unknown|invalid|unsupported|unrecognized) model" true false
    ∷ re "model .* (not found|does not exist|is not available)" true false
    ∷ re "invalid (argument|option|flag|value)" true false
    ∷ re "unknown (argument|option|flag)" true false
    ∷ re "command not found" true false
    ∷ re "no such file or directory" true false
    ∷ re "\\bENOENT\\b" false false
    ∷ re "executable (?:was )?not found" true false
    ∷ []

unfoldable pub environment_patterns : List Pattern
environment_patterns =
    re "native binary (?:is )?not installed" true false
    ∷ re "binary (?:is )?not installed" true false
    ∷ re "\\bnot installed\\b" true false
    ∷ re "postinstall did not run" true false
    ∷ re "spawn \\S+ ENOENT" true false
    ∷ re "\\bENOENT\\b" false false
    ∷ re "executable (?:was )?not found" true false
    ∷ re "is not recognized as an internal or external command" true false
    ∷ []

unfoldable pub infra_patterns : List Pattern
infra_patterns =
    re "ENOTFOUND|ECONNREFUSED|ECONNRESET|EAI_AGAIN|ETIMEDOUT" false false
    ∷ re "network" true false
    ∷ re "socket hang up" true false
    ∷ re "\\b5\\d\\d\\b (?:error|status)" true false
    ∷ re "internal server error" true false
    ∷ re "ENOSPC|EACCES|EPERM" false false
    ∷ re "permission denied|not permitted|operation not allowed" true false
    ∷ []

unfoldable pub permission_patterns : List Pattern
permission_patterns =
    re "permission denied" true false
    ∷ re "\\bEACCES\\b" false false
    ∷ re "\\bEPERM\\b" false false
    ∷ re "not permitted" true false
    ∷ re "requires approval" true false
    ∷ re "operation not allowed" true false
    ∷ re "refus(?:ed|ing) to run" true false
    ∷ []

unfoldable pub tool_missing_patterns : List Pattern
tool_missing_patterns =
    re "command not found" true false
    ∷ re ": not found\\b" true false
    ∷ re "\\bENOENT\\b" false false
    ∷ re "no such file or directory" true false
    ∷ re "is not recognized as an internal or external command" true false
    ∷ re "executable (?:was )?not found" true false
    ∷ []

unfoldable pub product_code_patterns : List Pattern
product_code_patterns =
    re "\\berror TS\\d+\\b" false false
    ∷ re "^\\s*(?:FAIL|FAILED)\\s+\\S+" false true
    ∷ re "\\b\\d+:\\d+\\s+error\\b" true false
    ∷ re "\\b\\d+ errors?\\b" true false
    ∷ re "AssertionError" false false
    ∷ re "\\bassert(?:ion)? failed\\b" true false
    ∷ re "Expected .* to (?:equal|be|deepEqual)" true false
    ∷ re "^\\s*not ok \\d+" false true
    ∷ re "\\bfail \\d+\\b" false false
    ∷ re "\\bSyntaxError\\b" false false
    ∷ re "\\bTypeError\\b" false false
    ∷ re "\\d+ (?:failed|failing)\\b" true false
    ∷ []

-- ===== src/Plan/Fragments.antt =====
-- src/domain/plan.ts: `testOrDocPath` and `fragmentationWarnings`. A path is the list of its code points,
-- and the regular expressions are written out.
use multi_agent_build_system.Prelude.{
  ℕ, ◌+◌, String, Bool, ◌&&◌, ◌||◌, not, Option, some, List, [], ◌∷◌, ◌++◌, map, str_eq, leb, ◌==◌,
  if◌then◌else◌, is_some, or_default, length, is_empty, any, all, filter, when, codes, option_eq,
}
use multi_agent_build_system.Plan.Draft.{
  PlannedTask, ExecutionPlan, PlanWarning, only_tests_or_docs, strict_chain,
}
use multi_agent_build_system.Plan.Checks.{segments}
use multi_agent_build_system.Scheduling.Scope.{slashes, drop_dot_slash, path_eq, has_prefix}

-- `.replace(/\/+$/, "")`
unfoldable pub drop_end_slashes : List ℕ → List ℕ
drop_end_slashes [] = []
drop_end_slashes (c ∷ cs) =
    let rest = drop_end_slashes cs in if c == 47 && is_empty rest then [] else c ∷ rest

-- `xs.at(-1) ?? ""`
abbrev last_segment : List (List ℕ) → List ℕ
last_segment [] = []
last_segment (x ∷ []) = x
last_segment (x ∷ y ∷ xs) = last_segment (y ∷ xs)

-- Some end of the path passes the test.
any_end : (List ℕ → Bool) → List ℕ → Bool
any_end p [] = p []
any_end p (c ∷ cs) = p (c ∷ cs) || any_end p cs

abbrev drop_codes : List ℕ → List ℕ → List ℕ
drop_codes [] cs = cs
drop_codes (p ∷ ps) [] = []
drop_codes (p ∷ ps) (c ∷ cs) = drop_codes ps cs

-- `/^\.test\.[^.]+$/`, with the word that is given
abbrev is_infix_end : String → List ℕ → Bool
is_infix_end word cs =
    has_prefix cs (codes word)
    && not (is_empty (drop_codes (codes word) cs))
    && all (λ c. not (c == 46)) (drop_codes (codes word) cs)

-- A letter under the flag `i`
abbrev lower_code : ℕ → ℕ
lower_code c = if leb 65 c && leb c 90 then c + 32 else c

-- `/^readme(\.|$)/i`
abbrev is_readme : List ℕ → Bool
is_readme name =
    let low = map lower_code name in
    path_eq low (codes "readme") || has_prefix low (codes "readme.")

-- `/\.(md|rst|adoc)$/i`
has_doc_ending : List ℕ → Bool
unfolding any_end path_eq
has_doc_ending name =
    any_end
      (λ cs. path_eq cs (codes ".md") || path_eq cs (codes ".rst") || path_eq cs (codes ".adoc"))
      (map lower_code name)

abbrev test_or_doc_words : List String
test_or_doc_words = "test" ∷ "tests" ∷ "__tests__" ∷ "spec" ∷ "specs" ∷ "doc" ∷ "docs" ∷ []

unfoldable pub test_or_doc_path : List ℕ → Bool
unfolding slashes drop_dot_slash drop_end_slashes segments has_prefix path_eq any_end has_doc_ending
test_or_doc_path scope =
    let parts = segments (drop_end_slashes (drop_dot_slash (slashes scope))) in
    let name = last_segment parts in
    any (λ part. any (λ word. path_eq (codes word) part) test_or_doc_words) parts
    || any_end (λ cs. is_infix_end ".test." cs || is_infix_end ".spec." cs) name
    || is_readme name
    || has_doc_ending name

abbrev count : List String → String → ℕ
count xs x = length (filter (λ y. str_eq y x) xs)

abbrev is_word : Option String → String → Bool
is_word value word = option_eq value (some word)

abbrev is_small : PlannedTask → Bool
is_small t =
    (not (is_some t.task_class)
      || is_word t.task_class "small_implementation"
      || is_word t.task_class "mechanical")
    && not (is_word t.complexity "high")
    && not (is_word t.context_size "high")
    && not (str_eq t.execution_mode "parallel")

module _ (plan : ExecutionPlan) (deps : String → List String) (keys : List String) where
  abbrev adds_only_tests : PlannedTask → Bool
  adds_only_tests t =
      let scope = or_default t.allowed_scope [] in
      not (is_empty scope)
      && not (is_empty (deps t.key))
      && all (λ s. test_or_doc_path (codes s)) scope

  test_warnings : List PlannedTask → List PlanWarning
  unfolding test_or_doc_path
  test_warnings [] = []
  test_warnings (t ∷ ts) =
      when (adds_only_tests t) (only_tests_or_docs t.key (deps t.key)) ++ test_warnings ts

  -- The dependencies of all tasks, one after the other: `dependents` counts how often each occurs.
  all_deps : List String → List String
  all_deps [] = []
  all_deps (k ∷ ks) = deps k ++ all_deps ks

  abbrev is_chain : Bool
  is_chain =
      length (filter (λ t. is_empty (deps t.key)) plan.tasks) == 1
      && all (λ t. leb (length (deps t.key)) 1) plan.tasks
      && all (λ d. count (all_deps keys) d == 1) (all_deps keys)

  unfoldable pub fragmentation_warnings : List PlanWarning
  unfolding test_warnings all_deps
  fragmentation_warnings =
      test_warnings plan.tasks
      ++ when
          (leb 3 (length plan.tasks)
            && not (str_eq plan.mode "parallel")
            && all is_small plan.tasks
            && is_chain)
          (strict_chain (length plan.tasks))

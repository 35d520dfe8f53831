-- ===== src/Prelude/Text.antt =====
-- Text as the source handles it: `trim`, `slice`, `split`, comparison with null, `includes`.
-- A text is a list of code points. JavaScript counts UTF-16 units, which differ beyond the basic plane.
use Prim.Native.Nat.{ℕ, zero, suc, ◌+◌, ◌-◌, ◌/◌, ◌%◌}
use Prim.Native.Char.{code}
use Prim.Native.String.{String, ◌++◌ as str_append}
use mathlib.Core.Path.{◌≡◌}
use mathlib.Core.Logic.{◌↔◌, inl, inr}
use mathlib.Core.Bool.{Bool, true, false, ◌&&◌, ◌||◌}
use mathlib.Core.Option.{Option, none, some}
use mathlib.Core.List.{List, [], ◌∷◌}
use native.Mathlib.Omega.{arith}
use text.Mathlib.Text.{◌==◌ as str_eq}
use text.Mathlib.TextEquality.{eq_iff}
use multi_agent_build_system.Prelude.Tests.{ltb, leb, ◌==◌, if◌then◌else◌, Bool-cases}
use multi_agent_build_system.Prelude.Lists.{any}

-- WhiteSpace and LineTerminator of ECMAScript, which `String.prototype.trim` removes.
abbrev pub is_space : ℕ → Bool
is_space c =
    (leb 9 c && leb c 13)
    || c == 32
    || c == 160
    || c == 5760
    || (leb 8192 c && leb c 8202)
    || c == 8232
    || c == 8233
    || c == 8239
    || c == 8287
    || c == 12288
    || c == 65279

-- The code points of a text.
abbrev pub codes : String → List ℕ
codes String.[] = []
codes (String.◌∷◌ c s) = code c ∷ codes s

-- `!s.trim()`
unfoldable pub is_blank : String → Bool
is_blank String.[] = true
is_blank (String.◌∷◌ c s) = is_space (code c) && is_blank s

-- Adds the characters of the first text, last first, in front of the second.
reverse_onto : String → String → String
reverse_onto String.[] t = t
reverse_onto (String.◌∷◌ c s) t = reverse_onto s (String.◌∷◌ c t)

-- `s + t`
unfoldable pub concat_text : String → String → String
concat_text String.[] t = t
concat_text (String.◌∷◌ c s) t = String.◌∷◌ c (concat_text s t)

abbrev digits : List String
digits = "0" ∷ "1" ∷ "2" ∷ "3" ∷ "4" ∷ "5" ∷ "6" ∷ "7" ∷ "8" ∷ "9" ∷ []

digit : ℕ → List String → String
digit n [] = ""
digit zero (x ∷ xs) = x
digit (suc n) (x ∷ xs) = digit n xs

decimal_on : ℕ → ℕ → String
unfolding digit concat_text
decimal_on zero n = ""
decimal_on (suc fuel) n =
    let rest = decimal_on fuel (n / 10) in
    concat_text (if ltb n 10 then "" else rest) (digit (n % 10) digits)

-- `${n}`; a number has no more digits than its value and one.
unfoldable pub decimal : ℕ → String
unfolding decimal_on
decimal n = decimal_on (n + 1) n

trim_start : String → String
trim_start String.[] = ""
trim_start (String.◌∷◌ c s) =
    let rest = trim_start s in if is_space (code c) then rest else String.◌∷◌ c s

-- `s.trim()`
unfoldable pub trim : String → String
unfolding trim_start reverse_onto
trim s = reverse_onto (trim_start (reverse_onto (trim_start s) "")) ""

-- `s.slice(0, n)`
unfoldable pub take_text : ℕ → String → String
take_text zero s = ""
take_text (suc n) String.[] = ""
take_text (suc n) (String.◌∷◌ c s) = String.◌∷◌ c (take_text n s)

drop_text : ℕ → String → String
drop_text zero s = s
drop_text (suc n) String.[] = ""
drop_text (suc n) (String.◌∷◌ c s) = drop_text n s

text_length : String → ℕ
text_length String.[] = 0
text_length (String.◌∷◌ c s) = suc (text_length s)

-- `s.slice(-n)`, for n > 0
unfoldable pub last_text : ℕ → String → String
unfolding drop_text text_length
last_text n s = drop_text (text_length s - n) s

split_from : ℕ → String → String → List String
unfolding reverse_onto
split_from sep cur String.[] = reverse_onto cur "" ∷ []
split_from sep cur (String.◌∷◌ c s) = elim (code c == sep) [
  | true ↦ reverse_onto cur "" ∷ split_from sep "" s
  | false ↦ split_from sep (String.◌∷◌ c cur) s
]

-- `s.split(c)`, for a separator of one character
unfoldable pub split_text : ℕ → String → List String
unfolding split_from
split_text sep s = split_from sep "" s

-- `s.replaceAll("\\", "/")`
unfoldable pub slash_text : String → String
slash_text String.[] = ""
slash_text (String.◌∷◌ c s) = elim (code c == 92) [
  | true ↦ str_append "/" (slash_text s)
  | false ↦ String.◌∷◌ c (slash_text s)
]

-- `a === b` where both may be null
abbrev pub option_eq : Option String → Option String → Bool
option_eq none none = true
option_eq none (some b) = false
option_eq (some a) none = false
option_eq (some a) (some b) = str_eq a b

pub option_eq_iff : (a b : Option String) → (option_eq a b ≡ true) ↔ (a ≡ b)
option_eq_iff none none = ground arith
option_eq_iff none (some b) = ground arith
option_eq_iff (some a) none = ground arith
option_eq_iff (some a) (some b) = ground (arith, eq_iff a b)

-- `xs.includes(x)`
abbrev pub includes : List String → String → Bool
includes xs x = any (λ y. str_eq y x) xs

-- `[...new Set(xs)]`, less the keys that were seen
unfoldable pub unique_beside : List String → List String → List String
unique_beside seen [] = []
unique_beside seen (x ∷ xs) =
    let rest = unique_beside seen xs in
    let more = unique_beside (x ∷ seen) xs in if includes seen x then rest else x ∷ more

abbrev pub unique : List String → List String
unique xs = unique_beside [] xs

pub String-discrete : Discrete String
String-discrete a b = elim (Bool-cases (str_eq a b)) [
  | inl same ↦ yes ((eq_iff a b).0 same)
  | inr differs ↦ no (λ e. ground (arith, eq_iff a b))
]

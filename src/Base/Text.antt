-- ===== src/Base/Text.antt =====
-- Text: `trim`, template literals and comparison, as JavaScript's strings give them.
pub mod Trim
use Prim.Native.Nat.{ℕ, compare, Ordering}
use Prim.Native.Char.{Char, code}
use Prim.Native.String.{String}
use Prim.Native.String
use mathlib.Core.Bool.{Bool, true, false, ◌&&◌, ◌||◌}
use mathlib.Core.Option.{Option, none, some}
use mathlib.Core.List.{List, [], ◌∷◌}
use text.Mathlib.Text.{◌==◌ as str_eq}
use gambling.Base.Tests.{leb, if◌then◌else◌}

-- `===` on texts, and on the literal types that are written as texts.
infix 50 ◌==◌
abbrev pub ◌==◌ : String → String → Bool
s == t = str_eq s t

abbrev same_code : ℕ → ℕ → Bool
same_code a b = elim (compare a b) [ Ordering.eq ↦ true | _ ↦ false ]

-- The characters that `trim` strips: ECMAScript's WhiteSpace and LineTerminator.
unfoldable pub is_space : ℕ → Bool
is_space c =
    (leb 9 c && leb c 13)
    || same_code c 0x20
    || same_code c 0xA0
    || same_code c 0x1680
    || (leb 0x2000 c && leb c 0x200A)
    || same_code c 0x2028
    || same_code c 0x2029
    || same_code c 0x202F
    || same_code c 0x205F
    || same_code c 0x3000
    || same_code c 0xFEFF

-- `!text`
abbrev pub is_empty : String → Bool
is_empty String.[] = true
is_empty (String.◌∷◌ c s) = false

trim_start : String → String
trim_start String.[] = String.[]
trim_start (String.◌∷◌ c s) =
    let rest = trim_start s in if is_space (code c) then rest else String.◌∷◌ c s

-- `c` in front of what is left of the text behind it
abbrev keep_end : Char → String → String
keep_end c rest = if is_space (code c) && is_empty rest then String.[] else String.◌∷◌ c rest

trim_end : String → String
trim_end String.[] = String.[]
trim_end (String.◌∷◌ c s) = keep_end c (trim_end s)

unfoldable pub trim : String → String
unfolding trim_start trim_end
trim s = trim_end (trim_start s)

-- A template literal is the texts of its parts, joined.
unfoldable pub template : List String → String
template [] = ""
template (s ∷ parts) = String.◌++◌ s (template parts)

-- `/^[A-Z]$/` on one character
abbrev pub is_capital : ℕ → Bool
is_capital c = leb b'A' c && leb c b'Z'

-- `/^[A-Z]{3}$/`
unfoldable pub is_currency : String → Bool
is_currency (String.◌∷◌ a (String.◌∷◌ b (String.◌∷◌ c String.[]))) =
    is_capital (code a) && is_capital (code b) && is_capital (code c)
is_currency s = false

-- `x ? x : null` at a text
abbrev pub non_empty : String → Option String
non_empty s = if is_empty s then none else some s

-- `value?.trim()`, kept only where it is not empty; also `normalizeOptionalText`
unfoldable pub trim_option : Option String → Option String
trim_option none = none
trim_option (some s) = non_empty (trim s)

-- `text.includes(part)`
is_prefix : String → String → Bool
is_prefix String.[] s = true
is_prefix (String.◌∷◌ c part) String.[] = false
is_prefix (String.◌∷◌ c part) (String.◌∷◌ d s) = same_code (code c) (code d) && is_prefix part s

unfoldable pub includes : String → String → Bool
unfolding is_prefix
includes String.[] part = is_prefix part String.[]
includes (String.◌∷◌ c s) part = is_prefix part (String.◌∷◌ c s) || includes s part

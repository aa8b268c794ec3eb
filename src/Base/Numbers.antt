-- ===== src/Base/Numbers.antt =====
-- JavaScript's numbers, as far as the code looks into them.
use Prim.Native.Nat.{ℕ, zero, suc, ◌/◌, ◌%◌}
use Prim.Native.String.{String}
use Prim.Native.String
use gambling.Base.Tests.{leb, if◌then◌else◌}
use mathlib.Core.Bool.{Bool, true, false}
use mathlib.Core.Option.{Option, none, some}
use mathlib.Core.List.{List, [], ◌∷◌}
use gambling.Base.Int.{ℤ, pos, negsuc}

-- `fractional s n` is a number strictly between two integers, below 0 if `s` is true, with `n` for
-- the whole part of its absolute value. Integers are exact: rounding past 2^53 is left out.
pub data Number : Type 0 where
  nan : Number
  infinite : Bool → Number
  integer : ℤ → Number
  fractional : Bool → ℕ → Number

abbrev negate : ℕ → ℤ
negate zero = pos 0
negate (suc n) = negsuc n

-- `Math.trunc`, or `none` where its result is not finite
abbrev pub trunc : Number → Option ℤ
trunc nan = none
trunc (infinite s) = none
trunc (integer z) = some z
trunc (fractional false n) = some (pos n)
trunc (fractional true n) = some (negate n)

-- the text at a position
text_at : List String → ℕ → String
text_at [] n = ""
text_at (s ∷ texts) zero = s
text_at (s ∷ texts) (suc n) = text_at texts n

digit_text : ℕ → String
unfolding text_at
digit_text n = text_at ("0" ∷ "1" ∷ "2" ∷ "3" ∷ "4" ∷ "5" ∷ "6" ∷ "7" ∷ "8" ∷ "9" ∷ []) n

-- the decimal digits of a number, in front of those that are already written; a number has no more
-- digits than itself and one
digits_text : ℕ → ℕ → String → String
unfolding digit_text
digits_text zero n written = written
digits_text (suc fuel) n written =
    let text = String.◌++◌ (digit_text (n % 10)) written in
    let rest = digits_text fuel (n / 10) text in if leb n 9 then text else rest

-- an integer in a template literal
unfoldable pub integer_text : ℤ → String
unfolding digits_text
integer_text (pos n) = digits_text (suc n) n ""
integer_text (negsuc n) = String.◌++◌ "-" (digits_text (suc (suc n)) (suc n) "")

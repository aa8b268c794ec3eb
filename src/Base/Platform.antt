-- ===== src/Base/Platform.antt =====
-- What the code takes from the JavaScript engine: case mapping, dates and collation follow
-- Unicode tables, date grammars and locales, so they are parameters with the documented laws.
use Prim.Native.Nat.{Ordering}
use Prim.Native.String.{String}
use mathlib.Core.Path.{◌≡◌, refl}
use mathlib.Core.Bool.{Bool, true, false, not, ◌&&◌, ◌||◌}
use mathlib.Core.Option.{Option, some}
use gambling.Base.Tests.{is_some, if◌then◌else◌}
use gambling.Base.Text.{is_currency, is_empty, trim, template}
use mathlib.Core.List.{[], ◌∷◌}
use native.Mathlib.Omega.{arith}
use gambling.Base.Text.Trim.{trim_idem}
use gambling.Base.Int.{ℤ, pos, negsuc, leb_ℤ}
use gambling.Base.Errors.{ErrorClass, Result, ok, throw, range_error}
use gambling.Base.Sort.{IsConsistent}

pub record Platform : Type 0 where
  pub to_lower_case : String → String
  pub to_upper_case : String → String
  -- `Date.parse` in milliseconds, with `none` for NaN
  pub date_parse : String → Option ℤ
  -- `new Date(t).toISOString()` at a valid time value
  pub to_iso_string : ℤ → String
  pub locale_compare : String → String → Ordering

-- A time value is at most 8.64e15 milliseconds from 1970.
abbrev pub is_time_value : ℤ → Bool
is_time_value t = leb_ℤ (negsuc 8639999999999999) t && leb_ℤ t (pos 8640000000000000)

-- `new Date(t).toISOString()`
unfoldable pub iso_string : Platform → ℤ → Result String
iso_string p t =
    if is_time_value t then ok (p.to_iso_string t) else throw range_error "Invalid time value"

pub record IsLawful (p : Platform) : Type 0 where
  -- capital ASCII letters are their own upper case
  pub to_upper_case_fixed : (s : String) → is_currency s ≡ true → p.to_upper_case s ≡ s
  -- a parsed date is a time value, and its ISO text is parsed back to it
  pub date_parse_range : (s : String) (t : ℤ) → p.date_parse s ≡ some t → is_time_value t ≡ true
  pub date_parse-to_iso_string :
      (s : String) (t : ℤ) → p.date_parse s ≡ some t → p.date_parse (p.to_iso_string t) ≡ some t
  -- collation is a total preorder
  pub locale_compare-IsConsistent : IsConsistent (λ s. Unit {0}) p.locale_compare

-- The two checks that every file of the domain repeats, with its own class of error.
unfoldable pub require_text : ErrorClass → String → String → Result String
require_text c value field =
    let normalized = trim value in
    if is_empty normalized then throw c (template (field ∷ " is required" ∷ [])) else ok normalized

-- `Number.isNaN(Date.parse(text))`
abbrev pub is_nan_date : Platform → String → Bool
is_nan_date p s = not (is_some (p.date_parse s))

unfoldable pub require_date : Platform → ErrorClass → String → String → Result String
require_date p c value field =
    let normalized = trim value in
    if is_empty normalized || is_nan_date p normalized
    then throw c (template (field ∷ " must be a valid ISO date string" ∷ []))
    else ok normalized

-- What a text that passed these checks is like: trimmed, not empty, and a date.
pub require_text-eq_ok :
    (c : ErrorClass) (value field s : String)
    → require_text c value field ≡ ok s
    → (s ≡ trim value) × (is_empty s ≡ false)
unfolding require_text
require_text-eq_ok c value field s h = ground arith

pub require_date-eq_ok :
    (p : Platform) (c : ErrorClass) (value field s : String)
    → require_date p c value field ≡ ok s
    → (s ≡ trim value) × (is_empty s ≡ false) × (is_nan_date p s ≡ false)
unfolding require_date
require_date-eq_ok p c value field s h = ground arith

-- A text that passed these checks passes them again unchanged.
pub require_text_idem :
    (c : ErrorClass) (value field s : String)
    → require_text c value field ≡ ok s
    → require_text c s field ≡ ok s
unfolding require_text
require_text_idem c value field s h =
    let (named, filled) = require_text-eq_ok c value field s h in
    let same : trim s ≡ s = rw named (trim_idem value) in rw (same, filled) refl

pub require_date_idem :
    (p : Platform) (c : ErrorClass) (value field s : String)
    → require_date p c value field ≡ ok s
    → require_date p c s field ≡ ok s
unfolding require_date
require_date_idem p c value field s h =
    let (named, filled, readable) = require_date-eq_ok p c value field s h in
    let same : trim s ≡ s = rw named (trim_idem value) in rw (same, filled, readable) refl

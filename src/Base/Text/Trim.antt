-- ===== src/Base/Text/Trim.antt =====
-- `trim` is idempotent, also where it keeps only a text that is not empty.
use Prim.Native.Nat.{ℕ}
use Prim.Native.Char.{Char, code}
use Prim.Native.String.{String}
use mathlib.Core.Path.{◌≡◌, refl, ap, ◌∙◌}
use Prim.Native.String.append
use Prim.Native.String
use mathlib.Core.List.{[], ◌∷◌}
use mathlib.Core.Logic.{inl, inr}
use mathlib.Core.Bool.{Bool, true, false, not, ◌&&◌}
use mathlib.Core.Option.{Option, none, some}
use native.Mathlib.Omega.{arith}
use gambling.Base.Tests.{Bool-cases}
use gambling.Base.Text.{
  is_space, is_empty, trim_start, keep_end, trim_end, trim, is_capital, is_currency, trim_option,
  template,
}

-- The text is empty or begins with a character that `trim` keeps.
abbrev pub starts_clean : String → Bool
starts_clean String.[] = true
starts_clean (String.◌∷◌ c s) = not (is_space (code c))

trim_start-starts_clean : (s : String) → starts_clean (trim_start s) ≡ true
unfolding trim_start
trim_start-starts_clean String.[] = refl
trim_start-starts_clean (String.◌∷◌ c s) = ground (arith, trim_start-starts_clean s)

trim_start_of_clean : (s : String) → starts_clean s ≡ true → trim_start s ≡ s
unfolding trim_start
trim_start_of_clean String.[] h = refl
trim_start_of_clean (String.◌∷◌ c s) h = ground arith

trim_end-starts_clean : (s : String) → starts_clean s ≡ true → starts_clean (trim_end s) ≡ true
unfolding trim_end
trim_end-starts_clean String.[] h = refl
trim_end-starts_clean (String.◌∷◌ c s) h = ground arith

keep_end_idem :
    (c : Char) (rest : String) → trim_end rest ≡ rest → trim_end (keep_end c rest) ≡ keep_end c rest
unfolding trim_end
keep_end_idem c rest h = elim (Bool-cases (is_space (code c) && is_empty rest)) [
  | inl e ↦ rw e
  | inr e ↦ rw e (rw h (rw e))
]

trim_end_idem : (s : String) → trim_end (trim_end s) ≡ trim_end s
unfolding trim_end
trim_end_idem String.[] = refl
trim_end_idem (String.◌∷◌ c s) = keep_end_idem c (trim_end s) (trim_end_idem s)

pub trim_idem : (s : String) → trim (trim s) ≡ trim s
unfolding trim
trim_idem s =
    let clean = trim_end-starts_clean (trim_start s) (trim_start-starts_clean s) in
    rw (trim_start_of_clean (trim_end (trim_start s)) clean) (trim_end_idem (trim_start s))

capital_kept : (n : ℕ) → is_capital n ≡ true → is_space n ≡ false
unfolding is_space
capital_kept n h = ground arith

-- A currency code has no white space to strip.
pub trim_of_currency : (s : String) → is_currency s ≡ true → trim s ≡ s
unfolding trim is_currency
trim_of_currency (String.◌∷◌ a (String.◌∷◌ b (String.◌∷◌ c String.[]))) h =
    ground (arith, capital_kept (code a), capital_kept (code b), capital_kept (code c))
trim_of_currency s h = cc

pub trim_option_idem : (o : Option String) → trim_option (trim_option o) ≡ trim_option o
unfolding trim_option
trim_option_idem none = refl
trim_option_idem (some s) = elim (Bool-cases (is_empty (trim s))) [
  | inl e ↦ rw e
  | inr e ↦ rw e (rw (trim_idem s) (rw e))
]

append_nil : (s : String) → String.◌++◌ s "" ≡ s
append_nil String.[] = append.nil ""
append_nil (String.◌∷◌ c s) = rw (append.cons c s "") (ap (String.◌∷◌ c) (append_nil s))

trim_end-trim : (s : String) → trim_end (trim s) ≡ trim s
unfolding trim
trim_end-trim s = trim_end_idem (trim_start s)

-- No character of the text is stripped by `trim`.
abbrev pub has_no_space : String → Bool
has_no_space String.[] = true
has_no_space (String.◌∷◌ c s) = not (is_space (code c)) && has_no_space s

both : (a b : Bool) → (a && b) ≡ true → (a ≡ true) × (b ≡ true)
both a b h = ground arith

trim_end-append :
    (q t : String) → has_no_space q ≡ true → trim_end (String.◌++◌ q t) ≡ String.◌++◌ q (trim_end t)
unfolding trim_end
trim_end-append String.[] t h = rw (append.nil t, append.nil (trim_end t)) refl
trim_end-append (String.◌∷◌ c q) t h =
    let (first, others) = both (not (is_space (code c))) (has_no_space q) h in
    let kept : is_space (code c) ≡ false = ground arith in
    rw (append.cons c q t, append.cons c q (trim_end t), kept)
      (ap (String.◌∷◌ c) (trim_end-append q t others))

starts_clean-append :
    (q t : String)
    → is_empty q ≡ false
    → starts_clean q ≡ true
    → starts_clean (String.◌++◌ q t) ≡ true
starts_clean-append String.[] t h k = cc
starts_clean-append (String.◌∷◌ c q) t h k = rw (append.cons c q t) k

-- A prefix without white space leaves a trimmed text trimmed.
pub trim_of_prefix :
    (q s : String)
    → is_empty q ≡ false
    → starts_clean q ≡ true
    → has_no_space q ≡ true
    → trim (template (q ∷ trim s ∷ [])) ≡ template (q ∷ trim s ∷ [])
unfolding template trim
trim_of_prefix q s filled clean free = rw (append_nil (trim_end (trim_start s))) (
    rw
      (trim_start_of_clean (String.◌++◌ q (trim_end (trim_start s)))
        (starts_clean-append q (trim_end (trim_start s)) filled clean))
      (trim_end-append q (trim_end (trim_start s)) free
        ∙ ap (String.◌++◌ q) (trim_end_idem (trim_start s))))

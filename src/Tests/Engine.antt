-- ===== src/Tests/Engine.antt =====
-- A small JavaScript engine for the tests: it reads two dates and compares texts by their length.
use Prim.Native.Nat.{Ordering, compare}
use gambling.Base.{
  ℕ, suc, ◌≡◌, refl, String, Bool, true, false, Option, none, some, ◌==◌, if◌then◌else◌, arith, ◌⊎◌,
  inl, inr,
}
use gambling.Base.Int.{ℤ, pos, leb_ℤ}
use gambling.Base.Sort.{is_after}
use gambling.Base.Platform.{Platform, IsLawful, is_time_value}

abbrev pub first_day : String
first_day = "2026-01-01T00:00:00.000Z"

abbrev pub second_day : String
second_day = "2026-01-02T00:00:00.000Z"

abbrev parse : String → Option ℤ
parse s =
    if s == first_day
    then some (pos 1767225600000)
    else if s == second_day
    then some (pos 1767312000000)
    else none

abbrev text_length : String → ℕ
text_length String.[] = 0
text_length (String.◌∷◌ c s) = suc (text_length s)

abbrev is_first : ℤ → Bool
is_first z = leb_ℤ z (pos 1767225600000)

abbrev print : ℤ → String
print z = if is_first z then first_day else second_day

abbrev compare_lengths : String → String → Ordering
compare_lengths s t = compare (text_length s) (text_length t)

abbrev pub engine : Platform
engine = record {
  to_lower_case = λ s. s;
  to_upper_case = λ s. s;
  date_parse = parse;
  to_iso_string = print;
  locale_compare = compare_lengths;
}

parse_range : (s : String) (t : ℤ) → parse s ≡ some t → is_time_value t ≡ true
parse_range s t h = ground arith

parse_cases :
    (s : String) (t : ℤ) → parse s ≡ some t → (t ≡ pos 1767225600000) ⊎ (t ≡ pos 1767312000000)
parse_cases s t h = ground arith

parse-print : (s : String) (t : ℤ) → parse s ≡ some t → parse (print t) ≡ some t
parse-print s t h = elim (parse_cases s t h) [ inl e ↦ rw e refl | inr e ↦ rw e refl ]

lengths_total :
    (s t : String) → is_after (compare_lengths s t) ≡ true → is_after (compare_lengths t s) ≡ false
lengths_total s t h = ground arith

lengths_trans :
    (s t u : String)
    → is_after (compare_lengths s t) ≡ false
    → is_after (compare_lengths t u) ≡ false
    → is_after (compare_lengths s u) ≡ false
lengths_trans s t u h k = ground arith

pub engine-IsLawful : IsLawful engine
engine-IsLawful = record {
  to_upper_case_fixed = λ s h. refl;
  date_parse_range = parse_range;
  date_parse-to_iso_string = parse-print;
  locale_compare-IsConsistent = record {
    total = λ s t _ _ h. lengths_total s t h;
    trans = λ s t u _ _ _ h k. lengths_trans s t u h k;
  };
}

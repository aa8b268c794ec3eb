-- ===== src/Application/Store/Draws.antt =====
-- The stores of canonical draws
-- (packages/infrastructure/src/purchase/in-memory-canonical-draw-store.ts) and of closure records
-- (packages/infrastructure/src/draw/in-memory-draw-closure-store.ts).
use Prim.Native.Nat.{Ordering}
use gambling.Base.{
  String, Bool, true, not, ◌&&◌, Option, none, some, List, [], ◌∷◌, ◌++◌, ◌==◌, trim, is_empty,
  ◌||◌, if◌then◌else◌,
}
use gambling.Base.Lists.{find, keep}
use gambling.Base.Sort.{sort, or_next}
use gambling.Base.Platform.{Platform}
use gambling.Domain.Draw.Canonical.{CanonicalDrawRecord}
use gambling.Domain.Draw.Closure.{DrawClosureRecord}

abbrev pub Draws : Type 0
Draws = List CanonicalDrawRecord

-- `compareRecords`
abbrev compare_draws : Platform → CanonicalDrawRecord → CanonicalDrawRecord → Ordering
compare_draws p l r = or_next (p.locale_compare l.draw_at r.draw_at) (
    or_next (p.locale_compare l.lottery_code r.lottery_code) (p.locale_compare l.draw_id r.draw_id))

-- no code, and an empty one, stand for every lottery
abbrev matches : Platform → Option String → CanonicalDrawRecord → Bool
matches p none d = true
matches p (some code) d =
    let normalized = p.to_lower_case (trim code) in
    is_empty normalized || d.lottery_code == normalized

unfoldable pub list_draws : Platform → Draws → Option String → List CanonicalDrawRecord
list_draws p store lottery_code = sort (compare_draws p) (keep (matches p lottery_code) store)

unfoldable pub get_draw : Platform → Draws → String → String → Option CanonicalDrawRecord
get_draw p store lottery_code draw_id =
    find (λ e. e.lottery_code == p.to_lower_case (trim lottery_code) && e.draw_id == trim draw_id)
      store

unfoldable pub save_draw : Draws → CanonicalDrawRecord → Draws
save_draw store d =
    keep (λ e. not (e.lottery_code == d.lottery_code && e.draw_id == d.draw_id)) store ++ d ∷ []

unfoldable pub delete_draw : Platform → Draws → String → String → Draws
delete_draw p store lottery_code draw_id =
    keep
      (λ e.
        not (e.lottery_code == p.to_lower_case (trim lottery_code) && e.draw_id == trim draw_id))
      store

unfoldable pub clear_draws : Draws → Draws
clear_draws store = []

abbrev pub Closures : Type 0
Closures = List DrawClosureRecord

unfoldable pub get_closure : Closures → String → String → Option DrawClosureRecord
get_closure store lottery_code draw_id =
    find (λ c. c.lottery_code == lottery_code && c.draw_id == draw_id) store

unfoldable pub save_closure : Closures → DrawClosureRecord → Closures
save_closure store r =
    keep (λ c. not (c.lottery_code == r.lottery_code && c.draw_id == r.draw_id)) store ++ r ∷ []

unfoldable pub list_closures : Closures → Option String → List DrawClosureRecord
list_closures store none = store
list_closures store (some code) =
    if is_empty code then store else keep (λ c. c.lottery_code == code) store

unfoldable pub delete_closure : Closures → String → String → Closures
delete_closure store lottery_code draw_id =
    keep (λ c. not (c.lottery_code == lottery_code && c.draw_id == draw_id)) store

unfoldable pub clear_closures : Closures → Closures
clear_closures store = []

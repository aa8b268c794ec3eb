-- ===== src/Domain/Catalog/LotteryRegistry.antt =====
-- The registry of lotteries and its order (packages/domain/src/lottery-registry.ts).
use Prim.Native.Nat.{Ordering, compare}
use mathlib.Core.List.{Perm}
use gambling.Base.{
  ◌+◌, ◌≡◌, String, Bool, true, false, not, ◌&&◌, Option, List, [], ◌∷◌, trim, is_empty, Number,
  arith,
}
use gambling.Base.Int.{ℤ, pos_part, neg_part}
use gambling.Base.Sort.{
  IsConsistent, is_after, sort, sort-perm, IsSorted, sort-IsSorted, sort_of_IsSorted, or_next,
}
use gambling.Base.Lists.{All}
use gambling.Base.Platform.{Platform, IsLawful}
use gambling.Domain.Draw.Availability.{FreshnessMode}

pub record LotteryHandlerBinding : Type 0 where
  pub purchase_handler : String
  pub result_handler : String

pub data LotteryPricingStrategy : Type 0 where
  fixed matrix formula : LotteryPricingStrategy

pub record LotteryPricingRule : Type 0 where
  pub strategy : LotteryPricingStrategy
  pub base_amount_minor : Number

pub data LotteryFormFieldType : Type 0 where
  text number select : LotteryFormFieldType

pub record LotteryFormFieldOption : Type 0 where
  pub value : String
  pub label : String

-- `defaultValue`, a text or a number
pub data DefaultValue : Type 0 where
  of_text : String → DefaultValue
  of_number : Number → DefaultValue

pub record LotteryFormFieldDefinition : Type 0 where
  pub field_key : String
  pub label : String
  pub type : LotteryFormFieldType
  pub required : Bool
  pub placeholder : Option String
  pub min : Option Number
  pub max : Option Number
  pub step : Option Number
  pub default_value : Option DefaultValue
  pub options : Option (List LotteryFormFieldOption)

pub data LotteryPurchaseCompletionMode : Type 0 where
  direct emulate_after_cart : LotteryPurchaseCompletionMode

abbrev pub LotteryDrawFreshnessMode : Type 0
LotteryDrawFreshnessMode = FreshnessMode

pub record LotteryRegistryEntry : Type 0 where
  pub lottery_code : String
  pub title : String
  pub enabled : Bool
  pub display_order : ℤ
  pub form_schema_version : String
  pub form_fields : List LotteryFormFieldDefinition
  pub pricing : LotteryPricingRule
  pub handlers : LotteryHandlerBinding
  pub purchase_completion_mode : Option LotteryPurchaseCompletionMode
  pub draw_freshness_mode : Option LotteryDrawFreshnessMode

unfoldable pub normalize_lottery_code : Platform → String → String
normalize_lottery_code p input = p.to_lower_case (trim input)

unfoldable pub has_handler_bindings : LotteryRegistryEntry → Bool
has_handler_bindings entry =
    not (is_empty (trim entry.handlers.purchase_handler))
    && not (is_empty (trim entry.handlers.result_handler))

abbrev is_not_empty {ℓ} : {A : Type ℓ} → List A → Bool
is_not_empty [] = false
is_not_empty (x ∷ xs) = true

unfoldable pub has_form_field_definitions : LotteryRegistryEntry → Bool
has_form_field_definitions entry = is_not_empty entry.form_fields

abbrev pub compare_orders : ℤ → ℤ → Ordering
compare_orders a b = compare (pos_part a + neg_part b) (pos_part b + neg_part a)

unfoldable pub compare_registry_entries_by_order :
    Platform → LotteryRegistryEntry → LotteryRegistryEntry → Ordering
compare_registry_entries_by_order p a b =
    or_next (compare_orders a.display_order b.display_order)
      (p.locale_compare a.lottery_code b.lottery_code)

unfoldable pub sort_registry_entries :
    Platform → List LotteryRegistryEntry → List LotteryRegistryEntry
unfolding sort
sort_registry_entries p entries = sort (compare_registry_entries_by_order p) entries

orders_total :
    (x y : ℤ) (a b : Ordering)
    → (is_after a ≡ true → is_after b ≡ false)
    → is_after (or_next (compare_orders x y) a) ≡ true
    → is_after (or_next (compare_orders y x) b) ≡ false
orders_total x y a b f h = ground arith

orders_trans :
    (x y z : ℤ) (a b c : Ordering)
    → (is_after a ≡ false → is_after b ≡ false → is_after c ≡ false)
    → is_after (or_next (compare_orders x y) a) ≡ false
    → is_after (or_next (compare_orders y z) b) ≡ false
    → is_after (or_next (compare_orders x z) c) ≡ false
orders_trans x y z a b c f h k = ground arith

compare-IsConsistent :
    (p : Platform) → IsLawful p → IsConsistent (λ e. Unit {0}) (compare_registry_entries_by_order p)
unfolding compare_registry_entries_by_order
compare-IsConsistent p lawful = record {
  total = λ x y _ _.
      orders_total x.display_order y.display_order _ _
        (lawful.locale_compare-IsConsistent.total x.lottery_code y.lottery_code tt tt);
  trans = λ x y z _ _ _. orders_trans x.display_order y.display_order z.display_order _ _ _ (
      lawful.locale_compare-IsConsistent.trans x.lottery_code y.lottery_code z.lottery_code tt tt
        tt);
}

All-unit : {A : Type 0} (xs : List A) → All (λ e. Unit {0}) xs
All-unit [] = tt
All-unit (x ∷ xs) = (tt, All-unit xs)

-- The sorted registry holds the entries of the registry, no entry stands after one that it must
-- precede, and sorting it once more changes nothing.
pub sort_registry_entries_idem :
    (p : Platform) (lawful : IsLawful p) (entries : List LotteryRegistryEntry)
    → Perm (sort_registry_entries p entries) entries
      × IsSorted (compare_registry_entries_by_order p) (sort_registry_entries p entries)
      × (sort_registry_entries p (sort_registry_entries p entries)
          ≡ sort_registry_entries p entries)
unfolding sort_registry_entries
sort_registry_entries_idem p lawful entries =
    let sorted =
      sort-IsSorted (compare_registry_entries_by_order p) (λ e. Unit {0})
        (compare-IsConsistent p lawful) entries (All-unit entries) in
    (
      sort-perm (compare_registry_entries_by_order p) entries,
      sorted,
      sort_of_IsSorted (compare_registry_entries_by_order p) _ sorted,
    )

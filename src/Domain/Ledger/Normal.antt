-- ===== src/Domain/Ledger/Normal.antt =====
-- A normalized ledger entry stays as it is when it is normalized again. The store and the wallet
-- normalize the same entries several times.
use mathlib.Core.Path.{subst}
use gambling.Base.{
  ℕ, zero, suc, ◌≡◌, refl, sym, String, Option, some, none, [], ◌∷◌, Number, ok, throw, ErrorClass,
  ledger_validation, arith, trim, trim_idem, trim_option_idem, trim_of_currency, template,
  is_currency, Bool-cases, inl, inr,
}
use gambling.Base.Int.{ℤ, pos, negsuc}
use gambling.Base.Platform.{Platform, IsLawful, iso_string, require_text}
use gambling.Domain.Ledger.Entry.{
  LedgerEntry, LedgerReference, LedgerOperationType, normalize_ledger_entry,
  normalize_ledger_reference, normalize_amount_minor, normalize_currency, normalize_iso_timestamp,
  check_reference, positive,
}

pub require_text_again :
    (c : ErrorClass) (value field s : String)
    → require_text c value field ≡ ok s
    → require_text c s field ≡ ok s
unfolding require_text
require_text_again c value field s h = ground (arith, trim_idem value)

positive_value : (o : Option ℤ) (n : ℕ) → positive o ≡ ok n → positive (some (pos n)) ≡ ok n
positive_value (some (pos (suc m))) n h = ground arith
positive_value (some (pos zero)) n h = cc
positive_value (some (negsuc m)) n h = cc
positive_value none n h = cc

amount_again :
    (a : Number) (n : ℕ)
    → normalize_amount_minor a ≡ ok n
    → normalize_amount_minor (Number.integer (pos n)) ≡ ok n
unfolding normalize_amount_minor
amount_again a n h = positive_value _ n h

reference_again :
    (r : LedgerReference)
    → normalize_ledger_reference (normalize_ledger_reference r) ≡ normalize_ledger_reference r
unfolding normalize_ledger_reference
reference_again r = ground (
  arith,
  trim_option_idem r.purchase_id,
  trim_option_idem r.request_id,
  trim_option_idem r.ticket_id,
  trim_option_idem r.draw_id,
  trim_option_idem r.admin_adjustment_id,
)

module _ (p : Platform) (lawful : IsLawful p) where
  currency_again : (c s : String) → normalize_currency p c ≡ ok s → normalize_currency p s ≡ ok s
  unfolding normalize_currency
  currency_again c s h = elim (Bool-cases (is_currency (p.to_upper_case (trim c)))) [
    | inl e ↦ ground (arith, trim_of_currency s, lawful.to_upper_case_fixed s)
    | inr e ↦ ground arith
  ]

  iso_date :
      (v l s : String)
      → normalize_iso_timestamp p v l ≡ ok s
      → (t : ℤ) × (p.date_parse v ≡ some t) × (iso_string p t ≡ ok s)
  unfolding normalize_iso_timestamp
  iso_date v l s h = iso_date_at (p.date_parse v) h
    where
      iso_date_at :
          (o : Option ℤ)
          → (elim o [
            | none ↦ throw ledger_validation (template (l ∷ " must be a valid ISO timestamp" ∷ []))
            | some t ↦ iso_string p t
          ])
            ≡ ok s
          → (t : ℤ) × (o ≡ some t) × (iso_string p t ≡ ok s)
      iso_date_at none k = cc
      iso_date_at (some t) k = (t, refl, k)

  iso_value :
      (v s : String) (t : ℤ)
      → p.date_parse v ≡ some t
      → iso_string p t ≡ ok s
      → (s ≡ p.to_iso_string t) × (p.date_parse s ≡ some t)
  unfolding iso_string
  iso_value v s t e h =
      ground (arith, lawful.date_parse_range v t e, lawful.date_parse-to_iso_string v t e)

  iso_again :
      (v l l' s : String)
      → normalize_iso_timestamp p v l ≡ ok s
      → (normalize_iso_timestamp p s l' ≡ ok s) × ((t : ℤ) × (p.date_parse s ≡ some t))
  unfolding normalize_iso_timestamp
  iso_again v l l' s h =
      let (t, e, k) = iso_date v l s h in
      let (v1, v2) = iso_value v s t e k in (rw (v2, normalize_iso_timestamp) k, (t, v2))

-- What a successful normalization says of each field of its result.
pub record IsNormalOf (p : Platform) (e n : LedgerEntry) : Type 0 where
  pub entry_id : require_text ledger_validation e.entry_id "entryId" ≡ ok n.entry_id
  pub user_id : require_text ledger_validation e.user_id "userId" ≡ ok n.user_id
  pub operation : n.operation ≡ e.operation
  pub amount :
      (a : ℕ) × (normalize_amount_minor e.amount_minor ≡ ok a)
      × (n.amount_minor ≡ Number.integer (pos a))
  pub currency : normalize_currency p e.currency ≡ ok n.currency
  pub key : require_text ledger_validation e.idempotency_key "idempotencyKey" ≡ ok n.idempotency_key
  pub reference : n.reference ≡ normalize_ledger_reference e.reference
  pub checked : check_reference n.entry_id e.operation n.reference ≡ ok tt
  pub created_at :
      normalize_iso_timestamp p e.created_at
        (template ("entry \"" ∷ n.entry_id ∷ "\" createdAt" ∷ []))
      ≡ ok n.created_at

pub normalize_inv :
    (p : Platform) (e n : LedgerEntry) → normalize_ledger_entry p e ≡ ok n → IsNormalOf p e n
unfolding normalize_ledger_entry
normalize_inv p e n h = ground arith

-- The checks of the fields make up the normalization.
pub normalize_of :
    (p : Platform) (e n : LedgerEntry) → IsNormalOf p e n → normalize_ledger_entry p e ≡ ok n
unfolding normalize_ledger_entry
normalize_of p e n f = ground arith

-- The id in the messages of the check of a reference does not change its verdict.
check_reference_id :
    (i j : String) (op : LedgerOperationType) (r : LedgerReference)
    → check_reference i op r ≡ ok tt
    → check_reference j op r ≡ ok tt
unfolding check_reference
check_reference_id i j op r h = ground arith

pub iso_label :
    (p : Platform)
    → IsLawful p
    → (v l l' s : String) → normalize_iso_timestamp p v l ≡ ok s
    → normalize_iso_timestamp p v l' ≡ ok s
unfolding normalize_iso_timestamp
iso_label p lawful v l l' s h =
    let (t, e, k) = iso_date p lawful v l s h in rw (e, normalize_iso_timestamp) k

-- An entry that is valid stays so under another id and another date that are valid themselves, and
-- only these two fields of its normal form change.
pub normalize_retry :
    (p : Platform) (e n : LedgerEntry) (i j d v : String)
    → IsLawful p
    → normalize_ledger_entry p e ≡ ok n
    → require_text ledger_validation i "entryId" ≡ ok j
    → normalize_iso_timestamp p v "" ≡ ok d
    → normalize_ledger_entry p (record e { entry_id = i; created_at = v })
      ≡ ok (record n { entry_id = j; created_at = d })
normalize_retry p e n i j d v lawful h hi hd =
    let f = normalize_inv p e n h in
    normalize_of p _ _ (record {
      entry_id = hi;
      user_id = f.user_id;
      operation = f.operation;
      amount = f.amount;
      currency = f.currency;
      key = f.key;
      reference = f.reference;
      checked = check_reference_id n.entry_id j e.operation n.reference f.checked;
      created_at = iso_label p lawful v "" _ d hd;
    })

-- Normalizing a normalized entry gives that entry.
pub normalize_idem :
    (p : Platform) (e n : LedgerEntry)
    → IsLawful p
    → normalize_ledger_entry p e ≡ ok n
    → normalize_ledger_entry p n ≡ ok n
normalize_idem p e n lawful h =
    let f = normalize_inv p e n h in
    let (a, ha, na) = f.amount in
    normalize_of p n n (record {
      entry_id = require_text_again _ _ _ _ f.entry_id;
      user_id = require_text_again _ _ _ _ f.user_id;
      operation = refl;
      amount = (
        a,
        subst (λ x. normalize_amount_minor x ≡ ok a) (sym na) (amount_again e.amount_minor a ha),
        na,
      );
      currency = currency_again p lawful e.currency n.currency f.currency;
      key = require_text_again _ _ _ _ f.key;
      reference = rw f.reference (sym (reference_again e.reference));
      checked = rw f.operation f.checked;
      created_at = (iso_again p lawful e.created_at _ _ n.created_at f.created_at).0;
    })

-- A normalized entry has a date that can be read.
pub normalized_date :
    (p : Platform) (e n : LedgerEntry)
    → IsLawful p
    → normalize_ledger_entry p e ≡ ok n
    → (t : ℤ) × (p.date_parse n.created_at ≡ some t)
normalized_date p e n lawful h =
    (iso_again p lawful e.created_at _ "" n.created_at (normalize_inv p e n h).created_at).1

-- ===== src/Application/Orchestration/Reserves.antt =====
-- `collectPendingReserveGroups`: what is still reserved in a user's wallet, by request and currency.
use gambling.Base.{
  String, Bool, not, ◌||◌, ◌&&◌, Option, none, some, List, [], ◌∷◌, ◌==◌, if◌then◌else◌, or_else,
  is_empty, trim, template, trunc,
}
use gambling.Base.Int.{ℤ, pos, ltb_ℤ, ◌+ℤ◌, ◌-ℤ◌}
use gambling.Base.Lists.{keep}
use gambling.Domain.Ledger.Entry.{LedgerOperationType, reserve, debit, release, LedgerEntry}

pub record PendingReserveGroup : Type 0 where
  pub request_id : String
  pub currency : String
  pub amount_minor : ℤ
  pub draw_id : Option String

-- the texts of an entry's reference; an absent one counts as empty
abbrev pub text_of : Option String → String
text_of none = ""
text_of (some t) = t

abbrev pub request_of : LedgerEntry → String
request_of e = trim (text_of e.reference.request_id)

abbrev pub key_of : LedgerEntry → String
key_of e = template (e.currency ∷ ":" ∷ request_of e ∷ [])

abbrev pub group_key : PendingReserveGroup → String
group_key g = template (g.currency ∷ ":" ∷ g.request_id ∷ [])

-- the amount of an entry of the wallet, which is an integer
abbrev pub amount_of : LedgerEntry → ℤ
amount_of e = or_else (trunc e.amount_minor) (pos 0)

-- an amount with what an entry adds to it or takes from it
abbrev pub moved : LedgerOperationType → ℤ → ℤ → ℤ
moved reserve amount total = total +ℤ amount
moved debit amount total = total -ℤ amount
moved release amount total = total -ℤ amount
moved operation amount total = total

-- `!draw && next ? next : draw`
abbrev pub draw_or : Option String → Option String → Option String
draw_or none none = none
draw_or none (some t) = if is_empty t then none else some t
draw_or (some t) none = some t
draw_or (some t) (some u) = if is_empty t && not (is_empty u) then some u else some t

abbrev pub add_entry : PendingReserveGroup → LedgerEntry → PendingReserveGroup
add_entry g e = record g {
  amount_minor = moved e.operation (amount_of e) g.amount_minor;
  draw_id = draw_or g.draw_id e.reference.draw_id;
}

abbrev pub new_group : LedgerEntry → PendingReserveGroup
new_group e = record {
  request_id = request_of e;
  currency = e.currency;
  amount_minor = pos 0;
  draw_id = e.reference.draw_id;
}

-- `groups.set(key, ...)`: the group in its place, or a new one behind the others
unfoldable pub add_to_groups : List PendingReserveGroup → LedgerEntry → List PendingReserveGroup
add_to_groups [] e = add_entry (new_group e) e ∷ []
add_to_groups (g ∷ groups) e =
    let others = add_to_groups groups e in
    if group_key g == key_of e then add_entry g e ∷ groups else g ∷ others

-- an entry that the loop passes over
abbrev pub is_skipped : String → LedgerEntry → Bool
is_skipped currency e =
    is_empty (request_of e) || (not (is_empty currency) && not (e.currency == currency))

-- the loop
unfoldable pub group_entries :
    String → List PendingReserveGroup → List LedgerEntry → List PendingReserveGroup
group_entries currency groups [] = groups
group_entries currency groups (e ∷ entries) =
    group_entries currency (if is_skipped currency e then groups else add_to_groups groups e)
      entries

unfoldable pub collect_pending_reserve_groups : List LedgerEntry → String → List PendingReserveGroup
collect_pending_reserve_groups entries currency =
    keep (λ g. ltb_ℤ (pos 0) g.amount_minor) (group_entries currency [] entries)

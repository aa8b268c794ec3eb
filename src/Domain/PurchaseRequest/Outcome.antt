-- ===== src/Domain/PurchaseRequest/Outcome.antt =====
-- The result of a canonical purchase, and its publication
-- (packages/domain/src/purchase-request.ts).
use gambling.Base.{
  String, Bool, not, ◌&&◌, Option, [], ◌∷◌, ◌++◌, template, Result, ok, throw_if,
  canonical_purchase_validation, if◌then◌else◌, ◌>>=◌, ◌>>◌,
}
use gambling.Base.Platform.{Platform}
use gambling.Domain.RequestState.{
  CanonicalPurchaseStatus, PurchaseResultStatus, PurchaseResultVisibility, pending, hidden, visible,
  status_text, result_text, visibility_text, same_status,
}
use gambling.Domain.PurchaseRequest.Request.{require_non_empty, require_valid_iso_date}
use gambling.Domain.PurchaseRequest.Canonical.{
  CanonicalPurchaseRecord, JournalKind, clone_canonical_snapshot, clone_canonical_purchase_record,
  journal_entry, same_result, same_visibility,
}

-- the last argument of `applyCanonicalPurchaseResult`
pub record ResultInput : Type 0 where
  pub event_id : String
  pub occurred_at : String
  pub result_status : PurchaseResultStatus
  pub note : Option String

-- the last argument of `setCanonicalPurchaseResultVisibility`
pub record VisibilityInput : Type 0 where
  pub event_id : String
  pub occurred_at : String
  pub result_visibility : PurchaseResultVisibility
  pub note : Option String

-- the record with a new result, and the entry for it
abbrev pub with_result :
    CanonicalPurchaseRecord
    → PurchaseResultStatus
    → String
    → String
    → Option String
    → CanonicalPurchaseRecord
with_result r next event_id occurred_at note = record {
  snapshot = clone_canonical_snapshot r.snapshot;
  status = r.status;
  result_status = next;
  result_visibility = r.result_visibility;
  purchased_at = r.purchased_at;
  settled_at = r.settled_at;
  external_ticket_reference = r.external_ticket_reference;
  journal =
      r.journal
      ++ journal_entry event_id JournalKind.result_status (result_text r.result_status)
          (result_text next) occurred_at note
        ∷ [];
}

-- the guard before a result is set
abbrev pub result_refused : CanonicalPurchaseStatus → PurchaseResultStatus → Bool
result_refused status next =
    not (same_result next pending)
    && not (same_status status CanonicalPurchaseStatus.awaiting_draw_close)
    && not (same_status status CanonicalPurchaseStatus.settled)

unfoldable pub apply_canonical_purchase_result :
    Platform → CanonicalPurchaseRecord → ResultInput → Result CanonicalPurchaseRecord
apply_canonical_purchase_result p r input = do
  event_id ← require_non_empty input.event_id "eventId"
  occurred_at ← require_valid_iso_date p input.occurred_at "occurredAt"
  if same_result r.result_status input.result_status
      then ok (clone_canonical_purchase_record r)
      else do
        throw_if (result_refused r.status input.result_status) canonical_purchase_validation (
            template (
              "purchase \""
              ∷ r.snapshot.purchase_id
              ∷ "\" cannot set result status from lifecycle \""
              ∷ status_text r.status
              ∷ "\""
              ∷ []))
        ok (with_result r input.result_status event_id occurred_at input.note)

-- the record with a new visibility, and the entry for it
abbrev pub with_visibility :
    CanonicalPurchaseRecord
    → PurchaseResultVisibility
    → String
    → String
    → Option String
    → CanonicalPurchaseRecord
with_visibility r next event_id occurred_at note = record {
  snapshot = clone_canonical_snapshot r.snapshot;
  status = r.status;
  result_status = r.result_status;
  result_visibility = next;
  purchased_at = r.purchased_at;
  settled_at = r.settled_at;
  external_ticket_reference = r.external_ticket_reference;
  journal =
      r.journal
      ++ journal_entry event_id JournalKind.result_visibility (visibility_text r.result_visibility)
          (visibility_text next) occurred_at note
        ∷ [];
}

unfoldable pub set_canonical_purchase_result_visibility :
    Platform → CanonicalPurchaseRecord → VisibilityInput → Result CanonicalPurchaseRecord
set_canonical_purchase_result_visibility p r input = do
  event_id ← require_non_empty input.event_id "eventId"
  occurred_at ← require_valid_iso_date p input.occurred_at "occurredAt"
  if same_visibility r.result_visibility input.result_visibility
      then ok (clone_canonical_purchase_record r)
      else do
        throw_if
            (same_visibility r.result_visibility visible
              && same_visibility input.result_visibility hidden)
            canonical_purchase_validation
            "result visibility cannot move back to hidden once published"
        throw_if
            (same_visibility input.result_visibility visible
              && not (same_status r.status CanonicalPurchaseStatus.settled))
            canonical_purchase_validation
            (template (
              "purchase \"" ∷ r.snapshot.purchase_id ∷ "\" cannot publish result before settlement"
              ∷ []))
        throw_if
            (same_visibility input.result_visibility visible && same_result r.result_status pending)
            canonical_purchase_validation
            (template
              ("purchase \"" ∷ r.snapshot.purchase_id ∷ "\" cannot publish a pending result" ∷ []))
        ok (with_visibility r input.result_visibility event_id occurred_at input.note)

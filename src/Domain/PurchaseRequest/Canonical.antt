-- ===== src/Domain/PurchaseRequest/Canonical.antt =====
-- The canonical purchase: its lifecycle, its result and the visibility of the result
-- (packages/domain/src/purchase-request.ts).
use gambling.Base.{
  String, Bool, ◌||◌, Option, none, some, List, [], ◌∷◌, ◌++◌, ◌==◌, if◌then◌else◌, or_else,
  or_option, template, Number, trunc, trim_option, Result, ok, canonical_purchase_validation, ◌>>=◌,
}
use gambling.Base.Int.{ℤ}
use gambling.Base.Platform.{Platform}
use gambling.Domain.PurchaseDraft.Payload.{PurchaseDraftPayload, clone_purchase_draft_payload}
use gambling.Domain.RequestState.{
  CanonicalPurchaseStatus, PurchaseResultStatus, PurchaseResultVisibility, pending, hidden,
  status_text, result_text, visibility_text, same_status,
  apply_canonical_purchase_status_transition,
}
use gambling.Domain.PurchaseRequest.Request.{
  TransitionInput, require_non_empty, require_valid_iso_date, positive_cost, note_of,
}

pub record CanonicalPurchaseSnapshot : Type 0 where
  pub purchase_id : String
  pub legacy_request_id : Option String
  pub user_id : String
  pub lottery_code : String
  pub draw_id : String
  pub payload : PurchaseDraftPayload
  pub cost_minor : ℤ
  pub currency : String
  pub submitted_at : String

pub data JournalKind : Type 0 where
  status result_status result_visibility : JournalKind

pub record CanonicalPurchaseJournalEntry : Type 0 where
  pub event_id : String
  pub kind : JournalKind
  pub previous_value : Option String
  pub next_value : String
  pub occurred_at : String
  pub note : Option String

pub record CanonicalPurchaseRecord : Type 0 where
  pub snapshot : CanonicalPurchaseSnapshot
  pub status : CanonicalPurchaseStatus
  pub result_status : PurchaseResultStatus
  pub result_visibility : PurchaseResultVisibility
  pub purchased_at : Option String
  pub settled_at : Option String
  pub external_ticket_reference : Option String
  pub journal : List CanonicalPurchaseJournalEntry

pub record CreateSubmittedCanonicalPurchaseInput : Type 0 where
  pub purchase_id : String
  pub legacy_request_id : Option String
  pub user_id : String
  pub lottery_code : String
  pub draw_id : String
  pub payload : PurchaseDraftPayload
  pub cost_minor : Number
  pub currency : String
  pub submitted_at : String

unfoldable pub create_submitted_canonical_purchase :
    Platform → CreateSubmittedCanonicalPurchaseInput → Result CanonicalPurchaseRecord
create_submitted_canonical_purchase p input = do
  purchase_id ← require_non_empty input.purchase_id "purchaseId"
  user_id ← require_non_empty input.user_id "userId"
  code ← require_non_empty input.lottery_code "lotteryCode"
  draw_id ← require_non_empty input.draw_id "drawId"
  currency ← require_non_empty input.currency "currency"
  submitted_at ← require_valid_iso_date p input.submitted_at "submittedAt"
  cost ← positive_cost canonical_purchase_validation (trunc input.cost_minor)
  ok (record {
    snapshot = record {
      purchase_id = purchase_id;
      legacy_request_id = trim_option input.legacy_request_id;
      user_id = user_id;
      lottery_code = p.to_lower_case code;
      draw_id = draw_id;
      payload = clone_purchase_draft_payload input.payload;
      cost_minor = cost;
      currency = p.to_upper_case currency;
      submitted_at = submitted_at;
    };
    status = CanonicalPurchaseStatus.submitted;
    result_status = pending;
    result_visibility = hidden;
    purchased_at = none;
    settled_at = none;
    external_ticket_reference = none;
    journal =
        record {
          event_id = template (purchase_id ∷ ":submitted" ∷ []);
          kind = JournalKind.status;
          previous_value = none;
          next_value = "submitted";
          occurred_at = submitted_at;
          note = some "canonical purchase snapshot persisted";
        }
        ∷ [];
  })

unfoldable pub clone_canonical_snapshot : CanonicalPurchaseSnapshot → CanonicalPurchaseSnapshot
clone_canonical_snapshot s = record s { payload = clone_purchase_draft_payload s.payload }

unfoldable pub clone_canonical_purchase_record : CanonicalPurchaseRecord → CanonicalPurchaseRecord
clone_canonical_purchase_record r = record r { snapshot = clone_canonical_snapshot r.snapshot }

unfoldable pub should_set_purchased_at : CanonicalPurchaseStatus → Bool
should_set_purchased_at s =
    same_status s CanonicalPurchaseStatus.purchased
    || same_status s CanonicalPurchaseStatus.awaiting_draw_close
    || same_status s CanonicalPurchaseStatus.settled

-- an entry at the end of the journal
abbrev pub journal_entry :
    String → JournalKind → String → String → String → Option String → CanonicalPurchaseJournalEntry
journal_entry event_id kind previous next occurred_at note = record {
  event_id = event_id;
  kind = kind;
  previous_value = some previous;
  next_value = next;
  occurred_at = occurred_at;
  note = note_of note;
}

unfoldable pub append_canonical_purchase_transition :
    Platform
    → CanonicalPurchaseRecord
    → CanonicalPurchaseStatus
    → TransitionInput
    → Option String
    → Result CanonicalPurchaseRecord
unfolding should_set_purchased_at
append_canonical_purchase_transition p r next_status input reference = do
  event_id ← require_non_empty input.event_id "eventId"
  occurred_at ← require_valid_iso_date p input.occurred_at "occurredAt"
  transitioned ← apply_canonical_purchase_status_transition r.status next_status
  ok (record {
    snapshot = clone_canonical_snapshot r.snapshot;
    status = transitioned;
    result_status = r.result_status;
    result_visibility = r.result_visibility;
    purchased_at =
        if should_set_purchased_at transitioned
        then some (or_else r.purchased_at occurred_at)
        else r.purchased_at;
    settled_at =
        if same_status transitioned CanonicalPurchaseStatus.settled
        then some (or_else r.settled_at occurred_at)
        else r.settled_at;
    external_ticket_reference = trim_option (or_option reference r.external_ticket_reference);
    journal =
        r.journal
        ++ journal_entry event_id JournalKind.status (status_text r.status)
            (status_text transitioned) occurred_at input.note
          ∷ [];
  })

abbrev pub same_result : PurchaseResultStatus → PurchaseResultStatus → Bool
same_result s t = result_text s == result_text t

abbrev pub same_visibility : PurchaseResultVisibility → PurchaseResultVisibility → Bool
same_visibility s t = visibility_text s == visibility_text t

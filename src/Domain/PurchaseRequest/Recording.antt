-- ===== src/Domain/PurchaseRequest/Recording.antt =====
-- When the result of a canonical purchase is recorded (`applyCanonicalPurchaseResult` of
-- packages/domain/src/purchase-request.ts).
use gambling.Base.{
  ◌≡◌, ◌⊎◌, ◌↔◌, refl, sym, inl, inr, ◌∙◌, true, false, ok, >>=-eq-ok, trim, is_empty, eq_refl,
  purchase_request_validation, Bool-cases,
}
use gambling.Base.Platform.{
  Platform, require_text, require_date, is_nan_date, require_text-eq_ok, require_date-eq_ok,
}
use gambling.Domain.RequestState.{
  CanonicalPurchaseStatus, PurchaseResultStatus, pending, lose, win, result_text,
}
use gambling.Domain.PurchaseRequest.Request.{require_non_empty, require_valid_iso_date}
use gambling.Domain.PurchaseRequest.Canonical.{
  CanonicalPurchaseRecord, same_result, clone_canonical_purchase_record,
}
use gambling.Domain.PurchaseRequest.Lifecycle.{result_inv}
use gambling.Domain.PurchaseRequest.Outcome.{
  with_result, result_refused, ResultInput, apply_canonical_purchase_result,
}

-- a result that is there already, a pending one, or one after the purchase
abbrev pub MayRecord :
    CanonicalPurchaseStatus → PurchaseResultStatus → PurchaseResultStatus → Type 0
MayRecord status current next =
    (next ≡ current)
    ⊎ (next ≡ pending)
    ⊎ (status ≡ CanonicalPurchaseStatus.awaiting_draw_close)
    ⊎ (status ≡ CanonicalPurchaseStatus.settled)

same_result-eq : (s t : PurchaseResultStatus) → same_result s t ≡ true → t ≡ s
same_result-eq pending pending h = refl
same_result-eq lose lose h = refl
same_result-eq win win h = refl
same_result-eq s t h = absurd cc

differ : true ≡ false → ⊥
differ h = cc

not_refused :
    (status : CanonicalPurchaseStatus) (current next : PurchaseResultStatus)
    → result_refused status next ≡ false
    → MayRecord status current next
not_refused status current pending h = inr (inl refl)
not_refused CanonicalPurchaseStatus.awaiting_draw_close current next h = inr (inr (inl refl))
not_refused CanonicalPurchaseStatus.settled current next h = inr (inr (inr refl))
not_refused status current next h = absurd (differ h)

same_result_self : (s : PurchaseResultStatus) → same_result s s ≡ true
same_result_self s = eq_refl (result_text s)

after_purchase :
    (status : CanonicalPurchaseStatus) (next : PurchaseResultStatus)
    → (status ≡ CanonicalPurchaseStatus.awaiting_draw_close)
      ⊎ (status ≡ CanonicalPurchaseStatus.settled)
    → result_refused status next ≡ false
after_purchase status pending h = refl
after_purchase status lose (inl e) = rw e refl
after_purchase status lose (inr e) = rw e refl
after_purchase status win (inl e) = rw e refl
after_purchase status win (inr e) = rw e refl

may_not_refused :
    (status : CanonicalPurchaseStatus) (current next : PurchaseResultStatus)
    → MayRecord status current next
    → same_result current next ≡ false
    → result_refused status next ≡ false
may_not_refused status current next (inl e) other =
    absurd (differ (sym (same_result_self current) ∙ rw e at other))
may_not_refused status current next (inr (inl e)) other = rw e refl
may_not_refused status current next (inr (inr h)) other = after_purchase status next h

module _ (p : Platform) (r : CanonicalPurchaseRecord) (input : ResultInput) where
  -- Recording a result succeeds, and then sets it and leaves the visibility as it is, exactly for an
  -- event that is named and a date that can be read, where the result is pending or there already or
  -- the purchase awaits the closing of its draw or is settled: whether a result is published does not
  -- matter, so that a published one can be set back to pending.
  pub apply_canonical_purchase_result_iff :
      ((r' : CanonicalPurchaseRecord) × (apply_canonical_purchase_result p r input ≡ ok r')
        × (r'.result_status ≡ input.result_status)
        × (r'.result_visibility ≡ r.result_visibility))
      ↔ ((is_empty (trim input.event_id) ≡ false)
          × (is_empty (trim input.occurred_at) ≡ false)
          × (is_nan_date p (trim input.occurred_at) ≡ false)
          × MayRecord r.status r.result_status input.result_status)
  unfolding apply_canonical_purchase_result
  apply_canonical_purchase_result_iff = (
    λ (r', h, set, _).
        let (e, he, h1) = >>=-eq-ok (require_non_empty input.event_id "eventId") _ h in
        let (d, hd, h2) =
          >>=-eq-ok (require_valid_iso_date p input.occurred_at "occurredAt") _ h1 in
        let named = require_text-eq_ok purchase_request_validation input.event_id "eventId" e he in
        let dated =
          require_date-eq_ok p purchase_request_validation input.occurred_at "occurredAt" d hd in
        (
          rw named.0 at named.1,
          rw dated.0 at dated.1,
          rw dated.0 at dated.2,
          elim (result_inv p r r' input h).2 [
            | inl kept ↦ inl (sym set ∙ kept)
            | inr (_, guard) ↦ not_refused r.status r.result_status input.result_status guard
          ],
        ),
    λ (named, dated, readable, may).
        elim (Bool-cases (same_result r.result_status input.result_status)) [
          | inl same ↦ (
            clone_canonical_purchase_record r,
            unfold require_date require_text in rw (named, dated, readable, same) refl,
            unfold clone_canonical_purchase_record in
                sym (same_result-eq r.result_status input.result_status same),
            unfold clone_canonical_purchase_record in refl,
          )
          | inr other ↦ (
            with_result r input.result_status (trim input.event_id) (trim input.occurred_at)
                input.note,
            unfold require_date require_text in
                rw
                  (
                    named,
                    dated,
                    readable,
                    other,
                    may_not_refused r.status r.result_status input.result_status may other,
                  )
                  refl,
            refl,
            refl,
          )
        ],
  )

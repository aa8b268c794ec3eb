-- ===== src/Application/PurchaseState/Frame.antt =====
-- The canonical purchase of a request is ensured without a change to any other store.
use gambling.Base.{◌≡◌, Option, none, some}
use gambling.Base.Action.Keeps.{Keeps, >>=-Keeps, lift-Keeps, give-Keeps, writes-Keeps}
use gambling.Base.Platform.{Platform}
use gambling.Domain.PurchaseRequest.Request.{PurchaseRequestRecord}
use gambling.Domain.PurchaseRequest.Canonical.{CanonicalPurchaseRecord}
use gambling.Application.World.{World}
use gambling.Application.Store.Purchases.{Purchases}
use gambling.Application.PurchaseState.{
  ensure_canonical_purchase_for_request, ensure_loaded, save_canonical,
}

module _ {κ} {C : Type κ} (part : World → C)
    (apart : (w : World) (ps : Purchases) → part (record w { purchases = ps }) ≡ part w)
    (p : Platform) where
  pub save_canonical-Keeps : (r : CanonicalPurchaseRecord) → Keeps part (save_canonical r)
  save_canonical-Keeps r = writes-Keeps _ λ w. apart w _

  ensure_loaded-Keeps :
      (r : PurchaseRequestRecord) (loaded : Option CanonicalPurchaseRecord)
      → Keeps part (ensure_loaded p r loaded)
  ensure_loaded-Keeps r (some purchase) = give-Keeps _
  ensure_loaded-Keeps r none =
      >>=-Keeps (lift-Keeps _)
        λ purchase. >>=-Keeps (save_canonical-Keeps purchase) λ _. give-Keeps _

  pub ensure-Keeps :
      (r : PurchaseRequestRecord) → Keeps part (ensure_canonical_purchase_for_request p r)
  unfolding ensure_canonical_purchase_for_request
  ensure-Keeps r = record { at_end = λ w. (ensure_loaded-Keeps r _).at_end w }

-- ===== src/Domain/PurchaseDraft/Payload.antt =====
-- The payload of a purchase and its deep copy (packages/domain/src/purchase-draft.ts): JSON values,
-- an object being its list of keys and values in order.
use gambling.Base.{◌≡◌, refl, ap, String, Bool, Number}

mutual
  pub data PayloadValue : Type 0 where
    null : PayloadValue
    text : String → PayloadValue
    number : Number → PayloadValue
    boolean : Bool → PayloadValue
    list : PayloadList → PayloadValue
    object : PurchaseDraftPayload → PayloadValue

  pub data PayloadList : Type 0 where
    nil : PayloadList
    cons : PayloadValue → PayloadList → PayloadList

  pub data PurchaseDraftPayload : Type 0 where
    end : PurchaseDraftPayload
    field : String → PayloadValue → PurchaseDraftPayload → PurchaseDraftPayload

unfoldable mutual
  pub clone_purchase_draft_value : PayloadValue → PayloadValue
  clone_purchase_draft_value null = null
  clone_purchase_draft_value (text s) = text s
  clone_purchase_draft_value (number n) = number n
  clone_purchase_draft_value (boolean b) = boolean b
  clone_purchase_draft_value (list items) = list (clone_items items)
  clone_purchase_draft_value (object fields) = object (clone_purchase_draft_payload fields)

  pub clone_items : PayloadList → PayloadList
  clone_items nil = nil
  clone_items (cons v items) = cons (clone_purchase_draft_value v) (clone_items items)

  pub clone_purchase_draft_payload : PurchaseDraftPayload → PurchaseDraftPayload
  clone_purchase_draft_payload end = end
  clone_purchase_draft_payload (field key v fields) =
      field key (clone_purchase_draft_value v) (clone_purchase_draft_payload fields)

mutual
  unfolding clone_purchase_draft_value clone_items clone_purchase_draft_payload

  value_copy : (v : PayloadValue) → clone_purchase_draft_value v ≡ v
  value_copy null = refl
  value_copy (text s) = refl
  value_copy (number n) = refl
  value_copy (boolean b) = refl
  value_copy (list items) = ap list (items_copy items)
  value_copy (object fields) = ap object (payload_copy fields)

  items_copy : (items : PayloadList) → clone_items items ≡ items
  items_copy nil = refl
  items_copy (cons v items) = λ i. cons (value_copy v i) (items_copy items i)

  payload_copy : (fields : PurchaseDraftPayload) → clone_purchase_draft_payload fields ≡ fields
  payload_copy end = refl
  payload_copy (field key v fields) = λ i. field key (value_copy v i) (payload_copy fields i)

-- A deep copy of a payload is equal to the payload.
pub clone_purchase_draft_payload_copies :
    (payload : PurchaseDraftPayload) → clone_purchase_draft_payload payload ≡ payload
clone_purchase_draft_payload_copies payload = payload_copy payload

-- ===== src/Domain/PurchaseRequest/Journal.antt =====
-- The journal of a purchase request against its state.
use gambling.Base.{
  ◌≡◌, refl, String, List, [], ◌∷◌, ◌++◌, ok, arith, >>=-eq-ok, template, some, trunc,
  purchase_request_validation,
}
use gambling.Base.Platform.{Platform, require_text, require_date}
use gambling.Domain.RequestState.{RequestState, apply_request_state_transition}
use gambling.Domain.RequestState.Paths.{◌⟶*◌, here, next}
use gambling.Domain.PurchaseDraft.Payload.{clone_purchase_draft_payload_copies}
use gambling.Domain.PurchaseRequest.Request.{
  PurchaseRequestRecord, PurchaseRequestSnapshot, PurchaseRequestJournalEntry, TransitionInput,
  CreateAwaitingConfirmationRequestInput, clone_snapshot, create_awaiting_confirmation_request,
  note_of, require_non_empty, require_valid_iso_date, positive_cost,
  append_purchase_request_transition,
}

-- A request that was created and then moved by calls that did not throw.
pub data Reached (p : Platform) : PurchaseRequestRecord → Type 0 where
  created :
      {r : PurchaseRequestRecord} (input : CreateAwaitingConfirmationRequestInput)
      → create_awaiting_confirmation_request p input ≡ ok r
      → Reached p r
  moved :
      {r r' : PurchaseRequestRecord} (to : RequestState) (input : TransitionInput)
      → Reached p r
      → append_purchase_request_transition p r to input ≡ ok r'
      → Reached p r'

-- The entries lead from the first state to the second, each starting where the one before it ended
-- and each a step of the table.
abbrev pub IsChain : RequestState → List PurchaseRequestJournalEntry → RequestState → Type 0
IsChain s [] t = s ≡ t
IsChain s (e ∷ entries) t =
    (e.from_state ≡ s)
    × (apply_request_state_transition s e.to_state ≡ ok e.to_state)
    × IsChain e.to_state entries t

IsChain-++ :
    (s t u : RequestState) (entries : List PurchaseRequestJournalEntry)
    (e : PurchaseRequestJournalEntry)
    → IsChain s entries t
    → e.from_state ≡ t
    → apply_request_state_transition t e.to_state ≡ ok e.to_state
    → e.to_state ≡ u
    → IsChain s (entries ++ e ∷ []) u
IsChain-++ s t u [] e c from step target = rw c (from, step, target)
IsChain-++ s t u (first ∷ entries) e c from step target =
    (c.0, c.1, IsChain-++ first.to_state t u entries e c.2 from step target)

IsChain-path :
    (o s t : RequestState) (entries : List PurchaseRequestJournalEntry)
    → o ⟶* s
    → IsChain s entries t
    → o ⟶* t
IsChain-path o s t [] path c = rw c at path
IsChain-path o s t (e ∷ entries) path c = IsChain-path o e.to_state t entries (next path c.1) c.2

-- a transition that does not throw gives the state that was asked for
transition_to :
    (s t n : RequestState)
    → apply_request_state_transition s t ≡ ok n
    → (n ≡ t) × (apply_request_state_transition s n ≡ ok n)
unfolding apply_request_state_transition
transition_to s t n h = ground arith

-- a copy of a snapshot is equal to it
pub clone_snapshot_copies : (s : PurchaseRequestSnapshot) → clone_snapshot s ≡ s
unfolding clone_snapshot
clone_snapshot_copies s = rw (clone_purchase_draft_payload_copies s.payload) refl

-- Moving a request leaves its snapshot as it is, and adds one entry behind the journal, from the
-- state that the request had to the state that was asked for and that it has now.
pub append_purchase_request_transition_adds :
    (p : Platform) (r r' : PurchaseRequestRecord) (to : RequestState) (input : TransitionInput)
    → append_purchase_request_transition p r to input ≡ ok r'
    → (r'.snapshot ≡ r.snapshot)
      × (r'.state ≡ to)
      × (apply_request_state_transition r.state to ≡ ok to)
      × ((e : PurchaseRequestJournalEntry) × (r'.journal ≡ (r.journal ++ e ∷ []))
          × (e.from_state ≡ r.state)
          × (e.to_state ≡ to))
unfolding append_purchase_request_transition
append_purchase_request_transition_adds p r r' to input h =
    let (a, ha, h1) =
      >>=-eq-ok (require_text purchase_request_validation input.event_id "eventId") _ h in
    let (b, hb, h2) =
      >>=-eq-ok (require_date p purchase_request_validation input.occurred_at "occurredAt") _ h1 in
    let (n, hn, h3) = >>=-eq-ok (apply_request_state_transition r.state to) _ h2 in
    let by_table = transition_to r.state to n hn in
    let same = clone_snapshot_copies r.snapshot in
    (
      ground (arith, by_table, same),
      ground (arith, by_table),
      ground (arith, by_table),
      (
        record {
          event_id = a;
          from_state = r.state;
          to_state = n;
          occurred_at = b;
          note = note_of input.note;
        },
        ground (arith, by_table),
        refl,
        by_table.0,
      ),
    )

-- the entry that the creation writes
abbrev first_entry : String → String → PurchaseRequestJournalEntry
first_entry id at = record {
  event_id = template (id ∷ ":awaiting_confirmation" ∷ []);
  from_state = RequestState.created;
  to_state = RequestState.awaiting_confirmation;
  occurred_at = at;
  note = some "request snapshot persisted";
}

created-IsChain :
    (p : Platform) (input : CreateAwaitingConfirmationRequestInput) (r : PurchaseRequestRecord)
    → create_awaiting_confirmation_request p input ≡ ok r
    → IsChain RequestState.created r.journal r.state
unfolding create_awaiting_confirmation_request apply_request_state_transition
created-IsChain p input r h =
    let (id, _, h1) = >>=-eq-ok (require_non_empty input.request_id "requestId") _ h in
    let (user, _, h2) = >>=-eq-ok (require_non_empty input.user_id "userId") _ h1 in
    let (code, _, h3) = >>=-eq-ok (require_non_empty input.lottery_code "lotteryCode") _ h2 in
    let (draw, _, h4) = >>=-eq-ok (require_non_empty input.draw_id "drawId") _ h3 in
    let (currency, _, h5) = >>=-eq-ok (require_non_empty input.currency "currency") _ h4 in
    let (at, _, h6) = >>=-eq-ok (require_valid_iso_date p input.created_at "createdAt") _ h5 in
    let (cost, _, h7) =
      >>=-eq-ok (positive_cost purchase_request_validation (trunc input.cost_minor)) _ h6 in
    let j : r.journal ≡ (first_entry id at ∷ []) = ground arith in
    let s : r.state ≡ RequestState.awaiting_confirmation = ground arith in
    rw j (rw s (refl, refl, refl))

chain :
    {p : Platform} {r : PurchaseRequestRecord}
    → Reached p r
    → IsChain RequestState.created r.journal r.state
chain {p} {r} (created input h) = created-IsChain p input r h
chain {p} (moved {r} {r'} to input q h) =
    let (s, now, step, (e, j, from, target)) =
      append_purchase_request_transition_adds p r r' to input h in
    rw (j, now)
      (IsChain-++ RequestState.created r.state to r.journal e (chain q) from (rw target step)
        target)

-- The journal of a request that was created and moved by calls that did not throw leads, step by step
-- of the table, from `created` to the state of the request.
pub Reached-IsChain :
    {p : Platform} {r : PurchaseRequestRecord}
    → Reached p r
    → IsChain RequestState.created r.journal r.state × (RequestState.created ⟶* r.state)
Reached-IsChain {p} {r} q =
    let c = chain q in
    (c, IsChain-path RequestState.created RequestState.created r.state r.journal here c)

-- ===== src/Application/World.antt =====
-- What the services share: the contents of all stores, and what a call takes from its surroundings.
use gambling.Base.{◌≡◌, refl, sym, ap, inl, inr, String, Result, ok, err, Result-cases}
use gambling.Base.Action.{Outcome, returned, threw, Action, stores_after, returned_value}
use gambling.Base.Action.Keeps.{Keeps}
use gambling.Base.Platform.{Platform}
use gambling.Application.LedgerStore.{Entries}
use gambling.Application.TicketClaim.{Tickets, Claimed}
use gambling.Domain.Ticket.Record.{TicketRecord}
use gambling.Application.Store.Requests.{Requests}
use gambling.Application.Store.Queue.{Queue}
use gambling.Application.Store.Purchases.{Purchases}
use gambling.Application.Store.Attempts.{Attempts}
use gambling.Application.Store.Lock.{Lock}
use gambling.Application.Store.CashDesk.{CashDeskRequests}
use gambling.Application.Store.Jobs.{Jobs}
use gambling.Application.Store.Notifications.{Notifications}
use gambling.Application.Store.Draws.{Draws, Closures}

pub record World : Type 0 where
  pub requests : Requests
  pub queue : Queue
  pub purchases : Purchases
  pub attempts : Attempts
  pub lock : Lock
  pub tickets : Tickets
  pub cash_desk : CashDeskRequests
  pub jobs : Jobs
  pub notifications : Notifications
  pub draws : Draws
  pub closures : Closures
  pub entries : Entries

-- `now` is what the clock reads during the call, and `entry_id` what the entry factory returns for
-- the entry with an idempotency key.
pub record Surroundings : Type 0 where
  pub platform : Platform
  pub now : String
  pub entry_id : String → String

-- A call of the wallet ledger service on the entries of the world; a call that throws leaves them.
abbrev entries_after {ℓ} : {A : Type ℓ} → World → Result (A × Entries) → Outcome World A
entries_after w (ok (a, entries)) = returned a (record w { entries = entries })
entries_after w (err e) = threw e w

unfoldable pub on_wallet {ℓ} : {A : Type ℓ} → (Entries → Result (A × Entries)) → Action World A
on_wallet call w = entries_after w (call w.entries)

-- A call of the ticket claim service on the tickets of the world; a call that throws leaves them.
abbrev tickets_after : World → Result Claimed → Outcome World TicketRecord
tickets_after w (ok c) = returned c.ticket (record w { tickets = c.store })
tickets_after w (err e) = threw e w

unfoldable pub on_tickets : (Tickets → Result Claimed) → Action World TicketRecord
on_tickets call w = tickets_after w (call w.tickets)

module _ {ℓ κ} {A : Type ℓ} {C : Type κ} {part : World → C} where
  -- A call on the wallet keeps every part that does not look at the entries.
  pub on_wallet-Keeps :
      (call : Entries → Result (A × Entries))
      → ((w : World) (entries : Entries) → part (record w { entries = entries }) ≡ part w)
      → Keeps part (on_wallet call)
  unfolding on_wallet
  on_wallet-Keeps call apart = record {
    at_end = λ w. elim (Result-cases (call w.entries)) [
      | inl ((a, entries), h) ↦ rw h (apart w entries)
      | inr (e, h) ↦ rw h refl
    ];
  }

entries_after-eq_returned {ℓ} :
    {A : Type ℓ} (w : World) (r : Result (A × Entries)) {a : A} {v : World}
    → entries_after w r ≡ returned a v
    → (entries : Entries) × (r ≡ ok (a, entries)) × (v ≡ record w { entries = entries })
entries_after-eq_returned w (ok (b, entries)) h =
    (entries, ap (λ x. ok (x, entries)) (returned_value h), sym (ap (λ o. stores_after o) h))
entries_after-eq_returned w (err e) h = cc

-- A wallet call that returned did so on the entries, and only they have changed.
pub on_wallet-eq_returned {ℓ} :
    {A : Type ℓ} (call : Entries → Result (A × Entries)) (w : World) {a : A} {v : World}
    → on_wallet call w ≡ returned a v
    → (entries : Entries) × (call w.entries ≡ ok (a, entries))
      × (v ≡ record w { entries = entries })
unfolding on_wallet
on_wallet-eq_returned call w h = entries_after-eq_returned w (call w.entries) h

tickets_after-eq_returned :
    (w : World) (r : Result Claimed) {t : TicketRecord} {v : World}
    → tickets_after w r ≡ returned t v
    → (c : Claimed) × (r ≡ ok c) × (v ≡ record w { tickets = c.store })
tickets_after-eq_returned w (ok c) h = (c, refl, sym (ap (λ o. stores_after o) h))
tickets_after-eq_returned w (err e) h = absurd cc

-- A claim that returned did so on the tickets, and only they have changed.
pub on_tickets-eq_returned :
    (call : Tickets → Result Claimed) (w : World) {t : TicketRecord} {v : World}
    → on_tickets call w ≡ returned t v
    → (c : Claimed) × (call w.tickets ≡ ok c) × (v ≡ record w { tickets = c.store })
unfolding on_tickets
on_tickets-eq_returned call w h = tickets_after-eq_returned w (call w.tickets) h

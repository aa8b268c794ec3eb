-- ===== src/Lib.antt =====
-- Verification of the core of the lottery platform: money, purchases, draws and tickets.
--
-- The program is a TypeScript workspace. packages/domain holds pure functions over immutable records,
-- packages/application the services that compose them over stores, packages/infrastructure the stores.
-- A purchase request moves through the states of packages/domain/src/request-state.ts; its money moves
-- through the ledger; its canonical purchase follows the draw, which is closed and then settled; the
-- ticket of a purchase is verified, and its winnings are claimed and paid.
--
-- Which file models which part:
--   Domain/RequestState       packages/domain/src/request-state.ts, and the paths through its tables
--   Domain/PurchaseRequest    packages/domain/src/purchase-request.ts: Request for the legacy request,
--                             Canonical and Outcome for the canonical purchase, Journal and Lifecycle
--                             for what holds of all reached records
--   Domain/PurchaseDraft      the payload of packages/domain/src/purchase-draft.ts and its copy
--   Domain/Draw               packages/domain/src/draw.ts
--   Domain/Ledger             packages/domain/src/ledger.ts
--   Domain/Ticket             packages/domain/src/ticket.ts
--   Domain/Winnings           packages/domain/src/cash-desk.ts
--   Domain/Attempt            packages/domain/src/retry-policy.ts, terminal-attempt.ts and
--                             terminal-execution.ts
--   Domain/Catalog            packages/domain/src/lottery-registry.ts
--   Domain/Notification       packages/domain/src/notification.ts
--   Application/LedgerStore   packages/infrastructure/src/ledger/in-memory-ledger-store.ts
--   Application/WalletLedger  packages/application/src/services/wallet-ledger-service.ts
--   Application/TicketClaim   packages/application/src/services/ticket-claim-service.ts over
--                             packages/infrastructure/src/purchase/in-memory-ticket-store.ts
--   Application/TerminalRetry packages/application/src/services/terminal-retry-service.ts; Rounds
--                             composes it with the queue as apps/terminal-worker/src/main.ts does
--   Application/NotificationService
--                             packages/application/src/services/notification-service.ts
--   Application/VerificationQueue
--                             packages/application/src/services/ticket-verification-queue-service.ts
--   Application/Store         the stores of packages/infrastructure/src/purchase/in-memory-*.ts and of
--                             packages/infrastructure/src/draw/in-memory-draw-closure-store.ts
--   Application/World         the contents of all stores, and what surrounds a call
--   Application/PurchaseState packages/application/src/services/canonical-purchase-state.ts
--   Application/Compatibility packages/application/src/services/canonical-compatibility.ts
--   Application/Orchestration packages/application/src/services/purchase-orchestration-service.ts:
--                             Advance, Confirm, Priority, Cancel, Recover, Reserves and Reconcile for
--                             the code, the other modules for what holds of it
--   Application/Winnings      packages/application/src/services/winnings-credit-service.ts (Credit),
--                             cash-desk-service.ts (Desk) and winning-fulfillment-service.ts
--                             (Fulfillment); Claims, OnePath, Past and Processed for what
--                             holds of them
--   Base                      what the language gives the program, and lemmas that the parts share
--   Tests                     the code run on concrete inputs
--
-- How code becomes definitions. A function keeps its name in snake case and its order of checks; an
-- interface is a record and a union of literals is a data type. A call that may throw returns a
-- Result, whose error is the class and the message of what is thrown. A service's call takes the
-- contents of its stores and returns the new contents beside its result. A service over several
-- stores is an Action of Base/Action: it takes the World of all stores to what it returns or throws,
-- and to the stores as they are then, so that what was written before an exception stays written. A
-- try block is the combinator attempt. Its Surroundings are the engine, the clock, which is read
-- once for a call, and the factory of entry ids, a function of the idempotency key. The store of
-- canonical purchases is given, as the program's roots give it. A comparison of records by
-- reference, which asks whether a step returned its argument, is the type Updated. Base/Keyed has
-- the lists that hold one record for a key. Asynchronous calls are run one at a time, save where a
-- theorem composes the steps of two calls itself. Copies of records and arrays are equal to what
-- they copy, since no modelled code changes a record in place.
--
-- What the JavaScript engine does is in Base/Platform: case mapping, the reading and printing of dates
-- and localeCompare are parameters, with the laws that the code relies on as the record IsLawful; a
-- theorem that needs them takes that record. Tests/Engine has an engine with these laws. Trimming,
-- templates and the comparison of texts are defined. Array sort is an insertion sort: the standard asks
-- for a stable sort, and all stable sorts agree under a consistent comparator.
--
-- Bounds. An amount is a Number: NaN, an infinity, an exact integer or a fraction with its whole part;
-- rounding of integers past 2^53 is left out. The time to live of a draw snapshot and the display order
-- of a lottery are integers, where the program has a number: a snapshot that was seeded with a fraction
-- of a second is outside the model. No definition runs on fuel but the printing of an integer,
-- which is given one step more than its value and so more than its digits.
--
-- Not modelled: the PostgreSQL stores, the web application, the terminal worker, the lottery handlers
-- and the scripts, which are input and output; the services for the creation and the completion of
-- requests, for execution, settlement, access and reports, and the validation of drafts.
pub mod Base
pub mod Domain
pub mod Application
pub mod Tests

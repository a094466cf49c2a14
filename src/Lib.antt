-- ===== src/Lib.antt =====
-- Verification of payment-engine-v2, a payment engine that takes crypto deposits and pays out fiat.
--
-- The program. A tenant opens a payment session (internal/session): the corridor, the destination
-- and the tenant's entitlement are checked, the session is screened (internal/compliance), a rate is
-- locked (internal/rate) and deposit instructions are reserved (internal/treasury). Deposit events
-- move the session to `deposit_confirmed`; internal/settlement then dispatches the payout and moves
-- it to `settled`, and every movement of money is a posting of internal/ledger. Modules share one
-- Postgres database, and events go through an outbox (internal/platform/eventbus) in the
-- transaction of the change that they announce.
--
-- What is modelled, and where:
--   Db.antt        calls to Postgres (internal/platform/db). A method is a function of the tables and
--                  of a list of answers, one per call: the call ran, was refused with no effect, or
--                  took effect while its answer was lost. `transaction` is Begin, the body and
--                  Commit, with Rollback deferred. Db/Keeps.antt has the relations that every
--                  method built from these keeps, Db/Ends.antt how a transaction ends. The
--                  theorems hold for every list of answers unless they say that the database
--                  answers (the empty list).
--   Ledger.antt    internal/ledger/ledger.go and reconcile.go. Ledger/Post.antt has Post with its
--                  checks, Ledger/Reconcile.antt sweepOnce and flagDrift, Ledger/Resolve.antt
--                  ResolveDiscrepancy, Ledger/Accounts.antt GetOrCreateAccount, GetBalance and
--                  GetBalanceForTenant; the other files have the proofs.
--   Session.antt   internal/session/session.go, events.go and ttl.go. Session/Cas.antt has the
--                  compare-and-set transitions, Session/Create.antt CreateSession,
--                  ResolveComplianceHold (with ResolveHold of internal/compliance) and
--                  transitionToPending, Session/Handlers.antt the deposit handlers,
--                  Session/Ttl.antt the sweeps. Session/Diagram.antt is the state machine that
--                  these implement, as a relation on statuses: it lacks the way from `reversed` to
--                  `settling` that docs/ARCHITECTURE.md (section 9) gives to the operators and no
--                  operation takes, and has one from `pending` to `deposit_confirmed`, which the
--                  document lacks.
--   Settlement.antt  internal/settlement over the ledger and the sessions, whose tables are fields of
--                  its own. Settlement/Dispatch.antt has dispatchAttempt with selectProvider,
--                  Settlement/Failure.antt handleAttemptFailure, failSettlement and
--                  handToManualPayout, Settlement/Process.antt processSettlement, the queue and
--                  handleDepositConfirmed, Settlement/Webhook.antt the callbacks and ManualSettle,
--                  Settlement/Inbound.antt the worker's tick, the sandbox and the Telegram button,
--                  Settlement/Ops.antt RetryPayout, ResolveReversal and the paging sweep,
--                  Settlement/Transition.antt transitionSettlementAndPublish. `requests` is the log
--                  of what the providers were asked to pay. The retries of one dispatch are
--                  recursion on fuel, and dispatchBatch takes a number of rounds; a retry counts up
--                  to MaxAutoRetryAttempts, so three rounds of fuel are enough for any dispatch
--                  (Settlement/Ends.antt), and a run out of fuel is an error of the model's own.
--                  Settlement/Diagram.antt is the state machine of a settlement as a relation,
--                  Settlement/Runs.antt the histories: operations in any order, each with its own
--                  services and answers, among postings and session operations of other modules.
--   Bus.antt       internal/platform/eventbus/eventbus.go and cleanup.go. Bus/Dispatch.antt has the
--                  outbox, Publish, dispatchOne, dispatchBatch and the cleanup, over any handlers;
--                  the batch's size is the recursion's bound. The ledger and the sessions keep the
--                  events that they publish in a list of their own, without the dispatcher's
--                  columns.
--   Idempotency.antt  internal/platform/idempotency/idempotency.go: Reserve and Complete. What
--                  Postgres makes of a body, a JSONB column, is a parameter.
--   RateLimit.antt  internal/platform/ratelimit/ratelimit.go. RateLimit/Limiter.antt has Allow and
--                  sweep, with the estimate and its comparison over the operations of float64, a
--                  parameter, of which the theorem asks what IEEE 754 gives (IsRounded in
--                  RateLimit/Bounds.antt).
--   Rlp.antt       internal/treasury/wallet/rlp.go: the codec of transactions. Rlp/Codec.antt has both
--                  directions; a uint64 has eight bytes, which is the encoder's fuel, and each
--                  item takes a byte of the payload, whose length is the decoder's fuel.
--
-- Names follow the source in lower case: TransitionToSettled is transition_to_settled. A UUID is a
-- number, and the one that the database draws is an argument, or the next of the settlement
-- tables; a time is a number of nanoseconds; an amount counts units of 10^-22, the last
-- place of a product of an amount, a price and a rate, and a column NUMERIC(36, 18) rounds what is
-- written to it (`stored` of Base/Decimals.antt): entries, cached balances, the amounts of a
-- settlement and of a session. Ledger/Exact.antt has the postings whose amounts have at most 18
-- decimals, which nothing rounds. That a value has too many digits for its column is one of the
-- refusals of the database. A table is a list of rows, the newest first. One call of another module
-- is one answer of `Services`, and decimal products, quotients, rounding up and printing are fields
-- of it. The loops run over lists of rows or entries, but where fuel is named above.
-- Statements of concurrent calls interleave only between the operations of a run; within an
-- operation the tables are its own, which for a single UPDATE or a transaction is what Postgres
-- gives, and for the reads before them is an assumption.
--
-- Of internal/settlement the messages to Telegram and the note of a resolved reversal are left out,
-- and what a provider answers to a payout or sends as a callback is one answer of `Services`.
--
-- Not modelled: treasury, the HTTP clients of the providers, the notification, tenant and gateway
-- modules, the ticker loops, listings for pages of the dashboards, HTTP and JSON.
pub mod Base
pub mod Bus
pub mod Db
pub mod Idempotency
pub mod Ledger
pub mod RateLimit
pub mod Rlp
pub mod Session
pub mod Settlement

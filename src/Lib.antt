-- ===== src/Lib.antt =====
-- The money core of the FARM backend: escrow, transfers between wallets, requests for money,
-- payments to businesses and by agents, the reserves of projects, the fee schedule, the transaction
-- PIN, and who may manage a business's team.
--
-- The parts, and the code that each is about:
--   * Prelude: natural numbers, integers, texts, and database tables as association lists.
--   * Fees: src/fees/fee-defaults.ts (`computeFee` is `compute_fee`, `defaultPercent` is
--     `default_percent`) and src/fees/fees.service.ts (`rules` with its cache, `quote`).
--   * Store: rows of prisma/schema.prisma, and actions over the tables. An action returns a value or
--     an exception, with the tables after it; `transaction` is `prisma.$transaction`, which puts the
--     tables back where an exception leaves it. Store.Rules has one rule for each way to build an
--     action, and Store.Balance and Store.Ledger say what each write does to the sums of money.
--     A table that holds no wallets and no escrows is reached through a `Field`, its place in the
--     database with the laws of reading and writing it, so that code over several tables is one.
--   * Auth: `setPin`, `verifyPin` and `changePin` of src/auth/auth.service.ts, `verifyDevice` of
--     src/security/security.service.ts.
--   * Escrow: src/escrow/escrow.service.ts, each handler under its name (`executeRelease` is
--     `execute_release`), and `resolveDispute` of src/admin/admin.service.ts. Escrow calls Auth to
--     check who sends a request and Fees for what a creation or a release costs.
--   * Wallets: `sendFunds` of src/wallets/wallets.service.ts, and `creditPlatformInTx` and
--     `creditWalletInTx` of src/fees/fee-defaults.ts.
--   * Requests: src/transfer-requests/transfer-requests.service.ts and
--     src/payment-requests/payment-requests.service.ts. Both run the same code on a table each; the
--     model writes it once over the table (`ask`, `accept_tx`, `close_request`, `expire_each`), and
--     each handler is an instance (`requestFunds` is `request_funds`, `createRequest` is
--     `create_request`, the two `acceptAndTransfer` are `accept_transfer` and `accept_payment`).
--     Accepting calls Auth, and Fees for the fee of a transfer.
--   * AgentPayments: src/agent-payments/agent-payments.service.ts, each handler under its name.
--     `payIntent` calls `sendFunds` of Wallets, and `refundFromDashboard` the permissions of Team.
--   * Projects: src/project-marketplace/consolidation.ts, and `closeRound`, `creditInvestor`,
--     `refundReserveForLoss` (`refund_for_loss`) and `releaseReserveToFarm` (`release_to_farm`) of
--     src/project-marketplace/project-review.service.ts.
--   * Team: src/business-ops/permissions.ts, `resolve` of src/business-ops/business-access.service.ts,
--     and `add`, `update` and `remove` of src/business-ops/business-team.service.ts.
--   * Fixture: concrete tables for the tests, which stand in the modules named Examples.
--
-- How the model stands to the code:
--   * An amount of FARM is a number of atoms, 10^-8 FARM, the scale of the Decimal(30, 8) columns, and
--     a percentage a number of 10^-4 percent. On these scales the arithmetic is exact, where the code
--     uses binary floats; `Number.EPSILON`, which absorbs their error, has no counterpart. A balance
--     is an integer: the columns have no check and a decrement can take one below zero.
--   * Ids and references are numbers, times are milliseconds, texts are lists of UTF-16 units. A
--     nullable balance, count or flag is read as its default. A text that is missing is the empty
--     text where the code tests it for truth, also where `??` would tell the two apart. The message
--     of an exception is kept without the values that the code puts into it.
--   * bcrypt, SHA-256, the parsing of a URL, base64 decoding and Cloudinary are parameters. So are
--     the limits of agent payments, the clock, the ids that the database chooses and the fee rules in
--     force during a request; one reading of the clock stands for those of one request.
--   * A handler whose read and write are separate statements outside a transaction (`close_request`,
--     `create_agent_request`) runs as one step. So does a sweep, but not in
--     Requests.Interleaved, where other handlers run between its updates. `execute_release` and
--     `execute_refund` answer the amount that they move, where the code returns nothing.
--   * A handler is split into its checks and its database transaction. `execute_release` and
--     `execute_refund` take the row that their caller has read, as in the code, and may run on tables
--     that have changed since: the theorems about the transactions hold in any state, so
--     also where handlers interleave between checks and transaction. A transaction itself is atomic.
--   * No loop needs fuel: the automatic releases and the sweeps of expired requests recur on the
--     list of the rows that were read.
--
-- Not modelled: notifications, websocket events, caches of answers, audit and activity logs, the text
-- of descriptions, `updated_at`, and the project_reviews rows of `refundReserveForLoss` and
-- `releaseReserveToFarm`, none of which the modelled code reads back; the listings (`list`,
-- `getOne`, `publicSchedule`); and the other modules of the backend.
pub mod Prelude
pub mod Fees
pub mod Store
pub mod Auth
pub mod Escrow
pub mod Wallets
pub mod Requests
pub mod AgentPayments
pub mod Projects
pub mod Team
pub mod Fixture

-- ===== src/Lib.antt =====
-- LDB DVA backend: dedicated virtual accounts for the customers of a merchant. Nomba reports each
-- inbound bank transfer by a signed webhook; the backend enters it in its ledger, credits the
-- customer's wallet or quarantines the payment, and tells the merchant's own webhooks.
--
-- The parts and the files that model them:
--   Model, Model/Enums, Model/Rows, Model/State: app/models/ and app/enums/. One record for each
--     table, the unique constraints as a test between two rows, and the state of all tables
--     (`World`), with the outbound requests made so far and a counter of draws and clock readings.
--   Constants: app/constants.py. References: `generate_reference` of app/utils/references.py.
--   Helpers: the pure functions of app/services/helpers.py.
--   Forwarder: app/services/webhook_forwarder.py.
--   Reconciliation: app/services/reconciliation.py. `read_payment` is the part of `process_payment`
--     that reads the webhook body, `route_payment` the part from the test on the account on,
--     `credit_payment` the part for an active account.
--   Webhooks: app/services/webhooks.py. `receive` is cut at its tests into `receive_request`,
--     `receive_event` and `receive_payment`.
--   Responses: the response builders of app/services/helpers.py.
--   Nomba: app/integrations/nomba/virtual_account.py and transactions.py. Nomba/Auth:
--     app/integrations/nomba/auth.py, the access token and its cache; Nomba/Tokens: its proofs.
--   Customers, Customers/Profile: app/services/customers.py. `create` is cut at its tests.
--   Accounts: app/services/accounts.py. The children of these two hold proofs.
--   Statements: app/services/statements.py.
--   Hooks: app/api/controller/hooks.py with app/integrations/nomba/webhook_verify.py.
--   Handlers: app/error_handlers.py.
--   Nightly: app/jobs/nightly_reconciliation.py; its children hold the proofs.
--   Api: app/api/router/, app/api/controller/ and app/api/security/merchant_auth.py. `serve` runs a
--     request, and `answer` gives its response too. Each controller that takes `ValidMerchant` starts
--     with `get_merchant_from_bearer`, as FastAPI runs the dependency before it.
--   Middlewares: app/middlewares/request_logger.py and metrics.py, around an application that is a
--     parameter, with `\d` as the parameter `is_decimal`.
--   System: the requests and the nightly job as steps between states (`Step`), and the states that
--     they lead to from the empty tables (`Reach`) or from a given state (`Later`).
--   Webhooks/Marks, Webhooks/Kept, System/Marks: no step forgets a processed event.
--   Ledger: the abstract view of customers, accounts and transactions that the proofs go by;
--     Ledger/Sound: the invariant of these tables, and each way in which a service changes them.
--   Action/Safe, Action/Hoare: rules for what holds after a call, by how it ends.
--   Tests: a sample state, and the theorems applied to it.
-- Api calls Customers, Accounts, Statements, Forwarder, Webhooks and Hooks. Hooks calls Webhooks, which
-- calls Reconciliation, which calls Helpers and Forwarder; Statements reads the tables that
-- Reconciliation writes.
--
-- How the code is read:
--   A service call is an `Action`: it takes the state and yields a result or an exception together
--   with the state, since a write before an exception stays written (the code opens no database
--   transaction). Each `await` of the ORM is one query or one write. Calls do not interleave.
--   Tortoise ORM is the parameter `orm`; `IsLawful` states the documented behaviour that the
--   services rely on, and Orm/Memory gives an ORM over lists that has it.
--   Random numbers, the clock, number formats, HMAC and the merchants' HTTP endpoints are the
--   parameter `Runtime`; what the signature test takes from outside is the parameter `Gate`.
--   The HTTP calls of Nomba's client are the parameter `nomba`, a function from what is sent to how the
--   call ends; `parse_uuid` and `newest_first` stand for `UUID(s)` and `order_by("-created_at")`.
--   A `Decimal` is an integer number of hundredths: amounts have two decimals at most. A UUID is its
--   128-bit value. JSON numbers are in hundredths too. A JSON value that is stored in a text column
--   is stored as `str` of it; the same text is what is compared with the column.
--   `generate_reference` loops until a draw has no leading zero; the model follows it through
--   `rounds` further draws, and a good draw among these is enough for it to return.
--
--   Redis is the parameter `Redis`, with its documented behaviour in `IsRedis`. The token service has a
--   state of its own, and a call of Nomba's client takes from it only whether the login raised
--   (`with_login`).
--   A request is what FastAPI has parsed and validated; a step of the system is one whole request or
--   one whole run of the job.
--
-- Not modelled: the log lines of the services, the rate limiter, the CORS and security headers, the
-- times that the middlewares measure, maximum lengths of columns and fields, how pydantic serialises the responses, the wiring of the start-up.
pub mod Base
pub mod Json
pub mod Middlewares
pub mod Model
pub mod Action
pub mod Orm
pub mod Constants
pub mod Runtime
pub mod Tables
pub mod References
pub mod Helpers
pub mod Forwarder
pub mod Reconciliation
pub mod Webhooks
pub mod Ledger
pub mod Handlers
pub mod Hooks
pub mod Responses
pub mod Nomba
pub mod Customers
pub mod Statements
pub mod Accounts
pub mod Nightly
pub mod Api
pub mod System
pub mod Tests

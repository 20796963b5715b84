-- ===== src/Lib.antt =====
-- Verification library of the trading core of stock-ai-platform: paper trading and real orders.
--
-- The program and its files. A user or a strategy asks for an order. ApprovalService
-- (app/approval/approval_service.py, here Approval with Shared, Create and Decide) stores it as a
-- candidate through OrderCandidateRepository (app/data/repositories/order_candidate.py, here
-- Candidate), asks PreTradeRiskEngine (app/risk/pre_trade_risk_engine.py, here Risk with Rules and
-- Evaluate), records each step through ApprovalAuditLogRepository
-- (app/data/repositories/approval_audit_log.py, here Audit), and on approval hands the candidate to
-- SimulationBroker (app/broker/simulation_broker.py, here Broker and Broker/Match). The broker books
-- orders (app/data/repositories/virtual_order.py, here Order), and its matching run fills them at the
-- day's prices (app/data/repositories/daily_prices.py, here Prices) through PnLTracker
-- (app/paper/pnl_tracker.py, here Tracker, with the daily snapshot of
-- app/data/repositories/virtual_pnl_snapshot.py in Tracker/Snapshot), which computes costs
-- (app/backtest/cost_model.py, here Cost) and moves the rows of accounts, positions and fills
-- (app/data/repositories/virtual_account.py, virtual_position.py and virtual_fill.py, here Account,
-- Position and Fill). The HTTP handlers of app/api/approval_routes.py are in Approval/Route. The
-- real-order path stands beside it: RealOrderExecutor (app/broker/real_order_executor.py, here Executor
-- with Words, Place and Run) puts an approved candidate through ten gates and then to a transport of
-- app/broker/kis_order_client.py (here Kis), and FillSyncService (app/broker/fill_sync_service.py, here
-- FillSync with Words and Service; its handler in app/api/real_order_routes.py is FillSync/Route) turns
-- what the broker reports into rows of app/data/repositories/real_order.py and real_fill.py (here
-- RealOrder and RealOrder/Fill). RealTrading runs both on the same tables. Apart from these stand the login guard (app/auth/brute_force.py, here Login) and the retry loop and the
-- circuit breaker for data providers (app/data/provider_resilience.py, here Resilience), and the
-- walk-forward split of backtests (generate_folds of app/backtest/walk_forward.py, here Backtest) with the
-- regime of a signal (app/backtest/regime_split.py, here Backtest/Regime). Books holds
-- the invariant of the money across Account, Position, Tracker and Broker; Examples holds concrete
-- rows and runs.
--
-- How state and operations correspond. The database session is the record Session of Store/Rows:
-- the tables of app/db/models.py as lists of rows in insertion order, the next key of each, and the
-- time that utc_now returns, which does not move within a call. A function that takes a SQLAlchemy
-- session is an Action of Store/Monad: it returns or raises, and what it wrote before a raise stays
-- in the session until the handler commits or drops it. A row that the source mutates in place is
-- passed as a value, comes back as it was written, and is written into its table under its key.
-- Names are the source's, without leading underscores.
--
-- What the model leaves out of this code. Decimal is an exact rational (Base/Decimal): the rounding
-- to 28 digits and to the four places of a Numeric(18, 4) column is left out. Exceptions carry their
-- class and no message; the order of a failed fill keeps the name of the exception where the source
-- keeps its message. A violation keeps its rule and not its message or details, and a candidate's
-- risk_check_result_json is the verdict itself. Words of a fixed set are data types, parsed where the
-- source tests them. Text is ASCII for strip and upper. Moments are natural numbers of microseconds,
-- dates are natural numbers of days, Korean time is nine hours ahead of UTC, and the monotonic clock
-- and the delays are whole ticks. Columns that none of the modelled code reads (created_at of some
-- tables, OHLV of a price, the JSON of a snapshot) are left out. SHA-256 in the guard's keys and
-- in the hashes of order numbers is a parameter; a data provider is a parameter. A transport other than
-- the fake is a parameter that answers as a function of the requests it was put before, and may raise;
-- Session.sent is the log of those requests, a ghost of the model. The texts of the executor's and the
-- sync's results are left out. Case in the scrubbing of messages is that of ASCII. Status codes that the handlers read off messages are
-- left out.
--
-- Fuel. decimal, the rendering of a number, has one round per digit and gets n + 1 of them, which is
-- enough since each round divides by ten. generate_folds has one round per day of the range and two
-- more, which is enough when a validation window has at least a day, since each round moves on by one
-- window; with a window of no days the source's loop does not end. Nothing else needs fuel: the loops
-- go over lists, and the retry loop over its attempts.
--
-- Not modelled: the HTTP transport (app/broker/kis_order_transport_real.py, a network client), the
-- backtest engines, the decision and scoring engines, importers, providers, the scheduler, notification,
-- monitoring, the remaining HTTP routes and the frontend.
pub mod Base
pub mod Store
pub mod Candidate
pub mod Audit
pub mod Account
pub mod Position
pub mod Order
pub mod Fill
pub mod Prices
pub mod Cost
pub mod Tracker
pub mod Broker
pub mod Risk
pub mod Approval
pub mod Books
pub mod Login
pub mod Resilience
pub mod Examples
pub mod RealOrder
pub mod Kis
pub mod Executor
pub mod FillSync
pub mod RealTrading
pub mod Backtest

-- ===== src/Lib.antt =====
-- AIMOS, an autonomous crypto trading system in Python (package aimos), in three layers: observation
-- engines turn market data into evidence, the intelligence layer turns evidence into an understanding
-- of the market, and the execution layer turns that into a plan, sizes it, checks it and sends it to a
-- broker. Around them stand the journal, the controls of the operator and the choice of assets.
--
-- How the parts interact. Each tick the observation engines give evidence, the intelligence layer makes
-- an understanding of it, and the execution layer decides on a plan: the plugins propose, the evaluator
-- selects, the sizer sets a size and the risk manager has the last word. The orchestrator takes that
-- plan, or one that trades nothing when the system is halted or paused, and writes the decision to the
-- journal. The mandate gate stands in front of the live broker; the boot guard of the go-live ladder
-- stands in front of the whole live mode. The operator acts through the Telegram bot on the orchestrator
-- and on the feature toggles, and through the endpoints that a token opens. The tier engine says which
-- assets may be traded at all, over the markets that the filters let into the registry. All calls of
-- exchanges go through the rate-limit budgeter. A watchdog restarts a process that falls silent.
--
-- Which file models which part:
-- - Journal: aimos/journal/journal.py (Journal: _append, verify, write_decision, write_outcome and the
--   other writers, the schema of both back ends) and aimos/journal/verify.py. Journal.Sql is the form
--   for a database, which Journal.Mirror compares with sqlite, and Journal.Tamper is about changes behind
--   the back of the journal.
-- - GoLive: aimos/runtime/golive.py (GoLiveLadder: mark, unmark, set_marker, status; guard_live_boot) and
--   aimos/runtime/atomic_io.py (atomic_write_json). GoLive.Storage stops a save at each of its steps.
-- - Schemas: the records of aimos/core/schemas.py, with the fields that the modelled code reads.
-- - Core: aimos/core/bus.py (EventBus) and aimos/core/evidence_registry.py.
-- - Intelligence: aimos/intelligence, with rule_engine.py (RuleEngine), fusion.py (FusionEngine),
--   finalize.py, confidence.py, scores.py and understand.py (IntelligenceLayer.understand), one module
--   each; confidence.py and finalize.py are Intelligence.Confidence.
-- - Execution.Risk: aimos/execution/risk_manager.py (RiskManager.check). Execution.Trade:
--   aimos/execution/trade_manager.py (TradeManager.step). Execution.Evaluator: evaluator.py beside it
--   (Evaluator.evaluate). Execution.Sizer: position_sizer.py (PositionSizer.size). Execution.Decide:
--   decide.py (ExecutionLayer.decide). Execution.Plugins: base_plugin.py and the plugins of the folder
--   plugins, which Execution.Plugins.Build lists as build_plugins does.
-- - Broker: aimos/execution/broker/live.py (MandateGate, LiveBroker.place, DivergenceTracker),
--   aimos/execution/broker/live_router.py (execute_arb) and aimos/runtime/reconciliation.py; in
--   Broker.Venues multivenue.py (MultiVenueSim, performance).
-- - Paper: aimos/execution/broker/paper.py (PaperBroker: place, step, apply_funding, drain_outcomes).
-- - Runtime: aimos/runtime/pipeline.py (PipelineOrchestrator: pause, resume, halt, check_halt, tick, with
--   the decision put in by Runtime.Decided),
--   aimos/runtime/features.py (FeatureController.set), aimos/runtime/watchdog.py (Watchdog.check) and, in
--   Runtime.Store, aimos/runtime/state_store.py (ControlStore, RuntimeStateStore, build_snapshot).
-- - Telegram: aimos/telegram/security.py (ChatWhitelist, NonceStore) and aimos/telegram/bot.py
--   (CommandRouter.handle with every command, TelegramBot.poll_once).
-- - Universe: aimos/universe/tiers.py (TierEngine), aimos/universe/filters.py (filter_market),
--   aimos/universe/registry.py (Registry), and in Universe.Depeg depeg.py and intersection.py.
-- - Data: aimos/data/ratelimit.py (TokenBucket, RateLimitBudgeter), aimos/data/orderbook.py (the
--   aggregates, the walk along a book and BookWindow; Data.Book), aimos/data/quality.py, and in
--   Data.Stream streaming.py (the messages of the adapter, StreamRecorder), stream_feed.py (StreamFeed)
--   and streams.py (StreamHealth, RecordedStreamSource).
-- - Auth: aimos/auth/security.py (FailedLoginTracker, the tokens, get_current_user) and the endpoints
--   login and refresh of aimos/auth/router.py.
-- - Risk: aimos/risk/counterparty.py and aimos/risk/scenario.py. Backtest: aimos/backtest/costs.py.
-- - Agents: aimos/agents, with proposals.py (approve, reject), analyst.py, sentinel.py and ops.py.
-- - Learning: aimos/learning/registry.py (ModelRegistry in a JSON file and in the table of
--   aimos/storage/db.py).
-- - Prelude: what they share. Each module that has theorems has a module Tests beside them.
--
-- How the code is rendered. A mutable object is a record that each operation takes and gives back; an
-- exception is a value (none, or a constructor of its own); a log line is left out. A float is an item
-- of a type with the operations of Prelude.Floats and no law, so that what is proved holds for rounded
-- results, infinities and NaN; where a theorem needs that < is a strict order, as it is on floats, it says
-- so. Dividing by zero is none in the order books and the sizer, and some value elsewhere, where Python
-- raises. Times are numbers of microseconds, or of seconds where the code has those. A dict is a list of
-- pairs in insertion order; a set is a list, gone through in the order that its module names. `lower` and `upper` are those of ASCII. What comes
-- from outside is an argument: the hash function, the exchange client, the time, the nonce that is
-- drawn, the answer of the analyst, JSON and the JSON columns of a database, whether a file can be renamed
-- or removed.
--
-- Bounds and fuel. Only the walk along the hash chain in Journal takes fuel; more rounds than there are
-- rows are enough for it, as is proved there. The search for an exit size tries 32 times, as the code
-- does. Every other loop of the code runs over a list.
--
-- Not modelled: the observation engines, the Bayesian engine and the trained model (data frames, numpy
-- and lightgbm), whose evidence and opinions are arguments; market making, which calls vendored code; the
-- event loop of the backtest and the training; the connectors and the connections of
-- the streams; the databases; a subscriber of the bus that publishes in its turn; the settings;
-- the HTTP server and the asyncio wiring; the assistant and the notices; the dashboard and the scripts.
pub mod Prelude
pub mod Core
pub mod Journal
pub mod GoLive
pub mod Schemas
pub mod Execution
pub mod Broker
pub mod Runtime
pub mod Telegram
pub mod Universe
pub mod Data
pub mod Learning
pub mod Paper
pub mod Agents
pub mod Auth
pub mod Risk
pub mod Backtest
pub mod Intelligence

-- ===== src/Lib.antt =====
-- A model of the investment research agent for Indian equities, and theorems about it.
--
-- The program keeps trades, corporate actions, prices, theses, estimates and valuations in a
-- database, rebuilds portfolios from them, recommends actions, and evaluates decisions of the past
-- without looking at their future. Its parts are services that read and write tables; here a table
-- is a list of rows, a service is a function of the tables, and one that writes returns the new
-- table with its result.
--
-- Fifo models investing_agent/services/reconstruction/fifo.py. A Replay is FifoReplayResult with
-- the queues of open lots. The source shares a lot object between all_lots and its queue; here
-- all_lots is the store and a queue holds positions in it. apply_payload handles one entry of the
-- timeline by apply_opening_adjustment, apply_corporate_action or apply_trade; replay_fifo sorts
-- the entries and handles them in order. The matching loop of a sale runs on fuel, one round for
-- each lot of the queue, which is enough: every round ends the sale or closes a lot.
--
-- Reconstruction models the modules around the engine: Trades is replay.py, Snapshot is
-- _build_snapshot of service.py, Store is get_portfolio_as_of with the queries of
-- investing_agent/db/repositories that it makes, and Reconcile is reconciliation.py. It calls
-- replay_fifo.
--
-- Recommend models investing_agent/services/current_recommendations.py: Policy is the body of the
-- loop over the symbols, Generate the queries and the loop.
--
-- WalkForward models investing_agent/services/walkforward: Decisions is decisions.py with the table
-- of decisions, Returns is returns.py, Prices is prices.py, Outcomes is outcomes.py with the table
-- of outcomes, Aggregation and Report are aggregation.py with the exclusion rules of audit.py, and
-- Comparator is comparator.py. Decisions calls get_portfolio_as_of, and Outcomes the price tables.
--
-- Facts models the tables of facts. Versions is the versioning that
-- investing_agent/db/repositories/financial.py and corporate_action.py share, over a record of what
-- a table says of its rows; Financial and Actions are the two tables, Corrections and Calendars their
-- other queries and writes. Verification is investing_agent/services/verification.py. Theses and
-- Evidence are investing_agent/db/repositories/thesis.py and investing_agent/services/active_theses.py,
-- which read the tables of facts.
--
-- Estimation models investing_agent/services/estimation/deterministic.py: Deterministic has growth
-- and margins, Derived the profit, the earnings per share, the confidence and the whole estimate.
--
-- Policy models investing_agent/services/governed_policy.py over the audit rows of WalkForward.
--
-- Common has the shared types: integers over the native numbers, dicts, sorting, and the arithmetic
-- of Decimals. A Decimal is an integer number of units, so that sums and comparisons are exact;
-- products and quotients are rounded by the decimal context, which is a parameter, with what is
-- relied on in IsPositive. Symbols, texts and identifiers are numbers, but for the texts that the
-- code takes apart. Dates are ordinals and instants microseconds. An exception is none. The
-- parameters are the decimal context, the parsing of decimals, the price provider, the calendar of
-- the datetime library, the median and deviation of the statistics library, the ids and the time of
-- the database, the upper case of a symbol, the texts of notes, and whether the text of a warning
-- contains a symbol. Rows are read back as they were written, but for the figures of financial
-- results, which their columns round: Facts/Reload has what the columns make of them as a parameter.
--
-- Not modelled: input and output, the database and its transactions, asynchronous scheduling, the
-- calls of language models and brokers; texts made for display; the writes of reconstruction; and
-- the services that no file here names, among them the personal policy, backtesting, valuation and
-- the agent graph.
pub mod Common
pub mod Fifo
pub mod Estimation
pub mod Facts
pub mod Reconstruction
pub mod Policy
pub mod Recommend
pub mod WalkForward

-- ===== src/Lib.antt =====
-- Verification of stock--center, the back end of a stock data centre (python-back/app).
--
-- The program's parts. The scheduler center (python-back/app/modules/scheduler_center) keeps jobs and
-- their runs in two tables, rewrites crontab expressions for its timer, checks the parameters of a
-- run against the job's schema, and starts, executes with retries, finishes, cancels and sweeps
-- runs. The jobs' handlers fetch market data under two rate limits: the realtime budget
-- (realtime_market/rate_limit.py), one sliding window per provider, and the Tushare coordinator
-- (market_data/tushare/rate_limit.py), one window per token, from which the Tushare failover
-- (market_data/tushare_runtime.py) reserves the tokens that the config center keeps. Quotes are
-- compared with derived price limits (realtime_market/a_share_limit.py), cached with leases
-- (core/redis_client.py). The strategy center (strategy_center) matches stocks by daily rules
-- (builtins.py), simulates their trades over a historical baseline and promotes versions to paper
-- (service.py), confirms and exits paper trades during the session (realtime_service.py, with the
-- tables of models.py and repository.py), and searches baselines for better parameters
-- (optimization.py). Language models are asked with the config center's keys (llm_runtime).
-- Stock pools (stock_pool) say which stocks belong together, and by their policies which of them the
-- realtime runtime (realtime_market/service.py) watches.
--
-- Files. Base: shared names, tests, lists, integers, texts and JSON values. RateLimit: Window has the
-- sliding window that both limits share; Realtime is RealtimeRateBudget and Tushare is
-- TushareRateCoordinator, their methods under the source's names. Scheduler: Cron and Payload are
-- scheduler_center/validation.py; Store is models.py and repository.py; Execution (how a run is
-- executed) and Service (how it is started and cancelled) are service.py; Runtime is runtime.py and
-- Admin the changes of jobs. Tokens is the table of values in
-- config_center/repository.py, and Tokens.Runtime the failover. Cache is core/redis_client.py,
-- PriceLimit is a_share_limit.py and Optimization is optimization.py. Paper is realtime_service.py:
-- Entry and Exits have its triggers, Book the rows and statements of models.py and repository.py,
-- Session the handling of one candidate and of one open trade, and Process the loop over all. Rules
-- is builtins.py: Checks has the universe and the market gate, Matchers the eleven rules, Evaluate
-- the evaluation. Backtest is service.py: the simulated trade, with Fast the quick test and
-- Promotion the versions' statuses. Llm is llm_runtime/service.py: the calls of a language model
-- over the keys of a configuration, and the context that goes with a question. StockPool is
-- stock_pool: the tables and statements of models.py and repository.py, and in Service the calls of
-- service.py. Targets is realtime_market/service.py: the merge of memberships into targets, in Plan
-- what a round asks for, and in Market the pools that repository.py reads. Tests has an example for
-- each theorem that wants one.
--
-- State and operations. An object's state is a record and each method a function from the state and
-- its arguments to the result and the new state. What a method reads from outside (the clock, a
-- fresh uuid, whether the database, a server or a lock answers, what a handler does) is an argument.
-- Bodies under an asyncio lock are single steps, and tasks interleave between them. A table is the
-- list of its rows, and a statement updates every row that its WHERE clause selects. In Paper, Rules and
-- Backtest a raised error is none, and what Python reads from a text is an argument, the record
-- Python; a call that raises commits nothing.
--
-- Numbers. Times are natural numbers: microseconds in the rate limits and the cache, and seconds in
-- the scheduler. Prices, percentages and JSON floats are whole numbers of millionths; the infinities
-- and NaN are left out, and so is the rounding of sums. A quotient is compared by its cross product.
--
-- Fuel. The acquire loops run on fuel, one unit per round, and so does the failover, one unit per
-- candidate and one more to find that none is left. The theorems give enough of it: three rounds for
-- the realtime budget, two for the token coordinator, and the number of values and one for the
-- failover. The retry loops recurse on the number of attempts that are left.
--
-- Not modelled: SQL and transactions below the statements named, HTTP endpoints, the semaphore that
-- only delays a run, the text of error messages, the decision of the timer library when an
-- expression fires, the Redis server, the data pipelines themselves, and in the strategy center the
-- scores that rank candidates, the audit evidence, the queries that load contexts, and reports.
pub mod Backtest
pub mod Base
pub mod Cache
pub mod Llm
pub mod Optimization
pub mod Paper
pub mod PriceLimit
pub mod RateLimit
pub mod Rules
pub mod Scheduler
pub mod StockPool
pub mod Targets
pub mod Tests
pub mod Tokens

-- ===== src/Lib.antt =====
-- The dashboard of the trading system (frontend/src/main.jsx), the control plane behind its
-- settings (control_plane), the intake of the ticks that it draws, up to candles (market_data), and
-- the way from a completed candle to an order (services, risk, execution).
--
-- How the parts interact. The dashboard loads the prices of the selected symbol and range, as ticks
-- or as candles, keeps each loaded series in a cache, merges live ticks from a socket into the
-- series on the screen, and draws it. The operator edits the configuration in a drawer or adds a
-- symbol to the watchlist; each is a request to the control plane, which checks it against the
-- current version, asks for confirmations where orders would become real or automatic, applies it
-- to the application, and stores and audits it. On the server each tick of the market passes a
-- processor, which drops late ones and stores the others for the chart's requests; the candle
-- engine gathers them into candles, whose periods come from the calendar of the exchange. For each
-- completed candle the orchestrator updates the average true range and dispatches the candle to the
-- strategies of its symbol, whose intents it takes in turn: an exit goes to the execution service,
-- an entry first through the risk engine with the portfolio of that moment. The control plane applies
-- a configuration to these parts through the container, which also stops and starts the worker that
-- feeds the ticks; an application that fails half-way is not undone.
--
-- Files:
--   Prelude        Booleans, lists, texts and integers over the native numbers, with their lemmas.
--     Tests, Lists, Int, Texts, TextMaps, Suffixes, Samples, Division
--   Chart          constants, points, `CHART_RANGES` (frontend/src/main.jsx, as all of Chart and Dashboard).
--     Points       `pointFromTick`, `pointFromCandle`, `normalizePoints`.
--     Sampling     `samplePoints`, `capLiveSeries`.
--     Live         `mergeLivePoint`.
--     Nearest      `nearestIndexByTimestamp`.
--     Viewport     the domain and the coordinates of `PriceChart`: `chart_view` is its memo `chart`.
--     Pointer      `selectPoint`, `clearHover`, the animation frame and the effect of a transition.
--     Loader       `request`, `loadChartSeries`.
--     Labels       `formatPrice`, `formatTime`, `formatAxisTimestamp`, `formatHoverTimestamp`,
--                  `buildLinePath`, and the grid, the axis and the active point of `PriceChart`.
--   Dashboard
--     Series       the chart effect and the feed effect of `App`: `chart_step` is one selection, settled
--                  load, message, opening or closing of the socket, or firing of the timer.
--     Settings     `submit` of `SettingsDrawer`.
--     Drawer       the draft of `SettingsDrawer`, its setters and its effect.
--     Summary      `marketSummary` of `App`.
--     Account      `dailyPnl` and `isPaper` of `App`.
--     Watchlist    `refresh`, `save`, `addToWatchlist` of `App` and `submit` of `Watchlist`.
--   ControlPlane   control_plane/types.py, with `TradingMode` of config/settings.py and the fields of
--                  `RiskPolicy` of risk/types.py.
--     Store        `InMemoryTradingControlStore` of control_plane/repository.py.
--     Service      `TradingControlService` of control_plane/service.py: `start`, `get`, `update`,
--                  `list_audit`.
--     Symbols      lemmas on valid symbols.
--   MarketData     market_data/types.py: `MarketTick`.
--     Calendar     `XnysExchangeCalendar` of market_data/exchange_calendar.py: `bucket_for`.
--     CandleEngine  `CandleEngine` of market_data/candle_engine.py: `process_tick`, `finalize_through`;
--                  Series is the abstract view of one symbol and interval, a list of ticks.
--     TickStore    `InMemoryTickStore` of market_data/tick_store.py.
--     TickProcessor  `TickProcessor` of market_data/tick_processor.py: `process` and `consume`.
--     CandleStore  `InMemoryCandleStore` of market_data/candle_store.py.
--     TickChart    `downsample_ticks` of market_data/tick_chart.py.
--     CandleHistory  `HistoricalCandleService` of market_data/candle_history.py.
--   Trading        strategies/types.py: the intents of strategies.
--     Risk         `RiskEngine.evaluate` of risk/engine.py, with risk/types.py.
--     Execution    `AutomatedExecutionService` of execution/service.py over the store of
--                  execution/in_memory.py, with providers/execution.py.
--     Atr          `AtrTracker` of services/trading_orchestrator.py.
--     Orchestrator  `_evaluate_completed_candle` of services/trading_orchestrator.py, for given intents.
--     Strategies   strategies/contracts.py, `StrategyRegistry` of strategies/registry.py and
--                  `StrategyEngine` of strategies/engine.py.
--     Ema          `EmaCrossoverStrategy` of strategies/ema_crossover.py.
--     Pipeline     `TradingOrchestrator` of services/trading_orchestrator.py: `initialize`,
--                  `reconfigure`, `process_tick`; `trading_step` is one tick, one new set of
--                  strategies and limits, or one switch of the automation.
--     Analytics    `_maximum_drawdown` and the counts of `_statistics` of analytics/engine.py.
--     Worker       `start`, `stop` and `reconfigure` of workers/trading_pipeline.py.
--     Container    `start`, `apply_trading_configuration` and the pipeline's part of `readiness` of
--                  services/container.py; `apply_or_raise` is the second over a broker that may refuse
--                  the mode, and a callback of the control plane.
-- The children of a module hold proofs about it; Tests holds concrete inputs.
--
-- Numbers and times. A finite price is an exact integer of units 1e-8, the decimal places that the
-- server keeps; the rounding of doubles is not modelled. An instant is the milliseconds from the
-- earliest date of ECMAScript, so a natural number, and on the server its microseconds. A timestamp
-- of the wire is blank, unparsable or an instant, which is all that the code asks of it. A price
-- domain is in units of 1e-12, in which its factors are whole, and coordinates and the time under
-- the pointer are exact fractions. `Math.round` in a sample is computed on the exact fraction,
-- which is never a tie for 720 points. Decimal settings are naturals of one common unit; the
-- control plane only stores them. In Trading that unit is 1e-8, that of the amounts, so that a
-- product of two is in units of 1e-16; an average true range is a sum and a number to divide by.
--
-- Fuel. The binary search runs on fuel, the length of the series and one more; each round drops an
-- index at least, and the search is proved to end. The loop of the candle store that drops the
-- oldest candles has one unit for each candle, drops one in each round, and is proved to end. All
-- other recursion is structural.
--
-- Parameters. What the network answers, what the operator types, `trim`, `toUpperCase`, `strip` and
-- `upper`, the callback that applies a configuration to the application, which may raise half-way and
-- leave anything behind, and what the packages exchange_calendars and pandas say of the days of the exchange are arguments; `IsExchange` states
-- what their documents promise. So are the candles that a provider answers with, what the broker
-- answers to each call after the calls before it, and the digest that makes an order id. A strategy
-- is any record of its methods; of Python's Decimal the EMA strategy takes the operations and, where
-- a theorem names it, that a number that is at most zero is not above it. The formats of `Intl` and
-- `toFixed` are arguments of the labels.
--
-- Simplifications. React runs an effect when its dependencies change, which is written out in
-- `select_symbol` and `select_range`. The operations of the watchlist take what their requests come
-- to, so each is one step; the lock of the service makes an update one step. The error line that
-- the chart and the watchlist share is one field in each of their states. The audit is newest
-- first.
--
-- Not modelled: what a closed socket still delivers, the clean-up of an unmounted chart, JSX, calls of
-- the orchestrator that overlap, the bounds of the fields of the configuration and its
-- validators apart from the symbols, times of updates, the SQL stores, the
-- validation of ticks, the queues of the worker and errors of the provider's calls, the trailing
-- stop, which nothing calls, and the other parts of the server (stored signals, the other
-- figures of the analytics, the live hub, routes, persistence).
pub mod Prelude
pub mod Chart
pub mod Dashboard
pub mod ControlPlane
pub mod MarketData
pub mod Trading

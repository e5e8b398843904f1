-- ===== src/Lib.antt =====
-- Kryon is a perpetuals exchange: Soroban contracts hold the funds, and a TypeScript application
-- (client/) takes signed orders, matches them off-chain and settles the fills on-chain. These
-- modules model the application's core and state what it guarantees.
--
-- An order reaches `POST /api/orders`, which limits the rate, validates the body and stores a row.
-- The matcher polls the rows of each market, matches them in price-time order, checks the oracle
-- band and the stored signatures, writes the fill, and settles it: at once where both orders carry
-- a signature, or through a "TxJob" that both parties sign at the sign route. A settlement that
-- fails is rolled back. The reconciler resolves submitted jobs and expires those that nobody
-- signed.
--
-- Around them run the keepers: the state indexer writes the oracle price that the matcher reads, the
-- oracle keeper publishes prices on-chain, the liquidation keeper closes the positions of accounts that
-- the vault reports as liquidatable, the aggregator sums fills and PnL events into statistics, and the
-- stream server pushes the book and the trades to browsers over websockets. The lifetime keeper extends
-- the contracts' ledger entries, and the monitor checks the services and alerts. The keepers check
-- their environment when they start.
--
-- Files:
--   Base          numbers, tests, lists, texts as character codes, signed integers
--   Config        client/config/index.ts: the precisions and the markets; Config/Symbols is
--                 `parseActiveMarketSymbols`
--   Pnl           client/lib/math.ts and client/lib/stats.ts: PnL, liquidation price, PnL events
--   Signing       client/lib/market/{order-intent,signing-message,signed-intent}.ts: the canonical
--                 messages and the signature check; Signing/Decimal prints and reads bigints
--   Intake        client/lib/validation.ts (`validateOrderIntent`); Intake/Limit is
--                 client/lib/rate-limit.ts; Intake/Routes is client/app/api/orders/route.ts,
--                 client/app/api/orders/cancel/route.ts and `withRetry` of client/lib/db.ts
--   Store         the rows of kryon-protocol/prisma/schema.prisma that the parts share
--   Matcher       client/scripts/matcher-service.ts: `matchAll`; Matcher/Rows has what it reads,
--                 Matcher/Persist has `persistFill` and `rollbackFill`, Matcher/Tick has
--                 `executeSettlement` and `tick`
--   Settlement    client/app/api/settlements/[id]/sign/route.ts and
--                 client/scripts/settlement-reconciler.ts; Settlement/Pending is
--                 client/app/api/settlements/route.ts, Settlement/Build is
--                 client/lib/stellar/settlement.ts
--   Client        client/stores/orders.ts and
--                 client/features/trade/hooks/useOrderReconciliation.ts: the orders a browser tracks;
--                 Client/Entry is the order that
--                 client/features/trade/components/OrderEntry.tsx submits; Client/Live is the order book
--                 and the trades of a page, client/features/trade/components/MarketDataProvider.tsx
--                 over client/stores/market.ts
--   Oracle        client/scripts/oracle-keeper.ts and client/lib/oracle-activity.ts: when a price is
--                 published; Oracle/Median has the median of the sources, Oracle/Ticking
--                 the guard against overlapping ticks
--   Liquidation   client/scripts/liquidation-keeper.ts: the proposals to liquidate an account
--                 (`liquidateAccount`); Liquidation/Tick has the loop
--   Stream        client/scripts/ws-server.ts: the subscriptions and broadcasts; Stream/Feed has the
--                 push of trades, Stream/Browser is client/lib/market/websocket.ts
--   Stats         client/scripts/stats-aggregator.ts: the statistics of a period
--   Indexer       client/scripts/state-indexer.ts: the oracle price that the matcher reads
--   Monitor       client/scripts/monitor.ts: the checks; Monitor/Alerts has the alerts on them
--   Ttl           client/scripts/ttl-keeper.ts: the lifetimes of the contracts' ledger entries
--   Book          client/app/api/markets/[id]/orderbook/route.ts and `fetchOrderBook` of
--                 client/scripts/ws-server.ts
--   Candles       client/app/api/markets/[id]/candles/route.ts
--   Env           client/lib/secrets-check.ts
--
-- A function of the source has the same name here in snake case. The state is passed explicitly:
-- `Db` is the tables, `Pending` the map `pendingFills`, `Buckets` the limiter's map. An awaited
-- query is one step on the tables; a run is given how many of its queries get through before one
-- throws, and keeps what was written. Sizes and prices are natural numbers, and integers where the
-- source reads or computes negative ones; they are bigints in the source, so nothing wraps around
-- but the 32-bit hash of `pseudoTxHash`, which is written out. Loops recurse on their lists; the
-- polls after a resubmission count down from the source's 10, the attempts of `withRetry` from 3,
-- and the hexadecimal digits of a 32-bit number from 9, one more than it has; the polls of
-- `writePrice` count down from 15, and so do those of `submitLiquidate`; those of
-- `submitSettleFillSigned` count down from 30, those of the lifetime keeper from 20.
--
-- Parameters stand for what is not in the repository: the Stellar SDK and Node's Buffer (`Crypto`,
-- `Sdk`), the network's answers and the database's failures (the records `World`, `Request`,
-- `Network`, `Reads`, `Services` and `Run`), the shared limiter (`Distributed`) and ECMAScript's
-- `Number` (the records `Numbers`, `Doubles` for the order book, and the interface `Double` with the
-- laws `IsDouble` for the oracle's prices). The matcher takes what `submitSettleFillSigned` and
-- `simulateSettleFill` come to as answers of its `World`. The liquidation keeper's network has a state
-- of its own, which each call changes; the stream's server and its browser handle one event at a time,
-- and the browser keeps the ready state of every socket that it has opened. The monitor's runs follow
-- one another.
--
-- Not modelled: the contracts and the indexer services in Rust, the pages and components but the price
-- of the ticket and the market data of a page, the routes that only project rows to JSON, the snapshots of the ranking and
-- "AccountAnalytics", and the deployment and test scripts.
pub mod Base
pub mod Config
pub mod Pnl
pub mod Signing
pub mod Intake
pub mod Store
pub mod Matcher
pub mod Settlement
pub mod Client
pub mod Oracle
pub mod Liquidation
pub mod Stream
pub mod Stats
pub mod Indexer
pub mod Monitor
pub mod Ttl
pub mod Book
pub mod Candles
pub mod Env

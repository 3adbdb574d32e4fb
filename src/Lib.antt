-- ===== src/Lib.antt =====
-- A model of the ArrowHead MEV bot (bot/crates/mev-bot) and of what its executor contract
-- (contracts/src/MevExecutor.sol) does with the bot's calls.
--
-- The bot turns pending transactions into opportunities, checks them against limits (risk.rs), takes
-- nonces for them (inventory.rs), signs the legs of a bundle (bundle.rs, signer.rs, rlp.rs) and
-- submits it (submission.rs). It sizes trades on pools (dex.rs) and prices profits in the native
-- token (valuation.rs). On chain the executor runs the calls of a leg and settles the profit.
--
-- Files, below bot/crates/mev-bot/src unless another path is given:
--   Prelude, Prelude/*      shared names, Boolean tests, lists, machine words, integers, and the
--                           results `Result` (Rust's) and `Outcome` (a value, `None`, a panic, or a
--                           loop that has used its fuel)
--   Types                   types.rs: Call, Strategy, Opportunity, SimulationResult, BundleRecord
--   Inventory, Inventory/*  inventory.rs. Each method that stores returns the record it leaves;
--                           Nonces has the steps of the submission lane and of the chain refresh
--   RuntimeRisk, /*         risk.rs, RuntimeRisk and RiskPatch: Limits for each check of `apply`,
--                           Toggles for its loop, Patches for the whole
--   RiskEngine, /*          risk.rs, RiskEngine: Gate for `check`, `begin`, `end` (finish) and
--                           `submittable`; KillSwitch for `observe`, `reset`, `restore`
--                           and the start in engine.rs
--   Rlp, Rlp/*              rlp.rs, the coder: Digits, Items, Lists for the round trip, Progress and
--                           Faults for arbitrary bytes
--   Signer                  signer.rs: Eip1559Tx, encode_signed, sign_eip1559
--   Envelope, Envelope/*    rlp.rs, the decoding of signed transactions
--   Dex, Dex/*              dex.rs: pools and quotes, Swaps, Search (ternary_search_max) and Sizing
--                           (optimal_sandwich_in, optimal_two_leg_arb)
--   Types/Pending           types.rs: PreconfirmedState, PendingTx, TxSource, BlockHead
--   Flashblocks, /*         flashblocks.rs: Parser and Intake for FlashblockParser::parse, Tracker for
--                           PreconfirmedTracker and check_pin; Window, Taken, Emitted, Held,
--                           Redelivered go over the parser, Pins, Seals, Blocks, Grades over the tracker
--   Graph, Graph/*          dex/graph.rs: select_pools, build_edges, adjacency; Enumerate for
--                           enumerate_cycles and walk, Priced and Sized for evaluate,
--                           optimal_cycle_in and search_with. The theorems go over one candidate
--                           (Closing, Deeper, Tries), the loop (Loops), the recursion (Cycles), the
--                           enumeration (Complete) and the search (Ranked)
--   Bundle, Bundle/*        bundle.rs: encode_execute and build_bundle
--   Executor, Executor/*    contracts/src/MevExecutor.sol: `execute` and `flashExecute` with
--                           _checkGuards, _run and _settle
--   Qualification, /*       qualification.rs, and observation_coverage of store.rs: Continuity for the
--                           gaps and the reasons that block all, Windows for the queries, Verdicts
--                           for the whole
--   CowAuction, /*          cow_auction.rs: score_shadow_solution
--   Leads, Leads/*          strategies/leads.rs: the registry of near misses, ratio_bps
--   Liquidation, /*         strategies/liquidation_maker.rs and liquidation_morpho.rs: Auctions for
--                           auction_math, Morpho for the incentive, the debt and the health
--   Submission, /*          submission.rs: raw_bundle_gas_at_risk (Exposure), replacement_fees (Fees),
--                           submit_raw and cancel_raw (Raw, Cancel)
--   Valuation, /*           valuation.rs: apply_haircut, ValuationCache, token_decimals,
--                           value_in_native
--   Latency, Latency/*      latency.rs: bucket_index, Histogram::observe, Latency::observe
-- A file Tests has runs at concrete inputs and the theorems applied to them.
--
-- Numbers: a word is a natural number, and its wrap is written out (`% 2 ^ 64` for u64 and usize,
-- `% 2 ^ 256` for U256, whose operators wrap); saturating operations are `min` with the largest word.
-- An address or a hash is the number that its bytes spell.
--
-- Bounds and fuel: `decode_list` takes the length of the payload as fuel, an item being a byte at
-- least; where that is not enough is one of the results. `ternary_search_max` has its own guard of
-- 256 rounds, and 256 rounds narrow any range below 2^112 (a pair's reserves are uint112) to two; its
-- scan takes the width of what is left and two more as fuel. `walk` recurses once for each leg of a
-- path, so the bound on the legs (5 at most) is its fuel.
--
-- Parameters, which stand for code outside the repository: keccak256, the signature and the recovery
-- of a signer (k256), the ABI coder of the `sol!` macro, the parsing of a decimal text, and the
-- writing of an address (alloy), and what the node, the store and the JSON accessors of a frame
-- (serde_json, hex) answer. In the executor, what the calls, the flash loan and the tokens do.
--
-- Not modelled: RPC and websocket transport, the SQLite store but for the row of the kill switch and
-- the scan for gaps, the HTTP API, the configuration's reading of the environment, the strategies'
-- calldata, the simulator, the CoW order book and trader, the percentiles of the histograms (floats),
-- and the frontend.
pub mod Prelude
pub mod Types
pub mod Flashblocks
pub mod Graph
pub mod Inventory
pub mod RuntimeRisk
pub mod Leads
pub mod Liquidation
pub mod Qualification
pub mod RiskEngine
pub mod Rlp
pub mod Signer
pub mod Envelope
pub mod CowAuction
pub mod Dex
pub mod Bundle
pub mod Executor
pub mod Submission
pub mod Valuation
pub mod Latency

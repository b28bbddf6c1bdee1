-- ===== src/Lib.antt =====
-- Off-chain tooling of the Nest protocol, the TypeScript under tools/.
--
-- The program's parts and how they meet. A vault's operator runs scripts of three kinds.
-- tools/morpho reads a Morpho market, quotes a change of a leveraged position, and builds the
-- calls that the bundler contract executes around a flash loan. tools/deploy.ts runs the
-- deployment and gives its Safe batches to tools/splitMsigBatchesLib.ts, which sorts the
-- transactions into slots that signers execute in order; tools/proposePhase.ts proposes those
-- slots to a Safe, at once or, through tools/queueMigration.ts, later from a recorded manifest.
-- tools/syncArcPrices.ts copies the rates of the hub's accountants to those on Arc.
--
-- Base holds what all parts share: Boolean tests on native numbers, lists, signed numbers as pairs
-- of parts (Base/Int), JavaScript strings as lists of UTF-16 code units (Base/Text), Number(text)
-- (Base/Number), and code that throws as a value or an error (Base/Outcome: `throw` is err, a
-- sequence of statements a do block). Number(text) is modelled for decimal integers with white space
-- around; every other text is taken for NaN, which the callers refuse.
--
-- Morpho is tools/morpho/common.ts.
--   Morpho/Types: the types of the file, the virtual shares and the errors thrown.
--   Morpho/Quote: toAssetsUp, mulDivUp, collateralToLoanValue, quoteAndCheckInvariant;
--     Quote/Rounding, Quote/Laws and Quote/Properties are their theorems.
--   Morpho/Params: deriveIncreaseParams and deriveDecreaseParams, with min.
--   Morpho/Route: the command line's route and config path, and resolvePositionRoute.
--   Morpho/Abi: the calls of the three adapter ABIs, mkCall, encodeCallArray, computeMarketId and
--     decodeCall over an `Ethers`, the record that stands for the ethers package: an encoder and a
--     decoder per ABI. Abi/Laws states what the code relies on: a
--     decoder reads back what its encoder accepted, with checksummed addresses and bytes in lower
--     case, and refuses the calldata of another ABI (`IsAbi`). Sample/Codec is an encoder for which
--     these laws hold, and Sample/Data a market to run the theorems on.
--   Morpho/Bundle: buildIncreaseBundle and buildDecreaseBundle, push by push. Bundle/Flow is an
--     independent reading of a bundle: each decoded call moves tokens between the initiator, the
--     general adapter, the execution adapter, the vault and Morpho, with the flash loan paid out
--     before its callback and taken back after it. Bundle/Legs, Increase, IncreaseRun, Decrease
--     and Settlement run it over the bundles. The code nowhere checks that a market's collateral
--     token is not its loan token, which the reading of an increase bundle needs.
-- Amounts are ℕ, since `bi` rejects negative numbers and a bigint does not overflow; net values,
-- which may be negative, are ℤ.
--
-- Split is tools/splitMsigBatchesLib.ts, lines 12-25, 59-91 and 333-640 without readBatch.
--   Split/Types: SafeTx, SafeBatch, SplitSection, SplitOptions, SplitResult. A path of the source
--     is the batch read from it, or none where the file is missing; the output directory is a list
--     of names with their contents.
--   Split/Selectors: classify, extractEid, eidLabel. The loop over words has the length of the
--     calldata as fuel, and drops 64 digits a round, so it always comes to its end.
--   Split/Batches: splitBatches with each of its loops. `Date.now()` is one argument, though the
--     source reads the clock for each batch. `version ?? "1.0"` is the version, which a batch has.
--     Batches/Chain, Sorting, Returns, Sections, Files, Errors, Conservation, Eids and Properties
--     are its theorems. A test's error carries the values that decide it, not its message.
--
-- Propose is tools/proposePhase.ts, lines 28-52 and 137-457, with proposeBatch of
-- tools/safePropose.ts.
--   Propose/Step: the Safe libraries, the service, the prompt and the simulator as the record
--     `SafeApi` over an abstract world; a step takes the world and the list of proposals that the
--     service has accepted, and may throw. proposeBatch, with `posted` growing where
--     proposeTransaction returns. What serviceFor and Safe.init throw is one answer of `init`.
--   Propose/Phase: the input with all its fields, of which the repository's
--     root, the chain's and the vault's names, the endpoint label and whether there is an upgrade go
--     only into titles and the Slack text, and the RPC address and the key to the libraries; simAndLog, the loop of the split mode, the merged mode and the sorted outcomes.
--     The loop is structural in the list of sections. Posts and Loop are a logic of steps and its
--     use; Properties has the theorems.
--   Propose/Delivered: what a caller of the phase may rely on in both modes. Propose/Sample: a
--     service and sections to run it on.
--
-- Services is the table of tools/safeTxService.ts, without the addresses that the environment gives
-- for Arc. Environment is requireEnv, privateKeyFromEnv and loadCommon, which tools/queueMigration.ts
-- and tools/deploy.ts have in the same words, with isAuthorizedProposer and getSafeOwner of
-- tools/safePropose.ts over a record of the calls that they make. Cli is what the two command lines
-- share.
--
-- Queue is tools/queueMigration.ts with tools/migrationQueueStore.ts.
--   Queue/Store: the recorded manifests as a list of paths with their JSON parsed; a path is a
--     vault's folder and a file name: a vault's name is one segment, and path.join's normalizing
--     (`./v` is `v`) is left out. writeManifest, readManifest, listManifests; Store/Laws.
--   Queue/Args: parseArgs, a loop with a pending option; Args/Render prints arguments back.
--   Queue/Run: proposeOne and main over the record `Outside` of what a run finds. `die` and an
--     error that reaches main's catch are an error, which stands for exit code 1. Run/Rounds is
--     what a run has proposed.
--
-- Deploy is tools/deploy.ts, with resolveBatchPaths, splitOutDir and pickBatchPath of
-- tools/splitMsigBatchesLib.ts.
--   Deploy/Args: parseArgs.
--   Deploy/World: the files of one vault and chain, parsed, beside the world of networks: batches
--     in script/output/msig and in its folder of the vault, the fresh deployment's addresses, the
--     snapshot, the queue's manifests and the folder of the split.
--   Deploy/Targets: the candidates of an upgrade, hasCode and isProxy over the node's two calls, the
--     cache of fresh deployments. Targets/Unique and Targets/Avoids are their theorems.
--   Deploy/Forge: forge's arguments, its verifier, and how its exit and output are read; the pattern
--     of a failed verification is matched at each place of the output in lower case.
--   Deploy/Steps: the forge steps, the names of stale batches and their removal, the batch paths.
--     A reply of forge is its exit code and output, the batches it wrote to script/output/msig, and
--     the snapshot if it wrote one.
--   Deploy/Main: main, over the record `Outside` with forge, the node and the Safe libraries;
--     `Promise.all` asks for the authorization first and then for the owner. Deploy/Quiet, Sent,
--     Deferred and Stale are its theorems.
--
-- ArcPrices is tools/syncArcPrices.ts.
--   ArcPrices/Rate: checkRateUpdate. ArcPrices/Code: assertSpokeCode, with the hexadecimal decoding
--     of Buffer and its fill, which throws where a range ends behind the code; Code/Masked.
--   ArcPrices/Api: the two chains, the wallet and the repository's files as the record `Outside`;
--     and the report in memory and as saved.
--   ArcPrices/Checks and ArcPrices/Run: runSync, main, and what it gives to runSync. The loop is
--     structural in the list of symbols.
--   ArcPrices/Watched: any such `Outside`, which also notes what the run reads and logs the arguments
--     of each call of writeContract; the code does not see it. Keeps is a logic of steps; Sends and
--     Due carry through the steps what holds of the calls.
--
-- ArcSubmit is simulateAndSubmit of tools/proposeArc.ts, over a record of its `deps`, each of which
-- may throw, with what it does as a list of events; of the journal it has the fields that the function reads or sets.
--
-- Not modelled: reading JSON files and the chain, printing, the Slack text, loadConfig and the entry
-- points of tools/morpho, the Arc scripts but the price sync and simulateAndSubmit, and the scripts
-- that only call a network or a contract library in a fixed order. The Solidity contracts and the Rust programs are other parts of the
-- repository, with tests of their own.
pub mod ArcPrices
pub mod ArcSubmit
pub mod Base
pub mod Cli
pub mod Deploy
pub mod Environment
pub mod Morpho
pub mod Propose
pub mod Queue
pub mod Services
pub mod Split

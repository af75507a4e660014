-- ===== src/Lib.antt =====
-- The control plane of agx (packages/control-plane/src): deployments that are carried out step
-- by step on a remote side under a journal, launches of a client with a stable configuration,
-- the comparison of configurations, and the update of the program itself.
--
-- Parts and files.
-- Client: domain/client.ts. Facts: domain/facts.ts. Time: what the code uses of Date.
-- Journal and below it: domain/operation-journal.ts (Plan is createOperationJournal, Append is
-- appendOperationStep, Resolve is resolveInconclusiveOperation, Run holds startOperationJournal
-- and finishOperationJournal, Reasons the patterns of reasons). JournalStore:
-- adapters/operation/in-memory-journal.ts. Apply and below it: application/deployment-apply.ts;
-- Remote is the ports, Codes the function `code`, Spec the specification without a journal.
-- Apply drives the journal only through the store, and the remote side only through its ports.
-- Activation and below it: domain/activation.ts, the state machine of a launch plan
-- (transitionLaunchPlan), its confirmation token, the hash (Hash), and the status shown to the
-- user (Projection). Plans: LaunchPlanRepository of application/ports.ts as operations on a map
-- of plans. LaunchTable: adapters/sqlite/launch-repository.ts with adapters/sqlite/fact-
-- columns.ts, the same operations as statements on rows; LaunchTable.Rows relates the two: of a
-- row that is there, the table keeps created_at, which no use case changes.
-- Deployment and below it: domain/deployment.ts (Evidence is what
-- validateExternalEvidenceObservation and authorizeOwnership decide, Recording what
-- transitionDeployment keeps). Operation and below it: domain/operation.ts (Reaching is the
-- state diagram of transitionOperation, Settling how its runs end); its evidence is validated
-- by Deployment.
-- Config and below it: domain/config.ts, revisions of a configuration; Chain is
-- buildSupersedesChain, Compare is compareRevisions. Queries: application/queries.ts, what is
-- asked of the repository of revisions.
-- Launch and below it: application/launch.ts (Confirming, Preparing, Running and Viewing are
-- its use cases; World holds its ports and the types they exchange, Writes what is shared by
-- the guarded writes, Endings and Running.Expecting what a run is checked against). Launch uses
-- Activation for every transition, Plans for every write and Queries for the revision.
-- Claude and below it: the launch of Claude Code. Manifest is adapters/clients/claude/assembly-
-- manifest.ts, AdapterPlan adapter-plan.ts beside it; Delivery, Launch and Preparing are
-- application/claude-launch.ts, World its ports; Delivery.Expecting is what a launch is checked
-- against. Launch goes through the same plan transitions and the same plan storage as the
-- launch of omp, with plain writes instead of guarded ones.
-- Evidence and below it: domain/evidence.ts; Validating is what an observation has to look
-- like, Comparing the keys by which observations are told apart, Tallying which of them count,
-- Evaluating evaluateEvidence.
-- Preflight and below it: application/deployment-preflight.ts and operation-plan.ts. Asking is
-- the calls of its ports, Diagnosing the plan that a blocked call shows, Planning
-- prepareDeploymentPlan; a ready plan is prepared in the JournalStore that Apply runs it from,
-- and Planning.Applying puts the two together.
-- Status and below it: domain/status.ts (Readbacks is readbackSummaries, Diagnostics, Signals
-- and Projecting are projectStatus) and application/status.ts (Loading). It puts together a
-- Deployment, a Journal, launch plans of Activation and a receipt of Evidence.
-- SelfUpdate and below it: adapters/self-update (version-compare.ts and asset-target.ts are
-- Versions, checksum.ts is Sums, github-release-updater.ts is Updating and Replacing) with
-- adapters/system/atomic-write.ts. Updating decides, Replacing renames; the rest of the program
-- only starts an update.
-- Prelude: texts, lists, maps, results and the two effects that all parts share.
--
-- Conventions. A call that throws is an Outcome; a call on a state is an Exec, and what was
-- written before a throw stays written. A result that the source builds as an object with `ok`
-- is a Checked. The errors that the source builds as objects of a class are values or their
-- messages. A JavaScript Map is an association list in insertion order (Prelude.Dict). Texts
-- are sequences of code points; lengths count UTF-16 units. An await is a place where a port
-- may change the world and, where the ports are given the whole state, the stored plans.
--
-- Parameters. Date.parse (Time), the order of localeCompare, and in Preflight toLowerCase,
-- path.isAbsolute and the Unicode classes of letters and numbers, the remote ports (any
-- functions on any world, which may throw), the ports of a launch (for Claude Code also the
-- probe, the directory, the materializer, the writer of the launch context and the process),
-- the repository of revisions, the file system, the network, the SHA-256 and `new URL` of the
-- update. The laws assumed of the file system are those of rename, writeFile and unlink on
-- distinct paths (SelfUpdate.Restoring.FileLaws); a call that fails changes nothing that
-- matters there.
--
-- Bounds. The decimal number of a step is printed with the number's successor as fuel, which is
-- more than it has digits. buildSupersedesChain loops until an id repeats; its model has fuel
-- for one round more than there are revisions, and Config.Chain.Whole proves that this is
-- enough. The 32-bit hash keeps its residue in 0 .. 2 ^ 32 - 1 at every step; its hexadecimal
-- digits have fuel 8, which is enough for such a number. The fields of a version are exact
-- natural numbers, where the source has doubles.
--
-- Not modelled: the decoding of evidence from JSON, the normalization of untyped preflight
-- inputs, the lifecycle of an installation, migration and the first-use flow
-- (domain/lifecycle.ts, migration.ts and their use cases), the command line and the terminal
-- interface, the SQL engine and its schema, the parsing of files, and the packages outside the
-- control plane. Values that are only passed through (paths, scopes, the text of a fact) are
-- texts.
pub mod Prelude
pub mod Time
pub mod Facts
pub mod Activation
pub mod Apply
pub mod Claude
pub mod Client
pub mod Config
pub mod Deployment
pub mod Evidence
pub mod Journal
pub mod JournalStore
pub mod Launch
pub mod LaunchTable
pub mod Operation
pub mod Plans
pub mod Preflight
pub mod Queries
pub mod SelfUpdate
pub mod Status

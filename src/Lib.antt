-- ===== src/Lib.antt =====
-- devteam moves features through a fixed table of stages in five phases, with agents that run the
-- stages and gates at which a human or the execution mode approves their work. This library models
-- the Go code that decides: which stage is next, what becomes of a stage that has run, and what is
-- written to the database on the way.
--
-- The parts:
--
-- - Gate (internal/gate/gate.go): a gate with Approve, Reject, AcceptAsIs and Reset. A method is a
--   function from the gate to the gate and an error, if any; the clock is an argument.
-- - Stage (internal/stage): Stage/Status is stage.go, Stage/Ids its IsValidStageID, Stage/Scope and
--   Stage/Scope/Detect scope.go, Stage/Definitions the table of definitions.go, one file a phase.
-- - Feature (internal/feature): Types is the struct of feature.go and the enumerations of types.go,
--   Phase the phase that follows from the current stage, Lifecycle the changes of status (those of
--   question.go too), Artifacts the names of artifacts in types.go, Questions the store of
--   question.go that keeps the questions of a feature in a file.
-- - Db (internal/db): Types are the rows of the tables, Stages stage_store.go, Bolts and Events
--   audit_bolt_store.go and outcome_store.go, Features the two feature stores, with the columns
--   that are coalesced at a save and laid over the JSON at a load. The database is a record of
--   tables as lists of rows. A flag says whether the server answers; a query that fails returns
--   `none`, a statement that fails changes nothing. ORDER BY is the stable sort of Db/Order.
-- - Pipeline (internal/pipeline): System is the state, which is the database and the list of calls
--   that leave it (events to browsers, notes, logs, rules, sessions, pushes), in order. Advance has
--   AdvanceStage and ShouldSkipStage of stage_runner.go and NextStageToRun of state_machine.go.
--   Review has ProcessStageResult of state_machine.go; Verdict has its ApproveAndAdvance, and
--   RejectStage and AcceptStageAsIs of stage_runner.go. Jump has JumpToStage and JumpToPhase.
--   Decide has decideNextAction of advance.go and Loop its AdvanceFeature. Units and Prepare have
--   PrepareBolts of bolts.go. Agent, Checks, Close and Run have RunStage of stage_runner.go: the
--   dispatch with its retry, the outcome with the smoke check and the review, the marks on the row,
--   and the whole. BoltRun has RunBolt of bolts.go, Ladder its LadderPrompt and
--   RunConstructionStages, Batches the loop over batches in RunAllBolts, over any run of one bolt,
--   and AllBolts the whole of RunAllBolts. The other files under Pipeline hold the proofs.
-- - Api (internal/api): Signal has handleSignal of agent_handlers.go, with which an agent reports.
--   A dispatch of RunStage posts the signals of its agent through it. Server has the state of the
--   server: the System, the marks of the features that are worked on, and the goroutines. Running,
--   Gates and Settings have the handlers of stage_handlers.go, Requests all of them as one
--   function, and Workers what the goroutines do, with RunBolt and AdvanceFeature. A handler is one
--   step there; the variants named `_seen` take what their check of the mark answered, and Raced
--   lets another request come in between.
-- - Config (internal/config): Types has the data of types.go and DeriveKeyState, Merge has
--   merge.go, Tiers ResolveTier of store.go, Tables its other statements, and Resolve has
--   resolve.go with its caller ResolveProviderForRole (pipeline/pipeline.go). Names has the order
--   of texts. The environment is a parameter.
-- - Chat (internal/chat): Blocks has extractBlocks of parser.go, and Parser its ParseStream.
-- - Github (internal/github): Credentials has the table of credentials of credstore.go, with which
--   statements the driver accepts as a parameter, Tokens the token cache of token_cache.go and
--   getToken of native.go, and Mergeable the polling of GetMergeableState in mergeable.go, which
--   takes its token from getToken. The other files under Github hold the proofs.
--
-- What the world does while a stage, a bolt or a feature is worked on is given beforehand: a Visit
-- says how the dispatches of one RunStage end, which signals the agents post, and what the files
-- and role definitions answer; a Site has a Visit for every stage of every bolt, the ladder prompts
-- and what is done while a gate is waited for. The waits of RunAllBolts for a user have no bound: a
-- wait is followed through what is given, and is then cancelled or answers `still_waiting`. A Turn
-- has what one turn of AdvanceFeature needs.
--
-- An operation that reads a row first is given in two definitions, the read and what is done with
-- the row that was read (approve_and_advance and approve_row, process_stage_result and settle). The
-- clock, whether sessions are managed, the answer of the authorization check and which insertions
-- of bolts are lost are in the record Env. Texts made by fmt.Sprintf are kept as their format and
-- arguments (Details, Error). A nil dereference is the outcome `panicked`.
--
-- Every loop but a few runs over a list, and is recursion on that list. The retry of a dispatch is
-- recursion on the retries left, and so is the polling of GetMergeableState. The loop over the
-- batches of bolts has one turn of fuel for each bolt behind the walking skeleton, which is enough.
-- AdvanceFeature, which may go on for as long as agents do, is followed for a given list of turns.
-- Numbers are counts and indices, far below the bounds of Go's int, and are natural numbers; the
-- number of skipped stages of a jump, which can be negative, is kept as its two terms. Times of the
-- GitHub client are natural numbers of nanoseconds. How an exchange of the App's key for a token
-- ends, GitHub's replies to the polling, the clock and the cancellation are inputs, and the cipher
-- (AES-GCM, SHA-256) is a parameter. unicode.ToLower and unicode.IsSpace, which DetectScope and
-- PrepareBolts call, are parameters; isQuotaExhaustion lowers a text as far as its markers can
-- tell.
--
-- Not modelled: the texts of prompts, the git commands of worktrees and merges, the validation and
-- the detection of questions, the HTTP API but for handleSignal and the requests of
-- stage_handlers.go, the recovery of work after a restart, the chat but for its parser, the
-- configuration file, the redaction of tokens and the calls that are only passed on to GitHub,
-- repositories, terminals and files. Concurrency: but for Raced, an operation is taken as one step,
-- as it is where requests do not overlap and one process works on a feature at a time. The bolts of
-- a batch, which share one Feature and run at the same time, are run one after the other.
--
-- The theorems are applied to sample data in Examples.
pub mod Prelude
pub mod Gate
pub mod Stage
pub mod Db
pub mod Config
pub mod Feature
pub mod Pipeline
pub mod Api
pub mod Examples
pub mod Chat
pub mod Github

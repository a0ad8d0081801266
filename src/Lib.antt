-- ===== src/Lib.antt =====
-- One Dev Army: a development team of language models that works through the GitHub issues of a
-- sprint, one ticket at a time.
--
-- The program's parts, and the files that model them:
--
-- internal/pipeline (the abstract pipeline): Pipeline/Stage is stage.go, the stages with their
-- order, columns and labels; Pipeline/Run is `Pipeline.Run` of pipeline.go with any executor, one
-- function per branch of its loop. Termination and Outcome hold its theorems.
-- internal/github: GitHub/Stage and GitHub/Reason are the stages, labels and reasons of labels.go
-- and reasons.go; GitHub/Issue, GitHub/Checks and GitHub/Client are the issue, the sum of the CI
-- checks and the calls that change labels, from issues.go and labels.go. Labels, Relabel and
-- Checks/Verdict hold the theorems.
-- internal/db/db.go: Store/Steps, Store/Cache and Store/Ledger are the three tables that decisions
-- depend on, each a list of rows in the order of insertion, with one function per statement.
-- internal/mvp: Mvp/Events is the choice of the next stage on an event of the worker,
-- Mvp/Orchestrator the state of the orchestrator with its small operations,
-- Mvp/Orchestrator/Stages `ChangeStage` and everything that calls it, Mvp/Orchestrator/Selection
-- the choice of a ticket, Mvp/Round one round of `Run`. Mvp/Worker is the worker: its state and
-- frame, Mvp/Worker/Texts its texts, Mvp/Worker/Steps its steps and Mvp/Worker/Process the phases
-- of `Process`. Mvp/ChatHistory is chat_history.go.
-- internal/config/llm.go and internal/llm/router.go: Llm, the models of the task categories and the
-- choice of the router.
--
-- internal/worker: Workers is the worker of the pool, Workers/Texts the branch names, Workers/Pool the
-- loop of the pool and Workers/Processor the processor, which runs a task through the abstract
-- pipeline; Watched, Approval, Drain and Branches hold the lemmas and theorems.
-- internal/dashboard: Dashboard/Hub is the hub of websocket.go as steps of its goroutines,
-- Dashboard/Sync the sync service of sync.go, Dashboard/Wizard the sessions of wizard.go with
-- Dashboard/Wizard/Tasks for `parseTaskJSON`, Dashboard/Tickets the actions on a ticket of api_v2.go
-- and handlers.go, Dashboard/Board the data of the board and Dashboard/Sprint the closing of a sprint,
-- both of handlers.go and api_v2.go, and Dashboard/Controls the switches of the dashboard. A panic in
-- the sync is a value, `none`. The modules below them hold the theorems.
-- internal/sprint/cleanup.go: Cleanup, the lookup of what a sprint leaves behind, and Cleanup/Execute,
-- its deletion.
-- internal/scheduler: Scheduler is how epic.go cuts JSON out of an answer of the model, and
-- Scheduler/Planner is `PlanSprint` of planner.go.
-- internal/version/bump.go and internal/github/tags.go: Version and Version/Tags.
--
-- How they interact: a round picks an issue from the cache, sets its stage and hands it to the
-- worker. The worker runs its steps, writes each to the step table, and reports each to the
-- orchestrator, which chooses the next stage and changes it: first at GitHub, then in the cache, then
-- in the ledger. All of this acts on one record, the orchestrator, in which `remote` is the world
-- behind GitHub, git and the model. The sync service and the actions of the dashboard act on the same
-- record, and the board reads it.
--
-- What stands outside: the `gh` program, git, the model server, the clock, the user and the file
-- system are functions on that world, in the records `Gh` and `Tools`. They are arbitrary; a theorem
-- names what it asks of them. The texts of the prompts are fields of `Tools` too.
--
-- Numbers are the native natural numbers where the source has an id, a count or a time, none of which
-- is computed near a machine bound. Versions are signed numbers of 64 bits with their wrap-around, in
-- Common/Int and Common/Decimal. Texts are compared as Go compares them; case folding and trimming are
-- those of ASCII, and a parser works on code points. Numbers in error messages are left out.
--
-- Fuel: `Pipeline.Run` gets 100 rounds for every allowed failure and one more, which is shown to be
-- enough. The attempts at the CI checks get the number that the configuration allows, and the
-- polling of one check as many ticks as there are before its deadline. The rounds of the approval
-- have no bound in the source, since the user may decline without end. A worker of the pool gets one
-- round more than the queue has tasks, and a broadcast of the hub one action for each client and one.
--
-- Not modelled: failures of the database, the queue of its writes, locks and the interleavings of
-- goroutines other than those of the hub, log lines, step loggers, the rendering and the JSON of the
-- dashboard, its routes and settings, the rate limit, the analysis of epics and insights, the
-- command line and configuration files.
--
-- Common holds the shared names and lemmas, Examples the concrete inputs.
pub mod Cleanup
mod Common
pub mod Dashboard
mod Examples
pub mod GitHub
pub mod Llm
pub mod Mvp
pub mod Pipeline
pub mod Scheduler
pub mod Store
pub mod Version
pub mod Workers

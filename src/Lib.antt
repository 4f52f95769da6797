-- ===== src/Lib.antt =====
-- The pipeline runner of PAS (Pascal's discrete attractor): a DOT file describes a graph of stages, a
-- compiled plan says how each stage runs, and the engine walks the graph from the start node to an exit
-- node, choosing an edge after each stage from its outcome, and writing a checkpoint it can resume from.
--
-- The parts, and what models them. Paths are from the root of the repository.
--   Base: texts as lists of code points, maps as association lists, Boolean tests, sorting, trimming and
--     splitting as Rust's standard library has them. A `HashMap` is an association list with one entry
--     for each key; where the code visits one in its own order, the theorem says whether that matters.
--   Types: crates/attractor-types/src. Outcomes and their statuses, `AttractorError` with its texts and
--     classes (Types.Errors, Types.Display), JSON values (Types.Values) and `Context` (Types.Store). All
--     handles of a `Context` are one store, which a run threads.
--   Graph: crates/attractor-pipeline/src/graph.rs over the syntax tree of crates/attractor-dot/src/ast.rs:
--     `from_dot`, the edges sorted by source with an index (Graph.Edges), `outgoing_edges`.
--   Condition: crates/attractor-pipeline/src/condition.rs, the parser and the evaluator of conditions.
--   EdgeSelection: crates/attractor-pipeline/src/edge_selection.rs, the cascade of `select_edge`.
--   GoalGate: crates/attractor-pipeline/src/goal_gate.rs. The map of outcomes is visited in the order of
--     the list; GoalGate.Order is about that order.
--   Checkpoint: crates/attractor-pipeline/src/checkpoint.rs. A run folder is the two files that a save
--     touches; each file operation may fail, and a write may stop after any number of characters.
--   Plan: what the engine reads of crates/attractor-pipeline/src/execution_plan.rs, the fingerprint
--     included, over the hash of blake3 as a parameter.
--   Stylesheet: crates/attractor-pipeline/src/stylesheet.rs, the parser (Stylesheet.Scan,
--     Stylesheet.Parser) and the application of the rules to the nodes.
--   Compile: the compiler of execution_plan.rs, from a graph to a plan or to diagnostics, with the
--     transforms of crates/attractor-pipeline/src/transforms.rs (Compile.Transforms). Roles, Policy and
--     Resolve are `resolve_node`, Aliases the normalization before it, Checks and PiNodes what is
--     refused after it. The other modules are proofs: Settled and Collected about one node and
--     about the loop over them, Clean, Wellformed, Accepted, Supported, Defaulted, Expected and
--     Refusals about the results.
--   Validation: crates/attractor-pipeline/src/validation.rs, the rules on graphs and on compiled plans.
--   Engine: crates/attractor-pipeline/src/engine.rs. `Exec` is `async fn` with `?`: an action changes the
--     state of the run and may fail, and keeps what it did before it failed. Engine.State has that
--     state, Engine.Invoke `invoke_node` with its attempts, Engine.Stage with its
--     child one turn of the loop of `run_inner`, Engine.Run the run from its checks to its last event, Engine.Keys the helpers with
--     the reserved keys of run_configuration.rs and the back-off of retry.rs. The other modules are
--     proofs: Engine.Frames has the relation between the states before and after an action, Quiet,
--     Steps and Turns are about the actions under it; Attempts, Owed, Starts, Jumps, Termination, Resume,
--     Reserved, Delays and Endings are about what their names say. Compiled relates the plans of Compile to
--     what a run needs, Covered and Answers are about the runs of such plans.
--   Journal: crates/attractor-journal/src, the events (Event), the reader (Reader), the writer with the
--     faults of an append (Writer) and the status of a run (Status). Lines, Torn, Numbers, Faults,
--     Derived and Ended are proofs. The engine's events reach the journal through an observer, which is not modelled.
--   Agent: crates/attractor-agent/src/loop_detection.rs, the window over the calls of an agent.
--   Tools: crates/attractor-tools/src/truncation.rs, the cut of long tool outputs.
--   Examples: a small pipeline and its runs, on which the theorems are applied.
--
-- How the parts meet: Compile makes the plan of a Graph, with Stylesheet; a run checks it by Validation
-- before its first event. Graph feeds EdgeSelection and GoalGate; Engine.Stage calls both with the outcomes
-- of Engine.Invoke, which writes checkpoints of the state through Checkpoint; Engine.Run reads them back.
--
-- What a run does not compute is `Environment`, a parameter: the registered handlers with their
-- deadlines, the clock, git, the stop file, the faults of the file system and of the journal, serde's
-- text of a checkpoint and of an event, blake3, floating-point arithmetic (an `f64` is its bit pattern) and Unicode.
-- A handler may change the context, the world, and emit events.
--
-- Bounds and fuel. The loop of `run_inner` runs on fuel. Each turn that goes on either takes a step, of
-- which there are at most `max_steps`, or jumps from an exit node; so 2 * max_steps + 2 is enough. The
-- loop over the attempts of a node is structural in the attempts that are left. Counters of steps are
-- plain numbers, bounded by `max_steps`; a counter of a quality loop is a `u32` and wraps. A back-off
-- saturates at 64 bits. The search of the nodes that are reachable runs on a round for each edge of the
-- index and two more; the parser of stylesheets on the length of its text and one more. A `usize` has
-- 64 bits. The number of an event is a `u64` that wraps as in a release build.
-- A panic is a result of its own: of a slice through a character in the parser of stylesheets, and of the
-- compilation with it or with an `expect` of the compiler.
--
-- Not modelled: the
-- handlers, provider probes and git calls (I/O); the DOT grammar; the rest of the journal's crate (tail, index, folders of runs); the agent's session, the
-- LLM clients, the tools themselves, the quality gate, the monitor and the command line. Log lines and
-- pauses change no state and are left out. `expect` on a node that was not compiled is the ending `panicked`.
pub mod Base
pub mod Types
pub mod Graph
pub mod Condition
pub mod EdgeSelection
pub mod GoalGate
pub mod Checkpoint
pub mod Plan
pub mod Stylesheet
pub mod Compile
pub mod Validation
pub mod Engine
pub mod Journal
pub mod Agent
pub mod Tools
pub mod Examples

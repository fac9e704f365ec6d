-- ===== src/Lib.antt =====
-- glidesh runs plans on hosts over SSH. A plan is a list of steps with tasks, conditions, tags,
-- templates and escalation settings, read by src/config/; the inventory names the hosts, their groups
-- and variables. The engine takes the target hosts in batches and starts a runner per host, which in
-- mode "sync" meets the runners of the other hosts at a barrier between steps. The runners report
-- events, from which the terminal interface keeps its state. Before a run the prompts of its plans are
-- answered. Tokens in variables are decrypted where a host needs them, each plaintext goes into the
-- registry of the run, and the event sink masks what is registered in the outputs,
-- errors, resources, commands and reasons of skips that events carry. A command that
-- escalates gets its password and its input through a handshake on its stderr.
--
-- The modules and the code that they model, paths from the root of the repository:
--   Barrier    src/executor/barrier.rs: StepBarrier and Seat; a run is a schedule of the actions
--              of the seats, each atomic as the lock makes it
--   Rollout    src/executor/rollout.rs: batch_sizes, stop_reason
--   Engine     src/executor/engine.rs: Engine::run with run_batch, and run over groups (Groups)
--   Condition  src/config/condition.rs: Syntax (the data), Lexer (tokenize), Parser (Parser and
--              Condition::parse), Eval (Condition::eval)
--   Tags       src/config/tags.rs
--   Inventory  src/config/types.rs: Inventory with resolve_targets, resolve_group_plans and
--              resolve_host
--   Tui        src/tui/state.rs (Nodes, Updates, Keys) and follow of src/tui/scroll.rs (Scroll),
--              and stream_log_lines of src/logging/mod.rs (Logs)
--   Events     src/executor/result.rs: ExecutorEvent and the texts that renderers share
--   Detect     src/modules/detect.rs: what is known of a host, and what follows from its
--              /etc/os-release (Family), the package commands (Commands), and detect_os with the
--              probe that it runs (Probe)
--   Plan       src/config/types.rs: the data of a plan
--   Escalation src/modules/escalation.rs and shell_escape of src/util.rs
--   Runner     src/executor/node_runner.rs: NodeRunner::run (Host), its steps (Steps), the wait for a
--              gate (Gates), tasks (Tasks, Params), Progress and gate (State), texts (Reports),
--              variables (Values); what it asks of its surroundings is the record Env of Interface.
--              Coordinator is src/executor/host_coordinator.rs
--   Secrets    src/secrets/: the registry of plaintexts with redact (mod.rs), tokens (Token; token.rs),
--              the decryption of maps and data (Vault), send of src/executor/event_sink.rs (Sink), and the
--              edits of a secrets file (Store; store.rs)
--   Prompts    src/config/prompts.rs: the answers to what a plan asks for (Resolve)
--   Ssh        src/ssh/connection.rs: CappedStream, exit_outcome, and Handshaking (Handshake)
--   Template   src/config/template.rs: interpolate and interpolate_args, and `render` (Lexer, Parser,
--              Render) over the data of Data; defined_references (References) on bytes
--   RunAs      src/config/types.rs: RunAsMethod, RunAsSpec
--   Common     lists, texts, dictionaries, results and tests that the others share
--
-- Texts are sequences of characters, maps are association lists, and `usize` is a natural number:
-- the numbers are counts of hosts, batches and characters. The scroll positions of the interface
-- saturate at usize::MAX and its spinner wraps at 2 ^ 64, as in the source. What an asynchronous task
-- gives when it is joined is a parameter of the engine. The runner keeps its variables, progress and
-- events in a state that every action passes on, with a state of the world behind the interface; a
-- failed action keeps what it wrote. Time in the wait for a gate is in whole seconds from its start.
--
-- Loops run on fuel where they are not structural: batch_sizes on the number of hosts, since a batch
-- takes a host at least; the tokenizer and interpolate on the characters of the text, since a round
-- takes one at least; the parser on the tokens; the wait for a gate on its timeout, since a round
-- takes its interval, which is a second or more. Searches that go on behind a match (the lexer of
-- templates, `occurrences` and `without` of a handshake, the tokens of a text) recurse on the text, with
-- the number of characters still to pass over.
--
-- A template's offsets count characters where the source counts bytes: they only cut the template
-- between characters, so the pieces are the same. A text that is registered as a secret is as long as
-- its bytes, as in the source. The cipher, base64, the two providers of the data key and the
-- terminal that answers a prompt are parameters, and so is the reading of bytes as UTF-8. The edits of a
-- secrets file are stated on its top-level nodes: a line, with the lines of the block that it opens.
--
-- Not modelled: the rest of SSH (connections, uploads), drawing, log files and the command line, which
-- are I/O; the KDL reader and encryption, which are libraries; the modules that tasks call
-- (src/modules/), which the runner has as an interface; and the readers of inventory and plan files.
pub mod Barrier
pub mod Common
pub mod Condition
pub mod Detect
pub mod Engine
pub mod Escalation
pub mod Events
pub mod Inventory
pub mod Plan
pub mod Prompts
pub mod Rollout
pub mod RunAs
pub mod Runner
pub mod Secrets
pub mod Ssh
pub mod Tags
pub mod Template
pub mod Tui

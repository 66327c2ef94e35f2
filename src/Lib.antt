-- ===== src/Lib.antt =====
-- The engine of an AI agent (tical_code/), as far as it keeps state of its own: the parts below are
-- modelled function by function, as pure functions that take the state, the readings of the clock
-- and the replies of the outside world, and return the new state. Paths are from the repository's
-- root.
--
-- Iteration budget (tical_code/core/iteration_budget.py): how many steps a turn may take.
--   Budget         `IterationBudget`: __init__, reset, consume, refund, record_failure,
--                  record_success, remaining, exhausted; histories of calls as lists of operations
--   Budget/Laws    when consume grants, and the bounds on a turn
--
-- Model failover (tical_code/core/model_failover.py): one LLM call over several providers.
--   Failover           `HealthState`, `Provider`, `ModelFailover.__init__`, the constants,
--                      _get_family, _error_category
--   Failover/Health    _transition_health, _probe_transition, _mark_success
--   Failover/Select    _available
--   Failover/Call      call and the part of _call_single that changes state: what the exchange with
--                      a provider brings (`Reply`) and the readings of the clock come from a `World`
--   Failover/Phases, Rule   what one attempt changes, and the rules that carry it through the call
--   Failover/Breaker, Effort, Invariant   the circuit breaker, the number of exchanges, soundness
--   Failover/Cooldown, Pool   cooldowns and the providers on offer
--   Failover/Stream, Attempts, Streaming   call_stream with the replies' lines, and what it yields
-- The `while True` loop of the call runs on fuel. Each round takes a provider that was not tried
-- before, so that more fuel than there are providers is enough: every theorem about `call` shows
-- that it returns. A provider is the object at an index of the client's list, so that the change of
-- an object is seen through each reference to it. The loop of
-- call_stream takes one more round where it leaves the family. Not modelled: the headers of a
-- request, the decoding of a reply's body, the local backends and the report `status`.
--
-- Delivery ledger (tical_code/core/delivery_ledger.py): outbound messages survive a crash.
--   Ledger             the table as a list of rows, and each function as one transaction;
--                      `telegram_send` is TelegramChannel.send of tical_code/core/channel.py, the
--                      ledger's client, from the text that it sends on
--   Ledger/Keys, Lifecycle   the primary key, and how one row may change
--   Ledger/Delivery, Sending   what a message may rely on, identifiers, statistics
-- SHA-256 is not this repository's code: it is a parameter (`digest`) of whatever uses it. SQLite is
-- taken to do what its statements say, each function being one transaction under the module's lock. Not
-- modelled: ledger_health and the set-up of the database.
--
-- Doom loop detector (tical_code/core/doom_loop.py): tool calls that repeat themselves.
--   DoomLoop              the data of DoomLoopDetector, record_tool_call, record_tool_outcome, reset,
--                         _deterministic_hash, _fuzzy_args_hash
--   DoomLoop/Similarity   _text_similarity
--   DoomLoop/Detectors    _adaptive_thresholds and the four detectors
--   DoomLoop/Detect       detect with its cache, execute_recovery
--   DoomLoop/Window, Recovery   the windows and the cache over time, and what a recovery achieves
--   DoomLoop/Repeats, Polls, Runs, Limits   what the detectors find, and the thresholds
-- What the detector takes from Python's library (json.dumps, SHA-256, re.sub, the methods of texts)
-- is the record `Library`, a parameter. The deques have their newest entry first. Not modelled: the
-- texts of a report, get_stats, and _detector_state, to which no code adds anything.
--
-- Evaluation checkpoints (tical_code/core/checkpoint.py): states of evaluations on disk.
--   Checkpoint         the data, and of CheckpointManager save, load, delete, prune, reset,
--                      _persist_checkpoint and the hash; a directory of JSON files is a dictionary
--   Checkpoint/State   EvalState, the dictionaries of meta.json and results.json, the two hashes
--   Checkpoint/Store   what load finds after save
--   Checkpoint/Index   __init__ with the index that it reads from the disk, list_checkpoints
-- Scores and JSON values are types of parameters; `str` and SHA-256 are the record `Library`.
--
-- Tasks (tical_code/core/task_state.py): tasks that outlive the process.
--   Tasks        TaskState and its methods, create_task, save_state, load_state, complete_task,
--                fail_task, pause_task, resume_task, cleanup_completed, _next_sequence
--   Tasks/State   TaskState and its dictionary (to_dict, from_dict)
--   Tasks/Laws, Listing   what a task may rely on; list_active_tasks, list_all_tasks
-- Not modelled: is_task_request, which guesses from words.
--
-- Requests (tical_code/core/model_failover.py): the messages that _call_single puts into a request.
--   Requests           clean_messages, the passes in the order of the code; json.dumps and decimal
--                      numbers are Python's
--   Requests/Conversation, Passes   messages and tool calls, and each pass
--   Requests/Paired, Stripped, Answered, Format   tool messages and calls belong together; the format of calls
--   Requests/Calls, Identifiers         what the passes keep of the calls
--
-- Hunk tracker (tical_code/core/hunk_tracker.py): every write of a file is kept and can be undone.
--   Hunks              HunkTracker: record, rollback, get_history, get_hunk, diff_since, get_touched,
--                      clear_task, over a list of rows and the files on disk; paths, difflib and git
--                      are given
--   Hunks/Table        the table, record and _unified_diff
--   Hunks/Store, Refine   the store of versions, and that the tracker implements it
--   Hunks/Rollback, Chain   what a rollback restores; numbers, parents and turns
-- Not modelled: the registration of the two tools.
--
-- Task supervisor (tical_code/core/task_supervisor.py): tasks in threads, under one lock.
--   Supervisor         TaskSupervisor; a call takes the lock with with_lock, and a call that waits for a
--                      lock of its own thread is `blocked`
--   Supervisor/Steps   the calls and the steps of the threads, and what is reachable by them
--   Supervisor/Listed, Once      at most one thread per task runs
--   Supervisor/Stuck, Deadlock   the calls that take the lock twice
-- The target of a task and the times at which threads take their steps are free.
--
-- Permission checker (tical_code/core/permission_checker.py): whether a tool may run.
--   Permissions        PermissionMode, PermissionChecker, can_use_tool, can_use_tool_strict, to_dict,
--                      from_dict and the changes of the lists
--   Permissions/Decisions, Denied   what it decides, and what stays denied
--
-- Tool call parser (tical_code/core/tool_call_parser.py): the calls in a reply of a model.
--   ToolParser         _extract_json_object, and the texts that _parse_json_candidates gives to
--                      json.loads
--   ToolParser/Objects, Candidates   the objects of a text, and that they are found
-- Not modelled: JSON itself, _fix_json, the code blocks and the removal of repeats.
--
-- Cron scheduler (tical_code/core/cron.py): jobs that run on a schedule, kept in a table.
--   Cron               CronManager: add_job, remove_job, enable_job, disable_job, load_jobs, tick,
--                      get_stats, and the model's tools cron_add and cron_list
--   Cron/Schedule, Job     CronSchedule, CronJob, a row of the table, to_dict and from_dict
--   Cron/Task, Manager     the tasks of a job and their outcome; the state of the manager
--   Cron/Stored, Adding, Loading, History   the table is in step with the jobs that are listed, where
--                      calls do not overlap
--   Cron/Runs, Ticks, Effects, Guarded   which jobs a tick runs; the results; what the model may add
--   Cron/Restart, Failing, Removed   what a new process reads back
-- The framework's tools, the shell and json are given, as is what the clock reads at each point.
--
-- Session store (tical_code/core/modules/session_manager.py): the messages of each chat, in SQLite.
--   Sessions           SessionManager: save_messages, _enforce_active_limit, _archive_one, archive_old,
--                      cleanup, save_summary, get_summary
--   Sessions/Rows, Window    the tables and what is stored of a message; load_session
--   Sessions/Archive, History, Limit, Unanswered   archiving, any sequence of calls, the limit on active
--                      sessions, and calls without an answer in the loaded window
-- The identifier of a call (`call_id`) and the size of the file are given; calls of the database
-- succeed. Not modelled: get_session_id, which is a hash, and the answers after a failure.
--
-- Base and its children hold what the parts share: Boolean tests on numbers, lists measured and
-- updated by native numbers, texts, Python dictionaries as association lists, and the stable sort.
-- Times are whole milliseconds, where the code reads seconds as floating-point numbers. Each part's
-- Samples file has runs of the code and the theorems at concrete inputs.
--
-- Not modelled: the agent's loop, tools, memory, scanners and user interfaces, which are mostly text
-- handling and calls of outside services.
pub mod Base
pub mod Budget
pub mod Checkpoint
pub mod Cron
pub mod DoomLoop
pub mod Failover
pub mod Hunks
pub mod Ledger
pub mod Permissions
pub mod Requests
pub mod Sessions
pub mod Supervisor
pub mod Tasks
pub mod ToolParser

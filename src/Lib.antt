-- ===== src/Lib.antt =====
-- Models of the parts of the Recursive Harness Builder that decide something, with proofs.
--
-- Prelude: Boolean tests and conditionals on the native numbers, texts with equality, lists and
-- association lists (a Python dictionary, in the order of insertion), shared by all.
--
-- Gate: deploy/llm-inference/gate.py, which lets a few requests at a time through to the local model
-- and hands the GPU over to external jobs. `GateState` keeps the admitted requests, the queue, the
-- demands of jobs, and the phase of the hand-over.
--   Gate/State.antt        the fields of `GateState`, the snapshot, the file, `_open_unlocked`
--   Gate/Requests.antt     `admit` (up to its first wait, and one round after a wait),
--                          `release_request`
--   Gate/Demands.antt      `begin_demand`, `acquired`, `release_demand`
--   Gate/Coordinator.antt  `coordinator`, `_finish_coordinator`, `_launch_coordinator`: a program
--                          counter for each place where the thread holds no lock
--   Gate/Recovery.antt     `_load`, `recover`, `try_auto_recover`
--   Gate/Nvml.antt         `require_expected_qwen_nvml`, `require_no_qwen_nvml`,
--                          `require_clean_recovery_nvml`
--   Gate/Threads.antt      all threads, interleaved at their critical sections, and restarts
-- A critical section reads the clock once. Tickets, cycle ids and demand objects are numbers that
-- are handed out once. What the code learns from the HTTP backend, /proc, nvidia-smi and `flock` is
-- an argument (`Env`, `RecoveryEnv`) of each section, without any assumption. The interleaving takes
-- one hypothesis, `timely`: the second section of a release, after its NVML check, finds the cycle of
-- the first one and no coordinator that runs. The source does not see to that. No fuel is used: a
-- loop that waits is a step that leads back to its own program counter. Some error texts are shortened.
-- The writes of the state file succeed: an OSError of `_persist_unlocked`, which in the source comes after
-- the state in memory was changed and can leave `coordinator_running` set with no thread, is not modelled.
-- HTTP proxying, authentication and the parsing of processes and of nvidia-smi rows are not modelled.
--
-- Watchdog: src/obs_agent/spark_watchdog.py, which judges from polls of `/health` and of the ranks
-- whether the inference pair has to be restarted.
--   Watchdog/Detector.antt `progress_vector`, `Detector.reset`, `_crashloop`, `observe`
--   Watchdog/Ranks.antt    `Detector.observe_ranks`
--   Watchdog/Loop.antt     one round of `run_forever`: the back-off, and the list of restarts
-- Times are in milliseconds and memory in KiB, so that the constants are whole numbers. The probes,
-- the restart itself and the files that are published are not modelled, nor are the texts.
--
-- CacheGate: src/obs_agent/cache_gate.py, which keeps cache-sensitive code from going live without a
-- passing report of the live cache regression.
--   CacheGate/Reports.antt  reports, `_same_code`, `known_intermittent` and its table
--   CacheGate/Rerun.antt    `rerun_verdict`
--   CacheGate/Matching.antt `_report_matches`
--   CacheGate/Search.antt   `find_passing_report`, `changed_files`, `check`
-- Ratios are in millionths. What git and SHA-256 say is an argument, and so are the files that could
-- be read; the messages are not modelled. The switch of `check` from a saved release to the candidate
-- (`OBS_CACHE_GATE_RELEASE`, `OBS_CACHE_GATE_CANDIDATE`) comes before anything is read and is not modelled:
-- the repository and the target are those that it leads to.
--
-- CreditLimit: src/obs_agent/credit_limit.py, which recognises that a provider has no credit left and
-- says when to try again.
--   CreditLimit/Clock.antt  `_parse_clock_reset`, `parse_reset_at`
--   CreditLimit/Rearm.antt  `is_credit_limit_error`, `turn_limit_text`, `parse_credit_limit`,
--                           `backoff_seconds`, `rearm_at`
-- Times are whole seconds. What the regular expressions find, `str.strip` and the calendar are
-- arguments.
--
-- ScheduleScope: src/obs_agent/schedule_scope.py, who owns a schedule and what a sweep spares.
--   ScheduleScope/Ownership.antt `owner_of`, `creation_warnings`, `protection`,
--                                `retire_schedule_owner`, `lineage_in_branch`
-- The bead id that the pattern finds in a description is an argument. Reading and writing the files,
-- the automatic assignment and the report are not modelled.
--
-- Fifo: deploy/obs-transcription/gpu_lease_runner.py, in which transcription workers take turns for the
-- GPU by numbered tickets in a directory that they share.
--   Fifo/Directory.antt  the files of `ADMISSION_ROOT`, `_cleanup_stale_admission_locked`,
--                        `_raise_if_admission_failed_closed`, `_mark_admission_failed_closed`
--   Fifo/Admission.antt  `_acquire_fifo_admission`: drawing a ticket, one round of its waiting loop, and
--                        the handler of that loop
--   Fifo/Release.antt    `_release_fifo_admission`, disturbed at one call at most apart from its
--                        handlers, and `reconcile_admission_fail_closed`
--   Fifo/Workers.antt    the workers, interleaved at the sections of the queue mutex; they start and die
--                        at any time; an event that cannot be written after an admission is a step too
-- A process is a number that is used once, for its pid and start time. The files can be read, and the
-- writes of a section that draws a ticket or admits succeed. What `flock` on the GPU lock, the gate and
-- nvidia-smi say to a reconciliation is an argument. The deadlines are steps that may come at any time.
-- The lease that follows the admission (`run_lease`) and the control over SSH are not modelled.
--
-- AppendScan: src/obs_agent/append_scan.py, which folds the lines of files that grow and reads only what
-- was appended since the last time.
--   AppendScan/Lines.antt  `_fold_bytes`
--   AppendScan/Scan.antt   `clear`, `scan`: the test of an entry, the loop over blocks, what is kept
--   AppendScan/Writers.antt scans between the changes that writers make to files
-- The loop over blocks has fuel, one more than the file has bytes: each round but the last one reads a
-- byte. The decoder and `str.strip` are arguments; of the decoder it is assumed where it is needed that a
-- newline separates what is decoded, as in UTF-8. A scan sees one state of the file, and an inode is used
-- for one file only. Scans in several threads are taken one after another.
--
-- Effort: src/obs_agent/effort.py, which effort a session gets and how its requests carry it.
--   Effort/Levels.antt  `normalize_effort`, `resolve_effort`, `child_effort_override`
--   Effort/Body.antt    `parse_extra_body`, `build_effort_env`
-- What the model's name says is an argument, one test for each prefix, and so are `str.strip`,
-- `str.lower` and the reader of JSON; the new body is the value before it is written as JSON.
--
-- Readiness: src/obs_agent/cache_readiness.py and src/obs_agent/fork_model.py, whether waking an idle
-- session is dear, and on which model a fork runs.
--   Readiness/Families.antt `load_ttls`, `model_family`
--   Readiness/Calls.antt    `last_model_call`, `assess`
--   Readiness/Forks.antt    `choose`
-- Times are whole seconds. `str.strip`, `str.lower`, the parts of the setting and the lines of a
-- transcript, read as JSON, are arguments. The warning's text and `jsonl_model` are not modelled.
--
-- Replay: src/obs_agent/jsonl_replay.py, which rows of a transcript a resumed session replays, and the rows
-- that are appended so that a reader of parents finds them all.
--   Replay/Torn.antt     `_torn_tail_start`, `_decode_complete_lines`
--   Replay/Rows.antt     the rows, the map of the latest row of each identifier, the walk up the parents
--   Replay/Select.antt   `select_replay_entries`
--   Replay/Overlays.antt the loop of `prepare_session_replay` that makes the overlays
-- Identifiers are numbers, in place of texts that are not empty; the raw line of a row is not kept. The
-- walk has fuel, one more than the map has rows: it never visits a row twice. The reader of JSON,
-- `str.strip` and the order in which Python iterates the set of tool calls are arguments. The receipts, the
-- manifest of the overlays and the writing of the file are not modelled.
--
-- Health: src/obs_agent/jsonl_health.py, whether a transcript can be resumed as it is, and where a fork or
-- a recovery may begin.
--   Health/Chains.antt     `_collect_chain_unsafe`
--   Health/Entries.antt    `_ParsedEntry`, `_is_real_assistant`, `_is_poison`, `_tail_reason`
--   Health/Boundaries.antt `_completed_boundaries`
--   Health/Recovered.antt  `_recovered_poison_uuids`
--   Health/Analysis.antt   `_analyze_jsonl_path_uncached`, `is_uuid_safe`, `is_stale_session_head`
--   Health/Resolve.antt    `resolve_safe_jsonl_target`
-- The analysis uses the selection of Replay, on the latest rows. What a line holds is an argument, and a
-- tool call always has an identifier. The walks have fuel, one more than there are rows: no walk visits a row
-- twice. Receipts of completed messages are an argument, and so is the analysis of a branch when a target is
-- resolved. Of the record that the analysis returns the fields that only repeat lines are left out. The cache
-- of analyses and the refusal streaks are not modelled.
--
-- Fork: src/obs_agent/jsonl_fork.py, the rows that a fork of a session starts with.
--   Fork/Copy.antt `fork_session_jsonl` up to the file that it writes, `_adjacent_metadata`
-- It uses the selection of Replay and the target of Health. The health of the source and that of a branch
-- are arguments. `resolve_session_source`, the files and the provenance record are not modelled.
--
-- Prepare: src/obs_agent/jsonl_replay.py again, `prepare_session_replay` from the rows of the file to the
-- overlays, with the retreat to a suffix that is complete where older rows are damaged.
--   Prepare/Legacy.antt the selection, the legacy boundary, the repair limit and the overlays
-- It uses the selection and the loop of Replay; the health of the file is an argument.
mod Prelude
pub mod Gate
pub mod Watchdog
pub mod CacheGate
pub mod CreditLimit
pub mod ScheduleScope
pub mod Fifo
pub mod AppendScan
pub mod Effort
pub mod Readiness
pub mod Replay
pub mod Health
pub mod Fork
pub mod Prepare

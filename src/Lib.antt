-- ===== src/Lib.antt =====
-- phpeek-pm, a process manager for containers, written in Go: its core logic, and what makes it
-- correct.
--
-- The parts, and the files that model them. Paths are from the repository's root.
-- - Prelude: Booleans, lists, int values, strings, maps, slices and ring buffers, with their lemmas.
-- - Restart (internal/process/restart.go): the restart policies and the backoff. The int64 product of
--   calculateBackoff wraps here as it does there. `restarts` is the count that monitorInstance and
--   attemptRestart of internal/process/supervisor.go keep.
-- - Deps (internal/deps/graph.go): the graph of dependencies that the process manager starts the
--   processes by. Deps has Validate and HasCycle, Deps.Topological has TopologicalSort.
-- - Schedule.History, Schedule.Job and Schedule.Scheduler (internal/schedule/history.go, job.go and
--   scheduler.go): the scheduler keeps a map of jobs beside the entries of the cron library, and each
--   job keeps a history. Job.Steps has one step for each critical section of a job's mutex, so that
--   its sequences are the interleavings of the goroutines.
-- - Oneshot (internal/process/oneshot_history.go): the history of one-shot executions.
-- - Health (internal/process/healthcheck.go): HealthMonitor, its thresholds and counters.
-- - Readiness (internal/readiness/manager.go): the readiness file and the criteria of the two modes.
-- - Autotune (internal/autotune/calculator.go and profiles.go): the settings of PHP-FPM.
-- - LogBuffer (internal/logger/log_buffer.go) and TimeSeries (internal/metrics/timeseries.go): ring
--   buffers of log entries and of resource samples.
-- - Pipeline (internal/logger/process_writer.go, redactor.go, json_parser.go, level_detector.go and
--   filters.go): what a complete log entry goes through until it stands in the log buffer.
-- - Multiline (internal/logger/multiline.go): the buffer that puts the lines of one entry together,
--   with the events that Write and processLine of internal/logger/process_writer.go make of its calls.
-- - Config (internal/config/types.go): the fields of the configuration that the others read, and
--   Equal, which compares two processes. Config.Override (internal/config/envsubst.go) has the
--   environment variables that override fields, and Config.Expand the references to variables in the
--   file's text; the overrides are made on the tree of maps that the YAML library makes; texts are
--   lists of bytes there.
-- - Supervisor (internal/process/supervisor.go): the instances of one process. A pointer to an instance
--   is a place in a heap that only grows. Supervisor.Steps has one step for each critical section of an
--   operation or of a goroutine, and for what the operating system does: its sequences are the
--   interleavings. A parameter says whether a process starts, and with which pid. A restart is three
--   steps: the start of the new process, whose goroutine runs from then on, the section that sets its
--   count, and the one that puts it in the place of the old.
--   The beginning of the file says which steps have more than one section.
-- - Manager (internal/process/manager_scaling.go, manager_lifecycle.go and manager_config.go): scaling,
--   the control commands, the changes of the configuration and its reload, and, in Manager.Startup,
--   the start of all processes in the order that Deps gives, and the shutdown. A pointer to a
--   configuration is a place in a store, since a supervisor and the manager may share one, or not.
--   The supervisors are an interface, SupervisorOps, with the laws SupervisorLaws; Manager.Supervised
--   fills it with the model of the supervisor, each operation run to its end while no process exits
--   by itself; what starts and what can be signalled is a parameter there.
--
-- How the code is modelled. A method becomes a function of the state before it and the readings of the
-- clock it takes, with the state after it as its result; a mutex makes a method one step. The error of
-- a method is a value, and a panic is `none`. A Go map is an association list in the order of its range
-- loops. An int is an integer of unbounded size, save in the backoff; counters that only grow are
-- natural numbers. The cron library, regular expressions, floating point and file operations are parameters.
--
-- Fuel. ScaleUp, run to its end, has two rounds more than there are instances to add: one of them
-- ends it, the other starts none; a run that is out of fuel is `none`. HasCycle and TopologicalSort recurse on fuel: one round for each
-- node of the graph, and one more for the search. matchFieldPath has one round for each token, and
-- one more. The theorems on the three give a result, so that this is enough.
--
-- Not modelled: the notifications of deaths that the manager waits for, the loops of the supervisor
-- that read health and resources, hooks and signals, the HTTP interface, the terminal interface, the
-- commands, defaults and validation of the configuration, metrics and tracing, and what only calls
-- the operating system.
pub mod Prelude
pub mod Restart
pub mod LogBuffer
pub mod Config
pub mod Deps
pub mod Schedule
pub mod Oneshot
pub mod Health
pub mod Readiness
pub mod Autotune
pub mod Supervisor
pub mod Manager
pub mod Pipeline
pub mod TimeSeries
pub mod Multiline

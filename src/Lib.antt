-- ===== src/Lib.antt =====
-- A model of the Qodalis CLI server, a Python server whose plugins give it jobs, users and files.
--
-- Permissions models plugins/users/qodalis_cli_users/permissions.py and the covering of permission
-- lists in services/auth_service.py (`covers`, `uncovered`).
--
-- Jobs models plugins/jobs/qodalis_cli_jobs. Jobs.Registration, Slots, Schedule, Control,
-- Updating, Attempts, Starting and Deleting model cli_job_scheduler.py: a registration is a
-- record, `CliJobScheduler` is the dictionary of the registrations, a flag and a list of what it
-- publishes, saves and launches, and a method is an action on that state that returns or raises
-- (what was written before a raise stays). `Step` in Jobs.Interleaving has a constructor for
-- `trigger`, `pause`, `resume`, `stop_job`, `cancel_current` and `update_options`, for the two
-- parts of `stop`, for a timer that fires and for the end of a run; `Reach` is any sequence of steps, which is what the event loop may
-- interleave, since each of these changes a registration without awaiting. The start of the scheduler
-- (Starting) and the deletion of executions (Deleting) are no steps, and `register` is
-- not modelled. Interval models interval_parser.py, Storage models
-- in_memory_job_storage_provider.py.
--
-- Users models services/auth_service.py of plugins/users: the table of failed logins (Lockout) and
-- the sliding window of each address (RateLimit), and authentication (Auth: session tokens and API
-- tokens; Auth.Tickets; Auth.Revoking: logout, revocation, cleanup) over the in-memory stores of
-- users, groups, sessions, API tokens and credentials (Stores, which models stores/ and models.py). A
-- hash of a token is the parameter `Config.hash_token`, a hash of a password `Settings.hash_password`.
-- Validation models validation.py and errors.py. Service models services/users_service.py: Service.Users
-- and Service.Groups hold its operations, each with the part that may raise as a chain of checks;
-- Service.Directory says what is promised of the table of users, and Service.Requests joins the
-- operations into sequences of requests, whose targets are loaded as the controllers load them.
-- The external adapter is left out, and auditing is a list of notices.
--
-- Files models the in-memory storage of plugins/filesystem (providers/in_memory_provider.py): paths
-- (Path), the tree of nodes (Tree) and the operations (Provider). A node is a value, so an operation
-- returns the new tree; a listing is given before its entries are sorted by name; UTF-8 is a parameter.
--
-- Commands models the server's own core in src/qodalis_cli/services and the abstractions that it uses:
-- the splitting of a command's arguments (Words: shell_words.py), the registry of processors (Registry:
-- cli_command_registry.py), the executor with its counters (Executor: cli_command_executor_service.py,
-- cli_command_usage.py), and outputs with their limits and pages (Output: cli_output_limits.py,
-- cli_paging.py). What a processor does is an argument of the executor.
--
-- Shells models the remote shells: shell_security.py and the part of
-- services/cli_shell_session_manager.py that authorizes (Access) and that limits, checks and closes
-- the open shells (Sessions). `Step` is one thing the event loop may do to the table, and `Reach` any
-- sequence of them. Environment models what a shell starts with. SHA-256 is a parameter.
--
-- Prelude holds the shared vocabulary: Python's dict, list and text operations, and actions that
-- may raise.
--
-- Parameters stand for code that is not in the repository: croniter (`Platform.next_occurrence`,
-- `cron_is_valid`), Python's `str.lower` and the digits of `\d`. Times are natural numbers of
-- milliseconds (seconds in interval texts); negative numbers of milliseconds are not
-- represented, nor is a `max_concurrent_runs` below 0, which is refused like 0; `max_retries` is any
-- integer. The objects that Python shares are written back to the table that holds them. The
-- loop of `_run` is on fuel: `max_retries + 1` rounds are enough, since a round is only repeated
-- below `max_retries`. The pages of `delete_executions` are read on fuel for one page more than there
-- are executions. The options are taken not to change during a run. A job's own code, its
-- logs and properties, storages that fail, and the delivery of events are not modelled, nor are
-- the HTTP and WebSocket controllers, the plugins for AWS, databases and other file storages, and
-- the processes and terminals behind the shells.
pub mod Prelude
pub mod Permissions
pub mod Jobs
pub mod Users
pub mod Files
pub mod Commands
pub mod Shells

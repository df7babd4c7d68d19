-- ===== src/Jobs.antt =====
-- plugins/jobs/qodalis_cli_jobs: the job scheduler (cli_job_scheduler.py), the intervals that it
-- reads (interval_parser.py) and its in-memory storage.
pub mod Registration
pub mod Slots
pub mod Interval
pub mod Schedule
pub mod Control
pub mod Updating
pub mod Interleaving
pub mod Storage
pub mod Attempts
pub mod Deleting
pub mod Starting
mod Tests

-- ===== src/Scheduler.antt =====
-- The job scheduler: src/Core/Scheduler.h and Scheduler.cpp. The mutex is recursive and makes each
-- call one step; a job that `tick` runs is a call of its own, `run_job`. The file is kept as what
-- `writeJobs` puts into it and `load` reads back from it, item by item, through ArduinoJson; `writes n`
-- is what the `n`-th `Storage::write` does, which is not asked to be atomic: one that fails can lose
-- the file that was there. A callback is its address. `list`, which is text for the console, is left
-- out.
pub mod Jobs
pub mod Loading
pub mod Calls
pub mod Tick
pub mod Slots
pub mod Saving
pub mod Invariant
pub mod Adding
pub mod Removing
pub mod Clearing
pub mod Ticking
pub mod Steps
pub mod Deadlines
pub mod Restarting
pub mod Turns
pub mod Rounds

-- ===== src/Policy.antt =====
-- The small decision functions of src/logic: stale_policy, filter_health, rescue_policy,
-- diag_mode, sleep_planner, and the nightly-clean guard of cycle_runner.cpp, which read nothing
-- but their arguments.
pub mod Health
pub mod Rescue
pub mod Sleep
pub mod Pager

-- ===== src/Boot.antt =====
-- decideBoot of cmd/cereblixd/selfheal.go: what a node does at start-up with a version that it
-- installed or rolled back to. `BootState` is what it reads off the markers on disk, which are in
-- Boot.Guard; Boot.Update has the installation that sets them.
pub mod Guard
pub mod Undone
pub mod Version
pub mod Update
pub mod Blocked
pub mod Installed
use cereblix.Prelude.{ℕ, Bool, true, false, not, leb, if◌then◌else◌}

abbrev pub max_bad_boots : ℕ
max_bad_boots = 3

pub data BootDecision : Type 0 where
  boot_normal boot_watch boot_confirm_rollback boot_rollback : BootDecision
  boot_give_up boot_env_problem boot_env_fault_confirmed : BootDecision

pub record BootState : Type 0 where
  pub env_ok : Bool
  pub has_pending : Bool
  pub attempts : ℕ
  pub has_old : Bool
  pub has_suspect : Bool
  pub confirm_attempts : ℕ

-- decideBoot
unfoldable pub decide_boot : BootState → BootDecision
decide_boot s =
    if not s.env_ok
    then boot_env_problem
    else if s.has_pending
    then (if leb max_bad_boots s.attempts
        then (if s.has_old then boot_rollback else boot_give_up)
        else boot_watch)
    else if s.has_suspect
    then (if leb max_bad_boots s.confirm_attempts
        then boot_env_fault_confirmed
        else boot_confirm_rollback)
    else boot_normal

-- ===== src/Core/Scheduler.antt =====
-- crates/core/src/scheduler.rs: tasks on threads of their own, and the map of their statuses. A
-- definition here is one section under the mutex; a task is a closure of the caller, which the
-- scheduler runs outside the mutex. An identifier of ulid is a number.
pub mod Threads
pub mod Fates
use tordex.Prelude.{
  ℕ, ◌+◌, String, Option, some, none, Bool, true, false, List, [], ◌∷◌, nat_eq, if◌then◌else◌,
}
use tordex.Prelude.Map.{Map, get, insert}

pub data TaskStatus : Type 0 where
  pending running completed : TaskStatus
  failed : String → TaskStatus
  cancelled : TaskStatus

abbrev pub Statuses : Type 0
Statuses = Map ℕ TaskStatus

-- `guard.get(&id) == Some(&TaskStatus::Cancelled)`
unfoldable pub is_cancelled : Option TaskStatus → Bool
is_cancelled (some cancelled) = true
is_cancelled (some pending) = false
is_cancelled (some running) = false
is_cancelled (some completed) = false
is_cancelled (some (failed why)) = false
is_cancelled none = false

-- `Some(TaskStatus::Pending | TaskStatus::Running)`
unfoldable pub may_cancel : Option TaskStatus → Bool
may_cancel (some pending) = true
may_cancel (some running) = true
may_cancel (some completed) = false
may_cancel (some (failed why)) = false
may_cancel (some cancelled) = false
may_cancel none = false

unfoldable pub set_status : Statuses → ℕ → TaskStatus → Statuses
set_status m id s = insert m id s

-- `spawn` and `schedule_after` up to the start of the thread; `id` is the fresh identifier.
unfoldable pub spawn : Statuses → ℕ → Statuses
unfolding set_status
spawn m id = set_status m id running

unfoldable pub schedule_after : Statuses → ℕ → Statuses
unfolding set_status
schedule_after m id = set_status m id pending

-- The section after the sleep, and whether the thread goes on.
pub wake : Statuses → ℕ → Bool × Statuses
unfolding is_cancelled
wake m id = if is_cancelled (get m id) then (false, m) else (true, insert m id running)

-- The section after the task.
unfoldable pub complete : Statuses → ℕ → Statuses
unfolding is_cancelled
complete m id = if is_cancelled (get m id) then m else insert m id completed

unfoldable pub cancel : Statuses → ℕ → Bool × Statuses
unfolding may_cancel
cancel m id = if may_cancel (get m id) then (true, insert m id cancelled) else (false, m)

unfoldable pub status : Statuses → ℕ → Option TaskStatus
status m id = get m id

is_running : TaskStatus → Bool
is_running running = true
is_running _ = false

pub running_count : Statuses → ℕ
unfolding is_running
running_count [] = 0
running_count ((id, s) ∷ m) = (if is_running s then 1 else 0) + running_count m

-- ===== src/Scheduler.antt =====
-- `os_schedule_next_task` of kernel/kernel.c, which PendSV_Handler calls to choose the next task.
pub mod Pick
pub mod Switch
use ko_rtos.Base.{
  ℕ, suc, ◌+◌, ◌-◌, Option, none, some, Bool, true, false, leb, if◌then◌else◌, Best, scan,
}
use ko_rtos.Types.{
  Kernel, TaskState, ready, running, current, set_task, os_priority_lowest, idle_task_idx,
}

abbrev pub is_ready : TaskState → Bool
is_ready ready = true
is_ready _ = false

abbrev pub is_running : TaskState → Bool
is_running running = true
is_running _ = false

-- The priority of a task that may be chosen.
abbrev pub candidate : Kernel → ℕ → Option ℕ
candidate k i =
    if is_ready (k.user_tasks i).current_state
    then some (k.user_tasks i).effective_priority
    else none

-- The two loops: the tasks after the current one, then those from 1 up to it.
unfoldable pub round_robin : Kernel → Best
round_robin k = scan (candidate k) k.current_task 1 (
    scan (candidate k) (k.task_count - suc k.current_task) (suc k.current_task)
      (record { prio = os_priority_lowest + 1; idx = some idle_task_idx }))

-- The variable `task_to_run`, which the loops begin at the idle task.
abbrev pub chosen : Best → ℕ
chosen b = elim b.idx [ none ↦ idle_task_idx | some i ↦ i ]

unfoldable pub stop_running : Kernel → Kernel
stop_running k =
    if is_running (current k).current_state
    then set_task k k.current_task (record (current k) { current_state = ready })
    else k

unfoldable pub run_task : Kernel → ℕ → Kernel
run_task k t = record (set_task k t (record (k.user_tasks t) { current_state = running })) {
  current_task = t;
}

unfoldable pub os_schedule_next_task : Kernel → Kernel
os_schedule_next_task k =
    let k' = stop_running k in
    if leb k'.task_count 1 then k' else run_task k' (chosen (round_robin k'))

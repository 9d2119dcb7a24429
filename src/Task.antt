-- ===== src/Task.antt =====
-- Tasks in kernel/kernel.c: `os_task_create`, `os_task_delay`, `init_idle_task`, the start of the
-- kernel up to its first task, and the stack pointer that PendSV_Handler saves and loads.
pub mod Consistency
use ko_rtos.Base.{ℕ, suc, ◌+◌, ◌%◌, ◌^◌, Option, none, some, false, ◌==◌, ltb, leb, if◌then◌else◌}
use ko_rtos.Types.{
  Kernel, Tcb, OsErr, ok, out_of_range, max_tasks, null_ptr, ready, blocked, not_blocked, on_delay,
  current, set_task, u32, os_max_tasks, os_priority_lowest, os_wait_forever, idle_task_idx,
}
use ko_rtos.Port.{port_enter_critical, port_exit_critical, port_yield, port_init_task_stack_frame}
use ko_rtos.Scheduler.{os_schedule_next_task}

-- The assignments to a new task's control block. `owned_mutexes` and its count keep what they have.
abbrev pub init_tcb : Tcb → ℕ → ℕ → ℕ → Tcb
init_tcb b sp task_handler priority = record b {
  stack_pointer = sp;
  task_handler = task_handler;
  current_state = ready;
  base_priority = priority;
  effective_priority = priority;
  wakeup_tick = 0;
  block_reason = not_blocked;
  blocked_waitlist = none;
  timeout = false;
}

-- A task pointer of NULL is none. `priority < OS_PRIORITY_HIGHEST` holds of no unsigned value.
unfoldable pub os_task_create : ℕ → ℕ → Option ℕ → ℕ → Kernel → OsErr × Kernel
os_task_create task_handler task_priority task_stack_base task_stack_size k =
    if leb os_max_tasks k.task_count
    then (max_tasks, k)
    else if ltb os_priority_lowest task_priority
    then (out_of_range, k)
    else elim task_stack_base [
      | none ↦ (null_ptr, k)
      | some base ↦
          let s = port_init_task_stack_frame task_handler base task_stack_size k.memory in
          (
            ok,
            record (set_task k k.task_count
                (init_tcb (k.user_tasks k.task_count) s.sp task_handler task_priority)) {
                  memory = s.words;
                  task_count = u32 (k.task_count + 1);
                },
          )
    ]

-- The caller is blocked when this ends, unless it is the idle task.
unfoldable pub os_task_delay : ℕ → Kernel → Kernel
os_task_delay tick_count k =
    let (prev_int_state, k') = port_enter_critical k in
    let wakeup = if tick_count == os_wait_forever then 0 else u32 (k.systick_count + tick_count) in
    if k.current_task == idle_task_idx
    then port_exit_critical prev_int_state k'
    else port_exit_critical prev_int_state (
        port_yield (
          set_task k' k.current_task (record (current k) {
            wakeup_tick = wakeup;
            block_reason = on_delay;
            current_state = blocked;
          })))

-- `idle_handler`, `idle_stack` and `idle_size` stand for the addresses that the linker gives to
-- `idle_task_handler` and `idle_task_stack`, and the latter's size.
module _ (idle_handler idle_stack idle_size : ℕ) where
  unfoldable pub init_idle_task : Kernel → Kernel
  init_idle_task k =
      let s = port_init_task_stack_frame idle_handler idle_stack idle_size k.memory in
      record (set_task k idle_task_idx
        (init_tcb (k.user_tasks idle_task_idx) s.sp idle_handler (os_priority_lowest + 1))) {
          memory = s.words;
        }

  -- The kernel's own state where the first task's handler is called.
  unfoldable pub os_kernel_start : Kernel → Kernel
  os_kernel_start k = os_schedule_next_task (init_idle_task k)

unfoldable pub os_get_sp_value : Kernel → ℕ
os_get_sp_value k = (current k).stack_pointer

unfoldable pub os_save_sp_value : ℕ → Kernel → Kernel
os_save_sp_value psp k = set_task k k.current_task (record (current k) { stack_pointer = psp })

-- PendSV_Handler: the interrupted task's stack pointer `psp` (below the saved R4 to R11) is kept,
-- the next task is chosen, and its stack pointer is loaded. Entry clears the pending request.
unfoldable pub pendsv_handler : ℕ → Kernel → ℕ × Kernel
pendsv_handler psp k =
    let k' = os_schedule_next_task (os_save_sp_value psp (record k { pendsv = false })) in
    (os_get_sp_value k', k')

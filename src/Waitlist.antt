-- ===== src/Waitlist.antt =====
-- The waitlists of kernel/kernel.c (`waitlist_init`, `waitlist_block_current`, `waitlist_unblock`,
-- `waitlist_remove_task`): an array of task pointers with a count, and the tasks that wait in it.
pub mod Entries
pub mod Members
pub mod Choice
pub mod Block
use ko_rtos.Base.{
  ℕ, zero, suc, ◌+◌, ◌-◌, ◌%◌, ◌^◌, Option, none, some, false, ◌==◌, leb, if◌then◌else◌, update,
  Best, scan,
}
use ko_rtos.Types.{
  Kernel, Tcb, Waitlist, WaitlistRef, SchedulePolicy, fifo, priority, invalid, OsErr, waitlist_full,
  BlockReason, not_blocked, ready, blocked, Reply, returned, suspended, current, set_task,
  set_waitlist, u8, u32, os_max_tasks, os_priority_lowest, os_wait_forever, ◌>>=◌,
}
use ko_rtos.Port.{port_exit_critical, port_yield}

-- `for (i = 0; i < OS_MAX_TASKS; i++) task_waitlist[i] = NULL`
clear_entries : ℕ → ℕ → (ℕ → Option ℕ) → ℕ → Option ℕ
clear_entries zero i a = a
clear_entries (suc n) i a = clear_entries n (suc i) (update a i none)

unfoldable pub waitlist_init : SchedulePolicy → Waitlist → Waitlist
unfolding clear_entries
waitlist_init policy w = record {
  task_waitlist = clear_entries os_max_tasks 0 w.task_waitlist;
  wait_count = 0;
  schedule_policy = policy;
}

-- `for (i = task_idx; ...; i++) task_waitlist[i] = task_waitlist[i + 1]`, on the rounds left.
shift_down : ℕ → ℕ → (ℕ → Option ℕ) → ℕ → Option ℕ
shift_down zero i a = a
shift_down (suc n) i a = shift_down n (suc i) (update a i (a (suc i)))

-- Both calls are made with `task_idx < wait_count`, so that `wait_count - 1` is not negative.
unfoldable pub waitlist_remove_task : Waitlist → ℕ → Waitlist
unfolding shift_down
waitlist_remove_task w task_idx = record w {
  task_waitlist =
      update
        (shift_down (w.wait_count - 1 - task_idx) task_idx (update w.task_waitlist task_idx none))
        (w.wait_count - 1) none;
  wait_count = u8 (w.wait_count + 2 ^ 8 - 1);
}

-- The current task becomes blocked and goes to the end of the list `r`; PendSV is requested before
-- the critical section ends. The error is returned where the list is full.
unfoldable pub waitlist_block_current : WaitlistRef → ℕ → BlockReason → ℕ → Kernel → Reply × Kernel
waitlist_block_current r timeout block_reason prev_int_state k =
    let w = k.waitlists r in
    let b = current k in
    let wakeup = if timeout == os_wait_forever then 0 else u32 (k.systick_count + timeout) in
    if leb os_max_tasks w.wait_count
    then (returned waitlist_full, port_exit_critical prev_int_state k)
    else (
      suspended,
      port_exit_critical prev_int_state (
          port_yield (
            set_waitlist
              (set_task k k.current_task (record b {
                current_state = blocked;
                block_reason = block_reason;
                blocked_waitlist = some r;
                wakeup_tick = wakeup;
              }))
              r
              (record w {
                task_waitlist = update w.task_waitlist w.wait_count (some k.current_task);
                wait_count = u8 (w.wait_count + 1);
              }))),
    )

-- The effective priority of the waiter at an index, if the entry is not NULL.
abbrev pub waiter_priority : Kernel → Waitlist → ℕ → Option ℕ
waiter_priority k w i = elim (w.task_waitlist i) [
  | none ↦ none
  | some t ↦ some (k.user_tasks t).effective_priority
]

-- `unblock_idx`; none is -1.
unfoldable pub unblock_index : Kernel → Waitlist → SchedulePolicy → Option ℕ
unblock_index k w fifo = some 0
unblock_index k w priority =
    (scan (waiter_priority k w) w.wait_count 0
      (record { prio = os_priority_lowest + 1; idx = none })).idx
unblock_index k w (invalid _) = none

-- The fields that waking a task resets.
abbrev pub woken : Tcb → Tcb
woken b = record b {
  wakeup_tick = 0;
  current_state = ready;
  block_reason = not_blocked;
  blocked_waitlist = none;
  timeout = false;
}

-- Wakes the task at the chosen index. An index of -1 and a NULL entry are faults.
unfoldable pub wake_at : WaitlistRef → Option ℕ → Kernel → Option (Option ℕ × Kernel)
wake_at r idx k = do
  i ← idx
  t ← (k.waitlists r).task_waitlist i
  some (
    some t,
    set_waitlist (set_task k t (woken (k.user_tasks t))) r (waitlist_remove_task (k.waitlists r) i),
  )

-- The task that was woken, or none if the list is empty.
unfoldable pub waitlist_unblock : WaitlistRef → Kernel → Option (Option ℕ × Kernel)
waitlist_unblock r k =
    let w = k.waitlists r in
    if w.wait_count == 0 then some (none, k) else wake_at r (unblock_index k w w.schedule_policy) k

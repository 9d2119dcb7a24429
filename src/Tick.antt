-- ===== src/Tick.antt =====
-- The SysTick path of kernel/kernel.c: `os_tick`, `update_tick_count` and `unblock_tasks`.
pub mod Deadline
pub mod Wakeup
use ko_rtos.Base.{
  ℕ, zero, suc, ◌+◌, ◌-◌, Option, none, some, Bool, true, false, not, ◌&&◌, ◌==◌, leb,
  if◌then◌else◌,
}
use ko_rtos.Types.{
  Kernel, Tcb, Waitlist, WaitlistRef, TaskState, ready, blocked, not_blocked, set_task,
  set_waitlist, u32, reached,
}
use ko_rtos.Port.{port_yield}
use ko_rtos.Waitlist.{waitlist_remove_task}

unfoldable pub update_tick_count : Kernel → Kernel
update_tick_count k = record k { systick_count = u32 (k.systick_count + 1) }

abbrev pub is_blocked : TaskState → Bool
is_blocked blocked = true
is_blocked _ = false

abbrev pub same_task : Option ℕ → ℕ → Bool
same_task none t = false
same_task (some s) t = s == t

-- The first index in `[i, i + n)` whose entry points to task `t`.
unfoldable pub find_waiter : (ℕ → Option ℕ) → ℕ → ℕ → ℕ → Option ℕ
find_waiter a t zero i = none
find_waiter a t (suc n) i =
    let rest = find_waiter a t n (suc i) in if same_task (a i) t then some i else rest

-- Task `t` leaves the waitlist that it times out on; it keeps its place if it is not found there.
unfoldable pub leave_waitlist : WaitlistRef → ℕ → Kernel → Kernel
leave_waitlist r t k =
    let w = k.waitlists r in
    let b = record (k.user_tasks t) { timeout = true } in
    elim (find_waiter w.task_waitlist t w.wait_count 0) [
      | none ↦ set_task k t b
      | some i ↦
          set_task (set_waitlist k r (waitlist_remove_task w i)) t
            (record b { blocked_waitlist = none })
    ]

unfoldable pub end_wait : ℕ → Kernel → Kernel
end_wait t k = elim (k.user_tasks t).blocked_waitlist [
  | none ↦ set_task k t (record (k.user_tasks t) { timeout = false })
  | some r ↦ leave_waitlist r t k
]

-- The test of the loop's body: blocked, with a deadline, and the deadline is reached.
abbrev pub is_due : Kernel → ℕ → Bool
is_due k t =
    is_blocked (k.user_tasks t).current_state
    && (not ((k.user_tasks t).wakeup_tick == 0)
        && reached k.systick_count (k.user_tasks t).wakeup_tick)

unfoldable pub wake_if_due : ℕ → Kernel → Kernel
wake_if_due t k =
    let k' = end_wait t k in
    if is_due k t
    then set_task k' t (record (k'.user_tasks t) {
      current_state = ready;
      block_reason = not_blocked;
      wakeup_tick = 0;
    })
    else k

-- The loop over the tasks, on the rounds left.
unfoldable pub wake_due : ℕ → ℕ → Kernel → Kernel
wake_due zero i k = k
wake_due (suc n) i k = wake_due n (suc i) (wake_if_due i k)

unfoldable pub unblock_tasks : Kernel → Kernel
unblock_tasks k = if leb k.task_count 1 then k else wake_due (k.task_count - 1) 1 k

unfoldable pub os_tick : Kernel → Kernel
os_tick k = port_yield (unblock_tasks (update_tick_count k))

-- ===== src/Semaphore.antt =====
-- Counting semaphores of kernel/kernel.c: `os_sem_create`, `os_sem_wait`, `os_sem_post`. A pointer
-- of NULL is none. `os_sem_wait` comes in two parts: up to its return or the suspension of the
-- caller, and from there on when the caller runs again.
pub mod Consistency
pub mod Contract
use ko_rtos.Base.{
  ℕ, ◌+◌, ◌-◌, ◌%◌, ◌^◌, Option, none, some, Bool, true, false, ◌==◌, ltb, if◌then◌else◌, update,
}
use ko_rtos.Types.{
  Kernel, Semaphore, SchedulePolicy, fifo, priority, invalid, sem_list, OsErr, ok, null_ptr,
  unavailable, sem_invalid_init_count, invalid_schedule_policy, on_sem, Reply, returned, current,
  set_waitlist, u8, os_max_tasks, ◌>>=◌,
}
use ko_rtos.Port.{port_enter_critical, port_exit_critical, port_yield}
use ko_rtos.Waitlist.{waitlist_init, waitlist_block_current, waitlist_unblock}

abbrev pub is_policy : SchedulePolicy → Bool
is_policy fifo = true
is_policy priority = true
is_policy (invalid _) = false

abbrev pub set_semaphore : Kernel → ℕ → Semaphore → Kernel
set_semaphore k s v = record k { semaphores = update k.semaphores s v }

unfoldable pub os_sem_create : Option ℕ → ℕ → SchedulePolicy → Kernel → OsErr × Kernel
os_sem_create none initial_count policy k = (null_ptr, k)
os_sem_create (some s) initial_count policy k =
    if ltb os_max_tasks initial_count
    then (sem_invalid_init_count, k)
    else if is_policy policy
    then (
      ok,
      set_waitlist (set_semaphore k s (record { count = initial_count })) (sem_list s)
          (waitlist_init policy (k.waitlists (sem_list s))),
    )
    else (invalid_schedule_policy, k)

unfoldable pub os_sem_wait : Option ℕ → ℕ → Kernel → Reply × Kernel
os_sem_wait none timeout k = (returned null_ptr, k)
os_sem_wait (some s) timeout k =
    let (prev, k') = port_enter_critical k in
    let c = (k.semaphores s).count in
    if ltb 0 c
    then (returned ok, port_exit_critical prev (set_semaphore k' s (record { count = c - 1 })))
    else if timeout == 0
    then (returned unavailable, port_exit_critical prev k')
    else waitlist_block_current (sem_list s) timeout on_sem prev k'

-- The caller runs again: what it returns.
unfoldable pub os_sem_wait_resume : Kernel → OsErr
os_sem_wait_resume k = if (current k).timeout then unavailable else ok

-- After `waitlist_unblock`: a task was woken and may take over, or the count goes up.
abbrev pub post_done : ℕ → ℕ → Option ℕ × Kernel → OsErr × Kernel
post_done s prev (some t, k) = (ok, port_exit_critical prev (port_yield k))
post_done s prev (none, k) = (
  ok,
  port_exit_critical prev (set_semaphore k s (record { count = u8 ((k.semaphores s).count + 1) })),
)

unfoldable pub os_sem_post : Option ℕ → Kernel → Option (OsErr × Kernel)
os_sem_post none k = some (null_ptr, k)
os_sem_post (some s) k =
    let (prev, k') = port_enter_critical k in
    do u ← waitlist_unblock (sem_list s) k'; some (post_done s prev u)

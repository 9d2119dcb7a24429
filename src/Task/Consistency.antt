-- ===== src/Task/Consistency.antt =====
-- The operations on tasks keep the tables consistent.
use ko_rtos.Base.{
  ℕ, ◌+◌, ◌≤◌, ◌<◌, ◌≡◌, refl, ◌≢◌, Option, none, some, leb, ltb, ◌==◌, if_ind, arith,
}
use ko_rtos.Types.{
  WaitlistRef, Kernel, OsErr, running, current, u32, os_max_tasks, os_priority_lowest,
}
use ko_rtos.Task.{
  os_task_create, os_task_delay, init_idle_task, os_kernel_start, os_save_sp_value, pendsv_handler,
}
use ko_rtos.Invariant.{Inv, write-IsConsistent}
use ko_rtos.Invariant.Blocking.{running-on}
use ko_rtos.Invariant.Creating.{fresh-IsConsistent}
use ko_rtos.Invariant.Switching.{os_schedule_next_task-Inv}

-- The creation of a task keeps the tables consistent, on each of its error branches too.
pub os_task_create-Inv :
    (handler prio : ℕ) (base : Option ℕ) (size : ℕ) (k : Kernel)
    → Inv k
    → Inv (os_task_create handler prio base size k).1
unfolding os_task_create
os_task_create-Inv handler prio none size k v =
    if_ind (λ (x : OsErr × Kernel). Inv x.1) (leb os_max_tasks k.task_count) (λ _. v)
      (λ _.
        if_ind (λ (x : OsErr × Kernel). Inv x.1) (ltb os_priority_lowest prio) (λ _. v) (λ _. v))
os_task_create-Inv handler prio (some base) size k v =
    if_ind (λ (x : OsErr × Kernel). Inv x.1) (leb os_max_tasks k.task_count) (λ _. v)
      λ room.
        if_ind (λ (x : OsErr × Kernel). Inv x.1) (ltb os_priority_lowest prio) (λ _. v)
          λ ranked.
            let below : k.task_count < os_max_tasks = ground arith in
            let low : prio ≤ os_priority_lowest = ground arith in
            fresh-IsConsistent k.task_count (u32 (k.task_count + 1)) _ (λ h. omega arith)
              (omega arith) (omega arith) refl refl refl (λ _. omega arith) v

-- A delay of the running task keeps the tables consistent.
pub os_task_delay-Inv :
    (ticks : ℕ) (k : Kernel)
    → (current k).current_state ≡ running
    → Inv k
    → Inv (os_task_delay ticks k)
unfolding os_task_delay
os_task_delay-Inv ticks k e v =
    if_ind Inv (k.current_task == 0) (λ _. v)
      λ _.
        write-IsConsistent k.current_task _ refl
          (record {
            waiting = λ r q. absurd (off q);
            reason = λ r q. absurd (off q);
            mutex_wait = λ q. cc;
            one_running = λ _. refl;
            in_range = (v.sound k.current_task).in_range;
          })
          v
  where
    off : {r : WaitlistRef} → (current k).blocked_waitlist ≢ some r
    off q = let n = running-on k.current_task e v in cc

module _ (idle_handler idle_stack idle_size : ℕ) where
  init_idle_task-Inv :
      (k : Kernel) → Inv k → Inv (init_idle_task idle_handler idle_stack idle_size k)
  unfolding init_idle_task
  init_idle_task-Inv k v =
      fresh-IsConsistent 0 k.task_count _ (λ h. omega arith) (omega arith) v.count_max refl refl
        refl (λ h. absurd (omega arith)) v

  -- The start of the kernel keeps the tables consistent, wherever the idle task's code and stack lie.
  pub os_kernel_start-Inv :
      (k : Kernel) → Inv k → Inv (os_kernel_start idle_handler idle_stack idle_size k)
  unfolding os_kernel_start
  os_kernel_start-Inv k v = os_schedule_next_task-Inv _ (init_idle_task-Inv k v)

-- The context switch keeps the tables consistent.
pub pendsv_handler-Inv : (psp : ℕ) (k : Kernel) → Inv k → Inv (pendsv_handler psp k).1
unfolding pendsv_handler os_save_sp_value
pendsv_handler-Inv psp k v = os_schedule_next_task-Inv _ (
    write-IsConsistent k.current_task _ refl
      (record {
        waiting = (v.sound k.current_task).waiting;
        reason = (v.sound k.current_task).reason;
        mutex_wait = (v.sound k.current_task).mutex_wait;
        one_running = λ _. refl;
        in_range = (v.sound k.current_task).in_range;
      })
      v)

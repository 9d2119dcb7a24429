-- ===== src/System/Ownership.antt =====
-- The tables of owned mutexes under the calls that are not on mutexes.
use ko_rtos.Base.{ℕ, ◌≡◌, refl, Option, none, some, leb, ltb, ◌==◌, if_ind, inl, inr}
use ko_rtos.Types.{
  Kernel, OsErr, ok, Reply, SchedulePolicy, WaitlistRef, sem_list, os_max_tasks, os_priority_lowest,
}
use ko_rtos.Task.{
  os_task_create, os_task_delay, init_idle_task, os_kernel_start, os_save_sp_value, pendsv_handler,
}
use ko_rtos.Semaphore.{is_policy, post_done, os_sem_create, os_sem_wait, os_sem_post}
use ko_rtos.Invariant.{Inv}
use ko_rtos.Invariant.Unblocking.{Wakes, awake, unblock_cases}
use ko_rtos.Mutex.Ownership.{Owns}
use ko_rtos.Mutex.Frame.{
  write-IsOwned, list-IsOwned, waitlist_block_current-Owns, remove-Owns, os_schedule_next_task-Owns,
}

pub os_task_create-Owns :
    (handler prio : ℕ) (base : Option ℕ) (size : ℕ) (k : Kernel)
    → Owns k
    → Owns (os_task_create handler prio base size k).1
unfolding os_task_create
os_task_create-Owns handler prio none size k v =
    if_ind (λ (x : OsErr × Kernel). Owns x.1) (leb os_max_tasks k.task_count) (λ _. v)
      (λ _.
        if_ind (λ (x : OsErr × Kernel). Owns x.1) (ltb os_priority_lowest prio) (λ _. v) (λ _. v))
os_task_create-Owns handler prio (some base) size k v =
    if_ind (λ (x : OsErr × Kernel). Owns x.1) (leb os_max_tasks k.task_count) (λ _. v)
      λ _.
        if_ind (λ (x : OsErr × Kernel). Owns x.1) (ltb os_priority_lowest prio) (λ _. v)
          λ _. write-IsOwned k.task_count _ refl refl v

pub os_task_delay-Owns : (ticks : ℕ) (k : Kernel) → Owns k → Owns (os_task_delay ticks k)
unfolding os_task_delay
os_task_delay-Owns ticks k v =
    if_ind Owns (k.current_task == 0) (λ _. v) λ _. write-IsOwned k.current_task _ refl refl v

pub os_kernel_start-Owns : (a b c : ℕ) (k : Kernel) → Owns k → Owns (os_kernel_start a b c k)
unfolding os_kernel_start init_idle_task
os_kernel_start-Owns a b c k v = os_schedule_next_task-Owns _ (write-IsOwned 0 _ refl refl v)

pub pendsv_handler-Owns : (psp : ℕ) (k : Kernel) → Owns k → Owns (pendsv_handler psp k).1
unfolding pendsv_handler os_save_sp_value
pendsv_handler-Owns psp k v =
    os_schedule_next_task-Owns _ (write-IsOwned k.current_task _ refl refl v)

-- A wake.
pub awake-Owns :
    (r : WaitlistRef) (k : Kernel) → Owns k → (w : Wakes r k) → Owns (awake k r w.i w.t)
awake-Owns r k v w = remove-Owns r w.i w.t _ k w.in_list refl refl v

pub os_sem_create-Owns :
    (s count : ℕ) (policy : SchedulePolicy) (k : Kernel)
    → Owns k
    → Owns (os_sem_create (some s) count policy k).1
unfolding os_sem_create
os_sem_create-Owns s count policy k v =
    if_ind (λ (x : OsErr × Kernel). Owns x.1) (ltb os_max_tasks count) (λ _. v)
      λ _.
        if_ind (λ (x : OsErr × Kernel). Owns x.1) (is_policy policy)
          (λ _. list-IsOwned (sem_list s) _ (λ m n q e z. cc) v) (λ _. v)

pub os_sem_wait-Owns :
    (s : Option ℕ) (timeout : ℕ) (k : Kernel) → Owns k → Owns (os_sem_wait s timeout k).1
unfolding os_sem_wait
os_sem_wait-Owns none timeout k v = v
os_sem_wait-Owns (some s) timeout k v =
    if_ind (λ (x : Reply × Kernel). Owns x.1) (ltb 0 (k.semaphores s).count) (λ _. v)
      λ _.
        if_ind (λ (x : Reply × Kernel). Owns x.1) (timeout == 0) (λ _. v)
          λ _. waitlist_block_current-Owns (sem_list s) timeout _ _ _ (λ m q. cc) v

pub os_sem_post-Owns :
    (s : ℕ) (k : Kernel)
    → Inv k
    → Owns k
    → (l : Kernel) × (os_sem_post (some s) k ≡ some (ok, l)) × Owns l
unfolding os_sem_post
os_sem_post-Owns s k i v =
    let k' : Kernel = record k { primask = 1 } in
    elim (unblock_cases (sem_list s) k' i) [
      | inl (_, e) ↦ ((post_done s k.primask (none, k')).1, rw e, v)
      | inr w ↦ (
        (post_done s k.primask (some w.t, awake k' (sem_list s) w.i w.t)).1,
        rw w.result,
        awake-Owns (sem_list s) k' v w,
      )
    ]

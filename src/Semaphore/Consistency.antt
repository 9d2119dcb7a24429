-- ===== src/Semaphore/Consistency.antt =====
-- The operations on semaphores keep the tables consistent, and `os_sem_post` does not fault.
use ko_rtos.Base.{ℕ, ◌≡◌, refl, ◌≢◌, Option, none, some, ltb, ◌==◌, if_ind, inl, inr}
use ko_rtos.Types.{
  Kernel, OsErr, ok, Reply, SchedulePolicy, sem_list, running, current, os_max_tasks,
}
use ko_rtos.Semaphore.{is_policy, post_done, os_sem_create, os_sem_wait, os_sem_post}
use ko_rtos.Invariant.{Inv}
use ko_rtos.Invariant.Blocking.{waitlist_block_current-Inv}
use ko_rtos.Invariant.Creating.{init-IsConsistent}
use ko_rtos.Invariant.Unblocking.{awake, awake-Inv, unblock_cases}

pub os_sem_create-Inv :
    (s : ℕ) (count : ℕ) (policy : SchedulePolicy) (k : Kernel)
    → (k.waitlists (sem_list s)).wait_count ≡ 0
    → Inv k
    → Inv (os_sem_create (some s) count policy k).1
unfolding os_sem_create
os_sem_create-Inv s count policy k e v =
    if_ind (λ (x : OsErr × Kernel). Inv x.1) (ltb os_max_tasks count) (λ _. v)
      λ _.
        if_ind (λ (x : OsErr × Kernel). Inv x.1) (is_policy policy)
          (λ p. init-IsConsistent (sem_list s) policy e p v) (λ _. v)

-- A wait of the running user task keeps the tables consistent, whichever branch it takes.
pub os_sem_wait-Inv :
    (s : Option ℕ) (timeout : ℕ) (k : Kernel)
    → k.current_task ≢ 0
    → (current k).current_state ≡ running
    → Inv k
    → Inv (os_sem_wait s timeout k).1
unfolding os_sem_wait
os_sem_wait-Inv none timeout k n e v = v
os_sem_wait-Inv (some s) timeout k n e v =
    if_ind (λ (x : Reply × Kernel). Inv x.1) (ltb 0 (k.semaphores s).count) (λ _. v)
      λ _.
        if_ind (λ (x : Reply × Kernel). Inv x.1) (timeout == 0) (λ _. v)
          λ _. waitlist_block_current-Inv (sem_list s) timeout _ _ _ n refl e v

-- On consistent tables a post returns OS_OK and leaves them consistent.
pub os_sem_post-Inv :
    (s : ℕ) (k : Kernel) → Inv k → (l : Kernel) × (os_sem_post (some s) k ≡ some (ok, l)) × Inv l
unfolding os_sem_post
os_sem_post-Inv s k v =
    let k' : Kernel = record k { primask = 1 } in
    elim (unblock_cases (sem_list s) k' v) [
      | inl (_, e) ↦ ((post_done s k.primask (none, k')).1, rw e, v)
      | inr w ↦ (
        (post_done s k.primask (some w.t, awake k' (sem_list s) w.i w.t)).1,
        rw w.result,
        awake-Inv (sem_list s) k' v w,
      )
    ]

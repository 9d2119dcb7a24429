-- ===== src/System/Units.antt =====
-- The units of the semaphores and the tasks that wait for them, under the single calls of kernel.c.
use ko_rtos.Base.{
  ℕ, zero, suc, ◌-◌, ◌<◌, ◌≡◌, refl, ap, subst, ◌∙◌, Option, none, some, false, leb, ltb, ◌==◌,
  if_ind, if◌then◌else◌, inl, inr, Option-cases, update, arith,
}
use ko_rtos.Types.{
  Kernel, Semaphore, OsErr, ok, Reply, SchedulePolicy, Waitlist, WaitlistRef, sem_list, current,
  BlockReason, os_max_tasks, os_priority_lowest, ref_eq, waitlists_ind,
}
use ko_rtos.Waitlist.{waitlist_init, waitlist_remove_task, waitlist_block_current}
use ko_rtos.Tick.{
  find_waiter, leave_waitlist, end_wait, is_due, wake_if_due, wake_due, unblock_tasks,
  update_tick_count, os_tick,
}
use ko_rtos.Scheduler.{is_running, stop_running, run_task, os_schedule_next_task}
use ko_rtos.Task.{
  os_task_create, os_task_delay, init_idle_task, os_kernel_start, os_save_sp_value, pendsv_handler,
}
use ko_rtos.Semaphore.{is_policy, post_done, os_sem_create, os_sem_wait, os_sem_post}
use ko_rtos.Invariant.{Inv, on, update_ind}
use ko_rtos.Invariant.Waking.{find_waiter-some}
use ko_rtos.Invariant.Unblocking.{Wakes, awake, unblock_cases}

-- A semaphore that has a unit has no waiter.
pub record Spent (semaphores : ℕ → Semaphore) (lists : WaitlistRef → Waitlist) : Type 0 where
  pub nobody : (s : ℕ) → 0 < (semaphores s).count → (lists (sem_list s)).wait_count ≡ 0

abbrev pub NoUnitLeft : Kernel → Type 0
NoUnitLeft k = Spent k.semaphores k.waitlists

module _ {semaphores : ℕ → Semaphore} {lists : WaitlistRef → Waitlist} where
  -- A write of a list.
  pub list-Spent :
      (r : WaitlistRef) (w : Waitlist)
      → ((s : ℕ)
          → r ≡ sem_list s
          → 0 < (semaphores s).count
          → (lists r).wait_count ≡ 0
          → w.wait_count ≡ 0)
      → Spent semaphores lists
      → Spent semaphores (λ x. if ref_eq r x then w else lists x)
  list-Spent r w h v = record {
    nobody = λ s p.
        waitlists_ind (λ x (l : Waitlist). x ≡ sem_list s → l.wait_count ≡ 0) r w lists
          (λ q. h s q p (ap (λ x. (lists x).wait_count) q ∙ v.nobody s p))
          (λ x _ q. ap (λ y. (lists y).wait_count) q ∙ v.nobody s p) (sem_list s) refl;
  }

-- A write of the count of a semaphore for which nobody waits.
count-Spent :
    (s n : ℕ) (k : Kernel)
    → (k.waitlists (sem_list s)).wait_count ≡ 0
    → NoUnitLeft k
    → Spent (update k.semaphores s (record { count = n })) k.waitlists
count-Spent s n k e v = record {
  nobody =
      update_ind (λ t (x : Semaphore). 0 < x.count → (k.waitlists (sem_list t)).wait_count ≡ 0)
        k.semaphores s _ (λ _. e) (λ t _. v.nobody t);
}

-- A waiter leaves a list.
remove-Spent :
    (r : WaitlistRef) (i : ℕ) (k : Kernel)
    → i < (k.waitlists r).wait_count
    → NoUnitLeft k
    → Spent k.semaphores
        (λ x. if ref_eq r x then waitlist_remove_task (k.waitlists r) i else k.waitlists x)
remove-Spent r i k l v = list-Spent r _ (λ s q p z. absurd (omega arith)) v

pub block-NoUnitLeft :
    (r : WaitlistRef) (timeout : ℕ) (reason : BlockReason) (prev : ℕ) (k : Kernel)
    → ((s : ℕ) → r ≡ sem_list s → (k.semaphores s).count ≡ 0)
    → NoUnitLeft k
    → NoUnitLeft (waitlist_block_current r timeout reason prev k).1
unfolding waitlist_block_current
block-NoUnitLeft r timeout reason prev k h v =
    if_ind (λ (x : Reply × Kernel). NoUnitLeft x.1) (leb os_max_tasks (k.waitlists r).wait_count)
      (λ _. v) (λ _. list-Spent r _ (λ s q p z. absurd (omega (arith, h s q))) v)

pub awake-NoUnitLeft :
    (r : WaitlistRef) (k : Kernel) → NoUnitLeft k → (w : Wakes r k) → NoUnitLeft (awake k r w.i w.t)
awake-NoUnitLeft r k v w = remove-Spent r w.i k w.in_list v

leave_waitlist-NoUnitLeft :
    (r : WaitlistRef) (t : ℕ) (k : Kernel) → NoUnitLeft k → NoUnitLeft (leave_waitlist r t k)
unfolding leave_waitlist
leave_waitlist-NoUnitLeft r t k v =
    let w = k.waitlists r in
    elim (Option-cases (find_waiter w.task_waitlist t w.wait_count 0)) [
      | inl q ↦ rw (q, leave_waitlist) v
      | inr (i, q) ↦
          let (_, l, _) = find_waiter-some _ t _ 0 i q in
          rw (q, leave_waitlist) (remove-Spent r i k (omega arith) v)
    ]

wake_if_due-NoUnitLeft : (t : ℕ) (k : Kernel) → NoUnitLeft k → NoUnitLeft (wake_if_due t k)
unfolding wake_if_due end_wait
wake_if_due-NoUnitLeft t k v =
    if_ind NoUnitLeft (is_due k t)
      (λ _. elim (Option-cases (on k.user_tasks t)) [
        | inl e ↦ rw (e, end_wait) v
        | inr (r, e) ↦ rw (e, end_wait) (leave_waitlist-NoUnitLeft r t k v)
      ])
      (λ _. v)

wake_due-NoUnitLeft : (n i : ℕ) (k : Kernel) → NoUnitLeft k → NoUnitLeft (wake_due n i k)
unfolding wake_due
wake_due-NoUnitLeft zero i k v = v
wake_due-NoUnitLeft (suc n) i k v =
    wake_due-NoUnitLeft n (suc i) (wake_if_due i k) (wake_if_due-NoUnitLeft i k v)

pub os_tick-NoUnitLeft : (k : Kernel) → NoUnitLeft k → NoUnitLeft (os_tick k)
unfolding os_tick unblock_tasks update_tick_count
os_tick-NoUnitLeft k v =
    if_ind NoUnitLeft (leb k.task_count 1) (λ _. v)
      (λ _. wake_due-NoUnitLeft (k.task_count - 1) 1 _ v)

stop_running-NoUnitLeft : (k : Kernel) → NoUnitLeft k → NoUnitLeft (stop_running k)
unfolding stop_running
stop_running-NoUnitLeft k v =
    if_ind NoUnitLeft (is_running (current k).current_state) (λ _. v) (λ _. v)

os_schedule_next_task-NoUnitLeft :
    (k : Kernel) → NoUnitLeft k → NoUnitLeft (os_schedule_next_task k)
unfolding os_schedule_next_task run_task
os_schedule_next_task-NoUnitLeft k v =
    let w = stop_running-NoUnitLeft k v in
    if_ind NoUnitLeft (leb (stop_running k).task_count 1) (λ _. w) (λ _. w)

pub os_task_create-NoUnitLeft :
    (handler prio : ℕ) (base : Option ℕ) (size : ℕ) (k : Kernel)
    → NoUnitLeft k
    → NoUnitLeft (os_task_create handler prio base size k).1
unfolding os_task_create
os_task_create-NoUnitLeft handler prio none size k v =
    if_ind (λ (x : OsErr × Kernel). NoUnitLeft x.1) (leb os_max_tasks k.task_count) (λ _. v)
      (λ _.
        if_ind (λ (x : OsErr × Kernel). NoUnitLeft x.1) (ltb os_priority_lowest prio) (λ _. v)
          (λ _. v))
os_task_create-NoUnitLeft handler prio (some base) size k v =
    if_ind (λ (x : OsErr × Kernel). NoUnitLeft x.1) (leb os_max_tasks k.task_count) (λ _. v)
      (λ _.
        if_ind (λ (x : OsErr × Kernel). NoUnitLeft x.1) (ltb os_priority_lowest prio) (λ _. v)
          (λ _. v))

pub os_task_delay-NoUnitLeft :
    (ticks : ℕ) (k : Kernel) → NoUnitLeft k → NoUnitLeft (os_task_delay ticks k)
unfolding os_task_delay
os_task_delay-NoUnitLeft ticks k v = if_ind NoUnitLeft (k.current_task == 0) (λ _. v) (λ _. v)

pub os_kernel_start-NoUnitLeft :
    (a b c : ℕ) (k : Kernel) → NoUnitLeft k → NoUnitLeft (os_kernel_start a b c k)
unfolding os_kernel_start init_idle_task
os_kernel_start-NoUnitLeft a b c k v = os_schedule_next_task-NoUnitLeft _ v

pub pendsv_handler-NoUnitLeft :
    (psp : ℕ) (k : Kernel) → NoUnitLeft k → NoUnitLeft (pendsv_handler psp k).1
unfolding pendsv_handler os_save_sp_value
pendsv_handler-NoUnitLeft psp k v = os_schedule_next_task-NoUnitLeft _ v

-- The semaphore gets its units where nobody waits.
pub os_sem_create-NoUnitLeft :
    (s count : ℕ) (policy : SchedulePolicy) (k : Kernel)
    → (k.waitlists (sem_list s)).wait_count ≡ 0
    → NoUnitLeft k
    → NoUnitLeft (os_sem_create (some s) count policy k).1
unfolding os_sem_create waitlist_init
os_sem_create-NoUnitLeft s count policy k e v =
    if_ind (λ (x : OsErr × Kernel). NoUnitLeft x.1) (ltb os_max_tasks count) (λ _. v)
      λ _.
        if_ind (λ (x : OsErr × Kernel). NoUnitLeft x.1) (is_policy policy)
          (λ _. list-Spent (sem_list s) _ (λ t q p z. refl) (count-Spent s count k e v)) (λ _. v)

pub os_sem_wait-NoUnitLeft :
    (s : Option ℕ) (timeout : ℕ) (k : Kernel)
    → NoUnitLeft k
    → NoUnitLeft (os_sem_wait s timeout k).1
unfolding os_sem_wait
os_sem_wait-NoUnitLeft none timeout k v = v
os_sem_wait-NoUnitLeft (some s) timeout k v =
    if_ind (λ (x : Reply × Kernel). NoUnitLeft x.1) (ltb 0 (k.semaphores s).count)
      (λ p. count-Spent s _ k (v.nobody s (ground arith)) v)
      λ n.
        if_ind (λ (x : Reply × Kernel). NoUnitLeft x.1) (timeout == 0) (λ _. v)
          λ _. block-NoUnitLeft (sem_list s) timeout _ _ _ (λ t q. zero_count s t n q) v
  where
    zero_count :
        (s t : ℕ)
        → ltb 0 (k.semaphores s).count ≡ false
        → sem_list s ≡ sem_list t
        → (k.semaphores t).count ≡ 0
    zero_count s t n q =
        let same : s ≡ t = cc in subst (λ x. (k.semaphores x).count ≡ 0) same (ground arith)

-- A post gives its unit to a waiter, or to the semaphore if there is none.
pub os_sem_post-NoUnitLeft :
    (s : ℕ) (k : Kernel)
    → Inv k
    → NoUnitLeft k
    → (l : Kernel) × (os_sem_post (some s) k ≡ some (ok, l)) × NoUnitLeft l
unfolding os_sem_post
os_sem_post-NoUnitLeft s k i v =
    let k' : Kernel = record k { primask = 1 } in
    elim (unblock_cases (sem_list s) k' i) [
      | inl (z, e) ↦ ((post_done s k.primask (none, k')).1, rw e, count-Spent s _ k z v)
      | inr w ↦ (
        (post_done s k.primask (some w.t, awake k' (sem_list s) w.i w.t)).1,
        rw w.result,
        awake-NoUnitLeft (sem_list s) k' v w,
      )
    ]

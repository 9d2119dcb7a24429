-- ===== src/Mutex/Frame.antt =====
-- The parts of the kernel that know nothing of ownership leave it as it is: blocking, waking, the
-- tick, the scheduler and the creation of tasks and lists.
use ko_rtos.Base.{
  ℕ, zero, suc, ◌-◌, ◌<◌, ◌≡◌, refl, ap, ◌∙◌, ◌≢◌, inl, inr, Option, none, some, leb, Option-cases,
  update, if_ind, if◌then◌else◌, arith,
}
use ko_rtos.Types.{
  Kernel, Tcb, Mutex, unlocked, locked, Waitlist, WaitlistRef, mutex_list, BlockReason, Reply,
  SchedulePolicy, current, os_max_tasks, ref_eq, waitlists_ind,
}
use ko_rtos.Waitlist.{waitlist_block_current, waitlist_remove_task, waitlist_init}
use ko_rtos.Tick.{
  find_waiter, leave_waitlist, end_wait, is_due, wake_if_due, wake_due, unblock_tasks,
  update_tick_count, os_tick,
}
use ko_rtos.Scheduler.{
  is_running, round_robin, chosen, stop_running, run_task, os_schedule_next_task,
}
use ko_rtos.Mutex.Ownership.{Lists, owner_but, IsOwned, OwnsBut, Owns}
use ko_rtos.Invariant.{on, update_ind}
use ko_rtos.Invariant.Waking.{find_waiter-some}

module _ {hole : Option ℕ} {tasks : ℕ → Tcb} {mutexes : ℕ → Mutex}
    {lists : WaitlistRef → Waitlist} where
  -- A write of a task's block that keeps its table.
  pub write-IsOwned :
      (t : ℕ) (b : Tcb)
      → b.owned_mutexes ≡ (tasks t).owned_mutexes
      → b.owned_mutex_count ≡ (tasks t).owned_mutex_count
      → IsOwned hole tasks mutexes lists
      → IsOwned hole (update tasks t b) mutexes lists
  write-IsOwned t b e f v = record {
    tables =
        update_ind
          (λ u (c : Tcb). Lists (owner_but hole mutexes) u c.owned_mutexes c.owned_mutex_count)
          tasks t b (rw (e, f) (v.tables t)) (λ u _. v.tables u);
    free = v.free;
    held = v.held;
  }

  -- A write of a list: that of an unlocked mutex stays empty.
  pub list-IsOwned :
      (r : WaitlistRef) (w : Waitlist)
      → ((m : ℕ)
          → hole ≢ some m
          → r ≡ mutex_list m
          → (mutexes m).state ≡ unlocked
          → (lists r).wait_count ≡ 0
          → w.wait_count ≡ 0)
      → IsOwned hole tasks mutexes lists
      → IsOwned hole tasks mutexes (λ s. if ref_eq r s then w else lists s)
  list-IsOwned r w h v = record {
    tables = v.tables;
    free = λ m n e. ((v.free m n e).0, empty m n e);
    held = v.held;
  }
    where
      empty :
          (m : ℕ)
          → hole ≢ some m
          → (mutexes m).state ≡ unlocked
          → (if ref_eq r (mutex_list m) then w else lists (mutex_list m)).wait_count ≡ 0
      empty m n e =
          waitlists_ind (λ s x. s ≡ mutex_list m → x.wait_count ≡ 0) r w lists
            (λ q. h m n q e (ap (λ s. (lists s).wait_count) q ∙ (v.free m n e).1))
            (λ s _ q. ap (λ s. (lists s).wait_count) q ∙ (v.free m n e).1) (mutex_list m) refl

-- The list of a mutex that the caller blocks on is that of a locked one.
pub waitlist_block_current-Owns :
    (r : WaitlistRef) (timeout : ℕ) (reason : BlockReason) (prev : ℕ) (k : Kernel)
    → ((m : ℕ) → r ≡ mutex_list m → (k.mutexes m).state ≡ locked)
    → Owns k
    → Owns (waitlist_block_current r timeout reason prev k).1
unfolding waitlist_block_current
waitlist_block_current-Owns r timeout reason prev k h v =
    if_ind (λ (x : Reply × Kernel). Owns x.1) (leb os_max_tasks (k.waitlists r).wait_count) (λ _. v)
      (λ _.
        list-IsOwned r _ (λ m n q e z. let l = h m q in cc)
          (write-IsOwned k.current_task _ refl refl v))

-- A waiter that leaves a list, and what is written to its block.
pub remove-Owns :
    {hole : Option ℕ} (r : WaitlistRef) (i t : ℕ) (b : Tcb) (k : Kernel)
    → i < (k.waitlists r).wait_count
    → b.owned_mutexes ≡ (k.user_tasks t).owned_mutexes
    → b.owned_mutex_count ≡ (k.user_tasks t).owned_mutex_count
    → OwnsBut hole k
    → IsOwned hole
        (update k.user_tasks t b)
        k.mutexes
        (λ s. if ref_eq r s then waitlist_remove_task (k.waitlists r) i else k.waitlists s)
remove-Owns r i t b k l e f v =
    list-IsOwned r _ (λ m n q x z. absurd (omega arith)) (write-IsOwned t b e f v)

leave_waitlist-Owns : (r : WaitlistRef) (t : ℕ) (k : Kernel) → Owns k → Owns (leave_waitlist r t k)
unfolding leave_waitlist
leave_waitlist-Owns r t k v =
    let w = k.waitlists r in
    elim (Option-cases (find_waiter w.task_waitlist t w.wait_count 0)) [
      | inl q ↦ rw (q, leave_waitlist) (write-IsOwned t _ refl refl v)
      | inr (i, q) ↦
          let (_, l, _) = find_waiter-some _ t _ 0 i q in
          rw (q, leave_waitlist) (remove-Owns r i t _ k (omega arith) refl refl v)
    ]

end_wait-Owns : (t : ℕ) (k : Kernel) → Owns k → Owns (end_wait t k)
unfolding end_wait
end_wait-Owns t k v = elim (Option-cases (on k.user_tasks t)) [
  | inl e ↦ rw (e, end_wait) (write-IsOwned t _ refl refl v)
  | inr (r, e) ↦ rw (e, end_wait) (leave_waitlist-Owns r t k v)
]

wake_if_due-Owns : (t : ℕ) (k : Kernel) → Owns k → Owns (wake_if_due t k)
unfolding wake_if_due
wake_if_due-Owns t k v =
    if_ind Owns (is_due k t) (λ _. write-IsOwned t _ refl refl (end_wait-Owns t k v)) (λ _. v)

wake_due-Owns : (n i : ℕ) (k : Kernel) → Owns k → Owns (wake_due n i k)
unfolding wake_due
wake_due-Owns zero i k v = v
wake_due-Owns (suc n) i k v = wake_due-Owns n (suc i) (wake_if_due i k) (wake_if_due-Owns i k v)

-- The tick keeps the tables of owned mutexes in agreement with the mutexes.
pub os_tick-Owns : (k : Kernel) → Owns k → Owns (os_tick k)
unfolding os_tick unblock_tasks update_tick_count
os_tick-Owns k v =
    if_ind Owns (leb k.task_count 1) (λ _. v) (λ _. wake_due-Owns (k.task_count - 1) 1 _ v)

stop_running-Owns : (k : Kernel) → Owns k → Owns (stop_running k)
unfolding stop_running
stop_running-Owns k v =
    if_ind Owns (is_running (current k).current_state)
      (λ _. write-IsOwned k.current_task _ refl refl v) (λ _. v)

-- The choice of the next task keeps the tables of owned mutexes in agreement with the mutexes.
pub os_schedule_next_task-Owns : (k : Kernel) → Owns k → Owns (os_schedule_next_task k)
unfolding os_schedule_next_task run_task
os_schedule_next_task-Owns k v =
    let w = stop_running-Owns k v in
    if_ind Owns (leb (stop_running k).task_count 1) (λ _. w)
      (λ _. write-IsOwned (chosen (round_robin (stop_running k))) _ refl refl w)

-- A list that is created is empty.
pub waitlist_init-Owns :
    (r : WaitlistRef) (policy : SchedulePolicy) (k : Kernel)
    → Owns k
    → IsOwned none k.user_tasks k.mutexes
        (λ s. if ref_eq r s then waitlist_init policy (k.waitlists r) else k.waitlists s)
unfolding waitlist_init
waitlist_init-Owns r policy k v = list-IsOwned r _ (λ m n q e z. refl) v

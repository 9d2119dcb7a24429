-- ===== src/Invariant/Blocking.antt =====
-- `waitlist_block_current` keeps the tables consistent.
use ko_rtos.Base.{
  ℕ, ◌+◌, ◌<◌, ◌≡◌, refl, ◌≢◌, none, some, true, leb, update, update_self, if_ind, Option-cases,
  inl, inr, if◌then◌else◌, arith,
}
use ko_rtos.Types.{
  Kernel, Tcb, Waitlist, WaitlistRef, running, BlockReason, Reply, current, u8, os_max_tasks,
  ref_eq, waitlists_ind,
}
use ko_rtos.Semaphore.{is_policy}
use ko_rtos.Waitlist.{waitlist_block_current}
use ko_rtos.Waitlist.Members.{Waits, Waits-append, Waits-other}
use ko_rtos.Invariant.{on, IsSound, IsConsistent, Inv, reason_of, update_ind}

module _ {tasks : ℕ → Tcb} {count cur : ℕ} {lists : WaitlistRef → Waitlist} where
  -- A task that runs is on no list.
  pub running-on :
      (t : ℕ)
      → (tasks t).current_state ≡ running
      → IsConsistent tasks count cur lists
      → on tasks t ≡ none
  running-on t e v = elim (Option-cases (on tasks t)) [
    | inl n ↦ n
    | inr (r, q) ↦ let b = ((v.sound t).waiting r q).0 in cc
  ]

  -- A task that is on no list is appended to one.
  append-IsConsistent :
      (r : WaitlistRef) (t : ℕ) (b : Tcb)
      → on tasks t ≡ none
      → b.blocked_waitlist ≡ some r
      → IsSound count cur t b
      → (lists r).wait_count < os_max_tasks
      → IsConsistent tasks count cur lists
      → IsConsistent (update tasks t b) count cur (λ s.
        if ref_eq r s
        then record (lists r) {
          task_waitlist = update (lists r).task_waitlist (lists r).wait_count (some t);
          wait_count = u8 ((lists r).wait_count + 1);
        }
        else lists s)
  append-IsConsistent r t b off e s room v = record {
    count_max = v.count_max;
    cur_in_range = v.cur_in_range;
    sound = update_ind (IsSound count cur) tasks t b s (λ j _. v.sound j);
    members =
        waitlists_ind (λ s w. Waits w (on (update tasks t b)) s) r _ lists
          (Waits-append t (λ q. cc) at_t elsewhere room (v.members r))
          (λ s n. Waits-other t (λ q. cc) (λ q. n (ground (arith, at_t))) elsewhere (v.members s));
    policies =
        waitlists_ind (λ s w. is_policy w.schedule_policy ≡ true) r _ lists (v.policies r)
          (λ s _. v.policies s);
  }
    where
      at_t : on (update tasks t b) t ≡ some r
      at_t = ground (arith, update_self tasks t b)

      elsewhere : (u : ℕ) → u ≢ t → on (update tasks t b) u ≡ on tasks u
      elsewhere u n = ground arith

-- The current task, which runs and is not the idle task, is put on the list `r` or refused.
pub waitlist_block_current-Inv :
    (r : WaitlistRef) (timeout : ℕ) (reason : BlockReason) (prev : ℕ) (k : Kernel)
    → k.current_task ≢ 0
    → reason ≡ reason_of r
    → (current k).current_state ≡ running
    → Inv k
    → Inv (waitlist_block_current r timeout reason prev k).1
unfolding waitlist_block_current
waitlist_block_current-Inv r timeout reason prev k n m e v =
    if_ind (λ (x : Reply × Kernel). Inv x.1) (leb os_max_tasks (k.waitlists r).wait_count) (λ _. v)
      (λ room.
        append-IsConsistent r k.current_task _ (running-on k.current_task e v) refl
          (record {
            waiting = λ s q. (refl, omega arith, v.cur_in_range);
            reason = λ s q. ground arith;
            mutex_wait = λ q. (refl, omega arith);
            one_running = λ q. refl;
            in_range = (v.sound k.current_task).in_range;
          })
          (ground arith) v)

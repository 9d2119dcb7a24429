-- ===== src/Waitlist/Block.antt =====
-- The fields that `waitlist_block_current` writes.
use ko_rtos.Base.{ℕ, ◌+◌, ◌<◌, ◌≡◌, refl, ◌≢◌, some, true, false, ◌==◌, leb, if◌then◌else◌, arith}
use ko_rtos.Types.{
  Kernel, WaitlistRef, BlockReason, blocked, suspended, os_max_tasks, os_wait_forever, u32, ref_eq,
  ref_eq_iff,
}
use ko_rtos.Waitlist.{waitlist_block_current}

-- The current task is blocked on `r` with the deadline of `timeout`, it stands last in the list, a
-- switch is requested, and the interrupt state is `prev`.
pub record Blocks (r : WaitlistRef) (timeout : ℕ) (reason : BlockReason) (prev : ℕ) (k l : Kernel)
    : Type 0 where
  pub state : (l.user_tasks k.current_task).current_state ≡ blocked
  pub because : (l.user_tasks k.current_task).block_reason ≡ reason
  pub on_list : (l.user_tasks k.current_task).blocked_waitlist ≡ some r
  pub deadline :
      (l.user_tasks k.current_task).wakeup_tick
      ≡ (if timeout == os_wait_forever then 0 else u32 (k.systick_count + timeout))
  pub last : (l.waitlists r).task_waitlist (k.waitlists r).wait_count ≡ some k.current_task
  pub longer : (l.waitlists r).wait_count ≡ (k.waitlists r).wait_count + 1
  pub others : (u : ℕ) → u ≢ k.current_task → l.user_tasks u ≡ k.user_tasks u
  pub priorities :
      (u : ℕ) → (l.user_tasks u).effective_priority ≡ (k.user_tasks u).effective_priority
  pub yields : l.pendsv ≡ true
  pub interrupts : l.primask ≡ prev
  pub mutexes : l.mutexes ≡ k.mutexes
  pub queues : l.queues ≡ k.queues
  pub semaphores : l.semaphores ≡ k.semaphores

module _ (r : WaitlistRef) (timeout : ℕ) (reason : BlockReason) (prev : ℕ) (k : Kernel) where
  -- Where the waitlist is not full, the call suspends the current task: it is blocked on the list with
  -- the deadline of `timeout` and stands last in it, a switch is requested, and the interrupt state is
  -- the one given; no other task, mutex, queue or semaphore changes.
  pub waitlist_block_current-Blocks :
      (k.waitlists r).wait_count < os_max_tasks
      → let (reply, l) = waitlist_block_current r timeout reason prev k in
        (reply ≡ suspended) × Blocks r timeout reason prev k l
  unfolding waitlist_block_current
  waitlist_block_current-Blocks room =
      let same : ref_eq r r ≡ true = (ref_eq_iff r r).1 refl in
      let fits : leb os_max_tasks (k.waitlists r).wait_count ≡ false = ground arith in
      rw fits (
        refl,
        record {
          state = ground arith;
          because = ground arith;
          on_list = ground arith;
          deadline = ground arith;
          last = ground arith;
          longer = ground arith;
          others = λ u n. ground arith;
          priorities = λ u. ground arith;
          yields = refl;
          interrupts = refl;
          mutexes = refl;
          queues = refl;
          semaphores = refl;
        },
      )

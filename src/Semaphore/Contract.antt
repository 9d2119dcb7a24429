-- ===== src/Semaphore/Contract.antt =====
-- What the calls of a semaphore do on every branch, and how a post, a tick and the call that waits
-- fit together.
use ko_rtos.Base.{
  suc, sym, ap, ◌∙◌, update_self, update_ne, ◌↔◌, ℕ, ◌+◌, ◌-◌, ◌<◌, ◌≡◌, ◌≢◌, refl, ◌⊎◌, inl, inr,
  none, some, true, false, ltb, ◌==◌, Bool-cases, arith,
}
use ko_rtos.Types.{
  Kernel, Tcb, Waitlist, SchedulePolicy, fifo, priority, invalid, WaitlistRef, ready, not_blocked,
  ref_eq_iff, waitlists_ind, ok, unavailable, returned, suspended, sem_list, on_sem, u8,
  os_max_tasks,
}
use ko_rtos.Waitlist.Block.{Blocks, waitlist_block_current-Blocks}
use ko_rtos.Semaphore.{set_semaphore, post_done, os_sem_wait, os_sem_wait_resume, os_sem_post}
use ko_rtos.Tick.{update_tick_count, is_due, os_tick}
use ko_rtos.Tick.Wakeup.{os_tick-expired}
use ko_rtos.Invariant.{Inv, on}
use ko_rtos.Invariant.Unblocking.{Fits, Wakes, awake, awake-Inv, unblock_cases}
use ko_rtos.Waitlist.Members.{Listed, Waits-Listed}
use ko_rtos.Waitlist.Entries.{remove-count}
use ko_rtos.Waitlist.{waitlist_remove_task}

-- The state after the count is set to `c`.
abbrev pub counted : ℕ → ℕ → Kernel → Kernel
counted s c k = set_semaphore k s (record { count = c })

-- Task `t`, which the list's policy chooses among the waiters, is made ready and taken off the list;
-- the count stays, a switch is requested, and the woken call will return OS_OK when its task runs.
pub record Passed (s : ℕ) (k l : Kernel) : Type 0 where
  pub i : ℕ
  pub t : ℕ
  pub waiter : i < (k.waitlists (sem_list s)).wait_count
  pub entry : (k.waitlists (sem_list s)).task_waitlist i ≡ some t
  pub fits : Fits k (k.waitlists (sem_list s)) (k.waitlists (sem_list s)).schedule_policy i
  pub task : l.user_tasks t ≡ record (k.user_tasks t) {
    current_state = ready;
    block_reason = not_blocked;
    wakeup_tick = 0;
    timeout = false;
    blocked_waitlist = none;
  }
  pub others : (u : ℕ) → u ≢ t → l.user_tasks u ≡ k.user_tasks u
  pub count : suc (l.waitlists (sem_list s)).wait_count ≡ (k.waitlists (sem_list s)).wait_count
  pub waiters :
      (u : ℕ) → Listed (l.waitlists (sem_list s)) u ↔ (u ≢ t) × Listed (k.waitlists (sem_list s)) u
  pub other_lists : (r : WaitlistRef) → r ≢ sem_list s → l.waitlists r ≡ k.waitlists r
  pub semaphores : l.semaphores ≡ k.semaphores
  pub current : l.current_task ≡ k.current_task
  pub primask : l.primask ≡ k.primask
  pub pendsv : l.pendsv ≡ true
  pub resumes : os_sem_wait_resume (record l { current_task = t }) ≡ ok

-- The masking of interrupts is no part of what a policy promises.
Fits-masked :
    (k : Kernel) (w : Waitlist) (policy : SchedulePolicy) (i : ℕ)
    → Fits (record k { primask = 1 }) w policy i
    → Fits k w policy i
Fits-masked k w fifo i f = f
Fits-masked k w priority i f = record {
  prio = f.prio;
  in_list = f.in_list;
  has_prio = f.has_prio;
  least = f.least;
  first = f.first;
}
Fits-masked k w (invalid _) i f = f

-- Where task `t` leaves the list `r`, its other entries stay.
left-Listed :
    (r : WaitlistRef) (t u : ℕ) (k l : Kernel)
    → Inv k
    → Inv l
    → on l.user_tasks t ≡ none
    → (u ≢ t → l.user_tasks u ≡ k.user_tasks u)
    → Listed (l.waitlists r) u ↔ (u ≢ t) × Listed (k.waitlists r) u
left-Listed r t u k l v w off same =
    let before = Waits-Listed u (v.members r) in
    let after = Waits-Listed u (w.members r) in
    let stays : (n : u ≢ t) → on l.user_tasks u ≡ on k.user_tasks u =
      λ n. ap (λ (b : Tcb). b.blocked_waitlist) (same n) in
    (
      λ x.
          let o = after.0 x in
          let n : u ≢ t = λ q. let e = ap (on l.user_tasks) q in cc in
          (n, before.1 (sym (stays n) ∙ o)),
      λ (n, x). after.1 (stays n ∙ before.0 x),
    )

awake-Passed :
    (s : ℕ) (k : Kernel)
    → Inv k
    → (w : Wakes (sem_list s) (record k { primask = 1 }))
    → Passed s k (record (awake k (sem_list s) w.i w.t) { primask = k.primask; pendsv = true })
unfolding os_sem_wait_resume
awake-Passed s k v w =
    let r = sem_list s in
    let w' = waitlist_remove_task (k.waitlists r) w.i in
    let after = (awake-Inv r (record k { primask = 1 }) v w).members r in
    record {
      i = w.i;
      t = w.t;
      waiter = w.in_list;
      entry = w.entry;
      fits = Fits-masked k (k.waitlists r) (k.waitlists r).schedule_policy w.i w.fits;
      task = update_self k.user_tasks w.t _;
      others = λ u n. update_ne k.user_tasks w.t u _ (λ q. n (sym q));
      count =
          rw ((ref_eq_iff r r).1 refl)
            (remove-count (k.waitlists r) w.i w.in_list (v.members r).few);
      waiters = λ u.
          left-Listed r w.t u k (awake (record k { primask = 1 }) r w.i w.t) v
            (awake-Inv r (record k { primask = 1 }) v w)
            (ap (λ (b : Tcb). b.blocked_waitlist) (update_self k.user_tasks w.t _))
            (λ n. update_ne k.user_tasks w.t u _ (λ q. n (sym q)));
      other_lists =
          waitlists_ind (λ q x. q ≢ r → x ≡ k.waitlists q) r w' k.waitlists (λ n. absurd (n refl))
            (λ q _ _. refl);
      semaphores = refl;
      current = refl;
      primask = refl;
      pendsv = refl;
      resumes = ground arith;
    }

-- On consistent tables a post always succeeds. If nobody waits it adds one to the count, modulo
-- 256, and changes nothing else. Otherwise it passes the unit on to the waiter that the list's policy
-- chooses, which is ready, is no longer on the list and has no deadline; the count, the other tasks
-- and the other waiters stay, a context switch is requested, and the waiter's call returns OS_OK.
pub os_sem_post-Passed :
    (s : ℕ) (k : Kernel)
    → Inv k
    → (l : Kernel) × (os_sem_post (some s) k ≡ some (ok, l))
      × ((((k.waitlists (sem_list s)).wait_count ≡ 0)
            × (l ≡ counted s (u8 ((k.semaphores s).count + 1)) k))
          ⊎ Passed s k l)
unfolding os_sem_post
os_sem_post-Passed s k v =
    let k' : Kernel = record k { primask = 1 } in
    elim (unblock_cases (sem_list s) k' v) [
      | inl (z, e) ↦ ((post_done s k.primask (none, k')).1, rw e, inl (z, refl))
      | inr w ↦ (
        (post_done s k.primask (some w.t, awake k' (sem_list s) w.i w.t)).1,
        rw w.result,
        inr (awake-Passed s k v w),
      )
    ]

-- Where the waitlist is not full: with a unit the call takes it; without one, a call with timeout 0
-- fails and changes nothing, and any other call blocks its task on the semaphore's list.
pub os_sem_wait-Blocks :
    (s timeout : ℕ) (k : Kernel)
    → (k.waitlists (sem_list s)).wait_count < os_max_tasks
    → let (reply, l) = os_sem_wait (some s) timeout k in
      (((k.semaphores s).count ≢ 0)
        × (reply ≡ returned ok)
        × (l ≡ counted s ((k.semaphores s).count - 1) k))
      ⊎ (((k.semaphores s).count ≡ 0) × (timeout ≡ 0) × (reply ≡ returned unavailable) × (l ≡ k))
      ⊎ (((k.semaphores s).count ≡ 0)
          × (timeout ≢ 0)
          × (reply ≡ suspended)
          × Blocks (sem_list s) timeout on_sem k.primask (record k { primask = 1 }) l)
unfolding os_sem_wait
os_sem_wait-Blocks s timeout k room = elim (Bool-cases (ltb 0 (k.semaphores s).count)) [
  | inl e ↦ inl (ground arith, rw e, rw e)
  | inr e ↦ inr (elim (Bool-cases (timeout == 0)) [
    | inl z ↦ inl (ground arith, ground arith, rw (e, z), rw (e, z))
    | inr z ↦
        let (a, b) =
          waitlist_block_current-Blocks (sem_list s) timeout on_sem k.primask
            (record k { primask = 1 }) room in
        inr (ground arith, ground arith, rw (e, z) a, rw (e, z) b)
  ])
]

-- On consistent tables, a task that a tick wakes from a semaphore's list because its deadline is
-- reached finds its call to have failed: it returns OS_ERR_UNAVAILABLE when the task runs.
pub os_tick-times_out :
    (s t : ℕ) (k : Kernel)
    → Inv k
    → on k.user_tasks t ≡ some (sem_list s)
    → is_due (update_tick_count k) t ≡ true
    → os_sem_wait_resume (record (os_tick k) { current_task = t }) ≡ unavailable
unfolding os_sem_wait_resume
os_tick-times_out s t k v e d =
    let (_, p, q) = (v.sound t).waiting (sem_list s) e in
    let w = (os_tick-expired t (sem_list s) k v).0 in ground arith

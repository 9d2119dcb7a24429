-- ===== src/Invariant/Waking.antt =====
-- `waitlist_unblock` and the loop of `unblock_tasks` keep the tables consistent.
use ko_rtos.Base.{
  ℕ, zero, suc, ◌+◌, ◌-◌, ◌≤◌, ◌<◌, ◌≡◌, refl, sym, ap, ◌∙◌, ◌≢◌, Option, none, some, true, leb,
  update, update_self, update_ne, if_ind, Option-cases, inl, inr, if◌then◌else◌, arith,
}
use native.Mathlib.Decide.{ℕ_discrete}
use ko_rtos.Types.{
  Kernel, Tcb, Waitlist, WaitlistRef, ready, not_blocked, set_task, set_waitlist, ref_eq,
  waitlists_ind,
}
use ko_rtos.Semaphore.{is_policy}
use ko_rtos.Waitlist.{waitlist_remove_task, woken}
use ko_rtos.Waitlist.Members.{Waits, Waits-remove, Waits-other}
use ko_rtos.Tick.{
  find_waiter, leave_waitlist, end_wait, is_due, wake_if_due, wake_due, unblock_tasks,
  update_tick_count, os_tick,
}
use ko_rtos.Invariant.{on, IsSound, IsConsistent, Inv, update_ind, write-IsConsistent}

remove-policy :
    (w : Waitlist) (i : ℕ) → (waitlist_remove_task w i).schedule_policy ≡ w.schedule_policy
unfolding waitlist_remove_task
remove-policy w i = refl

module _ {tasks : ℕ → Tcb} {count cur : ℕ} {lists : WaitlistRef → Waitlist} where
  -- The task at entry `i` leaves its list.
  remove-IsConsistent :
      (r : WaitlistRef) (t i : ℕ) (b : Tcb)
      → i < (lists r).wait_count
      → (lists r).task_waitlist i ≡ some t
      → b.blocked_waitlist ≡ none
      → IsSound count cur t b
      → IsConsistent tasks count cur lists
      → IsConsistent
          (update tasks t b)
          count
          cur
          (λ s. if ref_eq r s then waitlist_remove_task (lists r) i else lists s)
  remove-IsConsistent r t i b l p e s v = record {
    count_max = v.count_max;
    cur_in_range = v.cur_in_range;
    sound = update_ind (IsSound count cur) tasks t b s (λ j _. v.sound j);
    members =
        waitlists_ind (λ s w. Waits w (on (update tasks t b)) s) r _ lists
          (Waits-remove t i l p at_t elsewhere (v.members r))
          (λ s n. Waits-other t (λ q. n (ground (arith, listed))) at_t elsewhere (v.members s));
    policies =
        waitlists_ind (λ s w. is_policy w.schedule_policy ≡ true) r _ lists
          (rw (remove-policy (lists r) i) (v.policies r)) (λ s _. v.policies s);
  }
    where
      listed : on tasks t ≡ some r
      listed = let (u, q, c) = (v.members r).waits i l in ground arith

      at_t : {s : WaitlistRef} → on (update tasks t b) t ≢ some s
      at_t {s} = ground (arith, update_self tasks t b)

      elsewhere : (u : ℕ) → u ≢ t → on (update tasks t b) u ≡ on tasks u
      elsewhere u n = ground arith

-- The block of a task that wakes up: ready, on no list.
woken-IsSound :
    {count cur : ℕ} (t : ℕ) (b c : Tcb)
    → IsSound count cur t b
    → c.blocked_waitlist ≡ none
    → c.block_reason ≡ not_blocked
    → c.current_state ≡ ready
    → c.effective_priority ≡ b.effective_priority
    → c.base_priority ≡ b.base_priority
    → IsSound count cur t c
woken-IsSound t b c s n m r p q = record {
  waiting = λ x h. cc;
  reason = λ x h. cc;
  mutex_wait = λ h. cc;
  one_running = λ h. cc;
  in_range = λ h. rw (p, q) (s.in_range h);
}

-- A wake by `waitlist_unblock` at a valid index.
pub wake_at-Inv :
    (r : WaitlistRef) (i t : ℕ) (k : Kernel)
    → i < (k.waitlists r).wait_count
    → (k.waitlists r).task_waitlist i ≡ some t
    → Inv k
    → Inv (
        set_waitlist
          (set_task k t (woken (k.user_tasks t)))
          r
          (waitlist_remove_task (k.waitlists r) i))
wake_at-Inv r i t k l e v =
    remove-IsConsistent r t i _ l e refl
      (woken-IsSound t (k.user_tasks t) _ (v.sound t) refl refl refl refl refl) v

-- What the search for a task finds is an entry that points to it.
pub find_waiter-some :
    (a : ℕ → Option ℕ) (t n i j : ℕ)
    → find_waiter a t n i ≡ some j
    → (i ≤ j) × (j < i + n) × (a j ≡ some t)
unfolding find_waiter
find_waiter-some a t zero i j h = cc
find_waiter-some a t (suc n) i j h = ground (arith, find_waiter-some a t n (suc i) j)

-- It fails only where no entry does.
pub find_waiter-none :
    (a : ℕ → Option ℕ) (t n i j : ℕ) → find_waiter a t n i ≡ none → i ≤ j → j < i + n → a j ≢ some t
unfolding find_waiter
find_waiter-none a t zero i j h l m = absurd (omega arith)
find_waiter-none a t (suc n) i j h l m = elim (ℕ_discrete i j) [
  | yes e ↦ let e' : a i ≡ a j = ap a e in ground arith
  | no e ↦ ground (arith, find_waiter-none a t n (suc i) j)
]

-- After `end_wait` the tables are consistent and the task is on no list; its state and its
-- priorities are as they were.
pub record Ended (t : ℕ) (k l : Kernel) : Type 0 where
  pub inv : Inv l
  pub off : on l.user_tasks t ≡ none
  pub state : (l.user_tasks t).current_state ≡ (k.user_tasks t).current_state
  pub effective : (l.user_tasks t).effective_priority ≡ (k.user_tasks t).effective_priority
  pub base : (l.user_tasks t).base_priority ≡ (k.user_tasks t).base_priority
  pub frame : (u : ℕ) → u ≢ t → l.user_tasks u ≡ k.user_tasks u

Ended-write :
    (t : ℕ) (k l : Kernel) (c : Tcb)
    → l.user_tasks ≡ update k.user_tasks t c
    → Inv l
    → c.blocked_waitlist ≡ none
    → c.current_state ≡ (k.user_tasks t).current_state
    → c.effective_priority ≡ (k.user_tasks t).effective_priority
    → c.base_priority ≡ (k.user_tasks t).base_priority
    → Ended t k l
Ended-write t k l c e v n s p q =
    let at_t : l.user_tasks t ≡ c = ap (λ f. f t) e ∙ update_self k.user_tasks t c in
    record {
      inv = v;
      off = ap (λ (x : Tcb). x.blocked_waitlist) at_t ∙ n;
      state = rw at_t s;
      effective = rw at_t p;
      base = rw at_t q;
      frame = λ u d. ap (λ f. f u) e ∙ update_ne k.user_tasks t u c (λ x. d (sym x));
    }

timed_out-IsSound :
    {count cur : ℕ} (t : ℕ) (b c : Tcb)
    → IsSound count cur t b
    → c.blocked_waitlist ≡ none
    → c.block_reason ≡ b.block_reason
    → c.current_state ≡ b.current_state
    → c.effective_priority ≡ b.effective_priority
    → c.base_priority ≡ b.base_priority
    → IsSound count cur t c
timed_out-IsSound t b c s n m r p q = record {
  waiting = λ x h. cc;
  reason = λ x h. cc;
  mutex_wait = λ h. let (a, d) = s.mutex_wait (sym m ∙ h) in (r ∙ a, d);
  one_running = λ h. s.one_running (sym r ∙ h);
  in_range = λ h. rw (p, q) (s.in_range h);
}

leave_waitlist-Ended :
    (r : WaitlistRef) (t : ℕ) (k : Kernel)
    → on k.user_tasks t ≡ some r
    → Inv k
    → Ended t k (leave_waitlist r t k)
unfolding leave_waitlist
leave_waitlist-Ended r t k e v =
    elim (Option-cases (find_waiter (k.waitlists r).task_waitlist t (k.waitlists r).wait_count 0)) [
      | inl q ↦
          let (i, l, a) = (v.members r).listed t e in
          absurd (find_waiter-none _ t _ 0 i q (omega arith) (omega arith) a)
      | inr (i, q) ↦
          let (_, l, a) = find_waiter-some _ t _ 0 i q in
          rw (q, leave_waitlist)
            (Ended-write t k _ _ refl
              (remove-IsConsistent r t i _ (omega arith) a refl
                (timed_out-IsSound t (k.user_tasks t) _ (v.sound t) refl refl refl refl refl) v)
              refl refl refl refl)
    ]

end_wait-Ended : (t : ℕ) (k : Kernel) → Inv k → Ended t k (end_wait t k)
unfolding end_wait
end_wait-Ended t k v = elim (Option-cases (on k.user_tasks t)) [
  | inl e ↦
      rw (e, end_wait)
        (Ended-write t k _ _ refl
          (write-IsConsistent t _ refl
            (timed_out-IsSound t (k.user_tasks t) _ (v.sound t) e refl refl refl refl) v)
          e refl refl refl)
  | inr (r, e) ↦ rw (e, end_wait) (leave_waitlist-Ended r t k e v)
]

-- One round of the loop of `unblock_tasks`.
pub wake_if_due-Inv : (t : ℕ) (k : Kernel) → Inv k → Inv (wake_if_due t k)
unfolding wake_if_due
wake_if_due-Inv t k v =
    let w = end_wait-Ended t k v in
    if_ind Inv (is_due k t)
      (λ _.
        write-IsConsistent t _ refl
          (woken-IsSound t ((end_wait t k).user_tasks t) _ (w.inv.sound t) w.off refl refl refl
            refl)
          w.inv)
      (λ _. v)

wake_due-Inv : (n i : ℕ) (k : Kernel) → Inv k → Inv (wake_due n i k)
unfolding wake_due
wake_due-Inv zero i k v = v
wake_due-Inv (suc n) i k v = wake_due-Inv n (suc i) (wake_if_due i k) (wake_if_due-Inv i k v)

-- The tick keeps the tables consistent, whichever tasks it wakes.
pub os_tick-Inv : (k : Kernel) → Inv k → Inv (os_tick k)
unfolding os_tick unblock_tasks update_tick_count
os_tick-Inv k v =
    if_ind Inv (leb k.task_count 1) (λ _. v) (λ _. wake_due-Inv (k.task_count - 1) 1 _ v)

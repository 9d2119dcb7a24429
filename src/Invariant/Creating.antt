-- ===== src/Invariant/Creating.antt =====
-- `waitlist_init` on a list without waiters, and the writes of a new task's block, keep the tables
-- consistent.
use ko_rtos.Base.{
  ℕ, ◌≤◌, ◌<◌, ◌≡◌, refl, sym, ◌∙◌, Option, none, true, update, Option-cases, inl, inr,
  if◌then◌else◌, arith,
}
use ko_rtos.Types.{
  Tcb, Waitlist, WaitlistRef, SchedulePolicy, not_blocked, ready, os_max_tasks, os_priority_lowest,
  ref_eq, waitlists_ind,
}
use ko_rtos.Semaphore.{is_policy}
use ko_rtos.Waitlist.{waitlist_init}
use ko_rtos.Waitlist.Members.{Waits, Waits-congr}
use ko_rtos.Invariant.{on, IsSound, IsConsistent, update_ind}

waitlist_init-Waits :
    (policy : SchedulePolicy) (w : Waitlist) (r : WaitlistRef) (f : ℕ → Option WaitlistRef)
    → w.wait_count ≡ 0
    → Waits w f r
    → Waits (waitlist_init policy w) f r
unfolding waitlist_init
waitlist_init-Waits policy w r f e v = record {
  few = omega arith;
  waits = λ i h. absurd (omega arith);
  once = λ i j t h l a b. absurd (omega arith);
  listed = λ t q. let (i, l, a) = v.listed t q in absurd (omega arith);
}

waitlist_init-policy :
    (policy : SchedulePolicy) (w : Waitlist) → (waitlist_init policy w).schedule_policy ≡ policy
unfolding waitlist_init
waitlist_init-policy policy w = refl

module _ {tasks : ℕ → Tcb} {count cur : ℕ} {lists : WaitlistRef → Waitlist} where
  pub init-IsConsistent :
      (r : WaitlistRef) (policy : SchedulePolicy)
      → (lists r).wait_count ≡ 0
      → is_policy policy ≡ true
      → IsConsistent tasks count cur lists
      → IsConsistent tasks count cur
          (λ s. if ref_eq r s then waitlist_init policy (lists r) else lists s)
  init-IsConsistent r policy e p v = record {
    count_max = v.count_max;
    cur_in_range = v.cur_in_range;
    sound = v.sound;
    members =
        waitlists_ind (λ s w. Waits w (on tasks) s) r _ lists
          (waitlist_init-Waits policy (lists r) r (on tasks) e (v.members r)) (λ s _. v.members s);
    policies =
        waitlists_ind (λ s w. is_policy w.schedule_policy ≡ true) r _ lists
          (rw waitlist_init-policy p) (λ s _. v.policies s);
  }

  -- Where no task can be on a list, it is on none.
  off_list :
      (t : ℕ) → ¬ ((0 < t) × (t < count)) → IsConsistent tasks count cur lists → on tasks t ≡ none
  off_list t h v = elim (Option-cases (on tasks t)) [
    | inl e ↦ e
    | inr (r, e) ↦ let (_, a, b) = (v.sound t).waiting r e in absurd (h (a, b))
  ]

  -- A block that is ready and on no list, for a task that was on none, the count growing or not.
  pub fresh-IsConsistent :
      (t count' : ℕ) (b : Tcb)
      → ¬ ((0 < t) × (t < count))
      → count ≤ count'
      → count' ≤ os_max_tasks
      → b.blocked_waitlist ≡ none
      → b.block_reason ≡ not_blocked
      → b.current_state ≡ ready
      → (0 < t → (b.effective_priority ≤ b.base_priority) × (b.base_priority ≤ os_priority_lowest))
      → IsConsistent tasks count cur lists
      → IsConsistent (update tasks t b) count' cur lists
  fresh-IsConsistent t count' b off le max n w s p v = record {
    count_max = max;
    cur_in_range = omega (arith, v.cur_in_range);
    sound =
        update_ind (IsSound count' cur) tasks t b
          (record {
            waiting = λ r q. cc;
            reason = λ r q. cc;
            mutex_wait = λ q. cc;
            one_running = λ q. cc;
            in_range = p;
          })
          (λ u _. record {
            waiting = λ r q. let (a, c, d) = (v.sound u).waiting r q in (a, c, omega arith);
            reason = (v.sound u).reason;
            mutex_wait = (v.sound u).mutex_wait;
            one_running = (v.sound u).one_running;
            in_range = (v.sound u).in_range;
          });
    members = λ r.
        Waits-congr
          (update_ind (λ u (c : Tcb). c.blocked_waitlist ≡ on tasks u) tasks t b
            (n ∙ sym (off_list t off v)) (λ u _. refl))
          (v.members r);
    policies = v.policies;
  }

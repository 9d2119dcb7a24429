-- ===== src/Tick/Wakeup.antt =====
-- The tick, task by task: which tasks `unblock_tasks` wakes, and what their blocks then say.
use ko_rtos.Base.{
  ◌↔◌, ℕ, zero, suc, ◌+◌, ◌-◌, ◌≤◌, ◌<◌, ◌≡◌, ◌≢◌, refl, subst, sym, ap, ◌∙◌, Option, none, some,
  Bool, true, false, ltb, leb, ◌&&◌, if◌then◌else◌, Option-cases, Bool-cases, ◌⊎◌, inl, inr,
  update_self, arith,
}
use native.Mathlib.Decide.{ℕ_discrete}
use ko_rtos.Types.{Kernel, Tcb, WaitlistRef, ready, not_blocked}
use ko_rtos.Tick.{
  update_tick_count, is_due, find_waiter, leave_waitlist, end_wait, wake_if_due, wake_due,
  unblock_tasks, os_tick,
}
use ko_rtos.Waitlist.Members.{Listed, Waits-Listed}
use ko_rtos.Invariant.{Inv, on}
use ko_rtos.Invariant.Waking.{os_tick-Inv, find_waiter-none, wake_if_due-Inv}

abbrev pub is_some : Option WaitlistRef → Bool
is_some none = false
is_some (some r) = true

-- The block of a task whose deadline is reached: ready, on no list, and `timeout` says whether it
-- was on one.
abbrev pub expired : Tcb → Tcb
expired b = record b {
  current_state = ready;
  block_reason = not_blocked;
  wakeup_tick = 0;
  timeout = is_some b.blocked_waitlist;
  blocked_waitlist = none;
}

-- The block of task `t` after a round for it, with `b` before.
abbrev after_round : Kernel → ℕ → Tcb → Tcb
after_round k t b = if is_due k t then expired b else b

end_wait-frame :
    (t u : ℕ) (k : Kernel)
    → ((end_wait t k).systick_count ≡ k.systick_count)
      × (u ≢ t → (end_wait t k).user_tasks u ≡ k.user_tasks u)
unfolding end_wait leave_waitlist
end_wait-frame t u k = elim (Option-cases (on k.user_tasks t)) [
  | inl e ↦ ground arith
  | inr (r, e) ↦
      elim (Option-cases
        (find_waiter (k.waitlists r).task_waitlist t (k.waitlists r).wait_count 0)) [
          | inl q ↦ ground arith
          | inr (i, q) ↦ ground arith
        ]
]

end_wait-at :
    (t : ℕ) (k : Kernel)
    → Inv k
    → (end_wait t k).user_tasks t
      ≡ record (k.user_tasks t) { timeout = is_some (on k.user_tasks t); blocked_waitlist = none }
unfolding end_wait leave_waitlist
end_wait-at t k v = elim (Option-cases (on k.user_tasks t)) [
  | inl e ↦
      rw (e, end_wait)
        (update_self k.user_tasks t _
          ∙ ap (λ w. record (k.user_tasks t) { timeout = false; blocked_waitlist = w }) e)
  | inr (r, e) ↦
      elim (Option-cases
        (find_waiter (k.waitlists r).task_waitlist t (k.waitlists r).wait_count 0)) [
          | inl q ↦
              let (i, l, a) = (v.members r).listed t e in
              absurd (find_waiter-none _ t _ 0 i q (omega arith) (omega arith) a)
          | inr (i, q) ↦ rw (e, end_wait) (rw (q, leave_waitlist) (update_self k.user_tasks t _))
        ]
]

wake_if_due-frame :
    (t u : ℕ) (k : Kernel)
    → ((wake_if_due t k).systick_count ≡ k.systick_count)
      × (u ≢ t → (wake_if_due t k).user_tasks u ≡ k.user_tasks u)
unfolding wake_if_due
wake_if_due-frame t u k = ground (arith, end_wait-frame t u k)

wake_if_due-at :
    (t : ℕ) (k : Kernel) → Inv k → (wake_if_due t k).user_tasks t ≡ after_round k t (k.user_tasks t)
unfolding wake_if_due
wake_if_due-at t k v =
    let b = end_wait-at t k v in
    elim (Bool-cases (is_due k t)) [
      | inl e ↦ rw e (
          update_self (end_wait t k).user_tasks t _
          ∙ ap
              (λ (x : Tcb). record x {
                current_state = ready;
                block_reason = not_blocked;
                wakeup_tick = 0;
              })
              b)
      | inr e ↦ rw e refl
    ]

-- A round for another task leaves a task's block and the test of its deadline.
after_round-congr :
    (k l : Kernel) (t : ℕ)
    → l.systick_count ≡ k.systick_count
    → l.user_tasks t ≡ k.user_tasks t
    → after_round l t (l.user_tasks t) ≡ after_round k t (k.user_tasks t)
after_round-congr k l t e f = rw (e, f) refl

wake_due-outside :
    (n i t : ℕ) (k : Kernel)
    → (t < i) ⊎ (i + n ≤ t)
    → (wake_due n i k).user_tasks t ≡ k.user_tasks t
unfolding wake_due
wake_due-outside zero i t k l = refl
wake_due-outside (suc n) i t k l =
    wake_due-outside n (suc i) t (wake_if_due i k) (ground arith)
    ∙ (wake_if_due-frame i t k).1 (ground arith)

wake_due-at :
    (n i t : ℕ) (k : Kernel)
    → Inv k
    → i ≤ t
    → t < i + n
    → (wake_due n i k).user_tasks t ≡ after_round k t (k.user_tasks t)
unfolding wake_due
wake_due-at zero i t k v l h = absurd (omega arith)
wake_due-at (suc n) i t k v l h = elim (ℕ_discrete i t) [
  | yes e ↦
      wake_due-outside n (suc i) t (wake_if_due i k) (inl (omega arith))
      ∙ subst (λ x. (wake_if_due x k).user_tasks t ≡ after_round k t (k.user_tasks t)) (sym e)
          (wake_if_due-at t k v)
  | no e ↦
      wake_due-at n (suc i) t (wake_if_due i k) (wake_if_due-Inv i k v) (omega arith) (omega arith)
      ∙ after_round-congr k (wake_if_due i k) t (wake_if_due-frame i t k).0
          ((wake_if_due-frame i t k).1 (λ q. e (sym q)))
]

-- The next tick wakes task `t`.
abbrev pub expires : Kernel → ℕ → Bool
expires k t = ltb 0 t && (ltb t k.task_count && is_due (update_tick_count k) t)

os_tick-block :
    (t : ℕ) (k : Kernel)
    → Inv k
    → (os_tick k).user_tasks t ≡ (if expires k t then expired (k.user_tasks t) else k.user_tasks t)
unfolding os_tick unblock_tasks update_tick_count
os_tick-block t k v =
    let k' = update_tick_count k in
    let n = k.task_count - 1 in
    elim (Bool-cases (leb k.task_count 1)) [
      | inl l ↦ ground arith
      | inr l ↦ elim (Bool-cases (ltb 0 t && ltb t k.task_count)) [
        | inl p ↦ ground (arith, wake_due-at n 1 t k' v)
        | inr p ↦ ground (arith, wake_due-outside n 1 t k')
      ]
    ]

-- On consistent tables, a tick wakes exactly the user tasks that are blocked with a deadline that the
-- new counter value has reached: they are ready and without a deadline, and `timeout` tells those
-- that were on a waitlist from those that only delayed. Every other task's block is unchanged. The
-- entries of each waitlist are then the tasks that were there and are not woken.
pub os_tick-expired :
    (t : ℕ) (r : WaitlistRef) (k : Kernel)
    → Inv k
    → let woken = ltb 0 t && (ltb t k.task_count && is_due (update_tick_count k) t) in
      ((os_tick k).user_tasks t ≡ (if woken then expired (k.user_tasks t) else k.user_tasks t))
      × (Listed ((os_tick k).waitlists r) t ↔ (woken ≡ false) × Listed (k.waitlists r) t)
os_tick-expired t r k v =
    let b = os_tick-block t k v in
    let before = Waits-Listed t (v.members r) in
    let after = Waits-Listed t ((os_tick-Inv k v).members r) in
    (
      b,
      (
        λ l.
            let o = after.0 l in
            elim (Bool-cases (expires k t)) [
              | inl e ↦ absurd (ground (arith, o, b))
              | inr e ↦ (e, before.1 (ground (arith, o, b)))
            ],
        λ (e, l). let o = before.0 l in after.1 (ground (arith, o, b)),
      ),
    )

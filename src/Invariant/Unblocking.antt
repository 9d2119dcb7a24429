-- ===== src/Invariant/Unblocking.antt =====
-- `waitlist_unblock` on consistent tables: it does not fault, it empties no entry but the chosen
-- one, and it keeps the tables consistent.
use ko_rtos.Base.{ℕ, ◌≤◌, ◌<◌, ◌≡◌, refl, ◌⊎◌, none, some, true, inl, inr, arith, ◌==◌, Bool-cases}
use ko_rtos.Types.{
  Kernel, Waitlist, WaitlistRef, SchedulePolicy, fifo, priority, invalid, os_priority_lowest,
  set_task, set_waitlist,
}
use ko_rtos.Semaphore.{is_policy}
use ko_rtos.Waitlist.{
  waitlist_remove_task, woken, waiter_priority, unblock_index, wake_at, waitlist_unblock,
}
use ko_rtos.Waitlist.Choice.{HighestFirst, unblock_index-priority}
use ko_rtos.Invariant.{Inv}
use ko_rtos.Invariant.Waking.{wake_at-Inv}

-- What a policy promises of the chosen entry.
abbrev pub Fits : Kernel → Waitlist → SchedulePolicy → ℕ → Type 0
Fits k w fifo i = i ≡ 0
Fits k w priority i = HighestFirst k w i
Fits k w (invalid _) i = Unit {0}

-- The state after task `t` at entry `i` of the list `r` is woken.
abbrev pub awake : Kernel → WaitlistRef → ℕ → ℕ → Kernel
awake k r i t =
    set_waitlist (set_task k t (woken (k.user_tasks t))) r (waitlist_remove_task (k.waitlists r) i)

-- Task `t` is woken from entry `i`, which the list's policy chooses.
pub record Wakes (r : WaitlistRef) (k : Kernel) : Type 0 where
  pub i : ℕ
  pub t : ℕ
  pub in_list : i < (k.waitlists r).wait_count
  pub entry : (k.waitlists r).task_waitlist i ≡ some t
  pub fits : Fits k (k.waitlists r) (k.waitlists r).schedule_policy i
  pub result : waitlist_unblock r k ≡ some (some t, awake k r i t)

module _ (r : WaitlistRef) (k : Kernel) (v : Inv k) where
  abbrev list : Waitlist
  list = k.waitlists r

  -- A waiter's priority is one that a task may have.
  waiter_in_range :
      0 < list.wait_count → (p : ℕ) × (waiter_priority k list 0 ≡ some p) × (p ≤ os_priority_lowest)
  waiter_in_range h =
      let (t, e, o) = (v.members r).waits 0 h in
      let (_, pos, _) = (v.sound t).waiting r o in
      let b = (v.sound t).in_range pos in
      ((k.user_tasks t).effective_priority, rw (e, waiter_priority), omega arith)

  index-Fits :
      (policy : SchedulePolicy)
      → is_policy policy ≡ true
      → 0 < list.wait_count
      → (i : ℕ) × (unblock_index k list policy ≡ some i)
        × (i < list.wait_count)
        × Fits k list policy i
  unfolding unblock_index
  index-Fits fifo e h = (0, refl, h, refl)
  index-Fits priority e h =
      let (p, a, b) = waiter_in_range h in
      let (i, q, f) = unblock_index-priority k list 0 p h a b in (i, q, f.in_list, f)
  index-Fits (invalid _) e h = cc

  -- With a waiter, one is woken, and no NULL entry is met.
  pub unblock-Wakes : 0 < list.wait_count → Wakes r k
  unfolding waitlist_unblock wake_at
  unblock-Wakes h =
      let (i, e, l, f) = index-Fits list.schedule_policy (v.policies r) h in
      let (t, a, _) = (v.members r).waits i l in
      record { i = i; t = t; in_list = l; entry = a; fits = f; result = ground arith }

  -- The two outcomes of `waitlist_unblock`.
  pub unblock_cases : ((list.wait_count ≡ 0) × (waitlist_unblock r k ≡ some (none, k))) ⊎ Wakes r k
  unfolding waitlist_unblock
  unblock_cases = elim (Bool-cases (list.wait_count == 0)) [
    | inl e ↦ inl (ground arith, rw e)
    | inr e ↦ inr (unblock-Wakes (ground arith))
  ]

-- The kernel after a wake is consistent.
pub awake-Inv : (r : WaitlistRef) (k : Kernel) → Inv k → (w : Wakes r k) → Inv (awake k r w.i w.t)
awake-Inv r k v w = wake_at-Inv r w.i w.t k w.in_list w.entry v

-- ===== src/Waitlist/Choice.antt =====
-- Which waiter `waitlist_unblock` chooses under each policy.
use ko_rtos.Base.{
  ℕ, ◌+◌, ◌≤◌, ◌<◌, ◌≡◌, ap, none, some, inl, inr, Best, FirstMin, scan-FirstMin, arith,
}
use ko_rtos.Types.{Kernel, Waitlist, priority, os_priority_lowest}
use ko_rtos.Waitlist.{waiter_priority, unblock_index}

-- Entry `i` has the least number (the highest priority) of the list, and is the first that has it.
pub record HighestFirst (k : Kernel) (w : Waitlist) (i : ℕ) : Type 0 where
  pub prio : ℕ
  pub in_list : i < w.wait_count
  pub has_prio : waiter_priority k w i ≡ some prio
  pub least : (j p : ℕ) → j < w.wait_count → waiter_priority k w j ≡ some p → prio ≤ p
  pub first : (j p : ℕ) → j < i → waiter_priority k w j ≡ some p → prio < p

-- Under PRIORITY, where a waiter has a priority in the valid range, the choice succeeds, and it is the
-- first waiter of the highest priority.
pub unblock_index-priority :
    (k : Kernel) (w : Waitlist) (j p : ℕ)
    → j < w.wait_count
    → waiter_priority k w j ≡ some p
    → p ≤ os_priority_lowest
    → (i : ℕ) × (unblock_index k w priority ≡ some i) × HighestFirst k w i
unfolding unblock_index
unblock_index-priority k w j p l e h = go (scan-FirstMin (waiter_priority k w) w.wait_count 0 start)
  where
    start : Best
    start = record { prio = os_priority_lowest + 1; idx = none }

    go :
        {r : Best}
        → FirstMin (waiter_priority k w) w.wait_count 0 start r
        → (i : ℕ) × (r.idx ≡ some i) × HighestFirst k w i
    go {r} m = elim m.origin [
      | inl q ↦
          let same : r.prio ≡ 32 = ap (λ (x : Best). x.prio) q in
          absurd (omega (arith, m.least j p (omega arith) (omega arith) e))
      | inr f ↦ (
        f.at,
        f.is_idx,
        record {
          prio = r.prio;
          in_list = omega (arith, f.before_end);
          has_prio = f.has_prio;
          least = λ x y a b. m.least x y (omega arith) (omega arith) b;
          first = λ x y a b. f.first x y (omega arith) a b;
        },
      )
    ]

-- ===== src/Scheduler/Pick.antt =====
-- What the two loops of `os_schedule_next_task` find.
use ko_rtos.Base.{
  ℕ, suc, ◌+◌, ◌-◌, ◌≤◌, ◌<◌, ◌≡◌, ap, subst, ◌∙◌, sym, ◌⊎◌, some, inl, inr, Best, FirstMin, Found,
  scan-FirstMin, ltb, if◌then◌else◌, arith,
}
use native.Mathlib.Decide.{dec_lt}
use ko_rtos.Types.{Kernel, os_priority_lowest, idle_task_idx}
use ko_rtos.Scheduler.{candidate, round_robin, chosen}

-- The place of a task in the round: the task after the current one is first, the current one last.
abbrev pub turn : Kernel → ℕ → ℕ
turn k i = if ltb k.current_task i then i - k.current_task else i + k.task_count - k.current_task

-- Task `t` is ready, no ready task outranks it, and none of its rank comes before it in the round.
pub record Next (k : Kernel) (t : ℕ) : Type 0 where
  pub prio : ℕ
  pub user_task : 0 < t
  pub exists : t < k.task_count
  pub has_prio : candidate k t ≡ some prio
  pub in_range : prio ≤ os_priority_lowest
  pub least : (i p : ℕ) → 0 < i → i < k.task_count → candidate k i ≡ some p → prio ≤ p
  pub in_turn :
      (i p : ℕ) → 0 < i → i < k.task_count → turn k i < turn k t → candidate k i ≡ some p → prio < p

-- No task but the idle task can run.
pub record NoneReady (k : Kernel) (t : ℕ) : Type 0 where
  pub idle : t ≡ idle_task_idx
  pub none_in_range :
      (i p : ℕ) → 0 < i → i < k.task_count → candidate k i ≡ some p → os_priority_lowest < p

module _ (k : Kernel) (range : k.current_task < k.task_count) where
  abbrev rest : ℕ
  rest = k.task_count - suc k.current_task

  abbrev start : Best
  start = record { prio = os_priority_lowest + 1; idx = some idle_task_idx }

  chosen-idx : (c : Best) {t : ℕ} → c.idx ≡ some t → chosen c ≡ t
  chosen-idx c e = rw (e, chosen)

  module _ {b c : Best} (m : FirstMin (candidate k) rest (suc k.current_task) start b)
      (m' : FirstMin (candidate k) k.current_task 1 b c) where
    second-le : c.prio ≤ b.prio
    second-le = elim m'.origin [
      | inl q ↦ omega (arith, ap (λ (x : Best). x.prio) q)
      | inr f ↦ omega (arith, f.better)
    ]

    least-of-both : (i p : ℕ) → 0 < i → i < k.task_count → candidate k i ≡ some p → c.prio ≤ p
    least-of-both i p h l e = elim (dec_lt k.current_task i) [
      | yes x ↦ omega (arith, second-le, m.least i p x (omega arith) e)
      | no x ↦ m'.least i p h (omega arith) e
    ]

    -- found by the first loop, and kept by the second
    Next-first : c ≡ b → Found (candidate k) rest (suc k.current_task) start b → Next k (chosen c)
    Next-first q f =
        let same : c.prio ≡ b.prio = ap (λ (x : Best). x.prio) q in
        subst (Next k) (sym (chosen-idx c (ap (λ (x : Best). x.idx) q ∙ f.is_idx))) (record {
          prio = c.prio;
          user_task = omega (arith, f.from_le);
          exists = omega (arith, f.before_end);
          has_prio = f.has_prio ∙ ap some (sym same);
          in_range = omega (arith, f.better);
          least = least-of-both;
          in_turn = λ i p h l o e.
              let past : k.current_task < f.at = f.from_le in
              let end : f.at < suc k.current_task + rest = f.before_end in
              let sooner : (k.current_task < i) × (i < f.at) = ground arith in
              omega (arith, f.first i p sooner.0 sooner.1 e);
        })

    -- found by the second loop
    Next-second : Found (candidate k) k.current_task 1 b c → Next k (chosen c)
    Next-second f = subst (Next k) (sym (chosen-idx c f.is_idx)) (record {
      prio = c.prio;
      user_task = f.from_le;
      exists = omega (arith, f.before_end);
      has_prio = f.has_prio;
      in_range = omega (arith, below);
      least = least-of-both;
      in_turn = in_turn;
    })
      where
        below : c.prio < 32
        below = elim m.origin [
          | inl q ↦ omega (arith, f.better, ap (λ (x : Best). x.prio) q)
          | inr g ↦ omega (arith, f.better, g.better)
        ]

        in_turn :
            (i p : ℕ)
            → 0 < i
            → i < k.task_count
            → turn k i < turn k f.at
            → candidate k i ≡ some p
            → c.prio < p
        in_turn i p h l o e = elim (dec_lt k.current_task i) [
          | yes x ↦ omega (arith, f.better, m.least i p x (omega arith) e)
          | no x ↦ f.first i p h (ground (arith, f.before_end)) e
        ]

    found-Next : NoneReady k (chosen c) ⊎ Next k (chosen c)
    found-Next = elim m'.origin [
      | inl q ↦ elim m.origin [
        | inl z ↦
            let none_found : c.prio ≡ 32 = ap (λ (x : Best). x.prio) (q ∙ z) in
            inl (record {
              idle = chosen-idx c (ap (λ (x : Best). x.idx) (q ∙ z));
              none_in_range = λ i p h l e. omega (arith, least-of-both i p h l e);
            })
        | inr f ↦ inr (Next-first q f)
      ]
      | inr f ↦ inr (Next-second f)
    ]

  -- The choice of the scheduler.
  pub round_robin-Next : NoneReady k (chosen (round_robin k)) ⊎ Next k (chosen (round_robin k))
  unfolding round_robin
  round_robin-Next =
      found-Next (scan-FirstMin (candidate k) rest (suc k.current_task) start)
        (scan-FirstMin (candidate k) k.current_task 1 _)

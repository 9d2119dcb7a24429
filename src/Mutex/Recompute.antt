-- ===== src/Mutex/Recompute.antt =====
-- `mutex_recompute_owner_priority`: what it finds, and what it leaves.
use ko_rtos.Base.{
  ℕ, zero, suc, ◌≤◌, ◌<◌, ◌≡◌, refl, ◌∙◌, inl, inr, Option, none, some, false, Bool-cases, arith,
}
use ko_rtos.Types.{Kernel, Tcb, os_max_tasks, ◌>>=◌}
use ko_rtos.Mutex.{
  waits_for_mutex, set_effective, recompute_one, recompute, mutex_recompute_owner_priority,
}
use ko_rtos.Mutex.Ownership.{owner_but, OwnsBut}
use ko_rtos.Mutex.Highest.{Highest, highest_owned-Highest}
use ko_rtos.Mutex.Chain.{
  SameBut, set_effective-SameBut, Boosted, SameBut-Inv, SameBut-Owns, next_owner-total,
}
use ko_rtos.Invariant.{Inv, update_ind}

-- The tables agree with one another and with the mutexes.
-- `hole` is a mutex that is being handed over, if there is one.
pub record HealthyBut (hole : Option ℕ) (k : Kernel) : Type 0 where
  pub inv : Inv k
  pub owns : OwnsBut hole k

abbrev pub Healthy : Kernel → Type 0
Healthy k = HealthyBut none k

pub recompute-none : (n : ℕ) (k : Kernel) → recompute n none k ≡ some k
unfolding recompute
recompute-none zero k = refl
recompute-none (suc n) k = refl

module _ (hole : Option ℕ) where
  pub set_effective-Healthy :
      (t h : ℕ) (k : Kernel)
      → h ≤ (k.user_tasks t).base_priority
      → HealthyBut hole k
      → HealthyBut hole (set_effective k t h)
  set_effective-Healthy t h k le v = record {
    inv = SameBut-Inv (set_effective-SameBut t h k) boosted v.inv;
    owns = SameBut-Owns (set_effective-SameBut t h k) v.owns;
  }
    where
      boosted : Boosted (set_effective k t h)
      boosted =
          update_ind (λ u (b : Tcb). 0 < u → b.effective_priority ≤ b.base_priority) k.user_tasks t
            _ (λ _. le) (λ u _ p. ((v.inv.sound u).in_range p).0)

  pub recompute_one-Highest :
      (t : ℕ) (k : Kernel)
      → HealthyBut hole k
      → (h : ℕ) × (recompute_one t k ≡ some (set_effective k t h))
        × Highest (owner_but hole k.mutexes) k t h
  unfolding recompute_one
  recompute_one-Highest t k v =
      let (h, e, s) =
        highest_owned-Highest (owner_but hole k.mutexes) k t v.inv (v.owns.tables t) in
      (h, rw (e, ◌>>=◌), s)

  -- The loop ends without a fault, and changes nothing but effective priorities.
  pub record Settled (k : Kernel) (o : Option Kernel) : Type 0 where
    pub to : Kernel
    pub result : o ≡ some to
    pub rest : SameBut k to
    pub healthy : HealthyBut hole to

  module _ (k : Kernel) (v : HealthyBut hole k) where
    settle_here : {o : Option Kernel} → o ≡ some k → Settled k o
    settle_here e = record { to = k; result = e; rest = refl; healthy = v }

  settle_later :
      {k k' : Kernel} {o o' : Option Kernel} → SameBut k k' → o ≡ o' → Settled k' o' → Settled k o
  settle_later e q s = record {
    to = s.to;
    result = q ∙ s.result;
    rest = s.rest ∙ e;
    healthy = s.healthy;
  }

  next-Settled :
      (n : ℕ) (o : Option ℕ) (k : Kernel)
      → HealthyBut hole k
      → ((t : ℕ) → Settled k (recompute n (some t) k))
      → Settled k (recompute n o k)
  next-Settled n none k v ih = settle_here k v (recompute-none n k)
  next-Settled n (some t) k v ih = ih t

  recompute-Settled :
      (n t : ℕ) (k : Kernel) → HealthyBut hole k → Settled k (recompute n (some t) k)
  unfolding recompute
  recompute-Settled zero t k v = settle_here k v refl
  recompute-Settled (suc n) t k v =
      let (h, e, s) = recompute_one-Highest t k v in
      let k' = set_effective k t h in
      let v' = set_effective-Healthy t h k s.le_base v in
      let d = set_effective-SameBut t h k in
      elim (Bool-cases (waits_for_mutex (k'.user_tasks t).block_reason)) [
        | inl q ↦
            let (o, p) = next_owner-total t k' q v'.inv in
            settle_later d (rw (e, ◌>>=◌) (rw q (rw (p, ◌>>=◌))))
              (next-Settled n o k' v' (λ x. recompute-Settled n x k' v'))
        | inr q ↦ settle_later d (rw (e, ◌>>=◌) (rw q)) (settle_here k' v' refl)
      ]

  pub mutex_recompute_owner_priority-Settled :
      (o : Option ℕ) (k : Kernel)
      → HealthyBut hole k
      → Settled k (mutex_recompute_owner_priority o k)
  unfolding mutex_recompute_owner_priority
  mutex_recompute_owner_priority-Settled o k v =
      next-Settled os_max_tasks o k v (λ t. recompute-Settled os_max_tasks t k v)

  -- On healthy tables, for an owner that is not itself waiting for a mutex, the recomputation sets its
  -- effective priority to the highest among its base priority and those of the tasks that wait for a
  -- mutex that it owns, and changes nothing else.
  pub mutex_recompute_owner_priority-Highest :
      (t : ℕ) (k : Kernel)
      → HealthyBut hole k
      → waits_for_mutex (k.user_tasks t).block_reason ≡ false
      → (h : ℕ) × (mutex_recompute_owner_priority (some t) k ≡ some (set_effective k t h))
        × Highest (owner_but hole k.mutexes) k t h
  unfolding mutex_recompute_owner_priority recompute
  mutex_recompute_owner_priority-Highest t k v q =
      let (h, e, s) = recompute_one-Highest t k v in
      let q' : waits_for_mutex ((set_effective k t h).user_tasks t).block_reason ≡ false =
        ground arith in
      (h, rw (e, ◌>>=◌) (rw q'), s)

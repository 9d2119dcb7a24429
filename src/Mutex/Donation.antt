-- ===== src/Mutex/Donation.antt =====
-- `mutex_donate_priority`: whom the donation reaches and what it leaves.
use ko_rtos.Base.{
  ℕ, zero, suc, ◌≤◌, ◌<◌, ◌≡◌, refl, sym, ap, subst, ◌∙◌, ◌⊎◌, inl, inr, Option, none, some, true,
  false, ltb, ◌==◌, if◌then◌else◌, if_ind, Bool-cases, Option-cases, some, arith,
}
use native.Mathlib.Decide.{dec_lt, ℕ_discrete}
use ko_rtos.Types.{
  Kernel, WaitlistRef, sem_list, mutex_list, send_list, recv_list, on_mutex, os_max_tasks, ◌>>=◌,
}
use ko_rtos.Mutex.{
  waits_for_mutex, owner_of, cast_waitlist_to_mutex, next_owner, donate_to, donate,
  mutex_donate_priority,
}
use ko_rtos.Mutex.Chain.{SameBut, set_effective-SameBut, Boosted, SameBut-Inv, next_owner-total}
use ko_rtos.Invariant.{Inv, on}

-- Task `t` waits for a mutex that task `s` owns.
abbrev pub WaitsFor : Kernel → ℕ → ℕ → Type 0
WaitsFor k t s =
    ((k.user_tasks t).block_reason ≡ on_mutex)
    × ((m : ℕ) × ((k.user_tasks t).blocked_waitlist ≡ some (mutex_list m))
        × ((k.mutexes m).owner ≡ some s))

-- Task `u` is `n` such steps away from task `t`.
pub data Reaches (k : Kernel) : ℕ → ℕ → ℕ → Type 0 where
  here : {t u : ℕ} → t ≡ u → Reaches k zero t u
  hop : {n t s u : ℕ} → WaitsFor k t s → Reaches k n s u → Reaches k (suc n) t u

-- The chain does not depend on effective priorities.
Reaches-SameBut : {k l : Kernel} {n t u : ℕ} → SameBut k l → Reaches k n t u → Reaches l n t u
Reaches-SameBut e (here q) = here q
Reaches-SameBut {k} {l} {t = t} e (hop {s = s} w r) =
    hop (subst (λ x. WaitsFor x t s) (sym e) w) (Reaches-SameBut e r)

abbrev pub effective : Kernel → ℕ → ℕ
effective k u = (k.user_tasks u).effective_priority

-- What a donation of priority `p`, begun at task `t` with `n` rounds left, leaves: the tasks within
-- reach have at least priority `p`, and only they have changed, to just that priority.
pub record Donated (n p t : ℕ) (k l : Kernel) : Type 0 where
  pub rest : SameBut k l
  pub raised : (i u : ℕ) → i < n → Reaches k i t u → effective l u ≤ p
  pub only :
      (u : ℕ)
      → (effective l u ≡ effective k u)
        ⊎ ((effective l u ≡ p) × (p < effective k u) × ((i : ℕ) × (i < n) × Reaches k i t u))

donate_to-SameBut : (p t : ℕ) (k : Kernel) → SameBut k (donate_to p t k)
unfolding donate_to
donate_to-SameBut p t k =
    if_ind (SameBut k) (ltb p (effective k t)) (λ _. set_effective-SameBut t p k) (λ _. refl)

donate_to-effective :
    (p t u : ℕ) (k : Kernel)
    → effective (donate_to p t k) u
      ≡ (if ltb p (effective k t) then (if t == u then p else effective k u) else effective k u)
unfolding donate_to
donate_to-effective p t u k = ground arith

-- The donation to the first task alone.
donate_to-Donated : (p t : ℕ) (k : Kernel) → Donated 1 p t k (donate_to p t k)
donate_to-Donated p t k = record {
  rest = donate_to-SameBut p t k;
  raised = λ i u l r. first i u l r;
  only = λ u. elim (ℕ_discrete t u) [
    | yes q ↦ elim (dec_lt p (effective k t)) [
      | yes x ↦ inr (
        ground (arith, donate_to-effective p t u k),
        subst (λ z. p < effective k z) q x,
        (0, omega arith, here q),
      )
      | no x ↦ inl (ground (arith, donate_to-effective p t u k))
    ]
    | no q ↦ inl (ground (arith, donate_to-effective p t u k))
  ];
}
  where
    at_t : effective (donate_to p t k) t ≤ p
    at_t = ground (arith, donate_to-effective p t t k)

    first : (i u : ℕ) → i < 1 → Reaches k i t u → effective (donate_to p t k) u ≤ p
    first zero u l (here q) = subst (λ z. effective (donate_to p t k) z ≤ p) q at_t
    first (suc i) u l (hop w r) = absurd (omega arith)

-- What `next_owner` reads is the step of the chain.
next_owner-WaitsFor :
    (t s : ℕ) (o : Option ℕ) (k : Kernel) → next_owner t k ≡ some o → WaitsFor k t s → o ≡ some s
unfolding next_owner
next_owner-WaitsFor t s o k e (_, (m, a, b)) = ground (arith, rw (a, cast_waitlist_to_mutex) at e)

WaitsFor-next_owner :
    (t s : ℕ) (k : Kernel)
    → waits_for_mutex (k.user_tasks t).block_reason ≡ true
    → next_owner t k ≡ some (some s)
    → WaitsFor k t s
unfolding next_owner
WaitsFor-next_owner t s k h e = elim (Option-cases (on k.user_tasks t)) [
  | inl q ↦ absurd (ground (arith, rw (q, cast_waitlist_to_mutex) at e))
  | inr (r, q) ↦ go r q (rw (q, cast_waitlist_to_mutex) at e)
]
  where
    go :
        (r : WaitlistRef)
        → on k.user_tasks t ≡ some r
        → (cast_waitlist_to_mutex (some r) >>= λ m. some (owner_of k m)) ≡ some (some s)
        → WaitsFor k t s
    go (mutex_list m) q e = (ground arith, (m, q, ground arith))
    go (sem_list m) q e = absurd (ground arith)
    go (send_list m) q e = absurd (ground arith)
    go (recv_list m) q e = absurd (ground arith)

-- A chain that ends at `t`.
Donated-end :
    (n p t : ℕ) (k l : Kernel)
    → ((s : ℕ) → ¬ WaitsFor k t s)
    → Donated 1 p t k l
    → Donated (suc n) p t k l
Donated-end n p t k l stop d = record {
  rest = d.rest;
  raised = λ i u h r. reach i u r;
  only = λ u. elim (d.only u) [
    | inl e ↦ inl e
    | inr (a, b, (i, q, r)) ↦ inr (a, b, (i, omega arith, r))
  ];
}
  where
    reach : (i u : ℕ) → Reaches k i t u → effective l u ≤ p
    reach zero u r = d.raised zero u (omega arith) r
    reach (suc i) u (hop {s = s} w r) = absurd (stop s w)

-- A chain that goes on at `s`.
Donated-hop :
    (n p t s : ℕ) (k k' l : Kernel)
    → WaitsFor k t s
    → ((u : ℕ) → WaitsFor k t u → u ≡ s)
    → Donated 1 p t k k'
    → Donated n p s k' l
    → Donated (suc n) p t k l
Donated-hop n p t s k k' l w same d d' = record {
  rest = d'.rest ∙ d.rest;
  raised = λ i u h r. reach i u h r;
  only = λ u. elim (d'.only u) [
    | inl e ↦ elim (d.only u) [
      | inl f ↦ inl (e ∙ f)
      | inr (a, b, (i, q, r)) ↦ inr (e ∙ a, b, (i, omega arith, r))
    ]
    | inr (a, b, (i, q, r)) ↦
        inr
          (a, omega (arith, falls u), (suc i, omega arith, hop w (Reaches-SameBut (sym d.rest) r)))
  ];
}
  where
    falls : (u : ℕ) → effective k' u ≤ effective k u
    falls u = elim (d.only u) [ inl e ↦ omega arith | inr (a, b, c) ↦ omega arith ]

    stays : (u : ℕ) → effective k' u ≤ p → effective l u ≤ p
    stays u h = elim (d'.only u) [ inl e ↦ omega arith | inr (a, b, c) ↦ omega arith ]

    reach : (i u : ℕ) → i < suc n → Reaches k i t u → effective l u ≤ p
    reach zero u h r = stays u (d.raised zero u (omega arith) r)
    reach (suc i) u h (hop {s = x} y r) =
        d'.raised i u (omega arith)
          (Reaches-SameBut d.rest (subst (λ z. Reaches k i z u) (same x y) r))

Donated-zero : (p t : ℕ) (k : Kernel) → Donated 0 p t k k
Donated-zero p t k = record {
  rest = refl;
  raised = λ i u h r. absurd (omega arith);
  only = λ u. inl refl;
}

Donated-Inv : {n p t : ℕ} {k l : Kernel} → Donated n p t k l → Inv k → Inv l
Donated-Inv {k = k} {l = l} d v = SameBut-Inv d.rest boosted v
  where
    boosted : Boosted l
    boosted u h =
        let base : (l.user_tasks u).base_priority ≡ (k.user_tasks u).base_priority =
          ap (λ (x : Kernel). (x.user_tasks u).base_priority) d.rest in
        let low = (v.sound u).in_range h in
        elim (d.only u) [ inl e ↦ omega arith | inr (a, b, c) ↦ omega arith ]

forth : (p t s : ℕ) (k : Kernel) → WaitsFor k t s → WaitsFor (donate_to p t k) t s
forth p t s k w = subst (λ x. WaitsFor x t s) (sym (donate_to-SameBut p t k)) w

-- A task that waits for one mutex waits for its owner alone.
WaitsFor-unique : (k : Kernel) (t s u : ℕ) → WaitsFor k t s → WaitsFor k t u → u ≡ s
WaitsFor-unique k t s u (_, (m, a, b)) (_, (m', a', b')) =
    let same : m' ≡ m = ground arith in
    let owner : (k.mutexes m').owner ≡ (k.mutexes m).owner = ap (λ x. (k.mutexes x).owner) same in
    ground arith

-- The result of the loop with `n` rounds left.
abbrev pub Donates : ℕ → ℕ → ℕ → Kernel → Option Kernel → Type 0
Donates n p t k o = (l : Kernel) × (o ≡ some l) × Donated n p t k l

not_waiting :
    (k : Kernel) (t s : ℕ)
    → waits_for_mutex (k.user_tasks t).block_reason ≡ false
    → ¬ WaitsFor k t s
not_waiting k t s h (e, _) = ground arith

donate-none : (n p : ℕ) (k : Kernel) → donate n p none k ≡ some k
unfolding donate
donate-none zero p k = refl
donate-none (suc n) p k = refl

-- One round, whatever the next owner is.
donate-next :
    (n p t : ℕ) (k : Kernel) (o : Option ℕ)
    → let k' = donate_to p t k in
      waits_for_mutex (k'.user_tasks t).block_reason ≡ true
      → next_owner t k' ≡ some o
      → ((s : ℕ) → Donates n p s k' (donate n p (some s) k'))
      → Donates (suc n) p t k (donate n p o k')
donate-next n p t k none e q ih = (
  donate_to p t k,
  donate-none n p (donate_to p t k),
  Donated-end n p t k (donate_to p t k)
      (λ s w. let never = next_owner-WaitsFor t s none (donate_to p t k) q (forth p t s k w) in cc)
      (donate_to-Donated p t k),
)
donate-next n p t k (some s) e q ih =
    let k' = donate_to p t k in
    let w : WaitsFor k t s =
      subst (λ x. WaitsFor x t s) (donate_to-SameBut p t k) (WaitsFor-next_owner t s k' e q) in
    let (l, r, d) = ih s in
    (
      l,
      r,
      Donated-hop n p t s k k' l w (λ u. WaitsFor-unique k t s u w) (donate_to-Donated p t k) d,
    )

donate-Donated : (n p t : ℕ) (k : Kernel) → Inv k → Donates n p t k (donate n p (some t) k)
unfolding donate
donate-Donated zero p t k v = (k, refl, Donated-zero p t k)
donate-Donated (suc n) p t k v =
    let k' = donate_to p t k in
    let v' = Donated-Inv (donate_to-Donated p t k) v in
    elim (Bool-cases (waits_for_mutex (k'.user_tasks t).block_reason)) [
      | inl e ↦
          let (o, q) = next_owner-total t k' e v' in
          rw (e, donate)
            (rw (q, ◌>>=◌) (donate-next n p t k o e q (λ s. donate-Donated n p s k' v')))
      | inr e ↦ (
        k',
        rw (e, donate),
        Donated-end n p t k k' (λ s w. not_waiting k' t s e (forth p t s k w))
            (donate_to-Donated p t k),
      )
    ]

-- On consistent tables the donation to a task `t` comes to an end without a fault. Each task that is
-- reached from `t` along the chain of owners in fewer than OS_MAX_TASKS steps then has at least the
-- current task's effective priority; a task that has changed is such a task, had a lower priority
-- before, and now has exactly the current task's; nothing else in the kernel changes, and the tables
-- stay consistent.
pub mutex_donate_priority-Donated :
    (t : ℕ) (k : Kernel)
    → Inv k
    → (l : Kernel) × (mutex_donate_priority (some t) k ≡ some l)
      × Donated os_max_tasks (effective k k.current_task) t k l
      × Inv l
unfolding mutex_donate_priority
mutex_donate_priority-Donated t k v =
    let (l, e, d) = donate-Donated os_max_tasks (effective k k.current_task) t k v in
    (l, e, d, Donated-Inv d v)

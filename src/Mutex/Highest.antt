-- ===== src/Mutex/Highest.antt =====
-- The two nested loops of `mutex_recompute_owner_priority`: the highest priority among a task's own
-- and those of the tasks that wait for a mutex it owns.
use ko_rtos.Base.{
  ℕ, zero, suc, ◌+◌, ◌≤◌, ◌<◌, ◌≡◌, refl, sym, ap, subst, ◌∙◌, ◌⊎◌, inl, inr, Option, some, ltb,
  if◌then◌else◌, arith,
}
use native.Mathlib.Decide.{ℕ_discrete, dec_lt}
use ko_rtos.Types.{Kernel, Tcb, Waitlist, WaitlistRef, mutex_list, ◌>>=◌}
use ko_rtos.Mutex.{highest_waiter, highest_owned}
use ko_rtos.Mutex.Ownership.{Lists}
use ko_rtos.Invariant.{Inv, on}

abbrev effective : Kernel → ℕ → ℕ
effective k u = (k.user_tasks u).effective_priority

-- The result `h'` of the inner loop, started with `h`.
record LeastOf (k : Kernel) (w : Waitlist) (n j h h' : ℕ) : Type 0 where
  le_start : h' ≤ h
  le_each : (i u : ℕ) → j ≤ i → i < j + n → w.task_waitlist i ≡ some u → h' ≤ effective k u
  reached :
      (h' ≡ h)
      ⊎ ((i : ℕ) × (u : ℕ) × (i < j + n) × (w.task_waitlist i ≡ some u) × (h' ≡ effective k u))

module _ (k : Kernel) (w : Waitlist) where
  abbrev lower : ℕ → ℕ → ℕ
  lower p h = if ltb p h then p else h

  LeastOf-step :
      (n j h h' t : ℕ)
      → w.task_waitlist j ≡ some t
      → LeastOf k w n (suc j) (lower (effective k t) h) h'
      → LeastOf k w (suc n) j h h'
  LeastOf-step n j h h' t e v = record {
    le_start = both.0;
    le_each = λ i u a b c. elim (ℕ_discrete i j) [
      | yes z ↦ subst (λ x. h' ≤ effective k x) (sym (same i u c z)) both.1
      | no z ↦ v.le_each i u (omega arith) (omega arith) c
    ];
    reached = elim v.reached [
      | inl z ↦ elim (dec_lt (effective k t) h) [
        | yes l ↦ inr (j, t, omega arith, e, ground arith)
        | no l ↦ inl (ground arith)
      ]
      | inr (i, u, a, b, c) ↦ inr (i, u, omega arith, b, c)
    ];
  }
    where
      both : (h' ≤ h) × (h' ≤ effective k t)
      both = let s = v.le_start in ground arith

      same : (i u : ℕ) → w.task_waitlist i ≡ some u → i ≡ j → u ≡ t
      same i u c z =
          let y : w.task_waitlist i ≡ w.task_waitlist j = ap w.task_waitlist z in ground arith

  highest_waiter-LeastOf :
      (n j h : ℕ)
      → ((i : ℕ) → i < j + n → (u : ℕ) × (w.task_waitlist i ≡ some u))
      → (h' : ℕ) × (highest_waiter n j w k h ≡ some h') × LeastOf k w n j h h'
  unfolding highest_waiter
  highest_waiter-LeastOf zero j h full = (
    h,
    refl,
    record {
      le_start = omega arith;
      le_each = λ i u a b e. absurd (omega arith);
      reached = inl refl;
    },
  )
  highest_waiter-LeastOf (suc n) j h full =
      let (t, e) = full j (omega arith) in
      let (h', q, v) =
        highest_waiter-LeastOf n (suc j) (lower (effective k t) h) (λ i l. full i (omega arith)) in
      (h', rw (e, ◌>>=◌) q, LeastOf-step n j h h' t e v)

-- The outer loop over the entries `[i, i + n)` of the table of task `b`.
record LeastOwned (k : Kernel) (b : Tcb) (n i h h' : ℕ) : Type 0 where
  le_start : h' ≤ h
  le_each :
      (x m u : ℕ)
      → i ≤ x
      → x < i + n
      → b.owned_mutexes x ≡ some m
      → on k.user_tasks u ≡ some (mutex_list m)
      → h' ≤ effective k u
  reached :
      (h' ≡ h)
      ⊎ ((x : ℕ) × (m : ℕ) × (u : ℕ) × (x < i + n)
          × (b.owned_mutexes x ≡ some m)
          × (on k.user_tasks u ≡ some (mutex_list m))
          × (h' ≡ effective k u))

module _ (k : Kernel) (b : Tcb) (v : Inv k) where
  -- The waiters of one mutex, by the entries of its list.
  waiters :
      (m h : ℕ)
      → (h' : ℕ) × (highest_waiter
            (k.waitlists (mutex_list m)).wait_count
            0
            (k.waitlists (mutex_list m))
            k
            h
          ≡ some h')
        × LeastOf k (k.waitlists (mutex_list m)) (k.waitlists (mutex_list m)).wait_count 0 h h'
  waiters m h =
      highest_waiter-LeastOf k (k.waitlists (mutex_list m)) _ 0 h
        λ i l. let (u, e, _) = (v.members (mutex_list m)).waits i (omega arith) in (u, e)

  LeastOwned-step :
      (n i h h₁ h' m : ℕ)
      → b.owned_mutexes i ≡ some m
      → LeastOf k (k.waitlists (mutex_list m)) (k.waitlists (mutex_list m)).wait_count 0 h h₁
      → LeastOwned k b n (suc i) h₁ h'
      → LeastOwned k b (suc n) i h h'
  LeastOwned-step n i h h₁ h' m e w o = record {
    le_start = omega (arith, w.le_start, o.le_start);
    le_each = λ x m' u a c d f. elim (ℕ_discrete x i) [
      | yes z ↦
          let y : b.owned_mutexes x ≡ b.owned_mutexes i = ap b.owned_mutexes z in
          let same : m' ≡ m = ground arith in
          let (j, l, g) =
            (v.members (mutex_list m)).listed u (f ∙ ap (λ q. some (mutex_list q)) same) in
          omega (arith, o.le_start, w.le_each j u (omega arith) (omega arith) g)
      | no z ↦ o.le_each x m' u (omega arith) (omega arith) d f
    ];
    reached = elim o.reached [
      | inl z ↦ elim w.reached [
        | inl y ↦ inl (z ∙ y)
        | inr (j, u, a, c, d) ↦ inr (i, m, u, omega arith, e, waiting j u a c, z ∙ d)
      ]
      | inr (x, m', u, a, c, d, f) ↦ inr (x, m', u, omega arith, c, d, f)
    ];
  }
    where
      waiting :
          (j u : ℕ)
          → j < 0 + (k.waitlists (mutex_list m)).wait_count
          → (k.waitlists (mutex_list m)).task_waitlist j ≡ some u
          → on k.user_tasks u ≡ some (mutex_list m)
      waiting j u a c =
          let (u', d, f) = (v.members (mutex_list m)).waits j (omega arith) in
          let same : u ≡ u' = ground arith in ap (on k.user_tasks) same ∙ f

  highest_owned-LeastOwned :
      (n i h : ℕ)
      → ((x : ℕ) → x < i + n → (m : ℕ) × (b.owned_mutexes x ≡ some m))
      → (h' : ℕ) × (highest_owned n i b k h ≡ some h') × LeastOwned k b n i h h'
  unfolding highest_owned
  highest_owned-LeastOwned zero i h full = (
    h,
    refl,
    record {
      le_start = omega arith;
      le_each = λ x m u a c d f. absurd (omega arith);
      reached = inl refl;
    },
  )
  highest_owned-LeastOwned (suc n) i h full =
      let (m, e) = full i (omega arith) in
      let (h₁, q, w) = waiters m h in
      let (h', p, o) = highest_owned-LeastOwned n (suc i) h₁ (λ x l. full x (omega arith)) in
      (h', rw (e, ◌>>=◌) (rw (q, ◌>>=◌) p), LeastOwned-step n i h h₁ h' m e w o)

-- `h` is the highest priority among task `t`'s own and those of the tasks that wait for a mutex
-- that it owns, where `own` gives each mutex's owner.
pub record Highest (own : ℕ → Option ℕ) (k : Kernel) (t h : ℕ) : Type 0 where
  pub le_base : h ≤ (k.user_tasks t).base_priority
  pub le_waiter :
      (m u : ℕ)
      → own m ≡ some t
      → (k.user_tasks u).blocked_waitlist ≡ some (mutex_list m)
      → h ≤ (k.user_tasks u).effective_priority
  pub attained :
      (h ≡ (k.user_tasks t).base_priority)
      ⊎ ((m : ℕ) × (u : ℕ) × (own m ≡ some t)
          × ((k.user_tasks u).blocked_waitlist ≡ some (mutex_list m))
          × (h ≡ (k.user_tasks u).effective_priority))

-- The loops find it, and meet neither a NULL mutex nor a NULL waiter.
pub highest_owned-Highest :
    (own : ℕ → Option ℕ) (k : Kernel) (t : ℕ)
    → Inv k
    → Lists own t (k.user_tasks t).owned_mutexes (k.user_tasks t).owned_mutex_count
    → let b = k.user_tasks t in
      (h : ℕ) × (highest_owned b.owned_mutex_count 0 b k b.base_priority ≡ some h)
      × Highest own k t h
highest_owned-Highest own k t v table =
    let b = k.user_tasks t in
    let (h, e, l) =
      highest_owned-LeastOwned k b v b.owned_mutex_count 0 b.base_priority
        (λ x q. let (m, a, _) = table.owned_by x (omega arith) in (m, a)) in
    (
      h,
      e,
      record {
        le_base = l.le_start;
        le_waiter = λ m u a c.
            let (x, q, d) = table.all m a in l.le_each x m u (omega arith) (omega arith) d c;
        attained = elim l.reached [
          | inl z ↦ inl z
          | inr (x, m, u, q, d, f, g) ↦
              let (m', d', a) = table.owned_by x (omega arith) in
              let same : m ≡ m' = ground arith in inr (m, u, ap own same ∙ a, f, g)
        ];
      },
    )

-- It stays the highest while the task's mutexes, the waits, and the priorities of the waiters stay.
pub Highest-frame :
    {own own' : ℕ → Option ℕ} {k l : Kernel} (t h : ℕ)
    → ((m : ℕ) → own' m ≡ some t → own m ≡ some t)
    → ((m : ℕ) → own m ≡ some t → own' m ≡ some t)
    → (l.user_tasks t).base_priority ≡ (k.user_tasks t).base_priority
    → ((u : ℕ) → on l.user_tasks u ≡ on k.user_tasks u)
    → ((u : ℕ) (r : WaitlistRef)
        → on k.user_tasks u ≡ some r
        → (l.user_tasks u).effective_priority ≡ (k.user_tasks u).effective_priority)
    → Highest own k t h
    → Highest own' l t h
Highest-frame t h back forth b w p v = record {
  le_base = omega (arith, v.le_base);
  le_waiter = λ m u a c.
      let c' = sym (w u) ∙ c in omega (arith, v.le_waiter m u (back m a) c', p u (mutex_list m) c');
  attained = elim v.attained [
    | inl e ↦ inl (e ∙ sym b)
    | inr (m, u, a, c, e) ↦ inr (m, u, forth m a, w u ∙ c, e ∙ sym (p u (mutex_list m) c))
  ];
}

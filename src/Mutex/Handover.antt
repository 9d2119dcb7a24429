-- ===== src/Mutex/Handover.antt =====
-- `os_mutex_unlock` with a waiter: the mutex goes to it, and both owners get the priority that
-- inheritance prescribes.
use ko_rtos.Base.{
  ℕ, ◌+◌, ◌≤◌, ◌<◌, ◌≡◌, refl, sym, ap, subst, ◌∙◌, ◌≢◌, ◌⊎◌, inl, inr, Option, none, some, true,
  false, ltb, Bool-cases, update, update_self, ltb_iff, arith,
}
use native.Mathlib.Decide.{dec_lt}
use ko_rtos.Types.{
  ref_eq, Kernel, Tcb, MutexState, unlocked, locked, mutex_list, priority, ok, current, set_task,
  os_max_mtx_per_task, u8, running, ready, blocked, ◌>>=◌,
}
use ko_rtos.Port.{port_yield, port_exit_critical}
use ko_rtos.Waitlist.{waiter_priority}
use ko_rtos.Waitlist.Choice.{HighestFirst}
use ko_rtos.Mutex.{
  waits_for_mutex, add_owned, set_mutex, set_effective, hand_over, os_mutex_unlock,
  mutex_recompute_owner_priority,
}
use ko_rtos.Mutex.Ownership.{owner_but}
use ko_rtos.Mutex.Chain.{Aside}
use ko_rtos.Mutex.Frame.{remove-Owns}
use ko_rtos.Mutex.Highest.{Highest, Highest-frame}
use ko_rtos.Mutex.Recompute.{
  HealthyBut, Healthy, set_effective-Healthy, mutex_recompute_owner_priority-Highest,
}
use ko_rtos.Mutex.Locking.{give-IsOwned, HasRoom}
use ko_rtos.Mutex.Unlocking.{released, at, before, unlock-hand_over}
use ko_rtos.Invariant.{on, write-IsConsistent}
use ko_rtos.Invariant.Blocking.{running-on}
use ko_rtos.Invariant.Unblocking.{Fits, Wakes, awake, awake-Inv, unblock_cases}

some-injective_lem : {a b : ℕ} → some a ≡ some b → a ≡ b
some-injective_lem e = ground arith

pub MutexState-cases : (s : MutexState) → (s ≡ unlocked) ⊎ (s ≡ locked)
MutexState-cases unlocked = inl refl
MutexState-cases locked = inr refl

abbrev effective : Kernel → ℕ → ℕ
effective k u = (k.user_tasks u).effective_priority

abbrev owners : Kernel → ℕ → Option ℕ
owners k m = (k.mutexes m).owner

-- The kernel with `m` in the table of task `t`, and `t` as its owner.
abbrev given : ℕ → ℕ → Kernel → Kernel
given m t k =
    let b = k.user_tasks t in
    set_mutex
      (set_task k t (record b {
        owned_mutexes = update b.owned_mutexes b.owned_mutex_count (some m);
        owned_mutex_count = u8 (b.owned_mutex_count + 1);
      }))
      m (record (k.mutexes m) { owner = some t })

-- Task `t`, which waited for `m`, now owns it.
pub record HandedOver (m t : ℕ) (k l : Kernel) : Type 0 where
  pub healthy : Healthy l
  pub owner : (l.mutexes m).owner ≡ some t
  pub still_locked : (l.mutexes m).state ≡ locked
  pub is_ready : (l.user_tasks t).current_state ≡ ready
  pub in_time : (l.user_tasks t).timeout ≡ false
  pub old_priority :
      Highest (owners l) l k.current_task (l.user_tasks k.current_task).effective_priority
  pub new_priority : Highest (owners l) l t (l.user_tasks t).effective_priority
  pub yields : l.pendsv ≡ true
  pub interrupts : l.primask ≡ k.primask

module _ (m : ℕ) (k : Kernel) (v : Healthy k) (o : (k.mutexes m).owner ≡ some k.current_task)
    (s : (current k).current_state ≡ running)
    (w : Wakes (mutex_list m) (released k (at m k v o))) where
  abbrev t : ℕ
  t = w.t

  abbrev k₁ : Kernel
  k₁ = awake (released k (at m k v o)) (mutex_list m) w.i w.t

  k₁-HealthyBut : HealthyBut (some m) k₁
  k₁-HealthyBut = record {
    inv = awake-Inv (mutex_list m) (released k (at m k v o)) (before m k v o).inv w;
    owns =
        remove-Owns (mutex_list m) w.i w.t _ (released k (at m k v o)) w.in_list refl refl
          (before m k v o).owns;
  }

  -- The waiter is not the caller, which runs.
  caller-ne : k.current_task ≢ t
  caller-ne e =
      let (u, a, b) = ((before m k v o).inv.members (mutex_list m)).waits w.i w.in_list in
      let c = ((before m k v o).inv.sound u).waiting (mutex_list m) b in
      let same : u ≡ t = some-injective_lem (sym a ∙ w.entry) in
      let runs : ((released k (at m k v o)).user_tasks t).current_state ≡ running =
        subst (λ x. ((released k (at m k v o)).user_tasks x).current_state ≡ running) e
          (ap (λ (b : Tcb). b.current_state) (update_self k.user_tasks k.current_task _) ∙ s) in
      let waits =
        subst (λ x. ((released k (at m k v o)).user_tasks x).current_state ≡ blocked) same c.0 in
      cc

  -- The caller does not wait for a mutex.
  caller-calm : waits_for_mutex (current k).block_reason ≡ false
  caller-calm = elim (Bool-cases (waits_for_mutex (current k).block_reason)) [
    | inl e ↦
        let (a, b) = (v.inv.sound k.current_task).mutex_wait (ground arith) in absurd (ground arith)
    | inr e ↦ e
  ]

  caller-calm₁ : waits_for_mutex (k₁.user_tasks k.current_task).block_reason ≡ false
  caller-calm₁ = ground (arith, caller-calm, caller-ne)

  -- After the first recomputation.
  first :
      (h : ℕ) × (mutex_recompute_owner_priority (some k.current_task) k₁
        ≡ some (set_effective k₁ k.current_task h))
      × Highest (owner_but (some m) k₁.mutexes) k₁ k.current_task h
  first =
      mutex_recompute_owner_priority-Highest (some m) k.current_task k₁ k₁-HealthyBut caller-calm₁

  abbrev k₂ : Kernel
  k₂ = set_effective k₁ k.current_task first.0

  k₂-HealthyBut : HealthyBut (some m) k₂
  k₂-HealthyBut =
      set_effective-Healthy (some m) k.current_task first.0 k₁ (first.2).le_base k₁-HealthyBut

  abbrev k₄ : Kernel
  k₄ = given m t k₂

  m-locked : (k.mutexes m).state ≡ locked
  m-locked = elim (MutexState-cases (k.mutexes m).state) [
    | inl e ↦ let (a, _) = v.owns.free m (λ q. cc) e in absurd (ground arith)
    | inr e ↦ e
  ]

  module _ (room : HasRoom t k) where
    room₂ : HasRoom t k₂
    room₂ = ground (arith, caller-ne)

    k₄-Healthy : Healthy k₄
    k₄-Healthy = record {
      inv =
          write-IsConsistent t _ refl
            (record {
              waiting = (k₂-HealthyBut.inv.sound t).waiting;
              reason = (k₂-HealthyBut.inv.sound t).reason;
              mutex_wait = (k₂-HealthyBut.inv.sound t).mutex_wait;
              one_running = (k₂-HealthyBut.inv.sound t).one_running;
              in_range = (k₂-HealthyBut.inv.sound t).in_range;
            })
            k₂-HealthyBut.inv;
      owns =
          give-IsOwned t m k₂ _ _ refl m-locked (inr refl) (ground arith) refl refl room₂
            k₂-HealthyBut.owns;
    }

    waiter-calm : waits_for_mutex (k₄.user_tasks t).block_reason ≡ false
    waiter-calm = ground (arith, caller-ne)

    second :
        (h : ℕ) × (mutex_recompute_owner_priority (some t) k₄ ≡ some (set_effective k₄ t h))
        × Highest (owner_but none k₄.mutexes) k₄ t h
    second = mutex_recompute_owner_priority-Highest none t k₄ k₄-Healthy waiter-calm

    abbrev last : Kernel
    last = port_exit_critical k.primask (port_yield (set_effective k₄ t second.0))

    add_owned-given :
        add_owned t m k₂
        ≡ some (
            set_task k₂ t (record (k₂.user_tasks t) {
              owned_mutexes =
                  update
                    (k₂.user_tasks t).owned_mutexes
                    (k₂.user_tasks t).owned_mutex_count
                    (some m);
              owned_mutex_count = u8 ((k₂.user_tasks t).owned_mutex_count + 1);
            }))
    unfolding add_owned
    add_owned-given =
        let fits : ltb (k₂.user_tasks t).owned_mutex_count os_max_mtx_per_task ≡ true =
          let r : (k₂.user_tasks t).owned_mutex_count < os_max_mtx_per_task = room₂ in
          (ltb_iff _ _).1 r in
        rw fits

    unlock-last : os_mutex_unlock (some m) k ≡ some (ok, last)
    unfolding hand_over
    unlock-last =
        unlock-hand_over m k v o (some t, k₁) w.result
        ∙ rw (o, first.1, ◌>>=◌) (rw (add_owned-given, ◌>>=◌) (rw (second.1, ◌>>=◌)))

    -- A task on a list is neither of the two owners.
    caller-off : on k₁.user_tasks k.current_task ≡ none
    caller-off = let n = running-on k.current_task s v.inv in ground (arith, caller-ne)

    waiter-off : on k₁.user_tasks t ≡ none
    waiter-off = ground (arith, caller-ne)

    old-Highest : Highest (owners last) last k.current_task (effective last k.current_task)
    old-Highest =
        let same : effective last k.current_task ≡ first.0 = ground (arith, caller-ne) in
        rw same (
          Highest-frame {own = owner_but (some m) k₁.mutexes} {k = k₁} k.current_task first.0
            (λ x q. ground (arith, caller-ne)) (λ x q. ground (arith, caller-ne))
            (ground (arith, caller-ne)) (λ u. ground (arith, caller-ne))
            (λ u r q. ground (arith, caller-off, waiter-off, caller-ne)) first.2)

    new-Highest : Highest (owners last) last t (effective last t)
    new-Highest =
        let same : effective last t ≡ second.0 = ground (arith, caller-ne) in
        rw same (
          Highest-frame {own = owner_but none k₄.mutexes} {k = k₄} t second.0 (λ x q. q) (λ x q. q)
            (ground arith) (λ u. ground arith) (λ u r q. ground (arith, waiter-off, caller-ne))
            second.2)

    handed_over : HandedOver m t k last
    handed_over = record {
      healthy = record { inv = settled.inv; owns = settled.owns };
      owner = ground arith;
      still_locked = m-locked_after;
      is_ready = ground (arith, caller-ne);
      in_time = ground (arith, caller-ne);
      old_priority = old-Highest;
      new_priority = new-Highest;
      yields = refl;
      interrupts = refl;
    }
      where
        settled : Healthy (set_effective k₄ t second.0)
        settled = set_effective-Healthy none t second.0 k₄ (second.2).le_base k₄-Healthy

        m-locked_after : (last.mutexes m).state ≡ locked
        m-locked_after = let q : (k.mutexes m).state ≡ locked = m-locked in ground arith

  -- Without room in the waiter's table the call writes outside it.
  unlock-overflow : ¬ HasRoom t k → os_mutex_unlock (some m) k ≡ none
  unfolding hand_over add_owned
  unlock-overflow full =
      let n : (k₂.user_tasks t).owned_mutex_count ≡ (k.user_tasks t).owned_mutex_count =
        ground (arith, caller-ne) in
      let no_room : ltb (k₂.user_tasks t).owned_mutex_count os_max_mtx_per_task ≡ false =
        ground arith in
      unlock-hand_over m k v o (some t, k₁) w.result ∙ rw (o, first.1, ◌>>=◌) (rw (no_room, ◌>>=◌))

  -- The call writes outside the waiter's table, or comes to a result with healthy tables.
  pub unlock_outcome :
      (os_mutex_unlock (some m) k ≡ none)
      ⊎ ((l : Kernel) × (os_mutex_unlock (some m) k ≡ some (ok, l)) × Healthy l × Aside k l)
  unfolding ref_eq
  unlock_outcome = elim (dec_lt (k.user_tasks t).owned_mutex_count os_max_mtx_per_task) [
    | yes r ↦ inr (
      last r,
      unlock-last r,
      (handed_over r).healthy,
      record { semaphores = refl; lists = λ x. refl },
    )
    | no r ↦ inl (unlock-overflow r)
  ]

  -- The waiter that is chosen has the highest priority.
  chosen-highest :
      (k.waitlists (mutex_list m)).schedule_policy ≡ priority
      → (on k.user_tasks t ≡ some (mutex_list m))
        × ((u : ℕ) → on k.user_tasks u ≡ some (mutex_list m) → effective k t ≤ effective k u)
  chosen-highest p =
      let f : HighestFirst (released k (at m k v o)) (k.waitlists (mutex_list m)) w.i =
        subst (λ x. Fits (released k (at m k v o)) (k.waitlists (mutex_list m)) x w.i) p w.fits in
      let (x, a, b) = (v.inv.members (mutex_list m)).waits w.i w.in_list in
      let same : x ≡ t = some-injective_lem (sym a ∙ w.entry) in
      (
        subst (λ y. on k.user_tasks y ≡ some (mutex_list m)) same b,
        λ u q.
            let (j, l, c) = (v.inv.members (mutex_list m)).listed u q in
            let e =
              f.least j ((released k (at m k v o)).user_tasks u).effective_priority l
                (rw (c, waiter_priority)) in
            let g = f.has_prio in
            let h : waiter_priority (released k (at m k v o)) (k.waitlists (mutex_list m)) w.i
                ≡ some ((released k (at m k v o)).user_tasks t).effective_priority =
              rw (w.entry, waiter_priority) in
            let p_t : effective k t ≡ ((released k (at m k v o)).user_tasks t).effective_priority =
              ground (arith) in
            let p_u : effective k u ≡ ((released k (at m k v o)).user_tasks u).effective_priority =
              ground (arith) in
            let z : f.prio ≡ ((released k (at m k v o)).user_tasks t).effective_priority =
              some-injective_lem (sym g ∙ h) in
            omega (arith, e, z, p_t, p_u),
      )

-- On healthy tables, for a caller that runs and owns the mutex, whose waitlist has the PRIORITY policy
-- and a waiter, and with room in the tables of the waiters, the call returns OS_OK and hands the mutex
-- to a waiter of the highest priority: it is ready, it owns the locked mutex, the tables are healthy,
-- and the effective priorities of the old and of the new owner are the highest among their own and
-- those of the tasks that wait for a mutex that they own.
pub os_mutex_unlock-HandedOver :
    (m : ℕ) (k : Kernel)
    → Healthy k
    → (k.mutexes m).owner ≡ some k.current_task
    → (current k).current_state ≡ running
    → (k.waitlists (mutex_list m)).schedule_policy ≡ priority
    → 0 < (k.waitlists (mutex_list m)).wait_count
    → ((u : ℕ) → on k.user_tasks u ≡ some (mutex_list m) → HasRoom u k)
    → (t : ℕ) × (l : Kernel) × (os_mutex_unlock (some m) k ≡ some (ok, l))
      × HandedOver m t k l
      × (on k.user_tasks t ≡ some (mutex_list m))
      × ((u : ℕ) → on k.user_tasks u ≡ some (mutex_list m) → effective k t ≤ effective k u)
os_mutex_unlock-HandedOver m k v o s p n room =
    elim (unblock_cases (mutex_list m) (released k (at m k v o)) (before m k v o).inv) [
      | inl (e, _) ↦ absurd (omega arith)
      | inr w ↦
          let (a, b) = chosen-highest m k v o s w p in
          let r = room w.t a in
          (w.t, last m k v o s w r, unlock-last m k v o s w r, handed_over m k v o s w r, a, b)
    ]

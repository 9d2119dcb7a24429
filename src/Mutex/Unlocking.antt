-- ===== src/Mutex/Unlocking.antt =====
-- `os_mutex_unlock` on healthy tables.
use ko_rtos.Base.{
  ℕ, zero, suc, ◌+◌, ◌-◌, ◌^◌, ◌≤◌, ◌<◌, ◌≡◌, refl, sym, ap, ◌∙◌, ◌≢◌, Option, none, some, true,
  false, update, arith,
}
use native.Mathlib.Decide.{ℕ_discrete}
use ko_rtos.Types.{
  Kernel, Tcb, unlocked, mutex_list, ok, mtx_not_owner, current, set_task, u8, ◌>>=◌,
}
use ko_rtos.Port.{port_exit_critical}
use ko_rtos.Waitlist.{waitlist_unblock}
use ko_rtos.Mutex.{drop_owned, set_mutex, is_task, hand_over, os_mutex_unlock}
use ko_rtos.Mutex.Ownership.{Lists, without, Lists-drop, Lists-other, owner_but, IsOwned, OwnsBut}
use ko_rtos.Mutex.Recompute.{HealthyBut, Healthy}
use ko_rtos.Invariant.{update_ind, write-IsConsistent}

-- The table without its entry `i`.
abbrev pub dropped : Tcb → ℕ → Tcb
dropped b i = record b {
  owned_mutexes = without b.owned_mutexes b.owned_mutex_count i;
  owned_mutex_count = u8 (b.owned_mutex_count + 2 ^ 8 - 1);
}

-- The loop takes out the first entry that is `m`.
drop_owned-dropped :
    (m n i : ℕ) (b : Tcb) (j : ℕ)
    → i ≤ j
    → j < i + n
    → b.owned_mutexes j ≡ some m
    → ((x : ℕ) → i ≤ x → x < j → b.owned_mutexes x ≢ some m)
    → drop_owned m n i b ≡ dropped b j
unfolding drop_owned
drop_owned-dropped m zero i b j h l e f = absurd (omega arith)
drop_owned-dropped m (suc n) i b j h l e f = elim (ℕ_discrete i j) [
  | yes q ↦
      let hit : is_task (b.owned_mutexes i) m ≡ true = rw (q, e) (ground arith) in rw hit (rw q)
  | no q ↦
      let miss : is_task (b.owned_mutexes i) m ≡ false =
        not_m (b.owned_mutexes i) (f i (omega arith) (omega arith)) in
      rw miss (
        drop_owned-dropped m n (suc i) b j (omega arith) (omega arith) e
          (λ x a c. f x (omega arith) c))
]
  where
    not_m : (o : Option ℕ) → o ≢ some m → is_task o m ≡ false
    not_m none h = refl
    not_m (some s) h = ground (arith, h)

-- Somebody else's mutex, or nobody's, is refused, and nothing changes.
pub os_mutex_unlock-not_owner :
    (m : ℕ) (k : Kernel)
    → (k.mutexes m).owner ≢ some k.current_task
    → os_mutex_unlock (some m) k ≡ some (mtx_not_owner, k)
unfolding os_mutex_unlock
os_mutex_unlock-not_owner m k h =
    let no_owner : is_task (k.mutexes m).owner k.current_task ≡ false =
      not_t (k.mutexes m).owner h in
    rw no_owner
  where
    not_t : (o : Option ℕ) → o ≢ some k.current_task → is_task o k.current_task ≡ false
    not_t none h = refl
    not_t (some s) h = ground arith

-- The kernel inside the critical section, the mutex taken from the current task's table.
abbrev pub released : Kernel → ℕ → Kernel
released k i = set_task (record k { primask = 1 }) k.current_task (dropped (current k) i)

module _ (m : ℕ) (k : Kernel) (v : Healthy k) (o : (k.mutexes m).owner ≡ some k.current_task) where
  -- The place of `m` in the table.
  abbrev pub place :
      (i : ℕ) × (i < (current k).owned_mutex_count) × ((current k).owned_mutexes i ≡ some m)
  place = (v.owns.tables k.current_task).all m o

  drop_owned-released :
      drop_owned m (current k).owned_mutex_count 0 (current k) ≡ dropped (current k) place.0
  drop_owned-released =
      drop_owned-dropped m _ 0 (current k) place.0 (omega arith) (omega (arith, place.1)) place.2
        first
    where
      first : (x : ℕ) → 0 ≤ x → x < place.0 → (current k).owned_mutexes x ≢ some m
      first x a b e = omega (
        arith,
        (v.owns.tables k.current_task).once x place.0 m (omega (arith, place.1)) place.1 e place.2,
      )

  pub released-HealthyBut : HealthyBut (some m) (released k place.0)
  released-HealthyBut = record {
    inv =
        write-IsConsistent k.current_task _ refl
          (record {
            waiting = (v.inv.sound k.current_task).waiting;
            reason = (v.inv.sound k.current_task).reason;
            mutex_wait = (v.inv.sound k.current_task).mutex_wait;
            one_running = (v.inv.sound k.current_task).one_running;
            in_range = (v.inv.sound k.current_task).in_range;
          })
          v.inv;
    owns = record {
      tables =
          update_ind (λ u (c : Tcb). Lists own' u c.owned_mutexes c.owned_mutex_count) k.user_tasks
            k.current_task _
            (Lists-drop k.current_task m place.0 place.1 place.2 at_m elsewhere
              (v.owns.tables k.current_task))
            (λ u n.
              Lists-other u m (λ q. n (ground arith)) (λ q. ground (arith, at_m)) elsewhere
                (v.owns.tables u));
      free = λ x n q. v.owns.free x (λ z. cc) q;
      held = λ x n q. v.owns.held x (λ z. cc) q;
    };
  }
    where
      own' : ℕ → Option ℕ
      own' = owner_but (some m) k.mutexes

      at_m : own' m ≡ none
      at_m = ground arith

      elsewhere : (x : ℕ) → x ≢ m → own' x ≡ owner_but none k.mutexes x
      elsewhere x n = ground arith

-- The mutex is left without an owner.
abbrev pub freed : ℕ → ℕ → Kernel → Kernel
freed m i k =
    port_exit_critical k.primask
      (set_mutex (released k i) m (record { owner = none; state = unlocked }))

pub free-IsOwned :
    (m : ℕ) (k : Kernel)
    → (k.waitlists (mutex_list m)).wait_count ≡ 0
    → OwnsBut (some m) k
    → IsOwned none k.user_tasks
        (update k.mutexes m (record { owner = none; state = unlocked }))
        k.waitlists
free-IsOwned m k e v = record {
  tables = λ u.
      Lists-other u m (λ q. ground arith) (λ q. ground arith) (λ x n. ground arith) (v.tables u);
  free = λ x n q. elim (ℕ_discrete m x) [
    | yes y ↦ (ground arith, ap (λ z. (k.waitlists (mutex_list z)).wait_count) (sym y) ∙ e)
    | no y ↦ ground (arith, v.free x (λ z. y (ground arith)) (ground arith))
  ];
  held = λ x n q. elim (ℕ_discrete m x) [
    | yes y ↦ absurd (ground arith)
    | no y ↦ let (s, a) = v.held x (λ z. y (ground arith)) (ground arith) in (s, ground arith)
  ];
}

module _ (m : ℕ) (k : Kernel) (v : Healthy k) (o : (k.mutexes m).owner ≡ some k.current_task) where
  abbrev pub at : ℕ
  at = (place m k v o).0

  abbrev pub before : HealthyBut (some m) (released k at)
  before = released-HealthyBut m k v o

  -- What the call does, from the outcome of `waitlist_unblock` on.
  pub unlock-hand_over :
      (u : Option ℕ × Kernel)
      → waitlist_unblock (mutex_list m) (released k at) ≡ some u
      → os_mutex_unlock (some m) k ≡ hand_over m k.primask u
  unfolding os_mutex_unlock
  unlock-hand_over u e =
      let mine : is_task (k.mutexes m).owner k.current_task ≡ true = rw o (ground arith) in
      rw mine (rw (drop_owned-released m k v o) (rw (e, ◌>>=◌)))

  -- On healthy tables, the owner's call on a mutex without a waiter returns OS_OK and leaves the mutex
  -- unlocked; the caller's table loses it, nothing else differs, and the tables stay healthy.
  pub os_mutex_unlock-freed :
      (k.waitlists (mutex_list m)).wait_count ≡ 0
      → (os_mutex_unlock (some m) k ≡ some (ok, freed m at k)) × Healthy (freed m at k)
  unfolding hand_over waitlist_unblock
  os_mutex_unlock-freed e = (
    unlock-hand_over (none, released k at) (ground arith),
    record { inv = before.inv; owns = free-IsOwned m (released k at) e before.owns },
  )

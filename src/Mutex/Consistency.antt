-- ===== src/Mutex/Consistency.antt =====
-- The operations on mutexes, started on healthy tables.
use ko_rtos.Base.{
  leb, ℕ, ◌≡◌, ◌≢◌, refl, subst, ap, ◌∙◌, ◌⊎◌, inl, inr, Option, none, some, ◌==◌, false, true,
  Bool-cases, if◌then◌else◌, arith,
}
use native.Mathlib.Decide.{ℕ_discrete, dec_lt}
use ko_rtos.Types.{
  os_max_tasks, ref_eq, Kernel, unlocked, locked, priority, mutex_list, on_mutex, ok, unavailable,
  Reply, returned, suspended, current, running, ◌>>=◌, os_max_mtx_per_task,
}
use ko_rtos.Waitlist.{waitlist_init, waitlist_block_current}
use ko_rtos.Mutex.{
  lock_blocked, add_owned, os_mutex_create, os_mutex_lock, os_mutex_lock_resume, os_mutex_unlock,
  is_task,
}
use ko_rtos.Mutex.Ownership.{Lists-other, Owns, OwnsBut}
use ko_rtos.Mutex.Frame.{list-IsOwned, waitlist_block_current-Owns}
use ko_rtos.Mutex.Chain.{SameBut-Owns, Aside, SameBut-Aside, Aside-trans}
use ko_rtos.Mutex.Donation.{mutex_donate_priority-Donated}
use ko_rtos.Mutex.Recompute.{Healthy, mutex_recompute_owner_priority-Settled}
use ko_rtos.Mutex.Locking.{
  taken, os_mutex_lock-unlocked, os_mutex_lock-recursive, os_mutex_lock-no_wait,
}
use ko_rtos.Mutex.Unlocking.{
  free-IsOwned, freed, at, before, released, os_mutex_unlock-not_owner, os_mutex_unlock-freed,
}
use ko_rtos.Mutex.Handover.{MutexState-cases, unlock_outcome}
use ko_rtos.Invariant.Blocking.{waitlist_block_current-Inv}
use ko_rtos.Invariant.Creating.{init-IsConsistent}
use ko_rtos.Invariant.Unblocking.{unblock_cases}
use ko_rtos.Queue.Consistency.{MayBlock}

-- A call faults, or comes to a result with healthy tables and the semaphores as they were.
abbrev pub Safe : {R : Type 0} → Kernel → Option (R × Kernel) → Type 0
Safe {R} k o =
    (o ≡ none) ⊎ ((reply : R) × (l : Kernel) × (o ≡ some (reply, l)) × Healthy l × Aside k l)

unchanged : {k : Kernel} → Aside k k
unchanged = record { semaphores = refl; lists = λ s. refl }

-- Nobody owns `m`.
unowned : (m : ℕ) (k : Kernel) → (k.mutexes m).owner ≡ none → Owns k → OwnsBut (some m) k
unowned m k e v = record {
  tables = λ u.
      Lists-other u m (λ q. ground arith) (λ q. ground arith) (λ x n. ground arith) (v.tables u);
  free = λ x n q. v.free x (λ z. cc) q;
  held = λ x n q. v.held x (λ z. cc) q;
}

-- The creation of a mutex that is unlocked, as one in zeroed memory is, keeps the tables healthy.
pub os_mutex_create-Healthy :
    (m : ℕ) (k : Kernel)
    → (k.mutexes m).state ≡ unlocked
    → Healthy k
    → Healthy (os_mutex_create (some m) k).1
unfolding os_mutex_create waitlist_init
os_mutex_create-Healthy m k e v =
    let (owner, nobody) = v.owns.free m (λ q. cc) e in
    record {
      inv = init-IsConsistent (mutex_list m) priority nobody refl v.inv;
      owns =
          list-IsOwned (mutex_list m) _ (λ x n q f z. refl)
            (free-IsOwned m k nobody (unowned m k owner v.owns));
    }

block-Aside :
    (m timeout prev : ℕ) (k : Kernel)
    → Aside k (waitlist_block_current (mutex_list m) timeout on_mutex prev k).1
unfolding waitlist_block_current ref_eq
block-Aside m timeout prev k =
    elim (Bool-cases (leb os_max_tasks (k.waitlists (mutex_list m)).wait_count)) [
      | inl q ↦ rw q (record { semaphores = refl; lists = λ s. refl })
      | inr q ↦ rw q (record { semaphores = refl; lists = λ s. refl })
    ]

lock_blocked-Safe :
    (m : ℕ) (l : Kernel) (x : Reply × Kernel)
    → Aside l x.1
    → Healthy x.1
    → Safe l (lock_blocked m x)
lock_blocked-Safe m l (suspended, k) a v = inr (suspended, k, refl, v, a)
lock_blocked-Safe m l (returned e, k) a v =
    let s = mutex_recompute_owner_priority-Settled none (k.mutexes m).owner k v in
    inr (
      returned e,
      s.to,
      rw (s.result, ◌>>=◌),
      s.healthy,
      Aside-trans l k s.to a (SameBut-Aside k s.to s.rest),
    )

module _ (m timeout t : ℕ) (k : Kernel) (e : (k.mutexes m).state ≡ locked)
    (o : (k.mutexes m).owner ≡ some t) (n : t ≢ k.current_task) (z : timeout ≢ 0)
    (c : k.current_task ≢ 0) (s : (current k).current_state ≡ running) (v : Healthy k) where
  os_mutex_lock-waits : Safe k (os_mutex_lock (some m) timeout k)
  unfolding os_mutex_lock
  os_mutex_lock-waits =
      let k' : Kernel = record k { primask = 1 } in
      let (l, q, d, i) = mutex_donate_priority-Donated t k' v.inv in
      let cur : l.current_task ≡ k.current_task = ap (λ (x : Kernel). x.current_task) d.rest in
      let mtxs : l.mutexes ≡ k.mutexes = ap (λ (x : Kernel). x.mutexes) d.rest in
      let s' : (current l).current_state ≡ running =
        ap (λ (x : Kernel). (current x).current_state) d.rest ∙ s in
      let a = SameBut-Aside k' l d.rest in
      let not_own : (t == k.current_task) ≡ false = ground arith in
      let wants : (timeout == 0) ≡ false = ground arith in
      rw (e, o)
        (rw (not_own, wants, q, ◌>>=◌)
          (lock_blocked-Safe m k
            (waitlist_block_current (mutex_list m) timeout on_mutex k.primask l)
            (Aside-trans k l _ (record { semaphores = a.semaphores; lists = a.lists })
              (block-Aside m timeout k.primask l))
            (record {
              inv =
                  waitlist_block_current-Inv (mutex_list m) timeout on_mutex k.primask l (rw cur c)
                    refl s' i;
              owns =
                  waitlist_block_current-Owns (mutex_list m) timeout on_mutex k.primask l
                    (λ x p. still_locked l mtxs x p) (SameBut-Owns d.rest v.owns);
            })))
    where
      still_locked :
          (l : Kernel)
          → l.mutexes ≡ k.mutexes
          → (x : ℕ) → mutex_list m ≡ mutex_list x
          → (l.mutexes x).state ≡ locked
      still_locked l q x p =
          let same : m ≡ x = cc in
          subst (λ y. (l.mutexes y).state ≡ locked) same (ap (λ f. (f m).state) q ∙ e)

-- A call of `os_mutex_lock` that may block its caller faults, or leaves healthy tables: it takes the
-- mutex, is refused, or waits.
pub os_mutex_lock-Safe :
    (m : Option ℕ) (timeout : ℕ) (k : Kernel)
    → MayBlock timeout k
    → Healthy k
    → Safe k (os_mutex_lock m timeout k)
unfolding os_mutex_lock add_owned
os_mutex_lock-Safe none timeout k b v = inr (_, _, refl, v, unchanged)
os_mutex_lock-Safe (some m) timeout k b v = elim (MutexState-cases (k.mutexes m).state) [
  | inl e ↦ elim (dec_lt (current k).owned_mutex_count os_max_mtx_per_task) [
    | yes room ↦
        let (q, w) = os_mutex_lock-unlocked m timeout k e room v in
        inr (returned ok, taken m k, q, w, record { semaphores = refl; lists = λ x. refl })
    | no full ↦ inl (ground arith)
  ]
  | inr e ↦
      let (t, o) = v.owns.held m (λ q. cc) e in
      elim (ℕ_discrete t k.current_task) [
        | yes own ↦
            inr (_, _, os_mutex_lock-recursive m timeout k e (o ∙ ap some own), v, unchanged)
        | no n ↦ elim (ℕ_discrete timeout 0) [
          | yes z ↦ inr (_, _, os_mutex_lock-no_wait m timeout t k e o n v z, v, unchanged)
          | no z ↦ os_mutex_lock-waits m timeout t k e o n z (b z).0 (b z).1 v
        ]
      ]
]

pub os_mutex_lock_resume-Safe : (m : ℕ) (k : Kernel) → Healthy k → Safe k (os_mutex_lock_resume m k)
unfolding os_mutex_lock_resume
os_mutex_lock_resume-Safe m k v =
    let s = mutex_recompute_owner_priority-Settled none (k.mutexes m).owner k v in
    inr (
      if (current s.to).timeout then unavailable else ok,
      s.to,
      rw (s.result, ◌>>=◌),
      s.healthy,
      SameBut-Aside k s.to s.rest,
    )

-- A call of `os_mutex_unlock` by a running task faults, or leaves healthy tables: it is refused, frees
-- the mutex, or hands it to a waiter.
pub os_mutex_unlock-Safe :
    (m : Option ℕ) (k : Kernel)
    → (current k).current_state ≡ running
    → Healthy k
    → Safe k (os_mutex_unlock m k)
unfolding os_mutex_unlock
os_mutex_unlock-Safe none k s v = inr (_, _, refl, v, unchanged)
os_mutex_unlock-Safe (some m) k s v =
    elim (Bool-cases (is_task (k.mutexes m).owner k.current_task)) [
      | inl q ↦ owned (mine (k.mutexes m).owner q)
      | inr q ↦ inr (_, _, os_mutex_unlock-not_owner m k (λ o. ground arith), v, unchanged)
    ]
  where
    mine : (o : Option ℕ) → is_task o k.current_task ≡ true → o ≡ some k.current_task
    mine none q = cc
    mine (some t) q = ground arith

    owned : (k.mutexes m).owner ≡ some k.current_task → Safe k (os_mutex_unlock (some m) k)
    owned o = elim (unblock_cases (mutex_list m) (released k (at m k v o)) (before m k v o).inv) [
      | inl (e, _) ↦
          let (q, w) = os_mutex_unlock-freed m k v o e in
          inr (ok, freed m (at m k v o) k, q, w, record { semaphores = refl; lists = λ x. refl })
      | inr w ↦ elim (unlock_outcome m k v o s w) [
        | inl e ↦ inl e
        | inr (l, e, h, a) ↦ inr (ok, l, e, h, a)
      ]
    ]

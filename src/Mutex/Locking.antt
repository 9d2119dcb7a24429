-- ===== src/Mutex/Locking.antt =====
-- `os_mutex_lock` on healthy tables.
use ko_rtos.Base.{
  ℕ, ◌+◌, ◌≤◌, ◌<◌, ◌≡◌, refl, ap, subst, ◌∙◌, ◌≢◌, ◌⊎◌, inl, inr, Option, none, some, false, ◌==◌,
  update, arith,
}
use native.Mathlib.Decide.{ℕ_discrete}
use ko_rtos.Types.{
  Kernel, Tcb, Mutex, unlocked, locked, mutex_list, on_mutex, Reply, returned, suspended, ok,
  unavailable, mtx_recursive_lock, current, set_task, os_max_tasks, os_max_mtx_per_task, u8,
  running, ◌>>=◌,
}
use ko_rtos.Waitlist.{waitlist_block_current}
use ko_rtos.Waitlist.Block.{waitlist_block_current-Blocks}
use ko_rtos.Mutex.{add_owned, set_mutex, lock_blocked, os_mutex_lock}
use ko_rtos.Mutex.Ownership.{Lists, Lists-add, Lists-other, owner_but, IsOwned, OwnsBut}
use ko_rtos.Mutex.Frame.{waitlist_block_current-Owns}
use ko_rtos.Mutex.Chain.{SameBut-Owns}
use ko_rtos.Mutex.Donation.{effective, here, mutex_donate_priority-Donated}
use ko_rtos.Mutex.Recompute.{Healthy}
use ko_rtos.Invariant.{IsSound, on, update_ind, write-IsConsistent}
use ko_rtos.Invariant.Blocking.{waitlist_block_current-Inv}

-- A mutex that nobody holds goes to task `t`.
pub give-IsOwned :
    {hole : Option ℕ} (t m : ℕ) (k : Kernel) (b : Tcb) (x : Mutex)
    → x.owner ≡ some t
    → x.state ≡ locked
    → (hole ≡ none) ⊎ (hole ≡ some m)
    → owner_but hole k.mutexes m ≡ none
    → b.owned_mutexes
      ≡ update (k.user_tasks t).owned_mutexes (k.user_tasks t).owned_mutex_count (some m)
    → b.owned_mutex_count ≡ u8 ((k.user_tasks t).owned_mutex_count + 1)
    → (k.user_tasks t).owned_mutex_count < os_max_mtx_per_task
    → OwnsBut hole k
    → IsOwned none (update k.user_tasks t b) (update k.mutexes m x) k.waitlists
give-IsOwned {hole} t m k b x xo xs h z e f room v = record {
  tables =
      update_ind (λ u (c : Tcb). Lists own' u c.owned_mutexes c.owned_mutex_count) k.user_tasks t b
        (rw (e, f) (Lists-add t m z at_m elsewhere room (v.tables t)))
        (λ u n. Lists-other u m (λ q. cc) (λ q. n (ground (arith, at_m))) elsewhere (v.tables u));
  free = λ y n q. elim (ℕ_discrete m y) [
    | yes c ↦ absurd (ground arith)
    | no c ↦ ground (arith, v.free y (other y c) (ground arith))
  ];
  held = λ y n q. elim (ℕ_discrete m y) [
    | yes c ↦ (t, ground arith)
    | no c ↦ let (s, a) = v.held y (other y c) (ground arith) in (s, ground arith)
  ];
}
  where
    own' : ℕ → Option ℕ
    own' = owner_but none (update k.mutexes m x)

    at_m : own' m ≡ some t
    at_m = ground arith

    other : (y : ℕ) → m ≢ y → hole ≢ some y
    other y c q = ground arith

    elsewhere : (y : ℕ) → y ≢ m → own' y ≡ owner_but hole k.mutexes y
    elsewhere y n = elim h [ inl q ↦ ground arith | inr q ↦ ground arith ]

-- `owned_mutexes` has room for one more.
abbrev pub HasRoom : ℕ → Kernel → Type 0
HasRoom t k = (k.user_tasks t).owned_mutex_count < os_max_mtx_per_task

-- The kernel after the current task has taken `m`.
abbrev pub taken : ℕ → Kernel → Kernel
taken m k =
    let b = current k in
    set_mutex
      (set_task k k.current_task (record b {
        owned_mutexes = update b.owned_mutexes b.owned_mutex_count (some m);
        owned_mutex_count = u8 (b.owned_mutex_count + 1);
      }))
      m (record { owner = some k.current_task; state = locked })

-- A write of the block of a task that leaves what the tables' consistency rests on.
table-IsSound :
    {count cur : ℕ} (t : ℕ) (b c : Tcb)
    → c ≡ record b { owned_mutexes = c.owned_mutexes; owned_mutex_count = c.owned_mutex_count }
    → IsSound count cur t b
    → IsSound count cur t c
table-IsSound t b c e s = rw e (record {
  waiting = s.waiting;
  reason = s.reason;
  mutex_wait = s.mutex_wait;
  one_running = s.one_running;
  in_range = s.in_range;
})

taken-Healthy :
    (m : ℕ) (k : Kernel)
    → (k.mutexes m).state ≡ unlocked
    → HasRoom k.current_task k
    → Healthy k
    → Healthy (taken m k)
taken-Healthy m k e room v = record {
  inv =
      write-IsConsistent k.current_task _ refl
        (table-IsSound k.current_task (current k) _ refl (v.inv.sound k.current_task)) v.inv;
  owns =
      give-IsOwned k.current_task m k _ _ refl refl (inl refl) (v.owns.free m (λ q. cc) e).0 refl
        refl room v.owns;
}

-- On healthy tables, where the mutex is unlocked and the caller's table has room, the current task
-- becomes the owner; nothing but its table and the mutex differs, and the tables stay healthy.
pub os_mutex_lock-unlocked :
    (m timeout : ℕ) (k : Kernel)
    → (k.mutexes m).state ≡ unlocked
    → HasRoom k.current_task k
    → Healthy k
    → (os_mutex_lock (some m) timeout k ≡ some (returned ok, taken m k)) × Healthy (taken m k)
unfolding os_mutex_lock add_owned
os_mutex_lock-unlocked m timeout k e room v = (ground arith, taken-Healthy m k e room v)

-- The owner is refused.
pub os_mutex_lock-recursive :
    (m timeout : ℕ) (k : Kernel)
    → (k.mutexes m).state ≡ locked
    → (k.mutexes m).owner ≡ some k.current_task
    → os_mutex_lock (some m) timeout k ≡ some (returned mtx_recursive_lock, k)
unfolding os_mutex_lock
os_mutex_lock-recursive m timeout k e o = ground arith

lock_blocked-suspended :
    (m : ℕ) (x : Reply × Kernel) → x.0 ≡ suspended → lock_blocked m x ≡ some (suspended, x.1)
lock_blocked-suspended m (suspended, k) e = refl
lock_blocked-suspended m (returned r, k) e = cc

-- The caller waits for `m`: it is blocked on the mutex's list, and everyone on whom it waits has at
-- least its priority.
pub record Waiting (m t : ℕ) (k l : Kernel) : Type 0 where
  pub healthy : Healthy l
  pub blocked_on : on l.user_tasks k.current_task ≡ some (mutex_list m)
  pub still_owner : l.mutexes ≡ k.mutexes
  pub inherits : effective l t ≤ effective k k.current_task

module _ (m timeout t : ℕ) (k : Kernel) (e : (k.mutexes m).state ≡ locked)
    (o : (k.mutexes m).owner ≡ some t) (n : t ≢ k.current_task) (v : Healthy k) where
  pub os_mutex_lock-no_wait :
      timeout ≡ 0 → os_mutex_lock (some m) timeout k ≡ some (returned unavailable, k)
  unfolding os_mutex_lock
  os_mutex_lock-no_wait z = ground arith

  -- On healthy tables, the running user task that asks, with a timeout other than 0, for a mutex that
  -- another task owns, and whose waitlist is not full, is suspended: it is blocked on the mutex's list,
  -- the owner stays the owner and has at least its effective priority, and the tables stay healthy.
  pub os_mutex_lock-Waiting :
      timeout ≢ 0
      → k.current_task ≢ 0
      → (current k).current_state ≡ running
      → (k.waitlists (mutex_list m)).wait_count < os_max_tasks
      → (l : Kernel) × (os_mutex_lock (some m) timeout k ≡ some (suspended, l)) × Waiting m t k l
  unfolding os_mutex_lock
  os_mutex_lock-Waiting z c s room =
      let k' : Kernel = record k { primask = 1 } in
      let (l, q, d, i) = mutex_donate_priority-Donated t k' v.inv in
      let b = waitlist_block_current (mutex_list m) timeout on_mutex k.primask l in
      let cur : l.current_task ≡ k.current_task = ap (λ (x : Kernel). x.current_task) d.rest in
      let lists : l.waitlists ≡ k.waitlists = ap (λ (x : Kernel). x.waitlists) d.rest in
      let mtxs : l.mutexes ≡ k.mutexes = ap (λ (x : Kernel). x.mutexes) d.rest in
      let s' : (current l).current_state ≡ running =
        ap (λ (x : Kernel). (current x).current_state) d.rest ∙ s in
      let room' : (l.waitlists (mutex_list m)).wait_count < os_max_tasks = rw lists room in
      let (reply, blocks) =
        waitlist_block_current-Blocks (mutex_list m) timeout on_mutex k.primask l room' in
      let not_own : (t == k.current_task) ≡ false = ground arith in
      let wants : (timeout == 0) ≡ false = ground arith in
      (
        b.1,
        rw (e, o) (rw (not_own, wants, q, ◌>>=◌) (lock_blocked-suspended m b reply)),
        record {
          healthy = record {
            inv =
                waitlist_block_current-Inv (mutex_list m) timeout on_mutex k.primask l (rw cur c)
                  refl s' i;
            owns =
                waitlist_block_current-Owns (mutex_list m) timeout on_mutex k.primask l
                  (λ x p. still_locked l mtxs x p) (SameBut-Owns d.rest v.owns);
          };
          blocked_on = subst (λ x. on b.1.user_tasks x ≡ some (mutex_list m)) cur blocks.on_list;
          still_owner = blocks.mutexes ∙ mtxs;
          inherits = omega (arith, blocks.priorities t, d.raised 0 t (omega arith) (here refl));
        },
      )
    where
      still_locked :
          (l : Kernel)
          → l.mutexes ≡ k.mutexes
          → (x : ℕ) → mutex_list m ≡ mutex_list x
          → (l.mutexes x).state ≡ locked
      still_locked l q x p =
          let same : m ≡ x = cc in
          subst (λ z. (l.mutexes z).state ≡ locked) same (ap (λ f. (f m).state) q ∙ e)

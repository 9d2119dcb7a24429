-- ===== src/Mutex.antt =====
-- Mutexes of kernel/kernel.c with priority inheritance: `os_mutex_create`, `os_mutex_lock`,
-- `os_mutex_unlock`, `mutex_donate_priority`, `mutex_recompute_owner_priority` and
-- `cast_waitlist_to_mutex`. A pointer of NULL is none; an outer none is a fault.
pub mod Ownership
pub mod Highest
pub mod Chain
pub mod Donation
pub mod Recompute
pub mod Frame
pub mod Locking
pub mod Unlocking
pub mod Handover
pub mod RoundTrip
pub mod Consistency
use ko_rtos.Base.{
  ℕ, zero, suc, ◌+◌, ◌-◌, ◌%◌, ◌^◌, Option, none, some, Bool, true, false, not, ◌==◌, ltb, leb,
  if◌then◌else◌, update,
}
use ko_rtos.Types.{
  Kernel, Tcb, Mutex, unlocked, locked, MutexState, priority, WaitlistRef, sem_list, mutex_list,
  send_list, recv_list, Waitlist, OsErr, ok, null_ptr, unavailable, mtx_recursive_lock,
  mtx_not_owner, BlockReason, on_mutex, Reply, returned, suspended, current, set_task, set_waitlist,
  u8, os_max_tasks, os_max_mtx_per_task, ◌>>=◌,
}
use ko_rtos.Port.{port_enter_critical, port_exit_critical, port_yield}
use ko_rtos.Waitlist.{waitlist_init, waitlist_block_current, waitlist_unblock}

abbrev pub set_mutex : Kernel → ℕ → Mutex → Kernel
set_mutex k m v = record k { mutexes = update k.mutexes m v }

abbrev pub is_unlocked : MutexState → Bool
is_unlocked unlocked = true
is_unlocked locked = false

abbrev pub waits_for_mutex : BlockReason → Bool
waits_for_mutex on_mutex = true
waits_for_mutex _ = false

abbrev pub is_task : Option ℕ → ℕ → Bool
is_task none t = false
is_task (some s) t = s == t

-- The address arithmetic yields a mutex where the list is a mutex's; elsewhere what it points to
-- is no mutex, and reading it is a fault.
unfoldable pub cast_waitlist_to_mutex : Option WaitlistRef → Option (Option ℕ)
cast_waitlist_to_mutex none = some none
cast_waitlist_to_mutex (some (mutex_list m)) = some (some m)
cast_waitlist_to_mutex (some _) = none

-- `(blocked_on_mutex != NULL) ? blocked_on_mutex->owner : NULL`
abbrev pub owner_of : Kernel → Option ℕ → Option ℕ
owner_of k none = none
owner_of k (some m) = (k.mutexes m).owner

-- The owner of the mutex that a task is blocked on.
unfoldable pub next_owner : ℕ → Kernel → Option (Option ℕ)
unfolding cast_waitlist_to_mutex
next_owner t k = do
  m ← cast_waitlist_to_mutex (k.user_tasks t).blocked_waitlist
  some (owner_of k m)

abbrev pub set_effective : Kernel → ℕ → ℕ → Kernel
set_effective k t p = set_task k t (record (k.user_tasks t) { effective_priority = p })

-- One round of the donation: the owner's priority is raised if the donor outranks it.
unfoldable pub donate_to : ℕ → ℕ → Kernel → Kernel
donate_to p t k = if ltb p (k.user_tasks t).effective_priority then set_effective k t p else k

-- The loop, on the iterations left.
unfoldable pub donate : ℕ → ℕ → Option ℕ → Kernel → Option Kernel
donate zero p o k = some k
donate (suc n) p none k = some k
donate (suc n) p (some t) k =
    let k' = donate_to p t k in
    elim (waits_for_mutex (k'.user_tasks t).block_reason) [
      | false ↦ some k'
      | true ↦ next_owner t k' >>= λ o. donate n p o k'
    ]

unfoldable pub mutex_donate_priority : Option ℕ → Kernel → Option Kernel
mutex_donate_priority o k = donate os_max_tasks (current k).effective_priority o k

-- The inner loop: the least of `h` and the priorities of the waiters at `[j, j + n)`.
unfoldable pub highest_waiter : ℕ → ℕ → Waitlist → Kernel → ℕ → Option ℕ
highest_waiter zero j w k h = some h
highest_waiter (suc n) j w k h = do
  t ← w.task_waitlist j
  let p = (k.user_tasks t).effective_priority
  highest_waiter n (suc j) w k (if ltb p h then p else h)

-- The outer loop over the mutexes that the task owns.
unfoldable pub highest_owned : ℕ → ℕ → Tcb → Kernel → ℕ → Option ℕ
highest_owned zero i b k h = some h
highest_owned (suc n) i b k h = do
  m ← b.owned_mutexes i
  let w = k.waitlists (mutex_list m)
  h' ← highest_waiter w.wait_count 0 w k h
  highest_owned n (suc i) b k h'

-- One round of the recomputation.
unfoldable pub recompute_one : ℕ → Kernel → Option Kernel
recompute_one t k = do
  let b = k.user_tasks t
  h ← highest_owned b.owned_mutex_count 0 b k b.base_priority
  some (set_effective k t h)

unfoldable pub recompute : ℕ → Option ℕ → Kernel → Option Kernel
recompute zero o k = some k
recompute (suc n) none k = some k
recompute (suc n) (some t) k = recompute_one t k >>= λ k'.
    elim (waits_for_mutex (k'.user_tasks t).block_reason) [
      | false ↦ some k'
      | true ↦ next_owner t k' >>= λ o. recompute n o k'
    ]

unfoldable pub mutex_recompute_owner_priority : Option ℕ → Kernel → Option Kernel
mutex_recompute_owner_priority o k = recompute os_max_tasks o k

unfoldable pub os_mutex_create : Option ℕ → Kernel → OsErr × Kernel
os_mutex_create none k = (null_ptr, k)
os_mutex_create (some m) k = (
  ok,
  set_waitlist (set_mutex k m (record { owner = none; state = unlocked })) (mutex_list m)
      (waitlist_init priority (k.waitlists (mutex_list m))),
)

-- `owned_mutexes[owned_mutex_count] = mtx; owned_mutex_count++`: the code has no bound on the
-- index, and a fifth mutex is written past the array, which is a fault here.
unfoldable pub add_owned : ℕ → ℕ → Kernel → Option Kernel
add_owned t m k =
    let b = k.user_tasks t in
    if ltb b.owned_mutex_count os_max_mtx_per_task
    then some (
        set_task k t (record b {
          owned_mutexes = update b.owned_mutexes b.owned_mutex_count (some m);
          owned_mutex_count = u8 (b.owned_mutex_count + 1);
        }))
    else none

-- After the caller could not be put on the list, the boost is taken back.
abbrev pub lock_blocked : ℕ → Reply × Kernel → Option (Reply × Kernel)
lock_blocked m (suspended, k) = some (suspended, k)
lock_blocked m (returned e, k) = do
  k' ← mutex_recompute_owner_priority (k.mutexes m).owner k
  some (returned e, k')

unfoldable pub os_mutex_lock : Option ℕ → ℕ → Kernel → Option (Reply × Kernel)
os_mutex_lock none timeout k = some (returned null_ptr, k)
os_mutex_lock (some m) timeout k =
    let (prev, k') = port_enter_critical k in
    let take = add_owned k.current_task m k' >>= λ l. some (
      returned ok,
      port_exit_critical prev
          (set_mutex l m (record { owner = some k.current_task; state = locked })),
    ) in
    let wait = mutex_donate_priority (k.mutexes m).owner k' >>= λ l.
    lock_blocked m (waitlist_block_current (mutex_list m) timeout on_mutex prev l) in
    if is_unlocked (k.mutexes m).state
    then take
    else if is_task (k.mutexes m).owner k.current_task
    then some (returned mtx_recursive_lock, port_exit_critical prev k')
    else if timeout == 0
    then some (returned unavailable, port_exit_critical prev k')
    else wait

-- The caller runs again after it was blocked. The recomputation is not in a critical section: this is
-- the run without interrupts. System/Runs has each of its writes as a step, so that others may come
-- between, and System/Settling relates this run to those steps.
unfoldable pub os_mutex_lock_resume : ℕ → Kernel → Option (OsErr × Kernel)
os_mutex_lock_resume m k = do
  k' ← mutex_recompute_owner_priority (k.mutexes m).owner k
  some (if (current k').timeout then unavailable else ok, k')

-- The loop of `os_mutex_unlock` over the caller's mutexes: the last one takes the place of `m`.
unfoldable pub drop_owned : ℕ → ℕ → ℕ → Tcb → Tcb
drop_owned m zero i b = b
drop_owned m (suc n) i b =
    let rest = drop_owned m n (suc i) b in
    if is_task (b.owned_mutexes i) m
    then record b {
      owned_mutexes = update b.owned_mutexes i (b.owned_mutexes (b.owned_mutex_count - 1));
      owned_mutex_count = u8 (b.owned_mutex_count + 2 ^ 8 - 1);
    }
    else rest

-- After `waitlist_unblock`: the mutex goes to the task that was woken, or becomes unlocked.
unfoldable pub hand_over : ℕ → ℕ → Option ℕ × Kernel → Option (OsErr × Kernel)
hand_over m prev (some t, k) = do
  k₁ ← mutex_recompute_owner_priority (k.mutexes m).owner k
  k₂ ← add_owned t m k₁
  let k₃ = set_mutex k₂ m (record (k₂.mutexes m) { owner = some t })
  k₄ ← mutex_recompute_owner_priority (some t) k₃
  some (ok, port_exit_critical prev (port_yield k₄))
hand_over m prev (none, k) =
    some (ok, port_exit_critical prev (set_mutex k m (record { owner = none; state = unlocked })))

unfoldable pub os_mutex_unlock : Option ℕ → Kernel → Option (OsErr × Kernel)
os_mutex_unlock none k = some (null_ptr, k)
os_mutex_unlock (some m) k =
    let (prev, k') = port_enter_critical k in
    let b = current k in
    let release =
      waitlist_unblock (mutex_list m)
        (set_task k' k.current_task (drop_owned m b.owned_mutex_count 0 b))
      >>= hand_over m prev in
    if is_task (k.mutexes m).owner k.current_task
    then release
    else some (mtx_not_owner, port_exit_critical prev k')

-- ===== src/Mutex/RoundTrip.antt =====
-- A mutex that is taken and given back, and the limit of a task's table.
use ko_rtos.Base.{ℕ, ◌<◌, ◌≡◌, refl, subst, none, some, arith}
use mathlib.Core.Path.{ap₂}
use native.Mathlib.Decide.{ℕ_discrete}
use ko_rtos.Types.{Kernel, unlocked, ok, current, ◌>>=◌}
use ko_rtos.Mutex.{os_mutex_lock, os_mutex_unlock}
use ko_rtos.Mutex.Recompute.{Healthy}
use ko_rtos.Mutex.Locking.{HasRoom, taken, os_mutex_lock-unlocked}
use ko_rtos.Mutex.Unlocking.{place, freed, os_mutex_unlock-freed}

-- `l` has the mutexes of `k`, and every task's table has the same entries.
pub record Restored (k l : Kernel) : Type 0 where
  pub healthy : Healthy l
  pub mutexes : (x : ℕ) → l.mutexes x ≡ k.mutexes x
  pub counts : (u : ℕ) → (l.user_tasks u).owned_mutex_count ≡ (k.user_tasks u).owned_mutex_count
  pub entries :
      (u i : ℕ)
      → i < (k.user_tasks u).owned_mutex_count
      → (l.user_tasks u).owned_mutexes i ≡ (k.user_tasks u).owned_mutexes i
  pub lists : l.waitlists ≡ k.waitlists
  pub interrupts : l.primask ≡ k.primask

module _ (m i : ℕ) (k : Kernel) (room : HasRoom k.current_task k) where
  -- The new entry is the last.
  taken-last :
      Healthy (taken m k)
      → i < (current (taken m k)).owned_mutex_count
      → (current (taken m k)).owned_mutexes i ≡ some m
      → i ≡ (current k).owned_mutex_count
  taken-last w l e =
      (w.owns.tables k.current_task).once i (current k).owned_mutex_count m l (ground arith) e
        (ground arith)

  freed-Restored :
      (k.mutexes m).state ≡ unlocked
      → (k.mutexes m).owner ≡ none
      → i ≡ (current k).owned_mutex_count
      → Healthy (freed m i (taken m k))
      → Restored k (freed m i (taken m k))
  freed-Restored e o last h = record {
    healthy = h;
    mutexes = λ x. elim (ℕ_discrete m x) [ yes q ↦ same x q | no q ↦ ground arith ];
    counts = λ u. elim (ℕ_discrete k.current_task u) [
      | yes q ↦
          subst (λ z. (l.user_tasks z).owned_mutex_count ≡ (k.user_tasks z).owned_mutex_count) q
            (ground (arith, room, last))
      | no q ↦ ground arith
    ];
    entries = λ u j less. elim (ℕ_discrete k.current_task u) [
      | yes q ↦
          subst
            (λ z.
              j < (k.user_tasks z).owned_mutex_count
              → (l.user_tasks z).owned_mutexes j ≡ (k.user_tasks z).owned_mutexes j)
            q (λ h. ground (arith, room, last)) less
      | no q ↦ ground arith
    ];
    lists = refl;
    interrupts = refl;
  }
    where
      empty : k.mutexes m ≡ record { owner = none; state = unlocked }
      empty = ap₂ (λ a b. record { owner = a; state = b }) o e

      l : Kernel
      l = freed m i (taken m k)

      same : (x : ℕ) → m ≡ x → (freed m i (taken m k)).mutexes x ≡ k.mutexes x
      same x q =
          subst (λ y. (freed m i (taken m k)).mutexes y ≡ k.mutexes y) q (ground (arith, empty))

-- On healthy tables, a task that takes an unlocked mutex, its own table having room, and unlocks it at
-- once succeeds both times, and finds all mutexes and all tables of owned mutexes as they were.
pub os_mutex_lock-unlock :
    (m timeout : ℕ) (k : Kernel)
    → (k.mutexes m).state ≡ unlocked
    → HasRoom k.current_task k
    → Healthy k
    → (l : Kernel) × ((os_mutex_lock (some m) timeout k >>= λ x. os_mutex_unlock (some m) x.1)
        ≡ some (ok, l))
      × Restored k l
os_mutex_lock-unlock m timeout k e room v =
    let (took, w) = os_mutex_lock-unlocked m timeout k e room v in
    let mine : ((taken m k).mutexes m).owner ≡ some k.current_task = ground arith in
    let (owner, nobody) = v.owns.free m (λ q. cc) e in
    let (gave, x) = os_mutex_unlock-freed m (taken m k) w mine nobody in
    let (i, l, p) = place m (taken m k) w mine in
    (
      freed m i (taken m k),
      rw took gave,
      freed-Restored m i k room e owner (taken-last m i k room w l p) x,
    )

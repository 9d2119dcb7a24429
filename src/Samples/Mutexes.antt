-- ===== src/Samples/Mutexes.antt =====
-- The theorems on mutexes at a concrete kernel.
use ko_rtos.Base.{ℕ, ◌≤◌, ◌≡◌, refl, subst, sym, none, some, arith}
use ko_rtos.Types.{Kernel, mutex_list, ok, suspended, os_max_tasks, ◌>>=◌}
use ko_rtos.Samples.{tasks, mutexes, kernel}
use ko_rtos.Samples.Tables.{waits_for_0, kernel-Inv, kernel-Healthy}
use ko_rtos.Invariant.{Inv, on}
use ko_rtos.Mutex.{
  mutex_donate_priority, mutex_recompute_owner_priority, set_effective, os_mutex_lock,
  os_mutex_unlock,
}
use ko_rtos.Mutex.Ownership.{owner_but}
use ko_rtos.Mutex.Highest.{Highest}
use ko_rtos.Mutex.Donation.{effective, Donated, mutex_donate_priority-Donated}
use ko_rtos.Mutex.Recompute.{mutex_recompute_owner_priority-Highest}
use ko_rtos.Mutex.Locking.{HasRoom, Waiting, os_mutex_lock-Waiting}
use ko_rtos.Mutex.Handover.{HandedOver, os_mutex_unlock-HandedOver}
use ko_rtos.Mutex.RoundTrip.{Restored, os_mutex_lock-unlock}

donate_example :
    (l : Kernel) × (mutex_donate_priority (some 3) kernel ≡ some l)
    × Donated os_max_tasks (effective kernel 1) 3 kernel l
    × Inv l
donate_example = mutex_donate_priority-Donated 3 kernel kernel-Inv

recompute_example :
    (h : ℕ) × (mutex_recompute_owner_priority (some 1) kernel ≡ some (set_effective kernel 1 h))
    × Highest (owner_but none mutexes) kernel 1 h
recompute_example = mutex_recompute_owner_priority-Highest none 1 kernel kernel-Healthy refl

lock-Waiting_example :
    (l : Kernel) × (os_mutex_lock (some 3) 20 kernel ≡ some (suspended, l)) × Waiting 3 3 kernel l
lock-Waiting_example =
    os_mutex_lock-Waiting 3 20 3 kernel refl refl (omega arith) kernel-Healthy (omega arith)
      (omega arith) refl (omega arith)

-- Task 2 has room in its table.
room : (u : ℕ) → on tasks u ≡ some (mutex_list 0) → HasRoom u kernel
room u e = subst (λ x. HasRoom x kernel) (sym (waits_for_0 _ u e).0) (omega arith)

unlock-HandedOver_example :
    (t : ℕ) × (l : Kernel) × (os_mutex_unlock (some 0) kernel ≡ some (ok, l))
    × HandedOver 0 t kernel l
    × (on tasks t ≡ some (mutex_list 0))
    × ((u : ℕ) → on tasks u ≡ some (mutex_list 0) → effective kernel t ≤ effective kernel u)
unlock-HandedOver_example =
    os_mutex_unlock-HandedOver 0 kernel kernel-Healthy refl refl refl (omega arith) room

lock-unlock_example :
    (l : Kernel) × ((os_mutex_lock (some 1) 0 kernel >>= λ x. os_mutex_unlock (some 1) x.1)
      ≡ some (ok, l))
    × Restored kernel l
lock-unlock_example = os_mutex_lock-unlock 1 0 kernel refl (omega arith) kernel-Healthy

-- ===== src/Samples/Boots.antt =====
-- The kernel from reset, through the creation of a task and of a mutex, a lock and a tick.
use ko_rtos.Base.{ℕ, ◌≡◌, refl, some, arith}
use ko_rtos.Types.{Kernel, returned, ok, locked, fifo, sem_list}
use ko_rtos.Semaphore.{os_sem_create}
use ko_rtos.System.Exclusion.{reset_kernel-exclusive}
use ko_rtos.System.Conservation.{reset_kernel-NoUnitLeft}
use ko_rtos.Task.{os_task_create}
use ko_rtos.Tick.{os_tick}
use ko_rtos.Mutex.{os_mutex_create, os_mutex_lock}
use ko_rtos.Mutex.Recompute.{Healthy}
use ko_rtos.Mutex.Locking.{taken, os_mutex_lock-unlocked}
use ko_rtos.System.{create, tick, sem_create}
use ko_rtos.System.Runs.{none_yet, then, plain, mutex_create, lock, Run}
use ko_rtos.System.Reset.{reset_kernel, reset_kernel-Run}

abbrev memory : ℕ → ℕ
memory = λ a. 0

abbrev with_task : Kernel
with_task = (os_task_create 0x0801 5 (some 0x2000_0400) 64 (reset_kernel memory)).1

abbrev with_mutex : Kernel
with_mutex = (os_mutex_create (some 0) with_task).1

created : Run (reset_kernel memory) with_mutex
unfolding os_task_create
created = then (then none_yet (plain (create 0x0801 5 (some 0x2000_0400) 64))) (mutex_create 0 refl)

locks : os_mutex_lock (some 0) 0 with_mutex ≡ some (returned ok, taken 0 with_mutex)
unfolding os_task_create os_mutex_create
locks =
    (os_mutex_lock-unlocked 0 0 with_mutex refl (omega arith) (reset_kernel-Run memory created)).0

boot_example : Healthy (os_tick (taken 0 with_mutex))
boot_example =
    reset_kernel-Run memory
      (then (then created (lock (some 0) 0 (λ n. absurd (n refl)) locks)) (plain tick))

taken-Run : Run (reset_kernel memory) (taken 0 with_mutex)
taken-Run = then created (lock (some 0) 0 (λ n. absurd (n refl)) locks)

exclusive_example :
    let first : ℕ = 0 in
    (first ≡ first)
    × (first ≡ first)
    × (((taken 0 with_mutex).mutexes 0).owner ≡ some 0)
    × (((taken 0 with_mutex).mutexes 0).state ≡ locked)
unfolding os_task_create os_mutex_create
exclusive_example =
    reset_kernel-exclusive memory 0 0 0 0 0 taken-Run (omega arith) (omega arith) refl refl

abbrev with_semaphore : Kernel
with_semaphore = (os_sem_create (some 0) 3 fifo (reset_kernel memory)).1

units_example : (with_semaphore.waitlists (sem_list 0)).wait_count ≡ 0
unfolding os_sem_create
units_example =
    reset_kernel-NoUnitLeft memory (then none_yet (plain (sem_create 0 3 fifo refl))) 0
      (omega arith)

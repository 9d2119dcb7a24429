-- ===== src/System/Reset.antt =====
-- The kernel after reset: the static variables of kernel/kernel.c with their initial values, and the
-- application's objects in zeroed memory.
use ko_rtos.Base.{ℕ, refl, none, false, arith}
use ko_rtos.Types.{Kernel, Tcb, Waitlist, fifo, unlocked, ready, not_blocked}
use ko_rtos.Invariant.{Inv}
use ko_rtos.Mutex.Ownership.{Owns}
use ko_rtos.Mutex.Recompute.{Healthy}
use ko_rtos.System.Runs.{Run, Run-Healthy}

abbrev pub zero_tcb : Tcb
zero_tcb = record {
  stack_pointer = 0;
  task_handler = 0;
  current_state = ready;
  base_priority = 0;
  effective_priority = 0;
  wakeup_tick = 0;
  block_reason = not_blocked;
  blocked_waitlist = none;
  owned_mutexes = λ i. none;
  owned_mutex_count = 0;
  timeout = false;
}

abbrev zero_list : Waitlist
zero_list = record { task_waitlist = λ i. none; wait_count = 0; schedule_policy = fifo }

-- The idle task always exists, and is the first that is current.
abbrev pub reset_kernel : (ℕ → ℕ) → Kernel
reset_kernel memory = record {
  user_tasks = λ t. zero_tcb;
  task_count = 1;
  current_task = 0;
  systick_count = 0;
  waitlists = λ r. zero_list;
  semaphores = λ s. record { count = 0 };
  mutexes = λ m. record { owner = none; state = unlocked };
  queues = λ q. record {
    buffer = λ i. 0;
    item_size = 0;
    max_items = 0;
    count = 0;
    head = 0;
    tail = 0;
    dropped_count = 0;
  };
  memory = memory;
  primask = 0;
  pendsv = false;
}

reset-Inv : (memory : ℕ → ℕ) → Inv (reset_kernel memory)
reset-Inv memory = record {
  count_max = omega arith;
  cur_in_range = omega arith;
  sound = λ t. record {
    waiting = λ r e. cc;
    reason = λ r e. cc;
    mutex_wait = λ e. cc;
    one_running = λ e. cc;
    in_range = λ l. (omega arith, omega arith);
  };
  members = λ r. record {
    few = omega arith;
    waits = λ i l. absurd (omega arith);
    once = λ i j t l. absurd (omega arith);
    listed = λ t e. cc;
  };
  policies = λ r. refl;
}

reset-Owns : (memory : ℕ → ℕ) → Owns (reset_kernel memory)
reset-Owns memory = record {
  tables = λ t. record {
    few = omega arith;
    owned_by = λ i l. absurd (omega arith);
    once = λ i j m l. absurd (omega arith);
    all = λ m e. cc;
  };
  free = λ m n e. (refl, refl);
  held = λ m n e. cc;
}

pub reset-Healthy : (memory : ℕ → ℕ) → Healthy (reset_kernel memory)
reset-Healthy memory = record { inv = reset-Inv memory; owns = reset-Owns memory }

-- From reset, every sequence of the events of System/Runs, the calls on tasks, semaphores, mutexes and
-- queues with their resumptions, context switches and ticks in any order, leads to healthy tables.
-- The conditions of the events are: a call comes to a result, without a fault such as the write of a
-- fifth mutex into a task's table; a semaphore or a queue is created while no task waits for it, and
-- a mutex while it is unlocked; a call that may block is made by a running task other than the idle
-- task, and a delay and an unlock by a running task. The writes of priorities that os_mutex_lock makes
-- with interrupts on are events of their own.
pub reset_kernel-Run : (memory : ℕ → ℕ) {l : Kernel} → Run (reset_kernel memory) l → Healthy l
reset_kernel-Run memory r = Run-Healthy (reset-Healthy memory) r

-- ===== src/Samples.antt =====
-- A concrete kernel, in which a task that owns two mutexes runs with the priority of a task that
-- waits for one of them. Tables proves it well formed, and the other files apply the theorems to it.
mod Tables
mod Kernels
mod Mutexes
mod Messages
mod Drivers
mod Buses
mod Boots
use ko_rtos.Base.{ℕ, zero, suc, ◌+◌, Option, none, some, false}
use ko_rtos.Types.{
  Kernel, Tcb, Queue, Mutex, Waitlist, WaitlistRef, mutex_list, not_blocked, on_mutex, priority,
  ready, running, blocked, unlocked, locked,
}

-- A block of zeros.
abbrev pub zeroed : Tcb
zeroed = record {
  stack_pointer = 0;
  task_handler = 0;
  current_state = ready;
  base_priority = 0;
  effective_priority = 0;
  wakeup_tick = 0;
  block_reason = not_blocked;
  blocked_waitlist = none;
  owned_mutexes = λ _. none;
  owned_mutex_count = 0;
  timeout = false;
}

-- Task 1 runs with the priority of task 2, which waits for mutex 0. Task 3 owns mutex 3.
abbrev pub tasks : ℕ → Tcb
tasks (suc zero) = record zeroed {
  current_state = running;
  base_priority = 5;
  effective_priority = 2;
  owned_mutexes = owned;
  owned_mutex_count = 2;
}
  where
    owned : ℕ → Option ℕ
    owned zero = some 0
    owned (suc zero) = some 2
    owned _ = none
tasks (suc (suc zero)) = record zeroed {
  current_state = blocked;
  base_priority = 2;
  effective_priority = 2;
  block_reason = on_mutex;
  blocked_waitlist = some (mutex_list 0);
}
tasks (suc (suc (suc zero))) = record zeroed {
  base_priority = 7;
  effective_priority = 7;
  owned_mutexes = λ _. some 3;
  owned_mutex_count = 1;
}
tasks _ = zeroed

abbrev pub empty_list : Waitlist
empty_list = record { task_waitlist = λ _. none; wait_count = 0; schedule_policy = priority }

abbrev pub lists : WaitlistRef → Waitlist
lists (mutex_list zero) = record empty_list { task_waitlist = entries; wait_count = 1 }
  where
    entries : ℕ → Option ℕ
    entries zero = some 2
    entries _ = none
lists _ = empty_list

abbrev pub mutexes : ℕ → Mutex
mutexes zero = record { owner = some 1; state = locked }
mutexes (suc (suc zero)) = record { owner = some 1; state = locked }
mutexes (suc (suc (suc zero))) = record { owner = some 3; state = locked }
mutexes _ = record { owner = none; state = unlocked }

-- Two slots of two bytes, the second of which holds an item.
abbrev pub queue : Queue
queue = record {
  buffer = λ i. i + 10;
  item_size = 2;
  max_items = 2;
  count = 1;
  head = 0;
  tail = 1;
  dropped_count = 0;
}

abbrev pub kernel : Kernel
kernel = record {
  user_tasks = tasks;
  task_count = 4;
  current_task = 1;
  systick_count = 100;
  waitlists = lists;
  semaphores = λ _. record { count = 1 };
  mutexes = mutexes;
  queues = λ _. queue;
  memory = λ _. 0;
  primask = 0;
  pendsv = false;
}

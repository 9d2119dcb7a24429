-- ===== src/Samples/Messages.antt =====
-- The theorems on semaphores and queues at concrete kernels.
use ko_rtos.Base.{
  ◌↔◌, false, ltb, ◌&&◌, if◌then◌else◌, ℕ, ◌+◌, ◌≡◌, refl, ◌⊎◌, some, true, [], ◌∷◌, ◌++◌, arith,
}
use ko_rtos.Types.{Kernel, sem_list, ok, unavailable, returned, ref_eq, ◌>>=◌}
use ko_rtos.Samples.{queue, kernel}
use ko_rtos.Samples.Tables.{kernel-Inv}
use ko_rtos.Invariant.{Inv, on}
use ko_rtos.Waitlist.{waitlist_block_current}
use ko_rtos.Tick.{os_tick, is_due}
use ko_rtos.Semaphore.{os_sem_wait, os_sem_post}
use ko_rtos.Semaphore.Consistency.{os_sem_wait-Inv}
use ko_rtos.Queue.{
  os_queue_send_from_task, os_queue_send_from_isr, os_queue_recv_from_task, put_item, take_item,
}
use ko_rtos.Queue.Consistency.{Keeps, os_queue_send_from_task-Inv}
use ko_rtos.Queue.Fifo.{IsRing, contents, bytes, put_item-contents, take_item-contents}
use ko_rtos.Tick.{update_tick_count}
use ko_rtos.Tick.Wakeup.{expired, os_tick-expired}
use ko_rtos.Waitlist.Members.{Listed}
use ko_rtos.Semaphore.{os_sem_wait_resume}
use ko_rtos.Semaphore.Contract.{counted, Passed, os_sem_post-Passed, os_tick-times_out}
use ko_rtos.Queue.{set_queue}
use ko_rtos.Queue.Delivery.{
  Sent, os_queue_send_from_task-Sent, os_queue_recv_from_task-oldest,
  os_queue_send_from_isr-outcome, os_queue_send-recv,
}

send-Inv_example : Keeps (os_queue_send_from_task (some 0) (some (λ i. i)) 5 kernel)
send-Inv_example =
    os_queue_send_from_task-Inv (some 0) (some (λ i. i)) 5 kernel (λ _. (omega arith, refl))
      kernel-Inv

queue-IsRing : IsRing queue
queue-IsRing = record {
  has_slots = omega arith;
  addressed = omega arith;
  slots_fit = omega arith;
  count_le = omega arith;
  tail_lt = omega arith;
  head_eq = refl;
}

put_example :
    (contents (put_item queue (λ i. i)) ≡ contents queue ++ (bytes (λ i. i) 0 2 ∷ []))
    × IsRing (put_item queue (λ i. i))
put_example = put_item-contents queue (λ i. i) queue-IsRing (omega arith)

take_example :
    let (item, v) = take_item queue (λ _. 0) in
    (contents queue ≡ bytes item 0 2 ∷ contents v) × IsRing v
take_example = take_item-contents queue (λ _. 0) queue-IsRing (omega arith)

abbrev patience : ℕ
patience = 10

-- Task 1 waits for semaphore 0, until tick 101.
abbrev taken_semaphore : Kernel
taken_semaphore = record kernel { semaphores = λ _. record { count = 0 } }

abbrev sleeper : Kernel
sleeper = (os_sem_wait (some 0) 1 taken_semaphore).1

sleeper-on : on sleeper.user_tasks 1 ≡ some (sem_list 0)
unfolding os_sem_wait waitlist_block_current ref_eq
sleeper-on = refl

sleeper-is_due : is_due (update_tick_count sleeper) 1 ≡ true
unfolding os_sem_wait waitlist_block_current ref_eq update_tick_count
sleeper-is_due = refl

sleeper-Inv : Inv sleeper
sleeper-Inv = os_sem_wait-Inv (some 0) 1 taken_semaphore (omega arith) refl kernel-Inv

times_out_example : os_sem_wait_resume (record (os_tick sleeper) { current_task = 1 }) ≡ unavailable
times_out_example = os_tick-times_out 0 1 sleeper sleeper-Inv sleeper-on sleeper-is_due

-- The tick takes task 1 off the list of semaphore 0.
expired_example :
    let woken = ltb 0 1 && (ltb 1 4 && is_due (update_tick_count sleeper) 1) in
    ((os_tick sleeper).user_tasks 1
      ≡ (if woken then expired (sleeper.user_tasks 1) else sleeper.user_tasks 1))
    × (Listed ((os_tick sleeper).waitlists (sem_list 0)) 1
        ↔ (woken ≡ false) × Listed (sleeper.waitlists (sem_list 0)) 1)
unfolding os_sem_wait waitlist_block_current
expired_example = os_tick-expired 1 (sem_list 0) sleeper sleeper-Inv

-- A post wakes task 1.
post-Passed_example :
    (l : Kernel) × (os_sem_post (some 0) sleeper ≡ some (ok, l))
    × ((((sleeper.waitlists (sem_list 0)).wait_count ≡ 0) × (l ≡ counted 0 1 sleeper))
        ⊎ Passed 0 sleeper l)
unfolding os_sem_wait waitlist_block_current
post-Passed_example = os_sem_post-Passed 0 sleeper sleeper-Inv

enqueue_example :
    (l : Kernel) × (os_queue_send_from_task (some 0) (some (λ i. i)) 5 kernel
      ≡ some (returned ok, l))
    × Sent 0 (bytes (λ i. i) 0 2) kernel l
enqueue_example =
    os_queue_send_from_task-Sent 0 (λ i. i) 5 kernel kernel-Inv queue-IsRing (omega arith)

oldest_example :
    (item : ℕ → ℕ) × (l : Kernel) × (os_queue_recv_from_task (some 0) (some (λ _. 0)) 5 kernel
      ≡ some (returned ok, some item, l))
    × (contents queue ≡ bytes item 0 2 ∷ contents (l.queues 0))
    × IsRing (l.queues 0)
    × Inv l
oldest_example =
    os_queue_recv_from_task-oldest 0 (λ _. 0) 5 kernel kernel-Inv queue-IsRing (omega arith)

isr-outcome_example :
    (l : Kernel) × (((os_queue_send_from_isr (some 0) (some (λ i. i)) kernel
          ≡ some (returned ok, l))
        × Sent 0 (bytes (λ i. i) 0 2) kernel l)
      ⊎ ((queue.count ≡ queue.max_items)
          × (os_queue_send_from_isr (some 0) (some (λ i. i)) kernel
              ≡ some (returned unavailable, l))
          × (l ≡ set_queue kernel 0 (record queue { dropped_count = 1 }))))
isr-outcome_example = os_queue_send_from_isr-outcome 0 (λ i. i) kernel kernel-Inv queue-IsRing

-- The queue without its item.
abbrev drained : Kernel
drained = set_queue kernel 0 (record queue { count = 0; tail = 0 })

drained-IsRing : IsRing (drained.queues 0)
drained-IsRing = record {
  has_slots = omega arith;
  addressed = omega arith;
  slots_fit = omega arith;
  count_le = omega arith;
  tail_lt = omega arith;
  head_eq = refl;
}

send-recv_example :
    (item : ℕ → ℕ) × (l : Kernel) × ((os_queue_send_from_task (some 0) (some (λ i. i + 3)) 5 drained
        >>= λ x. os_queue_recv_from_task (some 0) (some (λ _. 0)) 6 x.1)
      ≡ some (returned ok, some item, l))
    × (bytes item 0 2 ≡ bytes (λ i. i + 3) 0 2)
    × (contents (l.queues 0) ≡ [])
send-recv_example =
    os_queue_send-recv 0 (λ i. i + 3) (λ _. 0) 5 6 drained kernel-Inv drained-IsRing refl

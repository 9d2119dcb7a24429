-- ===== src/Queue/Consistency.antt =====
-- The operations on queues keep the tables consistent, and none faults.
use ko_rtos.Base.{
  ℕ, ◌≡◌, refl, ◌≢◌, Option, none, some, leb, ◌==◌, ◌||◌, if_ind, inl, inr, Option-cases, arith,
}
use ko_rtos.Types.{
  ref_eq, Kernel, OsErr, ok, unavailable, Reply, returned, suspended, SchedulePolicy, WaitlistRef,
  send_list, recv_list, running, current, BlockReason, on_queue_send, on_queue_recv,
}
use ko_rtos.Port.{port_yield, port_exit_critical}
use ko_rtos.Semaphore.{is_policy}
use ko_rtos.Queue.{
  os_queue_create, remaining, wait_for_queue, put_item, take_item, wake_other, send_attempt,
  recv_attempt, os_queue_send_from_task, os_queue_send_resume, os_queue_send_from_isr,
  os_queue_recv_from_task, os_queue_recv_resume, set_queue, count_dropped, Received,
}
use ko_rtos.Invariant.{Inv, reason_of}
use ko_rtos.Invariant.Blocking.{waitlist_block_current-Inv}
use ko_rtos.Invariant.Creating.{init-IsConsistent}
use ko_rtos.Invariant.Unblocking.{awake, awake-Inv, unblock_cases}

-- Whom a call may block: the current task where it runs and is not the idle task; nobody where the
-- timeout is 0.
abbrev pub MayBlock : ℕ → Kernel → Type 0
MayBlock timeout k = timeout ≢ 0 → (k.current_task ≢ 0) × ((current k).current_state ≡ running)

wait_for_queue-Inv :
    (r : WaitlistRef) (reason : BlockReason) (timeout deadline prev : ℕ) (k : Kernel)
    → reason ≡ reason_of r
    → MayBlock timeout k
    → Inv k
    → Inv (wait_for_queue r reason timeout deadline prev k).1
unfolding wait_for_queue
wait_for_queue-Inv r reason timeout deadline prev k e m v =
    if_ind (λ (x : Reply × Kernel). Inv x.1) (timeout == 0) (λ _. v)
      λ t.
        let (n, s) = m (ground arith) in
        elim (Option-cases (remaining deadline k.systick_count)) [
          | inl q ↦ rw q v
          | inr (left, q) ↦ rw q (waitlist_block_current-Inv r left reason prev k n e s v)
        ]

-- The wake of the other side always succeeds.
pub wake_other-Inv :
    (r : WaitlistRef) (prev : ℕ) (k : Kernel)
    → Inv k
    → (l : Kernel) × (wake_other r prev k ≡ some l) × Inv l
unfolding wake_other
wake_other-Inv r prev k v = elim (unblock_cases r k v) [
  | inl (_, e) ↦ (port_exit_critical prev k, rw e, v)
  | inr w ↦
      (port_exit_critical prev (port_yield (awake k r w.i w.t)), rw w.result, awake-Inv r k v w)
]

-- A call succeeds with a consistent kernel.
abbrev pub Keeps : Option (Reply × Kernel) → Type 0
Keeps o = (reply : Reply) × (l : Kernel) × (o ≡ some (reply, l)) × Inv l

abbrev pub KeepsItem : Option Received → Type 0
KeepsItem o =
    (reply : Reply) × (item : Option (ℕ → ℕ)) × (l : Kernel) × (o ≡ some (reply, item, l)) × Inv l

module _ (q : ℕ) (item : ℕ → ℕ) (timeout deadline prev : ℕ) (k : Kernel) where
  send_attempt-Inv :
      MayBlock timeout k → Inv k → Keeps (send_attempt q item timeout deadline prev k)
  unfolding send_attempt
  send_attempt-Inv m v =
      let (l, e, i) =
        wake_other-Inv (recv_list q) prev (set_queue k q (put_item (k.queues q) item)) v in
      if_ind Keeps (leb (k.queues q).max_items (k.queues q).count)
        (λ _. (
          _,
          _,
          refl,
          wait_for_queue-Inv (send_list q) on_queue_send timeout deadline prev k refl m v,
        ))
        (λ _. (returned ok, l, rw e, i))

  recv_attempt-Inv :
      MayBlock timeout k → Inv k → KeepsItem (recv_attempt q item timeout deadline prev k)
  unfolding recv_attempt
  recv_attempt-Inv m v =
      let (l, e, i) =
        wake_other-Inv (send_list q) prev (set_queue k q (take_item (k.queues q) item).1) v in
      if_ind KeepsItem ((k.queues q).count == 0)
        (λ _. (
          _,
          _,
          _,
          refl,
          wait_for_queue-Inv (recv_list q) on_queue_recv timeout deadline prev k refl m v,
        ))
        (λ _. (returned ok, some (take_item (k.queues q) item).0, l, rw e, i))

-- The creation of a queue for which no task waits keeps the tables consistent, whatever its other
-- arguments.
pub os_queue_create-Inv :
    (q : ℕ) (buffer : Option (ℕ → ℕ)) (item_size max_items : ℕ) (policy : SchedulePolicy)
    (k : Kernel)
    → (k.waitlists (send_list q)).wait_count ≡ 0
    → (k.waitlists (recv_list q)).wait_count ≡ 0
    → Inv k
    → Inv (os_queue_create (some q) buffer item_size max_items policy k).1
unfolding os_queue_create ref_eq
os_queue_create-Inv q none item_size max_items policy k e f v = v
os_queue_create-Inv q (some buffer) item_size max_items policy k e f v =
    if_ind (λ (x : OsErr × Kernel). Inv x.1) (item_size == 0 || max_items == 0) (λ _. v)
      λ _.
        if_ind (λ (x : OsErr × Kernel). Inv x.1) (is_policy policy)
          (λ p.
            init-IsConsistent (recv_list q) policy f p
              (init-IsConsistent (send_list q) policy e p v))
          (λ _. v)

-- On consistent tables a send comes to a result without a fault, and keeps the tables consistent,
-- whoever it wakes or blocks; where the timeout is not 0 the caller is the running user task.
pub os_queue_send_from_task-Inv :
    (q : Option ℕ) (item : Option (ℕ → ℕ)) (timeout : ℕ) (k : Kernel)
    → MayBlock timeout k
    → Inv k
    → Keeps (os_queue_send_from_task q item timeout k)
unfolding os_queue_send_from_task
os_queue_send_from_task-Inv none item timeout k m v = (_, _, refl, v)
os_queue_send_from_task-Inv (some q) none timeout k m v = (_, _, refl, v)
os_queue_send_from_task-Inv (some q) (some item) timeout k m v =
    send_attempt-Inv q item timeout _ k.primask (record k { primask = 1 }) m v

-- The part of a send that runs when its blocked task is scheduled again, which may block it again,
-- comes to a result without a fault and keeps the tables consistent; where the timeout is not 0 the
-- caller is the running user task.
pub os_queue_send_resume-Inv :
    (q : ℕ) (item : ℕ → ℕ) (timeout deadline : ℕ) (k : Kernel)
    → MayBlock timeout k
    → Inv k
    → Keeps (os_queue_send_resume q item timeout deadline k)
unfolding os_queue_send_resume
os_queue_send_resume-Inv q item timeout deadline k m v =
    if_ind Keeps (current k).timeout (λ _. (_, _, refl, v))
      (λ _. send_attempt-Inv q item timeout deadline k.primask (record k { primask = 1 }) m v)

count_dropped-Inv : (q : Option ℕ) (r : Reply × Kernel) → Inv r.1 → Inv (count_dropped q r).1
count_dropped-Inv none (returned e, k) v = v
count_dropped-Inv (some q) (returned e, k) v = dropped e
  where
    dropped : (e : OsErr) → Inv (count_dropped (some q) (returned e, k)).1
    dropped unavailable = v
    dropped _ = v
count_dropped-Inv none (suspended, k) v = v
count_dropped-Inv (some q) (suspended, k) v = v

-- In an interrupt, whatever the current task is, a send succeeds with a consistent kernel.
pub os_queue_send_from_isr-Inv :
    (q : Option ℕ) (item : Option (ℕ → ℕ)) (k : Kernel)
    → Inv k
    → Keeps (os_queue_send_from_isr q item k)
unfolding os_queue_send_from_isr
os_queue_send_from_isr-Inv q item k v =
    let (r, l, e, i) = os_queue_send_from_task-Inv q item 0 k (λ n. absurd (n refl)) v in
    ((count_dropped q (r, l)).0, (count_dropped q (r, l)).1, rw e, count_dropped-Inv q (r, l) i)

-- On consistent tables a receive comes to a result without a fault, and keeps the tables consistent,
-- whoever it wakes or blocks; where the timeout is not 0 the caller is the running user task.
pub os_queue_recv_from_task-Inv :
    (q : Option ℕ) (item : Option (ℕ → ℕ)) (timeout : ℕ) (k : Kernel)
    → MayBlock timeout k
    → Inv k
    → KeepsItem (os_queue_recv_from_task q item timeout k)
unfolding os_queue_recv_from_task
os_queue_recv_from_task-Inv none item timeout k m v = (_, _, _, refl, v)
os_queue_recv_from_task-Inv (some q) none timeout k m v = (_, _, _, refl, v)
os_queue_recv_from_task-Inv (some q) (some item) timeout k m v =
    recv_attempt-Inv q item timeout _ k.primask (record k { primask = 1 }) m v

-- The part of a receive that runs when its blocked task is scheduled again, which may block it again,
-- comes to a result without a fault and keeps the tables consistent; where the timeout is not 0 the
-- caller is the running user task.
pub os_queue_recv_resume-Inv :
    (q : ℕ) (item : ℕ → ℕ) (timeout deadline : ℕ) (k : Kernel)
    → MayBlock timeout k
    → Inv k
    → KeepsItem (os_queue_recv_resume q item timeout deadline k)
unfolding os_queue_recv_resume
os_queue_recv_resume-Inv q item timeout deadline k m v =
    if_ind KeepsItem (current k).timeout (λ _. (_, _, _, refl, v))
      (λ _. recv_attempt-Inv q item timeout deadline k.primask (record k { primask = 1 }) m v)

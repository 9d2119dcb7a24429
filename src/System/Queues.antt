-- ===== src/System/Queues.antt =====
-- The calls on queues, and a property that depends on the tasks, the mutexes, the semaphores and the
-- waitlists alone.
use ko_rtos.Base.{
  ℕ, ◌≡◌, ◌≢◌, refl, Option, none, some, leb, ◌==◌, ◌||◌, if_ind, inl, inr, Option-cases,
}
use ko_rtos.Types.{
  Kernel, Tcb, Mutex, Semaphore, Waitlist, sem_list, mutex_list, set_waitlist, OsErr, ok,
  unavailable, Reply, returned, suspended, SchedulePolicy, WaitlistRef, mutex_list, send_list,
  recv_list, current, BlockReason, on_queue_send, on_queue_recv, ref_eq,
}
use ko_rtos.Port.{port_exit_critical, port_yield}
use ko_rtos.Semaphore.{is_policy}
use ko_rtos.Queue.{
  os_queue_create, remaining, wait_for_queue, put_item, take_item, wake_other, send_attempt,
  recv_attempt, os_queue_send_from_task, os_queue_send_resume, os_queue_send_from_isr,
  os_queue_recv_from_task, os_queue_recv_resume, set_queue, count_dropped, Received,
}
use ko_rtos.Invariant.{Inv}
use ko_rtos.Invariant.Unblocking.{Wakes, awake, unblock_cases}
use ko_rtos.Waitlist.{waitlist_init, waitlist_block_current}

-- A list that is no mutex's and no semaphore's.
abbrev pub Foreign : WaitlistRef → Type 0
Foreign r = (x : ℕ) → (r ≢ mutex_list x) × (r ≢ sem_list x)

-- A property of the tasks, the mutexes, the semaphores and the waitlists.
abbrev pub Property : Type 1
Property = (ℕ → Tcb) → (ℕ → Mutex) → (ℕ → Semaphore) → (WaitlistRef → Waitlist) → Type 0

abbrev pub Of : Property → Kernel → Type 0
Of P k = P k.user_tasks k.mutexes k.semaphores k.waitlists

-- What the calls on queues need to know of a property.
pub record Frame (P : Property) : Type 0 where
  pub blocks :
      (r : WaitlistRef) (timeout : ℕ) (reason : BlockReason) (prev : ℕ) (k : Kernel)
      → Foreign r
      → Of P k
      → Of P (waitlist_block_current r timeout reason prev k).1
  pub wakes : (r : WaitlistRef) (k : Kernel) → Of P k → (w : Wakes r k) → Of P (awake k r w.i w.t)
  pub inits :
      (r : WaitlistRef) (policy : SchedulePolicy) (k : Kernel)
      → Foreign r
      → Of P k
      → Of P (set_waitlist k r (waitlist_init policy (k.waitlists r)))

-- A call succeeds with a kernel that has the property.
abbrev pub Keeps : Property → Option (Reply × Kernel) → Type 0
Keeps P o = (reply : Reply) × (l : Kernel) × (o ≡ some (reply, l)) × Of P l

abbrev pub KeepsItem : Property → Option Received → Type 0
KeepsItem P o =
    (reply : Reply) × (item : Option (ℕ → ℕ)) × (l : Kernel) × (o ≡ some (reply, item, l)) × Of P l

module _ (P : Property) (f : Frame P) where
  wait_for_queue-Kept :
      (r : WaitlistRef) (reason : BlockReason) (timeout deadline prev : ℕ) (k : Kernel)
      → Foreign r
      → Of P k
      → Of P (wait_for_queue r reason timeout deadline prev k).1
  unfolding wait_for_queue
  wait_for_queue-Kept r reason timeout deadline prev k g v =
      if_ind (λ (x : Reply × Kernel). Of P x.1) (timeout == 0) (λ _. v)
        λ _. elim (Option-cases (remaining deadline k.systick_count)) [
          | inl q ↦ rw q v
          | inr (left, q) ↦ rw q (f.blocks r left reason prev k g v)
        ]

  wake_other-Kept :
      (r : WaitlistRef) (prev : ℕ) (k : Kernel)
      → Inv k
      → Of P k
      → (l : Kernel) × (wake_other r prev k ≡ some l) × Of P l
  unfolding wake_other
  wake_other-Kept r prev k i v = elim (unblock_cases r k i) [
    | inl (_, e) ↦ (port_exit_critical prev k, rw e, v)
    | inr w ↦
        (port_exit_critical prev (port_yield (awake k r w.i w.t)), rw w.result, f.wakes r k v w)
  ]

  module _ (q : ℕ) (item : ℕ → ℕ) (timeout deadline prev : ℕ) (k : Kernel) (i : Inv k)
      (v : Of P k) where
    send_attempt-Kept : Keeps P (send_attempt q item timeout deadline prev k)
    unfolding send_attempt
    send_attempt-Kept =
        let (l, e, w) =
          wake_other-Kept (recv_list q) prev (set_queue k q (put_item (k.queues q) item)) i v in
        if_ind (Keeps P) (leb (k.queues q).max_items (k.queues q).count)
          (λ _. (
            _,
            _,
            refl,
            wait_for_queue-Kept (send_list q) on_queue_send timeout deadline prev k
                (λ x. ((λ e. cc), (λ e. cc))) v,
          ))
          (λ _. (returned ok, l, rw e, w))

    recv_attempt-Kept : KeepsItem P (recv_attempt q item timeout deadline prev k)
    unfolding recv_attempt
    recv_attempt-Kept =
        let (l, e, w) =
          wake_other-Kept (send_list q) prev (set_queue k q (take_item (k.queues q) item).1) i v in
        if_ind (KeepsItem P) ((k.queues q).count == 0)
          (λ _. (
            _,
            _,
            _,
            refl,
            wait_for_queue-Kept (recv_list q) on_queue_recv timeout deadline prev k
                (λ x. ((λ e. cc), (λ e. cc))) v,
          ))
          (λ _. (returned ok, some (take_item (k.queues q) item).0, l, rw e, w))

  pub os_queue_create-Kept :
      (q : ℕ) (buffer : Option (ℕ → ℕ)) (item_size max_items : ℕ) (policy : SchedulePolicy)
      (k : Kernel)
      → Of P k
      → Of P (os_queue_create (some q) buffer item_size max_items policy k).1
  unfolding os_queue_create ref_eq
  os_queue_create-Kept q none item_size max_items policy k v = v
  os_queue_create-Kept q (some buffer) item_size max_items policy k v =
      if_ind (λ (x : OsErr × Kernel). Of P x.1) (item_size == 0 || max_items == 0) (λ _. v)
        λ _.
          if_ind (λ (x : OsErr × Kernel). Of P x.1) (is_policy policy)
            (λ _.
              let l =
                set_waitlist k (send_list q) (waitlist_init policy (k.waitlists (send_list q))) in
              f.inits (recv_list q) policy l (λ x. ((λ e. cc), (λ e. cc)))
                (f.inits (send_list q) policy k (λ x. ((λ e. cc), (λ e. cc))) v))
            (λ _. v)

  module _ (k : Kernel) (i : Inv k) (v : Of P k) where
    pub os_queue_send_from_task-Kept :
        (q : Option ℕ) (item : Option (ℕ → ℕ)) (timeout : ℕ)
        → Keeps P (os_queue_send_from_task q item timeout k)
    unfolding os_queue_send_from_task
    os_queue_send_from_task-Kept none item timeout = (_, _, refl, v)
    os_queue_send_from_task-Kept (some q) none timeout = (_, _, refl, v)
    os_queue_send_from_task-Kept (some q) (some item) timeout =
        send_attempt-Kept q item timeout _ k.primask (record k { primask = 1 }) i v

    pub os_queue_send_resume-Kept :
        (q : ℕ) (item : ℕ → ℕ) (timeout deadline : ℕ)
        → Keeps P (os_queue_send_resume q item timeout deadline k)
    unfolding os_queue_send_resume
    os_queue_send_resume-Kept q item timeout deadline =
        if_ind (Keeps P) (current k).timeout (λ _. (_, _, refl, v))
          (λ _. send_attempt-Kept q item timeout deadline k.primask (record k { primask = 1 }) i v)

    pub os_queue_send_from_isr-Kept :
        (q : Option ℕ) (item : Option (ℕ → ℕ)) → Keeps P (os_queue_send_from_isr q item k)
    unfolding os_queue_send_from_isr
    os_queue_send_from_isr-Kept q item =
        let (r, l, e, w) = os_queue_send_from_task-Kept q item 0 in
        ((count_dropped q (r, l)).0, (count_dropped q (r, l)).1, rw e, dropped q r l w)
      where
        dropped : (q : Option ℕ) (r : Reply) (l : Kernel) → Of P l → Of P (count_dropped q (r, l)).1
        dropped none (returned e) l w = w
        dropped (some q) (returned unavailable) l w = w
        dropped (some q) (returned _) l w = w
        dropped none suspended l w = w
        dropped (some q) suspended l w = w

    pub os_queue_recv_from_task-Kept :
        (q : Option ℕ) (item : Option (ℕ → ℕ)) (timeout : ℕ)
        → KeepsItem P (os_queue_recv_from_task q item timeout k)
    unfolding os_queue_recv_from_task
    os_queue_recv_from_task-Kept none item timeout = (_, _, _, refl, v)
    os_queue_recv_from_task-Kept (some q) none timeout = (_, _, _, refl, v)
    os_queue_recv_from_task-Kept (some q) (some item) timeout =
        recv_attempt-Kept q item timeout _ k.primask (record k { primask = 1 }) i v

    pub os_queue_recv_resume-Kept :
        (q : ℕ) (item : ℕ → ℕ) (timeout deadline : ℕ)
        → KeepsItem P (os_queue_recv_resume q item timeout deadline k)
    unfolding os_queue_recv_resume
    os_queue_recv_resume-Kept q item timeout deadline =
        if_ind (KeepsItem P) (current k).timeout (λ _. (_, _, _, refl, v))
          (λ _. recv_attempt-Kept q item timeout deadline k.primask (record k { primask = 1 }) i v)

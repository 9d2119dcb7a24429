-- ===== src/Queue.antt =====
-- Message queues of kernel/kernel.c: `os_queue_create`, `os_queue_send_from_task`,
-- `os_queue_recv_from_task` and the variants for interrupts. A pointer of NULL is none. The bytes
-- of an item and of the ring buffer are families indexed by their offset.
--
-- The loop of a blocking call goes round once for each time that the caller wakes: `send_attempt`
-- and `recv_attempt` run from the head of the loop up to the return or the suspension of the
-- caller, and `..._resume` runs from there, when the caller is scheduled again.
pub mod Consistency
pub mod Fifo
pub mod Delivery
use ko_rtos.Base.{
  ℕ, suc, ◌+◌, ◌-◌, ◌*◌, ◌%◌, ◌^◌, Option, none, some, Bool, true, false, ◌&&◌, ◌||◌, not, ◌==◌,
  ltb, leb, if◌then◌else◌, update,
}
use ko_rtos.Types.{
  Kernel, Queue, SchedulePolicy, WaitlistRef, send_list, recv_list, OsErr, ok, null_ptr,
  out_of_range, unavailable, invalid_schedule_policy, BlockReason, on_queue_send, on_queue_recv,
  Reply, returned, suspended, current, set_waitlist, u32, reached, os_wait_forever, ◌>>=◌,
}
use ko_rtos.Port.{port_enter_critical, port_exit_critical, port_yield}
use ko_rtos.Waitlist.{waitlist_init, waitlist_block_current, waitlist_unblock}
use ko_rtos.Semaphore.{is_policy}

abbrev pub set_queue : Kernel → ℕ → Queue → Kernel
set_queue k q v = record k { queues = update k.queues q v }

-- `memcpy(dst + at, src, n)` and `memcpy(dst, src + at, n)`
abbrev pub copy_in : (ℕ → ℕ) → ℕ → (ℕ → ℕ) → ℕ → ℕ → ℕ
copy_in dst at src n j = if leb at j && ltb j (at + n) then src (j - at) else dst j

abbrev pub copy_out : (ℕ → ℕ) → (ℕ → ℕ) → ℕ → ℕ → ℕ → ℕ
copy_out dst src at n j = if ltb j n then src (at + j) else dst j

unfoldable pub os_queue_create :
    Option ℕ → Option (ℕ → ℕ) → ℕ → ℕ → SchedulePolicy → Kernel → OsErr × Kernel
os_queue_create none buffer item_size max_items policy k = (null_ptr, k)
os_queue_create (some q) none item_size max_items policy k = (null_ptr, k)
os_queue_create (some q) (some buffer) item_size max_items policy k =
    if item_size == 0 || max_items == 0
    then (out_of_range, k)
    else if is_policy policy
    then (let k₁ = set_queue k q (record {
      buffer = buffer;
      item_size = item_size;
      max_items = max_items;
      count = 0;
      head = 0;
      tail = 0;
      dropped_count = 0;
    }) in
        let k₂ =
          set_waitlist k₁ (send_list q) (waitlist_init policy (k₁.waitlists (send_list q))) in
        (ok, set_waitlist k₂ (recv_list q) (waitlist_init policy (k₂.waitlists (recv_list q)))))
    else (invalid_schedule_policy, k)

-- `deadline_tick`
abbrev pub deadline_of : ℕ → ℕ → ℕ
deadline_of timeout now = if timeout == os_wait_forever then 0 else u32 (now + timeout)

-- `remaining_timeout`, or none if the deadline is reached.
unfoldable pub remaining : ℕ → ℕ → Option ℕ
remaining deadline now =
    if deadline == 0
    then some os_wait_forever
    else if reached now deadline
    then none
    else some (u32 (deadline + 2 ^ 32 - now))

-- The part of the loop's body after the test that the queue is full (or empty).
unfoldable pub wait_for_queue : WaitlistRef → BlockReason → ℕ → ℕ → ℕ → Kernel → Reply × Kernel
wait_for_queue r block_reason timeout deadline prev k =
    if timeout == 0
    then (returned unavailable, port_exit_critical prev k)
    else elim (remaining deadline k.systick_count) [
      | none ↦ (returned unavailable, port_exit_critical prev k)
      | some left ↦ waitlist_block_current r left block_reason prev k
    ]

-- The ring buffer after `memcpy`, `count++` and the move of `head`.
unfoldable pub put_item : Queue → (ℕ → ℕ) → Queue
put_item v item = record v {
  buffer = copy_in v.buffer (u32 (v.head * v.item_size)) item v.item_size;
  count = u32 (v.count + 1);
  head = u32 (v.head + 1) % v.max_items;
}

-- The caller's item and the ring buffer after `memcpy`, `count--` (made at `count != 0` only) and
-- the move of `tail`.
unfoldable pub take_item : Queue → (ℕ → ℕ) → (ℕ → ℕ) × Queue
take_item v item = (
  copy_out item v.buffer (u32 (v.tail * v.item_size)) v.item_size,
  record v { count = v.count - 1; tail = u32 (v.tail + 1) % v.max_items },
)

-- Wakes a task of the other side, requests a switch if there was one, and ends the section.
unfoldable pub wake_other : WaitlistRef → ℕ → Kernel → Option Kernel
wake_other r prev k = do
  (u, k') ← waitlist_unblock r k
  some (port_exit_critical prev (elim u [ none ↦ k' | some t ↦ port_yield k' ]))

unfoldable pub send_attempt : ℕ → (ℕ → ℕ) → ℕ → ℕ → ℕ → Kernel → Option (Reply × Kernel)
send_attempt q item timeout deadline prev k =
    let v = k.queues q in
    let send = wake_other (recv_list q) prev (set_queue k q (put_item v item)) >>= λ k'.
    some (returned ok, k') in
    if leb v.max_items v.count
    then some (wait_for_queue (send_list q) on_queue_send timeout deadline prev k)
    else send

unfoldable pub os_queue_send_from_task :
    Option ℕ → Option (ℕ → ℕ) → ℕ → Kernel → Option (Reply × Kernel)
os_queue_send_from_task none item timeout k = some (returned null_ptr, k)
os_queue_send_from_task (some q) none timeout k = some (returned null_ptr, k)
os_queue_send_from_task (some q) (some item) timeout k =
    let (prev, k') = port_enter_critical k in
    send_attempt q item timeout (deadline_of timeout k.systick_count) prev k'

-- The caller runs again after it was blocked.
unfoldable pub os_queue_send_resume : ℕ → (ℕ → ℕ) → ℕ → ℕ → Kernel → Option (Reply × Kernel)
os_queue_send_resume q item timeout deadline k =
    let (prev, k') = port_enter_critical k in
    let again = send_attempt q item timeout deadline prev k' in
    if (current k).timeout then some (returned unavailable, k) else again

-- A failed send is counted.
abbrev pub count_dropped : Option ℕ → Reply × Kernel → Reply × Kernel
count_dropped (some q) (returned unavailable, k) = (
  returned unavailable,
  set_queue k q (record (k.queues q) { dropped_count = u32 ((k.queues q).dropped_count + 1) }),
)
count_dropped q r = r

unfoldable pub os_queue_send_from_isr : Option ℕ → Option (ℕ → ℕ) → Kernel → Option (Reply × Kernel)
os_queue_send_from_isr q item k = do
  r ← os_queue_send_from_task q item 0 k
  some (count_dropped q r)

-- The result of a receive: the reply, what the item pointer leads to, and the kernel.
abbrev pub Received : Type 0
Received = Reply × Option (ℕ → ℕ) × Kernel

unfoldable pub recv_attempt : ℕ → (ℕ → ℕ) → ℕ → ℕ → ℕ → Kernel → Option Received
recv_attempt q item timeout deadline prev k =
    let (item', v') = take_item (k.queues q) item in
    let recv = wake_other (send_list q) prev (set_queue k q v') >>= λ k'.
    some (returned ok, some item', k') in
    let (reply, k'') = wait_for_queue (recv_list q) on_queue_recv timeout deadline prev k in
    if (k.queues q).count == 0 then some (reply, some item, k'') else recv

unfoldable pub os_queue_recv_from_task : Option ℕ → Option (ℕ → ℕ) → ℕ → Kernel → Option Received
os_queue_recv_from_task none item timeout k = some (returned null_ptr, item, k)
os_queue_recv_from_task (some q) none timeout k = some (returned null_ptr, none, k)
os_queue_recv_from_task (some q) (some item) timeout k =
    let (prev, k') = port_enter_critical k in
    recv_attempt q item timeout (deadline_of timeout k.systick_count) prev k'

unfoldable pub os_queue_recv_resume : ℕ → (ℕ → ℕ) → ℕ → ℕ → Kernel → Option Received
os_queue_recv_resume q item timeout deadline k =
    let (prev, k') = port_enter_critical k in
    let again = recv_attempt q item timeout deadline prev k' in
    if (current k).timeout then some (returned unavailable, some item, k) else again

unfoldable pub os_queue_recv_from_isr : Option ℕ → Option (ℕ → ℕ) → Kernel → Option Received
os_queue_recv_from_isr q item k = os_queue_recv_from_task q item 0 k

-- ===== src/Queue/Delivery.antt =====
-- What a send and a receive do to the items of a queue, whoever they wake.
use ko_rtos.Base.{
  ℕ, ◌+◌, ◌<◌, ◌≡◌, ◌≢◌, refl, sym, ap, subst, ◌∙◌, ◌⊎◌, some, true, false, inl, inr, [], ◌∷◌, ◌++◌,
  leb, ◌==◌, update_self, arith,
}
use native.Mathlib.Decide.{dec_lt}
use ko_rtos.Types.{
  Kernel, Queue, WaitlistRef, send_list, recv_list, ok, unavailable, returned, u32, ◌>>=◌,
}
use ko_rtos.Queue.{
  set_queue, put_item, take_item, wake_other, send_attempt, recv_attempt, wait_for_queue,
  os_queue_send_from_task, os_queue_send_from_isr, os_queue_recv_from_task,
}
use ko_rtos.Queue.Fifo.{IsRing, Item, bytes, items, contents, put_item-contents, take_item-contents}
use ko_rtos.Invariant.{Inv}
use ko_rtos.Invariant.Unblocking.{awake, awake-Inv, unblock_cases}
use ko_rtos.Port.{port_exit_critical, port_yield}

-- Waking the other side leaves the queues alone.
wake_other-queues :
    (r : WaitlistRef) (prev : ℕ) (k : Kernel)
    → Inv k
    → (l : Kernel) × (wake_other r prev k ≡ some l) × (l.queues ≡ k.queues) × Inv l
unfolding wake_other
wake_other-queues r prev k v = elim (unblock_cases r k v) [
  | inl (_, e) ↦ (port_exit_critical prev k, rw e, refl, v)
  | inr w ↦ (
    port_exit_critical prev (port_yield (awake k r w.i w.t)),
    rw w.result,
    refl,
    awake-Inv r k v w,
  )
]

-- In `l` the queue has the items of `k` and, last, `item`.
pub record Sent (q : ℕ) (item : Item) (k l : Kernel) : Type 0 where
  pub inv : Inv l
  pub ring : IsRing (l.queues q)
  pub same_size : (l.queues q).item_size ≡ (k.queues q).item_size
  pub appended : contents (l.queues q) ≡ contents (k.queues q) ++ (item ∷ [])

-- On consistent tables, with a free slot in a well-formed queue, a send never waits, whatever its
-- timeout: it returns OS_OK, appends the bytes of its item to those in the queue, and leaves the queue
-- well formed and the tables consistent.
pub os_queue_send_from_task-Sent :
    (q : ℕ) (item : ℕ → ℕ) (timeout : ℕ) (k : Kernel)
    → Inv k
    → IsRing (k.queues q)
    → (k.queues q).count < (k.queues q).max_items
    → (l : Kernel) × (os_queue_send_from_task (some q) (some item) timeout k
        ≡ some (returned ok, l))
      × Sent q (bytes item 0 (k.queues q).item_size) k l
unfolding os_queue_send_from_task send_attempt put_item
os_queue_send_from_task-Sent q item timeout k v r h =
    let v' = put_item (k.queues q) item in
    let k' : Kernel = set_queue (record k { primask = 1 }) q v' in
    let (l, e, s, i) = wake_other-queues (recv_list q) k.primask k' v in
    let at_q : l.queues q ≡ v' = ap (λ f. f q) s ∙ update_self k.queues q v' in
    let (c, r') = put_item-contents (k.queues q) item r h in
    let not_full : leb (k.queues q).max_items (k.queues q).count ≡ false = ground arith in
    (
      l,
      rw (not_full, e, ◌>>=◌) refl,
      record {
        inv = i;
        ring = subst IsRing (sym at_q) r';
        same_size = ap (λ (x : Queue). x.item_size) at_q;
        appended = ap contents at_q ∙ c;
      },
    )

-- On consistent tables, with an item in a well-formed queue, a receive never waits, whatever its
-- timeout: it returns OS_OK and the bytes of the oldest item, which leaves the queue; the queue stays
-- well formed and the tables consistent.
pub os_queue_recv_from_task-oldest :
    (q : ℕ) (item : ℕ → ℕ) (timeout : ℕ) (k : Kernel)
    → Inv k
    → IsRing (k.queues q)
    → (k.queues q).count ≢ 0
    → (item' : ℕ → ℕ) × (l : Kernel) × (os_queue_recv_from_task (some q) (some item) timeout k
        ≡ some (returned ok, some item', l))
      × (contents (k.queues q) ≡ bytes item' 0 (k.queues q).item_size ∷ contents (l.queues q))
      × IsRing (l.queues q)
      × Inv l
unfolding os_queue_recv_from_task recv_attempt
os_queue_recv_from_task-oldest q item timeout k v r h =
    let (item', v') = take_item (k.queues q) item in
    let k' : Kernel = set_queue (record k { primask = 1 }) q v' in
    let (l, e, s, i) = wake_other-queues (send_list q) k.primask k' v in
    let at_q : l.queues q ≡ v' = ap (λ f. f q) s ∙ update_self k.queues q v' in
    let (c, r') = take_item-contents (k.queues q) item r h in
    let not_empty : ((k.queues q).count == 0) ≡ false = ground arith in
    (
      item',
      l,
      rw (not_empty, e, ◌>>=◌) refl,
      c ∙ ap (λ x. bytes item' 0 (k.queues q).item_size ∷ contents x) (sym at_q),
      subst IsRing (sym at_q) r',
      i,
    )

send_refused :
    (q : ℕ) (item : ℕ → ℕ) (k : Kernel)
    → leb (k.queues q).max_items (k.queues q).count ≡ true
    → os_queue_send_from_isr (some q) (some item) k
      ≡ some (
        returned unavailable,
        set_queue k q
            (record (k.queues q) { dropped_count = u32 ((k.queues q).dropped_count + 1) }),
      )
unfolding os_queue_send_from_isr os_queue_send_from_task send_attempt wait_for_queue
send_refused q item k full = rw full refl

-- On consistent tables and a well-formed queue, a send in an interrupt returns OS_OK and appends the
-- item, or, at a full queue, returns OS_ERR_UNAVAILABLE, adds one to `dropped_count` and changes
-- nothing else.
pub os_queue_send_from_isr-outcome :
    (q : ℕ) (item : ℕ → ℕ) (k : Kernel)
    → Inv k
    → IsRing (k.queues q)
    → (l : Kernel) × (((os_queue_send_from_isr (some q) (some item) k ≡ some (returned ok, l))
          × Sent q (bytes item 0 (k.queues q).item_size) k l)
        ⊎ (((k.queues q).count ≡ (k.queues q).max_items)
            × (os_queue_send_from_isr (some q) (some item) k ≡ some (returned unavailable, l))
            × (l
                ≡ set_queue k q (record (k.queues q) {
                  dropped_count = u32 ((k.queues q).dropped_count + 1);
                }))))
unfolding os_queue_send_from_isr
os_queue_send_from_isr-outcome q item k v r =
    elim (dec_lt (k.queues q).count (k.queues q).max_items) [
      | yes h ↦
          let (l, e, s) = os_queue_send_from_task-Sent q item 0 k v r h in
          (l, inl (rw (e, ◌>>=◌) refl, s))
      | no h ↦
          let full : leb (k.queues q).max_items (k.queues q).count ≡ true = ground arith in
          (_, inr (omega (arith, r.count_le), send_refused q item k full, refl))
    ]

no_items : (v : Queue) → v.count ≡ 0 → contents v ≡ []
no_items v z = ap (λ n. items v.buffer v.item_size v.max_items v.tail n) z

-- On consistent tables, a receive after a send into a well-formed empty queue returns the bytes that
-- were sent, and leaves the queue empty.
pub os_queue_send-recv :
    (q : ℕ) (item dst : ℕ → ℕ) (timeout timeout' : ℕ) (k : Kernel)
    → Inv k
    → IsRing (k.queues q)
    → (k.queues q).count ≡ 0
    → (item' : ℕ → ℕ) × (l : Kernel) × ((os_queue_send_from_task (some q) (some item) timeout k
          >>= λ x. os_queue_recv_from_task (some q) (some dst) timeout' x.1)
        ≡ some (returned ok, some item', l))
      × (bytes item' 0 (k.queues q).item_size ≡ bytes item 0 (k.queues q).item_size)
      × (contents (l.queues q) ≡ [])
os_queue_send-recv q item dst timeout timeout' k v r z =
    let (l, e, s) =
      os_queue_send_from_task-Sent q item timeout k v r (omega (arith, r.has_slots)) in
    let whole : contents (l.queues q) ≡ bytes item 0 (k.queues q).item_size ∷ [] =
      s.appended
      ∙ ap (λ x. x ++ (bytes item 0 (k.queues q).item_size ∷ [])) (no_items (k.queues q) z) in
    let (item', l', e', c, _, _) =
      os_queue_recv_from_task-oldest q dst timeout' l s.inv s.ring
        (λ n. let none_left = no_items (l.queues q) n in cc) in
    let size = ap (λ n. bytes item' 0 n) s.same_size in (item', l', rw (e, ◌>>=◌) e', cc, cc)

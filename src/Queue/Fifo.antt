-- ===== src/Queue/Fifo.antt =====
-- The ring buffer as a queue of items: what a send appends is what a receive takes out first.
use ko_rtos.Base.{
  ℕ, zero, suc, ◌+◌, ◌-◌, ◌*◌, ◌%◌, ◌^◌, ◌≤◌, ◌<◌, ◌≡◌, ◌≢◌, refl, sym, ap, subst, ◌∙◌, ◌⊎◌, inl,
  inr, List, [], ◌∷◌, ◌++◌, arith,
}
use mathlib.Core.Path.{ap₂}
use native.Mathlib.Nat.{mod-add-mod, mod-lt, mod-eq_of_lt, mod-eq-sub-mod, add-zero}
use native.Mathlib.Decide.{dec_lt}
use ko_rtos.Types.{Queue, u32}
use ko_rtos.Queue.{copy_in, copy_out, put_item, take_item}

-- An item is the list of its bytes.
abbrev pub Item : Type 0
Item = List ℕ

-- The `n` bytes from offset `off` on.
abbrev pub bytes : (ℕ → ℕ) → ℕ → ℕ → Item
bytes f off zero = []
bytes f off (suc n) = f off ∷ bytes f (suc off) n

-- The item in slot `s`.
abbrev pub slot : (ℕ → ℕ) → ℕ → ℕ → Item
slot buffer size s = bytes buffer (s * size) size

-- The `n` items from slot `s` on, going round at `max`.
abbrev pub items : (ℕ → ℕ) → ℕ → ℕ → ℕ → ℕ → List Item
items buffer size max s zero = []
items buffer size max s (suc n) = slot buffer size s ∷ items buffer size max ((s + 1) % max) n

-- The items of a queue, oldest first.
abbrev pub contents : Queue → List Item
contents v = items v.buffer v.item_size v.max_items v.tail v.count

-- The indices are in range, `head` is `count` slots after `tail`, and the storage can be addressed.
pub record IsRing (v : Queue) : Type 0 where
  pub has_slots : 0 < v.max_items
  pub addressed : v.max_items * v.item_size < 2 ^ 32
  pub slots_fit : v.max_items < 2 ^ 32
  pub count_le : v.count ≤ v.max_items
  pub tail_lt : v.tail < v.max_items
  pub head_eq : v.head ≡ (v.tail + v.count) % v.max_items

bytes-ext :
    (f g : ℕ → ℕ) (off n : ℕ)
    → ((i : ℕ) → off ≤ i → i < off + n → f i ≡ g i)
    → bytes f off n ≡ bytes g off n
bytes-ext f g off zero h = refl
bytes-ext f g off (suc n) h =
    ap₂ ◌∷◌ (h off (omega arith) (omega arith))
      (bytes-ext f g (suc off) n (λ i a b. h i (omega arith) (omega arith)))

-- Bytes read at another offset.
bytes-shift :
    (f g : ℕ → ℕ) (a b n : ℕ)
    → ((i : ℕ) → i < n → f (a + i) ≡ g (b + i))
    → bytes f a n ≡ bytes g b n
bytes-shift f g a b zero h = refl
bytes-shift f g a b (suc n) h =
    ap₂ ◌∷◌ (ap f (omega arith) ∙ h 0 (omega arith) ∙ ap g (omega arith)) (
      bytes-shift f g (suc a) (suc b) n
        (λ i l. ap f (omega arith) ∙ h (suc i) (omega arith) ∙ ap g (omega arith)))

copy_in-inside : (dst src : ℕ → ℕ) (at n i : ℕ) → i < n → copy_in dst at src n (at + i) ≡ src i
copy_in-inside dst src at n i l =
    let e : at + i - at ≡ i = omega arith in let e' = ap src e in ground arith

copy_in-outside :
    (dst src : ℕ → ℕ) (at n i : ℕ) → (i < at) ⊎ (at + n ≤ i) → copy_in dst at src n i ≡ dst i
copy_in-outside dst src at n i h = ground arith

slots_apart : (size s h : ℕ) → s < h → s * size + size ≤ h * size
slots_apart size s h l = grind arith

-- A copy into slot `h` is read back from it, and is not seen in another slot.
slot-copy_in_self :
    (buffer item : ℕ → ℕ) (size h : ℕ)
    → slot (copy_in buffer (h * size) item size) size h ≡ bytes item 0 size
slot-copy_in_self buffer item size h =
    bytes-shift _ item (h * size) 0 size
      (λ i l. copy_in-inside buffer item (h * size) size i l ∙ ap item (omega arith))

slot-copy_in_ne :
    (buffer item : ℕ → ℕ) (size h s : ℕ)
    → s ≢ h
    → slot (copy_in buffer (h * size) item size) size s ≡ slot buffer size s
slot-copy_in_ne buffer item size h s n =
    bytes-ext _ buffer (s * size) size
      (λ i a b. copy_in-outside buffer item (h * size) size i (apart i a b))
  where
    apart : (i : ℕ) → s * size ≤ i → i < s * size + size → (i < h * size) ⊎ (h * size + size ≤ i)
    apart i a b = elim (dec_lt s h) [
      | yes l ↦ inl (omega (arith, slots_apart size s h l))
      | no l ↦ inr (omega (arith, slots_apart size h s (omega arith)))
    ]

-- Fewer than `max` steps round the ring do not come back.
turn-ne : (max s n : ℕ) → s < max → suc n < max → (s + suc n) % max ≢ s
turn-ne max s n h l e = elim (dec_lt (s + suc n) max) [
  | yes p ↦ omega (arith, mod-eq_of_lt p)
  | no p ↦
      let back : (s + suc n) % max ≡ s + suc n - max =
        mod-eq-sub-mod {n = s + suc n} {m = max} (omega arith)
        ∙ mod-eq_of_lt {n = s + suc n - max} {m = max} (omega arith) in
      omega arith
]

-- Writing the slot after the last item appends the item.
items-put :
    (buffer item : ℕ → ℕ) (size max s n : ℕ)
    → s < max
    → n < max
    → items (copy_in buffer ((s + n) % max * size) item size) size max s (suc n)
      ≡ items buffer size max s n ++ (bytes item 0 size ∷ [])
items-put buffer item size max s zero h l =
    let here : (s + 0) % max ≡ s = rw add-zero (mod-eq_of_lt h) in
    rw here (ap (λ x. x ∷ []) (slot-copy_in_self buffer item size s))
items-put buffer item size max s (suc n) h l =
    let next : (s + suc n) % max ≡ ((s + 1) % max + n) % max =
      sym (rw mod-add-mod (ap (λ x. x % max) (omega arith))) in
    let later = items-put buffer item size max ((s + 1) % max) n (omega arith) (omega arith) in
    ap₂ ◌∷◌ (slot-copy_in_ne buffer item size _ s (λ e. turn-ne max s n h l (sym e))) (
      subst
        (λ x.
          items (copy_in buffer (x * size) item size) size max ((s + 1) % max) (suc n)
          ≡ items buffer size max ((s + 1) % max) n ++ (bytes item 0 size ∷ []))
        (sym next) later)

items-unfold :
    (buffer : ℕ → ℕ) (size max s n : ℕ)
    → n ≢ 0
    → items buffer size max s n ≡ slot buffer size s ∷ items buffer size max ((s + 1) % max) (n - 1)
items-unfold buffer size max s zero h = absurd (h refl)
items-unfold buffer size max s (suc n) h =
    ap (λ x. slot buffer size s ∷ items buffer size max ((s + 1) % max) x) (omega arith)

slot_fits : (max size s : ℕ) → s < max → max * size < 2 ^ 32 → s * size < 2 ^ 32
slot_fits max size s h l = omega (arith, slots_apart size s max h)

more_fits : (v : Queue) → IsRing v → v.count < v.max_items → u32 (v.count + 1) ≡ suc v.count
more_fits v r h = let a = r.slots_fit in omega arith

on_fits : (v : Queue) → IsRing v → u32 (v.tail + 1) ≡ v.tail + 1
on_fits v r = let a = r.slots_fit in let b = r.tail_lt in omega arith

head_fits :
    (v : Queue)
    → IsRing v
    → u32 ((v.tail + v.count) % v.max_items + 1) ≡ (v.tail + v.count) % v.max_items + 1
head_fits v r =
    let a = r.slots_fit in
    let b : (v.tail + v.count) % v.max_items < v.max_items = mod-lt _ r.has_slots in omega arith

bytes-copy_out : (dst src : ℕ → ℕ) (at n : ℕ) → bytes (copy_out dst src at n) 0 n ≡ bytes src at n
bytes-copy_out dst src at n = bytes-shift _ src 0 at n (λ i l. ground arith)

-- In a well-formed queue with a free slot, `memcpy` and the index arithmetic of a send append the
-- item's bytes to the contents and keep the ring well formed.
pub put_item-contents :
    (v : Queue) (item : ℕ → ℕ)
    → IsRing v
    → v.count < v.max_items
    → (contents (put_item v item) ≡ contents v ++ (bytes item 0 v.item_size ∷ []))
      × IsRing (put_item v item)
unfolding put_item
put_item-contents v item r h =
    let tail_in : (v.tail + v.count) % v.max_items < v.max_items = mod-lt _ r.has_slots in
    let at : u32 (v.head * v.item_size) ≡ (v.tail + v.count) % v.max_items * v.item_size =
      rw r.head_eq (mod-eq_of_lt (slot_fits v.max_items v.item_size _ tail_in r.addressed)) in
    let more : u32 (v.count + 1) ≡ suc v.count = more_fits v r h in
    (
      rw (at, more) (items-put v.buffer item v.item_size v.max_items v.tail v.count r.tail_lt h),
      record {
        has_slots = r.has_slots;
        addressed = r.addressed;
        slots_fit = r.slots_fit;
        count_le = omega (arith, more);
        tail_lt = r.tail_lt;
        head_eq =
            rw (r.head_eq, head_fits v r, mod-add-mod)
              (ap (λ x. x % v.max_items) (omega (arith, more)));
      },
    )

-- In a well-formed queue that is not empty, a receive copies the bytes of the oldest item to the
-- caller, takes it out of the contents, and keeps the ring well formed.
pub take_item-contents :
    (v : Queue) (item : ℕ → ℕ)
    → IsRing v
    → v.count ≢ 0
    → let (item', v') = take_item v item in
      (contents v ≡ bytes item' 0 v.item_size ∷ contents v') × IsRing v'
unfolding take_item
take_item-contents v item r h =
    let at : u32 (v.tail * v.item_size) ≡ v.tail * v.item_size =
      mod-eq_of_lt (slot_fits v.max_items v.item_size _ r.tail_lt r.addressed) in
    let on : u32 (v.tail + 1) ≡ v.tail + 1 = on_fits v r in
    (
      rw (at, on)
          (items-unfold v.buffer v.item_size v.max_items v.tail v.count h
            ∙ ap
                (λ x.
                  x
                  ∷ items v.buffer v.item_size v.max_items ((v.tail + 1) % v.max_items)
                      (v.count - 1))
                (sym (bytes-copy_out item v.buffer (v.tail * v.item_size) v.item_size))),
      record {
        has_slots = r.has_slots;
        addressed = r.addressed;
        slots_fit = r.slots_fit;
        count_le = omega (arith, r.count_le);
        tail_lt = mod-lt _ r.has_slots;
        head_eq = rw (on, mod-add-mod) (r.head_eq ∙ ap (λ x. x % v.max_items) (omega arith));
      },
    )

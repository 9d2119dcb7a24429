-- ===== src/Hal/Can/Frame.antt =====
-- A frame that is loaded into a mailbox and comes back in a FIFO, as in the loopback mode.
use ko_rtos.Base.{
  ℕ, zero, suc, ◌+◌, ◌-◌, ◌*◌, ◌/◌, ◌%◌, ◌^◌, ◌≤◌, ◌<◌, ◌≡◌, ◌≢◌, refl, sym, ap, ◌∙◌, ltb, leb,
  ◌==◌, ◌&&◌, if◌then◌else◌, true, arith,
}
use Prim.Native.Nat.{bit_and, bit_or, min}
use native.Mathlib.Nat.{mod-lt}
use native.Mathlib.Decide.{dec_lt}
use ko_rtos.Base.Bits.{bit, bit-le, bit-or, bit-and, bit-shl, bits-ext, bit_and-lt_right, bit-shr}
use ko_rtos.Hal.{Regs, storage, shl32}
use ko_rtos.Hal.Fields.{two_pow_pos, bit-mod, bit-ones, bit-high, field, field-bit, masked-field}
use ko_rtos.Hal.Can.{CanFrame, after_loads}
use ko_rtos.Hal.Can.Transmit.{frame_is_valid, tir_value, data_word, load_frame}
use ko_rtos.Hal.Can.Receive.{rx_byte, decode_frame}

bit-shl32 : (x k i : ℕ) → i < 32 → bit (shl32 x k) i ≡ (if ltb i k then 0 else bit x (i - k))
bit-shl32 x k i l = bit-mod 32 (x * 2 ^ k) i l ∙ bit-shl x k i

-- A bit of a flag.
bit-flag : (x i : ℕ) → x < 2 → bit x i ≡ (if i == 0 then x else 0)
unfolding bit
bit-flag x zero p = omega arith
bit-flag x (suc i) p = bit-high 1 x (suc i) p (omega arith) ∙ ground arith

bit-kind :
    (t r i : ℕ)
    → t < 2
    → r < 2
    → i < 32
    → bit (bit_or (shl32 t 2) (shl32 r 1)) i ≡ (if i == 1 then r else if i == 2 then t else 0)
bit-kind t r i p q l =
    bit-or (shl32 t 2) (shl32 r 1) i
    ∙ ground
        (arith, bit-shl32 t 2 i l, bit-shl32 r 1 i l, bit-flag t (i - 2) p, bit-flag r (i - 1) q)

-- The bits of a frame's TIR after the request.
bit-tir :
    (kind id_bits t r i : ℕ)
    → bit kind i ≡ (if i == 1 then r else if i == 2 then t else 0)
    → (i < 3 → bit id_bits i ≡ 0)
    → bit (bit_or (bit_or kind id_bits) (2 ^ 0)) i
      ≡ (if i == 0 then 1 else if i == 1 then r else if i == 2 then t else bit id_bits i)
bit-tir kind id_bits t r i k low =
    let a = bit-or (bit_or kind id_bits) 1 i in
    let b = bit-or kind id_bits i in
    let c = bit-flag 1 i (omega arith) in ground (arith, a, b, c, bit-le kind i)

bit-byte :
    (x n i : ℕ)
    → x < 2 ^ 8
    → i < 32
    → bit (shl32 x n) i ≡ (if leb n i && ltb i (n + 8) then bit x (i - n) else 0)
bit-byte x n i p l = ground (arith, bit-shl32 x n i l, bit-high 8 x (i - n) p)

bit-data_word :
    (d : ℕ → ℕ) (k i : ℕ)
    → ((j : ℕ) → d j < 2 ^ 8)
    → i < 32
    → bit (data_word d k) i ≡ (
        if ltb i 8
        then bit (d k) i
        else if ltb i 16
        then bit (d (k + 1)) (i - 8)
        else if ltb i 24
        then bit (d (k + 2)) (i - 16)
        else bit (d (k + 3)) (i - 24))
unfolding data_word
bit-data_word d k i small l =
    let low = bit_or (shl32 (d (k + 1)) 8) (d k) in
    let mid = bit_or (shl32 (d (k + 2)) 16) low in
    let a : bit low i
        ≡ (if ltb i 8 then bit (d k) i else if ltb i 16 then bit (d (k + 1)) (i - 8) else 0) =
      bit-or (shl32 (d (k + 1)) 8) (d k) i
      ∙ ground (arith, bit-byte (d (k + 1)) 8 i (small (k + 1)) l, bit-high 8 (d k) i (small k)) in
    let b : bit mid i
        ≡ (if ltb i 16 then bit low i else if ltb i 24 then bit (d (k + 2)) (i - 16) else 0) =
      bit-or (shl32 (d (k + 2)) 16) low i
      ∙ ground (arith, a, bit-byte (d (k + 2)) 16 i (small (k + 2)) l) in
    bit-or (shl32 (d (k + 3)) 24) mid i
    ∙ ground (arith, a, b, bit-byte (d (k + 3)) 24 i (small (k + 3)) l)

pub byte_at :
    (d : ℕ → ℕ) (k i : ℕ) → ((j : ℕ) → d j < 2 ^ 8) → i < 4 → rx_byte (data_word d k) i ≡ d (k + i)
unfolding rx_byte
byte_at d k i small l =
    let w = data_word d k in
    bits-ext 8 _ _ (bit_and-lt_right 8 (w / 2 ^ (8 * i)) 255 (omega arith)) (small (k + i)) (λ j m.
      bit-and (w / 2 ^ (8 * i)) 255 j
      ∙ ap (λ x. min x (bit 255 j)) (bit-shr w (8 * i) j)
      ∙ ground (arith, bit-ones 8 j, bit-le w (8 * i + j), within i j l m))
  where
    within : (i j : ℕ) → i < 4 → j < 8 → bit (data_word d k) (8 * i + j) ≡ bit (d (k + i)) j
    within zero j l m =
        let e : 8 * 0 + j ≡ j = omega arith in
        let e' : k ≡ k + 0 = omega arith in
        bit-data_word d k (8 * 0 + j) small (omega arith)
        ∙ ground (arith, ap (bit (d k)) e, ap (λ x. bit (d x) j) e')
    within (suc zero) j l m =
        let e : 8 * 1 + j - 8 ≡ j = omega arith in
        bit-data_word d k (8 * 1 + j) small (omega arith) ∙ ground (arith, ap (bit (d (k + 1))) e)
    within (suc (suc zero)) j l m =
        let e : 8 * 2 + j - 16 ≡ j = omega arith in
        bit-data_word d k (8 * 2 + j) small (omega arith) ∙ ground (arith, ap (bit (d (k + 2))) e)
    within (suc (suc (suc zero))) j l m =
        let e : 8 * 3 + j - 24 ≡ j = omega arith in
        bit-data_word d k (8 * 3 + j) small (omega arith) ∙ ground (arith, ap (bit (d (k + 3))) e)
    within (suc (suc (suc (suc i)))) j l m = absurd (omega arith)

pub loads_quiet : (a n : ℕ) (m : Regs) → after_loads storage a n m ≡ m
unfolding after_loads
loads_quiet a zero m = refl
loads_quiet a (suc n) m = loads_quiet a n m

-- In the loopback mode the FIFO at `b` has what the mailbox at `a` was loaded with. The bit TXRQ of
-- TIR is not in the FIFO, and the length register has a time stamp beside the length.
pub record Carries (a b : ℕ) (m l : Regs) : Type 0 where
  pub identifier : l b / 2 ≡ m a / 2
  pub size : l (b + 4) % 2 ^ 4 ≡ m (a + 4) % 2 ^ 4
  pub low : l (b + 8) ≡ m (a + 8)
  pub high : l (b + 12) ≡ m (a + 12)

module _ (f : CanFrame) (a b : ℕ) (m l : Regs) (uninit : CanFrame) (valid : frame_is_valid f ≡ true)
    (c : Carries a b (load_frame storage a f m) l) where
  word : ℕ
  word = bit_or (tir_value f) (2 ^ 0)

  loaded :
      (load_frame storage a f m a ≡ word)
      × ((load_frame storage a f m (a + 4) ≡ f.dlc)
          × ((load_frame storage a f m (a + 8) ≡ data_word f.payload 0)
              × (load_frame storage a f m (a + 12) ≡ data_word f.payload 4)))
  unfolding load_frame word
  loaded = ground arith

  -- Above bit 0 the FIFO has the bits of TIR.
  field-received : (w pos : ℕ) → suc pos + w ≤ 32 → field w (suc pos) (l b) ≡ field w (suc pos) word
  field-received w pos room =
      bits-ext w _ _ (mod-lt _ (two_pow_pos w)) (mod-lt _ (two_pow_pos w))
        (λ i p. field-bit w (suc pos) (l b) i p ∙ above i ∙ sym (field-bit w (suc pos) word i p))
    where
      above : (i : ℕ) → bit (l b) (suc pos + i) ≡ bit word (suc pos + i)
      above i =
          let e : suc pos + i ≡ 1 + (pos + i) = omega arith in
          let same : l b / 2 ≡ word / 2 = c.identifier ∙ ap (λ x. x / 2) loaded.0 in
          ap (bit (l b)) e
          ∙ sym (bit-shr (l b) 1 (pos + i))
          ∙ ap (λ x. bit x (pos + i)) same
          ∙ bit-shr word 1 (pos + i)
          ∙ ap (bit word) (sym e)

  id_bits : ℕ
  id_bits = if f.id_type == 0 then shl32 f.id 21 else shl32 f.id 3

  bit-word :
      (i : ℕ)
      → i < 32
      → bit word i ≡ (
          if i == 0
          then 1
          else if i == 1
          then f.frame_type
          else if i == 2
          then f.id_type
          else bit id_bits i)
  unfolding word tir_value id_bits
  bit-word i p =
      let kind = bit_or (shl32 f.id_type 2) (shl32 f.frame_type 1) in
      let split : tir_value f ≡ bit_or kind id_bits = ground arith in
      let t : f.id_type < 2 = ground arith in
      let r : f.frame_type < 2 = ground arith in
      ap (λ x. bit (bit_or x 1) i) split
      ∙ bit-tir kind id_bits f.id_type f.frame_type i (bit-kind f.id_type f.frame_type i t r p)
          (λ low. ground (arith, bit-shl32 f.id 21 i p, bit-shl32 f.id 3 i p))

  field-type : field 1 2 word ≡ f.id_type
  field-type =
      let t : f.id_type < 2 = ground arith in
      bits-ext 1 _ _ (mod-lt _ (two_pow_pos 1)) t (λ i p.
        field-bit 1 2 word i p
        ∙ bit-word (2 + i) (omega arith)
        ∙ ground (arith, bit-flag f.id_type i t))

  field-standard : f.id_type ≡ 0 → field 11 21 word ≡ f.id
  unfolding id_bits
  field-standard e =
      let small : f.id < 2 ^ 11 = ground arith in
      bits-ext 11 _ _ (mod-lt _ (two_pow_pos 11)) small (λ i p.
        let q : 21 + i - 21 ≡ i = omega arith in
        field-bit 11 21 word i p
        ∙ bit-word (21 + i) (omega arith)
        ∙ ground (arith, bit-shl32 f.id 21 (21 + i) (omega arith), ap (bit f.id) q))

  field-extended : f.id_type ≢ 0 → field 18 3 word ≡ f.id % 2 ^ 18
  unfolding id_bits
  field-extended n = bits-ext 18 _ _ (mod-lt _ (two_pow_pos 18)) (mod-lt _ (two_pow_pos 18)) (λ i p.
      let q : 3 + i - 3 ≡ i = omega arith in
      field-bit 18 3 word i p
      ∙ bit-word (3 + i) (omega arith)
      ∙ ground
          (arith, bit-shl32 f.id 3 (3 + i) (omega arith), ap (bit f.id) q, bit-mod 18 f.id i p))

  received-id :
      ((decode_frame storage b uninit l).0).id ≡ (if f.id_type == 0 then f.id else f.id % 2 ^ 18)
  unfolding decode_frame
  received-id =
      let ide =
        masked-field 1 2 (l b) (omega arith) ∙ field-received 1 1 (omega arith) ∙ field-type in
      let stid = masked-field 11 21 (l b) (omega arith) ∙ field-received 11 20 (omega arith) in
      let exid = masked-field 18 3 (l b) (omega arith) ∙ field-received 18 2 (omega arith) in
      rw ide (ground (arith, stid, exid, field-standard, field-extended))

  received-dlc : ((decode_frame storage b uninit l).0).dlc ≡ f.dlc
  unfolding decode_frame after_loads
  received-dlc =
      let v = l (b + 4) in
      let short : f.dlc ≤ 8 = ground arith in
      let low_bits : bit_and v 0xf ≡ v % 2 ^ 4 = omega (arith, masked-field 4 0 v (omega arith)) in
      low_bits ∙ c.size ∙ omega (arith, loaded.1.0)

  received-payload :
      ((j : ℕ) → f.payload j < 2 ^ 8)
      → (i : ℕ) → i < 8
      → ((decode_frame storage b uninit l).0).payload i ≡ f.payload i
  unfolding decode_frame after_loads
  received-payload small i p =
      let first =
        ap (λ x. rx_byte (x (b + 8)) i) (loads_quiet (b + 8) i l)
        ∙ ap (λ x. rx_byte x i) (c.low ∙ loaded.1.1.0) in
      let second =
        ap (λ x. rx_byte (x (b + 12)) (i - 4)) (loads_quiet (b + 12) (i - 4) l)
        ∙ ap (λ x. rx_byte x (i - 4)) (c.high ∙ loaded.1.1.1) in
      elim (dec_lt i 4) [
        | yes q ↦ ground (
          arith,
          first,
          byte_at f.payload 0 i small q,
          ap f.payload {x = 0 + i} {y = i} (omega arith),
        )
        | no q ↦ ground (
          arith,
          second,
          byte_at f.payload 4 (i - 4) small (omega arith),
          ap f.payload {x = 4 + (i - 4)} {y = i} (omega arith),
        )
      ]

-- A valid frame with data bytes that is loaded into a mailbox, on registers that keep what is
-- written, and arrives in a FIFO, is read with its length and its eight data bytes. A standard
-- identifier is read as it is; of an extended identifier the lower 18 of its 29 bits.
pub decode-load :
    (f uninit : CanFrame) (a b : ℕ) (m l : Regs)
    → frame_is_valid f ≡ true
    → ((j : ℕ) → f.payload j < 2 ^ 8)
    → Carries a b (load_frame storage a f m) l
    → let g = (decode_frame storage b uninit l).0 in
      (g.id ≡ (if f.id_type == 0 then f.id else f.id % 2 ^ 18))
      × (g.dlc ≡ f.dlc)
      × ((i : ℕ) → i < 8 → g.payload i ≡ f.payload i)
decode-load f uninit a b m l valid small c = (
  received-id f a b m l uninit valid c,
  received-dlc f a b m l uninit valid c,
  received-payload f a b m l uninit valid c small,
)

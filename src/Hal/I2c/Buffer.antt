-- ===== src/Hal/I2c/Buffer.antt =====
-- The bytes of a reception but the last: what the interrupts store.
use ko_rtos.Base.{
  ℕ, suc, ltb, ◌+◌, ◌%◌, ◌^◌, ◌≤◌, ◌<◌, ◌≡◌, ◌≢◌, refl, sym, ap, subst, ◌∙◌, true, ◌==◌, ◌&&◌,
  if◌then◌else◌, Bool-cases, inl, inr, List, [], ◌∷◌, ◌++◌, update, arith,
}
use Prim.Native.Nat.{bit_and}
use ko_rtos.Base.Bits.{bit}
use ko_rtos.Hal.{not32}
use ko_rtos.Hal.Fields.{bit-cleared}
use ko_rtos.Hal.Address.{i2c_sr2, i2c_cr1, i2c_cr2}
use ko_rtos.Hal.I2c.{I2cState, i2c_manage_acking}
use ko_rtos.Hal.I2c.Sections.{shown, interrupt, Active, Active-same}
use ko_rtos.Hal.I2c.Transmission.{stop_at}
use ko_rtos.Hal.I2c.Arrivals.{arrived, byte_received, more-interrupt}

abbrev pub length : List ℕ → ℕ
length [] = 0
length (d ∷ ds) = suc (length ds)

-- A buffer after bytes have been stored in it one after the other.
abbrev pub written : (ℕ → ℕ) → ℕ → List ℕ → ℕ → ℕ
written mem buf [] = mem
written mem buf (d ∷ ds) = written (update mem buf (d % 2 ^ 8)) (buf + 1) ds

-- An interrupt of RxNE for each of the bytes that arrive.
unfoldable pub arrivals : List ℕ → I2cState → I2cState
arrivals [] s = s
arrivals (d ∷ ds) s = arrivals ds (interrupt (2 ^ 6) (arrived d s))

abbrev pub ack_at : ℕ → I2cState → ℕ
ack_at p s = bit (s.regs (p + i2c_cr1)) 10

byte_received-keeps :
    (d n x : ℕ) (s : I2cState)
    → x ≢ i2c_cr1
    → (byte_received d n s).regs (s.handle.p_i2cx + x) ≡ s.regs (s.handle.p_i2cx + x)
unfolding i2c_manage_acking
byte_received-keeps d n x s h = elim (Bool-cases (s.handle.rx_len == 2)) [
  | inl q ↦ rw q (ground arith)
  | inr q ↦ rw q refl
]

-- The acknowledge bit goes when two bytes are left, and no other bit of CR1 changes.
byte_received-cr1 :
    (d n i : ℕ) (s : I2cState)
    → i < 32
    → bit ((byte_received d n s).regs (s.handle.p_i2cx + i2c_cr1)) i
      ≡ (if s.handle.rx_len == 2 && i == 10 then 0 else bit (s.regs (s.handle.p_i2cx + i2c_cr1)) i)
unfolding i2c_manage_acking
byte_received-cr1 d n i s l =
    let v = s.regs (s.handle.p_i2cx + i2c_cr1) in
    elim (Bool-cases (s.handle.rx_len == 2)) [
      | inl q ↦ rw q (
          ap (λ x. bit x i) {y = bit_and v (not32 (2 ^ 10))} (ground arith)
          ∙ bit-cleared v 10 i (omega arith) l)
      | inr q ↦ rw q refl
    ]

-- The acknowledge bit after the bytes but the last.
abbrev pub ack_after : List ℕ → ℕ → ℕ
ack_after [] x = x
ack_after (d ∷ ds) x = 0

ack-byte_received :
    (d : ℕ) (ds : List ℕ) (s : I2cState)
    → s.handle.rx_len ≡ suc (suc (length ds))
    → ack_after ds (ack_at s.handle.p_i2cx (byte_received d (suc (length ds)) s)) ≡ 0
ack-byte_received d [] s len =
    let two : (s.handle.rx_len == 2) ≡ true = ground arith in
    byte_received-cr1 d 1 10 s (omega arith) ∙ rw two refl
ack-byte_received d (_ ∷ _) s len = refl

stop-byte_received :
    (d n : ℕ) (s : I2cState)
    → stop_at s.handle.p_i2cx (byte_received d n s) ≡ stop_at s.handle.p_i2cx s
stop-byte_received d n s =
    byte_received-cr1 d n 9 s (omega arith)
    ∙ (elim (Bool-cases (s.handle.rx_len == 2)) [ inl q ↦ rw q refl | inr q ↦ rw q refl ])

-- Of a state before bytes arrive and the state after, with one byte left.
pub record Stored (ds : List ℕ) (s t : I2cState) : Type 0 where
  pub active : Active t
  pub base : t.handle.p_i2cx ≡ s.handle.p_i2cx
  pub busy : t.handle.txrxstate ≡ 2
  pub left : t.handle.rx_len ≡ 1
  pub size : t.handle.rx_size ≡ s.handle.rx_size
  pub repeated : t.handle.repeated_start ≡ s.handle.repeated_start
  pub silent : t.events ≡ s.events
  pub memory : t.memory ≡ written s.memory s.handle.p_rx_buffer ds
  pub buffer : t.handle.p_rx_buffer ≡ s.handle.p_rx_buffer + length ds
  pub ack : ack_at s.handle.p_i2cx t ≡ ack_after ds (ack_at s.handle.p_i2cx s)
  pub stop : stop_at s.handle.p_i2cx t ≡ stop_at s.handle.p_i2cx s

pub arrivals-Stored :
    (ds : List ℕ) (s : I2cState)
    → Active s
    → s.handle.txrxstate ≡ 2
    → s.handle.rx_len ≡ suc (length ds)
    → suc (length ds) ≤ s.handle.rx_size
    → suc (length ds) < 2 ^ 32
    → Stored ds s (arrivals ds s)
unfolding arrivals
arrivals-Stored [] s a b len size small = record {
  active = a;
  base = refl;
  busy = b;
  left = len;
  size = refl;
  repeated = refl;
  silent = refl;
  memory = refl;
  buffer = omega arith;
  ack = refl;
  stop = refl;
}
arrivals-Stored (d ∷ ds) s a b len size small =
    let n = suc (length ds) in
    let several : ltb 1 s.handle.rx_size ≡ true = ground arith in
    let c = shown (2 ^ 6) (arrived d s) in
    let t = byte_received d n c in
    let same : c.regs (s.handle.p_i2cx + i2c_cr1) ≡ s.regs (s.handle.p_i2cx + i2c_cr1) =
      ground arith in
    let a' =
      Active-same s t (byte_received-keeps d n i2c_cr2 c (λ q. omega (arith, q)) ∙ ground arith)
        (byte_received-keeps d n i2c_sr2 c (λ q. omega (arith, q)) ∙ ground arith) a in
    let r = arrivals-Stored ds t a' b refl (omega arith) (omega arith) in
    subst (λ x. Stored (d ∷ ds) s (arrivals ds x))
      (sym (more-interrupt s a b d (length ds) several len small))
      (record {
        active = r.active;
        base = r.base;
        busy = r.busy;
        left = r.left;
        size = r.size;
        repeated = r.repeated;
        silent = r.silent;
        memory = r.memory;
        buffer = r.buffer ∙ omega arith;
        ack = r.ack ∙ ack-byte_received d ds c len;
        stop = r.stop ∙ stop-byte_received d n c ∙ ap (λ x. bit x 9) same;
      })

pub written-append :
    (mem : ℕ → ℕ) (buf final : ℕ) (ds : List ℕ)
    → written mem buf (ds ++ (final ∷ []))
      ≡ update (written mem buf ds) (buf + length ds) (final % 2 ^ 8)
written-append mem buf final [] = ap (λ i. update mem i (final % 2 ^ 8)) (omega arith)
written-append mem buf final (d ∷ ds) =
    written-append (update mem buf (d % 2 ^ 8)) (buf + 1) final ds
    ∙ ap (λ i. update (written mem buf (d ∷ ds)) i (final % 2 ^ 8)) (omega arith)

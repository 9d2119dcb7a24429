-- ===== src/Hal/I2c/Transmission.antt =====
-- A transmission of the master by interrupts, from `I2C_master_send_IT` to the last byte.
use ko_rtos.Base.{
  ℕ, zero, suc, ◌+◌, ◌*◌, ◌%◌, ◌^◌, ◌<◌, ◌≡◌, refl, sym, ap, ◌∙◌, true, false, ◌==◌, ◌&&◌, ◌||◌,
  if◌then◌else◌, Bool-cases, inl, inr, List, [], ◌∷◌, ◌++◌, arith,
}
use Prim.Native.Nat.{bit_and, bit_or}
use ko_rtos.Hal.{storage}
use ko_rtos.Hal.Address.{i2c_sr2, i2c_cr1, i2c_cr2, i2c_dr}
use ko_rtos.Hal.I2c.{
  I2cState, I2cHandle, i2c_execute_addr_phase, i2c_generate_start, i2c_generate_stop,
  i2c_manage_acking,
}
use ko_rtos.Hal.I2c.Interrupt.{flag_at, i2c_close_send, close_transfer}
use ko_rtos.Hal.I2c.Steps.{
  dr_of, byte_sent, closed, closed-keeps, handle-closed, start-interrupt, addressed-interrupt,
  data-interrupt, last-interrupt,
}
use ko_rtos.Hal.I2c.Transfer.{start_interrupts, i2c_master_send_it}
use ko_rtos.Hal.Fields.{bit-set}
use ko_rtos.Base.Bits.{bit}
use ko_rtos.Hal.I2c.Sections.{Active-same, flag-bit, shown, interrupt, Active}

-- The first `n` bytes of a buffer.
abbrev pub bytes : (ℕ → ℕ) → ℕ → ℕ → List ℕ
bytes mem buf zero = []
bytes mem buf (suc n) = mem buf ∷ bytes mem (buf + 1) n

-- `n` interrupts for the next byte: what DR holds after each, and the state after all.
unfoldable pub data_interrupts : ℕ → I2cState → List ℕ × I2cState
data_interrupts zero s = ([], s)
data_interrupts (suc n) s =
    let s' = interrupt (2 ^ 7) s in let (values, t) = data_interrupts n s' in (dr_of s' ∷ values, t)

-- The interrupts of a whole transmission: SB, ADDR, one for each byte, and the last; what DR holds
-- after each but the last, and the states before and after the last.
unfoldable pub transmission : ℕ → I2cState → List ℕ × I2cState × I2cState
transmission n s =
    let s₀ = interrupt (2 ^ 0) s in
    let (values, t) = data_interrupts n (interrupt (2 ^ 1) s₀) in
    (dr_of s₀ ∷ values, t, interrupt (2 ^ 7 + 2 ^ 2) t)

-- Of a state before the bytes are written and the state after, with `n` bytes left.
record Sent (n : ℕ) (s t : I2cState) : Type 0 where
  active : Active t
  base : t.handle.p_i2cx ≡ s.handle.p_i2cx
  busy : t.handle.txrxstate ≡ 1
  left : t.handle.tx_len ≡ n
  repeated : t.handle.repeated_start ≡ s.handle.repeated_start
  silent : t.events ≡ s.events
  cr1 : t.regs (t.handle.p_i2cx + i2c_cr1) ≡ s.regs (s.handle.p_i2cx + i2c_cr1)

data_interrupts-bytes :
    (n : ℕ) (s : I2cState)
    → Active s
    → s.handle.txrxstate ≡ 1
    → s.handle.tx_len ≡ n
    → n < 2 ^ 32
    → ((data_interrupts n s).0 ≡ bytes s.memory s.handle.p_tx_buffer n)
      × Sent 0 s (data_interrupts n s).1
unfolding data_interrupts
data_interrupts-bytes zero s a b len small = (
  refl,
  record {
    active = a;
    base = refl;
    busy = b;
    left = len;
    repeated = refl;
    silent = refl;
    cr1 = refl;
  },
)
data_interrupts-bytes (suc n) s a b len small =
    let t = byte_sent n (shown (2 ^ 7) s) in
    let (values, r) =
      data_interrupts-bytes n t (Active-same s t (ground arith) (ground arith) a) b refl
        (omega arith) in
    rw (data-interrupt s a b n len small) (
      ap (λ x. x ∷ (data_interrupts n t).0) {y = s.memory s.handle.p_tx_buffer} (ground arith)
          ∙ ap (λ x. s.memory s.handle.p_tx_buffer ∷ x) values,
      record {
        active = r.active;
        base = r.base;
        busy = r.busy;
        left = r.left;
        repeated = r.repeated;
        silent = r.silent;
        cr1 = r.cr1 ∙ ground arith;
      },
    )

-- The STOP bit of CR1.
abbrev pub stop_at : ℕ → I2cState → ℕ
stop_at p s = bit (s.regs (p + i2c_cr1)) 9

pub close_transfer-stop :
    (s : I2cState) → stop_at s.handle.p_i2cx (close_transfer storage s) ≡ stop_at s.handle.p_i2cx s
unfolding close_transfer i2c_manage_acking
close_transfer-stop s =
    let v = s.regs (s.handle.p_i2cx + i2c_cr1) in
    elim (Bool-cases (s.handle.i2cx_config.ack_control == 1)) [
      | inl q ↦ rw q (ap (λ x. bit x 9) {y = bit_or v (2 ^ 10)} (ground arith) ∙ bit-set v 10 9)
      | inr q ↦ rw q (ap (λ x. bit x 9) {y = v} (ground arith))
    ]

closed-stop :
    (s : I2cState)
    → stop_at s.handle.p_i2cx (closed s) ≡ (
        if s.handle.tx_len == 0 && s.handle.repeated_start == 0
        then 1
        else stop_at s.handle.p_i2cx s)
unfolding closed i2c_close_send i2c_generate_stop
closed-stop s =
    let v = s.regs (s.handle.p_i2cx + i2c_cr1) in
    elim (Bool-cases (s.handle.tx_len == 0 && s.handle.repeated_start == 0)) [
      | inl q ↦ rw q (
          close_transfer-stop (record s { regs = i2c_generate_stop storage s.handle.p_i2cx s.regs })
          ∙ ap (λ x. bit x 9) {y = bit_or v (2 ^ 9)} (ground arith)
          ∙ bit-set v 9 9)
      | inr q ↦ rw q (close_transfer-stop (record s { regs = s.regs }))
    ]

events-closed : (s : I2cState) → (closed s).events ≡ s.events ++ (0 ∷ [])
unfolding closed i2c_close_send close_transfer
events-closed s = refl

module _ (n : ℕ) (s : I2cState) (a : Active s) (busy : s.handle.txrxstate ≡ 1)
    (len : s.handle.tx_len ≡ n) (small : n < 2 ^ 32) where
  transmission-steps :
      let (values, u, t) = transmission n s in
      (values
        ≡ bit_and (s.handle.slave_addr * 2 % 2 ^ 8) 0xfe ∷ bytes s.memory s.handle.p_tx_buffer n)
      × (u.events ≡ s.events)
      × (u.handle.txrxstate ≡ 1)
      × (t.events ≡ s.events ++ (0 ∷ []))
      × (t.handle.txrxstate ≡ 0)
      × (stop_at s.handle.p_i2cx t
          ≡ (if s.handle.repeated_start == 0 then 1 else stop_at s.handle.p_i2cx s))
  unfolding transmission i2c_execute_addr_phase
  transmission-steps =
      let s₀ = record (shown (2 ^ 0) s) {
        regs =
            i2c_execute_addr_phase storage s.handle.p_i2cx s.handle.slave_addr 0
              (shown (2 ^ 0) s).regs;
      } in
      let s₁ = shown (2 ^ 1) s₀ in
      let a₀ = Active-same s s₀ (ground arith) (ground arith) a in
      let a₁ = Active-same s₀ s₁ (ground arith) (ground arith) a₀ in
      let (values, r) = data_interrupts-bytes n s₁ a₁ busy len small in
      let t = (data_interrupts n s₁).1 in
      let c = shown (2 ^ 7 + 2 ^ 2) t in
      rw
        (start-interrupt s a busy, addressed-interrupt s₀ a₀ busy, last-interrupt t r.active r.busy)
        (
          ap (λ x. dr_of s₀ ∷ x) values
              ∙ ap (λ x. x ∷ bytes s.memory s.handle.p_tx_buffer n) (ground arith),
          r.silent,
          r.busy,
          events-closed c ∙ ap (λ x. x ++ (0 ∷ [])) r.silent,
          ap (λ (h : I2cHandle). h.txrxstate) (handle-closed c),
          ap (λ p. stop_at p (closed c)) (sym r.base)
              ∙ closed-stop c
              ∙ rw (r.left, r.repeated)
                  (ap (λ x. if s.handle.repeated_start == 0 then 1 else bit x 9)
                    {x = c.regs (c.handle.p_i2cx + i2c_cr1)} (ground arith ∙ r.cr1 ∙ ground arith)),
        )

pub begun-Active :
    (s : I2cState) (h : I2cHandle)
    → h.p_i2cx ≡ s.handle.p_i2cx
    → flag_at (s.regs (s.handle.p_i2cx + i2c_sr2)) 0 ≡ true
    → Active (record s { handle = h; regs = start_interrupts storage h.p_i2cx s.regs })
unfolding start_interrupts i2c_generate_start
begun-Active s h e master =
    let v = s.regs (s.handle.p_i2cx + i2c_cr2) in
    let w = bit_or (bit_or v (2 ^ 10)) (2 ^ 9) in
    let t = record s { handle = h; regs = start_interrupts storage h.p_i2cx s.regs } in
    let cr2 : t.regs (h.p_i2cx + i2c_cr2) ≡ bit_or w (2 ^ 8) = ground arith in
    let sr2 : t.regs (h.p_i2cx + i2c_sr2) ≡ s.regs (s.handle.p_i2cx + i2c_sr2) = ground arith in
    record {
      itbufen =
          ap (λ x. flag_at x 10) cr2
          ∙ flag-bit (bit_or w (2 ^ 8)) 10
          ∙ ap (λ x. x == 1) (bit-set w 8 10 ∙ bit-set (bit_or v (2 ^ 10)) 9 10 ∙ bit-set v 10 10);
      itevten =
          ap (λ x. flag_at x 9) cr2
          ∙ flag-bit (bit_or w (2 ^ 8)) 9
          ∙ ap (λ x. x == 1) (bit-set w 8 9 ∙ bit-set (bit_or v (2 ^ 10)) 9 9);
      master = ap (λ x. flag_at x 0) sr2 ∙ master;
    }

-- On registers that keep what is written, with SR2 showing the master: a call of I2C_master_send_IT on
-- a driver that is neither sending nor receiving, with fewer than 2^32 bytes, starts a transmission.
-- The interrupts of SB and ADDR, one of TxE for each byte and the one of BTF with TxE write to DR the
-- address with the direction bit 0, and then the buffer's bytes in order. Before the last interrupt
-- nothing is reported and the driver is busy; the last one reports the end and leaves the driver
-- ready. The STOP bit of CR1 is then set if no repeated start was asked for, and as it was after the
-- call otherwise.
pub transmission_complete :
    (buf n slave_addr rs_enable : ℕ) (s : I2cState)
    → s.handle.txrxstate ≡ 0
    → flag_at (s.regs (s.handle.p_i2cx + i2c_sr2)) 0 ≡ true
    → n < 2 ^ 32
    → let begun = (i2c_master_send_it storage buf n slave_addr rs_enable s).1 in
      let (values, u, t) = transmission n begun in
      (values ≡ bit_and (slave_addr * 2 % 2 ^ 8) 0xfe ∷ bytes s.memory buf n)
      × (u.events ≡ s.events)
      × (u.handle.txrxstate ≡ 1)
      × (t.events ≡ s.events ++ (0 ∷ []))
      × (t.handle.txrxstate ≡ 0)
      × (bit (t.regs (s.handle.p_i2cx + i2c_cr1)) 9
          ≡ (if rs_enable == 0 then 1 else bit (begun.regs (s.handle.p_i2cx + i2c_cr1)) 9))
unfolding transmission i2c_master_send_it start_interrupts i2c_generate_start
transmission_complete buf n slave_addr rs_enable s ready master small =
    let begun = record s {
      handle = record s.handle {
        p_tx_buffer = buf;
        tx_len = n;
        txrxstate = 1;
        repeated_start = rs_enable;
        slave_addr = slave_addr;
      };
      regs = start_interrupts storage s.handle.p_i2cx s.regs;
    } in
    let idle : (s.handle.txrxstate == 2 || s.handle.txrxstate == 1) ≡ false = ground arith in
    rw idle (transmission-steps n begun (begun-Active s begun.handle refl master) refl refl small)

-- With bytes left, the interrupt of BTF with TxE closes the transmission: the end is reported, and
-- the driver is ready, though DR has not been written and no STOP condition is asked for.
pub early_btf-closes :
    (n : ℕ) (s : I2cState)
    → Active s
    → s.handle.txrxstate ≡ 1
    → s.handle.tx_len ≡ suc n
    → let t = interrupt (2 ^ 7 + 2 ^ 2) s in
      let p = s.handle.p_i2cx in
      (t.events ≡ s.events ++ (0 ∷ []))
      × (t.handle.txrxstate ≡ 0)
      × (t.handle.tx_len ≡ 0)
      × (t.regs (p + i2c_dr) ≡ s.regs (p + i2c_dr))
      × (bit (t.regs (p + i2c_cr1)) 9 ≡ bit (s.regs (p + i2c_cr1)) 9)
early_btf-closes n s a busy len =
    let c = shown (2 ^ 7 + 2 ^ 2) s in
    let left_over : (s.handle.tx_len == 0) ≡ false = ground arith in
    rw (last-interrupt s a busy) (
      events-closed c,
      ap (λ (h : I2cHandle). h.txrxstate) (handle-closed c),
      ap (λ (h : I2cHandle). h.tx_len) (handle-closed c),
      closed-keeps c i2c_dr (λ q. omega (arith, q)) (λ q. omega (arith, q)) ∙ ground arith,
      closed-stop c
          ∙ rw left_over
              (ap (λ x. bit x 9) {x = c.regs (c.handle.p_i2cx + i2c_cr1)} (ground arith)),
    )

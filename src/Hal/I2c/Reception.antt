-- ===== src/Hal/I2c/Reception.antt =====
-- A reception of the master by interrupts, from `I2C_master_receive_IT` to the last byte.
use ko_rtos.Base.{
  ℕ, suc, ◌+◌, ◌%◌, ◌^◌, ◌<◌, ◌≡◌, refl, sym, ap, subst, ◌∙◌, true, false, ◌==◌, ◌&&◌, ◌||◌,
  if◌then◌else◌, Bool-cases, inl, inr, List, [], ◌∷◌, ◌++◌, update, arith,
}
use Prim.Native.Nat.{bit_and, bit_or}
use ko_rtos.Base.Bits.{bit}
use ko_rtos.Hal.{storage, not32}
use ko_rtos.Hal.Fields.{bit-set, bit-cleared}
use ko_rtos.Hal.Address.{i2c_sr2, i2c_cr1, i2c_cr2}
use ko_rtos.Hal.I2c.{I2cState, i2c_execute_addr_phase, i2c_generate_stop}
use ko_rtos.Hal.I2c.Interrupt.{flag_at, i2c_close_receive, close_transfer}
use ko_rtos.Hal.I2c.Transfer.{start_interrupts, i2c_master_receive_it}
use ko_rtos.Hal.I2c.Sections.{shown, interrupt, Active, Active-same}
use ko_rtos.Hal.I2c.Transmission.{stop_at, close_transfer-stop, begun-Active}
use ko_rtos.Hal.I2c.Arrivals.{
  arrived, last_received, acknowledging, acknowledging-keeps, start-interrupt, addressed-interrupt,
  last-interrupt,
}
use ko_rtos.Hal.I2c.Buffer.{
  length, written, arrivals, ack_at, ack_after, arrivals-Stored, written-append,
}

-- The interrupts of a whole reception: SB, ADDR, and one for each byte. The state before the last byte
-- arrives, and the state after all.
unfoldable pub reception : List ℕ → ℕ → I2cState → I2cState × I2cState
reception front final s =
    let u = arrivals front (interrupt (2 ^ 1) (interrupt (2 ^ 0) s)) in
    (u, interrupt (2 ^ 6) (arrived final u))

-- What the last byte does.
last-memory :
    (d : ℕ) (s : I2cState)
    → let t = last_received d s in
      (t.memory ≡ update s.memory s.handle.p_rx_buffer (d % 2 ^ 8))
      × (t.events ≡ s.events ++ (1 ∷ []))
      × (t.handle.txrxstate ≡ 0)
unfolding last_received i2c_close_receive close_transfer
last-memory d s = (refl, refl, refl)

last-stop :
    (d : ℕ) (s : I2cState)
    → stop_at s.handle.p_i2cx (last_received d s)
      ≡ (if s.handle.repeated_start == 0 then 1 else stop_at s.handle.p_i2cx s)
unfolding last_received i2c_close_receive i2c_generate_stop
last-stop d s =
    let p = s.handle.p_i2cx in
    let v = s.regs (p + i2c_cr1) in
    let mem = update s.memory s.handle.p_rx_buffer (d % 2 ^ 8) in
    elim (Bool-cases (s.handle.repeated_start == 0)) [
      | inl q ↦ rw q (
          close_transfer-stop (record s { regs = i2c_generate_stop storage p s.regs; memory = mem })
          ∙ ap (λ x. bit x 9) {y = bit_or v (2 ^ 9)} (ground arith)
          ∙ bit-set v 9 9)
      | inr q ↦ rw q (close_transfer-stop (record s { memory = mem }))
    ]

-- From a state that is busy receiving.
record Completed (front : List ℕ) (final : ℕ) (s u t : I2cState) : Type 0 where
  memory : t.memory ≡ written s.memory s.handle.p_rx_buffer (front ++ (final ∷ []))
  not_acknowledged : ack_at s.handle.p_i2cx u ≡ 0
  silent : u.events ≡ s.events
  reported : t.events ≡ s.events ++ (1 ∷ [])
  ready : t.handle.txrxstate ≡ 0
  stop :
      stop_at s.handle.p_i2cx t
      ≡ (if s.handle.repeated_start == 0 then 1 else stop_at s.handle.p_i2cx s)

acknowledging-bits :
    (i : ℕ) (s : I2cState)
    → i < 32
    → bit ((acknowledging s).regs (s.handle.p_i2cx + i2c_cr1)) i
      ≡ (if s.handle.rx_size == 1 && i == 10 then 0 else bit (s.regs (s.handle.p_i2cx + i2c_cr1)) i)
acknowledging-bits i s l =
    let v = s.regs (s.handle.p_i2cx + i2c_cr1) in
    elim (Bool-cases (s.handle.rx_size == 1)) [
      | inl q ↦ rw q (
          ap (λ x. bit x i) {y = bit_and v (not32 (2 ^ 10))} (ground arith)
          ∙ bit-cleared v 10 i (omega arith) l)
      | inr q ↦ rw q refl
    ]

ack-acknowledging :
    (front : List ℕ) (s : I2cState)
    → s.handle.rx_size ≡ suc (length front)
    → ack_after front (ack_at s.handle.p_i2cx (acknowledging s)) ≡ 0
ack-acknowledging [] s e =
    let one : (s.handle.rx_size == 1) ≡ true = ground arith in
    acknowledging-bits 10 s (omega arith) ∙ rw one refl
ack-acknowledging (_ ∷ _) s e = refl

stop-acknowledging :
    (s : I2cState) → stop_at s.handle.p_i2cx (acknowledging s) ≡ stop_at s.handle.p_i2cx s
stop-acknowledging s =
    acknowledging-bits 9 s (omega arith)
    ∙ (elim (Bool-cases (s.handle.rx_size == 1)) [ inl q ↦ rw q refl | inr q ↦ rw q refl ])

module _ (front : List ℕ) (final : ℕ) (s : I2cState) (a : Active s) (busy : s.handle.txrxstate ≡ 2)
    (len : s.handle.rx_len ≡ suc (length front)) (size : s.handle.rx_size ≡ suc (length front))
    (small : suc (length front) < 2 ^ 32) where
  abbrev s₀ : I2cState
  s₀ = record (shown (2 ^ 0) s) {
    regs =
        i2c_execute_addr_phase storage s.handle.p_i2cx s.handle.slave_addr 1 (shown (2 ^ 0) s).regs;
  }

  abbrev s₁ : I2cState
  s₁ = acknowledging (shown (2 ^ 1) s₀)

  reception-steps : Completed front final s (reception front final s).0 (reception front final s).1
  unfolding reception i2c_execute_addr_phase
  reception-steps =
      let p = s.handle.p_i2cx in
      let t₀ = shown (2 ^ 1) s₀ in
      let a₀ = Active-same s s₀ (ground arith) (ground arith) a in
      let a₁ =
        Active-same s₀ s₁ (acknowledging-keeps t₀ i2c_cr2 (λ q. omega (arith, q)) ∙ ground arith)
          (acknowledging-keeps t₀ i2c_sr2 (λ q. omega (arith, q)) ∙ ground arith) a₀ in
      let begun =
        ap (interrupt (2 ^ 1)) (start-interrupt s a busy) ∙ addressed-interrupt s₀ a₀ busy in
      let r = arrivals-Stored front s₁ a₁ busy len (omega (arith, size)) small in
      let u = arrivals front s₁ in
      let c = shown (2 ^ 6) (arrived final u) in
      let (memory, reported, ready) = last-memory final c in
      let last =
        last-interrupt u r.active r.busy final (λ q. omega (arith, q, r.size, size)) r.left in
      let cr1 : s₀.regs (p + i2c_cr1) ≡ s.regs (p + i2c_cr1) = ground arith in
      let shown_cr1 : t₀.regs (p + i2c_cr1) ≡ s₀.regs (p + i2c_cr1) = ground arith in
      let last_cr1 : c.regs (u.handle.p_i2cx + i2c_cr1) ≡ u.regs (u.handle.p_i2cx + i2c_cr1) =
        ground arith in
      subst
        (λ x.
          Completed front final s (arrivals front x)
            (interrupt (2 ^ 6) (arrived final (arrivals front x))))
        (sym begun)
        (subst (λ x. Completed front final s u x) (sym last)
          (record {
            memory =
                memory
                ∙ ap (λ m. update m u.handle.p_rx_buffer (final % 2 ^ 8)) r.memory
                ∙ ap (λ x. update (written s.memory s.handle.p_rx_buffer front) x (final % 2 ^ 8))
                    r.buffer
                ∙ sym (written-append s.memory s.handle.p_rx_buffer final front);
            not_acknowledged = r.ack ∙ ack-acknowledging front t₀ size;
            silent = r.silent;
            reported = reported ∙ ap (λ x. x ++ (1 ∷ [])) r.silent;
            ready = ready;
            stop =
                ap (λ x. stop_at x (last_received final c)) (sym r.base)
                ∙ last-stop final c
                ∙ rw r.repeated (
                    ap (λ x. if s.handle.repeated_start == 0 then 1 else x)
                      (ap (λ x. bit x 9) last_cr1
                        ∙ ap (λ x. stop_at x u) r.base
                        ∙ r.stop
                        ∙ stop-acknowledging t₀
                        ∙ ap (λ x. bit x 9) (shown_cr1 ∙ cr1)));
          }))

-- On registers that keep what is written, with SR2 showing the master: a call of
-- I2C_master_receive_IT for one or more bytes, fewer than 2^32, on a driver that is neither sending nor
-- receiving, starts a reception. The interrupts of SB and ADDR and one of RxNE for each byte that
-- arrives in DR store the bytes in the buffer in order. Before the last byte nothing has been reported,
-- and the acknowledge bit is off; the last interrupt reports the end and leaves the driver ready,
-- with the STOP bit set if no repeated start was asked for, and as it was otherwise.
pub reception_complete :
    (buf slave_addr rs_enable : ℕ) (front : List ℕ) (final : ℕ) (s : I2cState)
    → s.handle.txrxstate ≡ 0
    → flag_at (s.regs (s.handle.p_i2cx + i2c_sr2)) 0 ≡ true
    → suc (length front) < 2 ^ 32
    → let n = suc (length front) in
      let p = s.handle.p_i2cx in
      let begun = (i2c_master_receive_it storage buf n slave_addr rs_enable s).1 in
      let (u, t) = reception front final begun in
      (t.memory ≡ written s.memory buf (front ++ (final ∷ [])))
      × (u.events ≡ s.events)
      × (bit (u.regs (p + i2c_cr1)) 10 ≡ 0)
      × (t.events ≡ s.events ++ (1 ∷ []))
      × (t.handle.txrxstate ≡ 0)
      × (bit (t.regs (p + i2c_cr1)) 9
          ≡ (if rs_enable == 0 then 1 else bit (begun.regs (p + i2c_cr1)) 9))
unfolding i2c_master_receive_it
reception_complete buf slave_addr rs_enable front final s ready master small =
    let n = suc (length front) in
    let begun = record s {
      handle = record s.handle {
        p_rx_buffer = buf;
        rx_len = n;
        rx_size = n;
        txrxstate = 2;
        repeated_start = rs_enable;
        slave_addr = slave_addr;
      };
      regs = start_interrupts storage s.handle.p_i2cx s.regs;
    } in
    let idle : (s.handle.txrxstate == 2 || s.handle.txrxstate == 1) ≡ false = ground arith in
    let r =
      reception-steps front final begun (begun-Active s begun.handle refl master) refl refl refl
        small in
    rw idle (r.memory, r.silent, r.not_acknowledged, r.reported, r.ready, r.stop)

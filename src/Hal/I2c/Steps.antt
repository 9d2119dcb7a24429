-- ===== src/Hal/I2c/Steps.antt =====
-- What one event interrupt does in a transmission of the master.
use ko_rtos.Base.{
  ℕ, suc, ltb, ◌+◌, ◌^◌, ◌<◌, ◌≡◌, ◌≢◌, refl, ap, ◌∙◌, true, ◌==◌, ◌&&◌, if◌then◌else◌, Bool-cases,
  inl, inr, update, arith,
}
use ko_rtos.Hal.{storage, len_minus}
use ko_rtos.Hal.Address.{i2c_sr1, i2c_sr2, i2c_cr1, i2c_cr2, i2c_dr}
use ko_rtos.Hal.I2c.{
  I2cState, i2c_execute_addr_phase, i2c_clear_addr_flag, i2c_generate_stop, i2c_manage_acking,
}
use ko_rtos.Hal.I2c.Interrupt.{
  flag_at, i2c_notify, i2c_close_send, sb_section, addr_master, addr_section, btf_section,
  txe_master, i2c_txe_section, i2c_master_txe_handler, close_transfer,
}
use ko_rtos.Hal.I2c.Sections.{
  shown, interrupt, Shows, Active, section-off, section-on, master_branch, interrupt-sections,
  sections-chain,
}

abbrev pub dr_of : I2cState → ℕ
dr_of s = s.regs (s.handle.p_i2cx + i2c_dr)

-- The state after one byte has been written to DR.
abbrev pub byte_sent : ℕ → I2cState → I2cState
byte_sent n s =
    let h = s.handle in
    record s {
      handle = record h { p_tx_buffer = h.p_tx_buffer + 1; tx_len = n };
      regs = update s.regs (h.p_i2cx + i2c_dr) (s.memory h.p_tx_buffer);
    }

-- The transmission is closed and reported; the STOP condition is generated if every byte was sent and
-- no repeated start is asked for.
unfoldable pub closed : I2cState → I2cState
closed s =
    let h = s.handle in
    let m =
      if h.tx_len == 0 && h.repeated_start == 0
      then i2c_generate_stop storage h.p_i2cx s.regs
      else s.regs in
    i2c_notify storage 0 (i2c_close_send storage (record s { regs = m }))

-- Of the registers, no other than CR1 and CR2 differs afterwards.
close_transfer-keeps :
    (s : I2cState) (x : ℕ)
    → x ≢ i2c_cr1
    → x ≢ i2c_cr2
    → (close_transfer storage s).regs (s.handle.p_i2cx + x) ≡ s.regs (s.handle.p_i2cx + x)
unfolding close_transfer i2c_manage_acking
close_transfer-keeps s x n n' = elim (Bool-cases (s.handle.i2cx_config.ack_control == 1)) [
  | inl q ↦ rw q (ground arith)
  | inr q ↦ rw q (ground arith)
]

pub closed-keeps :
    (s : I2cState) (x : ℕ)
    → x ≢ i2c_cr1
    → x ≢ i2c_cr2
    → (closed s).regs (s.handle.p_i2cx + x) ≡ s.regs (s.handle.p_i2cx + x)
unfolding closed i2c_close_send i2c_generate_stop
closed-keeps s x n n' = elim (Bool-cases (s.handle.tx_len == 0 && s.handle.repeated_start == 0)) [
  | inl q ↦ rw q (
      close_transfer-keeps (record s { regs = i2c_generate_stop storage s.handle.p_i2cx s.regs }) x
        n n'
      ∙ ground arith)
  | inr q ↦ rw q (close_transfer-keeps (record s { regs = s.regs }) x n n')
]

pub handle-closed :
    (s : I2cState)
    → (closed s).handle ≡ record s.handle { txrxstate = 0; p_tx_buffer = 0; tx_len = 0 }
unfolding closed i2c_close_send
handle-closed s = refl

module _ (s : I2cState) (a : Active s) (busy : s.handle.txrxstate ≡ 1) where
  -- SB: the address goes to DR.
  pub start-interrupt : interrupt (2 ^ 0) s ≡ record (shown (2 ^ 0) s) {
    regs =
        i2c_execute_addr_phase storage s.handle.p_i2cx s.handle.slave_addr 0 (shown (2 ^ 0) s).regs;
  }
  unfolding sb_section i2c_execute_addr_phase
  start-interrupt =
      let t = shown (2 ^ 0) s in
      let t' = record t {
        regs = i2c_execute_addr_phase storage s.handle.p_i2cx s.handle.slave_addr 0 t.regs;
      } in
      let e : Shows 1 t = ground arith in
      let e' : Shows 1 t' = ground arith in
      interrupt-sections (2 ^ 0) s a
      ∙ sections-chain _ _ _ _ _ _ _ (section-on (sb_section storage) 0 1 t e refl ∙ rw busy refl)
          (section-off _ 1 1 t' e' refl) (section-off _ 2 1 t' e' refl)
          (section-off _ 4 1 t' e' refl) (section-off _ 7 1 t' e' refl)
          (section-off _ 6 1 t' e' refl)

  -- ADDR: the flag is cleared by two loads.
  pub addressed-interrupt : interrupt (2 ^ 1) s ≡ shown (2 ^ 1) s
  unfolding addr_section addr_master i2c_clear_addr_flag
  addressed-interrupt =
      let t = shown (2 ^ 1) s in
      let e : Shows 2 t = ground arith in
      let msl : flag_at (t.regs (t.handle.p_i2cx + i2c_sr2)) 0 ≡ true =
        ap (λ x. flag_at x 0) {y = s.regs (s.handle.p_i2cx + i2c_sr2)} (ground arith) ∙ a.master in
      interrupt-sections (2 ^ 1) s a
      ∙ sections-chain _ _ _ _ _ _ _ (section-off _ 0 2 t e refl)
          (section-on (addr_section storage) 1 2 t e refl ∙ master_branch _ _ t msl ∙ rw busy refl)
          (section-off _ 2 2 t e refl) (section-off _ 4 2 t e refl) (section-off _ 7 2 t e refl)
          (section-off _ 6 2 t e refl)

  -- TxE: the next byte goes to DR.
  pub data-interrupt :
      (n : ℕ)
      → s.handle.tx_len ≡ suc n
      → suc n < 2 ^ 32
      → interrupt (2 ^ 7) s ≡ byte_sent n (shown (2 ^ 7) s)
  unfolding i2c_txe_section txe_master i2c_master_txe_handler
  data-interrupt n len small =
      let t = shown (2 ^ 7) s in
      let t' = byte_sent n t in
      let e : Shows 128 t = ground arith in
      let e' : Shows 128 t' = ground arith in
      let msl : flag_at (t.regs (t.handle.p_i2cx + i2c_sr2)) 0 ≡ true =
        ap (λ x. flag_at x 0) {y = s.regs (s.handle.p_i2cx + i2c_sr2)} (ground arith) ∙ a.master in
      let left : len_minus s.handle.tx_len 1 ≡ n = omega arith in
      let more : ltb 0 s.handle.tx_len ≡ true = ground arith in
      interrupt-sections (2 ^ 7) s a
      ∙ sections-chain _ _ _ _ _ _ _ (section-off _ 0 128 t e refl) (section-off _ 1 128 t e refl)
          (section-off _ 2 128 t e refl) (section-off _ 4 128 t e refl)
          (section-on (i2c_txe_section storage) 7 128 t e refl
            ∙ master_branch _ _ t msl
            ∙ rw busy (rw (more, left) refl))
          (section-off _ 6 128 t' e' refl)

  -- BTF with TxE: the transmission is closed.
  pub last-interrupt : interrupt (2 ^ 7 + 2 ^ 2) s ≡ closed (shown (2 ^ 7 + 2 ^ 2) s)
  unfolding btf_section i2c_txe_section txe_master i2c_close_send closed
  last-interrupt =
      let t = shown (2 ^ 7 + 2 ^ 2) s in
      let t' = closed t in
      let e : Shows 132 t = ground arith in
      let e' : Shows 132 t' =
        closed-keeps t i2c_sr1 (λ q. omega (arith, q)) (λ q. omega (arith, q)) ∙ e in
      let kept = closed-keeps t i2c_sr2 (λ q. omega (arith, q)) (λ q. omega (arith, q)) in
      let msl : flag_at (t'.regs (t'.handle.p_i2cx + i2c_sr2)) 0 ≡ true =
        ap (λ x. flag_at x 0) (kept ∙ ground arith) ∙ a.master in
      let txe : flag_at (t.regs (t.handle.p_i2cx + i2c_sr1)) 7 ≡ true = ap (λ x. flag_at x 7) e in
      interrupt-sections (2 ^ 7 + 2 ^ 2) s a
      ∙ sections-chain _ _ _ _ _ _ _ (section-off _ 0 132 t e refl) (section-off _ 1 132 t e refl)
          (section-on (btf_section storage) 2 132 t e refl ∙ rw (busy, txe) refl)
          (section-off _ 4 132 t' e' refl)
          (section-on (i2c_txe_section storage) 7 132 t' e' refl ∙ master_branch _ _ t' msl)
          (section-off _ 6 132 t' e' refl)

-- ===== src/Hal/I2c/Arrivals.antt =====
-- What one event interrupt does in a reception of the master.
use ko_rtos.Base.{
  ℕ, suc, ltb, ◌+◌, ◌%◌, ◌^◌, ◌<◌, ◌≡◌, ◌≢◌, refl, ap, ◌∙◌, true, false, ◌==◌, if◌then◌else◌,
  Bool-cases, inl, inr, update, arith,
}
use native.Mathlib.Decide.{ℕ_discrete}
use ko_rtos.Hal.{storage, len_minus, clear_bits}
use ko_rtos.Hal.Address.{i2c_sr1, i2c_sr2, i2c_cr1, i2c_dr}
use ko_rtos.Hal.I2c.{
  I2cState, i2c_execute_addr_phase, i2c_clear_addr_flag, i2c_generate_stop, i2c_manage_acking,
}
use ko_rtos.Hal.I2c.Interrupt.{
  flag_at, i2c_notify, i2c_close_receive, sb_section, addr_master, addr_section, store_byte,
  finish_receive, rxne_master, i2c_rxne_section, i2c_master_rxne_handler, close_transfer,
}
use ko_rtos.Hal.I2c.Sections.{
  Active-same, shown, interrupt, Shows, Active, section-off, section-on, master_branch,
  interrupt-sections, sections-chain,
}

-- A byte has arrived in DR.
abbrev pub arrived : ℕ → I2cState → I2cState
arrived d s = record s { regs = update s.regs (s.handle.p_i2cx + i2c_dr) d }

-- The state after a byte that is not the last has gone to the buffer.
abbrev pub byte_received : ℕ → ℕ → I2cState → I2cState
byte_received d left s =
    let h = s.handle in
    record s {
      handle = record h { p_rx_buffer = h.p_rx_buffer + 1; rx_len = left };
      regs = if h.rx_len == 2 then i2c_manage_acking storage h.p_i2cx 0 s.regs else s.regs;
      memory = update s.memory h.p_rx_buffer (d % 2 ^ 8);
    }

-- The last byte is stored, and the reception is closed.
unfoldable pub last_received : ℕ → I2cState → I2cState
last_received d s =
    let h = s.handle in
    let m = if h.repeated_start == 0 then i2c_generate_stop storage h.p_i2cx s.regs else s.regs in
    i2c_notify storage 1 (
      i2c_close_receive storage
        (record s { regs = m; memory = update s.memory h.p_rx_buffer (d % 2 ^ 8) }))

-- What ADDR does before a reception.
abbrev pub acknowledging : I2cState → I2cState
acknowledging s = record s {
  regs =
      if s.handle.rx_size == 1
      then clear_bits storage (s.handle.p_i2cx + i2c_cr1) (2 ^ 10) s.regs
      else s.regs;
}

addr_master-receiving :
    (s : I2cState) → s.handle.txrxstate ≡ 2 → addr_master storage s ≡ acknowledging s
unfolding addr_master i2c_clear_addr_flag
addr_master-receiving s busy = elim (Bool-cases (s.handle.rx_size == 1)) [
  | inl q ↦ rw (busy, q) refl
  | inr q ↦ rw (busy, q) refl
]

pub acknowledging-keeps :
    (s : I2cState) (x : ℕ)
    → x ≢ i2c_cr1
    → (acknowledging s).regs (s.handle.p_i2cx + x) ≡ s.regs (s.handle.p_i2cx + x)
acknowledging-keeps s x n = elim (Bool-cases (s.handle.rx_size == 1)) [
  | inl q ↦ rw q (ground arith)
  | inr q ↦ rw q refl
]

-- The acknowledge bit may change between the arrival of a byte and its load.
in_dr :
    {d : ℕ} (s : I2cState)
    → s.regs (s.handle.p_i2cx + i2c_dr) ≡ d
    → (if s.handle.rx_len == 2 then i2c_manage_acking storage s.handle.p_i2cx 0 s.regs else s.regs)
        (s.handle.p_i2cx + i2c_dr)
      ≡ d
unfolding i2c_manage_acking
in_dr s e = elim (Bool-cases (s.handle.rx_len == 2)) [
  | inl q ↦ rw q (ground arith)
  | inr q ↦ rw q e
]

module _ (s : I2cState) (a : Active s) (busy : s.handle.txrxstate ≡ 2) where
  pub start-interrupt : interrupt (2 ^ 0) s ≡ record (shown (2 ^ 0) s) {
    regs =
        i2c_execute_addr_phase storage s.handle.p_i2cx s.handle.slave_addr 1 (shown (2 ^ 0) s).regs;
  }
  unfolding sb_section i2c_execute_addr_phase
  start-interrupt =
      let t = shown (2 ^ 0) s in
      let t' = record t {
        regs = i2c_execute_addr_phase storage s.handle.p_i2cx s.handle.slave_addr 1 t.regs;
      } in
      let e : Shows 1 t = ground arith in
      let e' : Shows 1 t' = ground arith in
      interrupt-sections (2 ^ 0) s a
      ∙ sections-chain _ _ _ _ _ _ _ (section-on (sb_section storage) 0 1 t e refl ∙ rw busy refl)
          (section-off _ 1 1 t' e' refl) (section-off _ 2 1 t' e' refl)
          (section-off _ 4 1 t' e' refl) (section-off _ 7 1 t' e' refl)
          (section-off _ 6 1 t' e' refl)

  -- ADDR: before a single byte the acknowledge bit is cleared.
  pub addressed-interrupt : interrupt (2 ^ 1) s ≡ acknowledging (shown (2 ^ 1) s)
  unfolding addr_section
  addressed-interrupt =
      let t = shown (2 ^ 1) s in
      let t' = acknowledging t in
      let e : Shows 2 t = ground arith in
      let e' : Shows 2 t' = acknowledging-keeps t i2c_sr1 (λ q. omega (arith, q)) ∙ e in
      let msl : flag_at (t.regs (t.handle.p_i2cx + i2c_sr2)) 0 ≡ true =
        ap (λ x. flag_at x 0) {y = s.regs (s.handle.p_i2cx + i2c_sr2)} (ground arith) ∙ a.master in
      interrupt-sections (2 ^ 1) s a
      ∙ sections-chain _ _ _ _ _ _ _ (section-off _ 0 2 t e refl)
          (section-on (addr_section storage) 1 2 t e refl
            ∙ master_branch _ _ t msl
            ∙ addr_master-receiving t busy)
          (section-off _ 2 2 t' e' refl) (section-off _ 4 2 t' e' refl)
          (section-off _ 7 2 t' e' refl) (section-off _ 6 2 t' e' refl)

  module _ (d : ℕ) where
    -- RxNE: what the handler does acts on the state with the byte.
    rxne-interrupt :
        interrupt (2 ^ 6) (arrived d s)
        ≡ i2c_master_rxne_handler storage (shown (2 ^ 6) (arrived d s))
    unfolding i2c_rxne_section rxne_master
    rxne-interrupt =
        let t = shown (2 ^ 6) (arrived d s) in
        let e : Shows 64 t = ground arith in
        let a' = Active-same s (arrived d s) (ground arith) (ground arith) a in
        let msl : flag_at (t.regs (t.handle.p_i2cx + i2c_sr2)) 0 ≡ true =
          ap (λ x. flag_at x 0) {y = s.regs (s.handle.p_i2cx + i2c_sr2)} (ground arith)
          ∙ a.master in
        interrupt-sections (2 ^ 6) (arrived d s) a'
        ∙ sections-chain _ _ _ _ _ _ _ (section-off _ 0 64 t e refl) (section-off _ 1 64 t e refl)
            (section-off _ 2 64 t e refl) (section-off _ 4 64 t e refl)
            (section-off _ 7 64 t e refl)
            (section-on (i2c_rxne_section storage) 6 64 t e refl
              ∙ master_branch _ _ t msl
              ∙ rw busy refl)

    -- A byte that is not the last.
    pub more-interrupt :
        (n : ℕ)
        → ltb 1 s.handle.rx_size ≡ true
        → s.handle.rx_len ≡ suc (suc n)
        → suc (suc n) < 2 ^ 32
        → interrupt (2 ^ 6) (arrived d s) ≡ byte_received d (suc n) (shown (2 ^ 6) (arrived d s))
    unfolding i2c_master_rxne_handler store_byte finish_receive i2c_manage_acking
    more-interrupt n size len small =
        let t = shown (2 ^ 6) (arrived d s) in
        let left : len_minus s.handle.rx_len 1 ≡ suc n = omega arith in
        let several : (s.handle.rx_size == 1) ≡ false = ground arith in
        let going : (suc n == 0) ≡ false = ground arith in
        rxne-interrupt
        ∙ rw (several, size, left, going)
            (ap
              (λ x. record (byte_received d (suc n) t) {
                memory = update s.memory s.handle.p_rx_buffer (x % 2 ^ 8);
              })
              (in_dr t (ground arith)))

    pub last-interrupt :
        s.handle.rx_size ≢ 0
        → s.handle.rx_len ≡ 1
        → interrupt (2 ^ 6) (arrived d s) ≡ last_received d (shown (2 ^ 6) (arrived d s))
    unfolding i2c_master_rxne_handler store_byte finish_receive last_received i2c_close_receive
        close_transfer
    last-interrupt size len =
        let t = shown (2 ^ 6) (arrived d s) in
        let left : len_minus s.handle.rx_len 1 ≡ 0 = omega arith in
        let dr : t.regs (t.handle.p_i2cx + i2c_dr) ≡ d = ground arith in
        let not_two : (s.handle.rx_len == 2) ≡ false = ground arith in
        elim (ℕ_discrete s.handle.rx_size 1) [
          | yes one ↦
              let one' : (s.handle.rx_size == 1) ≡ true = ground arith in
              rxne-interrupt ∙ rw (one', left, dr) refl
          | no many ↦
              let one' : (s.handle.rx_size == 1) ≡ false = ground arith in
              let many' : ltb 1 s.handle.rx_size ≡ true = ground arith in
              rxne-interrupt ∙ rw (one', many', left, not_two, dr) refl
        ]

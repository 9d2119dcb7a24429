-- ===== src/Hal/I2c/Interrupt.antt =====
-- kortos_hal/STM32F446xx/I2C.c: the interrupt handlers, one function for each of their sections.
use ko_rtos.Base.{
  ℕ, ◌+◌, ◌/◌, ◌%◌, ◌^◌, Bool, ltb, ◌==◌, ◌&&◌, if◌then◌else◌, [], ◌∷◌, ◌++◌, update,
}
use Prim.Native.Nat.{bit_and}
use ko_rtos.Hal.{Hardware, store, set_bits, clear_bits, len_minus}
use ko_rtos.Hal.Address.{i2c_cr1, i2c_cr2, i2c_dr, i2c_sr1, i2c_sr2}
use ko_rtos.Hal.I2c.{
  I2cState, i2c_generate_stop, i2c_execute_addr_phase, i2c_clear_addr_flag, i2c_manage_acking,
}

-- `(v >> i) & 1` as a condition.
abbrev pub flag_at : ℕ → ℕ → Bool
flag_at v i = bit_and (v / 2 ^ i) 1 == 1

module _ (hw : Hardware) where
  -- The callback is given an event.
  abbrev pub i2c_notify : ℕ → I2cState → I2cState
  i2c_notify event s = record s { events = s.events ++ (event ∷ []) }

  -- ITBUFEN and ITEVTEN are cleared, and the acknowledge bit is set if it is configured.
  unfoldable pub close_transfer : I2cState → I2cState
  close_transfer s =
      let h = s.handle in
      let p = h.p_i2cx in
      let m = clear_bits hw (p + i2c_cr2) (2 ^ 9) (clear_bits hw (p + i2c_cr2) (2 ^ 10) s.regs) in
      record s { regs = if h.i2cx_config.ack_control == 1 then i2c_manage_acking hw p 1 m else m }

  unfoldable pub i2c_close_send : I2cState → I2cState
  i2c_close_send s =
      let s' = close_transfer s in
      record s' { handle = record s.handle { txrxstate = 0; p_tx_buffer = 0; tx_len = 0 } }

  unfoldable pub i2c_close_receive : I2cState → I2cState
  i2c_close_receive s =
      let s' = close_transfer s in
      record s' {
        handle = record s.handle { txrxstate = 0; p_rx_buffer = 0; rx_len = 0; rx_size = 0 };
      }

  unfoldable pub i2c_master_txe_handler : I2cState → I2cState
  i2c_master_txe_handler s =
      let h = s.handle in
      if ltb 0 h.tx_len
      then record s {
        handle = record h { p_tx_buffer = h.p_tx_buffer + 1; tx_len = len_minus h.tx_len 1 };
        regs = store hw (h.p_i2cx + i2c_dr) (s.memory h.p_tx_buffer) s.regs;
      }
      else s

  -- The byte of DR goes to the buffer; `step` is how far the buffer moves on.
  unfoldable pub store_byte : ℕ → I2cState → I2cState
  store_byte step s =
      let h = s.handle in
      let dr = h.p_i2cx + i2c_dr in
      record s {
        handle = record h { p_rx_buffer = h.p_rx_buffer + step; rx_len = len_minus h.rx_len 1 };
        regs = hw.reads dr s.regs;
        memory = update s.memory h.p_rx_buffer (s.regs dr % 2 ^ 8);
      }

  -- The end of a reception.
  unfoldable pub finish_receive : I2cState → I2cState
  finish_receive s =
      let h = s.handle in
      let m = if h.repeated_start == 0 then i2c_generate_stop hw h.p_i2cx s.regs else s.regs in
      if h.rx_len == 0 then i2c_notify 1 (i2c_close_receive (record s { regs = m })) else s

  unfoldable pub i2c_master_rxne_handler : I2cState → I2cState
  i2c_master_rxne_handler s =
      let h = s.handle in
      let m = if h.rx_len == 2 then i2c_manage_acking hw h.p_i2cx 0 s.regs else s.regs in
      if h.rx_size == 1
      then finish_receive (store_byte 0 s)
      else if ltb 1 h.rx_size
      then finish_receive (store_byte 1 (record s { regs = m }))
      else finish_receive s

  -- A section: it acts if its flag in SR1 is set and the interrupt is enabled.
  unfoldable pub on_event : Bool → ℕ → (I2cState → I2cState) → I2cState → I2cState
  on_event enable flag act s =
      let sr1 = s.handle.p_i2cx + i2c_sr1 in
      let s' = record s { regs = hw.reads sr1 s.regs } in
      if enable && flag_at (s.regs sr1) flag then act s' else s'

  -- A test of a bit of SR2.
  unfoldable pub by_sr2 : ℕ → (I2cState → I2cState) → (I2cState → I2cState) → I2cState → I2cState
  by_sr2 flag yes_branch no_branch s =
      let sr2 = s.handle.p_i2cx + i2c_sr2 in
      let s' = record s { regs = hw.reads sr2 s.regs } in
      if flag_at (s.regs sr2) flag then yes_branch s' else no_branch s'

  unfoldable pub sb_section : I2cState → I2cState
  sb_section s =
      let h = s.handle in
      if h.txrxstate == 2
      then record s { regs = i2c_execute_addr_phase hw h.p_i2cx h.slave_addr 1 s.regs }
      else if h.txrxstate == 1
      then record s { regs = i2c_execute_addr_phase hw h.p_i2cx h.slave_addr 0 s.regs }
      else s

  abbrev pub clear_addr : I2cState → I2cState
  clear_addr s = record s { regs = i2c_clear_addr_flag hw s.handle.p_i2cx s.regs }

  -- What the section of ADDR does for a master.
  unfoldable pub addr_master : I2cState → I2cState
  addr_master s =
      let p = s.handle.p_i2cx in
      if s.handle.txrxstate == 2
      then (if s.handle.rx_size == 1
          then clear_addr (record s { regs = clear_bits hw (p + i2c_cr1) (2 ^ 10) s.regs })
          else s)
      else clear_addr s

  unfoldable pub addr_section : I2cState → I2cState
  addr_section s = by_sr2 0 addr_master clear_addr s

  unfoldable pub btf_section : I2cState → I2cState
  btf_section s =
      let h = s.handle in
      let sr1 = h.p_i2cx + i2c_sr1 in
      let m = hw.reads sr1 s.regs in
      let m' =
        if h.tx_len == 0 && h.repeated_start == 0 then i2c_generate_stop hw h.p_i2cx m else m in
      if h.txrxstate == 1
      then (if flag_at (s.regs sr1) 7
          then i2c_notify 0 (i2c_close_send (record s { regs = m' }))
          else record s { regs = m })
      else s

  unfoldable pub stopf_section : I2cState → I2cState
  stopf_section s =
      i2c_notify 2 (record s { regs = set_bits hw (s.handle.p_i2cx + i2c_cr1) 0 s.regs })

  unfoldable pub txe_master : I2cState → I2cState
  txe_master s = if s.handle.txrxstate == 1 then i2c_master_txe_handler s else s

  unfoldable pub i2c_txe_section : I2cState → I2cState
  i2c_txe_section s = by_sr2 0 txe_master (by_sr2 2 (i2c_notify 10) (λ s'. s')) s

  unfoldable pub rxne_master : I2cState → I2cState
  rxne_master s = if s.handle.txrxstate == 2 then i2c_master_rxne_handler s else s

  unfoldable pub i2c_rxne_section : I2cState → I2cState
  i2c_rxne_section s = by_sr2 0 rxne_master (by_sr2 2 (λ s'. s') (i2c_notify 11)) s

  unfoldable pub i2c_ev_irq_handling : I2cState → I2cState
  i2c_ev_irq_handling s =
      let cr2 = s.handle.p_i2cx + i2c_cr2 in
      let m₁ = hw.reads cr2 s.regs in
      let itbufen = flag_at (s.regs cr2) 10 in
      let itevten = flag_at (m₁ cr2) 9 in
      let s₁ = on_event itevten 0 sb_section (record s { regs = hw.reads cr2 m₁ }) in
      let s₂ = on_event itevten 1 addr_section s₁ in
      let s₃ = on_event itevten 2 btf_section s₂ in
      let s₄ = on_event itevten 4 stopf_section s₃ in
      let s₅ = on_event (itbufen && itevten) 7 i2c_txe_section s₄ in
      on_event (itbufen && itevten) 6 i2c_rxne_section s₅

  -- One of the errors: its flag in SR1 is cleared, and the callback is given its event.
  unfoldable pub on_error : Bool → ℕ → ℕ → I2cState → I2cState
  on_error enable flag event s =
      on_event enable flag
        (λ s'.
          i2c_notify event
            (record s' { regs = clear_bits hw (s'.handle.p_i2cx + i2c_sr1) (2 ^ flag) s'.regs }))
        s

  unfoldable pub i2c_er_irq_handling : I2cState → I2cState
  i2c_er_irq_handling s =
      let cr2 = s.handle.p_i2cx + i2c_cr2 in
      let enable = flag_at (s.regs cr2) 8 in
      let s₁ = on_error enable 8 3 (record s { regs = hw.reads cr2 s.regs }) in
      let s₂ = on_error enable 10 5 (on_error enable 9 4 s₁) in
      let s₃ = on_error enable 12 7 (on_error enable 11 6 s₂) in
      on_error enable 15 9 (on_error enable 14 8 s₃)

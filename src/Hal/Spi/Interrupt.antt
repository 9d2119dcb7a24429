-- ===== src/Hal/Spi/Interrupt.antt =====
-- kortos_hal/STM32F446xx/SPI.c: the interrupt handler.
use ko_rtos.Base.{ℕ, ◌+◌, ◌^◌, ◌==◌, if◌then◌else◌, [], ◌∷◌, ◌++◌}
use ko_rtos.Hal.{Hardware, clear_bits, both_bits}
use ko_rtos.Hal.Address.{spi_cr2, spi_sr, spi_dr}
use ko_rtos.Hal.Spi.{SpiState}
use ko_rtos.Hal.Spi.Transfer.{send_frame, receive_frame}

module _ (hw : Hardware) where
  unfoldable pub spi_close_transmission : SpiState → SpiState
  spi_close_transmission s =
      let h = s.handle in
      record s {
        handle = record h { p_tx_buffer = 0; tx_len = 0; tx_state = 0 };
        regs = clear_bits hw (h.p_spix + spi_cr2) (2 ^ 7) s.regs;
      }

  unfoldable pub spi_close_reception : SpiState → SpiState
  spi_close_reception s =
      let h = s.handle in
      record s {
        handle = record h { p_rx_buffer = 0; rx_len = 0; rx_state = 0 };
        regs = clear_bits hw (h.p_spix + spi_cr2) (2 ^ 6) s.regs;
      }

  unfoldable pub spi_clear_ovr_flag : SpiState → SpiState
  spi_clear_ovr_flag s =
      let p = s.handle.p_spix in
      record s { regs = hw.reads (p + spi_sr) (hw.reads (p + spi_dr) s.regs) }

  -- The callback is given an event.
  abbrev pub spi_notify : ℕ → SpiState → SpiState
  spi_notify event s = record s { events = s.events ++ (event ∷ []) }

  unfoldable pub spi_txeie_handle : SpiState → SpiState
  spi_txeie_handle s =
      let h = s.handle in
      let (buf, len, m) = send_frame hw h.p_spix s.memory h.p_tx_buffer h.tx_len s.regs in
      let s' = record s { handle = record h { p_tx_buffer = buf; tx_len = len }; regs = m } in
      if len == 0 then spi_notify 0 (spi_close_transmission s') else s'

  unfoldable pub spi_rxneie_handle : SpiState → SpiState
  spi_rxneie_handle s =
      let h = s.handle in
      let (mem, buf, len, m) = receive_frame hw h.p_spix s.memory h.p_rx_buffer h.rx_len s.regs in
      let s' = record s {
        handle = record h { p_rx_buffer = buf; rx_len = len };
        regs = m;
        memory = mem;
      } in
      if len == 0 then spi_notify 1 (spi_close_reception s') else s'

  unfoldable pub spi_ovr_handle : SpiState → SpiState
  spi_ovr_handle s =
      if s.handle.tx_state == 2 then spi_notify 2 s else spi_notify 2 (spi_clear_ovr_flag s)

  -- A handler runs if its flag in SR and its enable bit in CR2 are 1.
  unfoldable pub spi_on_flag : ℕ → ℕ → (SpiState → SpiState) → SpiState → SpiState
  spi_on_flag flag enable handler s =
      let p = s.handle.p_spix in
      let m₁ = hw.reads (p + spi_sr) s.regs in
      let m₂ = hw.reads (p + spi_cr2) m₁ in
      let s' = record s { regs = m₂ } in
      if both_bits (s.regs (p + spi_sr)) flag (m₁ (p + spi_cr2)) enable then handler s' else s'

  unfoldable pub spi_irq_handler : SpiState → SpiState
  spi_irq_handler s =
      spi_on_flag 6 5 spi_ovr_handle
        (spi_on_flag 0 6 spi_rxneie_handle (spi_on_flag 1 7 spi_txeie_handle s))

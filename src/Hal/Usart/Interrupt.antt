-- ===== src/Hal/Usart/Interrupt.antt =====
-- kortos_hal/STM32F446xx/USART.c: the interrupt handler, one function for each of its sections.
use ko_rtos.Base.{ℕ, ◌+◌, ◌/◌, ◌^◌, ltb, ◌==◌, ◌&&◌, if◌then◌else◌, [], ◌∷◌, ◌++◌}
use Prim.Native.Nat.{bit_and}
use ko_rtos.Hal.{Hardware, store, clear_bits, len_minus, both_bits}
use ko_rtos.Hal.Address.{usart_sr, usart_dr, usart_cr1, usart_cr3}
use ko_rtos.Hal.Usart.{UsartState}
use ko_rtos.Hal.Usart.Transfer.{tx_value, rx_store}

module _ (hw : Hardware) where
  -- The callback is given an event.
  abbrev pub usart_notify : ℕ → UsartState → UsartState
  usart_notify event s = record s { events = s.events ++ (event ∷ []) }

  -- A section of the interrupt handler: it acts if its flag in SR and its enable bit in the control
  -- register are 1.
  unfoldable pub usart_on_flag : ℕ → ℕ → ℕ → (UsartState → UsartState) → UsartState → UsartState
  usart_on_flag flag cr enable act s =
      let p = s.handle.p_usartx in
      let m₁ = hw.reads (p + usart_sr) s.regs in
      let s' = record s { regs = hw.reads (p + cr) m₁ } in
      if both_bits (s.regs (p + usart_sr)) flag (m₁ (p + cr)) enable then act s' else s'

  unfoldable pub tc_section : UsartState → UsartState
  tc_section s =
      let h = s.handle in
      if h.tx_state == 1 && h.tx_len == 0
      then usart_notify 0 (record s {
        handle = record h { tx_state = 0; p_tx_buffer = 0; tx_len = 0 };
        regs =
            clear_bits hw (h.p_usartx + usart_cr1) (2 ^ 6)
              (clear_bits hw (h.p_usartx + usart_sr) (2 ^ 6) s.regs);
      })
      else s

  -- The write of the next bytes, if any are left.
  unfoldable pub send_next : UsartState → UsartState
  send_next s =
      let h = s.handle in
      let (v, n) = tx_value h.usartx_config s.memory h.p_tx_buffer in
      if ltb 0 h.tx_len
      then record s {
        handle = record h { p_tx_buffer = h.p_tx_buffer + n; tx_len = len_minus h.tx_len n };
        regs = store hw (h.p_usartx + usart_dr) v s.regs;
      }
      else s

  unfoldable pub txe_section : UsartState → UsartState
  txe_section s =
      let s' = send_next s in
      if s.handle.tx_state == 1
      then (if s'.handle.tx_len == 0
          then record s' { regs = clear_bits hw (s.handle.p_usartx + usart_cr1) (2 ^ 7) s'.regs }
          else s')
      else s

  -- The read of the next bytes.
  unfoldable pub receive_next : UsartState → UsartState
  receive_next s =
      let h = s.handle in
      let dr = h.p_usartx + usart_dr in
      let (mem, n) = rx_store h.usartx_config s.memory h.p_rx_buffer (s.regs dr) in
      record s {
        handle = record h { p_rx_buffer = h.p_rx_buffer + n; rx_len = len_minus h.rx_len n };
        regs = hw.reads dr s.regs;
        memory = mem;
      }

  unfoldable pub rxne_section : UsartState → UsartState
  rxne_section s =
      let s' = receive_next s in
      if s.handle.rx_state == 2 && ltb 0 s.handle.rx_len
      then (if s'.handle.rx_len == 0
          then usart_notify 1 (record s' {
            handle = record s'.handle { rx_state = 0 };
            regs = clear_bits hw (s.handle.p_usartx + usart_cr1) (2 ^ 5) s'.regs;
          })
          else s')
      else s

  unfoldable pub cts_section : UsartState → UsartState
  cts_section s =
      let p = s.handle.p_usartx in
      let m₁ = hw.reads (p + usart_sr) s.regs in
      let m₂ = hw.reads (p + usart_cr3) m₁ in
      let m₃ = hw.reads (p + usart_cr3) m₂ in
      let cts = both_bits (s.regs (p + usart_sr)) 9 (m₁ (p + usart_cr3)) 9 in
      let ctsie = bit_and (m₂ (p + usart_cr3) / 2 ^ 10) 1 == 1 in
      if cts && ctsie
      then usart_notify 2 (record s { regs = clear_bits hw (p + usart_sr) (2 ^ 9) m₃ })
      else record s { regs = m₃ }

  -- A load of SR, a load of DR, and the callback.
  unfoldable pub clear_and_notify : ℕ → UsartState → UsartState
  clear_and_notify event s =
      let p = s.handle.p_usartx in
      usart_notify event
        (record s { regs = hw.reads (p + usart_dr) (hw.reads (p + usart_sr) s.regs) })

  unfoldable pub error_section : UsartState → UsartState
  error_section s =
      let p = s.handle.p_usartx in
      let sr = s.regs (p + usart_sr) in
      let m₁ = hw.reads (p + usart_sr) s.regs in
      let s' = record s { regs = hw.reads (p + usart_cr3) m₁ } in
      if both_bits (m₁ (p + usart_cr3)) 0 sr 2
      then clear_and_notify 5 s'
      else if both_bits (m₁ (p + usart_cr3)) 0 sr 1
      then clear_and_notify 6 s'
      else s'

  unfoldable pub usart_irq_handling : UsartState → UsartState
  usart_irq_handling s =
      let s₁ = usart_on_flag 6 usart_cr1 6 tc_section s in
      let s₂ = usart_on_flag 7 usart_cr1 7 txe_section s₁ in
      let s₃ = usart_on_flag 5 usart_cr1 5 rxne_section s₂ in
      let s₄ = cts_section s₃ in
      let s₅ = usart_on_flag 4 usart_cr1 4 (clear_and_notify 3) s₄ in
      let s₆ = usart_on_flag 3 usart_cr1 5 (clear_and_notify 4) s₅ in error_section s₆

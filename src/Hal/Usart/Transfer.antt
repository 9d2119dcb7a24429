-- ===== src/Hal/Usart/Transfer.antt =====
-- kortos_hal/STM32F446xx/USART.c: the transfers that wait, and the start of those by interrupts.
use ko_rtos.Base.{
  ℕ, zero, suc, ◌+◌, ◌/◌, ◌^◌, Option, none, some, true, false, ◌==◌, if◌then◌else◌, update,
}
use Prim.Native.Nat.{bit_and}
use ko_rtos.Hal.{Hardware, Regs, store, set_bits, halfword, store_halfword}
use ko_rtos.Hal.Address.{usart_sr, usart_dr, usart_cr1}
use ko_rtos.Hal.Usart.{UsartConfig, UsartHandle, UsartState}

-- The value that is written to DR for the bytes at a buffer, and the number of the bytes.
unfoldable pub tx_value : UsartConfig → (ℕ → ℕ) → ℕ → ℕ × ℕ
tx_value c mem buf =
    if c.word_len == 1
    then (if c.parity == 0 then (bit_and (halfword mem buf) 0x01ff, 2) else (mem buf, 1))
    else if c.parity == 0
    then (mem buf, 1)
    else (bit_and (mem buf) 0x7f, 1)

-- The memory after a value of DR is stored to a buffer, and the number of the bytes.
unfoldable pub rx_store : UsartConfig → (ℕ → ℕ) → ℕ → ℕ → (ℕ → ℕ) × ℕ
rx_store c mem buf v =
    if c.word_len == 1
    then (if c.parity == 0
        then (store_halfword mem buf (bit_and v 0x01ff), 2)
        else (update mem buf (bit_and v 0xff), 1))
    else if c.parity == 0
    then (update mem buf (bit_and v 0xff), 1)
    else (update mem buf (bit_and v 0x7f), 1)

module _ (hw : Hardware) where
  unfoldable pub usart_get_flag_status : ℕ → ℕ → Regs → ℕ × Regs
  usart_get_flag_status p flag_bit m =
      (bit_and (m (p + usart_sr) / 2 ^ flag_bit) 1, hw.reads (p + usart_sr) m)

  -- `while (USART_get_flag_status(p, flag) == 0);`, with a bound on the tests.
  unfoldable pub wait_flag : ℕ → ℕ → ℕ → Regs → Option Regs
  wait_flag zero p flag m = none
  wait_flag (suc fuel) p flag m =
      let (status, m') = usart_get_flag_status p flag m in
      elim (status == 0) [ true ↦ wait_flag fuel p flag m' | false ↦ some m' ]

  -- `len` counts the passes that are left; `polls` bounds each wait.
  unfoldable pub usart_send : ℕ → UsartHandle → (ℕ → ℕ) → ℕ → ℕ → Regs → Option Regs
  usart_send polls h mem buf zero m = wait_flag polls h.p_usartx 6 m
  usart_send polls h mem buf (suc len) m = elim (wait_flag polls h.p_usartx 7 m) [
    | none ↦ none
    | some m' ↦
        let (v, n) = tx_value h.usartx_config mem buf in
        usart_send polls h mem (buf + n) len (store hw (h.p_usartx + usart_dr) v m')
  ]

  unfoldable pub usart_receive : ℕ → UsartHandle → (ℕ → ℕ) → ℕ → ℕ → Regs → Option ((ℕ → ℕ) × Regs)
  usart_receive polls h mem buf zero m = some (mem, m)
  usart_receive polls h mem buf (suc len) m = elim (wait_flag polls h.p_usartx 5 m) [
    | none ↦ none
    | some m' ↦
        let (mem', n) = rx_store h.usartx_config mem buf (m' (h.p_usartx + usart_dr)) in
        usart_receive polls h mem' (buf + n) len (hw.reads (h.p_usartx + usart_dr) m')
  ]

  -- The state on entry is returned.
  unfoldable pub usart_send_it : ℕ → ℕ → UsartState → ℕ × UsartState
  usart_send_it p_tx_buffer len s =
      let h = s.handle in
      let cr1 = h.p_usartx + usart_cr1 in
      if h.tx_state == 0
      then (
        h.tx_state,
        record s {
          handle = record h { p_tx_buffer = p_tx_buffer; tx_len = len; tx_state = 1 };
          regs = set_bits hw cr1 (2 ^ 6) (set_bits hw cr1 (2 ^ 7) s.regs);
        },
      )
      else (h.tx_state, s)

  unfoldable pub usart_receive_it : ℕ → ℕ → UsartState → ℕ × UsartState
  usart_receive_it p_rx_buffer len s =
      let h = s.handle in
      if h.rx_state == 0
      then (
        h.rx_state,
        record s {
          handle = record h { p_rx_buffer = p_rx_buffer; rx_len = len; rx_state = 2 };
          regs = set_bits hw (h.p_usartx + usart_cr1) (2 ^ 5) s.regs;
        },
      )
      else (h.rx_state, s)

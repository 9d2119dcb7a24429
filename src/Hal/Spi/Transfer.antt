-- ===== src/Hal/Spi/Transfer.antt =====
-- kortos_hal/STM32F446xx/SPI.c: the transfers that wait, and the start of those by interrupts.
use ko_rtos.Base.{
  ℕ, zero, suc, ◌+◌, ◌%◌, ◌^◌, Option, none, some, Bool, true, false, not, ◌==◌, if◌then◌else◌,
  update,
}
use Prim.Native.Nat.{bit_and}
use ko_rtos.Hal.{Hardware, Regs, store, set_bits, halfword, store_halfword, len_minus}
use ko_rtos.Hal.Address.{spi_cr1, spi_cr2, spi_sr, spi_dr}
use ko_rtos.Hal.Spi.{SpiState}

-- The bit DFF of CR1: frames of 16 bits.
abbrev pub is_wide : ℕ → Bool
is_wide cr1 = not (bit_and cr1 (2 ^ 11) == 0)

module _ (hw : Hardware) where
  -- The result is a `uint8_t`.
  unfoldable pub spi_get_flag_status : ℕ → ℕ → Regs → ℕ × Regs
  spi_get_flag_status p flag_bit m =
      (bit_and (m (p + spi_sr)) (2 ^ flag_bit) % 2 ^ 8, hw.reads (p + spi_sr) m)

  -- One frame of `SPI_send`: the buffer, the bytes that are left, and the registers.
  unfoldable pub send_frame : ℕ → (ℕ → ℕ) → ℕ → ℕ → Regs → ℕ × ℕ × Regs
  send_frame p mem buf len m =
      let m' = hw.reads (p + spi_cr1) m in
      if is_wide (m (p + spi_cr1))
      then (buf + 2, len_minus len 2, store hw (p + spi_dr) (halfword mem buf) m')
      else (buf + 1, len_minus len 1, store hw (p + spi_dr) (mem buf) m')

  -- The fuel bounds the tests of TXE; none where it runs out.
  unfoldable pub spi_send : ℕ → ℕ → (ℕ → ℕ) → ℕ → ℕ → Regs → Option Regs
  spi_send zero p mem buf len m = if len == 0 then some m else none
  spi_send (suc fuel) p mem buf len m =
      let (txe, m') = spi_get_flag_status p 1 m in
      let (buf', len', m'') = send_frame p mem buf len m' in
      elim (len == 0) [
        | true ↦ some m
        | false ↦ elim (txe == 0) [
          | true ↦ spi_send fuel p mem buf len m'
          | false ↦ spi_send fuel p mem buf' len' m''
        ]
      ]

  -- One frame of `SPI_receive`: the memory, the buffer, the bytes that are left, and the registers.
  unfoldable pub receive_frame : ℕ → (ℕ → ℕ) → ℕ → ℕ → Regs → (ℕ → ℕ) × ℕ × ℕ × Regs
  receive_frame p mem buf len m =
      let m₁ = hw.reads (p + spi_cr1) m in
      let m₂ = hw.reads (p + spi_dr) m₁ in
      let v = m₁ (p + spi_dr) in
      if is_wide (m (p + spi_cr1))
      then (store_halfword mem buf v, buf + 2, len_minus len 2, m₂)
      else (update mem buf (v % 2 ^ 8), buf + 1, len_minus len 1, m₂)

  unfoldable pub spi_receive : ℕ → ℕ → (ℕ → ℕ) → ℕ → ℕ → Regs → Option ((ℕ → ℕ) × Regs)
  spi_receive zero p mem buf len m = if len == 0 then some (mem, m) else none
  spi_receive (suc fuel) p mem buf len m =
      let (rxne, m') = spi_get_flag_status p 0 m in
      let (mem', buf', len', m'') = receive_frame p mem buf len m' in
      elim (len == 0) [
        | true ↦ some (mem, m)
        | false ↦ elim (rxne == 0) [
          | true ↦ spi_receive fuel p mem buf len m'
          | false ↦ spi_receive fuel p mem' buf' len' m''
        ]
      ]

  -- The state on entry is returned.
  unfoldable pub spi_send_it : ℕ → ℕ → SpiState → ℕ × SpiState
  spi_send_it p_tx_buffer len s =
      let h = s.handle in
      if h.tx_state == 2 then (h.tx_state, s) else (
        h.tx_state,
        record s {
          handle = record h { p_tx_buffer = p_tx_buffer; tx_len = len; tx_state = 2 };
          regs = set_bits hw (h.p_spix + spi_cr2) (2 ^ 7) s.regs;
        },
      )

  unfoldable pub spi_receive_it : ℕ → ℕ → SpiState → ℕ × SpiState
  spi_receive_it p_rx_buffer len s =
      let h = s.handle in
      if h.rx_state == 1 then (h.rx_state, s) else (
        h.rx_state,
        record s {
          handle = record h { p_rx_buffer = p_rx_buffer; rx_len = len; rx_state = 1 };
          regs = set_bits hw (h.p_spix + spi_cr2) (2 ^ 6) s.regs;
        },
      )

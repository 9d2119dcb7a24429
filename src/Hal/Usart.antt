-- ===== src/Hal/Usart.antt =====
-- kortos_hal/STM32F446xx/USART.c. A handle is a value; the state has the registers, the bytes of the
-- memory that holds the buffers, and the events that the application's callback was given, in order.
-- The default callback does nothing. A NULL pointer is the address 0.
pub mod Transfer
pub mod Interrupt
pub mod Baud
pub mod Line
use ko_rtos.Base.{
  if◌then◌else◌, ℕ, ◌+◌, ◌*◌, ◌/◌, ◌%◌, ◌^◌, Option, none, some, Bool, ◌==◌, ◌||◌, List,
}
use Prim.Native.Nat.{bit_and, bit_or}
use ko_rtos.Hal.{Hardware, Regs, store, modify, set_bits, clear_bits, not32, shl32}
use ko_rtos.Hal.Address.{
  usart1, usart2, usart3, uart4, uart5, usart6, apb1enr, apb2enr, apb1rstr, apb2rstr, rcc_cfgr,
  usart_brr, usart_cr1, usart_cr2, usart_cr3,
}
use ko_rtos.Hal.Nvic.{irq_config, set_priority}
use ko_rtos.Rcc.{rcc_get_pclk1, rcc_get_pclk2}

pub record UsartConfig : Type 0 where
  pub mode : ℕ
  pub baud : ℕ
  pub num_stop_bits : ℕ
  pub word_len : ℕ
  pub parity : ℕ
  pub hw_flow_ctrl : ℕ

pub record UsartHandle : Type 0 where
  pub p_usartx : ℕ
  pub usartx_config : UsartConfig
  pub p_tx_buffer : ℕ
  pub p_rx_buffer : ℕ
  pub tx_len : ℕ
  pub rx_len : ℕ
  pub tx_state : ℕ
  pub rx_state : ℕ

pub record UsartState : Type 0 where
  pub handle : UsartHandle
  pub regs : Regs
  pub memory : ℕ → ℕ
  pub events : List ℕ

-- A register's address and a peripheral's bit in it, where the code has a branch for the peripheral.
unfoldable pub usart_clock_bit : ℕ → Option (ℕ × ℕ)
usart_clock_bit p =
    if p == usart1
    then some (apb2enr, 4)
    else if p == usart2
    then some (apb1enr, 17)
    else if p == usart3
    then some (apb1enr, 18)
    else if p == uart4
    then some (apb1enr, 19)
    else if p == uart5
    then some (apb1enr, 20)
    else if p == usart6
    then some (apb2enr, 5)
    else none

unfoldable pub usart_reset_bit : ℕ → Option (ℕ × ℕ)
usart_reset_bit p =
    if p == usart1
    then some (apb2rstr, 4)
    else if p == usart2
    then some (apb1rstr, 17)
    else if p == usart3
    then some (apb1rstr, 18)
    else if p == uart4
    then some (apb1rstr, 19)
    else if p == uart5
    then some (apb1rstr, 20)
    else if p == usart6
    then some (apb2rstr, 5)
    else none

-- The bits RE and TE of CR1.
unfoldable pub mode_bits : ℕ → ℕ → ℕ
mode_bits mode v =
    if mode == 1
    then bit_or v (2 ^ 2)
    else if mode == 0
    then bit_or v (2 ^ 3)
    else if mode == 2
    then bit_or v (bit_or (2 ^ 2) (2 ^ 3))
    else v

-- The bit M.
unfoldable pub word_len_bits : ℕ → ℕ → ℕ
word_len_bits word_len v =
    if word_len == 0
    then bit_and v (not32 (2 ^ 12))
    else if word_len == 1
    then bit_or v (2 ^ 12)
    else v

-- The bits PCE and PS.
unfoldable pub parity_bits : ℕ → ℕ → ℕ
parity_bits parity v =
    if parity == 0
    then bit_and v (not32 (2 ^ 10))
    else if parity == 1
    then bit_and (bit_or v (2 ^ 10)) (not32 (2 ^ 9))
    else if parity == 2
    then bit_or (bit_or v (2 ^ 10)) (2 ^ 9)
    else bit_or v (2 ^ 10)

-- The field STOP of CR2.
unfoldable pub stop_bits : ℕ → ℕ → ℕ
stop_bits num v =
    let cleared = bit_and v (not32 (shl32 3 12)) in
    if num == 0
    then bit_and cleared (not32 (2 ^ 12))
    else if num == 1
    then bit_or cleared (shl32 1 12)
    else if num == 3
    then bit_or cleared (shl32 2 12)
    else if num == 2
    then bit_or cleared (shl32 3 12)
    else cleared

-- The bits RTSE and CTSE of CR3.
unfoldable pub flow_bits : ℕ → ℕ → ℕ
flow_bits flow v =
    if flow == 1
    then bit_or v (2 ^ 9)
    else if flow == 2
    then bit_or v (2 ^ 8)
    else if flow == 3
    then bit_or v (bit_or (2 ^ 8) (2 ^ 9))
    else v

-- A hundred times the divider of the clock; none where the divisor is 0 in 32 bits.
unfoldable pub usart_div : ℕ → ℕ → Bool → Option ℕ
usart_div pclk baud over8 =
    let divisor = (if over8 then 8 else 16) * baud % 2 ^ 32 in
    if divisor == 0 then none else some (100 * pclk % 2 ^ 32 / divisor)

-- The value of BRR from it.
unfoldable pub brr_value : ℕ → Bool → ℕ
brr_value div over8 =
    let m_part = shl32 (div / 100) 4 in
    let f_part =
      if over8
      then bit_and ((div % 100 * 8 + 50) / 100) 0x07
      else bit_and ((div % 100 * 16 + 50) / 100) 0x0f in
    bit_or m_part f_part

module _ (hw : Hardware) where
  unfoldable pub usart_clock_control : ℕ → ℕ → Regs → Regs
  usart_clock_control p enable m = elim (usart_clock_bit p) [
    | none ↦ m
    | some (a, n) ↦ if enable == 1 then set_bits hw a (2 ^ n) m else clear_bits hw a (2 ^ n) m
  ]

  -- The baud rate; the clock register is read once here. None is a division by 0, or a prescaler
  -- outside its table.
  unfoldable pub configure_baud : ℕ → ℕ → Regs → Option Regs
  configure_baud p baud m =
      let m' = hw.reads rcc_cfgr m in
      let over8 = bit_and (m' (p + usart_cr1) / 2 ^ 15) 1 == 1 in
      let pclk =
        if p == usart1 || p == usart6
        then rcc_get_pclk2 (m rcc_cfgr)
        else rcc_get_pclk1 (m rcc_cfgr) in
      elim pclk [
        | none ↦ none
        | some clk ↦ elim (usart_div clk baud over8) [
          | none ↦ none
          | some div ↦
              some (store hw (p + usart_brr) (brr_value div over8) (hw.reads (p + usart_cr1) m'))
        ]
      ]

  unfoldable pub usart_init : UsartHandle → Regs → Option Regs
  usart_init h m =
      let p = h.p_usartx in
      let c = h.usartx_config in
      let m₁ =
        modify hw (p + usart_cr1)
          (λ v. parity_bits c.parity (word_len_bits c.word_len (mode_bits c.mode v))) m in
      let m₂ = modify hw (p + usart_cr2) (stop_bits c.num_stop_bits) m₁ in
      let m₃ = modify hw (p + usart_cr3) (flow_bits c.hw_flow_ctrl) m₂ in configure_baud p c.baud m₃

  unfoldable pub usart_deinit : ℕ → Regs → Regs
  usart_deinit p m = elim (usart_reset_bit p) [
    | none ↦ m
    | some (a, n) ↦ clear_bits hw a (2 ^ n) (set_bits hw a (2 ^ n) m)
  ]

  unfoldable pub usart_irq_config : ℕ → ℕ → Regs → Regs
  usart_irq_config irq_num enable m = irq_config hw irq_num enable m

  unfoldable pub usart_set_priority : ℕ → ℕ → Regs → Regs
  usart_set_priority irq_num irq_priority m = set_priority hw irq_num irq_priority m

  unfoldable pub usart_periph_control : ℕ → ℕ → Regs → Regs
  usart_periph_control p enable m =
      if enable == 1
      then set_bits hw (p + usart_cr1) (2 ^ 13) m
      else clear_bits hw (p + usart_cr1) (2 ^ 13) m

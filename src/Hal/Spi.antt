-- ===== src/Hal/Spi.antt =====
-- kortos_hal/STM32F446xx/SPI.c. A handle is a value; the state has the registers, the bytes of the
-- memory that holds the buffers, and the events that the application's callback was given, in order.
-- The default callback does nothing. A NULL pointer is the address 0.
pub mod Transfer
pub mod Interrupt
pub mod Completion
use ko_rtos.Base.{if◌then◌else◌, ℕ, ◌+◌, ◌^◌, Option, none, some, ◌==◌, List}
use Prim.Native.Nat.{bit_and, bit_or}
use ko_rtos.Hal.{Hardware, Regs, modify, set_bits, clear_bits, with_field, not32}
use ko_rtos.Hal.Address.{
  spi1, spi2, spi3, spi4, apb1enr, apb2enr, apb1rstr, apb2rstr, spi_cr1, spi_cr2,
}
use ko_rtos.Hal.Nvic.{irq_config, set_priority}

pub record SpiConfig : Type 0 where
  pub device_mode : ℕ
  pub bus_config : ℕ
  pub sclk_speed : ℕ
  pub dff : ℕ
  pub cpol : ℕ
  pub cpha : ℕ
  pub ssm : ℕ

pub record SpiHandle : Type 0 where
  pub p_spix : ℕ
  pub spi_config : SpiConfig
  pub p_rx_buffer : ℕ
  pub p_tx_buffer : ℕ
  pub tx_len : ℕ
  pub rx_len : ℕ
  pub rx_state : ℕ
  pub tx_state : ℕ

pub record SpiState : Type 0 where
  pub handle : SpiHandle
  pub regs : Regs
  pub memory : ℕ → ℕ
  pub events : List ℕ

-- A register's address and a peripheral's bit in it, where the code has a branch for the peripheral.
unfoldable pub spi_clock_bit : ℕ → Option (ℕ × ℕ)
spi_clock_bit p =
    if p == spi1
    then some (apb2enr, 12)
    else if p == spi2
    then some (apb1enr, 14)
    else if p == spi3
    then some (apb1enr, 15)
    else if p == spi4
    then some (apb2enr, 13)
    else none

unfoldable pub spi_reset_bit : ℕ → Option (ℕ × ℕ)
spi_reset_bit p =
    if p == spi1
    then some (apb2rstr, 12)
    else if p == spi2
    then some (apb1rstr, 14)
    else if p == spi3
    then some (apb1rstr, 15)
    else if p == spi4
    then some (apb2rstr, 13)
    else none

-- The bits BIDIMODE and RXONLY of CR1.
unfoldable pub bus_bits : ℕ → ℕ → ℕ
bus_bits bus v =
    if bus == 0
    then bit_and (bit_and v (not32 (2 ^ 15))) (not32 (2 ^ 10))
    else if bus == 1
    then bit_and (bit_or v (2 ^ 15)) (not32 (2 ^ 10))
    else if bus == 2
    then bit_or (bit_and v (not32 (2 ^ 15))) (2 ^ 10)
    else v

-- The value of CR1 from the old one.
unfoldable pub cr1_value : SpiConfig → ℕ → ℕ
cr1_value c v =
    let v₁ = bus_bits c.bus_config (with_field 1 2 c.device_mode v) in
    let v₂ = with_field 1 11 c.dff (with_field 7 3 c.sclk_speed v₁) in
    let v₃ = with_field 1 0 c.cpha (with_field 1 1 c.cpol v₂) in with_field 1 9 c.ssm v₃

module _ (hw : Hardware) where
  unfoldable pub spi_clock_control : ℕ → ℕ → Regs → Regs
  spi_clock_control p enable m = elim (spi_clock_bit p) [
    | none ↦ m
    | some (a, n) ↦ if enable == 1 then set_bits hw a (2 ^ n) m else clear_bits hw a (2 ^ n) m
  ]

  unfoldable pub spi_init : SpiHandle → Regs → Regs
  spi_init h m =
      modify hw (h.p_spix + spi_cr1) (cr1_value h.spi_config) (spi_clock_control h.p_spix 1 m)

  unfoldable pub spi_deinit : ℕ → Regs → Regs
  spi_deinit p m = elim (spi_reset_bit p) [
    | none ↦ m
    | some (a, n) ↦ clear_bits hw a (2 ^ n) (set_bits hw a (2 ^ n) m)
  ]

  unfoldable pub spi_periph_control : ℕ → ℕ → Regs → Regs
  spi_periph_control p enable m =
      if enable == 1
      then set_bits hw (p + spi_cr1) (2 ^ 6) m
      else clear_bits hw (p + spi_cr1) (2 ^ 6) m

  unfoldable pub spi_irq_config : ℕ → ℕ → Regs → Regs
  spi_irq_config irq_num enable m = irq_config hw irq_num enable m

  unfoldable pub spi_set_priority : ℕ → ℕ → Regs → Regs
  spi_set_priority irq_num irq_priority m = set_priority hw irq_num irq_priority m

  unfoldable pub spi_ssi_config : ℕ → ℕ → Regs → Regs
  spi_ssi_config p enable m =
      if enable == 1
      then set_bits hw (p + spi_cr1) (2 ^ 8) m
      else clear_bits hw (p + spi_cr1) (2 ^ 8) m

  unfoldable pub spi_ssoe_config : ℕ → ℕ → Regs → Regs
  spi_ssoe_config p enable m =
      if enable == 1
      then set_bits hw (p + spi_cr2) (2 ^ 2) m
      else clear_bits hw (p + spi_cr2) (2 ^ 2) m

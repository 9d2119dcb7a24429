-- ===== src/Hal/Gpio.antt =====
-- kortos_hal/STM32F446xx/GPIO.c. A port is the address of its registers.
pub mod Config
pub mod Pins
use ko_rtos.Base.{if◌then◌else◌, ℕ, ◌+◌, ◌*◌, ◌/◌, ◌%◌, ◌^◌, Option, none, some, leb, ◌==◌, ◌||◌}
use Prim.Native.Nat.{bit_and, bit_xor}
use ko_rtos.Hal.{Hardware, Regs, store, modify, set_bits, clear_bits, with_field, shl32}
use ko_rtos.Hal.Address.{
  gpioa, gpiob, gpioc, gpiod, gpioe, gpiof, gpiog, gpioh, moder, otyper, ospeedr, pupdr, idr, odr,
  afr, ahb1enr, ahb1rstr, apb2enr, exti_imr, exti_rtsr, exti_ftsr, exti_pr, syscfg_exticr,
}
use ko_rtos.Hal.Nvic.{irq_config, set_priority}

pub record GpioConfig : Type 0 where
  pub pin_num : ℕ
  pub pin_mode : ℕ
  pub pin_speed : ℕ
  pub pin_pupd : ℕ
  pub pin_out_type : ℕ
  pub pin_alt_fcn_mode : ℕ

-- The bit of a port in the clock and the reset register, where the code has a branch for the port.
unfoldable pub port_bit : ℕ → Option ℕ
port_bit p =
    if p == gpioa
    then some 0
    else if p == gpiob
    then some 1
    else if p == gpioc
    then some 2
    else if p == gpiod
    then some 3
    else if p == gpioe
    then some 4
    else if p == gpiof
    then some 5
    else if p == gpioh
    then some 7
    else none

-- GPIO_BASEADDR_TO_CODE
unfoldable pub port_code : ℕ → ℕ
port_code p =
    if p == gpioa
    then 0
    else if p == gpiob
    then 1
    else if p == gpioc
    then 2
    else if p == gpiod
    then 3
    else if p == gpioe
    then 4
    else if p == gpiof
    then 5
    else if p == gpiog
    then 6
    else if p == gpioh
    then 7
    else 0

module _ (hw : Hardware) where
  unfoldable pub gpio_clock_control : ℕ → ℕ → Regs → Regs
  gpio_clock_control p enable m = elim (port_bit p) [
    | none ↦ m
    | some n ↦
        if enable == 1 then set_bits hw ahb1enr (2 ^ n) m else clear_bits hw ahb1enr (2 ^ n) m
  ]

  -- The edges of the interrupt modes: 4 falling, 5 rising, 6 both.
  unfoldable pub config_edges : ℕ → ℕ → Regs → Regs
  config_edges mode pin m =
      if mode == 4
      then clear_bits hw exti_rtsr (2 ^ pin) (set_bits hw exti_ftsr (2 ^ pin) m)
      else if mode == 5
      then clear_bits hw exti_ftsr (2 ^ pin) (set_bits hw exti_rtsr (2 ^ pin) m)
      else if mode == 6
      then set_bits hw exti_ftsr (2 ^ pin) (set_bits hw exti_rtsr (2 ^ pin) m)
      else m

  unfoldable pub config_interrupt : ℕ → ℕ → ℕ → Regs → Regs
  config_interrupt p mode pin m =
      let m₁ = clear_bits hw (p + moder) (shl32 3 (2 * pin)) m in
      let m₂ = config_edges mode pin m₁ in
      let m₃ = set_bits hw apb2enr (2 ^ 14) m₂ in
      let m₄ =
        set_bits hw (syscfg_exticr + 4 * (pin / 4)) (shl32 (port_code p) (4 * (pin % 4))) m₃ in
      set_bits hw exti_imr (2 ^ pin) m₄

  unfoldable pub config_mode : ℕ → GpioConfig → Regs → Regs
  config_mode p c m =
      if leb c.pin_mode 3
      then modify hw (p + moder) (with_field 3 (2 * c.pin_num) c.pin_mode) m
      else config_interrupt p c.pin_mode c.pin_num m

  unfoldable pub config_output : ℕ → GpioConfig → Regs → Regs
  config_output p c m =
      if c.pin_mode == 1 || c.pin_mode == 2
      then modify hw (p + ospeedr) (with_field 3 (2 * c.pin_num) c.pin_speed)
          (modify hw (p + otyper) (with_field 1 c.pin_num c.pin_out_type) m)
      else m

  unfoldable pub config_alt_fcn : ℕ → GpioConfig → Regs → Regs
  config_alt_fcn p c m =
      if c.pin_mode == 2
      then modify hw (p + afr + 4 * (c.pin_num / 8))
          (with_field 15 (4 * (c.pin_num % 8)) c.pin_alt_fcn_mode) m
      else m

  unfoldable pub gpio_init : ℕ → GpioConfig → Regs → Regs
  gpio_init p c m =
      let m₁ = config_mode p c (gpio_clock_control p 1 m) in
      let m₂ = config_output p c m₁ in
      let m₃ = modify hw (p + pupdr) (with_field 3 (2 * c.pin_num) c.pin_pupd) m₂ in
      config_alt_fcn p c m₃

  unfoldable pub gpio_deinit : ℕ → Regs → Regs
  gpio_deinit p m = elim (port_bit p) [
    | none ↦ m
    | some n ↦ clear_bits hw ahb1rstr (2 ^ n) (set_bits hw ahb1rstr (2 ^ n) m)
  ]

  unfoldable pub gpio_read_input_pin : ℕ → ℕ → Regs → ℕ × Regs
  gpio_read_input_pin p pin m = (bit_and (m (p + idr) / 2 ^ pin) 1, hw.reads (p + idr) m)

  unfoldable pub gpio_read_input_port : ℕ → Regs → ℕ × Regs
  gpio_read_input_port p m = (m (p + idr) % 2 ^ 16, hw.reads (p + idr) m)

  unfoldable pub gpio_write_output_pin : ℕ → ℕ → ℕ → Regs → Regs
  gpio_write_output_pin p pin val m =
      if val == 1 then set_bits hw (p + odr) (2 ^ pin) m else clear_bits hw (p + odr) (2 ^ pin) m

  unfoldable pub gpio_write_output_port : ℕ → ℕ → Regs → Regs
  gpio_write_output_port p val m = store hw (p + odr) val m

  unfoldable pub gpio_toggle_output_pin : ℕ → ℕ → Regs → Regs
  gpio_toggle_output_pin p pin m = modify hw (p + odr) (λ v. bit_xor v (2 ^ pin)) m

  unfoldable pub gpio_irq_config : ℕ → ℕ → Regs → Regs
  gpio_irq_config irq_num enable m = irq_config hw irq_num enable m

  unfoldable pub gpio_set_priority : ℕ → ℕ → Regs → Regs
  gpio_set_priority irq_num irq_priority m = set_priority hw irq_num irq_priority m

  -- The test is a load, and `|=` is another.
  unfoldable pub gpio_irq_handler : ℕ → Regs → Regs
  gpio_irq_handler pin m =
      let m' = hw.reads exti_pr m in
      if bit_and (m exti_pr) (2 ^ pin) == 0 then m' else set_bits hw exti_pr (2 ^ pin) m'

-- ===== src/Hal/I2c.antt =====
-- kortos_hal/STM32F446xx/I2C.c. A handle is a value; the state has the registers, the bytes of the
-- memory that holds the buffers, and the events that the application's callback was given, in order.
-- A NULL pointer is the address 0.
pub mod Transfer
pub mod Interrupt
pub mod Timing
pub mod Polling
pub mod Errors
pub mod Sections
pub mod Steps
pub mod Transmission
pub mod Arrivals
pub mod Buffer
pub mod Reception
use ko_rtos.Base.{
  ℕ, ◌+◌, ◌-◌, ◌*◌, ◌/◌, ◌%◌, ◌^◌, Option, none, some, leb, ◌==◌, if◌then◌else◌, List,
}
use Prim.Native.Nat.{bit_and, bit_or}
use ko_rtos.Types.{◌>>=◌}
use ko_rtos.Hal.{Hardware, Regs, store, modify, set_bits, clear_bits, with_field, not32, shl32}
use ko_rtos.Hal.Address.{
  i2c1, i2c2, i2c3, apb1enr, apb1rstr, rcc_cfgr, i2c_cr1, i2c_cr2, i2c_oar1, i2c_dr, i2c_sr1,
  i2c_sr2, i2c_ccr, i2c_trise,
}
use ko_rtos.Hal.Nvic.{irq_config, set_priority}
use ko_rtos.Rcc.{rcc_get_pclk1}

pub record I2cConfig : Type 0 where
  pub clk_speed : ℕ
  pub device_addr : ℕ
  pub ack_control : ℕ
  pub fm_duty_cycle : ℕ

pub record I2cHandle : Type 0 where
  pub p_i2cx : ℕ
  pub i2cx_config : I2cConfig
  pub p_tx_buffer : ℕ
  pub p_rx_buffer : ℕ
  pub tx_len : ℕ
  pub rx_len : ℕ
  pub txrxstate : ℕ
  pub slave_addr : ℕ
  pub rx_size : ℕ
  pub repeated_start : ℕ

pub record I2cState : Type 0 where
  pub handle : I2cHandle
  pub regs : Regs
  pub memory : ℕ → ℕ
  pub events : List ℕ

-- A peripheral's bit in the clock and the reset register, where the code has a branch for it.
unfoldable pub i2c_bit : ℕ → Option ℕ
i2c_bit p =
    if p == i2c1
    then some 21
    else if p == i2c2
    then some 22
    else if p == i2c3
    then some 23
    else none

abbrev pub clk_speed_sm : ℕ
clk_speed_sm = 100_000

-- The value of OAR1 from the old one.
unfoldable pub oar1_value : ℕ → ℕ → ℕ
oar1_value addr v =
    let cleared = bit_and (bit_and v (not32 (2 ^ 15))) (not32 (shl32 0x7f 1)) in
    bit_or (bit_or cleared (shl32 (bit_and addr 0x7f) 1)) (2 ^ 14)

-- A quotient in 32 bits; none where the divisor is 0.
abbrev pub quotient : ℕ → ℕ → Option ℕ
quotient x y = if y % 2 ^ 32 == 0 then none else some (x / (y % 2 ^ 32))

-- The mode bits of CCR, and the divider of the bus clock.
unfoldable pub ccr_parts : I2cConfig → ℕ → ℕ → Option (ℕ × ℕ)
ccr_parts c pclk v =
    let duty = c.fm_duty_cycle % 2 ^ 8 in
    let slow = leb c.clk_speed clk_speed_sm in
    let fast = bit_or v (2 ^ 15) in
    let factor = if slow then 2 else if duty == 0 then 3 else 25 in
    let bits =
      if slow
      then bit_and v (not32 (2 ^ 15))
      else if duty == 0
      then bit_and fast (not32 (2 ^ 14))
      else bit_or fast (shl32 duty 14) in
    quotient pclk (factor * c.clk_speed) >>= λ q. some (bits, q)

-- The value of CCR from the old one.
unfoldable pub ccr_value : I2cConfig → ℕ → ℕ → Option ℕ
ccr_value c pclk v =
    ccr_parts c pclk v >>= λ (bits, ccr). some (with_field 0xfff 0 (bit_and ccr 0xfff) bits)

-- The value of TRISE from the old one; the product is taken in 32 bits.
unfoldable pub trise_value : ℕ → ℕ → ℕ → ℕ
trise_value speed pclk v =
    let cleared = bit_and v (not32 0x3f) in
    let time =
      if leb speed clk_speed_sm
      then pclk / 1_000_000 + 1
      else pclk * 300 % 2 ^ 32 / 1_000_000_000 + 1 in
    bit_and (bit_or cleared time) 0x3f

module _ (hw : Hardware) where
  unfoldable pub i2c_clock_control : ℕ → ℕ → Regs → Regs
  i2c_clock_control p enable m = elim (i2c_bit p) [
    | none ↦ m
    | some n ↦
        if enable == 1 then set_bits hw apb1enr (2 ^ n) m else clear_bits hw apb1enr (2 ^ n) m
  ]

  -- The configuration of a peripheral for the clock `pclk`.
  unfoldable pub i2c_configure : ℕ → I2cConfig → ℕ → Regs → Option Regs
  i2c_configure p c pclk m =
      let m₁ = modify hw (p + i2c_cr2) (with_field 0x1f 0 (pclk / 1_000_000)) m in
      let m₂ = modify hw (p + i2c_oar1) (oar1_value c.device_addr) m₁ in
      let m₃ = hw.reads (p + i2c_ccr) m₂ in
      ccr_value c pclk (m₂ (p + i2c_ccr)) >>= λ v.
      some (modify hw (p + i2c_trise) (trise_value c.clk_speed pclk) (store hw (p + i2c_ccr) v m₃))

  -- The clock register is read once here. None is a division by 0, or a prescaler outside its table.
  unfoldable pub i2c_init : I2cHandle → Regs → Option Regs
  i2c_init h m = rcc_get_pclk1 (m rcc_cfgr) >>= λ pclk.
      i2c_configure h.p_i2cx h.i2cx_config pclk (i2c_clock_control h.p_i2cx 1 (hw.reads rcc_cfgr m))

  unfoldable pub i2c_deinit : ℕ → Regs → Regs
  i2c_deinit p m = elim (i2c_bit p) [
    | none ↦ m
    | some n ↦ clear_bits hw apb1rstr (2 ^ n) (set_bits hw apb1rstr (2 ^ n) m)
  ]

  unfoldable pub i2c_irq_config : ℕ → ℕ → Regs → Regs
  i2c_irq_config irq_num enable m = irq_config hw irq_num enable m

  unfoldable pub i2c_set_priority : ℕ → ℕ → Regs → Regs
  i2c_set_priority irq_num irq_priority m = set_priority hw irq_num irq_priority m

  unfoldable pub i2c_manage_acking : ℕ → ℕ → Regs → Regs
  i2c_manage_acking p enable m =
      if enable == 1
      then set_bits hw (p + i2c_cr1) (2 ^ 10) m
      else if enable == 0
      then clear_bits hw (p + i2c_cr1) (2 ^ 10) m
      else m

  unfoldable pub i2c_periph_control : I2cHandle → ℕ → Regs → Regs
  i2c_periph_control h enable m =
      let p = h.p_i2cx in
      let m' =
        if enable == 1
        then set_bits hw (p + i2c_cr1) (2 ^ 0) m
        else clear_bits hw (p + i2c_cr1) (2 ^ 0) m in
      if h.i2cx_config.ack_control == 1 then i2c_manage_acking p 1 m' else i2c_manage_acking p 0 m'

  unfoldable pub i2c_get_flag_status : ℕ → ℕ → ℕ → Regs → ℕ × Regs
  i2c_get_flag_status p sr flag_bit m =
      let a = if sr == 1 then p + i2c_sr1 else p + i2c_sr2 in
      (bit_and (m a / 2 ^ flag_bit) 1, hw.reads a m)

  unfoldable pub i2c_generate_start : ℕ → Regs → Regs
  i2c_generate_start p m = set_bits hw (p + i2c_cr1) (2 ^ 8) m

  unfoldable pub i2c_generate_stop : ℕ → Regs → Regs
  i2c_generate_stop p m = set_bits hw (p + i2c_cr1) (2 ^ 9) m

  -- WRITE is 0 and READ is 1; the address is a byte.
  unfoldable pub i2c_execute_addr_phase : ℕ → ℕ → ℕ → Regs → Regs
  i2c_execute_addr_phase p slave_addr read_or_write m =
      let addr = slave_addr * 2 % 2 ^ 8 in
      let byte =
        if read_or_write == 0
        then bit_and addr (2 ^ 8 - 1 - 1)
        else if read_or_write == 1
        then bit_or addr 1
        else addr in
      store hw (p + i2c_dr) byte m

  unfoldable pub i2c_clear_addr_flag : ℕ → Regs → Regs
  i2c_clear_addr_flag p m = hw.reads (p + i2c_sr2) (hw.reads (p + i2c_sr1) m)

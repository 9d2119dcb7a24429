-- ===== src/Hal/Can.antt =====
-- kortos_hal/STM32F446xx/CAN.c. A pointer of NULL is none. The enumerations of CAN.h are the numbers
-- that C gives them, since the code tests them against the last. The calls of the application's
-- callbacks are listed in order; the default callbacks do nothing.
pub mod Transmit
pub mod Receive
pub mod Frame
pub mod Polling
pub mod Callbacks
use ko_rtos.Base.{
  if◌then◌else◌, ℕ, zero, suc, ◌+◌, ◌*◌, ◌^◌, Option, none, some, Bool, true, false, not, ltb, ◌==◌,
  ◌&&◌, ◌||◌,
}
use Prim.Native.Nat.{bit_and, bit_or}
use ko_rtos.Hal.{Hardware, Regs, store, modify, set_bits, clear_bits, not32, shl32}
use ko_rtos.Hal.Address.{
  can1, can2, apb1enr, can_mcr, can_msr, can_ier, can_btr, can_fmr, can_fm1r, can_fs1r, can_ffa1r,
  can_fa1r, can_filter_banks,
}
use ko_rtos.Hal.Nvic.{irq_config, set_priority}

pub data KhalStatus : Type 0 where
  khal_ok err_busy err_timeout err_tx err_rx err_invalid_param err_null_ptr : KhalStatus

pub record CanConfig : Type 0 where
  pub baud_rate_prescaler : ℕ
  pub ts1 : ℕ
  pub ts2 : ℕ
  pub sjw : ℕ
  pub mode : ℕ
  pub ttcm : ℕ

pub record CanHandle : Type 0 where
  pub canx : Option ℕ
  pub can_config : CanConfig

pub record CanFilterConfig : Type 0 where
  pub bank_num : ℕ
  pub filter_mode : ℕ
  pub filter_scale : ℕ
  pub fifo_assignment : ℕ
  pub fr1 : ℕ
  pub fr2 : ℕ

pub record CanFrame : Type 0 where
  pub id : ℕ
  pub dlc : ℕ
  pub id_type : ℕ
  pub frame_type : ℕ
  pub payload : ℕ → ℕ
  pub timestamp : ℕ

abbrev pub can_init_timeout : ℕ
can_init_timeout = 1_000_000

-- `v & mask` as a condition.
abbrev pub has : ℕ → ℕ → Bool
has v mask = not (bit_and v mask == 0)

-- The value of BTR from the old one.
unfoldable pub btr_value : CanConfig → ℕ → ℕ
btr_value c btr =
    let loopback = if c.mode == 1 || c.mode == 3 then 1 else 0 in
    let silent = if c.mode == 2 || c.mode == 3 then 1 else 0 in
    let cleared = bit_and btr (
      not32 (
        bit_or 0x3ff (
          bit_or (shl32 0xf 16)
            (bit_or (shl32 0x7 20) (bit_or (shl32 0x3 24) (bit_or (shl32 1 30) (shl32 1 31))))))) in
    bit_or cleared (
      bit_or c.baud_rate_prescaler (
        bit_or (shl32 c.ts1 16) (
          bit_or (shl32 c.ts2 20)
            (bit_or (shl32 c.sjw 24) (bit_or (shl32 loopback 30) (shl32 silent 31))))))

abbrev pub config_is_valid : CanConfig → Bool
config_is_valid c = not (
    ltb 0x3ff c.baud_rate_prescaler
    || (ltb 0xf c.ts1
        || (ltb 0x7 c.ts2
            || (ltb 0x3 c.sjw || (ltb 3 c.mode || (not (c.ttcm == 1) && not (c.ttcm == 0)))))))

abbrev pub filter_is_valid : CanFilterConfig → Bool
filter_is_valid f = not (
    ltb 27 f.bank_num || (ltb 1 f.filter_mode || (ltb 1 f.filter_scale || ltb 1 f.fifo_assignment)))

module _ (hw : Hardware) where
  unfoldable pub can_clock_control : ℕ → ℕ → Regs → Regs
  can_clock_control p enable m =
      if enable == 1
      then (if p == can1
          then set_bits hw apb1enr (2 ^ 25) m
          else if p == can2
          then set_bits hw apb1enr (2 ^ 26) m
          else m)
      else if p == can1
      then clear_bits hw apb1enr (2 ^ 25) m
      else if p == can2
      then clear_bits hw apb1enr (2 ^ 26) m
      else m

  -- The registers after `n` loads from an address.
  unfoldable pub after_loads : ℕ → ℕ → Regs → Regs
  after_loads a zero m = m
  after_loads a (suc n) m = after_loads a n (hw.reads a m)

  -- `while (busy(*a) && timeout > 0) timeout--`: the timeout that is left, and the registers.
  unfoldable pub poll : ℕ → (ℕ → Bool) → ℕ → Regs → ℕ × Regs
  poll a busy zero m = (0, hw.reads a m)
  poll a busy (suc n) m = elim (busy (m a)) [
    | true ↦ poll a busy n (hw.reads a m)
    | false ↦ (suc n, hw.reads a m)
  ]

  -- A wait, and what follows it if the time did not run out.
  unfoldable pub await : ℕ → (ℕ → Bool) → ℕ → Regs → (Regs → KhalStatus × Regs) → KhalStatus × Regs
  await a busy timeout m next =
      let (left, m') = poll a busy timeout m in if left == 0 then (err_timeout, m') else next m'

  -- From the configuration of the bit timing on, up to the request to leave the init mode.
  unfoldable pub can_configure : ℕ → CanConfig → Regs → Regs
  can_configure p c m =
      let m₁ = modify hw (p + can_btr) (btr_value c) m in
      let m₂ =
        if c.ttcm == 1
        then set_bits hw (p + can_mcr) (2 ^ 7) m₁
        else clear_bits hw (p + can_mcr) (2 ^ 7) m₁ in
      let m₃ = set_bits hw (p + can_ier) (bit_or (2 ^ 0) (bit_or (2 ^ 1) (2 ^ 4))) m₂ in
      clear_bits hw (p + can_mcr) (2 ^ 0) m₃

  unfoldable pub can_init_at : ℕ → CanConfig → Regs → KhalStatus × Regs
  can_init_at p c m =
      if config_is_valid c
      then await (p + can_msr) (λ v. not (has v (2 ^ 0))) can_init_timeout
          (set_bits hw (p + can_mcr) (2 ^ 0) (can_clock_control p 1 m))
          (λ m₁.
            await (p + can_msr) (λ v. has v (2 ^ 1)) can_init_timeout
              (clear_bits hw (p + can_mcr) (2 ^ 1) m₁)
              (λ m₂.
                await (p + can_msr) (λ v. has v (2 ^ 0)) can_init_timeout (can_configure p c m₂)
                  (λ m₃. (khal_ok, m₃))))
      else (err_invalid_param, m)

  unfoldable pub can_init : Option CanHandle → Regs → KhalStatus × Regs
  can_init none m = (err_null_ptr, m)
  can_init (some h) m = elim h.canx [
    | none ↦ (err_null_ptr, m)
    | some p ↦ can_init_at p h.can_config m
  ]

  -- Bit `bank` of the register is set or cleared.
  unfoldable pub set_bank : ℕ → ℕ → ℕ → Regs → Regs
  set_bank a bank val m =
      if val == 0 then clear_bits hw a (2 ^ bank) m else set_bits hw a (2 ^ bank) m

  unfoldable pub can_configure_filter : Option CanFilterConfig → Regs → KhalStatus × Regs
  can_configure_filter none m = (err_null_ptr, m)
  can_configure_filter (some f) m =
      if filter_is_valid f
      then (let bank = can1 + can_filter_banks + 8 * f.bank_num in
          let m₁ = set_bits hw (can1 + can_fmr) (2 ^ 0) m in
          let m₂ = clear_bits hw (can1 + can_fa1r) (2 ^ f.bank_num) m₁ in
          let m₃ = set_bank (can1 + can_fm1r) f.bank_num f.filter_mode m₂ in
          let m₄ = set_bank (can1 + can_fs1r) f.bank_num f.filter_scale m₃ in
          let m₅ = set_bank (can1 + can_ffa1r) f.bank_num f.fifo_assignment m₄ in
          let m₆ = store hw (bank + 4) f.fr2 (store hw bank f.fr1 m₅) in
          let m₇ = set_bits hw (can1 + can_fa1r) (2 ^ f.bank_num) m₆ in
          (khal_ok, clear_bits hw (can1 + can_fmr) (2 ^ 0) m₇))
      else (err_invalid_param, m)

  unfoldable pub can_irq_control : ℕ → ℕ → Regs → KhalStatus × Regs
  can_irq_control irq_num enable m =
      if ltb 96 irq_num then (err_invalid_param, m) else (khal_ok, irq_config hw irq_num enable m)

  unfoldable pub can_irq_priority_config : ℕ → ℕ → Regs → KhalStatus × Regs
  can_irq_priority_config irq_num priority m =
      if ltb 96 irq_num
      then (err_invalid_param, m)
      else (khal_ok, set_priority hw irq_num priority m)

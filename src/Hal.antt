-- ===== src/Hal.antt =====
-- Memory-mapped registers, as the drivers of kortos_hal/STM32F446xx use them: the state is the word
-- at each register's address, and the hardware, which is not part of the repository, is a parameter
-- that says what a load and a store do to the registers.
pub mod Fields
pub mod Flags
pub mod Address
pub mod Nvic
pub mod Gpio
pub mod Can
pub mod Spi
pub mod Usart
pub mod I2c
use ko_rtos.Base.{ℕ, ◌+◌, ◌-◌, ◌*◌, ◌/◌, ◌%◌, ◌^◌, ◌==◌, ◌&&◌, Bool, update}
use Prim.Native.Nat.{bit_and, bit_or}

abbrev pub Regs : Type 0
Regs = ℕ → ℕ

-- A load gives the word that stands there; a flag may change by it, or in the time that it takes.
pub record Hardware : Type 0 where
  pub reads : ℕ → Regs → Regs
  pub writes : ℕ → ℕ → Regs → Regs

-- Registers that keep what is written: control, configuration and output data registers.
abbrev pub storage : Hardware
storage = record { reads = λ a m. m; writes = λ a v m. update m a v }

-- `~m` for a 32-bit word.
abbrev pub not32 : ℕ → ℕ
not32 m = 2 ^ 32 - 1 - m

module _ (hw : Hardware) where
  -- `*a = v`
  abbrev pub store : ℕ → ℕ → Regs → Regs
  store a v m = hw.writes a v m

  -- A load, the change of the value, and a store.
  abbrev pub modify : ℕ → (ℕ → ℕ) → Regs → Regs
  modify a f m = hw.writes a (f (m a)) (hw.reads a m)

  -- `*a |= mask`
  abbrev pub set_bits : ℕ → ℕ → Regs → Regs
  set_bits a mask m = modify a (λ v. bit_or v mask) m

  -- `*a &= ~mask`
  abbrev pub clear_bits : ℕ → ℕ → Regs → Regs
  clear_bits a mask m = modify a (λ v. bit_and v (not32 mask)) m

-- `x << n` in 32 bits.
abbrev pub shl32 : ℕ → ℕ → ℕ
shl32 x n = x * 2 ^ n % 2 ^ 32

-- `v &= ~(mask << pos); v |= x << pos`
unfoldable pub with_field : ℕ → ℕ → ℕ → ℕ → ℕ
with_field mask pos x v = bit_or (bit_and v (not32 (shl32 mask pos))) (shl32 x pos)

-- `(v >> pos) & 1`
unfoldable pub bit_at : ℕ → ℕ → ℕ
bit_at v pos = bit_and (v / 2 ^ pos) 1

-- Two bytes at an address, the low one first.
abbrev pub halfword : (ℕ → ℕ) → ℕ → ℕ
halfword mem a = mem a + 2 ^ 8 * mem (a + 1)

abbrev pub store_halfword : (ℕ → ℕ) → ℕ → ℕ → ℕ → ℕ
store_halfword mem a v = update (update mem a (v % 2 ^ 8)) (a + 1) (v / 2 ^ 8 % 2 ^ 8)

-- `len - n` in 32 bits.
abbrev pub len_minus : ℕ → ℕ → ℕ
len_minus len n = (len + 2 ^ 32 - n) % 2 ^ 32

-- `(a >> i) & 1` and `(b >> j) & 1` are both 1.
abbrev pub both_bits : ℕ → ℕ → ℕ → ℕ → Bool
both_bits a i b j = bit_and (a / 2 ^ i) 1 == 1 && bit_and (b / 2 ^ j) 1 == 1

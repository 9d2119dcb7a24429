-- ===== src/Hal/Flags.antt =====
-- Flags that are cleared by writing 1: what `|=` does to such a register.
use ko_rtos.Base.{ℕ, ◌^◌, ◌<◌, ◌≡◌, ap, ◌∙◌, arith}
use Prim.Native.Nat.{bit_and, bit_or}
use ko_rtos.Base.Bits.{bit-le, bit-zero, bit-or, bit-and, bit-not, bits-ext, bit_or-lt, bit_and-lt}
use ko_rtos.Hal.{Hardware, Regs, not32, set_bits}

-- A load changes nothing, and a store clears the flags at which the word has a 1.
pub record IsWriteOneToClear (hw : Hardware) (a : ℕ) : Type 0 where
  pub quiet : (m : Regs) → hw.reads a m ≡ m
  pub clears : (v : ℕ) (m : Regs) → hw.writes a v m a ≡ bit_and (m a) (not32 v)

clear_own_bits : (v k : ℕ) → v < 2 ^ 32 → k < 2 ^ 32 → bit_and v (not32 (bit_or v k)) ≡ 0
clear_own_bits v k p q = bits-ext 32 _ 0 (bit_and-lt 32 v _ p) (omega arith) (λ i l. omega (
  arith,
  bit-and v (not32 (bit_or v k)) i,
  bit-not 32 (bit_or v k) i (bit_or-lt 32 v k p q) l,
  bit-or v k i,
  bit-le v i,
  bit-le k i,
  bit-le 0 i,
  bit-zero i,
))

-- `|=` writes the flags that stand there back, and so clears all of them.
pub set_bits-clears_all :
    (hw : Hardware) (a mask : ℕ) (m : Regs)
    → IsWriteOneToClear hw a
    → m a < 2 ^ 32
    → mask < 2 ^ 32
    → set_bits hw a mask m a ≡ 0
set_bits-clears_all hw a mask m w p q =
    w.clears (bit_or (m a) mask) (hw.reads a m)
    ∙ ap (λ x. bit_and (x a) (not32 (bit_or (m a) mask))) (w.quiet m)
    ∙ clear_own_bits (m a) mask p q

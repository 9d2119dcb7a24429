-- ===== src/Hal/Usart/Line.antt =====
-- The stop bits. USART.h numbers them as the field STOP of CR2 does: 0 for 1, 1 for 0.5, 2 for 2 and
-- 3 for 1.5.
use ko_rtos.Base.{ℕ, zero, suc, ◌+◌, ◌^◌, ◌≤◌, ◌≡◌, sym, ap, ◌∙◌, ◌==◌, if◌then◌else◌, arith}
use Prim.Native.Nat.{bit_and}
use native.Mathlib.Nat.{mod-lt}
use ko_rtos.Base.Bits.{bit, bit-and, bit-zero, bits-ext, or_zero}
use ko_rtos.Hal.{with_field, not32, shl32}
use ko_rtos.Hal.Fields.{field, field-bit, field-with_field, two_pow_pos}
use ko_rtos.Hal.Usart.{stop_bits}

field-cleared : (v mask : ℕ) → field 2 12 v ≡ 0 → field 2 12 (bit_and v mask) ≡ 0
field-cleared v mask e = bits-ext 2 _ 0 (mod-lt _ (two_pow_pos 2)) (omega arith) (λ i l.
    field-bit 2 12 (bit_and v mask) i l
    ∙ bit-and v mask (12 + i)
    ∙ omega (arith, field-bit 2 12 v i l, ap (λ x. bit x i) e, bit-zero i))

-- For one of the four numbers of stop bits, the field STOP has the number itself for 1 and for 0.5
-- stop bits; for 2 it has the code of 1.5, and for 1.5 the code of 2.
pub stop_bits-field :
    (num v : ℕ)
    → num ≤ 3
    → field 2 12 (stop_bits num v) ≡ (if num == 2 then 3 else if num == 3 then 2 else num)
unfolding stop_bits with_field
stop_bits-field zero v l =
    let cleared = bit_and v (not32 (shl32 3 12)) in
    field-cleared cleared (not32 (2 ^ 12)) (
      ap (field 2 12) (sym (or_zero cleared))
      ∙ field-with_field 2 12 0 v (omega arith) (omega arith) (omega arith))
stop_bits-field (suc zero) v l = field-with_field 2 12 1 v (omega arith) (omega arith) (omega arith)
stop_bits-field (suc (suc zero)) v l =
    field-with_field 2 12 3 v (omega arith) (omega arith) (omega arith)
stop_bits-field (suc (suc (suc zero))) v l =
    field-with_field 2 12 2 v (omega arith) (omega arith) (omega arith)
stop_bits-field (suc (suc (suc (suc n)))) v l = absurd (omega arith)

-- ===== src/Hal/Usart/Baud.antt =====
-- The value of BRR.
use ko_rtos.Base.{ℕ, ◌+◌, ◌-◌, ◌*◌, ◌/◌, ◌%◌, ◌^◌, ◌<◌, ◌≡◌, ltb, if◌then◌else◌, true, false, arith}
use Prim.Native.Nat.{bit_and}
use ko_rtos.Hal.{shl32}
use native.Mathlib.Nat.{mod-eq_of_lt}
use ko_rtos.Base.Bits.{bit_or-add}
use ko_rtos.Hal.Fields.{masked-field}
use ko_rtos.Hal.Usart.{brr_value}

-- The code of a hundred times the divider is the nearest number of sixteenths, `(16 div + 50) / 100`,
-- unless the hundredths are 97 or more: those round up to a whole, and the code is one whole, 16, less.
-- With oversampling by 8 it is the nearest number of eighths, whose lowest three bits stand below a
-- bit that is 0, and the same holds of hundredths of 94 or more.
pub brr_value-nearest :
    (div : ℕ)
    → div / 100 < 2 ^ 12
    → (brr_value div false
        ≡ (if ltb (div % 100) 97 then (16 * div + 50) / 100 else (16 * div + 50) / 100 - 16))
      × (brr_value div true
          ≡ 16 * (div / 100)
            + (if ltb (div % 100) 94 then (8 * div + 50) / 100 - 8 * (div / 100) else 0))
unfolding brr_value
brr_value-nearest div room =
    let q = div / 100 in
    let whole : shl32 q 4 ≡ q * 2 ^ 4 = mod-eq_of_lt (omega arith) in
    let f₁ = (div % 100 * 16 + 50) / 100 in
    let f₂ = (div % 100 * 8 + 50) / 100 in
    let a : bit_and f₁ 15 ≡ f₁ % 2 ^ 4 = omega (arith, masked-field 4 0 f₁ (omega arith)) in
    let b : bit_and f₂ 7 ≡ f₂ % 2 ^ 3 = omega (arith, masked-field 3 0 f₂ (omega arith)) in
    (
      rw (whole, a) (ground (arith, bit_or-add 4 q (f₁ % 2 ^ 4) (omega arith))),
      rw (whole, b) (ground (arith, bit_or-add 4 q (f₂ % 2 ^ 3) (omega arith))),
    )

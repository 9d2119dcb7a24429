-- ===== src/Hal/I2c/Timing.antt =====
-- The timing registers of the I2C bus.
use ko_rtos.Base.{
  ℕ, zero, suc, Bool, true, false, ◌+◌, ◌*◌, ◌/◌, ◌%◌, ◌^◌, ◌≤◌, ◌<◌, ◌≡◌, refl, sym, ap, ◌∙◌, some,
  leb, ltb, ◌==◌, if◌then◌else◌, Bool-cases, inl, inr, arith,
}
use Prim.Native.Nat.{bit_and, bit_or}
use native.Mathlib.Nat.{mod-eq_of_lt, mul-pos}
use ko_rtos.Base.Bits.{bit}
use ko_rtos.Hal.{with_field, not32, shl32}
use ko_rtos.Hal.Fields.{bit-cleared, bit-set, field, field-with_field, with_field-bit, masked-field}
use ko_rtos.Hal.I2c.{I2cConfig, clk_speed_sm, ccr_value, ccr_parts, quotient, trise_value}

-- What stands in TRISE where the time fits in its six bits.
trise-field :
    (v time : ℕ) → time < 2 ^ 6 → bit_and (bit_or (bit_and v (not32 0x3f)) time) 0x3f ≡ time
unfolding with_field
trise-field v time l =
    let e : shl32 time 0 ≡ time = omega arith in
    let w = with_field 0x3f 0 time v in
    ap (λ t. bit_and (bit_or (bit_and v (not32 0x3f)) t) 0x3f) (sym e)
    ∙ omega (
      arith,
      masked-field 6 0 w (omega arith),
      field-with_field 6 0 time v (omega arith) (omega arith) l,
    )

-- For the clocks that the clock tree gives, up to 16 MHz, and the standard mode, TRISE is the clock
-- in MHz and one more. In the fast mode it is three tenths of that and one more below 14316558 Hz;
-- from there on the product wraps in 32 bits, and TRISE is 1.
pub trise_value-wraps :
    (speed pclk v : ℕ)
    → pclk ≤ 16_000_000
    → trise_value speed pclk v ≡ (
        if leb speed clk_speed_sm
        then pclk / 1_000_000 + 1
        else if ltb pclk 14_316_558
        then pclk * 300 / 1_000_000_000 + 1
        else 1)
unfolding trise_value
trise_value-wraps speed pclk v l = elim (Bool-cases (leb speed clk_speed_sm)) [
  | inl e ↦ rw (e) (trise-field v (pclk / 1_000_000 + 1) (omega arith))
  | inr e ↦
      rw (e) (trise-field v (pclk * 300 % 2 ^ 32 / 1_000_000_000 + 1) (omega arith) ∙ ground arith)
]

quotient-some :
    (f speed x : ℕ)
    → 0 < f
    → 0 < speed
    → f * speed < 2 ^ 32
    → quotient x (f * speed) ≡ some (x / (f * speed))
quotient-some f speed x p q small =
    let d = f * speed in
    let e : d % 2 ^ 32 ≡ d = mod-eq_of_lt small in
    let n : (d == 0) ≡ false = ground (arith, mul-pos p q) in rw (e, n) refl

-- The bits of the mode.
abbrev expected_bits : Bool → ℕ → ℕ → ℕ
expected_bits true duty v = bit_and v (not32 (2 ^ 15))
expected_bits false zero v = bit_and (bit_or v (2 ^ 15)) (not32 (2 ^ 14))
expected_bits false duty v = bit_or (bit_or v (2 ^ 15)) (shl32 duty 14)

bits-mode :
    (slow : Bool) (duty v : ℕ)
    → duty < 2
    → (bit (expected_bits slow duty v) 15 ≡ (if slow then 0 else 1))
      × (bit (expected_bits slow duty v) 14 ≡ (if slow then bit v 14 else duty))
bits-mode true duty v l = (
  bit-cleared v 15 15 (omega arith) (omega arith) ∙ ground arith,
  bit-cleared v 15 14 (omega arith) (omega arith) ∙ ground arith,
)
bits-mode false zero v l =
    let w = bit_or v (2 ^ 15) in
    (
      bit-cleared w 14 15 (omega arith) (omega arith) ∙ ground (arith, bit-set v 15 15),
      bit-cleared w 14 14 (omega arith) (omega arith) ∙ ground arith,
    )
bits-mode false (suc zero) v l =
    let w = bit_or v (2 ^ 15) in
    (bit-set w 14 15 ∙ ground (arith, bit-set v 15 15), bit-set w 14 14 ∙ ground arith)
bits-mode false (suc (suc n)) v l = absurd (omega arith)

-- The factor of the mode and of the duty cycle.
abbrev pub ccr_factor : I2cConfig → ℕ
ccr_factor c = if leb c.clk_speed clk_speed_sm then 2 else if c.fm_duty_cycle == 0 then 3 else 25

expected_bits-cases :
    (slow : Bool) (duty v : ℕ)
    → duty < 2
    → (if slow
        then bit_and v (not32 (2 ^ 15))
        else if duty == 0
        then bit_and (bit_or v (2 ^ 15)) (not32 (2 ^ 14))
        else bit_or (bit_or v (2 ^ 15)) (shl32 duty 14))
      ≡ expected_bits slow duty v
expected_bits-cases true duty v l = refl
expected_bits-cases false zero v l = refl
expected_bits-cases false (suc zero) v l = refl
expected_bits-cases false (suc (suc n)) v l = absurd (omega arith)

-- For a speed that is not 0 and whose product with the factor of the mode fits in 32 bits, with a
-- duty cycle of 0 or 1, where the divider fits in its 12 bits: CCR gets the clock over that product,
-- and the bit FS, and in the fast mode the bit DUTY, say the mode.
pub ccr_value-Timed :
    (c : I2cConfig) (pclk v : ℕ)
    → 0 < c.clk_speed
    → ccr_factor c * c.clk_speed < 2 ^ 32
    → c.fm_duty_cycle < 2
    → pclk / (ccr_factor c * c.clk_speed) < 2 ^ 12
    → (w : ℕ) × (ccr_value c pclk v ≡ some w)
      × (field 12 0 w ≡ pclk / (ccr_factor c * c.clk_speed))
      × (bit w 15 ≡ (if leb c.clk_speed clk_speed_sm then 0 else 1))
      × (bit w 14 ≡ (if leb c.clk_speed clk_speed_sm then bit v 14 else c.fm_duty_cycle))
unfolding ccr_value ccr_parts
ccr_value-Timed c pclk v pos small duty room =
    let slow = leb c.clk_speed clk_speed_sm in
    let d : c.fm_duty_cycle % 2 ^ 8 ≡ c.fm_duty_cycle = omega arith in
    let q = pclk / (ccr_factor c * c.clk_speed) in
    let b = expected_bits slow c.fm_duty_cycle v in
    let w = with_field 0xfff 0 (bit_and q 0xfff) b in
    let fit : bit_and q 0xfff ≡ q = omega (arith, masked-field 12 0 q (omega arith)) in
    let (b15, b14) = bits-mode slow c.fm_duty_cycle v duty in
    (
      w,
      rw
          (
            d,
            quotient-some (ccr_factor c) c.clk_speed pclk (ground arith) pos small,
            expected_bits-cases slow c.fm_duty_cycle v duty,
          )
          refl,
      ap (λ x. field 12 0 (with_field 0xfff 0 x b)) fit
          ∙ field-with_field 12 0 q b (omega arith) (omega arith) room,
      with_field-bit 12 0 (bit_and q 0xfff) b 15 (omega arith) (omega (arith, fit)) (omega arith)
          ∙ ground (arith, b15),
      with_field-bit 12 0 (bit_and q 0xfff) b 14 (omega arith) (omega (arith, fit)) (omega arith)
          ∙ ground (arith, b14),
    )

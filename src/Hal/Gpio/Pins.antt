-- ===== src/Hal/Gpio/Pins.antt =====
-- Writes to the pins of a port, and the acknowledgement of a pin's interrupt.
use ko_rtos.Base.{
  ℕ, zero, suc, ◌+◌, ◌-◌, ◌^◌, ◌≤◌, ◌<◌, ◌≡◌, ◌≢◌, refl, ap, ◌∙◌, ◌==◌, if◌then◌else◌, Bool-cases,
  inl, inr, false, arith,
}
use Prim.Native.Nat.{bit_and, bit_or, bit_xor, differ}
use native.Mathlib.Nat.{pow-le-pow_right}
use ko_rtos.Base.Bits.{bit, bit-le, bit-or, bit-and, bit-xor, bit-not, bit-pow}
use ko_rtos.Hal.{Hardware, Regs, storage, set_bits, not32}
use ko_rtos.Hal.Address.{odr, exti_pr}
use ko_rtos.Hal.Flags.{IsWriteOneToClear, set_bits-clears_all}
use ko_rtos.Hal.Gpio.{gpio_write_output_pin, gpio_toggle_output_pin, gpio_irq_handler}

pin_bit-lt : (pin : ℕ) → pin < 32 → 2 ^ pin < 2 ^ 32
pin_bit-lt pin l =
    omega (arith, pow-le-pow_right {n = 2} (omega arith) {i = pin} {j = 31} (omega arith))

differ-one : (x : ℕ) → x ≤ 1 → differ x 1 ≡ 1 - x
differ-one zero l = refl
differ-one (suc zero) l = refl
differ-one (suc (suc x)) l = absurd (omega arith)

differ-zero : (x : ℕ) → differ x 0 ≡ x
differ-zero zero = refl
differ-zero (suc x) = refl

-- A write to a pin sets the pin's bit of ODR to the value, a toggle turns it round; the bits of the
-- other pins stay.
pub gpio_output-bits :
    (p pin val i : ℕ) (m : Regs)
    → pin < 32
    → i < 32
    → (bit (gpio_write_output_pin storage p pin val m (p + odr)) i
        ≡ (if i == pin then (if val == 1 then 1 else 0) else bit (m (p + odr)) i))
      × (bit (gpio_toggle_output_pin storage p pin m (p + odr)) i
          ≡ (if i == pin then 1 - bit (m (p + odr)) i else bit (m (p + odr)) i))
unfolding gpio_write_output_pin gpio_toggle_output_pin
gpio_output-bits p pin val i m small l =
    let v = m (p + odr) in
    let a = bit-or v (2 ^ pin) i in
    let b = bit-and v (not32 (2 ^ pin)) i in
    let c = bit-not 32 (2 ^ pin) i (pin_bit-lt pin small) l in
    let d = bit-pow pin i in
    let e = bit-xor v (2 ^ pin) i in
    let at : gpio_write_output_pin storage p pin val m (p + odr)
        ≡ (if val == 1 then bit_or v (2 ^ pin) else bit_and v (not32 (2 ^ pin))) =
      ground arith in
    let at' : gpio_toggle_output_pin storage p pin m (p + odr) ≡ bit_xor v (2 ^ pin) =
      ground arith in
    (
      ap (λ x. bit x i) at ∙ elim (Bool-cases (val == 1)) [
        | inl q ↦ rw q (ground (arith, bit-le v i))
        | inr q ↦ rw q (ground (arith, bit-le v i))
      ],
      ap (λ x. bit x i) at'
          ∙ ground (arith, differ-one (bit v i) (bit-le v i), differ-zero (bit v i)),
    )

-- Where EXTI->PR is a register of flags that are cleared by writing 1, the acknowledgement of one
-- pin's interrupt clears the pending interrupts of all pins.
pub gpio_irq_handler-clears_all :
    (hw : Hardware) (pin : ℕ) (m : Regs)
    → IsWriteOneToClear hw exti_pr
    → m exti_pr < 2 ^ 32
    → pin < 32
    → bit_and (m exti_pr) (2 ^ pin) ≢ 0
    → gpio_irq_handler hw pin m exti_pr ≡ 0
unfolding gpio_irq_handler
gpio_irq_handler-clears_all hw pin m w p small pending =
    let fired : (bit_and (m exti_pr) (2 ^ pin) == 0) ≡ false = ground arith in
    rw fired (
      ap (λ x. set_bits hw exti_pr (2 ^ pin) x exti_pr) (w.quiet m)
      ∙ set_bits-clears_all hw exti_pr (2 ^ pin) m w p (pin_bit-lt pin small))

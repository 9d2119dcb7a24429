-- ===== src/Hal/Gpio/Config.antt =====
-- `GPIO_init` of a pin that is not an interrupt source, on registers that keep what is written.
use ko_rtos.Base.{
  ℕ, ◌+◌, ◌*◌, ◌/◌, ◌%◌, ◌≤◌, ◌<◌, ◌≡◌, ◌≢◌, refl, ◌⊎◌, inl, inr, Option-cases, ◌==◌, ◌||◌, ◌&&◌,
  if◌then◌else◌, update, arith,
}
use native.Mathlib.Decide.{ℕ_discrete}
use ko_rtos.Hal.{Regs, storage, modify, with_field}
use ko_rtos.Hal.Fields.{modify-at, field, field-with_field, field-with_field_ne, fits}
use ko_rtos.Hal.Address.{moder, otyper, ospeedr, pupdr, afr, ahb1enr}
use ko_rtos.Hal.Gpio.{
  GpioConfig, port_bit, gpio_clock_control, config_mode, config_output, config_alt_fcn, gpio_init,
}

clock-ne : (p e a : ℕ) (m : Regs) → a ≢ ahb1enr → gpio_clock_control storage p e m a ≡ m a
unfolding gpio_clock_control
clock-ne p e a m n = elim (Option-cases (port_bit p)) [
  | inl q ↦ rw (q, gpio_clock_control) refl
  | inr (i, q) ↦ rw (q, gpio_clock_control) (ground arith)
]

-- The registers that a port's configuration writes are not AHB1ENR.
abbrev pub Apart : ℕ → Type 0
Apart p = (p + 0x28 ≤ ahb1enr) ⊎ (ahb1enr < p)

module _ (p : ℕ) (c : GpioConfig) (m : Regs) (apart : Apart p) (plain : c.pin_mode ≤ 3) where
  m₀ : Regs
  m₀ = gpio_clock_control storage p 1 m

  m₁ : Regs
  m₁ = config_mode storage p c m₀

  m₂ : Regs
  m₂ = config_output storage p c m₁

  m₃ : Regs
  m₃ = update m₂ (p + pupdr) (with_field 3 (2 * c.pin_num) c.pin_pupd (m₂ (p + pupdr)))

  mode_at :
      (a : ℕ)
      → m₁ a ≡ (if p + moder == a then with_field 3 (2 * c.pin_num) c.pin_mode (m₀ a) else m₀ a)
  unfolding config_mode m₁
  mode_at a = ground (arith, modify-at (p + moder) a (with_field 3 (2 * c.pin_num) c.pin_mode) m₀)

  output_at :
      (a : ℕ)
      → m₂ a ≡ (
          if (c.pin_mode == 1 || c.pin_mode == 2) && p + otyper == a
          then with_field 1 c.pin_num c.pin_out_type (m₁ a)
          else if (c.pin_mode == 1 || c.pin_mode == 2) && p + ospeedr == a
          then with_field 3 (2 * c.pin_num) c.pin_speed (m₁ a)
          else m₁ a)
  unfolding config_output m₂
  output_at a = ground (
    arith,
    modify-at (p + otyper) a (with_field 1 c.pin_num c.pin_out_type) m₁,
    modify-at (p + ospeedr) a (with_field 3 (2 * c.pin_num) c.pin_speed)
        (modify storage (p + otyper) (with_field 1 c.pin_num c.pin_out_type) m₁),
  )

  alt_at :
      (a : ℕ)
      → gpio_init storage p c m a ≡ (
          if c.pin_mode == 2 && p + afr + 4 * (c.pin_num / 8) == a
          then with_field 15 (4 * (c.pin_num % 8)) c.pin_alt_fcn_mode (m₃ a)
          else m₃ a)
  unfolding config_alt_fcn gpio_init m₀ m₁ m₂ m₃
  alt_at a = ground (
    arith,
    modify-at (p + afr + 4 * (c.pin_num / 8)) a
        (with_field 15 (4 * (c.pin_num % 8)) c.pin_alt_fcn_mode) m₃,
  )

  -- The registers after the call.
  after_mode :
      gpio_init storage p c m (p + moder) ≡ with_field 3 (2 * c.pin_num) c.pin_mode (m (p + moder))
  unfolding m₃ m₀
  after_mode = ground (
    arith,
    alt_at (p + moder),
    output_at (p + moder),
    mode_at (p + moder),
    clock-ne p 1 (p + moder) m,
  )

  after_pupd :
      gpio_init storage p c m (p + pupdr) ≡ with_field 3 (2 * c.pin_num) c.pin_pupd (m (p + pupdr))
  unfolding m₃ m₀
  after_pupd = ground (
    arith,
    alt_at (p + pupdr),
    output_at (p + pupdr),
    mode_at (p + pupdr),
    clock-ne p 1 (p + pupdr) m,
  )

  after_output :
      (c.pin_mode ≡ 1) ⊎ (c.pin_mode ≡ 2)
      → (gpio_init storage p c m (p + otyper)
          ≡ with_field 1 c.pin_num c.pin_out_type (m (p + otyper)))
        × (gpio_init storage p c m (p + ospeedr)
            ≡ with_field 3 (2 * c.pin_num) c.pin_speed (m (p + ospeedr)))
  unfolding m₃ m₀
  after_output h = ground (
    arith,
    alt_at (p + otyper),
    output_at (p + otyper),
    mode_at (p + otyper),
    clock-ne p 1 (p + otyper) m,
    alt_at (p + ospeedr),
    output_at (p + ospeedr),
    mode_at (p + ospeedr),
    clock-ne p 1 (p + ospeedr) m,
  )

  after_alt :
      c.pin_mode ≡ 2
      → c.pin_num < 16
      → gpio_init storage p c m (p + afr + 4 * (c.pin_num / 8))
        ≡ with_field 15 (4 * (c.pin_num % 8)) c.pin_alt_fcn_mode (m (p + afr + 4 * (c.pin_num / 8)))
  unfolding m₃ m₀
  after_alt e small =
      let a = p + afr + 4 * (c.pin_num / 8) in
      ground (arith, alt_at a, output_at a, mode_at a, clock-ne p 1 a m)

-- The values of a configuration are in the ranges that GPIO.h lists, for one of the modes that are no
-- interrupt modes.
pub record InRange (c : GpioConfig) : Type 0 where
  pub pin : c.pin_num < 16
  pub mode : c.pin_mode < 4
  pub speed : c.pin_speed < 4
  pub pupd : c.pin_pupd < 4
  pub out_type : c.pin_out_type < 2
  pub alt_fcn : c.pin_alt_fcn_mode < 16

-- In `l` the pin's fields have the values of `c`, and the fields of the other pins are as in `m`.
-- The output type and speed are set for an output and an alternate function, the latter's number for
-- an alternate function.
pub record Configured (p : ℕ) (c : GpioConfig) (m l : Regs) : Type 0 where
  pub mode : field 2 (2 * c.pin_num) (l (p + moder)) ≡ c.pin_mode
  pub pull : field 2 (2 * c.pin_num) (l (p + pupdr)) ≡ c.pin_pupd
  pub output :
      ((c.pin_mode ≢ 1) × (c.pin_mode ≢ 2))
      ⊎ ((field 1 c.pin_num (l (p + otyper)) ≡ c.pin_out_type)
          × (field 2 (2 * c.pin_num) (l (p + ospeedr)) ≡ c.pin_speed))
  pub alternate :
      (c.pin_mode ≢ 2)
      ⊎ (field 4 (4 * (c.pin_num % 8)) (l (p + afr + 4 * (c.pin_num / 8))) ≡ c.pin_alt_fcn_mode)
  pub others :
      (q : ℕ)
      → q < 16
      → q ≢ c.pin_num
      → (field 2 (2 * q) (l (p + moder)) ≡ field 2 (2 * q) (m (p + moder)))
        × (field 2 (2 * q) (l (p + pupdr)) ≡ field 2 (2 * q) (m (p + pupdr)))

-- On registers that keep what is written, the initialisation of a pin with values in range, for a
-- mode that is no interrupt mode, at a port whose registers lie apart from AHB1ENR, sets the pin's
-- fields to the configuration, and leaves the mode and pull fields of every other pin.
pub gpio_init-Configured :
    (p : ℕ) (c : GpioConfig) (m : Regs)
    → Apart p
    → InRange c
    → Configured p c m (gpio_init storage p c m)
gpio_init-Configured p c m apart r =
    let k = c.pin_num in
    let plain : c.pin_mode ≤ 3 = omega (arith, r.mode) in
    let room : 2 * k + 2 ≤ 32 = omega (arith, r.pin) in
    let low = fits 2 (2 * k) room in
    record {
      mode =
          rw (after_mode p c m apart plain)
            (field-with_field 2 (2 * k) c.pin_mode (m (p + moder)) low room r.mode);
      pull =
          rw (after_pupd p c m apart plain)
            (field-with_field 2 (2 * k) c.pin_pupd (m (p + pupdr)) low room r.pupd);
      output = elim (ℕ_discrete c.pin_mode 1) [
        | yes e ↦ inr (outputs (inl e))
        | no e ↦ elim (ℕ_discrete c.pin_mode 2) [
          | yes e' ↦ inr (outputs (inr e'))
          | no e' ↦ inl (e, e')
        ]
      ];
      alternate = elim (ℕ_discrete c.pin_mode 2) [
        | yes e ↦ inr (
            rw (after_alt p c m apart plain e r.pin) (
              field-with_field 4 (4 * (k % 8)) c.pin_alt_fcn_mode _
                (fits 4 (4 * (k % 8)) (omega arith)) (omega arith) r.alt_fcn))
        | no e ↦ inl e
      ];
      others = λ q l n. (
        rw (after_mode p c m apart plain) (
            field-with_field_ne 2 (2 * k) c.pin_mode (m (p + moder)) 2 (2 * q) low r.mode
              (omega arith) (other_pin q n)),
        rw (after_pupd p c m apart plain) (
            field-with_field_ne 2 (2 * k) c.pin_pupd (m (p + pupdr)) 2 (2 * q) low r.pupd
              (omega arith) (other_pin q n)),
      );
    }
  where
    other_pin : (q : ℕ) → q ≢ c.pin_num → (2 * c.pin_num + 2 ≤ 2 * q) ⊎ (2 * q + 2 ≤ 2 * c.pin_num)
    other_pin q n = ground arith

    outputs :
        (c.pin_mode ≡ 1) ⊎ (c.pin_mode ≡ 2)
        → (field 1 c.pin_num (gpio_init storage p c m (p + otyper)) ≡ c.pin_out_type)
          × (field 2 (2 * c.pin_num) (gpio_init storage p c m (p + ospeedr)) ≡ c.pin_speed)
    outputs h =
        let (a, b) = after_output p c m apart (omega (arith, r.mode)) h in
        (
          rw a (
              field-with_field 1 c.pin_num c.pin_out_type (m (p + otyper))
                (fits 1 c.pin_num (omega (arith, r.pin))) (omega (arith, r.pin)) r.out_type),
          rw b (
              field-with_field 2 (2 * c.pin_num) c.pin_speed (m (p + ospeedr))
                (fits 2 (2 * c.pin_num) (omega (arith, r.pin))) (omega (arith, r.pin)) r.speed),
        )

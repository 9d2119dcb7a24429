-- ===== src/Hal/Can/Callbacks.antt =====
-- The callbacks of `CAN_TX_IRQHandler`.
use ko_rtos.Base.{
  ℕ, ◌+◌, ◌%◌, ◌<◌, ◌≤◌, ◌^◌, ◌≡◌, refl, ap, ◌∙◌, Bool, Bool-cases, inl, inr, ◌≢◌, true, false,
  some, if◌then◌else◌, ◌==◌, List, [], ◌∷◌, ◌++◌, arith,
}
use Prim.Native.Nat.{bit_and, bit_or}
use native.Mathlib.Decide.{ℕ_discrete}
use native.Mathlib.Nat.{pow-le-pow_right}
use ko_rtos.Base.Bits.{bit, bit-le, bit-zero, bit-or, bit-and, bit-pow, bits-ext, bit_and-lt_right}
use ko_rtos.Hal.{Hardware, Regs, set_bits}
use ko_rtos.Hal.Address.{can_tsr}
use ko_rtos.Hal.Can.{CanHandle, has}
use ko_rtos.Hal.Can.Transmit.{acknowledge, can_tx_irq_handler}

has-bit : (v i : ℕ) → i < 32 → has v (2 ^ i) ≡ (bit v i == 1)
has-bit v i l =
    let w = bit_and v (2 ^ i) in
    let small : 2 ^ i < 2 ^ 32 =
      omega (arith, pow-le-pow_right {n = 2} (omega arith) {i = i} {j = 31} (omega arith)) in
    let bits : (j : ℕ) → bit w j ≡ (if j == i then bit v i else 0) = λ j.
      bit-and v (2 ^ i) j ∙ elim (ℕ_discrete j i) [
        | yes e ↦ ground (arith, bit-pow i j, bit-le v j, ap (bit v) e)
        | no n ↦ ground (arith, bit-pow i j, bit-le v j)
      ] in
    elim (Bool-cases (bit v i == 1)) [
      | inl e ↦
          let some_bit : bit w i ≡ 1 = bits i ∙ ground arith in
          let q : w ≢ 0 = λ z. ground (arith, some_bit, ap (λ x. bit x i) z, bit-zero i) in
          ground arith
      | inr e ↦
          let none_left : w ≡ 0 =
            bits-ext 32 w 0 (bit_and-lt_right 32 v (2 ^ i) small) (omega arith)
              (λ j p. bits j ∙ ground (arith, bit-le v i, bit-zero j)) in
          ground arith
    ]

-- TSR: a load changes nothing, and a store clears the flags RQCP at which the word has a 1.
pub record IsRequestFlags (hw : Hardware) (a : ℕ) : Type 0 where
  pub quiet : (m : Regs) → hw.reads a m ≡ m
  pub clears :
      (i v : ℕ) (m : Regs)
      → i ≤ 16
      → i % 8 ≡ 0
      → bit (hw.writes a v m a) i ≡ (if bit v i == 1 then 0 else bit (m a) i)

module _ (hw : Hardware) (a : ℕ) (w : IsRequestFlags hw a) where
  -- After the store no request is left.
  cleared :
      (mask i : ℕ) (m : Regs) → i ≤ 16 → i % 8 ≡ 0 → has (set_bits hw a mask m a) (2 ^ i) ≡ false
  cleared mask i m l e =
      let v = bit_or (m a) mask in
      let gone : bit (set_bits hw a mask m a) i ≡ (if bit v i == 1 then 0 else bit (m a) i) =
        w.clears i v (hw.reads a m) l e
        ∙ ap (λ x. if bit v i == 1 then 0 else bit (x a) i) (w.quiet m) in
      let zero_bit : bit (set_bits hw a mask m a) i ≡ 0 =
        ground (arith, gone, bit-or (m a) mask i, bit-le (m a) i, bit-le v i) in
      has-bit (set_bits hw a mask m a) i (omega arith) ∙ ground arith

  all_cleared :
      (m : Regs) (mask : ℕ)
      → let v = set_bits hw a mask m a in
        (has v (2 ^ 0) ≡ false) × (has v (2 ^ 8) ≡ false) × (has v (2 ^ 16) ≡ false)
  all_cleared m mask = (
    cleared mask 0 m (omega arith) refl,
    cleared mask 8 m (omega arith) refl,
    cleared mask 16 m (omega arith) refl,
  )

  acknowledge-set :
      (k txok rqcp : ℕ) (calls : List (ℕ × Bool)) (m : Regs)
      → has (m a) rqcp ≡ true
      → acknowledge hw a k txok rqcp (calls, m)
        ≡ (calls ++ ((k, has (m a) txok) ∷ []), set_bits hw a rqcp m)
  unfolding acknowledge
  acknowledge-set k txok rqcp calls m e = rw e (
      ap (λ x. (calls ++ ((k, has (x a) txok) ∷ []), set_bits hw a rqcp (hw.reads a x))) (w.quiet m)
      ∙ ap (λ x. (calls ++ ((k, has (m a) txok) ∷ []), set_bits hw a rqcp x)) (w.quiet m))

  acknowledge-clear :
      (k txok rqcp : ℕ) (calls : List (ℕ × Bool)) (m : Regs)
      → has (m a) rqcp ≡ false
      → acknowledge hw a k txok rqcp (calls, m) ≡ (calls, m)
  unfolding acknowledge
  acknowledge-clear k txok rqcp calls m e = rw (e, w.quiet m) refl

-- On such a register one interrupt reports one mailbox, the lowest whose request is complete. After
-- it no request is shown complete: the completions of the others are cleared without a callback.
pub can_tx_irq_handler-calls :
    (hw : Hardware) (h : CanHandle) (p : ℕ) (m : Regs)
    → h.canx ≡ some p
    → IsRequestFlags hw (p + can_tsr)
    → let (calls, after) = can_tx_irq_handler hw (some h) m in
      (calls ≡ (
        if has (m (p + can_tsr)) (2 ^ 0)
        then (0, has (m (p + can_tsr)) (2 ^ 1)) ∷ []
        else if has (m (p + can_tsr)) (2 ^ 8)
        then (1, has (m (p + can_tsr)) (2 ^ 9)) ∷ []
        else if has (m (p + can_tsr)) (2 ^ 16)
        then (2, has (m (p + can_tsr)) (2 ^ 17)) ∷ []
        else []))
      × (has (after (p + can_tsr)) (2 ^ 0) ≡ false)
      × (has (after (p + can_tsr)) (2 ^ 8) ≡ false)
      × (has (after (p + can_tsr)) (2 ^ 16) ≡ false)
unfolding can_tx_irq_handler
can_tx_irq_handler-calls hw h p m e w =
    let a = p + can_tsr in
    let s = acknowledge-set hw a w in
    let c = acknowledge-clear hw a w in
    let b = m a in
    let eight : 8 ≤ 16 = omega arith in
    let sixteen : 16 ≤ 16 = omega arith in
    let gone = all_cleared hw a w m in
    let one₁ = cleared hw a w (2 ^ 0) 8 m eight refl in
    let two₁ = cleared hw a w (2 ^ 0) 16 m sixteen refl in
    let two₂ = cleared hw a w (2 ^ 8) 16 m sixteen refl in
    rw e (elim (Bool-cases (has b (2 ^ 0))) [
      | inl q₀ ↦
          let calls : List (ℕ × Bool) = (0, has b (2 ^ 1)) ∷ [] in
          let m₁ = set_bits hw a (2 ^ 0) m in
          rw
            (
              s 0 (2 ^ 1) (2 ^ 0) [] m q₀,
              c 1 (2 ^ 9) (2 ^ 8) calls m₁ one₁,
              c 2 (2 ^ 17) (2 ^ 16) calls m₁ two₁,
              q₀,
            )
            (let (x, y, z) = gone (2 ^ 0) in (refl, x, y, z))
      | inr q₀ ↦ elim (Bool-cases (has b (2 ^ 8))) [
        | inl q₁ ↦
            let calls : List (ℕ × Bool) = (1, has b (2 ^ 9)) ∷ [] in
            let m₁ = set_bits hw a (2 ^ 8) m in
            rw
              (
                c 0 (2 ^ 1) (2 ^ 0) [] m q₀,
                s 1 (2 ^ 9) (2 ^ 8) [] m q₁,
                c 2 (2 ^ 17) (2 ^ 16) calls m₁ two₂,
                q₀,
                q₁,
              )
              (let (x, y, z) = gone (2 ^ 8) in (refl, x, y, z))
        | inr q₁ ↦ elim (Bool-cases (has b (2 ^ 16))) [
          | inl q₂ ↦
              rw
                (
                  c 0 (2 ^ 1) (2 ^ 0) [] m q₀,
                  c 1 (2 ^ 9) (2 ^ 8) [] m q₁,
                  s 2 (2 ^ 17) (2 ^ 16) [] m q₂,
                  q₀,
                  q₁,
                  q₂,
                )
                (let (x, y, z) = gone (2 ^ 16) in (refl, x, y, z))
          | inr q₂ ↦
              rw
                (
                  c 0 (2 ^ 1) (2 ^ 0) [] m q₀,
                  c 1 (2 ^ 9) (2 ^ 8) [] m q₁,
                  c 2 (2 ^ 17) (2 ^ 16) [] m q₂,
                  q₀,
                  q₁,
                  q₂,
                )
                (refl, refl, refl, refl)
        ]
      ]
    ])

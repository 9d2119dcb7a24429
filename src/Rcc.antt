-- ===== src/Rcc.antt =====
-- kortos_hal/STM32F446xx/rcc.c: the clocks of the two peripheral buses, from the clock register
-- RCC->CFGR.
use ko_rtos.Base.{
  ℕ, zero, suc, ◌-◌, ◌*◌, ◌/◌, ◌%◌, ◌^◌, ◌<◌, ◌≡◌, refl, ap, Option, none, some, Bool, true, false,
  ◌&&◌, ltb, ◌==◌, if◌then◌else◌, List, [], ◌∷◌, arith,
}
use native.Mathlib.Nat.{div-div-eq-div-mul}
use native.Mathlib.Decide.{ℕ_discrete}
use ko_rtos.Types.{◌>>=◌}

abbrev pub possible_pscals : List ℕ
possible_pscals = 2 ∷ 4 ∷ 8 ∷ 16 ∷ 64 ∷ 128 ∷ 256 ∷ 512 ∷ []

-- An index outside the table is a fault.
abbrev pub pscal_at : List ℕ → ℕ → Option ℕ
pscal_at [] i = none
pscal_at (x ∷ xs) zero = some x
pscal_at (x ∷ xs) (suc i) = pscal_at xs i

abbrev pub system_clk : ℕ → ℕ
system_clk cfgr =
    let clk_src = cfgr / 2 ^ 2 % 2 ^ 2 in
    if clk_src == 0 then 16_000_000 else if clk_src == 1 then 8_000_000 else 16_000_000

abbrev pub hpre : ℕ → ℕ
hpre cfgr = cfgr / 2 ^ 4 % 2 ^ 4

unfoldable pub ahb_pscal : ℕ → Option ℕ
ahb_pscal field = if ltb field 8 then some 1 else pscal_at possible_pscals (field - 8)

unfoldable pub apb_pscal : ℕ → Option ℕ
apb_pscal field = if ltb field 4 then some 1 else pscal_at possible_pscals (field - 4)

unfoldable pub rcc_get_pclk1 : ℕ → Option ℕ
rcc_get_pclk1 cfgr = do
  a ← ahb_pscal (hpre cfgr)
  b ← apb_pscal (cfgr / 2 ^ 10 % 2 ^ 3)
  some (system_clk cfgr / a / b)

unfoldable pub rcc_get_pclk2 : ℕ → Option ℕ
rcc_get_pclk2 cfgr = do
  a ← ahb_pscal (hpre cfgr)
  b ← apb_pscal (cfgr / 2 ^ 13 % 2 ^ 3)
  some (system_clk cfgr / a / b)

-- The divisors of the reference manual: the upper half of the codes divides by the powers of 2, and
-- the AHB divisor leaves out 32.
abbrev pub ahb_divisor : ℕ → ℕ
ahb_divisor field =
    if ltb field 8 then 1 else if ltb field 12 then 2 ^ (field - 7) else 2 ^ (field - 6)

abbrev pub apb_divisor : ℕ → ℕ
apb_divisor field = if ltb field 4 then 1 else 2 ^ (field - 3)

abbrev holds_below : (ℕ → Bool) → ℕ → Bool
holds_below p zero = true
holds_below p (suc n) = p n && holds_below p n

-- A test that comes out true at each number below `n` is true of each of them.
holds_below-true : (p : ℕ → Bool) (n i : ℕ) → holds_below p n ≡ true → i < n → p i ≡ true
holds_below-true p zero i e l = absurd (omega arith)
holds_below-true p (suc n) i e l = elim (ℕ_discrete n i) [
  | yes q ↦ let at : p n ≡ p i = ap p q in ground arith
  | no q ↦ ground (arith, holds_below-true p n i)
]

abbrev gives : Option ℕ → ℕ → Bool
gives none n = false
gives (some m) n = m == n

gives-some : (o : Option ℕ) (n : ℕ) → gives o n ≡ true → o ≡ some n
gives-some none n e = cc
gives-some (some m) n e = ground arith

ahb_pscal-divisor : (n : ℕ) → n < 16 → ahb_pscal n ≡ some (ahb_divisor n)
unfolding ahb_pscal
ahb_pscal-divisor n l =
    gives-some _ _ (holds_below-true (λ i. gives (ahb_pscal i) (ahb_divisor i)) 16 n refl l)

apb_pscal-divisor : (n : ℕ) → n < 8 → apb_pscal n ≡ some (apb_divisor n)
unfolding apb_pscal
apb_pscal-divisor n l =
    gives-some _ _ (holds_below-true (λ i. gives (apb_pscal i) (apb_divisor i)) 8 n refl l)

-- For every value of the register the table is read inside its bounds, and the clock of each of the
-- two buses is the system clock divided by the product of the divisors that the register's fields
-- select.
pub rcc_get_pclk-divided :
    (cfgr : ℕ)
    → (rcc_get_pclk1 cfgr
        ≡ some (system_clk cfgr / (ahb_divisor (hpre cfgr) * apb_divisor (cfgr / 2 ^ 10 % 2 ^ 3))))
      × (rcc_get_pclk2 cfgr
          ≡ some
              (system_clk cfgr / (ahb_divisor (hpre cfgr) * apb_divisor (cfgr / 2 ^ 13 % 2 ^ 3))))
unfolding rcc_get_pclk1 rcc_get_pclk2
rcc_get_pclk-divided cfgr =
    let a = ahb_pscal-divisor (hpre cfgr) (omega arith) in
    let b = apb_pscal-divisor (cfgr / 2 ^ 10 % 2 ^ 3) (omega arith) in
    let c = apb_pscal-divisor (cfgr / 2 ^ 13 % 2 ^ 3) (omega arith) in
    (
      rw (a, b, ◌>>=◌) (ap some (div-div-eq-div-mul (system_clk cfgr) _ _)),
      rw (a, c, ◌>>=◌) (ap some (div-div-eq-div-mul (system_clk cfgr) _ _)),
    )

-- ===== src/Base/Bits.antt =====
-- Bits of a register: `bit v i` is bit `i` of `v`, and the operators `&`, `|`, `^`, `~` and `<<` bit
-- by bit.
use ko_rtos.Base.Tests.{ltb, ◌==◌, if◌then◌else◌}
use Prim.Native.Nat.{
  ℕ, zero, suc, ◌+◌, ◌-◌, ◌*◌, ◌/◌, ◌%◌, ◌^◌, ◌≤◌, ◌<◌, min, max, differ, digits, bitwise, bit_and,
  bit_or, bit_xor, bit_and-bitwise, bit_or-bitwise, bit_xor-bitwise,
}
use mathlib.Core.Path.{◌≡◌, refl, sym, ap, ◌∙◌}
use native.Mathlib.Nat.{le_refl, pow-suc, pow-succ', div-div-eq-div-mul}
use native.Mathlib.Omega.{arith}

-- The operations mean a recursion on binary digits, with fuel. More fuel than the number needs makes
-- no difference.
module _ (rest : ℕ → ℕ) (digit : ℕ → ℕ → ℕ) where
  more_fuel : (f g x y : ℕ) → x ≤ f → x ≤ g → digits rest digit f x y ≡ digits rest digit g x y
  more_fuel (suc f) (suc g) (suc x) y p q =
      rw (more_fuel f g (suc x / 2) (y / 2) (omega arith) (omega arith))
  more_fuel (suc f) (suc g) zero y p q = refl
  more_fuel (suc f) zero zero y p q = refl
  more_fuel (suc f) zero (suc x) y p q = absurd (omega arith)
  more_fuel zero (suc g) zero y p q = refl
  more_fuel zero g (suc x) y p q = absurd (omega arith)
  more_fuel zero zero zero y p q = refl

  lowest_digit :
      (x y : ℕ)
      → bitwise rest digit (suc x) y
        ≡ bitwise rest digit (suc x / 2) (y / 2) * 2 + digit (suc x % 2) (y % 2)
  lowest_digit x y =
      omega (arith, more_fuel x (suc x / 2) (suc x / 2) (y / 2) (omega arith) (le_refl _))

or_step : (a b : ℕ) → bit_or a b ≡ bit_or (a / 2) (b / 2) * 2 + max (a % 2) (b % 2)
or_step zero b = simp bit_or-bitwise (omega arith)
or_step (suc a) b = simp bit_or-bitwise (lowest_digit (λ y. y) max a b)

and_step : (a b : ℕ) → bit_and a b ≡ bit_and (a / 2) (b / 2) * 2 + min (a % 2) (b % 2)
and_step zero b = simp bit_and-bitwise (omega arith)
and_step (suc a) b = simp bit_and-bitwise (lowest_digit (λ y. 0) min a b)

xor_step : (a b : ℕ) → bit_xor a b ≡ bit_xor (a / 2) (b / 2) * 2 + differ (a % 2) (b % 2)
xor_step zero b = simp bit_xor-bitwise (omega arith)
xor_step (suc a) b = simp bit_xor-bitwise (lowest_digit (λ y. y) differ a b)

differ_small : (x y : ℕ) → x < 2 → y < 2 → differ x y < 2
differ_small zero y p q = q
differ_small (suc zero) zero p q = omega arith
differ_small (suc zero) (suc y) p q = omega arith
differ_small (suc (suc x)) y p q = absurd (omega arith)

-- Bit `i` of `v`, 0 or 1.
unfoldable pub bit : ℕ → ℕ → ℕ
bit v zero = v % 2
bit v (suc i) = bit (v / 2) i

pub bit-le : (v i : ℕ) → bit v i ≤ 1
unfolding bit
bit-le v zero = omega arith
bit-le v (suc i) = bit-le (v / 2) i

pub bit-zero : (i : ℕ) → bit 0 i ≡ 0
unfolding bit
bit-zero zero = refl
bit-zero (suc i) = bit-zero i

pub bit-or : (a b i : ℕ) → bit (bit_or a b) i ≡ max (bit a i) (bit b i)
unfolding bit
bit-or a b zero = omega (arith, or_step a b)
bit-or a b (suc i) = ap (λ x. bit x i) (omega (arith, or_step a b)) ∙ bit-or (a / 2) (b / 2) i

pub bit-and : (a b i : ℕ) → bit (bit_and a b) i ≡ min (bit a i) (bit b i)
unfolding bit
bit-and a b zero = omega (arith, and_step a b)
bit-and a b (suc i) = ap (λ x. bit x i) (omega (arith, and_step a b)) ∙ bit-and (a / 2) (b / 2) i

pub bit-xor : (a b i : ℕ) → bit (bit_xor a b) i ≡ differ (bit a i) (bit b i)
unfolding bit
bit-xor a b zero = differ_digit (bit_xor (a / 2) (b / 2)) (xor_step a b)
  where
    differ_digit :
        (h : ℕ)
        → bit_xor a b ≡ h * 2 + differ (a % 2) (b % 2)
        → bit_xor a b % 2 ≡ differ (a % 2) (b % 2)
    differ_digit h e = omega (arith, differ_small (a % 2) (b % 2) (omega arith) (omega arith))
bit-xor a b (suc i) =
    ap (λ x. bit x i)
      (omega (arith, xor_step a b, differ_small (a % 2) (b % 2) (omega arith) (omega arith)))
    ∙ bit-xor (a / 2) (b / 2) i

double : (x k : ℕ) → x * 2 ^ suc k ≡ 2 * (x * 2 ^ k)
double x k = omega (arith, ap (λ (t : ℕ). x * t) (pow-suc 2 k))

-- `x << k`, before it is cut to a width.
pub bit-shl : (x k i : ℕ) → bit (x * 2 ^ k) i ≡ (if ltb i k then 0 else bit x (i - k))
unfolding bit
bit-shl x zero i =
    let e : x * 2 ^ 0 ≡ x = omega arith in
    let e' : i ≡ i - 0 = omega arith in ap (λ y. bit y i) e ∙ ap (bit x) e' ∙ ground arith
bit-shl x (suc k) zero = ground (arith, double x k)
bit-shl x (suc k) (suc i) =
    ap (λ y. bit y i) (omega (arith, double x k)) ∙ bit-shl x k i ∙ ground arith

-- `v >> k`
pub bit-shr : (v k i : ℕ) → bit (v / 2 ^ k) i ≡ bit v (k + i)
unfolding bit
bit-shr v zero i =
    let e : v / 2 ^ 0 ≡ v = omega arith in
    let e' : i ≡ 0 + i = omega arith in ap (λ y. bit y i) e ∙ ap (bit v) e'
bit-shr v (suc k) i =
    let e : v / 2 ^ suc k ≡ v / 2 / 2 ^ k =
      ap (λ (t : ℕ). v / t) (pow-succ' 2 k) ∙ sym (div-div-eq-div-mul v 2 (2 ^ k)) in
    let e' : suc (k + i) ≡ suc k + i = omega arith in
    ap (λ y. bit y i) e ∙ bit-shr (v / 2) k i ∙ ap (bit v) e'

-- `~m` in a width of `n` bits.
pub bit-not : (n m i : ℕ) → m < 2 ^ n → i < n → bit (2 ^ n - 1 - m) i ≡ 1 - bit m i
unfolding bit
bit-not zero m i h l = absurd (omega arith)
bit-not (suc n) m zero h l = omega (arith, pow-suc 2 n)
bit-not (suc n) m (suc i) h l =
    ap (λ y. bit y i) (omega (arith, pow-suc 2 n))
    ∙ bit-not n (m / 2) i (omega (arith, pow-suc 2 n)) (omega arith)

-- Numbers of `n` bits with the same bits are the same.
pub bits-ext : (n a b : ℕ) → a < 2 ^ n → b < 2 ^ n → ((i : ℕ) → i < n → bit a i ≡ bit b i) → a ≡ b
unfolding bit
bits-ext zero a b p q h = omega arith
bits-ext (suc n) a b p q h = omega (
  arith,
  h 0 (omega arith),
  bits-ext n (a / 2) (b / 2) (omega (arith, pow-suc 2 n)) (omega (arith, pow-suc 2 n))
      (λ i l. h (suc i) (omega arith)),
)

-- The results stay in the width of the operands.
pub bit_or-lt : (n a b : ℕ) → a < 2 ^ n → b < 2 ^ n → bit_or a b < 2 ^ n
bit_or-lt zero zero zero p q = omega arith
bit_or-lt zero (suc a) b p q = absurd (omega arith)
bit_or-lt zero zero (suc b) p q = absurd (omega arith)
bit_or-lt (suc n) a b p q = omega (
  arith,
  or_step a b,
  pow-suc 2 n,
  bit_or-lt n (a / 2) (b / 2) (omega (arith, pow-suc 2 n)) (omega (arith, pow-suc 2 n)),
)

pub bit_and-lt : (n a b : ℕ) → a < 2 ^ n → bit_and a b < 2 ^ n
bit_and-lt zero zero b p = simp bit_and-bitwise (omega arith)
bit_and-lt zero (suc a) b p = absurd (omega arith)
bit_and-lt (suc n) a b p =
    omega
      (arith, and_step a b, pow-suc 2 n, bit_and-lt n (a / 2) (b / 2) (omega (arith, pow-suc 2 n)))

-- `1 << k`
pub bit-pow : (k i : ℕ) → bit (2 ^ k) i ≡ (if i == k then 1 else 0)
unfolding bit
bit-pow k i =
    let one : 1 * 2 ^ k ≡ 2 ^ k = omega arith in
    ap (λ y. bit y i) (sym one) ∙ bit-shl 1 k i ∙ first i k
  where
    bit-one : (j : ℕ) → bit 1 j ≡ (if j == 0 then 1 else 0)
    bit-one zero = refl
    bit-one (suc zero) = refl
    bit-one (suc (suc j)) = bit-zero j ∙ ground arith

    first : (i k : ℕ) → (if ltb i k then 0 else bit 1 (i - k)) ≡ (if i == k then 1 else 0)
    first i k = ground (arith, bit-one (i - k))

below_pow : (n : ℕ) → n < 2 ^ n
below_pow zero = omega arith
below_pow (suc n) = omega (arith, below_pow n, pow-suc 2 n)

bit_and-le_right : (n a b : ℕ) → a < 2 ^ n → bit_and a b ≤ b
bit_and-le_right zero zero b p = simp bit_and-bitwise (omega arith)
bit_and-le_right zero (suc a) b p = absurd (omega arith)
bit_and-le_right (suc n) a b p = omega (
  arith,
  and_step a b,
  pow-suc 2 n,
  bit_and-le_right n (a / 2) (b / 2) (omega (arith, pow-suc 2 n)),
)

pub bit_and-lt_right : (n a b : ℕ) → b < 2 ^ n → bit_and a b < 2 ^ n
bit_and-lt_right n a b p = omega (arith, bit_and-le_right a a b (below_pow a))

pub or_zero : (x : ℕ) → bit_or x 0 ≡ x
or_zero x =
    bits-ext x _ x (bit_or-lt x x 0 (below_pow x) (omega (arith, below_pow x))) (below_pow x)
      (λ i l. omega (arith, bit-or x 0 i, bit-zero i))

-- Numbers with no bit in common.
pub bit_or-add : (k hi lo : ℕ) → lo < 2 ^ k → bit_or (hi * 2 ^ k) lo ≡ hi * 2 ^ k + lo
bit_or-add zero hi lo p =
    let e : lo ≡ 0 = omega arith in
    ap (bit_or (hi * 2 ^ 0)) e ∙ or_zero (hi * 2 ^ 0) ∙ omega (arith, e)
bit_or-add (suc k) hi lo p =
    let t = hi * 2 ^ k in
    let double : hi * 2 ^ suc k ≡ 2 * t = omega (arith, ap (λ (x : ℕ). hi * x) (pow-suc 2 k)) in
    let half : 2 * t / 2 ≡ t = omega arith in
    rw double (
      omega (
        arith,
        or_step (2 * t) lo,
        ap (λ x. bit_or x (lo / 2)) half,
        bit_or-add k hi (lo / 2) (omega (arith, pow-suc 2 k)),
      ))

-- ===== src/Hal/Fields.antt =====
-- Fields of a register: what is written to one is read back from it, and no other bit changes.
use ko_rtos.Base.{
  ℕ, zero, suc, ◌+◌, ◌-◌, ◌*◌, ◌/◌, ◌%◌, ◌^◌, ◌≤◌, ◌<◌, ◌≡◌, refl, sym, ap, ◌∙◌, ltb, leb, ◌==◌,
  ◌&&◌, if◌then◌else◌, arith,
}
use Prim.Native.Nat.{bit_and, bit_or, min}
use native.Mathlib.Nat.{
  pow-suc, pow-le-pow_right, mod-lt, mod-eq_of_lt, div-add-mod, div-le_self, mul-add-mod_self_left,
}
use ko_rtos.Base.Bits.{
  bit, bit-le, bit-or, bit-and, bit-shl, bit-shr, bit-not, bit-pow, bits-ext, bit_and-lt_right,
}
use mathlib.Core.Logic.{◌⊎◌}
use native.Mathlib.Decide.{ℕ_discrete, dec_lt}
use ko_rtos.Hal.{Regs, storage, modify, with_field, not32, shl32}

pub two_pow_pos : (w : ℕ) → 0 < 2 ^ w
two_pow_pos zero = omega arith
two_pow_pos (suc w) = omega (arith, pow-suc 2 w, two_pow_pos w)

-- What stands at address `b` after the register at `a` is changed.
pub modify-at :
    (a b : ℕ) (f : ℕ → ℕ) (m : Regs) → modify storage a f m b ≡ (if a == b then f (m b) else m b)
modify-at a b f m = elim (ℕ_discrete a b) [
  | yes e ↦ let q = ap m e in ground arith
  | no n ↦ ground arith
]

-- All bits of a mask of `w` ones are 1, and none above.
pub bit-ones : (w i : ℕ) → bit (2 ^ w - 1) i ≡ (if ltb i w then 1 else 0)
unfolding bit
bit-ones zero zero = refl
bit-ones zero (suc i) = bit-ones zero i ∙ ground arith
bit-ones (suc w) zero = ground (arith, pow-suc 2 w, two_pow_pos w)
bit-ones (suc w) (suc i) =
    ap (λ y. bit y i) {y = 2 ^ w - 1} (omega (arith, pow-suc 2 w, two_pow_pos w))
    ∙ bit-ones w i
    ∙ ground arith

-- Bits above a number's width are 0.
pub bit-high : (w x i : ℕ) → x < 2 ^ w → w ≤ i → bit x i ≡ 0
unfolding bit
bit-high zero x zero h l = omega arith
bit-high zero x (suc i) h l = bit-high zero (x / 2) i (omega arith) (omega arith)
bit-high (suc w) x zero h l = absurd (omega arith)
bit-high (suc w) x (suc i) h l = bit-high w (x / 2) i (omega (arith, pow-suc 2 w)) (omega arith)

mod_double : (x w : ℕ) → x % 2 ^ suc w ≡ 2 * (x / 2 % 2 ^ w) + x % 2
mod_double x w =
    let q = 2 ^ w in
    let t = x / 2 / q in
    let r = 2 * (x / 2 % q) + x % 2 in
    let twice : 2 ^ suc w * t ≡ 2 * (q * t) = omega (arith, ap (λ (y : ℕ). y * t) (pow-suc 2 w)) in
    let parts : x ≡ 2 ^ suc w * t + r = omega (arith, twice, div-add-mod (x / 2) q) in
    let small : r < 2 ^ suc w =
      omega (arith, pow-suc 2 w, mod-lt (x / 2) {m = q} (two_pow_pos w)) in
    ap (λ y. y % 2 ^ suc w) parts ∙ mul-add-mod_self_left (2 ^ suc w) t r ∙ mod-eq_of_lt small

-- The low bits of a number.
pub bit-mod : (w x i : ℕ) → i < w → bit (x % 2 ^ w) i ≡ bit x i
unfolding bit
bit-mod zero x i l = absurd (omega arith)
bit-mod (suc w) x zero l = omega (arith, mod_double x w)
bit-mod (suc w) x (suc i) l =
    ap (λ y. bit y i) {y = x / 2 % 2 ^ w} (omega (arith, mod_double x w))
    ∙ bit-mod w (x / 2) i (omega arith)

-- The bits of a register after a field of `w` bits at `pos` is set to `x`.
pub with_field-bit :
    (w pos x v i : ℕ)
    → (2 ^ w - 1) * 2 ^ pos < 2 ^ 32
    → x < 2 ^ w
    → i < 32
    → bit (with_field (2 ^ w - 1) pos x v) i
      ≡ (if leb pos i && ltb i (pos + w) then bit x (i - pos) else bit v i)
unfolding with_field
with_field-bit w pos x v i fits small l =
    let m = (2 ^ w - 1) * 2 ^ pos in
    let cut : shl32 (2 ^ w - 1) pos ≡ m = mod-eq_of_lt fits in
    let a = bit-or (bit_and v (not32 m)) (shl32 x pos) i in
    let b = bit-and v (not32 m) i in
    let c = bit-not 32 m i fits l in
    let d = bit-shl (2 ^ w - 1) pos i in
    let e = bit-mod 32 (x * 2 ^ pos) i l ∙ bit-shl x pos i in
    let f = bit-ones w (i - pos) in
    rw cut
      (ground (arith, a, b, c, d, e, f, bit-le v i, bit-high w x (i - pos) small, two_pow_pos w))

-- The field of `w` bits at `pos`.
abbrev pub field : ℕ → ℕ → ℕ → ℕ
field w pos v = v / 2 ^ pos % 2 ^ w

pub field-bit : (w pos v i : ℕ) → i < w → bit (field w pos v) i ≡ bit v (pos + i)
field-bit w pos v i l = bit-mod w (v / 2 ^ pos) i l ∙ bit-shr v pos i

-- What is written to a field is read back.
pub field-with_field :
    (w pos x v : ℕ)
    → (2 ^ w - 1) * 2 ^ pos < 2 ^ 32
    → pos + w ≤ 32
    → x < 2 ^ w
    → field w pos (with_field (2 ^ w - 1) pos x v) ≡ x
field-with_field w pos x v fits room small = bits-ext w _ x (mod-lt _ (two_pow_pos w)) small (λ i l.
    field-bit w pos (with_field (2 ^ w - 1) pos x v) i l
    ∙ with_field-bit w pos x v (pos + i) fits small (omega arith)
    ∙ inside i l)
  where
    inside :
        (i : ℕ)
        → i < w
        → (if leb pos (pos + i) && ltb (pos + i) (pos + w)
            then bit x (pos + i - pos)
            else bit v (pos + i))
          ≡ bit x i
    inside i l = let e : pos + i - pos ≡ i = omega arith in let e' = ap (bit x) e in ground arith

-- A field elsewhere is unchanged.
pub field-with_field_ne :
    (w pos x v w' pos' : ℕ)
    → (2 ^ w - 1) * 2 ^ pos < 2 ^ 32
    → x < 2 ^ w
    → pos' + w' ≤ 32
    → (pos + w ≤ pos') ⊎ (pos' + w' ≤ pos)
    → field w' pos' (with_field (2 ^ w - 1) pos x v) ≡ field w' pos' v
field-with_field_ne w pos x v w' pos' fits small room apart =
    bits-ext w' _ _ (mod-lt _ (two_pow_pos w')) (mod-lt _ (two_pow_pos w')) (λ i l.
      field-bit w' pos' (with_field (2 ^ w - 1) pos x v) i l
      ∙ with_field-bit w pos x v (pos' + i) fits small (omega arith)
      ∙ outside i l
      ∙ sym (field-bit w' pos' v i l))
  where
    outside :
        (i : ℕ)
        → i < w'
        → (if leb pos (pos' + i) && ltb (pos' + i) (pos + w)
            then bit x (pos' + i - pos)
            else bit v (pos' + i))
          ≡ bit v (pos' + i)
    outside i l = ground arith

pow_add : (a b : ℕ) → 2 ^ a * 2 ^ b ≡ 2 ^ (b + a)
pow_add a zero = let e : a ≡ 0 + a = omega arith in omega (arith, ap (λ (n : ℕ). 2 ^ n) e)
pow_add a (suc b) =
    let e : suc (b + a) ≡ suc b + a = omega arith in
    omega (
      arith,
      pow_add a b,
      ap (λ (t : ℕ). 2 ^ a * t) (pow-suc 2 b),
      pow-suc 2 (b + a),
      ap (λ (n : ℕ). 2 ^ n) e,
    )

-- A field that ends below bit 32 has its mask in a word.
pub fits : (w pos : ℕ) → pos + w ≤ 32 → (2 ^ w - 1) * 2 ^ pos < 2 ^ 32
fits w pos room =
    let y = 2 ^ w - 1 in
    let whole : 2 ^ w ≡ y + 1 = omega (arith, two_pow_pos w) in
    omega (
      arith,
      ap (λ (t : ℕ). t * 2 ^ pos) whole,
      pow_add w pos,
      two_pow_pos pos,
      pow-le-pow_right {n = 2} (omega arith) room,
    )

-- `(v & (mask << pos)) >> pos` is the field.
pub masked-field :
    (w pos v : ℕ) → pos + w ≤ 32 → bit_and v (shl32 (2 ^ w - 1) pos) / 2 ^ pos ≡ field w pos v
masked-field w pos v room =
    let m = (2 ^ w - 1) * 2 ^ pos in
    let t = bit_and v m / 2 ^ pos in
    let word : bit_and v m < 2 ^ 32 = bit_and-lt_right 32 v m (fits w pos room) in
    rw (mod-eq_of_lt (fits w pos room)) (
      bits-ext 32 t (field w pos v) (omega (arith, div-le_self (bit_and v m) (2 ^ pos), word))
        (omega (
          arith,
          mod-lt (v / 2 ^ pos) {m = 2 ^ w} (two_pow_pos w),
          pow-le-pow_right {n = 2} (omega arith) {i = w} {j = 32} (omega arith),
        ))
        (λ i l. bit-shr (bit_and v m) pos i ∙ bit-and v m (pos + i) ∙ at i))
  where
    at :
        (i : ℕ)
        → min (bit v (pos + i)) (bit ((2 ^ w - 1) * 2 ^ pos) (pos + i)) ≡ bit (field w pos v) i
    at i =
        let e : pos + i - pos ≡ i = omega arith in
        let low =
          bit-shl (2 ^ w - 1) pos (pos + i)
          ∙ ap (λ x. if ltb (pos + i) pos then 0 else x) (ap (bit (2 ^ w - 1)) e ∙ bit-ones w i) in
        elim (dec_lt i w) [
          | yes l ↦ ground (arith, low, field-bit w pos v i l, bit-le v (pos + i))
          | no l ↦
              ground
                (arith, low, bit-high w (field w pos v) i (mod-lt _ (two_pow_pos w)) (omega arith))
        ]

-- One bit is cleared, or set.
pub bit-cleared :
    (v k i : ℕ)
    → k < 32
    → i < 32
    → bit (bit_and v (not32 (2 ^ k))) i ≡ (if i == k then 0 else bit v i)
bit-cleared v k i p l =
    bit-and v (not32 (2 ^ k)) i
    ∙ ground (
      arith,
      bit-not 32 (2 ^ k) i
          (omega (arith, pow-le-pow_right {n = 2} (omega arith) {i = k} {j = 31} (omega arith))) l,
      bit-pow k i,
      bit-le v i,
    )

pub bit-set : (v k i : ℕ) → bit (bit_or v (2 ^ k)) i ≡ (if i == k then 1 else bit v i)
bit-set v k i = bit-or v (2 ^ k) i ∙ ground (arith, bit-pow k i, bit-le v i)

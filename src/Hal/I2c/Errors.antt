-- ===== src/Hal/I2c/Errors.antt =====
-- What `I2C_ER_IRQ_handling` reports.
use ko_rtos.Base.{
  ℕ, ◌||◌, ◌+◌, ◌^◌, ◌<◌, ◌≡◌, ◌≢◌, refl, sym, ap, ◌∙◌, Bool, true, false, ◌==◌, if◌then◌else◌,
  Bool-cases, inl, inr, List, [], ◌∷◌, ◌++◌, arith,
}
use Prim.Native.Nat.{bit_and}
use native.Mathlib.Decide.{ℕ_discrete}
use mathlib.Core.List.{append_assoc, append-nil}
use ko_rtos.Base.Bits.{bit, bit-le}
use ko_rtos.Hal.{storage, not32}
use ko_rtos.Hal.Address.{i2c_sr1, i2c_cr2}
use ko_rtos.Hal.Fields.{bit-cleared}
use ko_rtos.Hal.I2c.{I2cState, I2cHandle}
use ko_rtos.Hal.I2c.Sections.{flag-bit}
use ko_rtos.Hal.I2c.Interrupt.{flag_at, on_event, on_error, i2c_er_irq_handling}

abbrev sr1_of : I2cState → ℕ
sr1_of s = s.regs (s.handle.p_i2cx + i2c_sr1)

-- The flags of SR1 that are errors, each with its event.
abbrev pub error_flags : List (ℕ × ℕ)
error_flags = (8, 3) ∷ (9, 4) ∷ (10, 5) ∷ (11, 6) ∷ (12, 7) ∷ (14, 8) ∷ (15, 9) ∷ []

-- The events of the flags that are set in a word.
abbrev pub reported : ℕ → List (ℕ × ℕ) → List ℕ
reported v [] = []
reported v ((flag, event) ∷ rest) =
    if bit v flag == 1 then event ∷ reported v rest else reported v rest

abbrev pub listed : ℕ → List (ℕ × ℕ) → Bool
listed i [] = false
listed i ((flag, event) ∷ rest) = i == flag || listed i rest

abbrev handle_all : List (ℕ × ℕ) → I2cState → I2cState
handle_all [] s = s
handle_all ((flag, event) ∷ rest) s = handle_all rest (on_error storage true flag event s)

-- No flag of the list is `f`, and all are bits of a word.
abbrev Apart : ℕ → List (ℕ × ℕ) → Type 0
Apart f [] = Unit {0}
Apart f ((flag, event) ∷ rest) = (flag ≢ f) × (flag < 32) × Apart f rest

abbrev Distinct : List (ℕ × ℕ) → Type 0
Distinct [] = Unit {0}
Distinct ((flag, event) ∷ rest) = (flag < 32) × Apart flag rest × Distinct rest

-- One error: its flag is cleared, and no other; nothing else in the state but the events changes.
sr1-on_error :
    (f e i : ℕ) (s : I2cState)
    → f < 32
    → i < 32
    → bit (sr1_of (on_error storage true f e s)) i ≡ (if i == f then 0 else bit (sr1_of s) i)
unfolding on_error on_event
sr1-on_error f e i s p l =
    let v = sr1_of s in
    let c = bit-cleared v f i p l in
    elim (Bool-cases (bit v f == 1)) [
      | inl q ↦
          rw (flag-bit v f ∙ q)
            (ap (λ x. bit x i) {y = bit_and v (not32 (2 ^ f))} (ground arith) ∙ c)
      | inr q ↦ rw (flag-bit v f ∙ q) (elim (ℕ_discrete i f) [
        | yes same ↦ ground (arith, ap (bit v) same, bit-le v f)
        | no other ↦ ground arith
      ])
    ]

events-on_error :
    (f e : ℕ) (s : I2cState)
    → (on_error storage true f e s).events
      ≡ (if bit (sr1_of s) f == 1 then s.events ++ (e ∷ []) else s.events)
unfolding on_error on_event
events-on_error f e s =
    let v = sr1_of s in
    elim (Bool-cases (bit v f == 1)) [
      | inl q ↦ rw (flag-bit v f ∙ q, q) refl
      | inr q ↦ rw (flag-bit v f ∙ q, q) refl
    ]

reported-congr :
    (f v w : ℕ) (r : List (ℕ × ℕ))
    → Apart f r
    → ((i : ℕ) → i < 32 → i ≢ f → bit v i ≡ bit w i)
    → reported v r ≡ reported w r
reported-congr f v w [] a h = refl
reported-congr f v w ((g, e) ∷ r) (n, l, a) h = rw (h g l n, reported-congr f v w r a h) refl

events-handle_all :
    (r : List (ℕ × ℕ)) (s : I2cState)
    → Distinct r
    → (handle_all r s).events ≡ s.events ++ reported (sr1_of s) r
events-handle_all [] s d = sym (append-nil s.events)
events-handle_all ((f, e) ∷ r) s (l, a, d) =
    let s' = on_error storage true f e s in
    let v = sr1_of s in
    let rest : reported (sr1_of s') r ≡ reported v r =
      reported-congr f (sr1_of s') v r a (λ i p n. sr1-on_error f e i s l p ∙ ground arith) in
    events-handle_all r s' d
    ∙ ap (λ x. s'.events ++ x) rest
    ∙ ap (λ x. x ++ reported v r) (events-on_error f e s)
    ∙ elim (Bool-cases (bit v f == 1)) [
      | inl q ↦ rw q (append_assoc s.events (e ∷ []) (reported v r))
      | inr q ↦ rw q refl
    ]

-- The flags of the list are clear after all are handled, and no other bit has changed.
bit-handle_all :
    (r : List (ℕ × ℕ)) (s : I2cState) (i : ℕ)
    → Distinct r
    → i < 32
    → bit (sr1_of (handle_all r s)) i ≡ (if listed i r then 0 else bit (sr1_of s) i)
bit-handle_all [] s i d l = refl
bit-handle_all ((f, e) ∷ r) s i (p, a, d) l =
    bit-handle_all r (on_error storage true f e s) i d l
    ∙ rw (sr1-on_error f e i s p l) (split (i == f) (listed i r))
  where
    split :
        (x y : Bool)
        → (if y then 0 else if x then 0 else bit (sr1_of s) i)
          ≡ (if x || y then 0 else bit (sr1_of s) i)
    split true true = refl
    split true false = refl
    split false true = refl
    split false false = refl

distinct : Distinct error_flags
distinct = (
  omega arith,
  (
    omega arith,
    omega arith,
    (
      omega arith,
      omega arith,
      (
        omega arith,
        omega arith,
        (omega arith, omega arith, (omega arith, omega arith, (omega arith, omega arith, tt))),
      ),
    ),
  ),
  (
    omega arith,
    (
      omega arith,
      omega arith,
      (
        omega arith,
        omega arith,
        (omega arith, omega arith, (omega arith, omega arith, (omega arith, omega arith, tt))),
      ),
    ),
    (
      omega arith,
      (
        omega arith,
        omega arith,
        (omega arith, omega arith, (omega arith, omega arith, (omega arith, omega arith, tt))),
      ),
      (
        omega arith,
        (omega arith, omega arith, (omega arith, omega arith, (omega arith, omega arith, tt))),
        (
          omega arith,
          (omega arith, omega arith, (omega arith, omega arith, tt)),
          (omega arith, (omega arith, omega arith, tt), (omega arith, tt, tt)),
        ),
      ),
    ),
  ),
)

handle-handle_all : (r : List (ℕ × ℕ)) (s : I2cState) → (handle_all r s).handle ≡ s.handle
unfolding on_error on_event
handle-handle_all [] s = refl
handle-handle_all ((f, e) ∷ r) s =
    handle-handle_all r (on_error storage true f e s)
    ∙ (elim (Bool-cases (flag_at (sr1_of s) f)) [ inl q ↦ rw q refl | inr q ↦ rw q refl ])

-- On registers that keep what is written, with the error interrupts enabled in CR2: the events of the
-- error flags that are set in SR1 are reported, each once, in the order of the flags; those flags are
-- cleared, and no other bit of SR1 changes.
pub i2c_er_irq_handling-reports :
    (s : I2cState)
    → flag_at (s.regs (s.handle.p_i2cx + i2c_cr2)) 8 ≡ true
    → let sr1 = s.handle.p_i2cx + i2c_sr1 in
      let t = i2c_er_irq_handling storage s in
      (t.events ≡ s.events ++ reported (s.regs sr1) error_flags)
      × ((i : ℕ)
          → i < 32
          → bit (t.regs sr1) i ≡ (if listed i error_flags then 0 else bit (s.regs sr1) i))
unfolding i2c_er_irq_handling
i2c_er_irq_handling-reports s e =
    let s' = record s { regs = s.regs } in
    let t = handle_all error_flags s' in
    rw e (
      events-handle_all error_flags s' distinct,
      λ i l.
          ap (λ (h : I2cHandle). bit (t.regs (h.p_i2cx + i2c_sr1)) i)
            (sym (handle-handle_all error_flags s'))
          ∙ bit-handle_all error_flags s' i distinct l,
    )

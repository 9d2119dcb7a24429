-- ===== src/Base/Scan.antt =====
-- The loop `for (i = lo; i < hi; i++) if (is_candidate(i) && prio(i) < best) { best = prio(i); idx = i; }`,
-- which the scheduler and the waitlists run, and the law that it finds the first least entry.
use Prim.Native.Nat.{ℕ, zero, suc, ◌+◌, ◌≤◌, ◌<◌}
use mathlib.Core.Path.{◌≡◌, refl, sym, ap, subst, ◌∙◌}
use mathlib.Core.Logic.{◌⊎◌, inl, inr}
use mathlib.Core.Option.{Option, none, some}
use native.Mathlib.Omega.{arith}
use native.Mathlib.Decide.{ℕ_discrete, dec_lt}
use ko_rtos.Base.Tests.{ltb, if◌then◌else◌, Option-cases}

-- The loop's two variables: the best priority so far, and the index that has it (none: not set).
pub record Best : Type 0 where
  pub prio : ℕ
  pub idx : Option ℕ

abbrev pub improve : Option ℕ → ℕ → Best → Best
improve none i b = b
improve (some p) i b = if ltb p b.prio then record { prio = p; idx = some i } else b

-- `n` rounds from index `i` on; `key` gives the priority of a candidate.
unfoldable pub scan : (ℕ → Option ℕ) → ℕ → ℕ → Best → Best
scan key zero i b = b
scan key (suc n) i b = scan key n (suc i) (improve (key i) i b)

-- `r` is `b`, or the first entry of `[i, i + n)` with the least priority, which is below `b`'s.

pub record Found (key : ℕ → Option ℕ) (n i : ℕ) (b r : Best) : Type 0 where
  pub at : ℕ
  pub from_le : i ≤ at
  pub before_end : at < i + n
  pub is_idx : r.idx ≡ some at
  pub has_prio : key at ≡ some r.prio
  pub better : r.prio < b.prio
  pub first : (j p : ℕ) → i ≤ j → j < at → key j ≡ some p → r.prio < p

pub record FirstMin (key : ℕ → Option ℕ) (n i : ℕ) (b r : Best) : Type 0 where
  pub least : (j p : ℕ) → i ≤ j → j < i + n → key j ≡ some p → r.prio ≤ p
  pub origin : (r ≡ b) ⊎ Found key n i b r

module _ (key : ℕ → Option ℕ) where
  improve-prio : (o : Option ℕ) (i : ℕ) (b : Best) → (improve o i b).prio ≤ b.prio
  improve-prio o i b = ground arith

  improve-least : (i p : ℕ) (b : Best) → key i ≡ some p → (improve (key i) i b).prio ≤ p
  improve-least i p b h = ground arith

  scan-prio : (n i : ℕ) (b : Best) → (scan key n i b).prio ≤ b.prio
  unfolding scan
  scan-prio zero i b = omega arith
  scan-prio (suc n) i b =
      omega (arith, scan-prio n (suc i) (improve (key i) i b), improve-prio (key i) i b)

  scan-least :
      (n i : ℕ) (b : Best) (j p : ℕ)
      → i ≤ j
      → j < i + n
      → key j ≡ some p
      → (scan key n i b).prio ≤ p
  unfolding scan
  scan-least zero i b j p h k e = absurd (omega arith)
  scan-least (suc n) i b j p h k e = elim (ℕ_discrete j i) [
    | yes q ↦ omega (
      arith,
      scan-prio n (suc i) (improve (key i) i b),
      improve-least i p b (subst (λ x. key x ≡ some p) q e),
    )
    | no q ↦ scan-least n (suc i) (improve (key i) i b) j p (omega arith) (omega arith) e
  ]

  improve-cases :
      (i : ℕ) (b : Best)
      → (improve (key i) i b ≡ b)
        ⊎ ((p : ℕ) × (key i ≡ some p)
            × (p < b.prio)
            × (improve (key i) i b ≡ record { prio = p; idx = some i }))
  improve-cases i b = elim (Option-cases (key i)) [
    | inl e ↦ inl (rw e)
    | inr (p, e) ↦ elim (dec_lt p b.prio) [
      | yes h ↦ inr (p, e, h, ground arith)
      | no h ↦ inl (ground arith)
    ]
  ]

  Found-front : (n i : ℕ) (b r : Best) → r ≡ improve (key i) i b → (r ≡ b) ⊎ Found key (suc n) i b r
  Found-front n i b r e = elim (improve-cases i b) [
    | inl q ↦ inl (e ∙ q)
    | inr (p, k, h, q) ↦ inr (record {
      at = i;
      from_le = omega arith;
      before_end = omega arith;
      is_idx = ap (λ (x : Best). x.idx) (e ∙ q);
      has_prio = k ∙ ap some (sym (ap (λ (x : Best). x.prio) (e ∙ q)));
      better = rw (ap (λ (x : Best). x.prio) (e ∙ q)) h;
      first = λ j x a c _. absurd (omega arith);
    })
  ]

  Found-rest :
      (n i : ℕ) (b r : Best) → Found key n (suc i) (improve (key i) i b) r → Found key (suc n) i b r
  Found-rest n i b r f = record {
    at = f.at;
    from_le = omega arith;
    before_end = omega arith;
    is_idx = f.is_idx;
    has_prio = f.has_prio;
    better = omega (arith, improve-prio (key i) i b);
    first = first;
  }
    where
      first : (j p : ℕ) → i ≤ j → j < f.at → key j ≡ some p → r.prio < p
      first j p h k e = elim (ℕ_discrete j i) [
        | yes q ↦ omega (arith, improve-least i p b (subst (λ x. key x ≡ some p) q e))
        | no q ↦ f.first j p (omega arith) k e
      ]

  scan-origin : (n i : ℕ) (b : Best) → (scan key n i b ≡ b) ⊎ Found key n i b (scan key n i b)
  unfolding scan
  scan-origin zero i b = inl refl
  scan-origin (suc n) i b = elim (scan-origin n (suc i) (improve (key i) i b)) [
    | inl e ↦ Found-front n i b (scan key (suc n) i b) e
    | inr f ↦ inr (Found-rest n i b (scan key (suc n) i b) f)
  ]

  -- The loop ends with the first entry of least priority, or with what it began with.
  pub scan-FirstMin : (n i : ℕ) (b : Best) → FirstMin key n i b (scan key n i b)
  scan-FirstMin n i b = record { least = scan-least n i b; origin = scan-origin n i b }

-- ===== src/Mutex/Ownership.antt =====
-- Who owns which mutex: the mutexes' `owner` and the tasks' `owned_mutexes` say the same.
use ko_rtos.Base.{
  ℕ, suc, ◌+◌, ◌-◌, ◌^◌, ◌≤◌, ◌<◌, ◌≡◌, sym, ap, ◌∙◌, ◌≢◌, Option, none, some, Bool, false, ◌==◌,
  update, if◌then◌else◌, arith,
}
use native.Mathlib.Decide.{ℕ_discrete, dec_lt}
use ko_rtos.Types.{
  Kernel, Tcb, Mutex, unlocked, locked, Waitlist, WaitlistRef, mutex_list, os_max_mtx_per_task, u8,
}

-- The mutexes that task `t` lists are those that it owns; `own` gives each mutex's owner.
pub record Lists (own : ℕ → Option ℕ) (t : ℕ) (owned : ℕ → Option ℕ) (count : ℕ) : Type 0 where
  pub few : count ≤ os_max_mtx_per_task
  pub owned_by : (i : ℕ) → i < count → (m : ℕ) × (owned i ≡ some m) × (own m ≡ some t)
  pub once : (i j m : ℕ) → i < count → j < count → owned i ≡ some m → owned j ≡ some m → i ≡ j
  pub all : (m : ℕ) → own m ≡ some t → (i : ℕ) × (i < count) × (owned i ≡ some m)

-- The swap of the last entry into place `i`.
abbrev pub without : (ℕ → Option ℕ) → ℕ → ℕ → ℕ → Option ℕ
without owned count i = update owned i (owned (count - 1))

module _ {own own' : ℕ → Option ℕ} {owned : ℕ → Option ℕ} {count : ℕ} where
  -- Another task than `t` sees no difference where `m` goes to `t` or leaves it.
  pub Lists-other :
      (u m : ℕ)
      → own m ≢ some u
      → own' m ≢ some u
      → ((x : ℕ) → x ≢ m → own' x ≡ own x)
      → Lists own u owned count
      → Lists own' u owned count
  Lists-other u m h h' e v = record {
    few = v.few;
    owned_by = λ i l.
        let (x, a, b) = v.owned_by i l in (x, a, e x (λ (q : x ≡ m). h (sym (ap own q) ∙ b)) ∙ b);
    once = v.once;
    all = λ x q. v.all x (sym (e x (λ (p : x ≡ m). h' (sym (ap own' p) ∙ q))) ∙ q);
  }

  -- `m`, which nobody owned, is appended.
  pub Lists-add :
      (t m : ℕ)
      → own m ≡ none
      → own' m ≡ some t
      → ((x : ℕ) → x ≢ m → own' x ≡ own x)
      → count < os_max_mtx_per_task
      → Lists own t owned count
      → Lists own' t (update owned count (some m)) (u8 (count + 1))
  Lists-add t m h h' e room v = record {
    few = omega arith;
    owned_by = λ i l. elim (dec_lt i count) [
      | yes p ↦
          let (x, a, b) = v.owned_by i p in
          (x, ground arith, e x (λ (q : x ≡ m). not_free b (sym (ap own q) ∙ b)) ∙ b)
      | no p ↦ (m, ground arith, h')
    ];
    once = λ i j x l k a b. elim (dec_lt i count) [
      | yes p ↦ elim (dec_lt j count) [
        | yes q ↦ v.once i j x p q (ground arith) (ground arith)
        | no q ↦ absurd (fresh i p (ground arith))
      ]
      | no p ↦ elim (dec_lt j count) [
        | yes q ↦ absurd (fresh j q (ground arith))
        | no q ↦ omega arith
      ]
    ];
    all = λ x q. elim (ℕ_discrete x m) [
      | yes p ↦ (count, omega arith, ground arith)
      | no p ↦ let (i, l, a) = v.all x (sym (e x p) ∙ q) in (i, omega arith, ground arith)
    ];
  }
    where
      not_free : {x : ℕ} → own x ≡ some t → own m ≢ some t
      not_free b q = cc

      fresh : (i : ℕ) → i < count → owned i ≢ some m
      fresh i l a =
          let (x, b, c) = v.owned_by i l in
          let same : x ≡ m = ground arith in not_free c (sym (ap own same) ∙ c)

  -- `m`, which stands at `i`, is taken out.
  pub Lists-drop :
      (t m i : ℕ)
      → i < count
      → owned i ≡ some m
      → own' m ≡ none
      → ((x : ℕ) → x ≢ m → own' x ≡ own x)
      → Lists own t owned count
      → Lists own' t (without owned count i) (u8 (count + 2 ^ 8 - 1))
  Lists-drop t m i l p h e v = record {
    few = omega (arith, v.few);
    owned_by = λ j k.
        let (x, a, b) = v.owned_by (source j) (in_list j (shorter k)) in
        (x, entry j ∙ a, e x (λ (q : x ≡ m). moved j (shorter k) (a ∙ ap some q)) ∙ b);
    once = λ j j' x k k' a a'. source-injective j j' (shorter k) (shorter k') (
        v.once (source j) (source j') x (in_list j (shorter k)) (in_list j' (shorter k'))
          (sym (entry j) ∙ a) (sym (entry j') ∙ a'));
    all = λ x q.
        let n = not_gone x q in
        let (j, k, a) = v.all x (sym (e x n) ∙ q) in
        place x j k a (λ (z : j ≡ i). n (gone x j a z));
  }
    where
      -- the place in the old table of an entry of the new one
      source : ℕ → ℕ
      source j = if i == j then count - 1 else j

      entry : (j : ℕ) → without owned count i j ≡ owned (source j)
      entry j = ground arith

      shorter : {j : ℕ} → j < u8 (count + 2 ^ 8 - 1) → suc j < count
      shorter {j} k = omega (arith, v.few)

      in_list : (j : ℕ) → suc j < count → source j < count
      in_list j k = ground arith

      source-injective : (j k : ℕ) → suc j < count → suc k < count → source j ≡ source k → j ≡ k
      source-injective j k x y a = ground arith

      source-ne : (j : ℕ) → suc j < count → source j ≢ i
      source-ne j k a = ground arith

      moved : (j : ℕ) → suc j < count → owned (source j) ≢ some m
      moved j k a = source-ne j k (v.once (source j) i m (in_list j k) l a p)

      not_gone : (x : ℕ) → own' x ≡ some t → x ≢ m
      not_gone x q z = let w : own' x ≡ own' m = ap own' z in cc

      gone : (x j : ℕ) → owned j ≡ some x → j ≡ i → x ≡ m
      gone x j a z = let w : owned j ≡ owned i = ap owned z in ground arith

      place :
          (x j : ℕ)
          → j < count
          → owned j ≡ some x
          → j ≢ i
          → (n : ℕ) × (n < u8 (count + 2 ^ 8 - 1)) × (without owned count i n ≡ some x)
      place x j k a z = elim (dec_lt (suc j) count) [
        | yes s ↦ (j, omega (arith, v.few), ground arith)
        | no s ↦
            let w : owned (count - 1) ≡ owned j = ap owned (omega arith) in
            (i, omega (arith, v.few), ground arith)
      ]

abbrev pub is_hole : Option ℕ → ℕ → Bool
is_hole none m = false
is_hole (some h) m = h == m

-- The owner of each mutex; `hole` is a mutex that is being handed over, and belongs to nobody.
abbrev pub owner_but : Option ℕ → (ℕ → Mutex) → ℕ → Option ℕ
owner_but hole mutexes m = if is_hole hole m then none else (mutexes m).owner

-- The tasks' tables and the mutexes agree; an unlocked mutex has no owner and no waiter. Of the
-- mutex `hole` only the tables know.
pub record IsOwned (hole : Option ℕ) (tasks : ℕ → Tcb) (mutexes : ℕ → Mutex)
    (lists : WaitlistRef → Waitlist) : Type 0 where
  pub tables :
      (t : ℕ) → Lists (owner_but hole mutexes) t (tasks t).owned_mutexes (tasks t).owned_mutex_count
  pub free :
      (m : ℕ)
      → hole ≢ some m
      → (mutexes m).state ≡ unlocked
      → ((mutexes m).owner ≡ none) × ((lists (mutex_list m)).wait_count ≡ 0)
  pub held :
      (m : ℕ) → hole ≢ some m → (mutexes m).state ≡ locked → (t : ℕ) × ((mutexes m).owner ≡ some t)

abbrev pub OwnsBut : Option ℕ → Kernel → Type 0
OwnsBut hole k = IsOwned hole k.user_tasks k.mutexes k.waitlists

abbrev pub Owns : Kernel → Type 0
Owns k = OwnsBut none k

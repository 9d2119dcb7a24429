-- ===== src/Waitlist/Members.antt =====
-- The agreement between a waitlist and the tasks: its entries are the tasks whose
-- `blocked_waitlist` points to it, each once.
use ko_rtos.Base.{
  ◌↔◌, ℕ, zero, suc, ◌+◌, ◌≤◌, ◌<◌, ◌≡◌, sym, ap, subst, ◌∙◌, ◌≢◌, Option, some, ltb, if◌then◌else◌,
  update, arith,
}
use native.Mathlib.Decide.{dec_lt, ℕ_discrete}
use ko_rtos.Types.{Waitlist, WaitlistRef, os_max_tasks, u8}
use ko_rtos.Waitlist.{waitlist_remove_task}
use ko_rtos.Waitlist.Entries.{remove-entry, remove-count}

-- `on t` is the waitlist that task `t` is blocked on.
pub record Waits (w : Waitlist) (on : ℕ → Option WaitlistRef) (r : WaitlistRef) : Type 0 where
  pub few : w.wait_count ≤ os_max_tasks
  pub waits : (i : ℕ) → i < w.wait_count → (t : ℕ) × (w.task_waitlist i ≡ some t) × (on t ≡ some r)
  pub once :
      (i j t : ℕ)
      → i < w.wait_count
      → j < w.wait_count
      → w.task_waitlist i ≡ some t
      → w.task_waitlist j ≡ some t
      → i ≡ j
  pub listed : (t : ℕ) → on t ≡ some r → (i : ℕ) × (i < w.wait_count) × (w.task_waitlist i ≡ some t)

-- Task `t` is an entry of the list.
abbrev pub Listed : Waitlist → ℕ → Type 0
Listed w t = (i : ℕ) × (i < w.wait_count) × (w.task_waitlist i ≡ some t)

-- The entries are the tasks that say so.
pub Waits-Listed :
    {w : Waitlist} {on : ℕ → Option WaitlistRef} {r : WaitlistRef} (t : ℕ)
    → Waits w on r
    → Listed w t ↔ (on t ≡ some r)
Waits-Listed {on} {r} t v = (
  λ (i, l, e).
      let (u, e', o) = v.waits i l in let same : u ≡ t = cc in subst (λ x. on x ≡ some r) same o,
  v.listed t,
)

module _ {w : Waitlist} {r : WaitlistRef} {on on' : ℕ → Option WaitlistRef} where
  pub Waits-congr : ((t : ℕ) → on' t ≡ on t) → Waits w on r → Waits w on' r
  Waits-congr e v = record {
    few = v.few;
    waits = λ i h. let (t, p, q) = v.waits i h in (t, p, e t ∙ q);
    once = v.once;
    listed = λ t h. v.listed t (sym (e t) ∙ h);
  }

  -- A task that is on no list goes onto another list than `r`, or leaves one.
  pub Waits-other :
      (t : ℕ)
      → on t ≢ some r
      → on' t ≢ some r
      → ((u : ℕ) → u ≢ t → on' u ≡ on u)
      → Waits w on r
      → Waits w on' r
  Waits-other t h h' e v = record {
    few = v.few;
    waits = λ i l.
        let (u, p, q) = v.waits i l in (u, p, e u (λ (x : u ≡ t). h (sym (ap on x) ∙ q)) ∙ q);
    once = v.once;
    listed = λ u q. v.listed u (sym (e u (λ (x : u ≡ t). h' (sym (ap on' x) ∙ q))) ∙ q);
  }

  -- Task `t` is appended.
  pub Waits-append :
      (t : ℕ)
      → on t ≢ some r
      → on' t ≡ some r
      → ((u : ℕ) → u ≢ t → on' u ≡ on u)
      → w.wait_count < os_max_tasks
      → Waits w on r
      → Waits
          (record w {
            task_waitlist = update w.task_waitlist w.wait_count (some t);
            wait_count = u8 (w.wait_count + 1);
          })
          on'
          r
  Waits-append t h h' e room v = record {
    few = omega arith;
    waits = λ i l. elim (dec_lt i w.wait_count) [
      | yes p ↦
          let (u, a, b) = v.waits i p in
          (u, ground arith, e u (λ (x : u ≡ t). h (sym (ap on x) ∙ b)) ∙ b)
      | no p ↦ (t, ground arith, h')
    ];
    once = λ i j x li lj a b. elim (dec_lt i w.wait_count) [
      | yes p ↦ elim (dec_lt j w.wait_count) [
        | yes q ↦ v.once i j x p q (ground arith) (ground arith)
        | no q ↦ absurd (fresh i p (ground arith))
      ]
      | no p ↦ elim (dec_lt j w.wait_count) [
        | yes q ↦ absurd (fresh j q (ground arith))
        | no q ↦ omega arith
      ]
    ];
    listed = λ x q. elim (ℕ_discrete x t) [
      | yes p ↦ (w.wait_count, omega arith, ground arith)
      | no p ↦ let (i, l, a) = v.listed x (sym (e x p) ∙ q) in (i, omega arith, ground arith)
    ];
  }
    where
      fresh : (i : ℕ) → i < w.wait_count → w.task_waitlist i ≢ some t
      fresh i l a = let (u, b, c) = v.waits i l in h (ap on (ground arith) ∙ c)

  -- The entry `i`, which is task `t`, is removed.
  pub Waits-remove :
      (t i : ℕ)
      → i < w.wait_count
      → w.task_waitlist i ≡ some t
      → on' t ≢ some r
      → ((u : ℕ) → u ≢ t → on' u ≡ on u)
      → Waits w on r
      → Waits (waitlist_remove_task w i) on' r
  Waits-remove t i l p h e v = record {
    few = omega (arith, remove-count w i l v.few);
    waits = λ j a.
        let c = ge j (shorter a) in
        let (u, b, d) = v.waits (source j) c in
        (
          u,
          entry j (shorter a) ∙ b,
          e u (λ (x : u ≡ t). source-ne j (v.once (source j) i t c l (b ∙ ap some x) p)) ∙ d,
        );
    once = λ j j' x a a' b b'. source-injective j j' (
        v.once (source j) (source j') x (ge j (shorter a)) (ge j' (shorter a'))
          (sym (entry j (shorter a)) ∙ b) (sym (entry j' (shorter a')) ∙ b'));
    listed = λ x q.
        let (j, c, d) = v.listed x (sym (e x (λ (y : x ≡ t). h (sym (ap on' y) ∙ q))) ∙ q) in
        found x j c d (not_removed x j d q);
  }
    where
      -- the index in the old array of an entry of the new one
      source : ℕ → ℕ
      source j = if ltb j i then j else suc j

      shorter : {j : ℕ} → j < (waitlist_remove_task w i).wait_count → suc j < w.wait_count
      shorter a = omega (arith, remove-count w i l v.few)

      ge : (j : ℕ) → suc j < w.wait_count → source j < w.wait_count
      ge j a = ground arith

      source-ne : (j : ℕ) → source j ≢ i
      source-ne j a = ground arith

      source-injective : (j k : ℕ) → source j ≡ source k → j ≡ k
      source-injective j k a = ground arith

      entry :
          (j : ℕ)
          → suc j < w.wait_count
          → (waitlist_remove_task w i).task_waitlist j ≡ w.task_waitlist (source j)
      entry j a = ground (arith, remove-entry w i j l a)

      not_removed : (x j : ℕ) → w.task_waitlist j ≡ some x → on' x ≡ some r → j ≢ i
      not_removed x j d q y =
          let y' : w.task_waitlist j ≡ w.task_waitlist i = ap w.task_waitlist y in
          h (subst (λ z. on' z ≡ some r) (cc) q)

      found :
          (x j : ℕ)
          → j < w.wait_count
          → w.task_waitlist j ≡ some x
          → j ≢ i
          → (n : ℕ) × (n < (waitlist_remove_task w i).wait_count)
            × ((waitlist_remove_task w i).task_waitlist n ≡ some x)
      found x j a b c = elim (dec_lt j i) [
        | yes y ↦ (
          j,
          omega (arith, remove-count w i l v.few),
          ground (arith, remove-entry w i j l (omega arith)),
        )
        | no y ↦
            elim j
                as (λ j.
                  j < w.wait_count
                  → w.task_waitlist j ≡ some x
                  → j ≢ i
                  → ¬ (j < i)
                  → (n : ℕ) × (n < (waitlist_remove_task w i).wait_count)
                    × ((waitlist_remove_task w i).task_waitlist n ≡ some x)) [
                      | zero ↦ λ a b c y. absurd (omega arith)
                      | suc n ↦ λ a b c y. (
                        n,
                        omega (arith, remove-count w i l v.few),
                        ground (arith, remove-entry w i n l a),
                      )
                    ]
              a b c y
      ]

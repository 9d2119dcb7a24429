-- ===== src/System/Settling.antt =====
-- The call `os_mutex_lock_resume` of Mutex, which recomputes priorities with interrupts on, as a
-- sequence of the steps of System/Runs that write one priority each.
use ko_rtos.Base.{
  ℕ, zero, suc, ◌≡◌, refl, sym, subst, ap, ◌∙◌, Option, none, some, inl, inr, Bool-cases,
  if◌then◌else◌,
}
use ko_rtos.Types.{os_max_tasks, current, ok, unavailable, Kernel, OsErr, ◌>>=◌}
use ko_rtos.Mutex.{
  waits_for_mutex, set_effective, recompute, mutex_recompute_owner_priority, os_mutex_lock_resume,
}
use ko_rtos.Mutex.Chain.{next_owner-total}
use ko_rtos.Mutex.Recompute.{
  Healthy, recompute-none, recompute_one-Highest, set_effective-Healthy,
  mutex_recompute_owner_priority-Settled,
}
use ko_rtos.System.{some-injective_lem}
use ko_rtos.System.Runs.{Run, none_yet, then, settle}

module _ {k₀ l : Kernel} where
  next-Run :
      (n : ℕ) (o : Option ℕ) (k : Kernel)
      → Run k₀ k
      → recompute n o k ≡ some l
      → ((t : ℕ) → recompute n (some t) k ≡ some l → Run k₀ l)
      → Run k₀ l
  next-Run n none k r e ih = subst (Run k₀) (some-injective_lem (sym (recompute-none n k) ∙ e)) r
  next-Run n (some t) k r e ih = ih t e

  recompute-Run :
      (n t : ℕ) (k : Kernel) → Run k₀ k → Healthy k → recompute n (some t) k ≡ some l → Run k₀ l
  unfolding recompute
  recompute-Run zero t k r v e = subst (Run k₀) (some-injective_lem e) r
  recompute-Run (suc n) t k r v e =
      let (h, q, s) = recompute_one-Highest none t k v in
      let k' = set_effective k t h in
      let r' : Run k₀ k' = (then) r (settle t h s.le_base) in
      let v' = set_effective-Healthy none t h k s.le_base v in
      elim (Bool-cases (waits_for_mutex (k'.user_tasks t).block_reason)) [
        | inl b ↦
            let (o, p) = next_owner-total t k' b v'.inv in
            let goes_on : recompute (suc n) (some t) k ≡ recompute n o k' =
              rw (q, ◌>>=◌) (rw b (rw (p, ◌>>=◌) refl)) in
            next-Run n o k' r' (sym goes_on ∙ e) (λ x f. recompute-Run n x k' r' v' f)
        | inr b ↦
            let ends : recompute (suc n) (some t) k ≡ some k' = rw (q, ◌>>=◌) (rw b refl) in
            subst (Run k₀) (some-injective_lem (sym ends ∙ e)) r'
      ]

-- On healthy tables, what a resumed lock does when nothing interrupts it is a sequence of the events of
-- System/Runs that each write one effective priority: between them other events may come.
pub os_mutex_lock_resume-Run :
    (m : ℕ) (k : Kernel) {reply : OsErr} {l : Kernel}
    → Healthy k
    → os_mutex_lock_resume m k ≡ some (reply, l)
    → Run k l
unfolding os_mutex_lock_resume mutex_recompute_owner_priority
os_mutex_lock_resume-Run m k v e =
    let o = (k.mutexes m).owner in
    let s = mutex_recompute_owner_priority-Settled none o k v in
    let answer = if (current s.to).timeout then unavailable else ok in
    let result : os_mutex_lock_resume m k ≡ some (answer, s.to) = rw (s.result, ◌>>=◌) refl in
    let r =
      next-Run os_max_tasks o k none_yet s.result
        (λ t f. recompute-Run os_max_tasks t k none_yet v f) in
    subst (Run k) (ap (λ x. x.1) (some-injective_lem (sym result ∙ e))) r

-- ===== src/System/Exclusion.antt =====
-- The owners of the mutexes after a run from reset.
use ko_rtos.Base.{ℕ, ◌<◌, ◌≡◌, sym, ap, subst, ◌∙◌, some, inl, inr, arith}
use ko_rtos.Types.{Kernel, locked}
use ko_rtos.Mutex.Recompute.{Healthy}
use ko_rtos.Mutex.Handover.{MutexState-cases}
use ko_rtos.System.{some-injective_lem}
use ko_rtos.System.Runs.{Run}
use ko_rtos.System.Reset.{reset_kernel, reset_kernel-Run}

-- A mutex that is owned is locked.
owned-locked :
    (m t : ℕ) (k : Kernel) → Healthy k → (k.mutexes m).owner ≡ some t → (k.mutexes m).state ≡ locked
owned-locked m t k h o = elim (MutexState-cases (k.mutexes m).state) [
  | inl e ↦ let (q, _) = h.owns.free m (λ z. cc) e in absurd (ground arith)
  | inr e ↦ e
]

-- A mutex in a task's table is that task's.
listed-owner :
    (t i m : ℕ) (k : Kernel)
    → Healthy k
    → i < (k.user_tasks t).owned_mutex_count
    → (k.user_tasks t).owned_mutexes i ≡ some m
    → (k.mutexes m).owner ≡ some t
listed-owner t i m k h l e =
    let (x, f, o) = (h.owns.tables t).owned_by i l in
    let same : x ≡ m = some-injective_lem (sym f ∙ e) in
    ap (λ y. (k.mutexes y).owner) (sym same) ∙ o

-- From reset, after any sequence of the events of System/Runs: two entries of the tasks' tables of
-- owned mutexes that name the same mutex are the same entry of the same task, which is the mutex's
-- owner, and the mutex is locked. The conditions of the events are: a call comes to a result, without
-- a fault such as the write of a fifth mutex into a task's table; a semaphore or a queue is created
-- while no task waits for it, and a mutex while it is unlocked; a call that may block is made by a
-- running task other than the idle task, and a delay and an unlock by a running task. The writes of
-- priorities that os_mutex_lock makes with interrupts on are events of their own.
pub reset_kernel-exclusive :
    (memory : ℕ → ℕ) {l : Kernel} (t u i j m : ℕ)
    → Run (reset_kernel memory) l
    → i < (l.user_tasks t).owned_mutex_count
    → j < (l.user_tasks u).owned_mutex_count
    → (l.user_tasks t).owned_mutexes i ≡ some m
    → (l.user_tasks u).owned_mutexes j ≡ some m
    → (t ≡ u) × (i ≡ j) × ((l.mutexes m).owner ≡ some t) × ((l.mutexes m).state ≡ locked)
reset_kernel-exclusive memory {l} t u i j m r a b c d =
    let h = reset_kernel-Run memory r in
    let o = listed-owner t i m l h a c in
    let same : t ≡ u = some-injective_lem (sym o ∙ listed-owner u j m l h b d) in
    let b' = subst (λ x. j < (l.user_tasks x).owned_mutex_count) (sym same) b in
    let d' = subst (λ x. (l.user_tasks x).owned_mutexes j ≡ some m) (sym same) d in
    (same, (h.owns.tables t).once i j m a b' c d', o, owned-locked m t l h o)

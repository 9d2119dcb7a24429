-- ===== src/Samples/Tables.antt =====
-- The tables of the sample kernel agree with one another.
use ko_rtos.Base.{
  ℕ, zero, suc, ◌<◌, ◌≡◌, ◌≢◌, refl, sym, ap, ◌⊎◌, inl, inr, Option, none, some, true, arith,
}
use ko_rtos.Types.{WaitlistRef, sem_list, mutex_list, send_list, recv_list, unlocked, locked}
use ko_rtos.Invariant.{IsSound, Inv, on}
use ko_rtos.Semaphore.{is_policy}
use ko_rtos.Waitlist.Members.{Waits}
use ko_rtos.Mutex.Ownership.{Lists}
use ko_rtos.Mutex.Recompute.{Healthy}
use ko_rtos.Samples.{tasks, empty_list, lists, mutexes, kernel}

none-Waits : {r : WaitlistRef} → ((t : ℕ) → on tasks t ≢ some r) → Waits empty_list (on tasks) r
none-Waits n = record {
  few = omega arith;
  waits = λ i l. absurd (omega arith);
  once = λ i j t l. absurd (omega arith);
  listed = λ t e. absurd (n t e);
}

pub waits_for_0 : (r : WaitlistRef) (t : ℕ) → on tasks t ≡ some r → (t ≡ 2) × (r ≡ mutex_list 0)
waits_for_0 r zero e = ground arith
waits_for_0 r (suc zero) e = ground arith
waits_for_0 r (suc (suc zero)) e = ground arith
waits_for_0 r (suc (suc (suc zero))) e = ground arith
waits_for_0 r (suc (suc (suc (suc t)))) e = ground arith

kernel-Waits : (r : WaitlistRef) → Waits (lists r) (on tasks) r
kernel-Waits (mutex_list zero) = record {
  few = omega arith;
  waits = entry;
  once = λ i j t l m a b. omega arith;
  listed = λ t e. (0, omega arith, ap some (sym (waits_for_0 _ t e).0));
}
  where
    entry :
        (i : ℕ)
        → i < 1
        → (t : ℕ) × ((lists (mutex_list 0)).task_waitlist i ≡ some t)
          × (on tasks t ≡ some (mutex_list 0))
    entry zero l = (2, refl, refl)
    entry (suc i) l = absurd (omega arith)
kernel-Waits (mutex_list (suc n)) = none-Waits (λ t e. ground (arith, waits_for_0 _ t e))
kernel-Waits (sem_list n) = none-Waits (λ t e. ground (arith, waits_for_0 _ t e))
kernel-Waits (send_list n) = none-Waits (λ t e. ground (arith, waits_for_0 _ t e))
kernel-Waits (recv_list n) = none-Waits (λ t e. ground (arith, waits_for_0 _ t e))

kernel-IsSound : (t : ℕ) → IsSound 4 1 t (tasks t)
kernel-IsSound zero = record {
  waiting = λ r e. ground arith;
  reason = λ r e. ground arith;
  mutex_wait = λ e. ground arith;
  one_running = λ e. ground arith;
  in_range = λ l. omega arith;
}
kernel-IsSound (suc zero) = record {
  waiting = λ r e. ground arith;
  reason = λ r e. ground arith;
  mutex_wait = λ e. ground arith;
  one_running = λ e. ground arith;
  in_range = λ l. omega arith;
}
kernel-IsSound (suc (suc zero)) = record {
  waiting = λ r e. ground arith;
  reason = λ r e. ground arith;
  mutex_wait = λ e. ground arith;
  one_running = λ e. ground arith;
  in_range = λ l. omega arith;
}
kernel-IsSound (suc (suc (suc zero))) = record {
  waiting = λ r e. ground arith;
  reason = λ r e. ground arith;
  mutex_wait = λ e. ground arith;
  one_running = λ e. ground arith;
  in_range = λ l. omega arith;
}
kernel-IsSound (suc (suc (suc (suc t)))) = record {
  waiting = λ r e. ground arith;
  reason = λ r e. ground arith;
  mutex_wait = λ e. ground arith;
  one_running = λ e. ground arith;
  in_range = λ l. omega arith;
}

pub kernel-Inv : Inv kernel
kernel-Inv = record {
  count_max = omega arith;
  cur_in_range = omega arith;
  sound = kernel-IsSound;
  members = kernel-Waits;
  policies = by_list;
}
  where
    by_list : (r : WaitlistRef) → is_policy (lists r).schedule_policy ≡ true
    by_list (mutex_list zero) = refl
    by_list (mutex_list (suc n)) = refl
    by_list (sem_list n) = refl
    by_list (send_list n) = refl
    by_list (recv_list n) = refl

abbrev owner_of : ℕ → Option ℕ
owner_of m = (mutexes m).owner

owned_by_1 : (m : ℕ) → owner_of m ≡ some 1 → (m ≡ 0) ⊎ (m ≡ 2)
owned_by_1 zero e = ground arith
owned_by_1 (suc zero) e = ground arith
owned_by_1 (suc (suc zero)) e = ground arith
owned_by_1 (suc (suc (suc zero))) e = ground arith
owned_by_1 (suc (suc (suc (suc m)))) e = ground arith

owned_by_3 : (m : ℕ) → owner_of m ≡ some 3 → m ≡ 3
owned_by_3 zero e = ground arith
owned_by_3 (suc zero) e = ground arith
owned_by_3 (suc (suc zero)) e = ground arith
owned_by_3 (suc (suc (suc zero))) e = ground arith
owned_by_3 (suc (suc (suc (suc m)))) e = ground arith

owned_by_none : (t m : ℕ) → t ≢ 1 → t ≢ 3 → owner_of m ≢ some t
owned_by_none t zero n n' e = ground arith
owned_by_none t (suc zero) n n' e = ground arith
owned_by_none t (suc (suc zero)) n n' e = ground arith
owned_by_none t (suc (suc (suc zero))) n n' e = ground arith
owned_by_none t (suc (suc (suc (suc m)))) n n' e = ground arith

nothing_owned : (t : ℕ) → t ≢ 1 → t ≢ 3 → Lists owner_of t (λ _. none) 0
nothing_owned t n n' = record {
  few = omega arith;
  owned_by = λ i l. absurd (omega arith);
  once = λ i j m l. absurd (omega arith);
  all = λ m e. absurd (owned_by_none t m n n' e);
}

kernel-Lists : (t : ℕ) → Lists owner_of t (tasks t).owned_mutexes (tasks t).owned_mutex_count
kernel-Lists zero = nothing_owned 0 (omega arith) (omega arith)
kernel-Lists (suc zero) = record {
  few = omega arith;
  owned_by = entry;
  once = distinct;
  all = λ m e. elim (owned_by_1 m e) [
    | inl p ↦ (0, omega arith, ap some (sym p))
    | inr p ↦ (1, omega arith, ap some (sym p))
  ];
}
  where
    entry : (i : ℕ) → i < 2 → (m : ℕ) × ((tasks 1).owned_mutexes i ≡ some m) × (owner_of m ≡ some 1)
    entry zero l = (0, refl, refl)
    entry (suc zero) l = (2, refl, refl)
    entry (suc (suc i)) l = absurd (omega arith)

    distinct :
        (i j m : ℕ)
        → i < 2
        → j < 2
        → (tasks 1).owned_mutexes i ≡ some m
        → (tasks 1).owned_mutexes j ≡ some m
        → i ≡ j
    distinct zero zero m l l' a b = refl
    distinct zero (suc zero) m l l' a b = ground arith
    distinct (suc zero) zero m l l' a b = ground arith
    distinct (suc zero) (suc zero) m l l' a b = refl
    distinct (suc (suc i)) j m l l' a b = absurd (omega arith)
    distinct i (suc (suc j)) m l l' a b = absurd (omega arith)
kernel-Lists (suc (suc zero)) = nothing_owned 2 (omega arith) (omega arith)
kernel-Lists (suc (suc (suc zero))) = record {
  few = omega arith;
  owned_by = λ i l. (3, refl, refl);
  once = λ i j m l l' a b. omega arith;
  all = λ m e. (0, omega arith, ap some (sym (owned_by_3 m e)));
}
kernel-Lists (suc (suc (suc (suc t)))) =
    nothing_owned (suc (suc (suc (suc t)))) (omega arith) (omega arith)

kernel-free :
    (m : ℕ)
    → (mutexes m).state ≡ unlocked
    → (owner_of m ≡ none) × ((lists (mutex_list m)).wait_count ≡ 0)
kernel-free zero e = ground arith
kernel-free (suc zero) e = ground arith
kernel-free (suc (suc zero)) e = ground arith
kernel-free (suc (suc (suc zero))) e = ground arith
kernel-free (suc (suc (suc (suc m)))) e = ground arith

kernel-held : (m : ℕ) → (mutexes m).state ≡ locked → (t : ℕ) × (owner_of m ≡ some t)
kernel-held zero e = (1, refl)
kernel-held (suc zero) e = (0, ground arith)
kernel-held (suc (suc zero)) e = (1, refl)
kernel-held (suc (suc (suc zero))) e = (3, refl)
kernel-held (suc (suc (suc (suc m)))) e = (0, ground arith)

pub kernel-Healthy : Healthy kernel
kernel-Healthy = record {
  inv = kernel-Inv;
  owns = record { tables = kernel-Lists; free = λ m _. kernel-free m; held = λ m _. kernel-held m };
}

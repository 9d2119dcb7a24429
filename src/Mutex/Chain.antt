-- ===== src/Mutex/Chain.antt =====
-- The loops of `mutex_donate_priority` and `mutex_recompute_owner_priority` along a chain of owners:
-- they come to an end without a fault, and change nothing but effective priorities.
use ko_rtos.Base.{
  ℕ, ◌≤◌, ◌<◌, ◌≡◌, refl, sym, ap, subst, ◌∙◌, inl, inr, Option, none, some, true, Option-cases,
  arith,
}
use mathlib.Core.Path.{fun_ext}
use ko_rtos.Types.{Kernel, Tcb, WaitlistRef, sem_list, mutex_list, send_list, recv_list}
use ko_rtos.Mutex.{waits_for_mutex, owner_of, cast_waitlist_to_mutex, next_owner, set_effective}
use ko_rtos.Mutex.Ownership.{OwnsBut}
use ko_rtos.Invariant.{Inv, on, update_ind, reason_of}

-- A kernel without its effective priorities.
abbrev pub blank_tcb : Tcb → Tcb
blank_tcb b = record b { effective_priority = 0 }

abbrev pub blank : Kernel → Kernel
blank k = record k { user_tasks = λ t. blank_tcb (k.user_tasks t) }

-- The two kernels differ in effective priorities only.
abbrev pub SameBut : Kernel → Kernel → Type 0
SameBut k l = blank l ≡ blank k

pub set_effective-SameBut : (t p : ℕ) (k : Kernel) → SameBut k (set_effective k t p)
set_effective-SameBut t p k =
    ap (λ f. record k { user_tasks = f })
      (fun_ext (
        update_ind (λ u (b : Tcb). blank_tcb b ≡ blank_tcb (k.user_tasks u)) k.user_tasks t _ refl
          (λ u _. refl)))

-- No task's effective priority is below its own.
abbrev pub Boosted : Kernel → Type 0
Boosted k = (t : ℕ) → 0 < t → (k.user_tasks t).effective_priority ≤ (k.user_tasks t).base_priority

Inv-blank : (k : Kernel) → Inv k → Inv (blank k)
Inv-blank k v = record {
  count_max = v.count_max;
  cur_in_range = v.cur_in_range;
  sound = λ t. record {
    waiting = (v.sound t).waiting;
    reason = (v.sound t).reason;
    mutex_wait = (v.sound t).mutex_wait;
    one_running = (v.sound t).one_running;
    in_range = λ h. (omega arith, ((v.sound t).in_range h).1);
  };
  members = λ r. record {
    few = (v.members r).few;
    waits = (v.members r).waits;
    once = (v.members r).once;
    listed = (v.members r).listed;
  };
  policies = v.policies;
}

Inv-unblank : (k : Kernel) → Boosted k → Inv (blank k) → Inv k
Inv-unblank k h v = record {
  count_max = v.count_max;
  cur_in_range = v.cur_in_range;
  sound = λ t. record {
    waiting = (v.sound t).waiting;
    reason = (v.sound t).reason;
    mutex_wait = (v.sound t).mutex_wait;
    one_running = (v.sound t).one_running;
    in_range = λ p. (h t p, ((v.sound t).in_range p).1);
  };
  members = λ r. record {
    few = (v.members r).few;
    waits = (v.members r).waits;
    once = (v.members r).once;
    listed = (v.members r).listed;
  };
  policies = v.policies;
}

pub SameBut-Inv : {k l : Kernel} → SameBut k l → Boosted l → Inv k → Inv l
SameBut-Inv {k} {l} e h v = Inv-unblank l h (subst Inv (sym e) (Inv-blank k v))

Owns-blank : {hole : Option ℕ} (k : Kernel) → OwnsBut hole k → OwnsBut hole (blank k)
Owns-blank k v = record { tables = v.tables; free = v.free; held = v.held }

Owns-unblank : {hole : Option ℕ} (k : Kernel) → OwnsBut hole (blank k) → OwnsBut hole k
Owns-unblank k v = record { tables = v.tables; free = v.free; held = v.held }

pub SameBut-Owns : {hole : Option ℕ} {k l : Kernel} → SameBut k l → OwnsBut hole k → OwnsBut hole l
SameBut-Owns {hole} {k} {l} e v = Owns-unblank l (subst (OwnsBut hole) (sym e) (Owns-blank k v))

-- A task that waits for a mutex points to a mutex's list, so that the cast is right.
pub next_owner-total :
    (t : ℕ) (k : Kernel)
    → waits_for_mutex (k.user_tasks t).block_reason ≡ true
    → Inv k
    → (o : Option ℕ) × (next_owner t k ≡ some o)
unfolding next_owner
next_owner-total t k h v = elim (Option-cases (on k.user_tasks t)) [
  | inl e ↦ (none, rw (e, cast_waitlist_to_mutex))
  | inr (r, e) ↦ go r e ((v.sound t).reason r e)
]
  where
    go :
        (r : WaitlistRef)
        → on k.user_tasks t ≡ some r
        → (k.user_tasks t).block_reason ≡ reason_of r
        → (o : Option ℕ) × (next_owner t k ≡ some o)
    go (mutex_list m) e q = (owner_of k (some m), rw (e, cast_waitlist_to_mutex))
    go (sem_list m) e q = absurd (ground arith)
    go (send_list m) e q = absurd (ground arith)
    go (recv_list m) e q = absurd (ground arith)

-- The semaphores and their lists are the same.
pub record Aside (k l : Kernel) : Type 0 where
  pub semaphores : l.semaphores ≡ k.semaphores
  pub lists : (s : ℕ) → l.waitlists (sem_list s) ≡ k.waitlists (sem_list s)

pub SameBut-Aside : (k l : Kernel) → SameBut k l → Aside k l
SameBut-Aside k l e = record {
  semaphores = ap (λ (x : Kernel). x.semaphores) e;
  lists = λ s. ap (λ (x : Kernel). x.waitlists (sem_list s)) e;
}

pub Aside-trans : (k l m : Kernel) → Aside k l → Aside l m → Aside k m
Aside-trans k l m a b = record {
  semaphores = b.semaphores ∙ a.semaphores;
  lists = λ s. b.lists s ∙ a.lists s;
}

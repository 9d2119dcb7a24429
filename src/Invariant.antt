-- ===== src/Invariant.antt =====
-- The consistency of the kernel's tables (kernel/kernel.c): the tasks, the current task and the
-- waitlists agree with one another.
pub mod Blocking
pub mod Waking
pub mod Switching
pub mod Unblocking
pub mod Creating
use ko_rtos.Base.{
  ℕ, suc, ◌≤◌, ◌<◌, ◌≡◌, refl, sym, ap, subst, ◌∙◌, ◌≢◌, Option, none, some, true, false, update,
  update_self, update_ne, ◌==◌, if_ind, arith,
}
use native.Mathlib.Decide.{ℕ_discrete}
use ko_rtos.Types.{
  Kernel, Tcb, Waitlist, WaitlistRef, sem_list, mutex_list, send_list, recv_list, BlockReason,
  on_sem, on_mutex, on_queue_send, on_queue_recv, SchedulePolicy, ready, running, blocked,
  os_max_tasks, os_priority_lowest,
}
use ko_rtos.Semaphore.{is_policy}
use ko_rtos.Waitlist.Members.{Waits, Waits-congr}

abbrev pub on : (ℕ → Tcb) → ℕ → Option WaitlistRef
on tasks t = (tasks t).blocked_waitlist

-- The reason that goes with a list.
abbrev pub reason_of : WaitlistRef → BlockReason
reason_of (sem_list _) = on_sem
reason_of (mutex_list _) = on_mutex
reason_of (send_list _) = on_queue_send
reason_of (recv_list _) = on_queue_recv

-- What a task's own block says about it, at index `t` where `cur` is the current task.
pub record IsSound (count cur t : ℕ) (b : Tcb) : Type 0 where
  pub waiting :
      (r : WaitlistRef)
      → b.blocked_waitlist ≡ some r
      → (b.current_state ≡ blocked) × (0 < t) × (t < count)
  pub reason : (r : WaitlistRef) → b.blocked_waitlist ≡ some r → b.block_reason ≡ reason_of r
  pub mutex_wait : b.block_reason ≡ on_mutex → (b.current_state ≡ blocked) × (0 < t)
  pub one_running : b.current_state ≡ running → t ≡ cur
  pub in_range :
      0 < t → (b.effective_priority ≤ b.base_priority) × (b.base_priority ≤ os_priority_lowest)

pub record IsConsistent (tasks : ℕ → Tcb) (count cur : ℕ) (lists : WaitlistRef → Waitlist)
    : Type 0 where
  pub count_max : count ≤ os_max_tasks
  pub cur_in_range : cur < count
  pub sound : (t : ℕ) → IsSound count cur t (tasks t)
  pub members : (r : WaitlistRef) → Waits (lists r) (on tasks) r
  pub policies : (r : WaitlistRef) → is_policy (lists r).schedule_policy ≡ true

-- The fields of the kernel that consistency speaks of are four; a write of another keeps it.
abbrev pub Inv : Kernel → Type 0
Inv k = IsConsistent k.user_tasks k.task_count k.current_task k.waitlists

-- What holds at each index holds after the write of one entry.
pub update_ind {ℓ κ} :
    {A : Type ℓ} (P : ℕ → A → Type κ) (f : ℕ → A) (i : ℕ) (a : A)
    → P i a
    → ((j : ℕ) → j ≢ i → P j (f j))
    → (j : ℕ) → P j (update f i a j)
update_ind P f i a h g j = elim (ℕ_discrete j i) [
  | yes e ↦ rw e (rw (update_self f i a) h)
  | no n ↦ rw (update_ne f i j a (λ e. n (sym e))) (g j n)
]

module _ {tasks : ℕ → Tcb} {count cur : ℕ} {lists : WaitlistRef → Waitlist} where
  -- A write of a task's block that leaves it on its list.
  pub write-IsConsistent :
      (t : ℕ) (b : Tcb)
      → b.blocked_waitlist ≡ (tasks t).blocked_waitlist
      → IsSound count cur t b
      → IsConsistent tasks count cur lists
      → IsConsistent (update tasks t b) count cur lists
  write-IsConsistent t b e s v = record {
    count_max = v.count_max;
    cur_in_range = v.cur_in_range;
    sound = update_ind (IsSound count cur) tasks t b s (λ j _. v.sound j);
    members = λ r.
        Waits-congr (update_ind (λ j c. c.blocked_waitlist ≡ on tasks j) tasks t b e (λ j _. refl))
          (v.members r);
    policies = v.policies;
  }

-- ===== src/System/Runs.antt =====
-- The kernel as a whole, with the calls on mutexes: those of kernel/kernel.c and the steps of System.
-- A step is a call that comes to a result; the write of a fifth mutex into a task's table is a fault.
-- `os_mutex_unlock` is called by a task that runs, and a mutex is created while it is unlocked.
-- Outside of a critical section `os_mutex_lock` recomputes priorities, after its task was woken and
-- after a block that was refused: there each write is a step of its own, so that ticks and the calls
-- of other tasks may come between. System/Settling is about a resumed lock and these steps.
use ko_rtos.Base.{ℕ, ◌≤◌, ◌≡◌, sym, ap, subst, ◌∙◌, ◌≢◌, Option, none, some, inl, inr}
use ko_rtos.Types.{Kernel, Reply, OsErr, unlocked, running, current}
use ko_rtos.Mutex.{set_effective, os_mutex_create, os_mutex_lock, os_mutex_unlock}
use ko_rtos.Mutex.Ownership.{IsOwned, Owns}
use ko_rtos.Mutex.Frame.{list-IsOwned, waitlist_block_current-Owns, os_tick-Owns}
use ko_rtos.Mutex.Recompute.{Healthy, set_effective-Healthy}
use ko_rtos.Mutex.Consistency.{
  Safe, os_mutex_create-Healthy, os_mutex_lock-Safe, os_mutex_unlock-Safe,
}
use ko_rtos.Queue.Consistency.{MayBlock}
use ko_rtos.Invariant.{Inv}
use ko_rtos.Queue.{Received}
use ko_rtos.System.Ownership.{
  awake-Owns, os_task_create-Owns, os_task_delay-Owns, os_kernel_start-Owns, pendsv_handler-Owns,
  os_sem_create-Owns, os_sem_wait-Owns, os_sem_post-Owns,
}
use ko_rtos.System.Queues.{
  Property, Of, Frame, Keeps, KeepsItem, os_queue_create-Kept, os_queue_send_from_task-Kept,
  os_queue_send_resume-Kept, os_queue_send_from_isr-Kept, os_queue_recv_from_task-Kept,
  os_queue_recv_resume-Kept,
}
use ko_rtos.System.{
  Step, create, start, switch, tick, delay, sem_create, sem_wait, sem_post, queue_create, send,
  send_resume, send_from_isr, recv, recv_resume, Step-Inv, some-injective_lem,
}

pub data Event (k : Kernel) : Kernel → Type 0 where
  plain : {l : Kernel} → Step k l → Event k l
  mutex_create : (m : ℕ) → (k.mutexes m).state ≡ unlocked → Event k (os_mutex_create (some m) k).1
  lock :
      (m : Option ℕ) (timeout : ℕ) {reply : Reply} {l : Kernel}
      → MayBlock timeout k
      → os_mutex_lock m timeout k ≡ some (reply, l)
      → Event k l
  -- A write of `mutex_recompute_owner_priority` with interrupts on, or of `mutex_donate_priority`. The
  -- search for the highest priority begins at the base priority; what it then reads may be out of
  -- date when it writes, and so may the owner, so that any such value may be written to any task.
  settle : (t h : ℕ) → h ≤ (k.user_tasks t).base_priority → Event k (set_effective k t h)
  unlock :
      (m : Option ℕ) {reply : OsErr} {l : Kernel}
      → (current k).current_state ≡ running
      → os_mutex_unlock m k ≡ some (reply, l)
      → Event k l

-- Any sequence of events. Each holds where the conditions of its constructor do.
pub data Run (k : Kernel) : Kernel → Type 0 where
  none_yet : Run k k
  then : {l m : Kernel} → Run k l → Event l m → Run k m

-- The property that a call keeps, of the kernel that it leaves.
pub kept :
    (P : Property) {o : Option (Reply × Kernel)} {reply : Reply} {l : Kernel}
    → Keeps P o
    → o ≡ some (reply, l)
    → Of P l
kept P (r, l', e', v) e = subst (Of P) (ap (λ x. x.1) (some-injective_lem (sym e' ∙ e))) v

pub kept_item :
    (P : Property) {o : Option Received} {reply : Reply} {got : Option (ℕ → ℕ)} {l : Kernel}
    → KeepsItem P o
    → o ≡ some (reply, got, l)
    → Of P l
kept_item P (r, g, l', e', v) e = subst (Of P) (ap (λ x. x.2) (some-injective_lem (sym e' ∙ e))) v

abbrev owned : Property
owned = λ tasks mutexes semaphores lists. IsOwned none tasks mutexes lists

owned-Frame : Frame owned
owned-Frame = record {
  blocks = λ r timeout reason prev k g v.
      waitlist_block_current-Owns r timeout reason prev k (λ m e. absurd ((g m).0 e)) v;
  wakes = λ r k v w. awake-Owns r k v w;
  inits = λ r policy k g v. list-IsOwned r _ (λ m n q e z. absurd ((g m).0 q)) v;
}

Step-Owns : {k l : Kernel} → Inv k → Owns k → Step k l → Owns l
Step-Owns i v (create handler prio base size) = os_task_create-Owns handler prio base size _ v
Step-Owns i v (start a b c) = os_kernel_start-Owns a b c _ v
Step-Owns i v (switch psp) = pendsv_handler-Owns psp _ v
Step-Owns i v tick = os_tick-Owns _ v
Step-Owns i v (delay ticks r) = os_task_delay-Owns ticks _ v
Step-Owns i v (sem_create s count policy e) = os_sem_create-Owns s count policy _ v
Step-Owns i v (sem_wait s timeout n r) = os_sem_wait-Owns s timeout _ v
Step-Owns i v (sem_post s e) =
    let (l', e', w) = os_sem_post-Owns s _ i v in
    subst Owns (ap (λ x. x.1) (some-injective_lem (sym e' ∙ e))) w
Step-Owns i v (queue_create q buffer item_size max_items policy a b) =
    os_queue_create-Kept owned owned-Frame q buffer item_size max_items policy _ v
Step-Owns i v (send q item timeout m e) =
    kept owned (os_queue_send_from_task-Kept owned owned-Frame _ i v q item timeout) e
Step-Owns i v (send_resume q item timeout deadline m e) =
    kept owned (os_queue_send_resume-Kept owned owned-Frame _ i v q item timeout deadline) e
Step-Owns i v (send_from_isr q item e) =
    kept owned (os_queue_send_from_isr-Kept owned owned-Frame _ i v q item) e
Step-Owns i v (recv q item timeout m e) =
    kept_item owned (os_queue_recv_from_task-Kept owned owned-Frame _ i v q item timeout) e
Step-Owns i v (recv_resume q item timeout deadline m e) =
    kept_item owned (os_queue_recv_resume-Kept owned owned-Frame _ i v q item timeout deadline) e

safe :
    {R : Type 0} {k : Kernel} {o : Option (R × Kernel)} {reply : R} {l : Kernel}
    → Safe k o
    → o ≡ some (reply, l)
    → Healthy l
safe (inl n) e = absurd (none-some n e)
  where
    none-some : {R : Type 0} {o : Option (R × Kernel)} {x : R × Kernel} → o ≡ none → o ≢ some x
    none-some n e = cc
safe (inr (r, l', e', v, _)) e = subst Healthy (ap (λ x. x.1) (some-injective_lem (sym e' ∙ e))) v

-- One event.
pub Event-Healthy : {k l : Kernel} → Healthy k → Event k l → Healthy l
Event-Healthy v (plain s) = record { inv = Step-Inv v.inv s; owns = Step-Owns v.inv v.owns s }
Event-Healthy v (mutex_create m e) = os_mutex_create-Healthy m _ e v
Event-Healthy v (lock m timeout b e) = safe (os_mutex_lock-Safe m timeout _ b v) e
Event-Healthy v (settle t h le) = set_effective-Healthy none t h _ le v
Event-Healthy v (unlock m s e) = safe (os_mutex_unlock-Safe m _ s v) e

-- From healthy tables, every sequence of events leads to healthy tables.
pub Run-Healthy : {k l : Kernel} → Healthy k → Run k l → Healthy l
Run-Healthy v none_yet = v
Run-Healthy v (then r e) = Event-Healthy (Run-Healthy v r) e

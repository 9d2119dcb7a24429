-- ===== src/System.antt =====
-- The kernel as a whole: the calls of kernel/kernel.c and the interrupts as the steps of one system.
-- A call that may block is made by a running task that is not the idle task, and an initialisation by
-- the owner of a list on which no task waits. System/Runs adds the calls on mutexes.
mod Ownership
mod Queues
mod Units
pub mod Runs
pub mod Reset
pub mod Conservation
pub mod Exclusion
pub mod Settling
use ko_rtos.Base.{ℕ, ◌≡◌, ◌≢◌, subst, sym, ◌∙◌, ap, Option, none, some}
use ko_rtos.Types.{
  Kernel, Reply, ok, SchedulePolicy, sem_list, send_list, recv_list, running, current,
}
use ko_rtos.Tick.{os_tick}
use ko_rtos.Task.{os_task_create, os_task_delay, os_kernel_start, pendsv_handler}
use ko_rtos.Semaphore.{os_sem_create, os_sem_wait, os_sem_post}
use ko_rtos.Queue.{
  os_queue_create, os_queue_send_from_task, os_queue_send_resume, os_queue_send_from_isr,
  os_queue_recv_from_task, os_queue_recv_resume,
}
use ko_rtos.Invariant.{Inv}
use ko_rtos.Invariant.Waking.{os_tick-Inv}
use ko_rtos.Task.Consistency.{
  os_task_create-Inv, os_task_delay-Inv, os_kernel_start-Inv, pendsv_handler-Inv,
}
use ko_rtos.Semaphore.Consistency.{os_sem_create-Inv, os_sem_wait-Inv, os_sem_post-Inv}
use ko_rtos.Queue.Consistency.{
  MayBlock, Keeps, KeepsItem, os_queue_create-Inv, os_queue_send_from_task-Inv,
  os_queue_send_resume-Inv, os_queue_send_from_isr-Inv, os_queue_recv_from_task-Inv,
  os_queue_recv_resume-Inv,
}

pub data Step (k : Kernel) : Kernel → Type 0 where
  create :
      (handler prio : ℕ) (base : Option ℕ) (size : ℕ)
      → Step k (os_task_create handler prio base size k).1
  start :
      (idle_handler idle_stack idle_size : ℕ)
      → Step k (os_kernel_start idle_handler idle_stack idle_size k)
  switch : (psp : ℕ) → Step k (pendsv_handler psp k).1
  tick : Step k (os_tick k)
  delay : (ticks : ℕ) → (current k).current_state ≡ running → Step k (os_task_delay ticks k)
  sem_create :
      (s count : ℕ) (policy : SchedulePolicy)
      → (k.waitlists (sem_list s)).wait_count ≡ 0
      → Step k (os_sem_create (some s) count policy k).1
  sem_wait :
      (s : Option ℕ) (timeout : ℕ)
      → k.current_task ≢ 0
      → (current k).current_state ≡ running
      → Step k (os_sem_wait s timeout k).1
  sem_post : (s : ℕ) {l : Kernel} → os_sem_post (some s) k ≡ some (ok, l) → Step k l
  queue_create :
      (q : ℕ) (buffer : Option (ℕ → ℕ)) (item_size max_items : ℕ) (policy : SchedulePolicy)
      → (k.waitlists (send_list q)).wait_count ≡ 0
      → (k.waitlists (recv_list q)).wait_count ≡ 0
      → Step k (os_queue_create (some q) buffer item_size max_items policy k).1
  send :
      (q : Option ℕ) (item : Option (ℕ → ℕ)) (timeout : ℕ) {reply : Reply} {l : Kernel}
      → MayBlock timeout k
      → os_queue_send_from_task q item timeout k ≡ some (reply, l)
      → Step k l
  send_resume :
      (q : ℕ) (item : ℕ → ℕ) (timeout deadline : ℕ) {reply : Reply} {l : Kernel}
      → MayBlock timeout k
      → os_queue_send_resume q item timeout deadline k ≡ some (reply, l)
      → Step k l
  send_from_isr :
      (q : Option ℕ) (item : Option (ℕ → ℕ)) {reply : Reply} {l : Kernel}
      → os_queue_send_from_isr q item k ≡ some (reply, l)
      → Step k l
  recv :
      (q : Option ℕ) (item : Option (ℕ → ℕ)) (timeout : ℕ) {reply : Reply} {got : Option (ℕ → ℕ)}
      {l : Kernel}
      → MayBlock timeout k
      → os_queue_recv_from_task q item timeout k ≡ some (reply, got, l)
      → Step k l
  recv_resume :
      (q : ℕ) (item : ℕ → ℕ) (timeout deadline : ℕ) {reply : Reply} {got : Option (ℕ → ℕ)}
      {l : Kernel}
      → MayBlock timeout k
      → os_queue_recv_resume q item timeout deadline k ≡ some (reply, got, l)
      → Step k l

-- Any sequence of steps.
pub data Reach (k : Kernel) : Kernel → Type 0 where
  here : Reach k k
  after : {l m : Kernel} → Reach k l → Step l m → Reach k m

content : {A : Type 0} → A → Option A → A
content d none = d
content d (some a) = a

pub some-injective_lem : {A : Type 0} {a b : A} → some a ≡ some b → a ≡ b
unfolding content
some-injective_lem {a = a} e = ap (content a) e

keeps :
    {o : Option (Reply × Kernel)} {reply : Reply} {l : Kernel}
    → Keeps o
    → o ≡ some (reply, l)
    → Inv l
keeps (r, l', e', v) e = subst Inv (ap (λ x. x.1) (some-injective_lem (sym e' ∙ e))) v

keeps_item :
    {o : Option (Reply × Option (ℕ → ℕ) × Kernel)} {reply : Reply} {got : Option (ℕ → ℕ)}
    {l : Kernel}
    → KeepsItem o
    → o ≡ some (reply, got, l)
    → Inv l
keeps_item (r, g, l', e', v) e = subst Inv (ap (λ x. x.2) (some-injective_lem (sym e' ∙ e))) v

Step-Inv : {k l : Kernel} → Inv k → Step k l → Inv l
Step-Inv v (create handler prio base size) = os_task_create-Inv handler prio base size _ v
Step-Inv v (start a b c) = os_kernel_start-Inv a b c _ v
Step-Inv v (switch psp) = pendsv_handler-Inv psp _ v
Step-Inv v tick = os_tick-Inv _ v
Step-Inv v (delay ticks r) = os_task_delay-Inv ticks _ r v
Step-Inv v (sem_create s count policy e) = os_sem_create-Inv s count policy _ e v
Step-Inv v (sem_wait s timeout n r) = os_sem_wait-Inv s timeout _ n r v
Step-Inv v (sem_post s e) =
    let (l', e', w) = os_sem_post-Inv s _ v in
    subst Inv (ap (λ x. x.1) (some-injective_lem (sym e' ∙ e))) w
Step-Inv v (queue_create q buffer item_size max_items policy a b) =
    os_queue_create-Inv q buffer item_size max_items policy _ a b v
Step-Inv v (send q item timeout m e) = keeps (os_queue_send_from_task-Inv q item timeout _ m v) e
Step-Inv v (send_resume q item timeout deadline m e) =
    keeps (os_queue_send_resume-Inv q item timeout deadline _ m v) e
Step-Inv v (send_from_isr q item e) = keeps (os_queue_send_from_isr-Inv q item _ v) e
Step-Inv v (recv q item timeout m e) =
    keeps_item (os_queue_recv_from_task-Inv q item timeout _ m v) e
Step-Inv v (recv_resume q item timeout deadline m e) =
    keeps_item (os_queue_recv_resume-Inv q item timeout deadline _ m v) e

-- From a kernel whose tables are consistent, every sequence of the steps leads to one: creations of
-- tasks, semaphores and queues, the start, context switches, ticks, delays, waits and posts, and
-- sends and receives with their resumptions, in any order.
pub Reach-Inv : {k l : Kernel} → Inv k → Reach k l → Inv l
Reach-Inv v here = v
Reach-Inv v (after r s) = Step-Inv (Reach-Inv v r) s

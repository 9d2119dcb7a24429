-- ===== src/System/Conservation.antt =====
-- The units of the semaphores and the tasks that wait for them, under the events of System/Runs.
use ko_rtos.Base.{ℕ, ◌<◌, ◌≡◌, ◌≢◌, refl, sym, ap, subst, ◌∙◌, Option, none, some, inl, inr}
use ko_rtos.Types.{Kernel, sem_list, mutex_list}
use ko_rtos.Mutex.{os_mutex_create, set_effective}
use ko_rtos.Mutex.Chain.{Aside, SameBut-Aside, set_effective-SameBut}
use ko_rtos.Mutex.Recompute.{Healthy}
use ko_rtos.Mutex.Consistency.{Safe, os_mutex_lock-Safe, os_mutex_unlock-Safe}
use ko_rtos.Invariant.{Inv}
use ko_rtos.System.Queues.{
  Property, Frame, os_queue_create-Kept, os_queue_send_from_task-Kept, os_queue_send_resume-Kept,
  os_queue_send_from_isr-Kept, os_queue_recv_from_task-Kept, os_queue_recv_resume-Kept,
}
use ko_rtos.System.Units.{
  Spent, NoUnitLeft, list-Spent, block-NoUnitLeft, awake-NoUnitLeft, os_tick-NoUnitLeft,
  os_task_create-NoUnitLeft, os_task_delay-NoUnitLeft, os_kernel_start-NoUnitLeft,
  pendsv_handler-NoUnitLeft, os_sem_create-NoUnitLeft, os_sem_wait-NoUnitLeft,
  os_sem_post-NoUnitLeft,
}
use ko_rtos.System.Runs.{
  Event, plain, mutex_create, lock, settle, unlock, Run, none_yet, then, kept, kept_item,
  Event-Healthy,
}
use ko_rtos.System.{
  Step, create, start, switch, tick, delay, sem_create, sem_wait, sem_post, queue_create, send,
  send_resume, send_from_isr, recv, recv_resume, some-injective_lem,
}
use ko_rtos.System.Reset.{reset_kernel, reset-Healthy}

abbrev spent : Property
spent = λ tasks mutexes semaphores lists. Spent semaphores lists

spent-Frame : Frame spent
spent-Frame = record {
  blocks = λ r timeout reason prev k g v.
      block-NoUnitLeft r timeout reason prev k (λ s e. absurd ((g s).1 e)) v;
  wakes = λ r k v w. awake-NoUnitLeft r k v w;
  inits = λ r policy k g v. list-Spent r _ (λ s q p z. absurd ((g s).1 q)) v;
}

Step-NoUnitLeft : {k l : Kernel} → Inv k → NoUnitLeft k → Step k l → NoUnitLeft l
Step-NoUnitLeft i v (create handler prio base size) =
    os_task_create-NoUnitLeft handler prio base size _ v
Step-NoUnitLeft i v (start a b c) = os_kernel_start-NoUnitLeft a b c _ v
Step-NoUnitLeft i v (switch psp) = pendsv_handler-NoUnitLeft psp _ v
Step-NoUnitLeft i v tick = os_tick-NoUnitLeft _ v
Step-NoUnitLeft i v (delay ticks r) = os_task_delay-NoUnitLeft ticks _ v
Step-NoUnitLeft i v (sem_create s count policy e) = os_sem_create-NoUnitLeft s count policy _ e v
Step-NoUnitLeft i v (sem_wait s timeout n r) = os_sem_wait-NoUnitLeft s timeout _ v
Step-NoUnitLeft i v (sem_post s e) =
    let (l', e', w) = os_sem_post-NoUnitLeft s _ i v in
    subst NoUnitLeft (ap (λ x. x.1) (some-injective_lem (sym e' ∙ e))) w
Step-NoUnitLeft i v (queue_create q buffer item_size max_items policy a b) =
    os_queue_create-Kept spent spent-Frame q buffer item_size max_items policy _ v
Step-NoUnitLeft i v (send q item timeout m e) =
    kept spent (os_queue_send_from_task-Kept spent spent-Frame _ i v q item timeout) e
Step-NoUnitLeft i v (send_resume q item timeout deadline m e) =
    kept spent (os_queue_send_resume-Kept spent spent-Frame _ i v q item timeout deadline) e
Step-NoUnitLeft i v (send_from_isr q item e) =
    kept spent (os_queue_send_from_isr-Kept spent spent-Frame _ i v q item) e
Step-NoUnitLeft i v (recv q item timeout m e) =
    kept_item spent (os_queue_recv_from_task-Kept spent spent-Frame _ i v q item timeout) e
Step-NoUnitLeft i v (recv_resume q item timeout deadline m e) =
    kept_item spent (os_queue_recv_resume-Kept spent spent-Frame _ i v q item timeout deadline) e

-- Where the semaphores and their lists are the same.
Aside-NoUnitLeft : (k l : Kernel) → Aside k l → NoUnitLeft k → NoUnitLeft l
Aside-NoUnitLeft k l a v = record {
  nobody = λ s p.
      ap (λ x. x.wait_count) (a.lists s) ∙ v.nobody s (subst (λ x. 0 < (x s).count) a.semaphores p);
}

Safe-NoUnitLeft :
    {R : Type 0} (k : Kernel) {o : Option (R × Kernel)} {reply : R} {l : Kernel}
    → Safe k o
    → o ≡ some (reply, l)
    → NoUnitLeft k
    → NoUnitLeft l
Safe-NoUnitLeft k (inl n) e v = absurd (none-some n e)
  where
    none-some : {R : Type 0} {o : Option (R × Kernel)} {x : R × Kernel} → o ≡ none → o ≢ some x
    none-some n e = cc
Safe-NoUnitLeft k (inr (r, l', e', h, a)) e v =
    subst NoUnitLeft (ap (λ x. x.1) (some-injective_lem (sym e' ∙ e))) (Aside-NoUnitLeft k l' a v)

Event-NoUnitLeft : {k l : Kernel} → Healthy k → NoUnitLeft k → Event k l → NoUnitLeft l
unfolding os_mutex_create
Event-NoUnitLeft h v (plain s) = Step-NoUnitLeft h.inv v s
Event-NoUnitLeft h v (mutex_create m e) = list-Spent (mutex_list m) _ (λ s q p z. cc) v
Event-NoUnitLeft h v (lock m timeout b e) =
    Safe-NoUnitLeft _ (os_mutex_lock-Safe m timeout _ b h) e v
Event-NoUnitLeft {k} h v (settle t p le) =
    let l = set_effective k t p in
    Aside-NoUnitLeft k l (SameBut-Aside k l (set_effective-SameBut t p k)) v
Event-NoUnitLeft h v (unlock m s e) = Safe-NoUnitLeft _ (os_mutex_unlock-Safe m _ s h) e v

Run-NoUnitLeft : {k l : Kernel} → Healthy k → NoUnitLeft k → Run k l → Healthy l × NoUnitLeft l
Run-NoUnitLeft h v none_yet = (h, v)
Run-NoUnitLeft h v (then r e) =
    let (h', v') = Run-NoUnitLeft h v r in (Event-Healthy h' e, Event-NoUnitLeft h' v' e)

-- From reset, after any sequence of the events of System/Runs, no task waits for a semaphore that has
-- a unit. The conditions of the events are: a call comes to a result, without a fault such as the
-- write of a fifth mutex into a task's table; a semaphore or a queue is created while no task waits
-- for it, and a mutex while it is unlocked; a call that may block is made by a running task other
-- than the idle task, and a delay and an unlock by a running task. The writes of priorities that
-- os_mutex_lock makes with interrupts on are events of their own.
pub reset_kernel-NoUnitLeft :
    (memory : ℕ → ℕ) {l : Kernel}
    → Run (reset_kernel memory) l
    → (s : ℕ) → 0 < (l.semaphores s).count
    → (l.waitlists (sem_list s)).wait_count ≡ 0
reset_kernel-NoUnitLeft memory r =
    let (h, v) = Run-NoUnitLeft (reset-Healthy memory) (record { nobody = λ s p. refl }) r in
    v.nobody

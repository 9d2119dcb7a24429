-- ===== src/Scheduler/Switch.antt =====
-- The whole of `os_schedule_next_task`.
use mathlib.Core.Path.{fun_ext}
use ko_rtos.Base.{
  ℕ, ◌<◌, ◌≡◌, ◌≢◌, ◌⊎◌, inl, inr, ap, leb, refl, arith, if_ind, if◌then◌else◌, ◌==◌, ◌&&◌,
  Bool-cases, subst,
}
use ko_rtos.Types.{Kernel, Tcb, current, ready, running}
use ko_rtos.Scheduler.{
  is_running, round_robin, chosen, stop_running, run_task, os_schedule_next_task,
}
use ko_rtos.Invariant.{update_ind}
use native.Mathlib.Decide.{ℕ_discrete}
use ko_rtos.Scheduler.Pick.{NoneReady, Next, round_robin-Next}

-- `k` with its running task ready again.
abbrev pub rested : Kernel → Kernel
rested k = record k {
  user_tasks = λ t.
      if (t == k.current_task) && is_running (k.user_tasks t).current_state
      then record (k.user_tasks t) { current_state = ready }
      else k.user_tasks t;
}

-- `l` is `k` with the task that the round robin chooses among `k`'s made the running one.
pub record Dispatches (k l : Kernel) : Type 0 where
  pub choice : NoneReady k l.current_task ⊎ Next k l.current_task
  pub runs :
      l.user_tasks l.current_task ≡ record (k.user_tasks l.current_task) { current_state = running }
  pub others : (t : ℕ) → t ≢ l.current_task → l.user_tasks t ≡ k.user_tasks t
  pub lists : l.waitlists ≡ k.waitlists

run_task-Dispatches :
    (k : Kernel)
    → k.current_task < k.task_count
    → Dispatches k (run_task k (chosen (round_robin k)))
unfolding run_task
run_task-Dispatches k h = record {
  choice = round_robin-Next k h;
  runs = ground arith;
  others = λ t n. ground arith;
  lists = refl;
}

stop_running-rested : (k : Kernel) → stop_running k ≡ rested k
unfolding stop_running
stop_running-rested k =
    let at_rest : ℕ → Tcb → Type 0 = λ t b. b ≡ (rested k).user_tasks t in
    elim (Bool-cases (is_running (current k).current_state)) [
      | inl e ↦ rw e (
          ap (λ f. record k { user_tasks = f })
            (fun_ext (
              update_ind at_rest k.user_tasks k.current_task _ (ground arith)
                (λ t n. ground arith))))
      | inr e ↦ rw e (
          ap (λ f. record k { user_tasks = f })
            (fun_ext (λ t. elim (ℕ_discrete t k.current_task) [
              | yes q ↦ ground (arith, ap (λ x. is_running (k.user_tasks x).current_state) q)
              | no n ↦ ground arith
            ])))
    ]

stop_running-fields :
    (k : Kernel)
    → ((stop_running k).current_task ≡ k.current_task)
      × ((stop_running k).task_count ≡ k.task_count)
unfolding stop_running
stop_running-fields k = ground arith

switch-Dispatches :
    (k : Kernel)
    → 1 < k.task_count
    → k.current_task < k.task_count
    → Dispatches (stop_running k) (os_schedule_next_task k)
unfolding os_schedule_next_task
switch-Dispatches k h l =
    if_ind (Dispatches (stop_running k)) (leb (stop_running k).task_count 1)
      (λ e. absurd (ground (arith, stop_running-fields k)))
      (λ e. run_task-Dispatches (stop_running k) (omega (arith, stop_running-fields k)))

-- With a user task beside the idle task, the context switch makes the task that is running ready
-- again, and then runs the ready task that no other outranks and that comes first in the round
-- among its equals, the task that ran last coming last; it runs the idle task only if no user task
-- of a valid priority is ready. Nothing else in the tasks' blocks and in the waitlists changes.
pub os_schedule_next_task-Dispatches :
    (k : Kernel)
    → 1 < k.task_count
    → k.current_task < k.task_count
    → Dispatches (rested k) (os_schedule_next_task k)
os_schedule_next_task-Dispatches k h l =
    subst (λ x. Dispatches x (os_schedule_next_task k)) (stop_running-rested k)
      (switch-Dispatches k h l)

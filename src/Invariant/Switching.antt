-- ===== src/Invariant/Switching.antt =====
-- `os_schedule_next_task` keeps the tables consistent and leaves one task running.
use ko_rtos.Base.{
  ℕ, ◌<◌, ◌≡◌, refl, subst, ◌≢◌, ◌⊎◌, none, some, true, false, inl, inr, leb, Option-cases, if_ind,
  arith,
}
use ko_rtos.Types.{Kernel, Tcb, WaitlistRef, TaskState, on_mutex, running, blocked, current}
use ko_rtos.Waitlist.Members.{Waits-congr}
use ko_rtos.Scheduler.{
  is_running, round_robin, chosen, stop_running, run_task, os_schedule_next_task,
}
use ko_rtos.Scheduler.Pick.{NoneReady, Next, round_robin-Next}
use ko_rtos.Invariant.{on, IsSound, Inv, update_ind, write-IsConsistent}

-- After the first statement no task is running.
record Stopped (k l : Kernel) : Type 0 where
  inv : Inv l
  none_running : (t : ℕ) → (l.user_tasks t).current_state ≢ running
  same_count : l.task_count ≡ k.task_count
  same_current : l.current_task ≡ k.current_task

is_running_iff : (s : TaskState) → is_running s ≡ false → s ≢ running
is_running_iff s h e = ground arith

stop_running-Stopped : (k : Kernel) → Inv k → Stopped k (stop_running k)
unfolding stop_running
stop_running-Stopped k v =
    if_ind (Stopped k) (is_running (current k).current_state)
      (λ e. record {
        inv =
            write-IsConsistent k.current_task _ refl
              (record {
                waiting = λ r q.
                    let b = ((v.sound k.current_task).waiting r q).0 in absurd (not_both e b);
                reason = (v.sound k.current_task).reason;
                mutex_wait = λ q. absurd (not_both e ((v.sound k.current_task).mutex_wait q).0);
                one_running = λ q. refl;
                in_range = (v.sound k.current_task).in_range;
              })
              v;
        none_running =
            update_ind (λ t (b : Tcb). b.current_state ≢ running) k.user_tasks k.current_task _
              (λ q. cc) (λ t n q. n ((v.sound t).one_running q));
        same_count = refl;
        same_current = refl;
      })
      (λ e. record {
        inv = v;
        none_running = λ t q.
            is_running_iff (current k).current_state e
              (subst (λ x. (k.user_tasks x).current_state ≡ running) ((v.sound t).one_running q) q);
        same_count = refl;
        same_current = refl;
      })
  where
    not_both : {s : TaskState} → is_running s ≡ true → s ≢ blocked
    not_both e q = ground arith

-- A task that is not blocked is made the current one and runs.
run_task-Inv :
    (k : Kernel) (t : ℕ)
    → ((u : ℕ) → (k.user_tasks u).current_state ≢ running)
    → on k.user_tasks t ≡ none
    → (k.user_tasks t).block_reason ≢ on_mutex
    → t < k.task_count
    → Inv k
    → Inv (run_task k t)
unfolding run_task
run_task-Inv k t n off free l v = record {
  count_max = v.count_max;
  cur_in_range = l;
  sound =
      update_ind (IsSound k.task_count t) k.user_tasks t _
        (record {
          waiting = λ r q. absurd (not_listed r q);
          reason = λ r q. absurd (not_listed r q);
          mutex_wait = λ q. absurd (free q);
          one_running = λ _. refl;
          in_range = (v.sound t).in_range;
        })
        (λ u _. record {
          waiting = (v.sound u).waiting;
          reason = (v.sound u).reason;
          mutex_wait = (v.sound u).mutex_wait;
          one_running = λ q. absurd (n u q);
          in_range = (v.sound u).in_range;
        });
  members = λ r.
      Waits-congr
        (update_ind (λ u (b : Tcb). b.blocked_waitlist ≡ on k.user_tasks u) k.user_tasks t _ refl
          (λ u _. refl))
        (v.members r);
  policies = v.policies;
}
  where
    not_listed : (r : WaitlistRef) → on k.user_tasks t ≢ some r
    not_listed r q = cc

-- A blocked user task is not chosen.
not_blocked_user :
    (k : Kernel) (t : ℕ)
    → NoneReady k t ⊎ Next k t
    → (k.user_tasks t).current_state ≡ blocked
    → ¬ (0 < t)
not_blocked_user k t (inl n) b pos = omega (arith, n.idle)
not_blocked_user k t (inr n) b pos = ground (arith, n.has_prio)

-- The chosen task is on no waitlist, and waits for no mutex.
chosen-off : (k : Kernel) (t : ℕ) → Inv k → NoneReady k t ⊎ Next k t → on k.user_tasks t ≡ none
chosen-off k t v c = elim (Option-cases (on k.user_tasks t)) [
  | inl e ↦ e
  | inr (r, e) ↦ let (b, pos, _) = (v.sound t).waiting r e in absurd (not_blocked_user k t c b pos)
]

chosen-free :
    (k : Kernel) (t : ℕ)
    → Inv k
    → NoneReady k t ⊎ Next k t
    → (k.user_tasks t).block_reason ≢ on_mutex
chosen-free k t v c e = let (b, pos) = (v.sound t).mutex_wait e in not_blocked_user k t c b pos

pub os_schedule_next_task-Inv : (k : Kernel) → Inv k → Inv (os_schedule_next_task k)
unfolding os_schedule_next_task
os_schedule_next_task-Inv k v =
    let s = stop_running-Stopped k v in
    let c = round_robin-Next (stop_running k) (s.inv.cur_in_range) in
    if_ind Inv (leb (stop_running k).task_count 1) (λ _. s.inv)
      (λ _.
        run_task-Inv (stop_running k) (chosen (round_robin (stop_running k))) s.none_running
          (chosen-off (stop_running k) _ s.inv c) (chosen-free (stop_running k) _ s.inv c)
          (range c s.inv.cur_in_range) s.inv)
  where
    range :
        {k : Kernel} {t : ℕ}
        → NoneReady k t ⊎ Next k t
        → k.current_task < k.task_count
        → t < k.task_count
    range (inl n) h = omega (arith, n.idle)
    range (inr n) h = n.exists

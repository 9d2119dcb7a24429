-- ===== src/Tick/Deadline.antt =====
-- Deadlines on the 32-bit tick counter: when a delay is over, and what a wrap does.
use ko_rtos.Base.{ℕ, ◌+◌, ◌^◌, ◌≤◌, ◌<◌, ◌≡◌, ◌≢◌, false, some, leb, arith}
use ko_rtos.Types.{Kernel, u32, reached, os_wait_forever}
use ko_rtos.Task.{os_task_delay}
use ko_rtos.Queue.{remaining}
use ko_rtos.Tick.{is_due}

-- The counter `j` ticks after `now`.
abbrev pub after : ℕ → ℕ → ℕ
after now j = u32 (now + j)

-- The test finds a deadline of up to 2^31 ticks reached exactly from the tick on at which it is due,
-- for 2^31 ticks, wherever the counter wraps.
pub reached-after :
    (now d j : ℕ)
    → now < 2 ^ 32
    → d ≤ 2 ^ 31
    → j < 2 ^ 31
    → reached (after now j) (after now d) ≡ leb d j
reached-after now d j h l m = ground arith

-- A user task that delays itself for `d` ticks, at most 2^31, is due when `j` more ticks have passed,
-- fewer than 2^31, exactly if `d` of them have, unless its wakeup tick is the counter value 0, which
-- stands for no deadline.
pub os_task_delay-due :
    (d j : ℕ) (k : Kernel)
    → k.systick_count < 2 ^ 32
    → d ≤ 2 ^ 31
    → j < 2 ^ 31
    → k.current_task ≢ 0
    → after k.systick_count d ≢ 0
    → is_due (record (os_task_delay d k) { systick_count = after k.systick_count j }) k.current_task
      ≡ leb d j
unfolding os_task_delay
os_task_delay-due d j k h l m c z = ground (arith, reached-after k.systick_count d j h l m)

-- Where the wakeup tick of a user task's delay is the counter value 0, the task is never due, whatever
-- the counter says.
pub os_task_delay-lost :
    (d now : ℕ) (k : Kernel)
    → k.current_task ≢ 0
    → after k.systick_count d ≡ 0
    → is_due (record (os_task_delay d k) { systick_count = now }) k.current_task ≡ false
unfolding os_task_delay
os_task_delay-lost d now k c z = ground arith

-- Where there is a deadline and time is left until it, that time is not OS_WAIT_FOREVER, and it ends
-- exactly at the deadline.
pub remaining-deadline :
    (deadline now left : ℕ)
    → deadline < 2 ^ 32
    → now < 2 ^ 32
    → deadline ≢ 0
    → remaining deadline now ≡ some left
    → (left ≢ os_wait_forever) × (u32 (now + left) ≡ deadline)
unfolding remaining
remaining-deadline deadline now left h l z e = ground arith

-- ===== src/Samples/Kernels.antt =====
-- The theorems on tasks, ticks, waitlists and stacks at concrete inputs.
use ko_rtos.Rcc.{
  rcc_get_pclk1, rcc_get_pclk2, system_clk, hpre, ahb_pscal, apb_pscal, ahb_divisor, apb_divisor,
  rcc_get_pclk-divided,
}
use ko_rtos.Base.{ℕ, ◌+◌, ◌-◌, ◌*◌, ◌/◌, ◌%◌, ◌^◌, ◌≡◌, refl, some, false, arith, leb}
use ko_rtos.Types.{mutex_list, priority}
use ko_rtos.Samples.{lists, kernel}
use ko_rtos.Port.{port_init_task_stack_frame}
use ko_rtos.Port.Frame.{FrameAt, port_init_task_stack_frame-FrameAt}
use ko_rtos.Waitlist.{unblock_index}
use ko_rtos.Waitlist.Choice.{HighestFirst, unblock_index-priority}
use ko_rtos.Scheduler.{os_schedule_next_task}
use ko_rtos.Scheduler.Switch.{Dispatches, rested, os_schedule_next_task-Dispatches}
use ko_rtos.Tick.{is_due}
use ko_rtos.Tick.Deadline.{after, os_task_delay-due, os_task_delay-lost}
use ko_rtos.Task.{os_task_delay}

frame_example :
    FrameAt 0x4000 0x1100 (λ _. 7) (port_init_task_stack_frame 0x4000 0x1000 256 (λ _. 7))
frame_example =
    port_init_task_stack_frame-FrameAt 0x4000 0x1000 256 (λ _. 7) refl (omega arith) (omega arith)

unblock_index_example :
    (i : ℕ) × (unblock_index kernel (lists (mutex_list 0)) priority ≡ some i)
    × HighestFirst kernel (lists (mutex_list 0)) i
unblock_index_example =
    unblock_index-priority kernel (lists (mutex_list 0)) 0 2 (omega arith) refl (omega arith)

switch_example : Dispatches (rested kernel) (os_schedule_next_task kernel)
switch_example = os_schedule_next_task-Dispatches kernel (omega arith) (omega arith)

delay-due_example :
    is_due (record (os_task_delay 5 kernel) { systick_count = after 100 4 }) 1 ≡ leb 5 4
delay-due_example =
    os_task_delay-due 5 4 kernel (omega arith) (omega arith) (omega arith) (omega arith)
      (omega arith)

delay-lost_example :
    is_due (record (os_task_delay (2 ^ 32 - 100) kernel) { systick_count = 7 }) 1 ≡ false
delay-lost_example = os_task_delay-lost (2 ^ 32 - 100) 7 kernel (omega arith) refl

-- HSI, AHB divided by 64, APB1 by 4, APB2 not divided
abbrev cfgr : ℕ
cfgr = 12 * 2 ^ 4 + 5 * 2 ^ 10

rcc_example :
    (rcc_get_pclk1 cfgr
      ≡ some (system_clk cfgr / (ahb_divisor (hpre cfgr) * apb_divisor (cfgr / 2 ^ 10 % 2 ^ 3))))
    × (rcc_get_pclk2 cfgr
        ≡ some (system_clk cfgr / (ahb_divisor (hpre cfgr) * apb_divisor (cfgr / 2 ^ 13 % 2 ^ 3))))
rcc_example = rcc_get_pclk-divided cfgr

rcc_pclk : (rcc_get_pclk1 cfgr ≡ some 62_500) × (rcc_get_pclk2 cfgr ≡ some 250_000)
unfolding rcc_get_pclk1 rcc_get_pclk2 ahb_pscal apb_pscal
rcc_pclk = (refl, refl)

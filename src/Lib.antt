-- ===== src/Lib.antt =====
-- KoRTOS: a preemptive kernel with priorities, semaphores, mutexes with priority inheritance and
-- message queues, for one core (Cortex-M4), and drivers of the STM32F446xx.
--
-- The program. kernel/kernel.c holds the tasks (`user_tasks`), the task that runs and the tick
-- counter. A call that has to wait puts its task on the waitlist of a semaphore, a mutex or a queue
-- and requests a context switch; the switch (PendSV_Handler) asks `os_schedule_next_task` for the
-- next task. A post, an unlock, a send or a receive takes a task off the waitlist by the list's
-- policy. The tick (`os_tick`) wakes the tasks whose deadline is reached, and takes them off their
-- waitlist. port/arm/cortex_m4/port.c masks interrupts and builds a task's first stack frame.
--
-- The files.
-- - Types: the structures of kernel/kortos.h, the constants of config/kortos_config.h, and the
--   record Kernel of all state: static variables, the application's objects, PRIMASK, the pending
--   switch, memory. A task, semaphore, mutex or queue is its index; a waitlist's address says whose
--   member it is.
-- - Port: port.c. Waitlist, Scheduler, Tick, Task, Semaphore, Mutex, Queue: the parts of kernel.c,
--   one function per function of the source, under its name, and helpers for loops and tails.
-- - Invariant: the consistency of tasks and waitlists, with one file for each kind of step that
--   keeps it. `<Part>/Consistency` applies it to the calls.
-- - Mutex/Ownership: the agreement of the mutexes' owners with the tasks' tables; with Invariant it
--   makes up `Healthy` (Mutex/Recompute).
-- - Waitlist/Choice, Waitlist/Block, Scheduler/Pick, Scheduler/Switch, Tick/Deadline, Tick/Wakeup,
--   Semaphore/Contract, Mutex/Donation, Mutex/Highest, Mutex/Recompute, Mutex/Locking,
--   Mutex/Unlocking, Mutex/Handover, Mutex/RoundTrip, Queue/Fifo, Queue/Delivery, Port/Frame: what
--   the operations do, against descriptions that are independent of their code.
-- - System: the calls and interrupts of the kernel as the steps of one system; System/Runs adds the
--   calls on mutexes, which Mutex/Consistency is about, and System/Reset the state after reset.
--   System/Exclusion and System/Conservation: what holds after any run from there. System/Ownership,
--   System/Units and System/Queues: what one step keeps; the calls on queues for any property that
--   the record Frame describes.
-- - Rcc: kortos_hal/STM32F446xx/rcc.c, the clocks of the peripheral buses.
-- - Hal: registers. Hal/Address, Hal/Nvic, Hal/Gpio, Hal/Can, Hal/Spi, Hal/Usart, Hal/I2c: the
--   addresses of STM32F446xx.h and the drivers GPIO.c, CAN.c, SPI.c, USART.c and I2C.c of
--   kortos_hal/STM32F446xx, one function per function of the source; the transfers are in
--   Can/Transmit, Can/Receive, and in Transfer and Interrupt of Spi, Usart and I2c. Hal/Fields and
--   Hal/Flags: the lemmas on fields of a register and on flags that are cleared by writing 1.
--   Hal/Nvic/Disable, Gpio/Config, Gpio/Pins, Can/Frame, Can/Polling, Can/Callbacks, Spi/Completion,
--   Usart/Baud, Usart/Line, I2c/Timing, I2c/Polling, I2c/Errors, I2c/Transmission and I2c/Reception:
--   what the drivers do.
--   I2c/Sections, I2c/Steps, I2c/Arrivals and I2c/Buffer: the event handler, one interrupt at a time.
-- - Base: library names and the lemmas on tests, tables and scans that the parts share. Samples:
--   concrete kernels and registers, at which the theorems are applied.
--
-- Conventions. A dereference of NULL and an index outside an array are faults: the result is none.
-- A call that blocks is two steps. The first ends in the reply `suspended`; the second, named
-- `..._resume`, runs when the scheduler runs the task again. Between the two any steps of other tasks
-- and interrupts may come, which is why a resumed send or receive makes a new attempt. A critical
-- section keeps interrupts out and is one transition. Two kinds of calls run with interrupts on:
-- - `os_mutex_lock` recomputes priorities after its task was woken and after a refused block. The
--   transition `settle` of System/Runs is one write of it, of any value that reads which are out of
--   date may have led to, so that other steps come between the writes. Reads that find a NULL entry
--   there are not modelled. System/Settling: the resumption in terms of these
--   writes.
-- - The creations are taken as one transition each: a task, semaphore, mutex or queue is not used
--   before it is created, and `task_count` is written last.
--
-- Integers are natural numbers with the wrap-around of their width written out. Loops are recursion
-- on the number of rounds that are left, which is the source's own bound: OS_MAX_TASKS rounds for the
-- walks along a chain of owners, the length of the list or the table for the others.
-- The waits of CAN.c have the bound CAN_INIT_TIMEOUT; those of SPI.c, USART.c and I2C.c have none
-- in the source, and run on fuel, with the result none where it runs out.
--
-- The hardware behind the registers is not part of the repository: a record Hardware says what a load
-- and a store do to the registers, and each access of a driver is one of the two. `storage` is the
-- hardware that keeps what is written; a run of I2C interrupts shows in SR1, before each, the flags
-- of its event. A theorem on a status register states as a hypothesis how the register behaves. The
-- drivers are not composed with the kernel, which does not call them.
--
-- Not modelled: the idle task's endless loop, the instructions that save and restore registers, the
-- device registers of SysTick and of the interrupt priorities, the start-up code of bsp, and
-- sample_apps.
pub mod Base
pub mod Types
pub mod Port
pub mod Waitlist
pub mod Scheduler
pub mod Tick
pub mod Task
pub mod Semaphore
pub mod Mutex
pub mod Queue
pub mod Invariant
pub mod System
pub mod Hal
pub mod Rcc
mod Samples

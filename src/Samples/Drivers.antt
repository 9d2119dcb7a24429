-- ===== src/Samples/Drivers.antt =====
-- The drivers on concrete registers.
use ko_rtos.Base.{
  ℕ, ◌+◌, ◌-◌, ◌%◌, ◌^◌, ◌<◌, ◌≡◌, refl, ap, ◌∙◌, inl, some, true, false, [], ◌∷◌, update, arith,
}
use Prim.Native.Nat.{bit_and}
use ko_rtos.Base.Bits.{bit, bit-le, bit-and, bit-not}
use ko_rtos.Hal.Fields.{bit-mod}
use ko_rtos.Hal.{Regs, Hardware, storage, not32}
use ko_rtos.Hal.Address.{gpioa, odr, exti_pr, can1, can_tsr, spi1}
use ko_rtos.Hal.Gpio.{
  GpioConfig, gpio_init, gpio_write_output_pin, gpio_toggle_output_pin, gpio_irq_handler,
}
use ko_rtos.Hal.Gpio.Config.{Configured, gpio_init-Configured}
use ko_rtos.Hal.Gpio.Pins.{gpio_output-bits, gpio_irq_handler-clears_all}
use ko_rtos.Hal.Can.{has, CanHandle, CanFrame, khal_ok, after_loads}
use ko_rtos.Hal.Can.Transmit.{load_frame, await_mailbox, can_tx_irq_handler}
use ko_rtos.Hal.Can.Receive.{decode_frame}
use ko_rtos.Hal.Can.Frame.{decode-load}
use ko_rtos.Hal.Can.Polling.{await_mailbox-ready}
use ko_rtos.Hal.Can.Callbacks.{IsRequestFlags, can_tx_irq_handler-calls}
use ko_rtos.Hal.Spi.{SpiState}
use ko_rtos.Hal.Spi.Completion.{interrupts, interrupts_complete}
use ko_rtos.Hal.Usart.{brr_value}
use ko_rtos.Hal.Usart.Baud.{brr_value-nearest}

abbrev blank : Regs
blank = λ a. 0

-- Every store clears the bits at which its word has a 1.
abbrev flag_registers : Hardware
flag_registers = record { reads = λ a m. m; writes = λ a v m. update m a (bit_and (m a) (not32 v)) }

abbrev pin_5 : GpioConfig
pin_5 = record {
  pin_num = 5;
  pin_mode = 2;
  pin_speed = 3;
  pin_pupd = 1;
  pin_out_type = 0;
  pin_alt_fcn_mode = 7;
}

gpio_init_example : Configured gpioa pin_5 blank (gpio_init storage gpioa pin_5 blank)
gpio_init_example = gpio_init-Configured gpioa pin_5 blank (inl (omega arith)) (record {
  pin = omega arith;
  mode = omega arith;
  speed = omega arith;
  pupd = omega arith;
  out_type = omega arith;
  alt_fcn = omega arith;
})

gpio_output_example :
    (bit (gpio_write_output_pin storage gpioa 5 1 blank (gpioa + odr)) 5 ≡ 1)
    × (bit (gpio_toggle_output_pin storage gpioa 5 blank (gpioa + odr)) 5 ≡ 1)
unfolding bit
gpio_output_example = gpio_output-bits gpioa 5 1 5 blank (omega arith) (omega arith)

-- Two interrupts are pending.
abbrev two_pending : Regs
two_pending = update blank exti_pr 0x0101

gpio_irq_example : gpio_irq_handler flag_registers 0 two_pending exti_pr ≡ 0
gpio_irq_example =
    gpio_irq_handler-clears_all flag_registers 0 two_pending
      (record { quiet = λ m. refl; clears = λ v m. refl }) (omega arith) (omega arith) (omega arith)

abbrev extended : CanFrame
extended = record {
  id = 0x1234_5678;
  dlc = 8;
  id_type = 1;
  frame_type = 0;
  payload = λ i. i % 2 ^ 8;
  timestamp = 0;
}

abbrev mailbox : ℕ
mailbox = can1 + 0x180

abbrev fifo : ℕ
fifo = can1 + 0x1b0

-- The FIFO has what the mailbox was loaded with.
abbrev received : Regs
received = λ a. load_frame storage mailbox extended blank (a - 0x30)

decode_example :
    let g = (decode_frame storage fifo extended received).0 in
    (g.id ≡ 0x5678) × (g.dlc ≡ 8) × ((i : ℕ) → i < 8 → g.payload i ≡ i % 2 ^ 8)
decode_example =
    decode-load extended extended mailbox fifo blank received refl (λ j. omega arith)
      (record { identifier = refl; size = refl; low = refl; high = refl })

-- Mailbox 0 is empty, its transmission succeeded, and mailbox 1 has completed a request.
abbrev completed : Regs
completed = update blank (can1 + can_tsr) (2 ^ 26 + 2 ^ 8 + 2 ^ 1 + 2 ^ 0)

ready_example : (await_mailbox storage can1 (2 ^ 26) (2 ^ 1) (2 ^ 0) completed).0 ≡ khal_ok
unfolding after_loads
ready_example =
    await_mailbox-ready storage can1 (2 ^ 26) (2 ^ 1) (2 ^ 0) 0 completed (omega arith)
      (λ j l. absurd (omega arith)) refl

-- A store clears the flags at which its lower 32 bits have a 1.
abbrev request_registers : Hardware
request_registers = record {
  reads = λ a m. m;
  writes = λ a v m. update m a (bit_and (m a) (not32 (v % 2 ^ 32)));
}

request_flags : (a : ℕ) → IsRequestFlags request_registers a
request_flags a = record {
  quiet = λ m. refl;
  clears = λ i v m l e.
      let cut = v % 2 ^ 32 in
      ap (λ x. bit x i) {y = bit_and (m a) (not32 cut)} (ground arith)
      ∙ bit-and (m a) (not32 cut) i
      ∙ ground (
        arith,
        bit-not 32 cut i (omega arith) (omega arith),
        bit-mod 32 v i (omega arith),
        bit-le v i,
        bit-le (m a) i,
      );
}

abbrev can : CanHandle
can = record {
  canx = some can1;
  can_config = record { baud_rate_prescaler = 1; ts1 = 12; ts2 = 1; sjw = 0; mode = 1; ttcm = 0 };
}

callbacks_example :
    let (calls, after) = can_tx_irq_handler request_registers (some can) completed in
    (calls ≡ (0, true) ∷ [])
    × (has (after (can1 + can_tsr)) (2 ^ 0) ≡ false)
    × (has (after (can1 + can_tsr)) (2 ^ 8) ≡ false)
    × (has (after (can1 + can_tsr)) (2 ^ 16) ≡ false)
callbacks_example =
    can_tx_irq_handler-calls request_registers can can1 completed refl
      (request_flags (can1 + can_tsr))

-- Three bytes at address 100 are to be sent.
abbrev sending : SpiState
sending = record {
  handle = record {
    p_spix = spi1;
    spi_config = record {
      device_mode = 1;
      bus_config = 0;
      sclk_speed = 0;
      dff = 0;
      cpol = 0;
      cpha = 0;
      ssm = 1;
    };
    p_rx_buffer = 0;
    p_tx_buffer = 100;
    tx_len = 3;
    rx_len = 0;
    rx_state = 0;
    tx_state = 2;
  };
  regs = blank;
  memory = λ a. a;
  events = [];
}

interrupts_example :
    let (values, t) = interrupts 3 sending in
    (values ≡ 100 ∷ 101 ∷ 102 ∷ [])
    × (t.events ≡ 0 ∷ [])
    × (t.handle.tx_state ≡ 0)
    × (t.handle.tx_len ≡ 0)
interrupts_example = interrupts_complete false 2 sending refl refl (omega arith)

-- 115200 baud at 16 MHz
brr_example : (brr_value 868 false ≡ 139) × (brr_value 868 true ≡ 133)
brr_example = brr_value-nearest 868 (omega arith)

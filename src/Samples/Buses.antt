-- ===== src/Samples/Buses.antt =====
-- The I2C driver on concrete registers.
use ko_rtos.Base.{
  none, ◌↔◌, ℕ, ◌+◌, ◌^◌, ◌<◌, ◌≡◌, refl, some, [], ◌∷◌, if◌then◌else◌, update, arith,
}
use ko_rtos.Base.Bits.{bit}
use ko_rtos.Hal.{Regs, storage}
use ko_rtos.Hal.Fields.{field}
use ko_rtos.Hal.Address.{i2c1, i2c_sr1, i2c_sr2, i2c_cr1, i2c_cr2, i2c_dr}
use ko_rtos.Hal.I2c.{I2cConfig, I2cState, ccr_value, trise_value}
use ko_rtos.Hal.I2c.Polling.{i2c_master_send-unanswered}
use ko_rtos.Hal.I2c.Transfer.{i2c_master_send, i2c_master_send_it, i2c_master_receive_it}
use ko_rtos.Hal.I2c.Interrupt.{i2c_er_irq_handling}
use ko_rtos.Hal.I2c.Sections.{interrupt}
use ko_rtos.Hal.I2c.Transmission.{transmission, transmission_complete, early_btf-closes}
use ko_rtos.Hal.I2c.Reception.{reception, reception_complete}
use ko_rtos.Hal.I2c.Errors.{i2c_er_irq_handling-reports, error_flags, listed}
use ko_rtos.Hal.I2c.Timing.{ccr_value-Timed, trise_value-wraps}

abbrev fast : I2cConfig
fast = record { clk_speed = 400_000; device_addr = 0x61; ack_control = 1; fm_duty_cycle = 0 }

-- The bus's master, with the interrupts of CR2 enabled and the errors BERR and AF in SR1.
abbrev master : Regs
master =
    update (update (update (λ a. 0) (i2c1 + i2c_sr2) 1) (i2c1 + i2c_cr2) 0x0710) (i2c1 + i2c_sr1)
      0x0500

abbrev bus : ℕ → ℕ → I2cState
bus state len = record {
  handle = record {
    p_i2cx = i2c1;
    i2cx_config = fast;
    p_tx_buffer = 100;
    p_rx_buffer = 0;
    tx_len = len;
    rx_len = 0;
    txrxstate = state;
    slave_addr = 0x68;
    rx_size = 0;
    repeated_start = 0;
  };
  regs = master;
  memory = λ a. a;
  events = [];
}

transmission_example :
    let begun = (i2c_master_send_it storage 100 3 0x68 0 (bus 0 0)).1 in
    let (values, u, t) = transmission 3 begun in
    (values ≡ 0xd0 ∷ 100 ∷ 101 ∷ 102 ∷ [])
    × (u.events ≡ [])
    × (u.handle.txrxstate ≡ 1)
    × (t.events ≡ 0 ∷ [])
    × (t.handle.txrxstate ≡ 0)
    × (bit (t.regs (i2c1 + i2c_cr1)) 9 ≡ 1)
transmission_example = transmission_complete 100 3 0x68 0 (bus 0 0) refl refl (omega arith)

reception_example :
    let begun = (i2c_master_receive_it storage 200 2 0x68 0 (bus 0 0)).1 in
    let (u, t) = reception (7 ∷ []) 8 begun in
    (t.memory ≡ update (update (λ a. a) 200 7) 201 8)
    × (u.events ≡ [])
    × (bit (u.regs (i2c1 + i2c_cr1)) 10 ≡ 0)
    × (t.events ≡ 1 ∷ [])
    × (t.handle.txrxstate ≡ 0)
    × (bit (t.regs (i2c1 + i2c_cr1)) 9 ≡ 1)
reception_example = reception_complete 200 0x68 0 (7 ∷ []) 8 (bus 0 0) refl refl (omega arith)

early_btf_example :
    let t = interrupt (2 ^ 7 + 2 ^ 2) (bus 1 2) in
    (t.events ≡ 0 ∷ [])
    × (t.handle.txrxstate ≡ 0)
    × (t.handle.tx_len ≡ 0)
    × (t.regs (i2c1 + i2c_dr) ≡ 0)
    × (bit (t.regs (i2c1 + i2c_cr1)) 9 ≡ bit 0 9)
early_btf_example =
    early_btf-closes 1 (bus 1 2) (record { itbufen = refl; itevten = refl; master = refl }) refl
      refl

errors_example :
    let t = i2c_er_irq_handling storage (bus 1 2) in
    (t.events ≡ 3 ∷ 5 ∷ [])
    × ((i : ℕ)
        → i < 32
        → bit (t.regs (i2c1 + i2c_sr1)) i ≡ (if listed i error_flags then 0 else bit 0x0500 i))
unfolding bit
errors_example = i2c_er_irq_handling-reports (bus 1 2) refl

ccr_example :
    (w : ℕ) × (ccr_value fast 16_000_000 0 ≡ some w)
    × (field 12 0 w ≡ 13)
    × (bit w 15 ≡ 1)
    × (bit w 14 ≡ 0)
ccr_example =
    ccr_value-Timed fast 16_000_000 0 (omega arith) (omega arith) (omega arith) (omega arith)

trise_example : trise_value 400_000 16_000_000 0 ≡ 1
trise_example = trise_value-wraps 400_000 16_000_000 0 (omega arith)

-- SB, BTF and TxE are shown, and AF: the slave did not answer.
abbrev unanswered : Regs
unanswered = update (λ a. 0) (i2c1 + i2c_sr1) 0x0485

unanswered_example :
    (i2c_master_send storage 5 (bus 0 0).handle (λ a. a) 100 3 0x68 0 unanswered ≡ none)
    ↔ (bit 0x0485 1 ≡ 0)
unfolding bit
unanswered_example =
    i2c_master_send-unanswered 4 (bus 0 0).handle (λ a. a) 100 3 0x68 0 unanswered refl refl refl

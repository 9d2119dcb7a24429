-- ===== src/Hal/I2c/Sections.antt =====
-- The sections of `I2C_EV_IRQ_handling` on registers that keep what is written, where the peripheral
-- has shown a word in SR1: which of them act.
use ko_rtos.Base.{ℕ, ◌+◌, ◌/◌, ◌^◌, ◌≡◌, refl, ap, ◌∙◌, true, false, ◌==◌, update, arith}
use Prim.Native.Nat.{bit_and}
use ko_rtos.Base.Bits.{bit, bit-shr}
use ko_rtos.Hal.Fields.{masked-field}
use ko_rtos.Hal.{storage}
use ko_rtos.Hal.Address.{i2c_sr1, i2c_sr2, i2c_cr2}
use ko_rtos.Hal.I2c.{I2cState}
use ko_rtos.Hal.I2c.Interrupt.{
  flag_at, on_event, by_sr2, sb_section, addr_section, btf_section, stopf_section, i2c_txe_section,
  i2c_rxne_section, i2c_ev_irq_handling,
}

-- A flag is a bit.
pub flag-bit : (v i : ℕ) → flag_at v i ≡ (bit v i == 1)
unfolding bit
flag-bit v i =
    let e : i + 0 ≡ i = omega arith in
    let one : bit_and (v / 2 ^ i) 1 ≡ bit v i =
      omega (arith, masked-field 1 0 (v / 2 ^ i) (omega arith), bit-shr v i 0, ap (bit v) e) in
    ap (λ x. x == 1) one

-- The peripheral shows the flags `v`.
abbrev pub shown : ℕ → I2cState → I2cState
shown v s = record s { regs = update s.regs (s.handle.p_i2cx + i2c_sr1) v }

-- An interrupt with the flags `v`.
unfoldable pub interrupt : ℕ → I2cState → I2cState
interrupt v s = i2c_ev_irq_handling storage (shown v s)

-- The flags are those of `v`.
abbrev pub Shows : ℕ → I2cState → Type 0
Shows v s = s.regs (s.handle.p_i2cx + i2c_sr1) ≡ v

-- The peripheral is the bus's master, and the interrupts on events and on the buffer are enabled.
pub record Active (s : I2cState) : Type 0 where
  pub itbufen : flag_at (s.regs (s.handle.p_i2cx + i2c_cr2)) 10 ≡ true
  pub itevten : flag_at (s.regs (s.handle.p_i2cx + i2c_cr2)) 9 ≡ true
  pub master : flag_at (s.regs (s.handle.p_i2cx + i2c_sr2)) 0 ≡ true

-- A change of other registers.
pub Active-same :
    (s t : I2cState)
    → t.regs (t.handle.p_i2cx + i2c_cr2) ≡ s.regs (s.handle.p_i2cx + i2c_cr2)
    → t.regs (t.handle.p_i2cx + i2c_sr2) ≡ s.regs (s.handle.p_i2cx + i2c_sr2)
    → Active s
    → Active t
Active-same s t e f a = record {
  itbufen = ap (λ x. flag_at x 10) e ∙ a.itbufen;
  itevten = ap (λ x. flag_at x 9) e ∙ a.itevten;
  master = ap (λ x. flag_at x 0) f ∙ a.master;
}

module _ (act : I2cState → I2cState) (flag v : ℕ) (s : I2cState) (e : Shows v s) where
  pub section-off : flag_at v flag ≡ false → on_event storage true flag act s ≡ s
  unfolding on_event
  section-off q = rw (ap (λ x. flag_at x flag) e ∙ q) refl

  pub section-on : flag_at v flag ≡ true → on_event storage true flag act s ≡ act s
  unfolding on_event
  section-on q = rw (ap (λ x. flag_at x flag) e ∙ q) refl

pub master_branch :
    (yes_branch no_branch : I2cState → I2cState) (s : I2cState)
    → flag_at (s.regs (s.handle.p_i2cx + i2c_sr2)) 0 ≡ true
    → by_sr2 storage 0 yes_branch no_branch s ≡ yes_branch s
unfolding by_sr2
master_branch yes_branch no_branch s e = rw e refl

module _ (s : I2cState) where
  abbrev pub on_sb : I2cState
  on_sb = on_event storage true 0 (sb_section storage) s

  abbrev pub on_addr : I2cState
  on_addr = on_event storage true 1 (addr_section storage) s

  abbrev pub on_btf : I2cState
  on_btf = on_event storage true 2 (btf_section storage) s

  abbrev pub on_stopf : I2cState
  on_stopf = on_event storage true 4 (stopf_section storage) s

  abbrev pub on_txe : I2cState
  on_txe = on_event storage true 7 (i2c_txe_section storage) s

  abbrev pub on_rxne : I2cState
  on_rxne = on_event storage true 6 (i2c_rxne_section storage) s

abbrev pub sections : I2cState → I2cState
sections s = on_rxne (on_txe (on_stopf (on_btf (on_addr (on_sb s)))))

-- The states after each of the sections.
pub sections-chain :
    (s s₀ s₁ s₂ s₄ s₇ s₆ : I2cState)
    → on_sb s ≡ s₀
    → on_addr s₀ ≡ s₁
    → on_btf s₁ ≡ s₂
    → on_stopf s₂ ≡ s₄
    → on_txe s₄ ≡ s₇
    → on_rxne s₇ ≡ s₆
    → sections s ≡ s₆
sections-chain s s₀ s₁ s₂ s₄ s₇ s₆ a b c d e f =
    ap (λ x. on_rxne (on_txe (on_stopf (on_btf (on_addr x))))) a
    ∙ ap (λ x. on_rxne (on_txe (on_stopf (on_btf x)))) b
    ∙ ap (λ x. on_rxne (on_txe (on_stopf x))) c
    ∙ ap (λ x. on_rxne (on_txe x)) d
    ∙ ap on_rxne e
    ∙ f

pub interrupt-sections : (v : ℕ) (s : I2cState) → Active s → interrupt v s ≡ sections (shown v s)
unfolding interrupt i2c_ev_irq_handling
interrupt-sections v s a =
    let p = s.handle.p_i2cx in
    let cr2 : (shown v s).regs (p + i2c_cr2) ≡ s.regs (p + i2c_cr2) = ground arith in
    rw (cr2, a.itbufen, a.itevten) refl

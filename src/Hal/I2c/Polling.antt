-- ===== src/Hal/I2c/Polling.antt =====
-- The waits of I2C.c, on registers that keep what is written.
use ko_rtos.Base.{
  ℕ, zero, suc, ◌+◌, ◌/◌, ◌^◌, ◌≡◌, refl, ap, ◌∙◌, ◌⊎◌, inl, inr, ◌↔◌, Option, none, some, arith,
}
use Prim.Native.Nat.{bit_and}
use native.Mathlib.Decide.{ℕ_discrete}
use ko_rtos.Base.Bits.{bit, bit-le, bit-shr}
use ko_rtos.Hal.Fields.{masked-field}
use ko_rtos.Types.{◌>>=◌}
use ko_rtos.Hal.{Regs, storage, store}
use ko_rtos.Hal.Address.{i2c_sr1, i2c_dr}
use ko_rtos.Hal.I2c.{
  I2cHandle, i2c_get_flag_status, i2c_generate_start, i2c_execute_addr_phase, i2c_clear_addr_flag,
}
use ko_rtos.Hal.I2c.Transfer.{wait_sr1, address_slave, send_bytes, stop_unless, i2c_master_send}

abbrev pub flag_of : ℕ → ℕ → Regs → ℕ
flag_of p flag m = bit_and (m (p + i2c_sr1) / 2 ^ flag) 1

wait_sr1-clear :
    (fuel p flag : ℕ) (m : Regs) → flag_of p flag m ≡ 0 → wait_sr1 storage fuel p flag m ≡ none
unfolding wait_sr1 i2c_get_flag_status
wait_sr1-clear zero p flag m e = refl
wait_sr1-clear (suc fuel) p flag m e = rw (e, wait_sr1) (wait_sr1-clear fuel p flag m e)

wait_sr1-set :
    (fuel p flag : ℕ) (m : Regs)
    → flag_of p flag m ≡ 1
    → wait_sr1 storage (suc fuel) p flag m ≡ some m
unfolding wait_sr1 i2c_get_flag_status
wait_sr1-set fuel p flag m e = rw (e, wait_sr1) refl

flag_of-bit : (p flag : ℕ) (m : Regs) → flag_of p flag m ≡ bit (m (p + i2c_sr1)) flag
unfolding bit
flag_of-bit p flag m =
    let v = m (p + i2c_sr1) in
    let e : flag + 0 ≡ flag = omega arith in
    omega (arith, masked-field 1 0 (v / 2 ^ flag) (omega arith), bit-shr v flag 0, ap (bit v) e)

-- A wait ends at once with the registers as they are, or never ends.
wait_sr1-outcome :
    (fuel p flag : ℕ) (m : Regs)
    → (wait_sr1 storage fuel p flag m ≡ none) ⊎ (wait_sr1 storage fuel p flag m ≡ some m)
unfolding wait_sr1
wait_sr1-outcome zero p flag m = inl refl
wait_sr1-outcome (suc fuel) p flag m = elim (ℕ_discrete (bit (m (p + i2c_sr1)) flag) 1) [
  | yes e ↦ inr (wait_sr1-set fuel p flag m (flag_of-bit p flag m ∙ e))
  | no n ↦
      let clear : bit (m (p + i2c_sr1)) flag ≡ 0 = omega (arith, bit-le (m (p + i2c_sr1)) flag) in
      inl (wait_sr1-clear (suc fuel) p flag m (flag_of-bit p flag m ∙ clear))
]

-- The address phase never ends while ADDR is not shown.
address_slave-unanswered :
    (polls p slave_addr rw_bit : ℕ) (m : Regs)
    → bit (m (p + i2c_sr1)) 1 ≡ 0
    → address_slave storage polls p slave_addr rw_bit m ≡ none
unfolding address_slave i2c_generate_start i2c_execute_addr_phase
address_slave-unanswered polls p slave_addr rw_bit m e =
    let s = i2c_generate_start storage p m in
    let t = i2c_execute_addr_phase storage p slave_addr rw_bit s in
    let same : flag_of p 1 t ≡ 0 =
      ap (λ v. bit_and (v / 2 ^ 1) 1) {y = m (p + i2c_sr1)} (ground arith)
      ∙ flag_of-bit p 1 m
      ∙ e in
    elim (wait_sr1-outcome polls p 0 s) [
      | inl q ↦ rw (q, ◌>>=◌) refl
      | inr q ↦ rw (q, ◌>>=◌) (wait_sr1-clear polls p 1 t same)
    ]

-- A state of the registers with the same flags.
abbrev Ends : ℕ → Regs → Option Regs → Type 0
Ends p m o = (t : Regs) × (o ≡ some t) × (t (p + i2c_sr1) ≡ m (p + i2c_sr1))

wait_sr1-shown :
    (n p flag : ℕ) (m t : Regs)
    → t (p + i2c_sr1) ≡ m (p + i2c_sr1)
    → bit (m (p + i2c_sr1)) flag ≡ 1
    → wait_sr1 storage (suc n) p flag t ≡ some t
wait_sr1-shown n p flag m t e q =
    wait_sr1-set n p flag t (flag_of-bit p flag t ∙ ap (λ v. bit v flag) e ∙ q)

address_slave-answered :
    (n p slave_addr rw_bit : ℕ) (m : Regs)
    → bit (m (p + i2c_sr1)) 0 ≡ 1
    → bit (m (p + i2c_sr1)) 1 ≡ 1
    → Ends p m (address_slave storage (suc n) p slave_addr rw_bit m)
unfolding address_slave i2c_generate_start i2c_execute_addr_phase
address_slave-answered n p slave_addr rw_bit m sb addr =
    let s = i2c_generate_start storage p m in
    let t = i2c_execute_addr_phase storage p slave_addr rw_bit s in
    let e : s (p + i2c_sr1) ≡ m (p + i2c_sr1) = ground arith in
    let f : t (p + i2c_sr1) ≡ m (p + i2c_sr1) = ground arith in
    (t, rw (wait_sr1-shown n p 0 m s e sb, ◌>>=◌) (wait_sr1-shown n p 1 m t f addr), f)

send_bytes-Ends :
    (len n p : ℕ) (mem : ℕ → ℕ) (buf : ℕ) (m t : Regs)
    → t (p + i2c_sr1) ≡ m (p + i2c_sr1)
    → bit (m (p + i2c_sr1)) 7 ≡ 1
    → Ends p m (send_bytes storage (suc n) p mem buf len t)
unfolding send_bytes
send_bytes-Ends zero n p mem buf m t e txe = (t, refl, e)
send_bytes-Ends (suc len) n p mem buf m t e txe =
    let s = store storage (p + i2c_dr) (mem buf) t in
    let f : s (p + i2c_sr1) ≡ m (p + i2c_sr1) = ground arith in
    let (u, q, g) = send_bytes-Ends len n p mem (buf + 1) m s f txe in
    (u, rw (wait_sr1-shown n p 7 m t e txe, ◌>>=◌) q, g)

module _ (n : ℕ) (h : I2cHandle) (mem : ℕ → ℕ) (buf len slave_addr rs_enable : ℕ) (m : Regs)
    (sb : bit (m (h.p_i2cx + i2c_sr1)) 0 ≡ 1) (txe : bit (m (h.p_i2cx + i2c_sr1)) 7 ≡ 1)
    (btf : bit (m (h.p_i2cx + i2c_sr1)) 2 ≡ 1) where
  i2c_master_send-answered :
      bit (m (h.p_i2cx + i2c_sr1)) 1 ≡ 1
      → (t : Regs) × (i2c_master_send storage (suc n) h mem buf len slave_addr rs_enable m ≡ some t)
  unfolding i2c_master_send i2c_clear_addr_flag
  i2c_master_send-answered addr =
      let p = h.p_i2cx in
      let (t, q, e) = address_slave-answered n p slave_addr 0 m sb addr in
      let (u, r, f) = send_bytes-Ends len n p mem buf m t e txe in
      (
        stop_unless storage rs_enable p u,
        rw (q, ◌>>=◌)
            (rw (r, ◌>>=◌)
              (rw (wait_sr1-shown n p 7 m u f txe, ◌>>=◌)
                (rw (wait_sr1-shown n p 2 m u f btf, ◌>>=◌) refl))),
      )

  -- On registers that keep what is written, with SB, TxE and BTF shown in SR1 and at least one test for
  -- each wait: a blocking transmission of any length has no result exactly while ADDR is not shown.
  pub i2c_master_send-unanswered :
      (i2c_master_send storage (suc n) h mem buf len slave_addr rs_enable m ≡ none)
      ↔ (bit (m (h.p_i2cx + i2c_sr1)) 1 ≡ 0)
  unfolding i2c_master_send
  i2c_master_send-unanswered = (
    λ e. elim (ℕ_discrete (bit (m (h.p_i2cx + i2c_sr1)) 1) 1) [
      | yes q ↦ let (t, r) = i2c_master_send-answered q in absurd (cc)
      | no q ↦ omega (arith, bit-le (m (h.p_i2cx + i2c_sr1)) 1)
    ],
    λ e. rw (address_slave-unanswered (suc n) h.p_i2cx slave_addr 0 m e, ◌>>=◌) refl,
  )

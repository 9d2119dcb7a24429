-- ===== src/Hal/Can/Polling.antt =====
-- The waits of CAN.c: a bounded number of loads of a status register.
use ko_rtos.Base.{
  ℕ, zero, suc, ◌+◌, ◌-◌, ◌<◌, ◌≡◌, refl, ap, ◌∙◌, Bool, Bool-cases, inl, inr, true, false, not,
  if◌then◌else◌, ◌==◌, arith,
}
use ko_rtos.Hal.{Hardware, Regs}
use ko_rtos.Hal.Address.{can_tsr}
use ko_rtos.Hal.Can.{khal_ok, err_tx, err_timeout, can_init_timeout, has, poll, await, after_loads}
use ko_rtos.Hal.Can.Transmit.{await_mailbox}

module _ (hw : Hardware) (a : ℕ) (busy : ℕ → Bool) where
  poll-ready :
      (n k : ℕ) (m : Regs)
      → k < n
      → ((j : ℕ) → j < k → busy (after_loads hw a j m a) ≡ true)
      → busy (after_loads hw a k m a) ≡ false
      → poll hw a busy n m ≡ (n - k, after_loads hw a (suc k) m)
  unfolding poll after_loads
  poll-ready zero k m l wait ready = absurd (omega arith)
  poll-ready (suc n) zero m l wait ready =
      rw (ready, poll) (ap (λ x. (x, hw.reads a m)) {x = suc n} {y = suc n - 0} (omega arith))
  poll-ready (suc n) (suc k) m l wait ready =
      rw (wait zero (omega arith), poll)
        (poll-ready n k (hw.reads a m) (omega arith) (λ j q. wait (suc j) (omega arith)) ready
          ∙ ap (λ x. (x, after_loads hw a (suc k) (hw.reads a m))) {x = n - k} {y = suc n - suc k}
              (omega arith))

  poll-timeout :
      (n : ℕ) (m : Regs)
      → ((j : ℕ) → j < n → busy (after_loads hw a j m a) ≡ true)
      → poll hw a busy n m ≡ (0, after_loads hw a (suc n) m)
  unfolding poll after_loads
  poll-timeout zero m wait = refl
  poll-timeout (suc n) m wait =
      rw (wait zero (omega arith), poll)
        (poll-timeout n (hw.reads a m) (λ j q. wait (suc j) (omega arith)))

-- The mailbox's TME flag is clear in the loads of TSR before the k-th, and set in that one, which
-- is one of the 1000000 that the driver waits for: the transmission succeeds if the next load of
-- TSR has the TXOK flag, and fails otherwise.
pub await_mailbox-ready :
    (hw : Hardware) (p tme txok rqcp k : ℕ) (m : Regs)
    → k < can_init_timeout
    → ((j : ℕ) → j < k → has (after_loads hw (p + can_tsr) j m (p + can_tsr)) tme ≡ false)
    → has (after_loads hw (p + can_tsr) k m (p + can_tsr)) tme ≡ true
    → (await_mailbox hw p tme txok rqcp m).0 ≡ (
        if has (after_loads hw (p + can_tsr) (suc k) m (p + can_tsr)) txok then khal_ok else err_tx)
unfolding await_mailbox await
await_mailbox-ready hw p tme txok rqcp k m l wait ready =
    let q =
      poll-ready hw (p + can_tsr) (λ v. not (has v tme)) can_init_timeout k m l
        (λ j r. ap not (wait j r)) (ap not ready) in
    let left : (can_init_timeout - k == 0) ≡ false = ground arith in
    elim (Bool-cases (has (after_loads hw (p + can_tsr) (suc k) m (p + can_tsr)) txok)) [
      | inl e ↦ rw (q, left, e) refl
      | inr e ↦ rw (q, left, e) refl
    ]

-- While none of the loads of TSR has the TME flag, up to the limit, the transmission times out.
pub await_mailbox-timeout :
    (hw : Hardware) (p tme txok rqcp : ℕ) (m : Regs)
    → ((j : ℕ)
        → j < can_init_timeout
        → has (after_loads hw (p + can_tsr) j m (p + can_tsr)) tme ≡ false)
    → (await_mailbox hw p tme txok rqcp m).0 ≡ err_timeout
unfolding await_mailbox await
await_mailbox-timeout hw p tme txok rqcp m wait =
    let q =
      poll-timeout hw (p + can_tsr) (λ v. not (has v tme)) can_init_timeout m
        (λ j r. ap not (wait j r)) in
    rw q refl

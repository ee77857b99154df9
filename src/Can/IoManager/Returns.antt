-- ===== src/Can/IoManager/Returns.antt =====
-- uc_can_io.cpp: CanIOManager::send returns, where the clock moves on.
use uavcan.Base.{
  ℕ, zero, suc, ◌+◌, ◌-◌, ◌*◌, ◌/◌, ◌^◌, ◌≤◌, ◌<◌, ◌≡◌, sym, ap, subst, ◌∙◌, inl, inr, bit_and,
  bit_or, Bool, true, false, List, Option, none, some, min, if◌then◌else◌, Option-cases, arith,
}
use native.Mathlib.Nat.{add-mul-div_left}
use uavcan.Can.{CanFrame}
use uavcan.Can.TxQueue.{TxQueue, peek}
use uavcan.Can.IoManager.{
  Masks, Driver, IoManager, send_to_iface, send_from_tx_queue, call_select, transmit_requested,
  transmit_one, transmit, send_rounds, send_can_frame, pending_for_send, make_pending_tx_mask, bit,
  queue_at, with_queue, with_driver,
}

-- The fuel did not end.
abbrev pub returns {ℓ} : {A : Type ℓ} → Option A → Bool
returns none = false
returns (some a) = true

reached : (rate t n : ℕ) → 0 < rate → rate * n ≤ t → n ≤ t / rate
reached rate t n pos le =
    let x = t - rate * n in
    let sum : t ≡ x + rate * n = omega arith in
    let quotient : t / rate ≡ x / rate + n = ap (λ m. m / rate) sum ∙ add-mul-div_left x n pos in
    omega (arith, quotient)

-- A clock of a constant rate that never jumps: `ticks` is the time in a state, in a unit of which a
-- microsecond has `rate`; a reading gives the whole microseconds, and takes a tick at least; no other
-- call of the driver goes back in time. Readings in a row may give the same microsecond.
pub record IsTicking {S : Type 0} (d : Driver S) (rate : ℕ) (ticks : S → ℕ) : Type 0 where
  pub some_ticks : 0 < rate
  pub reading : (s : S) → ((d.clock s).0 ≡ ticks s / rate) × (ticks s < ticks (d.clock s).1)
  pub sending :
      (i : ℕ) (f : CanFrame) (deadline flags : ℕ) (s : S)
      → ticks s ≤ ticks (d.send i f deadline flags s).1
  pub selecting :
      (masks : Masks) (pending : List (Option CanFrame)) (deadline : ℕ) (s : S)
      → ticks s ≤ ticks (d.select masks pending deadline s).2

module _ {S : Type 0} (empty : TxQueue) (d : Driver S) (rate : ℕ) (ticks : S → ℕ)
    (ticking : IsTicking d rate ticks) where
  abbrev at : IoManager S → ℕ
  at io = ticks io.driver_state

  send_to_iface-at :
      (i : ℕ) (f : CanFrame) (deadline flags : ℕ) (io : IoManager S)
      → at io ≤ at (send_to_iface empty d i f deadline flags io).1
  unfolding send_to_iface
  send_to_iface-at i f deadline flags io =
      let moved = ticking.sending i f deadline flags io.driver_state in ground arith

  call_select-at :
      (masks : Masks) (pending : List (Option CanFrame)) (deadline : ℕ) (io : IoManager S)
      → at io ≤ at (call_select empty d masks pending deadline io).2
  unfolding call_select
  call_select-at masks pending deadline io =
      let moved = ticking.selecting masks pending deadline io.driver_state in ground arith

  send_from_tx_queue-at :
      (i : ℕ) (io : IoManager S) → at io ≤ at (send_from_tx_queue empty d i io).1
  unfolding send_from_tx_queue
  send_from_tx_queue-at i io =
      let (now, s) = d.clock io.driver_state in
      let read = ticking.reading io.driver_state in
      let (first, q) = peek now (queue_at empty d io i) in
      let io₁ = with_queue empty d (with_driver empty d io s) i q in
      elim (Option-cases first) [
        | inl n ↦ rw (send_from_tx_queue, n) (omega arith)
        | inr (e, found) ↦
            let sent = send_to_iface-at i e.frame e.deadline e.flags io₁ in
            rw (send_from_tx_queue, found) (ground arith)
      ]

  transmit_one-at :
      (i : ℕ) (f : CanFrame) (deadline flags mask : ℕ) (io : IoManager S)
      → at io ≤ at (transmit_one empty d i f deadline flags mask io).2
  unfolding transmit_one transmit_requested
  transmit_one-at i f deadline flags mask io =
      let queued = send_from_tx_queue-at i io in
      let io₁ = (send_from_tx_queue empty d i io).1 in
      let alone = send_to_iface-at i f deadline flags io in
      let after = send_to_iface-at i f deadline flags io₁ in ground arith

  transmit-at :
      (count i : ℕ) (f : CanFrame) (deadline flags write mask retval : ℕ) (io : IoManager S)
      → at io ≤ at (transmit empty d count i f deadline flags write mask retval io).2
  unfolding transmit
  transmit-at zero i f deadline flags write mask retval io = omega arith
  transmit-at (suc count) i f deadline flags write mask retval io =
      let once : ℕ × Bool × IoManager S =
        if bit write i
        then transmit_one empty d i f deadline flags mask io
        else (mask, false, io) in
      let one = transmit_one-at i f deadline flags mask io in
      let first : at io ≤ at once.2 = ground arith in
      let rest =
        transmit-at count (i + 1) f deadline flags write once.0
          (if once.1 then retval + 1 else retval) once.2 in
      omega arith

  -- The reading behind the transmission of a round, and the state after it.
  round-at :
      (masks : Masks) (pending : List (Option CanFrame)) (f : CanFrame)
      (deadline blocking flags mask retval : ℕ) (io : IoManager S)
      → let (res, out, io₁) = call_select empty d masks pending blocking io in
        let (mask', retval', io₂) =
          transmit empty d io₁.num_ifaces 0 f deadline flags out.write mask retval io₁ in
        let (now, s) = d.clock io₂.driver_state in
        ((n : ℕ) → rate * n ≤ at io → n ≤ now) × (at io < ticks s)
  round-at masks pending f deadline blocking flags mask retval io =
      let (res, out, io₁) = call_select empty d masks pending blocking io in
      let selected = call_select-at masks pending blocking io in
      let (mask', retval', io₂) =
        transmit empty d io₁.num_ifaces 0 f deadline flags out.write mask retval io₁ in
      let transmitted = transmit-at io₁.num_ifaces 0 f deadline flags out.write mask retval io₁ in
      let read = ticking.reading io₂.driver_state in
      (
        λ n le.
            subst (λ now. n ≤ now) (sym read.0)
              (reached rate (at io₂) n ticking.some_ticks (omega arith)),
        omega arith,
      )

  send_rounds-returns :
      (fuel : ℕ) (f : CanFrame) (deadline blocking qos flags mask retval : ℕ) (io : IoManager S)
      → rate * blocking ≤ fuel + at io
      → returns (send_rounds empty d (suc fuel) f deadline blocking qos flags mask retval io) ≡ true
  unfolding send_rounds
  send_rounds-returns zero f deadline blocking qos flags mask retval io le =
      let wanted : Masks = record {
        read = 0;
        write = bit_or mask (make_pending_tx_mask empty d io);
      } in
      let pending = pending_for_send empty d io.num_ifaces 0 f mask io in
      let moved = round-at wanted pending f deadline blocking flags mask retval io in
      let late = moved.0 blocking (omega arith) in ground arith
  send_rounds-returns (suc fuel) f deadline blocking qos flags mask retval io le =
      let wanted : Masks = record {
        read = 0;
        write = bit_or mask (make_pending_tx_mask empty d io);
      } in
      let pending = pending_for_send empty d io.num_ifaces 0 f mask io in
      let moved = round-at wanted pending f deadline blocking flags mask retval io in
      let (res, out, io₁) = call_select empty d wanted pending blocking io in
      let (mask', retval', io₂) =
        transmit empty d io₁.num_ifaces 0 f deadline flags out.write mask retval io₁ in
      let io₃ = with_driver empty d io₂ (d.clock io₂.driver_state).1 in
      let rest =
        send_rounds-returns fuel f deadline blocking qos flags mask' retval' io₃ (omega arith) in
      ground arith

  -- A call of send with more fuel than there are ticks of the clock to the earlier of its two
  -- deadlines returns, whatever the driver does, as long as its clock has a constant rate, a reading
  -- takes a tick at least, and no call goes back in time.
  pub send_can_frame-returns :
      (fuel : ℕ) (f : CanFrame) (deadline blocking mask qos flags : ℕ) (io : IoManager S)
      → rate * min blocking deadline ≤ fuel + ticks io.driver_state
      → returns (send_can_frame empty d (suc fuel) f deadline blocking mask qos flags io) ≡ true
  unfolding send_can_frame
  send_can_frame-returns fuel f deadline blocking mask qos flags io le =
      send_rounds-returns fuel f deadline (min blocking deadline) qos flags
        (bit_and mask (2 ^ io.num_ifaces - 1)) 0 io le

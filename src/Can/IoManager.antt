-- ===== src/Can/IoManager.antt =====
-- CanIOManager of libuavcan/src/transport/uc_can_io.cpp over ICanDriver, ICanIface and the system
-- clock, which are interfaces over a state of their own. A result is a count or an error; masks have
-- a bit for each interface.
pub mod Returns
use uavcan.Base.{
  ◌≡◌, refl, ◌⊎◌, inl, inr, ℕ, zero, suc, ◌+◌, ◌-◌, ◌*◌, ◌/◌, ◌%◌, ◌^◌, bit_and, bit_or, Bool, true,
  false, not, ◌&&◌, ◌||◌, List, [], ◌∷◌, ◌++◌, Option, none, some, get_or, set, min, ltb, leb, ◌==◌,
  if◌then◌else◌,
}
use uavcan.Can.{CanFrame}
use uavcan.Can.TxQueue.{
  TxQueue, peek, push, remove, get_top_priority_pending_frame, top_priority_higher_or_equal,
}
use uavcan.Memory.{Pool}

pub data IoResult : Type 0 where
  done failed : ℕ → IoResult

pub IoResult-cases : (r : IoResult) → ((n : ℕ) × (r ≡ done n)) ⊎ ((e : ℕ) × (r ≡ failed e))
IoResult-cases (done n) = inl (n, refl)
IoResult-cases (failed e) = inr (e, refl)

abbrev pub err_driver : ℕ
err_driver = 4

abbrev pub no_interface : ℕ
no_interface = 10

abbrev pub flag_loopback : ℕ
flag_loopback = 1

-- A frame that an interface received, with its time stamps and flags.
pub record RxCan : Type 0 where
  pub frame : CanFrame
  pub ts_mono : ℕ
  pub ts_utc : ℕ
  pub flags : ℕ
  pub iface_index : ℕ

pub record Masks : Type 0 where
  pub read : ℕ
  pub write : ℕ

-- ICanDriver with its interfaces, and ISystemClock::getMonotonic.
pub record Driver (S : Type 0) : Type 0 where
  pub has_iface : ℕ → S → Bool
  pub send : ℕ → CanFrame → (tx_deadline : ℕ) → (flags : ℕ) → S → IoResult × S
  pub receive : ℕ → S → IoResult × RxCan × S
  pub select : Masks → List (Option CanFrame) → (blocking_deadline : ℕ) → S → IoResult × Masks × S
  pub clock : S → ℕ × S
  pub error_count : ℕ → S → ℕ

-- The queues are of the interfaces in turn, and share the pool `pool`.
pub record IoManager (S : Type 0) : Type 0 where
  pub driver_state : S
  pub pool : Pool (List ℕ)
  pub tx_queues : List TxQueue
  pub frames_tx : List ℕ
  pub frames_rx : List ℕ
  pub num_ifaces : ℕ

-- CanIfacePerfCounters.
pub record IfacePerf : Type 0 where
  pub frames_tx : ℕ
  pub frames_rx : ℕ
  pub errors : ℕ

abbrev pub bit : ℕ → ℕ → Bool
bit mask i = not (bit_and mask (2 ^ i) == 0)

module _ {S : Type 0} (empty : TxQueue) (d : Driver S) where
  -- The queue of an interface, with the pool as it is; `empty` stands out of range.
  abbrev pub queue_at : IoManager S → ℕ → TxQueue
  queue_at io i =
      let q = get_or io.tx_queues i empty in
      record q { allocator = record q.allocator { base = io.pool } }

  abbrev pub with_queue : IoManager S → ℕ → TxQueue → IoManager S
  with_queue io i q = record io { tx_queues = set io.tx_queues i q; pool = q.allocator.base }

  abbrev pub with_driver : IoManager S → S → IoManager S
  with_driver io s = record io { driver_state = s }

  unfoldable pub send_to_iface : ℕ → CanFrame → ℕ → ℕ → IoManager S → IoResult × IoManager S
  send_to_iface i frame tx_deadline flags io =
      if not (d.has_iface i io.driver_state)
      then (failed no_interface, io)
      else (let (res, s) = d.send i frame tx_deadline flags io.driver_state in
          elim res [
            | failed e ↦ (failed e, with_driver io s)
            | done n ↦ (
              done n,
              record (with_driver io s) {
                frames_tx = set io.frames_tx i ((get_or io.frames_tx i 0 + n) % 2 ^ 64);
              },
            )
          ])

  -- A result of 0 or less leaves the entry in the queue.
  unfoldable pub send_from_tx_queue : ℕ → IoManager S → IoResult × IoManager S
  send_from_tx_queue i io =
      let (now, s) = d.clock io.driver_state in
      let (first, q) = peek now (queue_at io i) in
      let io₁ = with_queue (with_driver io s) i q in
      elim first [
        | none ↦ (done 0, io₁)
        | some e ↦
            let (res, io₂) = send_to_iface i e.frame e.deadline e.flags io₁ in
            elim res [
              | failed x ↦ (failed x, io₂)
              | done n ↦
                  (done n, if n == 0 then io₂ else with_queue io₂ i (remove 0 e (queue_at io₂ i)))
            ]
      ]

  unfoldable pub call_select :
      Masks → List (Option CanFrame) → ℕ → IoManager S → IoResult × Masks × IoManager S
  call_select masks pending_tx blocking_deadline io =
      let (res, out, s) = d.select masks pending_tx blocking_deadline io.driver_state in
      elim res [
        | failed e ↦ (failed err_driver, out, with_driver io s)
        | done n ↦
            let cleaned : Masks = record {
              read = bit_and out.read masks.read;
              write = bit_and out.write masks.write;
            } in
            (done n, cleaned, with_driver io s)
      ]

  unfoldable pub get_iface_perf_counters : IoManager S → ℕ → IfacePerf
  get_iface_perf_counters io i =
      if not (d.has_iface i io.driver_state) || leb 3 i
      then record { frames_tx = 0; frames_rx = 0; errors = 0 }
      else record {
        frames_tx = get_or io.frames_tx i 0;
        frames_rx = get_or io.frames_rx i 0;
        errors =
            (d.error_count i io.driver_state + (get_or io.tx_queues i empty).rejected_frames_cnt)
            % 2 ^ 64;
      }

  abbrev is_empty : TxQueue → Bool
  is_empty q = elim q.queue [ [] ↦ true | e ∷ es ↦ false ]

  -- The loop of makePendingTxMask, from interface `i` on and over `count` of them.
  unfoldable pub pending_tx_mask : ℕ → ℕ → IoManager S → ℕ
  pending_tx_mask zero i io = 0
  pending_tx_mask (suc count) i io =
      let rest = pending_tx_mask count (i + 1) io in
      if is_empty (get_or io.tx_queues i empty) then rest else bit_or (2 ^ i) rest

  unfoldable pub make_pending_tx_mask : IoManager S → ℕ
  make_pending_tx_mask io = pending_tx_mask io.num_ifaces 0 io

  -- The frames that are shown to the driver, in send and in receive.
  unfoldable pub pending_for_send : ℕ → ℕ → CanFrame → ℕ → IoManager S → List (Option CanFrame)
  pending_for_send zero i frame iface_mask io = []
  pending_for_send (suc count) i frame iface_mask io =
      let q = get_or io.tx_queues i empty in
      let top = get_top_priority_pending_frame q in
      (if bit iface_mask i
        then (if top_priority_higher_or_equal q frame then top else some frame)
        else top)
      ∷ pending_for_send count (i + 1) frame iface_mask io

  unfoldable pub pending_for_receive : ℕ → ℕ → IoManager S → List (Option CanFrame)
  pending_for_receive zero i io = []
  pending_for_receive (suc count) i io =
      get_top_priority_pending_frame (get_or io.tx_queues i empty)
      ∷ pending_for_receive count (i + 1) io

  abbrev is_positive : IoResult → Bool
  is_positive (done n) = ltb 0 n
  is_positive (failed e) = false

  -- The transmission on an interface that the frame is for: the queue first, where it has the
  -- higher priority; the mask that is left, whether something was sent, and the manager.
  unfoldable pub transmit_requested :
      ℕ → CanFrame → ℕ → ℕ → ℕ → IoManager S → ℕ × Bool × IoManager S
  transmit_requested i frame tx_deadline flags iface_mask io =
      let (res, io₁) =
        if top_priority_higher_or_equal (get_or io.tx_queues i empty) frame
        then send_from_tx_queue i io
        else (done 0, io) in
      let (res', io₂) = send_to_iface i frame tx_deadline flags io₁ in
      if is_positive res
      then (iface_mask, true, io₁)
      else if is_positive res'
      then (bit_and iface_mask (2 ^ 8 - 1 - 2 ^ i), true, io₂)
      else (iface_mask, false, io₂)

  -- One round of the loop for transmission; the result of a queue alone is counted as well.
  unfoldable pub transmit_one : ℕ → CanFrame → ℕ → ℕ → ℕ → IoManager S → ℕ × Bool × IoManager S
  transmit_one i frame tx_deadline flags iface_mask io =
      if bit iface_mask i
      then transmit_requested i frame tx_deadline flags iface_mask io
      else (let (res, io₁) = send_from_tx_queue i io in (iface_mask, is_positive res, io₁))

  unfoldable pub transmit :
      ℕ
      → ℕ
      → CanFrame
      → ℕ
      → ℕ
      → (write : ℕ) → (iface_mask : ℕ) → (retval : ℕ) → IoManager S
      → ℕ × ℕ × IoManager S
  transmit zero i frame tx_deadline flags write iface_mask retval io = (iface_mask, retval, io)
  transmit (suc count) i frame tx_deadline flags write iface_mask retval io =
      let (mask', sent, io') =
        if bit write i
        then transmit_one i frame tx_deadline flags iface_mask io
        else (iface_mask, false, io) in
      transmit count (i + 1) frame tx_deadline flags write mask'
        (if sent then retval + 1 else retval) io'

  -- What is left at the deadline goes into the queues; each push reads the clock.
  unfoldable pub enqueue_rest : ℕ → ℕ → CanFrame → ℕ → ℕ → ℕ → ℕ → IoManager S → IoManager S
  enqueue_rest zero i frame tx_deadline qos flags iface_mask io = io
  enqueue_rest (suc count) i frame tx_deadline qos flags iface_mask io =
      let (now, s) = d.clock io.driver_state in
      let pushed =
        with_queue (with_driver io s) i (push now (queue_at io i) frame tx_deadline qos flags) in
      enqueue_rest count (i + 1) frame tx_deadline qos flags iface_mask
        (if bit iface_mask i then pushed else io)

  -- The loop of `send`; `none` where the fuel ends.
  unfoldable pub send_rounds :
      ℕ → CanFrame → ℕ → ℕ → ℕ → ℕ → ℕ → ℕ → IoManager S → Option (IoResult × IoManager S)
  send_rounds zero frame tx_deadline blocking_deadline qos flags iface_mask retval io = none
  send_rounds (suc fuel) frame tx_deadline blocking_deadline qos flags iface_mask retval io =
      let wanted : Masks = record {
        read = 0;
        write = bit_or iface_mask (make_pending_tx_mask io);
      } in
      let (res, masks, io₁) =
        call_select wanted (pending_for_send io.num_ifaces 0 frame iface_mask io) blocking_deadline
          io in
      let (mask', retval', io₂) =
        transmit io₁.num_ifaces 0 frame tx_deadline flags masks.write iface_mask retval io₁ in
      let (now, s) = d.clock io₂.driver_state in
      let io₃ = with_driver io₂ s in
      let rest = send_rounds fuel frame tx_deadline blocking_deadline qos flags mask' retval' io₃ in
      let timed_out = leb blocking_deadline now in
      if iface_mask == 0 then some (done retval, io) else elim res [
        | failed e ↦ some (failed err_driver, io₁)
        | done n ↦
            if masks.write == 0 || timed_out
            then (if not timed_out
                then rest
                else some (
                  done retval',
                  enqueue_rest io₃.num_ifaces 0 frame tx_deadline qos flags mask' io₃,
                ))
            else rest
      ]

  unfoldable pub send_can_frame :
      ℕ → CanFrame → ℕ → ℕ → ℕ → ℕ → ℕ → IoManager S → Option (IoResult × IoManager S)
  send_can_frame fuel frame tx_deadline blocking_deadline iface_mask qos flags io =
      send_rounds fuel frame tx_deadline (min blocking_deadline tx_deadline) qos flags
        (bit_and iface_mask (2 ^ io.num_ifaces - 1)) 0 io

  -- The two loops of `receive`: one frame of each queue is sent, whatever comes of it, and then the
  -- first interface that gives a frame or an error ends the call.
  unfoldable pub flush : ℕ → ℕ → (write : ℕ) → IoManager S → IoManager S
  flush zero i write io = io
  flush (suc count) i write io =
      let (res, io') = send_from_tx_queue i io in
      flush count (i + 1) write (if bit write i then io' else io)

  unfoldable pub read_ifaces :
      ℕ → ℕ → (read : ℕ) → IoManager S → Option (IoResult × Option RxCan) × IoManager S
  read_ifaces zero i read io = (none, io)
  read_ifaces (suc count) i read io =
      let (res, rx, s) = d.receive i io.driver_state in
      let io' = with_driver io s in
      let (behind, io₁) = read_ifaces count (i + 1) read io in
      let (behind', io₂) = read_ifaces count (i + 1) read io' in
      if not (bit read i) || not (d.has_iface i io.driver_state) then (behind, io₁) else elim res [
        | failed e ↦ (some (failed err_driver, none), io')
        | done n ↦ if n == 0 then (behind', io₂) else (
          some (done n, some (record rx { iface_index = i })),
          if bit_and rx.flags flag_loopback == 0
              then record io' {
                frames_rx = set io.frames_rx i ((get_or io.frames_rx i 0 + 1) % 2 ^ 64);
              }
              else io',
        )
      ]

  unfoldable pub receive_can_frame :
      ℕ → ℕ → IoManager S → Option (IoResult × Option RxCan × IoManager S)
  receive_can_frame zero blocking_deadline io = none
  receive_can_frame (suc fuel) blocking_deadline io =
      let wanted : Masks = record {
        read = 2 ^ io.num_ifaces - 1;
        write = make_pending_tx_mask io;
      } in
      let (res, masks, io₁) =
        call_select wanted (pending_for_receive io.num_ifaces 0 io) blocking_deadline io in
      let (got, io₂) =
        read_ifaces io₁.num_ifaces 0 masks.read (flush io₁.num_ifaces 0 masks.write io₁) in
      let (now, s) = d.clock io₂.driver_state in
      let io₃ = with_driver io₂ s in
      let rest = receive_can_frame fuel blocking_deadline io₃ in
      elim res [
        | failed e ↦ some (failed err_driver, none, io₁)
        | done n ↦ elim got [
          | some (out, rx) ↦ some (out, rx, io₂)
          | none ↦ if leb blocking_deadline now then some (done 0, none, io₃) else rest
        ]
      ]

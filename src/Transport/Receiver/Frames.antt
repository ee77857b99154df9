-- ===== src/Transport/Receiver/Frames.antt =====
-- What the receiver does with the frames of a transfer that come in order.
use uavcan.Base.{
  ℕ, ◌+◌, ◌^◌, ◌%◌, ◌≤◌, ◌<◌, ◌≡◌, refl, sym, ap, ◌∙◌, arith, Bool, true, false, not, ◌==◌, List,
  ◌++◌, some, length, length-append,
}
use uavcan.Transport.TransferId.{increment}
use uavcan.Transport.TransferBuffer.Entry.{Entry, Key}
use uavcan.Transport.TransferBuffer.Entry.Refines
use uavcan.Transport.TransferBuffer.Entry.Refines.{contents, room, length-contents}
use uavcan.Transport.TransferBuffer.Manager
use uavcan.Transport.TransferBuffer.Manager.{Manager, write_through}
use uavcan.Transport.TransferBuffer.Manager.Through.{write_through-access}
use uavcan.Transport.Receiver.{
  Receiver, RxFrame, ResultCode, not_complete, complete, validate, validate_order, write_bytes,
  write_payload, receive_payload, access_or_create, stamp, receive, is_stale, need_restart,
  validate_and_receive, add_frame, update_transfer_timings, prepare_for_next_transfer,
}

-- The transfer of the key is under way: its buffer holds `bytes`, and the receiver writes behind
-- them.
pub record IsAssembling (r : Receiver) (m : Manager) (key : Key) (e : Entry) (bytes : List ℕ)
    : Type 0 where
  pub found : Manager.access m key ≡ some e
  pub valid : Refines.IsValid e
  pub holds : contents e ≡ bytes
  pub position : r.buffer_write_pos ≡ e.max_write_pos
  pub narrow : e.max_size < 2 ^ 16

-- A frame that continues the transfer: it is of the receiver's interface, not a first frame, and
-- has the toggle bit and the transfer id that are due.
pub record Continues (r : Receiver) (rx : RxFrame) : Type 0 where
  pub fresh : is_stale r rx ≡ false
  pub going_on : need_restart r rx ≡ false
  pub same_iface : rx.iface_index ≡ r.iface_index
  pub no_start : rx.frame.start_of_transfer ≡ false
  pub due_toggle : rx.frame.toggle ≡ r.next_toggle
  pub due_tid : rx.frame.transfer_id ≡ r.tid

validate-Continues : (r : Receiver) (rx : RxFrame) → Continues r rx → validate r rx ≡ (true, r)
unfolding validate validate_order
validate-Continues r rx c = ground (arith, c.same_iface, c.no_start, c.due_toggle, c.due_tid)

-- The part of `add_frame` that is left for such a frame.
add_frame-Continues :
    (r : Receiver) (rx : RxFrame) (m : Manager) (key : Key)
    → Continues r rx
    → add_frame r rx m key ≡ receive r rx m key
unfolding add_frame validate_and_receive
add_frame-Continues r rx m key c =
    let ok = validate-Continues r rx c in rw (c.fresh, c.going_on, ok) refl

receive-Continues :
    (r : Receiver) (rx : RxFrame) (m : Manager) (key : Key) (e : Entry)
    → rx.frame.start_of_transfer ≡ false
    → Manager.access m key ≡ some e
    → receive r rx m key ≡ receive_payload r rx m key e
unfolding receive stamp access_or_create
receive-Continues r rx m key e no_start found = ground arith

-- What the receiver and the manager are after the payload write.
abbrev moved : Receiver → ℕ → Receiver
moved r len = record r {
  buffer_write_pos = r.buffer_write_pos + len;
  next_toggle = not r.next_toggle;
}

abbrev written : Receiver → Manager → Entry → List ℕ → Manager
written r m e input = (write_through m e r.buffer_write_pos input).0

abbrev outcome : Bool → Receiver → Manager → Entry → List ℕ → ResultCode × Receiver × Manager
outcome true r m e input = (
  complete,
  prepare_for_next_transfer (update_transfer_timings (moved r (length input))),
  written r m e input,
)
outcome false r m e input = (not_complete, moved r (length input), written r m e input)

receive_payload-appended :
    (r : Receiver) (rx : RxFrame) (m : Manager) (key : Key) (e : Entry)
    → rx.frame.start_of_transfer ≡ false
    → (write_through m e r.buffer_write_pos rx.frame.payload).1 ≡ length rx.frame.payload
    → r.buffer_write_pos + length rx.frame.payload < 2 ^ 16
    → receive_payload r rx m key e ≡ outcome rx.frame.end_of_transfer r m e rx.frame.payload
unfolding receive_payload write_payload write_bytes
receive_payload-appended r rx m key e no_start all small =
    let at = r.buffer_write_pos in
    let input = rx.frame.payload in
    let whole : ((write_through m e at input).1 == length input) ≡ true = ground arith in
    let no_wrap : (at + length input) % 2 ^ 16 ≡ at + length input = omega arith in
    ground (arith, whole, no_wrap)

-- The room that a frame needs: within the buffer's limit and the pool.
pub record HasRoom (r : Receiver) (rx : RxFrame) (m : Manager) (e : Entry) : Type 0 where
  pub below_limit : r.buffer_write_pos + length rx.frame.payload ≤ e.max_size
  pub in_pool : r.buffer_write_pos + length rx.frame.payload ≤ room e m.pool

add_frame-appended :
    (r : Receiver) (rx : RxFrame) (m : Manager) (key : Key) (e : Entry) (bytes : List ℕ)
    → IsAssembling r m key e bytes
    → Continues r rx
    → HasRoom r rx m e
    → add_frame r rx m key ≡ outcome rx.frame.end_of_transfer r m e rx.frame.payload
add_frame-appended r rx m key e bytes a c h =
    let w =
      write_through-access m key e r.buffer_write_pos rx.frame.payload a.found a.valid a.position
        h.below_limit h.in_pool in
    add_frame-Continues r rx m key c
    ∙ receive-Continues r rx m key e c.no_start a.found
    ∙ receive_payload-appended r rx m key e c.no_start w.0 (omega (arith, h.below_limit, a.narrow))

-- A frame in the middle of a transfer: its payload goes behind what the buffer holds, the toggle
-- bit changes, and transfer id, CRC and error count stay. Nothing is delivered.
pub add_frame-IsAssembling :
    (r : Receiver) (rx : RxFrame) (m : Manager) (key : Key) (e : Entry) (bytes : List ℕ)
    → IsAssembling r m key e bytes
    → Continues r rx
    → HasRoom r rx m e
    → rx.frame.end_of_transfer ≡ false
    → let res = add_frame r rx m key in
      (res.0 ≡ not_complete)
      × ((e' : Entry) × IsAssembling res.1 res.2 key e' (bytes ++ rx.frame.payload)
          × (e'.max_size ≡ e.max_size)
          × (room e' res.2.pool ≡ room e m.pool))
      × (res.1.next_toggle ≡ not r.next_toggle)
      × (res.1.tid ≡ r.tid)
      × (res.1.this_transfer_crc ≡ r.this_transfer_crc)
      × (res.1.error_cnt ≡ r.error_cnt)
add_frame-IsAssembling r rx m key e bytes a c h middle =
    let input = rx.frame.payload in
    let w =
      write_through-access m key e r.buffer_write_pos input a.found a.valid a.position h.below_limit
        h.in_pool in
    let (e', found, valid, holds, size, same_room) = w.1 in
    let held : length bytes ≡ e.max_write_pos =
      sym (ap length a.holds) ∙ length-contents e a.valid in
    let grown : contents e' ≡ bytes ++ input = holds ∙ ap (λ b. b ++ input) a.holds in
    let position : r.buffer_write_pos + length input ≡ e'.max_write_pos = omega (
      arith,
      a.position,
      held,
      length-contents e' valid,
      ap length grown,
      length-append bytes input,
    ) in
    let form : add_frame r rx m key ≡ outcome false r m e input =
      add_frame-appended r rx m key e bytes a c h ∙ ap (λ b. outcome b r m e input) middle in
    rw form (
      refl,
      (
        e',
        record {
          found = found;
          valid = valid;
          holds = grown;
          position = position;
          narrow = omega (arith, size, a.narrow);
        },
        size,
        same_room,
      ),
      refl,
      refl,
      refl,
      refl,
    )

timings_kept :
    (r : Receiver)
    → let t = update_transfer_timings r in
      (t.tid ≡ r.tid)
      × (t.this_transfer_crc ≡ r.this_transfer_crc)
      × (t.prev_transfer_ts ≡ r.this_transfer_ts)
      × (t.error_cnt ≡ r.error_cnt)
unfolding update_transfer_timings
timings_kept r = ground arith

-- The last frame of a transfer completes it: the buffer that the key finds holds the whole payload,
-- and the receiver waits for the next transfer id at write position 0, with the CRC of the first
-- frame, the transfer's time stamp and no error more.
pub add_frame-complete :
    (r : Receiver) (rx : RxFrame) (m : Manager) (key : Key) (e : Entry) (bytes : List ℕ)
    → IsAssembling r m key e bytes
    → Continues r rx
    → HasRoom r rx m e
    → rx.frame.end_of_transfer ≡ true
    → let res = add_frame r rx m key in
      (res.0 ≡ complete)
      × ((e' : Entry) × (Manager.access res.2 key ≡ some e')
          × Refines.IsValid e'
          × (contents e' ≡ bytes ++ rx.frame.payload))
      × (res.1.tid ≡ increment r.tid)
      × (res.1.next_toggle ≡ false)
      × (res.1.buffer_write_pos ≡ 0)
      × (res.1.this_transfer_crc ≡ r.this_transfer_crc)
      × (res.1.prev_transfer_ts ≡ r.this_transfer_ts)
      × (res.1.error_cnt ≡ r.error_cnt)
unfolding prepare_for_next_transfer
add_frame-complete r rx m key e bytes a c h last =
    let input = rx.frame.payload in
    let w =
      write_through-access m key e r.buffer_write_pos input a.found a.valid a.position h.below_limit
        h.in_pool in
    let (e', found, valid, holds, size, same_room) = w.1 in
    let kept = timings_kept (moved r (length input)) in
    let form : add_frame r rx m key ≡ outcome true r m e input =
      add_frame-appended r rx m key e bytes a c h ∙ ap (λ b. outcome b r m e input) last in
    rw form (
      refl,
      (e', found, valid, holds ∙ ap (λ b. b ++ input) a.holds),
      ap increment kept.0,
      refl,
      refl,
      kept.1,
      kept.2,
      kept.3,
    )

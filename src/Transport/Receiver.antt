-- ===== src/Transport/Receiver.antt =====
-- TransferReceiver of libuavcan/include/uavcan/transport/transfer_receiver.hpp and
-- libuavcan/src/transport/uc_transfer_receiver.cpp, and RxFrame. Times are microseconds below
-- 2^63, so a difference of two of them does not wrap; the interface index is 0, 1 or 2.
-- TransferBufferAccessor is the manager and the key, passed on.
pub mod Frames
pub mod Bounds
use uavcan.Base.{
  ℕ, zero, suc, ◌+◌, ◌-◌, ◌*◌, ◌/◌, ◌%◌, ◌^◌, bit_and, bit_or, Bool, true, false, not, ◌&&◌, ◌||◌,
  List, [], ◌∷◌, Option, none, some, length, get_or, drop, min, max, ltb, leb, ◌==◌, eqb,
  if◌then◌else◌,
}
use uavcan.Transport.Frame.{Frame}
use uavcan.Transport.TransferId.{half, increment, compute_forward_distance}
use uavcan.Transport.TransferBuffer.Entry.{Entry, Key}
use uavcan.Transport.TransferBuffer.Manager
use uavcan.Transport.TransferBuffer.Manager.{Manager}

-- RxFrame.
pub record RxFrame : Type 0 where
  pub frame : Frame
  pub ts_mono : ℕ
  pub ts_utc : ℕ
  pub iface_index : ℕ

-- IfaceIndexNotSet, and the mask of the same value.
abbrev pub iface_index_not_set : ℕ
iface_index_not_set = 3

abbrev pub crc_bytes : ℕ
crc_bytes = 2

abbrev pub max_transfer_interval_msec : ℕ
max_transfer_interval_msec = 0xffff

abbrev pub min_transfer_interval_msec : ℕ
min_transfer_interval_msec = 1

abbrev pub default_tid_timeout_msec : ℕ
default_tid_timeout_msec = 1000

pub record Receiver : Type 0 where
  pub prev_transfer_ts : ℕ
  pub this_transfer_ts : ℕ
  pub first_frame_ts : ℕ
  pub transfer_interval_msec : ℕ
  pub this_transfer_crc : ℕ
  pub buffer_write_pos : ℕ
  pub tid : ℕ
  pub next_toggle : Bool
  pub iface_index : ℕ
  pub error_cnt : ℕ

abbrev pub new_receiver : Receiver
new_receiver = record {
  prev_transfer_ts = 0;
  this_transfer_ts = 0;
  first_frame_ts = 0;
  transfer_interval_msec = 1000;
  this_transfer_crc = 0;
  buffer_write_pos = 0;
  tid = 0;
  next_toggle = false;
  iface_index = iface_index_not_set;
  error_cnt = 0;
}

-- ResultCode.
pub data ResultCode : Type 0 where
  not_complete complete single_frame : ResultCode

abbrev pub is_initialized : Receiver → Bool
is_initialized r = not (r.iface_index == iface_index_not_set)

abbrev pub is_mid_transfer : Receiver → Bool
is_mid_transfer r = ltb 0 r.buffer_write_pos

unfoldable pub register_error : Receiver → Receiver
register_error r = record r { error_cnt = bit_and ((r.error_cnt + 1) % 2 ^ 8) 31 }

-- A time is zero when it is 0.
unfoldable pub update_transfer_timings : Receiver → Receiver
update_transfer_timings r =
    let moved = record r { prev_transfer_ts = r.this_transfer_ts } in
    if not (r.prev_transfer_ts == 0)
      && not (r.this_transfer_ts == 0)
      && leb r.prev_transfer_ts r.this_transfer_ts
    then (let interval = (r.this_transfer_ts - r.prev_transfer_ts) / 1000 in
        let bounded = max (min interval max_transfer_interval_msec) min_transfer_interval_msec in
        record moved {
          transfer_interval_msec = (r.transfer_interval_msec * 7 + bounded) / 8 % 2 ^ 16;
        })
    else moved

unfoldable pub prepare_for_next_transfer : Receiver → Receiver
prepare_for_next_transfer r = record r {
  tid = increment r.tid;
  next_toggle = false;
  buffer_write_pos = 0;
}

-- The last two guards of `validate`.
unfoldable pub validate_order : Receiver → Frame → Bool × Receiver
validate_order r f =
    if not (eqb f.toggle r.next_toggle)
    then (false, register_error r)
    else if not (f.transfer_id == r.tid)
    then (false, register_error r)
    else (true, r)

unfoldable pub validate : Receiver → RxFrame → Bool × Receiver
validate r rx =
    let f = rx.frame in
    if not (r.iface_index == rx.iface_index)
    then (false, r)
    else if f.start_of_transfer && not f.end_of_transfer && ltb (length f.payload) crc_bytes
    then (false, register_error r)
    else if f.start_of_transfer && f.toggle
    then (false, register_error r)
    else validate_order (if f.start_of_transfer && is_mid_transfer r then register_error r else r) f

-- The part that both branches of writePayload share: the write and the new position.
unfoldable pub write_bytes : Receiver → Manager → Entry → List ℕ → Bool × Receiver × Manager
write_bytes r m e bytes =
    let (m', res) = Manager.write_through m e r.buffer_write_pos bytes in
    if res == length bytes
    then (true, record r { buffer_write_pos = (r.buffer_write_pos + length bytes) % 2 ^ 16 }, m')
    else (false, r, m')

unfoldable pub write_payload : Receiver → RxFrame → Manager → Entry → Bool × Receiver × Manager
write_payload r rx m e =
    let payload = rx.frame.payload in
    if rx.frame.start_of_transfer
    then (if ltb (length payload) crc_bytes
        then (false, r, m)
        else (let low = bit_and (get_or payload 0 0) 0xff in
            let high = bit_and (get_or payload 1 0) 0xff * 2 ^ 8 % 2 ^ 16 in
            let with_crc = record r { this_transfer_crc = bit_or low high } in
            write_bytes with_crc m e (drop crc_bytes payload)))
    else write_bytes r m e payload

-- The end of `receive`, from the payload write on.
unfoldable pub receive_payload :
    Receiver → RxFrame → Manager → Key → Entry → ResultCode × Receiver × Manager
receive_payload r rx m key e =
    let (written, r', m') = write_payload r rx m e in
    if not written
    then (not_complete, register_error (prepare_for_next_transfer r'), Manager.remove m' key)
    else (let toggled = record r' { next_toggle = not r'.next_toggle } in
        if rx.frame.end_of_transfer
        then (complete, prepare_for_next_transfer (update_transfer_timings toggled), m')
        else (not_complete, toggled, m'))

-- The buffer of `receive`: the one there is, or a new one.
unfoldable pub access_or_create : Manager → Key → Option Entry × Manager
access_or_create m key = elim (Manager.access m key) [
  | some e ↦ (some e, m)
  | none ↦ Manager.create m key
]

-- The timestamps that `receive` takes from a first frame.
unfoldable pub stamp : Receiver → RxFrame → Receiver
stamp r rx =
    if rx.frame.start_of_transfer
    then record r { this_transfer_ts = rx.ts_mono; first_frame_ts = rx.ts_utc }
    else r

unfoldable pub receive : Receiver → RxFrame → Manager → Key → ResultCode × Receiver × Manager
receive r rx m key =
    let stamped = stamp r rx in
    if rx.frame.start_of_transfer && rx.frame.end_of_transfer
    then (let next = prepare_for_next_transfer (update_transfer_timings stamped) in
        (single_frame, record next { this_transfer_crc = 0 }, Manager.remove m key))
    else (let (buf, m') = access_or_create m key in
        elim buf [
          | none ↦ (not_complete, register_error (prepare_for_next_transfer stamped), m')
          | some e ↦ receive_payload stamped rx m' key e
        ])

-- Strict comparisons of a difference that may be negative: then they are false, as they are on ℕ.
unfoldable pub is_timed_out : Receiver → ℕ → Bool
is_timed_out r current = ltb (default_tid_timeout_msec * 1000) (current - r.this_transfer_ts)

-- The condition under which `addFrame` restarts the transfer.
unfoldable pub need_restart : Receiver → RxFrame → Bool
need_restart r rx =
    let f = rx.frame in
    let same_iface = rx.iface_index == r.iface_index in
    let non_wrapped_tid = ltb (compute_forward_distance r.tid f.transfer_id) half in
    let not_previous_tid = ltb 1 (compute_forward_distance f.transfer_id r.tid) in
    let iface_switch_allowed =
      ltb (r.transfer_interval_msec * 1000) (rx.ts_mono - r.this_transfer_ts) in
    not (is_initialized r)
    || is_timed_out r rx.ts_mono
    || (same_iface && f.start_of_transfer && not_previous_tid)
    || (iface_switch_allowed && f.start_of_transfer && non_wrapped_tid)

unfoldable pub restart : Receiver → RxFrame → Receiver
restart r rx =
    let unexpected = is_initialized r && not (r.tid == rx.frame.transfer_id) in
    record (if unexpected then register_error r else r) {
      iface_index = bit_and rx.iface_index iface_index_not_set;
      tid = rx.frame.transfer_id;
      next_toggle = false;
      buffer_write_pos = 0;
      this_transfer_crc = 0;
    }

-- The end of `addFrame`.
unfoldable pub validate_and_receive :
    Receiver → RxFrame → Manager → Key → ResultCode × Receiver × Manager
validate_and_receive r rx m key =
    let (ok, r') = validate r rx in if ok then receive r' rx m key else (not_complete, r', m)

unfoldable pub is_stale : Receiver → RxFrame → Bool
is_stale r rx =
    rx.ts_mono == 0 || ltb rx.ts_mono r.prev_transfer_ts || ltb rx.ts_mono r.this_transfer_ts

unfoldable pub add_frame : Receiver → RxFrame → Manager → Key → ResultCode × Receiver × Manager
add_frame r rx m key =
    if is_stale r rx
    then (not_complete, r, m)
    else if need_restart r rx
    then (let fresh = restart r rx in
        let cleared = Manager.remove m key in
        if not rx.frame.start_of_transfer
        then (not_complete, record fresh { tid = increment fresh.tid }, cleared)
        else validate_and_receive fresh rx cleared key)
    else validate_and_receive r rx m key

unfoldable pub yield_error_count : Receiver → ℕ × Receiver
yield_error_count r = (r.error_cnt, record r { error_cnt = 0 })

-- ===== src/Transport/Listener.antt =====
-- TransferListener of libuavcan/src/transport/uc_transfer_listener.cpp. The receivers and the buffers
-- stand in one pool. handleIncomingTransfer is the client's: what it is given is a result, with the
-- payload that it can read. The counters of the listener's perf_ are below 2^64.
pub mod Payload
use uavcan.Base.{
  ℕ, zero, suc, ◌+◌, Bool, true, false, not, ◌&&◌, List, [], ◌∷◌, Option, none, some, length, take,
  drop, leb, ltb, ◌==◌, if◌then◌else◌,
}
use uavcan.Memory.{Pool}
use uavcan.Util.Map
use uavcan.Util.Map.{Map, Group, Pair}
use uavcan.Transport.Crc
use uavcan.Transport.Transfer.{TransferType, is_broadcast, is_unicast}
use uavcan.Transport.Frame.{Frame}
use uavcan.Transport.TransferBuffer.{clip}
use uavcan.Transport.TransferBuffer.Entry
use uavcan.Transport.TransferBuffer.Entry.{Entry, Key, same_key}
use uavcan.Transport.TransferBuffer.Manager
use uavcan.Transport.TransferBuffer.Manager.{Manager}
use uavcan.Transport.Receiver
use uavcan.Transport.Receiver.{
  Receiver, RxFrame, ResultCode, not_complete, complete, single_frame, new_receiver, add_frame,
  yield_error_count, is_timed_out,
}

-- What an IncomingTransfer gives its client.
pub record Incoming : Type 0 where
  pub ts_mono : ℕ
  pub ts_utc : ℕ
  pub frame : Frame
  pub iface_index : ℕ
  pub payload : List ℕ

-- The counters of TransferPerfCounter that a listener moves.
pub record Perf : Type 0 where
  pub transfers_rx : ℕ
  pub errors : ℕ

pub record Listener : Type 0 where
  pub receivers : List (Group Key Receiver)
  pub num_kv : ℕ
  pub buffers : List Entry
  pub max_buf_size : ℕ
  pub pool : Pool (List ℕ)
  pub crc_base : ℕ
  pub allow_anonymous_transfers : Bool
  pub perf : Perf

unfoldable pub receivers_of : Listener → Map Key Receiver
receivers_of l = record { groups = l.receivers; pool = l.pool; num_kv = l.num_kv }

unfoldable pub bufmgr_of : Listener → Manager
bufmgr_of l = record { buffers = l.buffers; pool = l.pool; max_buf_size = l.max_buf_size }

unfoldable pub with_receivers : Listener → Map Key Receiver → Listener
with_receivers l m = record l { receivers = m.groups; pool = m.pool }

unfoldable pub with_bufmgr : Listener → Manager → Listener
with_bufmgr l m = record l { buffers = m.buffers; pool = m.pool }

unfoldable pub add_rx_transfer : Listener → Listener
add_rx_transfer l = record l { perf = record l.perf { transfers_rx = l.perf.transfers_rx + 1 } }

unfoldable pub add_errors : ℕ → Listener → Listener
add_errors n l = record l { perf = record l.perf { errors = l.perf.errors + n } }

-- SingleFrameIncomingTransfer, and its read.
unfoldable pub single_incoming : RxFrame → Incoming
single_incoming rx = record {
  ts_mono = rx.ts_mono;
  ts_utc = rx.ts_utc;
  frame = rx.frame;
  iface_index = rx.iface_index;
  payload = rx.frame.payload;
}

unfoldable pub single_read : Incoming → ℕ → ℕ → List ℕ
single_read it offset len =
    if leb (length it.payload) offset
    then []
    else take (clip (length it.payload) offset len) (drop offset it.payload)

-- The loop of checkPayloadCrc in pieces of 16 bytes. Each round but the last moves the offset by
-- at least one, so one more round than the buffer has bytes is fuel enough.
unfoldable pub payload_crc : ℕ → Entry → ℕ → ℕ → ℕ
payload_crc zero tbb offset crc = crc
payload_crc (suc fuel) tbb offset crc =
    let buf = Entry.read tbb offset 16 in
    let rest = payload_crc fuel tbb (offset + length buf) (Crc.add_bytes crc buf) in
    if length buf == 0 then crc else rest

unfoldable pub check_payload_crc : Listener → ℕ → Entry → Bool
check_payload_crc l compare_with tbb =
    payload_crc (tbb.max_write_pos + 1) tbb 0 l.crc_base == compare_with

-- The branch ResultComplete of handleReception.
unfoldable pub deliver_buffer : Listener → Receiver → RxFrame → Key → List Incoming × Listener
deliver_buffer l r rx key = elim (Manager.access (bufmgr_of l) key) [
  | none ↦ ([], l)
  | some tbb ↦ if not (check_payload_crc l r.this_transfer_crc tbb) then ([], l) else (
    record {
      ts_mono = r.prev_transfer_ts;
      ts_utc = r.first_frame_ts;
      frame = rx.frame;
      iface_index = rx.iface_index;
      payload = Entry.read tbb 0 tbb.max_write_pos;
    }
        ∷ [],
    with_bufmgr l (Manager.remove (bufmgr_of l) key),
  )
]

unfoldable pub handle_reception :
    Listener → Receiver → RxFrame → Key → List Incoming × Receiver × Listener
handle_reception l r rx key =
    let (code, r', m) = add_frame r rx (bufmgr_of l) key in
    let l' = with_bufmgr l m in
    elim code [
      | not_complete ↦ let (n, cleared) = yield_error_count r' in ([], cleared, add_errors n l')
      | single_frame ↦ (single_incoming rx ∷ [], r', add_rx_transfer l')
      | complete ↦ let (out, l'') = deliver_buffer (add_rx_transfer l') r' rx key in (out, r', l'')
    ]

unfoldable pub handle_anonymous_transfer_reception : Listener → RxFrame → List Incoming × Listener
handle_anonymous_transfer_reception l rx =
    if l.allow_anonymous_transfers then (single_incoming rx ∷ [], add_rx_transfer l) else ([], l)

-- handleReception on the receiver that is in the map.
unfoldable pub receive_into : Listener → Receiver → RxFrame → Key → List Incoming × Listener
receive_into l r rx key =
    let (out, r', l') = handle_reception l r rx key in
    (out, with_receivers l' (Map.update same_key (receivers_of l') key r'))

unfoldable pub handle_frame : Listener → RxFrame → List Incoming × Listener
handle_frame l rx =
    let f = rx.frame in
    if is_unicast f.src
    then (let key : Key = record { node_id = f.src; transfer_type = f.transfer_type } in
        elim (Map.access same_key (receivers_of l) key) [
          | some r ↦ receive_into l r rx key
          | none ↦
              if not f.start_of_transfer
              then ([], l)
              else (let (inserted, m) = Map.insert same_key (receivers_of l) key new_receiver in
                  let l' = with_receivers l m in
                  if inserted then receive_into l' new_receiver rx key else ([], l'))
        ])
    else if is_broadcast f.src && f.start_of_transfer && f.end_of_transfer && is_broadcast f.dst
    then handle_anonymous_transfer_reception l rx
    else ([], l)

-- TransferListenerWithFilter::handleFrame with its filter's answer.
unfoldable pub handle_filtered_frame :
    (RxFrame → Bool) → Listener → RxFrame → List Incoming × Listener
handle_filtered_frame should_accept l rx = if should_accept rx then handle_frame l rx else ([], l)

-- TimedOutReceiverPredicate; its state is the buffer manager.
unfoldable pub timed_out_receiver : ℕ → Pair Key Receiver → Manager → Bool × Manager
timed_out_receiver ts kv m =
    if is_timed_out kv.value ts then (true, Manager.remove m kv.key) else (false, m)

unfoldable pub cleanup : ℕ → Listener → Listener
cleanup ts l =
    let (map, m, removed) =
      Map.remove_where same_key (timed_out_receiver ts) (receivers_of l) (bufmgr_of l) in
    let swept = with_bufmgr (record l { receivers = map.groups }) m in
    if removed == 0 then swept else with_receivers swept (Map.compact same_key (receivers_of swept))

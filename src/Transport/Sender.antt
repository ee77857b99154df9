-- ===== src/Transport/Sender.antt =====
-- TransferSender::send with a given transfer id, of libuavcan/src/transport/uc_transfer_sender.cpp.
-- The dispatcher is an interface over its own state.
pub mod Split
use uavcan.Base.{
  ℕ, zero, suc, ◌+◌, ◌-◌, ◌*◌, ◌/◌, ◌%◌, ◌^◌, bit_and, bit_or, Bool, true, false, not, ◌&&◌, List,
  [], ◌∷◌, length, take, drop, ltb, leb, ◌==◌, if◌then◌else◌,
}
use uavcan.Transport.Crc
use uavcan.Transport.Transfer.{TransferType, is_message_broadcast, is_unicast}
use uavcan.Transport.Frame.{Frame, make, set_payload, flip_toggle, payload_capacity}

-- The result of a call: a count, or the error whose number is returned negative.
pub data SendResult : Type 0 where
  sent failed : ℕ → SendResult

abbrev pub err_passive_mode : ℕ
err_passive_mode = 11

abbrev pub err_logic : ℕ
err_logic = 10

-- CanIOFlagAbortOnError.
abbrev pub flag_abort_on_error : ℕ
flag_abort_on_error = 2

-- What goes with every frame to Dispatcher::send.
pub record Orders : Type 0 where
  pub tx_deadline : ℕ
  pub blocking_deadline : ℕ
  pub qos : ℕ
  pub flags : ℕ
  pub iface_mask : ℕ

-- What the sender uses of the dispatcher and of its counter.
pub record Dispatcher (S : Type 0) : Type 0 where
  pub node_id : S → ℕ
  pub is_passive_mode : S → Bool
  pub dispatch : Orders → Frame → S → SendResult × S
  pub add_tx_transfer : S → S
  pub add_error : S → S

pub record Sender : Type 0 where
  pub qos : ℕ
  pub flags : ℕ
  pub iface_mask : ℕ
  pub priority : ℕ
  pub allow_anonymous_transfers : Bool
  pub data_type_id : ℕ
  pub crc_base : ℕ

-- The first frame of a multi-frame transfer: CRC, little endian, and the payload's first bytes.
unfoldable pub first_frame : ℕ → List ℕ → Frame → Frame × ℕ
first_frame crc_base payload frame =
    let crc = Crc.add_bytes crc_base payload in
    let buf = bit_and crc 0xff ∷ bit_and (crc / 2 ^ 8) 0xff ∷ take 6 payload in
    set_payload frame buf

-- The part of the loop behind a call of Dispatcher::send: the next frame and offset.
unfoldable pub next_frame : List ℕ → Frame → ℕ → Frame × ℕ
next_frame payload frame offset =
    let (loaded, res) =
      set_payload (flip_toggle (record frame { start_of_transfer = false }))
        (drop offset payload) in
    let moved = offset + res in
    (
      record loaded {
        end_of_transfer = if leb (length payload) moved then true else loaded.end_of_transfer;
      },
      moved,
    )

module _ {S : Type 0} (d : Dispatcher S) where
  -- The loop; each round but the last takes at least a byte of the payload, so its length is fuel
  -- enough, and what stands behind the loop is the return that the source calls unreachable.
  unfoldable pub send_loop : ℕ → Orders → List ℕ → Frame → ℕ → ℕ → S → SendResult × S
  send_loop zero orders payload frame offset num_sent s = (failed err_logic, s)
  send_loop (suc fuel) orders payload frame offset num_sent s =
      let (res, s') = d.dispatch orders frame s in
      let (frame', offset') = next_frame payload frame offset in
      let rest = send_loop fuel orders payload frame' offset' (num_sent + 1) s' in
      elim res [
        | failed e ↦ (failed e, d.add_error s')
        | sent n ↦ if frame.end_of_transfer then (sent (num_sent + 1), s') else rest
      ]

  unfoldable pub send_single : Sender → Orders → List ℕ → Frame → S → SendResult × S
  send_single x orders payload frame s =
      let (loaded, res) = set_payload frame payload in
      if not (res == length payload)
      then (failed err_logic, d.add_error s)
      else (let flags =
            if is_unicast frame.src then x.flags else bit_or x.flags flag_abort_on_error in
          d.dispatch (record orders { flags = flags }) (record loaded { end_of_transfer = true }) s)

  unfoldable pub send_multi : Sender → Orders → List ℕ → Frame → S → SendResult × S
  send_multi x orders payload frame s =
      let (first, res) = first_frame x.crc_base payload frame in
      if ltb res 2
      then (sent res, d.add_error s)
      else send_loop (length payload) orders payload first (res - 2) 0 s

  unfoldable pub send : Sender → List ℕ → ℕ → ℕ → TransferType → ℕ → ℕ → S → SendResult × S
  send x payload tx_deadline blocking_deadline transfer_type dst tid s =
      let made = make x.data_type_id transfer_type (d.node_id s) dst tid in
      let frame = record made { priority = x.priority; start_of_transfer = true } in
      let orders : Orders = record {
        tx_deadline = tx_deadline;
        blocking_deadline = blocking_deadline;
        qos = x.qos;
        flags = x.flags;
        iface_mask = x.iface_mask;
      } in
      let allow =
        x.allow_anonymous_transfers
        && is_message_broadcast transfer_type
        && leb (length payload) payload_capacity in
      if d.is_passive_mode s && not allow
      then (failed err_passive_mode, s)
      else (let s' = d.add_tx_transfer s in
          if leb (length payload) payload_capacity
          then send_single x orders payload frame s'
          else send_multi x orders payload frame s')

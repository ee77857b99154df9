-- ===== src/Transport/Frame.antt =====
-- Frame of libuavcan/include/uavcan/transport/frame.hpp and libuavcan/src/transport/uc_frame.cpp.
-- `payload` is the first payload_len_ bytes of payload_; no more of it is ever read.
pub mod Layout
pub mod Parsed
pub mod Validity
pub mod RoundTrip
use uavcan.Base.{
  ℕ, zero, suc, ◌+◌, ◌-◌, ◌*◌, ◌/◌, ◌%◌, ◌^◌, bit_and, bit_or, Bool, true, false, not, ◌&&◌, ◌||◌,
  List, [], ◌∷◌, ◌++◌, Option, none, some, length, take, drop, get_or, min, ltb, leb, ◌==◌, eqb,
  if◌then◌else◌,
}
use uavcan.Can.{
  CanFrame, flag_eff, mask_ext_id, max_data_len, has_flag, is_extended, is_error_frame,
  is_remote_transmission_request,
}
use uavcan.DataType.{kind_for_transfer_type, is_valid_for_kind}
use uavcan.Transport.Crc
use uavcan.Transport.Transfer.{
  TransferType, service_response, service_request, message_broadcast, invalid, same_type,
  is_message_broadcast, priority_is_valid, default_priority, node_id_is_valid, is_broadcast,
  is_unicast,
}

pub record Frame : Type 0 where
  pub priority : ℕ
  pub transfer_type : TransferType
  pub data_type_id : ℕ
  pub payload : List ℕ
  pub src : ℕ
  pub dst : ℕ
  pub transfer_id : ℕ
  pub start_of_transfer : Bool
  pub end_of_transfer : Bool
  pub toggle : Bool

abbrev pub payload_capacity : ℕ
payload_capacity = 7

-- The constructor that takes the addresses.
abbrev pub make : ℕ → TransferType → ℕ → ℕ → ℕ → Frame
make data_type_id transfer_type src dst transfer_id = record {
  priority = default_priority;
  transfer_type = transfer_type;
  data_type_id = data_type_id;
  payload = [];
  src = src;
  dst = dst;
  transfer_id = transfer_id;
  start_of_transfer = false;
  end_of_transfer = false;
  toggle = false;
}

-- setPayload: the frame and the number of bytes taken.
abbrev pub set_payload : Frame → List ℕ → Frame × ℕ
set_payload f bytes =
    (record f { payload = take payload_capacity bytes }, min payload_capacity (length bytes))

abbrev pub flip_toggle : Frame → Frame
flip_toggle f = record f { toggle = not f.toggle }

-- isValid, guard after guard.
unfoldable pub is_valid : Frame → Bool
is_valid f =
    if f.start_of_transfer && f.toggle
    then false
    else if not (node_id_is_valid f.src) || not (node_id_is_valid f.dst)
    then false
    else if is_unicast f.src && f.src == f.dst
    then false
    else if same_type f.transfer_type invalid
    then false
    else if not (eqb (is_message_broadcast f.transfer_type) (is_broadcast f.dst))
    then false
    else if is_broadcast f.src
        && (not f.start_of_transfer
            || not f.end_of_transfer
            || not (is_message_broadcast f.transfer_type))
    then false
    else if ltb payload_capacity (length f.payload)
    then false
    else if not (is_valid_for_kind f.data_type_id (kind_for_transfer_type f.transfer_type))
    then false
    else if not (priority_is_valid f.priority)
    then false
    else true

-- bitunpack<OFFSET, WIDTH> and bitpack<OFFSET, WIDTH>.
abbrev pub bitunpack : ℕ → ℕ → ℕ → ℕ
bitunpack offset width val = bit_and (val / 2 ^ offset) (2 ^ width - 1)

abbrev pub bitpack : ℕ → ℕ → ℕ → ℕ
bitpack offset width field = bit_and field (2 ^ width - 1) * 2 ^ offset % 2 ^ 32

abbrev pub bit_of : Bool → ℕ
bit_of true = 1
bit_of false = 0

-- The addresses that `parse` reads from the identifier of a message and of a service frame.
unfoldable pub parse_message : ℕ → Frame → Frame
parse_message id f =
    let wide = bitunpack 8 16 id % 2 ^ 16 in
    record f {
      transfer_type = message_broadcast;
      dst = 0;
      data_type_id = if is_broadcast f.src then bit_and wide 3 % 2 ^ 16 else wide;
    }

unfoldable pub parse_service : ℕ → Frame → Frame
parse_service id f = record f {
  transfer_type = if bitunpack 15 1 id == 0 then service_response else service_request;
  dst = bitunpack 8 7 id % 2 ^ 8;
  data_type_id = bitunpack 16 8 id % 2 ^ 16;
}

unfoldable pub parse_tail : ℕ → Frame → Frame
parse_tail tail f = record f {
  start_of_transfer = has_flag tail (2 ^ 7);
  end_of_transfer = has_flag tail (2 ^ 6);
  toggle = has_flag tail (2 ^ 5);
  transfer_id = bit_and tail (2 ^ 5 - 1);
}

-- parse; `none` is the result false, after which the object is not used.
unfoldable pub parse : CanFrame → Option Frame
parse c =
    if is_error_frame c || is_remote_transmission_request c || not (is_extended c)
    then none
    else if ltb max_data_len c.dlc
    then none
    else if ltb c.dlc 1
    then none
    else (let id = bit_and c.id mask_ext_id in
        let start = make 0 invalid (bitunpack 0 7 id % 2 ^ 8) 0 0 in
        let head = record start { priority = bitunpack 24 5 id % 2 ^ 8 } in
        let addressed =
          if bitunpack 7 1 id == 0 then parse_message id head else parse_service id head in
        let loaded = record addressed { payload = take (c.dlc - 1) c.data_bytes } in
        let f = parse_tail (get_or c.data_bytes (c.dlc - 1) 0) loaded in
        if is_valid f then some f else none)

-- The identifier that `compile` builds before the discriminator.
unfoldable pub compile_id : Frame → ℕ
compile_id f =
    let common = bit_or (bit_or flag_eff (bitpack 0 7 f.src)) (bitpack 24 5 f.priority) in
    let dtid = f.data_type_id % 2 ^ 16 in
    if is_message_broadcast f.transfer_type
    then bit_or common (bit_or (bitpack 7 1 0) (bitpack 8 16 dtid))
    else bit_or common (
        bit_or
          (bit_or (bit_or (bitpack 7 1 1) (bitpack 8 7 f.dst))
            (bitpack 15 1 (if same_type f.transfer_type service_request then 1 else 0)))
          (bitpack 16 8 dtid))

-- The tail byte, one `|=` for each flag.
unfoldable pub compile_tail : Frame → ℕ
compile_tail f =
    let with_start = if f.start_of_transfer then bit_or f.transfer_id (2 ^ 7) else f.transfer_id in
    let with_end = if f.end_of_transfer then bit_or with_start (2 ^ 6) else with_start in
    if f.toggle then bit_or with_end (2 ^ 5) else with_end

-- compile into a frame whose array holds `old`; `none` is the result false, which leaves it alone.
-- An anonymous frame gets 14 bits of a CRC of its data as a discriminator.
unfoldable pub compile : Frame → List ℕ → Option CanFrame
compile f old =
    if not (is_valid f)
    then none
    else (let len = length f.payload in
        let bytes = f.payload ++ compile_tail f ∷ [] in
        let id = compile_id f in
        let crc = Crc.add_bytes Crc.initial bytes in
        let full_id =
          if is_broadcast f.src then bit_or id (bitpack 10 14 (bit_and crc (2 ^ 14 - 1))) else id in
        some (record { id = full_id; data_bytes = bytes ++ drop (len + 1) old; dlc = len + 1 }))

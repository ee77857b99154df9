-- ===== src/Transport/Frame/Validity.antt =====
-- What Frame::isValid guarantees.
use uavcan.Base.{◌^◌, ◌≤◌, ◌<◌, ◌≡◌, ◌≢◌, arith, true, length}
use uavcan.Transport.Transfer.{
  TransferType, service_response, service_request, message_broadcast, invalid,
}
use uavcan.Transport.Frame.{Frame, is_valid}

-- The facts shared by all valid frames.
pub record Common (f : Frame) : Type 0 where
  pub priority_bits : f.priority < 2 ^ 5
  pub src_bits : f.src < 2 ^ 7
  pub dst_bits : f.dst < 2 ^ 7
  pub fits : length f.payload ≤ 7

pub valid-Common : (f : Frame) → is_valid f ≡ true → Common f
unfolding is_valid
valid-Common f h = ground arith

-- The addresses of a valid frame, by its transfer type.
abbrev pub Addressed : Frame → TransferType → Type 0
Addressed f message_broadcast = (f.dst ≡ 0) × (f.data_type_id < 2 ^ 16)
Addressed f invalid = ⊥
Addressed f service_request = (f.dst ≢ 0) × (f.src ≢ 0) × (f.data_type_id < 2 ^ 8)
Addressed f service_response = (f.dst ≢ 0) × (f.src ≢ 0) × (f.data_type_id < 2 ^ 8)

pub valid-Addressed :
    (f : Frame) (t : TransferType) → f.transfer_type ≡ t → is_valid f ≡ true → Addressed f t
unfolding is_valid
valid-Addressed f message_broadcast e h = ground arith
valid-Addressed f invalid e h = ground arith
valid-Addressed f service_request e h = ground arith
valid-Addressed f service_response e h = ground arith

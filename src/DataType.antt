-- ===== src/DataType.antt =====
-- libuavcan/include/uavcan/data_type.hpp and libuavcan/src/uc_data_type.cpp: data type ids and
-- kinds, and the signature with its CRC-64-WE. The full name of a descriptor is not modelled.
use uavcan.Base.{
  ℕ, zero, suc, ◌-◌, ◌*◌, ◌/◌, ◌%◌, ◌^◌, bit_and, bit_xor, Bool, List, [], ◌∷◌, leb, ◌==◌,
  if◌then◌else◌,
}
use uavcan.Transport.Transfer.{
  TransferType, service_response, service_request, message_broadcast, invalid,
}
use uavcan.Transport.Crc

pub data DataTypeKind : Type 0 where
  service message : DataTypeKind

-- getDataTypeKindForTransferType; an invalid type gives DataTypeKind(0).
abbrev pub kind_for_transfer_type : TransferType → DataTypeKind
kind_for_transfer_type service_response = service
kind_for_transfer_type service_request = service
kind_for_transfer_type message_broadcast = message
kind_for_transfer_type invalid = service

-- DataTypeID::getMaxValueForDataTypeKind.
abbrev pub max_value_for_kind : DataTypeKind → ℕ
max_value_for_kind service = 255
max_value_for_kind message = 65535

-- DataTypeID::isValidForDataTypeKind, on the uint32_t value_ (0xFFFFFFFF by default).
abbrev pub is_valid_for_kind : ℕ → DataTypeKind → Bool
is_valid_for_kind value kind = leb value (max_value_for_kind kind)

-- DataTypeSignatureCRC, by its crc_: extend, add and get.
abbrev all_ones : ℕ
all_ones = 2 ^ 64 - 1

unfoldable pub signature_crc_extend : ℕ → ℕ
signature_crc_extend crc = bit_xor crc all_ones

unfoldable pub signature_crc_round : ℕ → ℕ
signature_crc_round crc =
    if bit_and crc (2 ^ 63) == 0
    then crc * 2 % 2 ^ 64
    else bit_xor (crc * 2 % 2 ^ 64) 0x42F0E1EBA9EA3693

unfoldable pub signature_crc_rounds : ℕ → ℕ → ℕ
signature_crc_rounds zero crc = crc
signature_crc_rounds (suc n) crc = signature_crc_rounds n (signature_crc_round crc)

unfoldable pub signature_crc_add : ℕ → ℕ → ℕ
signature_crc_add crc byte = signature_crc_rounds 8 (bit_xor crc (byte * 2 ^ 56 % 2 ^ 64))

unfoldable pub signature_crc_get : ℕ → ℕ
signature_crc_get crc = bit_xor crc all_ones

-- The `n` low bytes of a word, least significant first: the loops of mixin64 and toTransferCRC.
unfoldable pub low_bytes : ℕ → ℕ → List ℕ
low_bytes zero x = []
low_bytes (suc n) x = bit_and x 0xff ∷ low_bytes n (x / 2 ^ 8)

unfoldable pub signature_crc_add_bytes : ℕ → List ℕ → ℕ
signature_crc_add_bytes crc [] = crc
signature_crc_add_bytes crc (b ∷ bs) = signature_crc_add_bytes (signature_crc_add crc b) bs

-- DataTypeSignature::mixin64, extend and toTransferCRC, on its value_.
unfoldable pub mixin64 : ℕ → ℕ → ℕ
mixin64 value x =
    signature_crc_get (signature_crc_add_bytes (signature_crc_extend value) (low_bytes 8 x))

unfoldable pub extend : ℕ → ℕ → ℕ
extend value dts = mixin64 (mixin64 value dts) value

unfoldable pub to_transfer_crc : ℕ → ℕ
unfolding low_bytes
to_transfer_crc value = Crc.add_bytes Crc.initial (low_bytes 8 value)

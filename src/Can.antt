-- ===== src/Can.antt =====
-- libuavcan/include/uavcan/driver/can.hpp and libuavcan/src/driver/uc_can.cpp: raw CAN frames and
-- the order in which the bus arbitrates them.
pub mod Priority
pub mod TxQueue
pub mod IoManager
use uavcan.Base.{
  ℕ, ◌/◌, ◌^◌, ◌-◌, bit_and, Bool, not, ◌&&◌, List, take, ltb, ◌==◌, eqb, if◌then◌else◌,
}

-- CanFrame::MaskExtID, FlagEFF, FlagRTR, FlagERR and MaxDataLen.
abbrev pub mask_ext_id : ℕ
mask_ext_id = 2 ^ 29 - 1

abbrev pub flag_eff : ℕ
flag_eff = 2 ^ 31

abbrev pub flag_rtr : ℕ
flag_rtr = 2 ^ 30

abbrev pub flag_err : ℕ
flag_err = 2 ^ 29

abbrev pub max_data_len : ℕ
max_data_len = 8

-- `data` is the whole array of max_data_len bytes.
pub record CanFrame : Type 0 where
  pub id : ℕ
  pub data_bytes : List ℕ
  pub dlc : ℕ

-- The conversion of `id & flag` to bool.
abbrev pub has_flag : ℕ → ℕ → Bool
has_flag id flag = not (bit_and id flag == 0)

abbrev pub is_extended : CanFrame → Bool
is_extended f = has_flag f.id flag_eff

abbrev pub is_remote_transmission_request : CanFrame → Bool
is_remote_transmission_request f = has_flag f.id flag_rtr

abbrev pub is_error_frame : CanFrame → Bool
is_error_frame f = has_flag f.id flag_err

abbrev pub clean_id : CanFrame → ℕ
clean_id f = bit_and f.id mask_ext_id

-- The 11 bits by which a standard and an extended frame are compared.
abbrev pub arb11 : CanFrame → ℕ
arb11 f = if is_extended f then clean_id f / 2 ^ 18 else clean_id f

-- CanFrame::priorityHigherThan.
unfoldable pub priority_higher_than : CanFrame → CanFrame → Bool
priority_higher_than f rhs =
    if not (eqb (is_extended f) (is_extended rhs))
    then (if not (arb11 f == arb11 rhs) then ltb (arb11 f) (arb11 rhs) else is_extended rhs)
    else (if clean_id f == clean_id rhs
          && not (eqb (is_remote_transmission_request f) (is_remote_transmission_request rhs))
        then is_remote_transmission_request rhs
        else ltb (clean_id f) (clean_id rhs))

unfoldable pub priority_lower_than : CanFrame → CanFrame → Bool
priority_lower_than f rhs = priority_higher_than rhs f

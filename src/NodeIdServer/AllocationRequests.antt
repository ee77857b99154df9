-- ===== src/NodeIdServer/AllocationRequests.antt =====
-- AllocationRequestManager of
-- libuavcan/include/uavcan/protocol/dynamic_node_id_server/allocation_request_manager.hpp: the
-- exchange of a unique id in three stages. The allocator's handler and the publisher get what is in
-- the list of effects; tracing is left out.
pub mod Partial
pub mod Stages
use uavcan.Base.{
  ℕ, ◌+◌, ◌-◌, ◌*◌, ◌%◌, ◌^◌, Bool, true, false, not, ◌&&◌, List, [], ◌∷◌, ◌++◌, length, ltb, leb,
  ◌==◌, if◌then◌else◌,
}

-- What the message type Allocation and the build fix: the capacity of a unique id,
-- MAX_LENGTH_OF_UNIQUE_ID_IN_REQUEST, and the timeout of a stage.
pub record Limits : Type 0 where
  pub capacity : ℕ
  pub max_in_request : ℕ
  pub stage_timeout : ℕ

-- A received Allocation message.
pub record Allocation : Type 0 where
  pub unique_id : List ℕ
  pub first_part_of_unique_id : Bool
  pub node_id : ℕ
  pub is_anonymous : Bool
  pub timestamp : ℕ

pub data RequestEffect : Type 0 where
  followup : List ℕ → RequestEffect
  allocation_request : (unique_id : List ℕ) → (preferred_node_id : ℕ) → RequestEffect
  response : (unique_id : List ℕ) → (node_id : ℕ) → RequestEffect

pub record RequestManager : Type 0 where
  pub last_message_timestamp : ℕ
  pub current_unique_id : List ℕ

abbrev pub invalid_stage : ℕ
invalid_stage = 0

module _ (limits : Limits) where
  open limits use {capacity, max_in_request, stage_timeout}

  unfoldable pub detect_request_stage : Allocation → ℕ
  detect_request_stage msg =
      let size = length msg.unique_id in
      if not (size == max_in_request)
        && not (size == capacity - max_in_request * 2)
        && not (size == capacity)
      then invalid_stage
      else if msg.first_part_of_unique_id
      then 1
      else if size == max_in_request
      then 2
      else if ltb size max_in_request
      then 3
      else invalid_stage

  unfoldable pub get_expected_stage : RequestManager → ℕ
  get_expected_stage m =
      let size = length m.current_unique_id in
      if size == 0
      then 1
      else if leb (max_in_request * 2) size
      then 3
      else if leb max_in_request size
      then 2
      else invalid_stage

  -- The reset of the stage on a timeout.
  unfoldable pub reset_on_timeout : RequestManager → Allocation → RequestManager
  reset_on_timeout m msg =
      if ltb (m.last_message_timestamp + stage_timeout) msg.timestamp
      then record m { current_unique_id = [] }
      else m

  -- What follows the update of the local state; `can_publish` is what the handler's
  -- canPublishFollowupAllocationResponse gives.
  unfoldable pub proceed : Bool → RequestManager → Allocation → RequestManager × List RequestEffect
  proceed can_publish m msg =
      let stamped : RequestManager = record m { last_message_timestamp = msg.timestamp } in
      let emptied : RequestManager = record stamped { current_unique_id = [] } in
      if length m.current_unique_id == capacity
      then (emptied, allocation_request m.current_unique_id msg.node_id ∷ [])
      else if can_publish
      then (stamped, followup m.current_unique_id ∷ [])
      else (emptied, [])

  -- The checks of the stages and of the size.
  unfoldable pub accept_part :
      Bool → RequestManager → Allocation → RequestManager × List RequestEffect
  accept_part can_publish m msg =
      let request_stage = detect_request_stage msg in
      let expected_stage = get_expected_stage m in
      let max_expected_bytes = (capacity - length m.current_unique_id) % 2 ^ 8 in
      if request_stage == invalid_stage
      then (m, [])
      else if expected_stage == invalid_stage
      then (m, [])
      else if not (request_stage == expected_stage)
      then (m, [])
      else if ltb max_expected_bytes (length msg.unique_id)
      then (m, [])
      else proceed can_publish
          (record m { current_unique_id = m.current_unique_id ++ msg.unique_id }) msg

  unfoldable pub handle_allocation :
      Bool → RequestManager → Allocation → RequestManager × List RequestEffect
  handle_allocation can_publish m msg =
      if not msg.is_anonymous then (m, []) else accept_part can_publish (reset_on_timeout m msg) msg

-- broadcastAllocationResponse, as far as its message goes.
unfoldable pub broadcast_allocation_response : List ℕ → ℕ → RequestEffect
broadcast_allocation_response unique_id allocated_node_id = response unique_id allocated_node_id

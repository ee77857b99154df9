-- ===== src/NodeIdServer/AllocationRequests/Partial.antt =====
-- allocation_request_manager.hpp: what the manager has of a unique id.
use uavcan.Base.{
  ◌+◌, ◌-◌, ◌*◌, ◌^◌, ◌<◌, ◌≡◌, refl, ◌⊎◌, inl, inr, Bool, List, [], ◌∷◌, length, length-append,
  ltb, Bool-cases, arith,
}
use uavcan.NodeIdServer.AllocationRequests.{
  Limits, Allocation, RequestEffect, followup, allocation_request, response, RequestManager,
  detect_request_stage, get_expected_stage, reset_on_timeout, proceed, accept_part,
  handle_allocation,
}

-- What the message type guarantees: a unique id takes three requests, of which the last is shorter.
pub record AreLimits (limits : Limits) : Type 0 where
  pub some_bytes : 0 < limits.max_in_request
  pub three_parts : limits.max_in_request * 2 < limits.capacity
  pub shorter : limits.capacity < limits.max_in_request * 3
  pub bytes : limits.capacity < 2 ^ 8

-- The manager has no part of a unique id, the first, or the first two; or a short first part, from
-- which no stage goes on.
pub record IsPartial (limits : Limits) (m : RequestManager) : Type 0 where
  pub parts :
      (length m.current_unique_id ≡ 0)
      ⊎ ((length m.current_unique_id ≡ limits.max_in_request)
          ⊎ ((length m.current_unique_id ≡ limits.max_in_request * 2)
              ⊎ (length m.current_unique_id ≡ limits.capacity - limits.max_in_request * 2)))

-- Requests for an allocation carry whole unique ids, and follow-up responses a part.
abbrev pub AreComplete : Limits → List RequestEffect → Type 0
AreComplete limits [] = Unit
AreComplete limits (followup id ∷ es) = (length id < limits.capacity) × AreComplete limits es
AreComplete limits (allocation_request id n ∷ es) =
    (length id ≡ limits.capacity) × AreComplete limits es
AreComplete limits (response id n ∷ es) = AreComplete limits es

module _ (limits : Limits) (l : AreLimits limits) where
  reset_on_timeout-IsPartial :
      (m : RequestManager) (msg : Allocation)
      → IsPartial limits m
      → IsPartial limits (reset_on_timeout limits m msg)
  unfolding reset_on_timeout
  reset_on_timeout-IsPartial m msg p =
      elim (Bool-cases (ltb (m.last_message_timestamp + limits.stage_timeout) msg.timestamp)) [
        | inl t ↦ rw t (record { parts = inl refl })
        | inr f ↦ rw f p
      ]

  accept_part-IsPartial :
      (can_publish : Bool) (m : RequestManager) (msg : Allocation)
      → IsPartial limits m
      → let r = accept_part limits can_publish m msg in
        IsPartial limits r.0 × AreComplete limits r.1
  unfolding accept_part proceed detect_request_stage get_expected_stage
  accept_part-IsPartial can_publish m msg p = ground (
    arith,
    length-append m.current_unique_id msg.unique_id,
    l.some_bytes,
    l.three_parts,
    l.shorter,
    l.bytes,
  )

  -- From no part, the first part, the first two, or a short first part, every message leaves the manager
  -- with one of these; what it hands over has the length of a unique id, and what it publishes is
  -- shorter.
  pub handle_allocation-IsPartial :
      (can_publish : Bool) (m : RequestManager) (msg : Allocation)
      → IsPartial limits m
      → let r = handle_allocation limits can_publish m msg in
        IsPartial limits r.0 × AreComplete limits r.1
  unfolding handle_allocation
  handle_allocation-IsPartial can_publish m msg p = elim (Bool-cases msg.is_anonymous) [
    | inl t ↦
        let accepted =
          accept_part-IsPartial can_publish (reset_on_timeout limits m msg) msg
            (reset_on_timeout-IsPartial m msg p) in
        ground arith
    | inr f ↦ ground arith
  ]

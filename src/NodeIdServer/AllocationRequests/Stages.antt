-- ===== src/NodeIdServer/AllocationRequests/Stages.antt =====
-- allocation_request_manager.hpp: the parts of a unique id, put together.
use uavcan.Base.{
  ℕ, ◌+◌, ◌-◌, ◌*◌, ◌≤◌, ◌<◌, ◌≡◌, refl, sym, ap, ◌∙◌, ◌⊎◌, inl, inr, Bool, true, false, List, [],
  ◌∷◌, ◌++◌, length, length-append, arith,
}
use uavcan.NodeIdServer.AllocationRequests.{
  Limits, Allocation, followup, allocation_request, RequestManager, detect_request_stage,
  get_expected_stage, reset_on_timeout, proceed, accept_part, handle_allocation,
}
use uavcan.NodeIdServer.AllocationRequests.Partial.{AreLimits}

module _ (limits : Limits) (l : AreLimits limits) where
  -- A message within the stage timeout.
  abbrev InTime : RequestManager → Allocation → Type 0
  InTime m msg = msg.timestamp ≤ m.last_message_timestamp + limits.stage_timeout

  in_time :
      (m : RequestManager) (msg : Allocation) → InTime m msg → reset_on_timeout limits m msg ≡ m
  unfolding reset_on_timeout
  in_time m msg h = ground arith

  stalled :
      (can_publish : Bool) (m : RequestManager) (msg : Allocation)
      → length m.current_unique_id ≡ limits.capacity - limits.max_in_request * 2
      → accept_part limits can_publish m msg ≡ (m, [])
  unfolding accept_part get_expected_stage
  stalled can_publish m msg h = ground (arith, l.some_bytes, l.three_parts, l.shorter)

  emptied :
      (m : RequestManager) (msg : Allocation)
      → m.current_unique_id ≡ []
      → (reset_on_timeout limits m msg).current_unique_id ≡ []
  unfolding reset_on_timeout
  emptied m msg h = ground arith

  module _ (m : RequestManager) (msg : Allocation) (u : List ℕ)
      (anonymous : msg.is_anonymous ≡ true)
      (has : (reset_on_timeout limits m msg).current_unique_id ≡ u)
      (stage : detect_request_stage limits msg
        ≡ get_expected_stage limits (reset_on_timeout limits m msg))
      (known : 0 < detect_request_stage limits msg) where
    -- A part that does not complete the unique id.
    part_published :
        length u + length msg.unique_id < limits.capacity
        → handle_allocation limits true m msg ≡ (
          record { last_message_timestamp = msg.timestamp; current_unique_id = u ++ msg.unique_id },
          followup (u ++ msg.unique_id) ∷ [],
        )
    unfolding handle_allocation accept_part proceed
    part_published more = ground (arith, length-append u msg.unique_id, ap length has, l.bytes)

    part_completes :
        length u + length msg.unique_id ≡ limits.capacity
        → handle_allocation limits true m msg ≡ (
          record { last_message_timestamp = msg.timestamp; current_unique_id = [] },
          allocation_request (u ++ msg.unique_id) msg.node_id ∷ [],
        )
    unfolding handle_allocation accept_part proceed
    part_completes whole = ground (arith, length-append u msg.unique_id, ap length has, l.bytes)

  abbrev manager : ℕ → List ℕ → RequestManager
  manager timestamp id = record { last_message_timestamp = timestamp; current_unique_id = id }

  first_stage :
      (msg : Allocation)
      → msg.first_part_of_unique_id ≡ true
      → (length msg.unique_id ≡ limits.max_in_request)
        ⊎ (length msg.unique_id ≡ limits.capacity - limits.max_in_request * 2)
      → detect_request_stage limits msg ≡ 1
  unfolding detect_request_stage
  first_stage msg flagged size = ground arith

  second_stage :
      (msg : Allocation)
      → msg.first_part_of_unique_id ≡ false
      → length msg.unique_id ≡ limits.max_in_request
      → detect_request_stage limits msg ≡ 2
  unfolding detect_request_stage
  second_stage msg flagged size = ground arith

  third_stage :
      (msg : Allocation)
      → msg.first_part_of_unique_id ≡ false
      → length msg.unique_id ≡ limits.capacity - limits.max_in_request * 2
      → detect_request_stage limits msg ≡ 3
  unfolding detect_request_stage
  third_stage msg flagged size = ground (arith, l.three_parts, l.shorter)

  expects_first : (m : RequestManager) → m.current_unique_id ≡ [] → get_expected_stage limits m ≡ 1
  unfolding get_expected_stage
  expects_first m h = ground (arith, ap length h)

  expects_second :
      (m : RequestManager)
      → length m.current_unique_id ≡ limits.max_in_request
      → get_expected_stage limits m ≡ 2
  unfolding get_expected_stage
  expects_second m h = ground (arith, l.some_bytes)

  expects_third :
      (m : RequestManager)
      → length m.current_unique_id ≡ limits.max_in_request * 2
      → get_expected_stage limits m ≡ 3
  unfolding get_expected_stage
  expects_third m h = ground (arith, l.some_bytes)

  first_published :
      (m : RequestManager) (msg : Allocation)
      → m.current_unique_id ≡ []
      → msg.is_anonymous ≡ true
      → msg.first_part_of_unique_id ≡ true
      → (length msg.unique_id ≡ limits.max_in_request)
        ⊎ (length msg.unique_id ≡ limits.capacity - limits.max_in_request * 2)
      → handle_allocation limits true m msg
        ≡ (manager msg.timestamp msg.unique_id, followup msg.unique_id ∷ [])
  first_published m msg empty anonymous flagged size =
      let detected = first_stage msg flagged size in
      let has = emptied m msg empty in
      part_published m msg [] anonymous has
        (detected ∙ sym (expects_first (reset_on_timeout limits m msg) has)) (omega arith)
        (ground (arith, l.some_bytes, l.three_parts, l.shorter))

  stalled_handler :
      (can_publish : Bool) (m : RequestManager) (msg : Allocation)
      → length m.current_unique_id ≡ limits.capacity - limits.max_in_request * 2
      → InTime m msg
      → handle_allocation limits can_publish m msg ≡ (m, [])
  unfolding handle_allocation
  stalled_handler can_publish m msg h time =
      let refused =
        ap (λ r. accept_part limits can_publish r msg) (in_time m msg time)
        ∙ stalled can_publish m msg h in
      ground arith

  -- A message of an anonymous node, flagged as the first part and of the length of a last part, comes
  -- to a manager without a part that may publish: it is published as a part, and then no message has
  -- an effect until the stage times out.
  pub short_first_part_stalls :
      (m : RequestManager) (first : Allocation)
      → m.current_unique_id ≡ []
      → first.is_anonymous ≡ true
      → first.first_part_of_unique_id ≡ true
      → length first.unique_id ≡ limits.capacity - limits.max_in_request * 2
      → let r = handle_allocation limits true m first in
        (r.1 ≡ followup first.unique_id ∷ [])
        × ((can_publish : Bool) (msg : Allocation)
            → msg.timestamp ≤ first.timestamp + limits.stage_timeout
            → handle_allocation limits can_publish r.0 msg ≡ (r.0, []))
  short_first_part_stalls m first empty anonymous flagged short =
      let published = first_published m first empty anonymous flagged (inr short) in
      rw published (
        refl,
        λ can_publish msg time.
            stalled_handler can_publish (manager first.timestamp first.unique_id) msg short time,
      )

  -- The three parts of a unique id, from an anonymous client to a manager without a part, each within
  -- the stage timeout of the one before, while follow-up responses may be published: the first two are
  -- answered with what is known, and the third hands the whole unique id over with the preference
  -- that came with it; then the manager is without a part again.
  pub three_stages :
      (m : RequestManager) (a b c : Allocation)
      → m.current_unique_id ≡ []
      → (a.is_anonymous ≡ true) × (b.is_anonymous ≡ true) × (c.is_anonymous ≡ true)
      → (a.first_part_of_unique_id ≡ true)
        × (b.first_part_of_unique_id ≡ false)
        × (c.first_part_of_unique_id ≡ false)
      → (length a.unique_id ≡ limits.max_in_request)
        × (length b.unique_id ≡ limits.max_in_request)
        × (length c.unique_id ≡ limits.capacity - limits.max_in_request * 2)
      → (b.timestamp ≤ a.timestamp + limits.stage_timeout)
        × (c.timestamp ≤ b.timestamp + limits.stage_timeout)
      → let r = handle_allocation limits true m a in
        let r' = handle_allocation limits true r.0 b in
        let r'' = handle_allocation limits true r'.0 c in
        (r.1 ≡ followup a.unique_id ∷ [])
        × (r'.1 ≡ followup (a.unique_id ++ b.unique_id) ∷ [])
        × (r''.1 ≡ allocation_request ((a.unique_id ++ b.unique_id) ++ c.unique_id) c.node_id ∷ [])
        × (r''.0.current_unique_id ≡ [])
  three_stages m a b c empty anonymous flags sizes times =
      let has_b = in_time (manager a.timestamp a.unique_id) b times.0 in
      let both = a.unique_id ++ b.unique_id in
      let has_c = in_time (manager b.timestamp both) c times.1 in
      let two : length both ≡ limits.max_in_request * 2 =
        omega (arith, length-append a.unique_id b.unique_id, sizes.0, sizes.1) in
      let detected_b = second_stage b flags.1 sizes.1 in
      let detected_c = third_stage c flags.2 sizes.2 in
      let expected_b : get_expected_stage limits
            (reset_on_timeout limits (manager a.timestamp a.unique_id) b)
          ≡ 2 =
        ap (get_expected_stage limits) has_b
        ∙ expects_second (manager a.timestamp a.unique_id) sizes.0 in
      let expected_c : get_expected_stage limits
            (reset_on_timeout limits (manager b.timestamp both) c)
          ≡ 3 =
        ap (get_expected_stage limits) has_c ∙ expects_third (manager b.timestamp both) two in
      let step_a = first_published m a empty anonymous.0 flags.0 (inl sizes.0) in
      let step_b =
        part_published (manager a.timestamp a.unique_id) b a.unique_id anonymous.1
          (ap (λ r. r.current_unique_id) has_b) (detected_b ∙ sym expected_b) (omega arith)
          (omega (arith, l.three_parts)) in
      let step_c =
        part_completes (manager b.timestamp both) c both anonymous.2
          (ap (λ r. r.current_unique_id) has_c) (detected_c ∙ sym expected_c) (omega arith)
          (omega (arith, l.three_parts)) in
      rw step_a (rw step_b (rw step_c (refl, refl, refl, refl)))

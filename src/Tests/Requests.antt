-- ===== src/Tests/Requests.antt =====
-- allocation_request_manager.hpp on small inputs: unique ids of 16 bytes, requests of 6 at most.
use uavcan.Base.{ℕ, ◌+◌, ◌≤◌, ◌≡◌, refl, Bool, true, false, List, [], ◌∷◌, ◌++◌, inl, arith}
use uavcan.NodeIdServer.AllocationRequests.{
  Limits, Allocation, followup, allocation_request, RequestManager, handle_allocation,
}
use uavcan.NodeIdServer.AllocationRequests.Partial.{
  AreLimits, IsPartial, AreComplete, handle_allocation-IsPartial,
}
use uavcan.NodeIdServer.AllocationRequests.Stages.{short_first_part_stalls, three_stages}

abbrev limits : Limits
limits = record { capacity = 16; max_in_request = 6; stage_timeout = 500 }

limits-AreLimits : AreLimits limits
limits-AreLimits = record {
  some_bytes = omega arith;
  three_parts = omega arith;
  shorter = omega arith;
  bytes = omega arith;
}

abbrev idle : RequestManager
idle = record { last_message_timestamp = 40; current_unique_id = [] }

abbrev part : List ℕ → Bool → ℕ → Allocation
part bytes first timestamp = record {
  unique_id = bytes;
  first_part_of_unique_id = first;
  node_id = 72;
  is_anonymous = true;
  timestamp = timestamp;
}

abbrev a : Allocation
a = part (1 ∷ 2 ∷ 3 ∷ 4 ∷ 5 ∷ 6 ∷ []) true 1000

abbrev b : Allocation
b = part (7 ∷ 8 ∷ 9 ∷ 10 ∷ 11 ∷ 12 ∷ []) false 1400

abbrev c : Allocation
c = part (13 ∷ 14 ∷ 15 ∷ 16 ∷ []) false 1800

three_stages_example :
    let r = handle_allocation limits true idle a in
    let r' = handle_allocation limits true r.0 b in
    let r'' = handle_allocation limits true r'.0 c in
    (r.1 ≡ followup a.unique_id ∷ [])
    × (r'.1 ≡ followup (a.unique_id ++ b.unique_id) ∷ [])
    × (r''.1 ≡ allocation_request ((a.unique_id ++ b.unique_id) ++ c.unique_id) 72 ∷ [])
    × (r''.0.current_unique_id ≡ [])
three_stages_example =
    three_stages limits limits-AreLimits idle a b c refl (refl, refl, refl) (refl, refl, refl)
      (refl, refl, omega arith) (omega arith, omega arith)

abbrev short : Allocation
short = part (1 ∷ 2 ∷ 3 ∷ 4 ∷ []) true 1000

short_first_part_stalls_example :
    let r = handle_allocation limits true idle short in
    (r.1 ≡ followup (1 ∷ 2 ∷ 3 ∷ 4 ∷ []) ∷ [])
    × ((can_publish : Bool) (msg : Allocation)
        → msg.timestamp ≤ 1000 + 500
        → handle_allocation limits can_publish r.0 msg ≡ (r.0, []))
short_first_part_stalls_example =
    short_first_part_stalls limits limits-AreLimits idle short refl refl refl (omega arith)

idle-IsPartial : IsPartial limits idle
idle-IsPartial = record { parts = inl refl }

handle_allocation-IsPartial_example :
    let r = handle_allocation limits true idle a in IsPartial limits r.0 × AreComplete limits r.1
handle_allocation-IsPartial_example =
    handle_allocation-IsPartial limits limits-AreLimits true idle a idle-IsPartial

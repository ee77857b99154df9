-- ===== src/NodeIdServer/Selector.antt =====
-- NodeIDSelector::findFreeNodeID of node_id_selector.hpp; `is_taken` is the owner's test. The invalid
-- node id is 0xFF. Each loop counts what is left of its range, so that it ends.
use uavcan.Base.{
  ℕ, zero, suc, ◌+◌, ◌-◌, ◌≤◌, ◌<◌, ◌≡◌, refl, ◌⊎◌, inl, inr, Bool, true, false, not, Option, none,
  some, if◌then◌else◌, Bool-cases, Option-cases, arith,
}
use uavcan.Transport.Transfer.{is_unicast}

-- NodeID::MaxRecommendedForRegularNodes.
abbrev pub max_recommended : ℕ
max_recommended = 125

-- The first loop, over `count` candidates from `candidate` up.
unfoldable pub search_up : (ℕ → Bool) → ℕ → ℕ → Option ℕ
search_up is_taken zero candidate = none
search_up is_taken (suc count) candidate =
    let rest = search_up is_taken count (candidate + 1) in
    if not (is_taken candidate) then some candidate else rest

-- The second loop, from `candidate` down to 1.
unfoldable pub search_down : (ℕ → Bool) → ℕ → Option ℕ
search_down is_taken zero = none
search_down is_taken (suc candidate) =
    let rest = search_down is_taken candidate in
    if not (is_taken (suc candidate)) then some (suc candidate) else rest

abbrev first_candidate : ℕ → ℕ
first_candidate preferred = if is_unicast preferred then preferred else max_recommended

unfoldable pub find_free_node_id : (ℕ → Bool) → ℕ → ℕ
find_free_node_id is_taken preferred =
    let first = first_candidate preferred in
    elim (search_up is_taken (max_recommended + 1 - first) first) [
      | some found ↦ found
      | none ↦ elim (search_down is_taken first) [ some found ↦ found | none ↦ 255 ]
    ]

module _ (is_taken : ℕ → Bool) where
  search_up_found :
      (count candidate found : ℕ)
      → search_up is_taken count candidate ≡ some found
      → (is_taken found ≡ false) × (candidate ≤ found) × (found < candidate + count)
  unfolding search_up
  search_up_found zero candidate found h = absurd (ground arith)
  search_up_found (suc count) candidate found h = elim (Bool-cases (is_taken candidate)) [
    | inl t ↦
        let rest = search_up_found count (candidate + 1) found (ground arith) in
        (rest.0, omega arith, omega arith)
    | inr f ↦ ground arith
  ]

  search_up-none :
      (count candidate n : ℕ)
      → search_up is_taken count candidate ≡ none
      → candidate ≤ n
      → n < candidate + count
      → is_taken n ≡ true
  unfolding search_up
  search_up-none zero candidate n h le lt = absurd (omega arith)
  search_up-none (suc count) candidate n h le lt =
      let rest = search_up-none count (candidate + 1) n in ground arith

  search_down_found :
      (candidate found : ℕ)
      → search_down is_taken candidate ≡ some found
      → (is_taken found ≡ false) × (0 < found) × (found ≤ candidate)
  unfolding search_down
  search_down_found zero found h = absurd (ground arith)
  search_down_found (suc candidate) found h =
      let rest = search_down_found candidate found in ground arith

  search_down-none :
      (candidate n : ℕ)
      → search_down is_taken candidate ≡ none
      → 0 < n
      → n ≤ candidate
      → is_taken n ≡ true
  unfolding search_down
  search_down-none zero n h pos le = absurd (omega arith)
  search_down-none (suc candidate) n h pos le =
      let rest = search_down-none candidate n in ground arith

  first_candidate_bounds :
      (preferred : ℕ)
      → (0 < first_candidate preferred)
        × (first_candidate preferred ≤ 127)
        × (0 < preferred → preferred ≤ 127 → first_candidate preferred ≡ preferred)
  first_candidate_bounds preferred = ground arith

  -- What find_free_node_id gives by the results of the two searches.
  from_searches :
      (first id : ℕ)
      → 0 < first
      → first ≤ 127
      → (let up = search_up is_taken (max_recommended + 1 - first) first in
          (up ≡ some id) ⊎ ((up ≡ none) × (search_down is_taken first ≡ some id)))
      → (is_taken id ≡ false) × (0 < id) × (id ≤ 127)
  from_searches first id pos le h =
      let up = search_up_found (max_recommended + 1 - first) first id in
      let down = search_down_found first id in ground arith

  all_taken :
      (first n : ℕ)
      → search_up is_taken (max_recommended + 1 - first) first ≡ none
      → search_down is_taken first ≡ none
      → 0 < n
      → n ≤ 125
      → is_taken n ≡ true
  all_taken first n up down pos le =
      let above = search_up-none (max_recommended + 1 - first) first n in
      let below = search_down-none first n in ground arith

  -- Whatever id is preferred: the result is a free id of 1 to 127, or it is invalid and all the ids
  -- from 1 to 125 are taken.
  pub find_free_node_id_free :
      (preferred : ℕ)
      → let id = find_free_node_id is_taken preferred in
        ((is_taken id ≡ false) × (0 < id) × (id ≤ 127))
        ⊎ ((id ≡ 255) × ((n : ℕ) → 0 < n → n ≤ 125 → is_taken n ≡ true))
  unfolding find_free_node_id
  find_free_node_id_free preferred =
      let first = first_candidate preferred in
      let (pos, le, same) = first_candidate_bounds preferred in
      elim (Option-cases (search_up is_taken (max_recommended + 1 - first) first)) [
        | inr (id, up) ↦ rw (find_free_node_id, up) (inl (from_searches first id pos le (inl up)))
        | inl up ↦ elim (Option-cases (search_down is_taken first)) [
          | inr (id, down) ↦
              rw (find_free_node_id, up, down)
                (inl (from_searches first id pos le (inr (up, down))))
          | inl down ↦
              rw (find_free_node_id, up, down)
                (inr (refl, λ n n_pos n_le. all_taken first n up down n_pos n_le))
        ]
      ]

  search_up_first :
      (count candidate : ℕ)
      → is_taken candidate ≡ false
      → (search_up is_taken count candidate ≡ none)
        ⊎ (search_up is_taken count candidate ≡ some candidate)
  unfolding search_up
  search_up_first zero candidate free = inl refl
  search_up_first (suc count) candidate free = ground arith

  search_down_first :
      (candidate : ℕ)
      → is_taken candidate ≡ false
      → 0 < candidate
      → search_down is_taken candidate ≡ some candidate
  unfolding search_down
  search_down_first zero free pos = absurd (omega arith)
  search_down_first (suc candidate) free pos = ground arith

  -- A preferred id of 1 to 127 that is free is the result.
  pub find_free_node_id_preferred :
      (preferred : ℕ)
      → 0 < preferred
      → preferred ≤ 127
      → is_taken preferred ≡ false
      → find_free_node_id is_taken preferred ≡ preferred
  unfolding find_free_node_id
  find_free_node_id_preferred preferred pos le free =
      let first = (first_candidate_bounds preferred).2 pos le in
      let up = search_up_first (max_recommended + 1 - preferred) preferred free in
      let down = search_down_first preferred free pos in ground arith

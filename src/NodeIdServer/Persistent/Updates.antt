-- ===== src/NodeIdServer/Persistent/Updates.antt =====
-- distributed/persistent_state.hpp: what the setters leave in memory and in the storage, for every
-- storage.
use uavcan.Base.{ℕ, ◌≤◌, ◌≡◌, ◌≢◌, ◌⊎◌, some, List, arith}
use uavcan.NodeIdServer.{ok}
use uavcan.NodeIdServer.Storage.{Backend, get_number, set_and_get_back}
use uavcan.NodeIdServer.Persistent.{
  Persistent, store, set_current_term, set_voted_for, current_term_key, voted_for_key,
}

module _ {S : Type 0} (b : Backend S) where
  store_read_back :
      (s : S) (key : List ℕ) (value : ℕ)
      → let (res, s') = store b s key value in res ≡ ok → get_number b s' key ≡ some value
  unfolding store set_and_get_back
  store_read_back s key value = λ done. ground arith

  -- An update of the term succeeds only where the term is not lower than the one in memory, and then
  -- memory has it and the storage gives it back; one that fails leaves the term in memory. The vote,
  -- the entries and the last index stay in either case.
  pub set_current_term_outcome :
      (p : Persistent S) (term : ℕ)
      → let (res, q) = set_current_term b p term in
        (q.voted_for ≡ p.voted_for)
        × (q.log.entries ≡ p.log.entries)
        × (q.log.last_index ≡ p.log.last_index)
        × (((res ≡ ok)
              × (p.current_term ≤ term)
              × (q.current_term ≡ term)
              × (get_number b q.log.storage current_term_key ≡ some term))
            ⊎ ((res ≢ ok) × (q.current_term ≡ p.current_term)))
  unfolding set_current_term
  set_current_term_outcome p term =
      let back = store_read_back p.log.storage current_term_key term in ground arith

  -- A vote is set only where its id is valid, and then memory has it and the storage gives it back;
  -- an update that fails leaves the vote in memory. The term stays.
  pub set_voted_for_outcome :
      (p : Persistent S) (node_id : ℕ)
      → let (res, q) = set_voted_for b p node_id in
        (q.current_term ≡ p.current_term)
        × (((res ≡ ok)
              × (node_id ≤ 127)
              × (q.voted_for ≡ node_id)
              × (get_number b q.log.storage voted_for_key ≡ some node_id))
            ⊎ ((res ≢ ok) × (q.voted_for ≡ p.voted_for)))
  unfolding set_voted_for
  set_voted_for_outcome p node_id =
      let back = store_read_back p.log.storage voted_for_key node_id in ground arith

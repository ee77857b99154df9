-- ===== src/NodeIdServer.antt =====
-- libuavcan/include/uavcan/protocol/dynamic_node_id_server: the distributed allocator of node ids.
-- The results of its calls and the entries of its log, whose fields are those of the message type
-- Entry: a term of 32 bits, a unique id of 16 bytes and a node id.
pub mod Storage
pub mod Log
pub mod Persistent
pub mod Cluster
pub mod Raft
pub mod Selector
pub mod AllocationRequests
pub use uavcan.Transport.Sender.{err_logic}
use uavcan.Base.{ℕ, ◌≡◌, refl, ◌⊎◌, inl, inr, Bool, true, false, ◌&&◌, List, [], ◌∷◌, ◌==◌}

-- 0 for `ok`, and the negative number of the error for `err`.
pub data Status : Type 0 where
  ok : Status
  err : ℕ → Status

abbrev pub err_failure : ℕ
err_failure = 1

abbrev pub err_invalid_param : ℕ
err_invalid_param = 2

abbrev pub err_invalid_configuration : ℕ
err_invalid_configuration = 13

pub record LogEntry : Type 0 where
  pub term : ℕ
  pub unique_id : List ℕ
  pub node_id : ℕ

-- The default-initialised entry, which stands at index 0.
abbrev pub empty_entry : LogEntry
empty_entry = record {
  term = 0;
  unique_id = 0 ∷ 0 ∷ 0 ∷ 0 ∷ 0 ∷ 0 ∷ 0 ∷ 0 ∷ 0 ∷ 0 ∷ 0 ∷ 0 ∷ 0 ∷ 0 ∷ 0 ∷ 0 ∷ [];
  node_id = 0;
}

abbrev pub same_bytes : List ℕ → List ℕ → Bool
same_bytes [] [] = true
same_bytes [] (y ∷ ys) = false
same_bytes (x ∷ xs) [] = false
same_bytes (x ∷ xs) (y ∷ ys) = x == y && same_bytes xs ys

abbrev pub same_entry : LogEntry → LogEntry → Bool
same_entry a b = a.term == b.term && same_bytes a.unique_id b.unique_id && a.node_id == b.node_id

pub Status-cases : (s : Status) → (s ≡ ok) ⊎ ((e : ℕ) × (s ≡ err e))
Status-cases ok = inl refl
Status-cases (err e) = inr (e, refl)

-- ===== src/NodeIdServer/Raft/Votes/Stale.antt =====
-- raft_core.hpp, tryIncrementCurrentTermFromResponse: the vote after a newer term in a response.
use uavcan.Base.{ℕ, ◌<◌, ◌^◌, ◌≡◌, refl, ◌≢◌, true, false, List, [], ◌∷◌, map, some, arith}
use uavcan.Transport.Transfer.{is_unicast}
use uavcan.NodeIdServer.Storage.{Backend}
use uavcan.NodeIdServer.Storage.Faithful.{IsFaithful}
use uavcan.NodeIdServer.Persistent.{set_current_term}
use uavcan.NodeIdServer.Cluster.{
  Server, is_listed, is_known_server, reset_indices, reset_all_server_indices,
}
use uavcan.NodeIdServer.Raft.{
  VoteRequest, VoteResponse, Raft, Config, Env, register_activity, switch_state,
}
use uavcan.NodeIdServer.Raft.Requests.{answer_vote, handle_request_vote_request}
use uavcan.NodeIdServer.Raft.Responses.{try_increment_current_term, handle_request_vote_response}
use uavcan.NodeIdServer.Raft.Elections.{set_current_term-ok}

is_listed-reset_indices :
    (last_index : ℕ) (servers : List Server) (n : ℕ)
    → is_listed (map (reset_indices last_index) servers) n ≡ is_listed servers n
unfolding is_listed
is_listed-reset_indices last_index [] n = refl
is_listed-reset_indices last_index (s ∷ servers) n =
    rw (is_listed-reset_indices last_index servers n) refl

module _ {S : Type 0} (b : Backend S) (c : Config) where
  newer_term_state :
      (e : Env) (r : Raft S) (response : VoteResponse) (src : ℕ)
      → IsFaithful b
      → r.persistent.current_term < response.term
      → response.term < 2 ^ 32
      → let r' = handle_request_vote_response b c e r (some response) in
        (r'.persistent.current_term ≡ response.term)
        × (r'.persistent.voted_for ≡ r.persistent.voted_for)
        × (is_listed r'.cluster.servers src ≡ is_listed r.cluster.servers src)
  unfolding handle_request_vote_response try_increment_current_term register_activity switch_state
      reset_all_server_indices
  newer_term_state e r response src f newer lt =
      let raised = set_current_term-ok b r.persistent response.term f (omega arith) lt in
      let p = (set_current_term b r.persistent response.term).1 in
      let listed = is_listed-reset_indices p.log.last_index r.cluster.servers src in ground arith

  vote_refused :
      (e : Env) (r : Raft S) (src : ℕ) (request : VoteRequest)
      → is_unicast r.persistent.voted_for ≡ true
      → src ≢ r.persistent.voted_for
      → request.term ≡ r.persistent.current_term
      → is_listed r.cluster.servers src ≡ true
      → (handle_request_vote_request b c e r src request).0
        ≡ some (record { term = r.persistent.current_term; vote_granted = false })
  unfolding handle_request_vote_request answer_vote is_known_server
  vote_refused e r src request voted other same known = ground arith

  -- On a storage that works: after a response to a campaign that carries a newer term, the vote of
  -- the old term still stands, so that a request of this newer term from another server that is
  -- listed is refused.
  pub newer_term_keeps_vote :
      (e e' : Env) (r : Raft S) (response : VoteResponse) (src : ℕ) (request : VoteRequest)
      → IsFaithful b
      → is_unicast r.persistent.voted_for ≡ true
      → src ≢ r.persistent.voted_for
      → r.persistent.current_term < response.term
      → response.term < 2 ^ 32
      → request.term ≡ response.term
      → is_listed r.cluster.servers src ≡ true
      → let r' = handle_request_vote_response b c e r (some response) in
        (handle_request_vote_request b c e' r' src request).0
        ≡ some (record { term = response.term; vote_granted = false })
  newer_term_keeps_vote e e' r response src request f voted other newer lt same known =
      let r' = handle_request_vote_response b c e r (some response) in
      let (term, vote, listed) = newer_term_state e r response src f newer lt in
      let refused =
        vote_refused e' r' src request (ground arith) (ground arith) (ground arith)
          (ground arith) in
      ground arith

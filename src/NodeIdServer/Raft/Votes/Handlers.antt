-- ===== src/NodeIdServer/Raft/Votes/Handlers.antt =====
-- raft_core.hpp: what each handler does to the term and the vote.
use uavcan.Base.{
  ℕ, ◌+◌, ◌%◌, ◌^◌, ◌≡◌, inl, inr, true, List, Option, none, some, sym, subst, Option-cases, arith,
}
use uavcan.Transport.Transfer.{is_unicast}
use uavcan.NodeIdServer.Storage.{Backend}
use uavcan.NodeIdServer.Persistent.{set_current_term, set_voted_for}
use uavcan.NodeIdServer.Raft.{
  follower, candidate, leader, AppendRequest, VoteRequest, AppendResponse, VoteResponse, Raft,
  Config, Env, emit, cancel_append_calls, register_activity, switch_state, handle_update_error,
  adopt_term,
}
use uavcan.NodeIdServer.Raft.Timer.{
  update_follower, start_campaign, update_candidate, propagate_commit_index, send_append_entries,
  update_leader, handle_timer_event,
}
use uavcan.NodeIdServer.Raft.Requests.{
  admit, accept_entries, follow_leader, serve_leader, handle_append_entries_request, answer_vote,
  handle_request_vote_request,
}
use uavcan.NodeIdServer.Raft.Responses.{
  try_increment_current_term, handle_append_entries_response, handle_request_vote_response,
  append_log,
}
use uavcan.NodeIdServer.Raft.Votes.{
  IsLater, IsLater-refl, set_current_term_result, set_voted_for-current_term,
  set_voted_for-voted_for, switch_state-persistent, handle_update_error-persistent,
  adopt_term-Later,
}

-- The change of a handler, from a state to a later one.
abbrev pub Keeps : {S : Type 0} → Env → Raft S → Raft S → Type 0
Keeps e r r' = IsLater e.self r.persistent r'.persistent

same_persistent :
    {S : Type 0} → (e : Env) (r r' : Raft S) → r'.persistent ≡ r.persistent → Keeps e r r'
same_persistent e r r' h =
    subst (λ p. IsLater e.self r.persistent p) (sym h) (IsLater-refl r.persistent)

module _ {S : Type 0} (b : Backend S) (c : Config) (e : Env) where
  update_follower-Keeps : (r : Raft S) → Keeps e r (update_follower c e r)
  unfolding update_follower register_activity
  update_follower-Keeps r = let kept = switch_state-persistent candidate r in ground arith

  start_campaign-Keeps : (r : Raft S) → Keeps e r (start_campaign b c e r)
  unfolding start_campaign
  start_campaign-Keeps r =
      let p1 = (set_voted_for b r.persistent e.self).1 in
      let p2 = (set_current_term b p1 ((p1.current_term + 1) % 2 ^ 32)).1 in
      let same_term = set_voted_for-current_term b r.persistent e.self in
      let vote = set_voted_for-voted_for b r.persistent e.self in
      let next_term = set_current_term_result b p1 ((p1.current_term + 1) % 2 ^ 32) in
      let e1 = handle_update_error-persistent b c e (record r { persistent = p1 }) in
      let e2 = handle_update_error-persistent b c e (record r { persistent = p2 }) in ground arith

  update_candidate-Keeps : (r : Raft S) → Keeps e r (update_candidate b c e r)
  unfolding update_candidate
  update_candidate-Keeps r =
      let won = switch_state-persistent leader r in
      let lost = switch_state-persistent follower r in
      let campaign = start_campaign-Keeps r in ground arith

  propagate_commit_index-persistent :
      (r : Raft S) → (propagate_commit_index r).persistent ≡ r.persistent
  unfolding propagate_commit_index
  propagate_commit_index-persistent r = ground arith

  send_append_entries-persistent :
      (r : Raft S) → (send_append_entries c e r).1.persistent ≡ r.persistent
  unfolding send_append_entries handle_update_error register_activity switch_state
  send_append_entries-persistent r = ground arith

  update_leader-Keeps : (r : Raft S) → Keeps e r (update_leader c e r)
  unfolding update_leader
  update_leader-Keeps r =
      let r0 = emit cancel_append_calls r in
      let sent = send_append_entries-persistent r0 in
      let r1 = (send_append_entries c e r0).1 in
      let alone = propagate_commit_index-persistent r0 in
      let after = propagate_commit_index-persistent r1 in
      same_persistent e r (update_leader c e r) (ground arith)

  pub handle_timer_event-Keeps : (r : Raft S) → Keeps e r (handle_timer_event b c e r)
  unfolding handle_timer_event
  handle_timer_event-Keeps r =
      let f = update_follower-Keeps r in
      let d = update_candidate-Keeps r in
      let l = update_leader-Keeps r in
      elim r.server_state
        as (λ s. Keeps e r (elim s [
          | follower ↦ update_follower c e r
          | candidate ↦ update_candidate b c e r
          | leader ↦ update_leader c e r
        ])) [ follower ↦ f | candidate ↦ d | leader ↦ l ]

  -- A change of the log alone.
  accept_entries-Keeps :
      (r : Raft S) (request : AppendRequest) → Keeps e r (accept_entries b r request).1
  unfolding accept_entries
  accept_entries-Keeps r request = ground arith

  follow_leader-Keeps :
      (r : Raft S) (request : AppendRequest) → Keeps e r (follow_leader b c e r request).1
  unfolding follow_leader register_activity
  follow_leader-Keeps r request =
      let active = register_activity c e r in
      let r0 = switch_state follower active in
      let same = switch_state-persistent follower active in
      let accepted = accept_entries-Keeps r0 request in ground arith

  admit-persistent :
      (src : ℕ) (r r0 : Raft S) → admit e src r ≡ some r0 → r0.persistent ≡ r.persistent
  unfolding admit
  admit-persistent src r r0 h = ground arith

  serve_leader-Keeps :
      (r : Raft S) (request : AppendRequest)
      → is_unicast e.self ≡ true
      → Keeps e r (serve_leader b c e r request).1
  unfolding serve_leader
  serve_leader-Keeps r request hs =
      let r1 = (adopt_term b c e r request.term).1 in
      let adopted = adopt_term-Later b c e r request.term in
      let followed = follow_leader-Keeps r1 request in
      let at_once = follow_leader-Keeps r request in ground arith

  pub handle_append_entries_request-Keeps :
      (src : ℕ) (r : Raft S) (request : AppendRequest)
      → is_unicast e.self ≡ true
      → Keeps e r (handle_append_entries_request b c e r src request).1
  unfolding handle_append_entries_request
  handle_append_entries_request-Keeps src r request hs = elim (Option-cases (admit e src r)) [
    | inl f ↦ rw (handle_append_entries_request, f) (IsLater-refl r.persistent)
    | inr (r0, h) ↦
        rw (handle_append_entries_request, h)
          (subst (λ p. IsLater e.self p (serve_leader b c e r0 request).1.persistent)
            (admit-persistent src r r0 h) (serve_leader-Keeps r0 request hs))
  ]

  answer_vote-Keeps :
      (src : ℕ) (r : Raft S) (request : VoteRequest) → Keeps e r (answer_vote b c e r src request).1
  unfolding answer_vote register_activity
  answer_vote-Keeps src r request =
      let same = switch_state-persistent follower r in
      let voter = register_activity c e (switch_state follower r) in
      let same_term = set_voted_for-current_term b voter.persistent src in
      let vote = set_voted_for-voted_for b voter.persistent src in ground arith

  pub handle_request_vote_request-Keeps :
      (src : ℕ) (r : Raft S) (request : VoteRequest)
      → is_unicast e.self ≡ true
      → Keeps e r (handle_request_vote_request b c e r src request).1
  unfolding handle_request_vote_request
  handle_request_vote_request-Keeps src r request hs =
      let r0 = switch_state follower r in
      let r1 = (adopt_term b c e r0 request.term).1 in
      let same = switch_state-persistent follower r in
      let adopted = adopt_term-Later b c e r0 request.term in
      let answered = answer_vote-Keeps src r1 request in
      let at_once = answer_vote-Keeps src r request in ground arith

  try_increment_current_term-Keeps :
      (r : Raft S) (term : ℕ) → Keeps e r (try_increment_current_term b c e r term)
  unfolding try_increment_current_term register_activity
  try_increment_current_term-Keeps r term =
      let p = (set_current_term b r.persistent term).1 in
      let raised = set_current_term_result b r.persistent term in
      let same =
        switch_state-persistent follower (register_activity c e (record r { persistent = p })) in
      ground arith

  pub handle_append_entries_response-Keeps :
      (server : ℕ) (r : Raft S) (response : Option AppendResponse)
      → Keeps e r (handle_append_entries_response b c e r server response)
  unfolding handle_append_entries_response
  handle_append_entries_response-Keeps server r none = IsLater-refl r.persistent
  handle_append_entries_response-Keeps server r (some response) =
      let raised = try_increment_current_term-Keeps r response.term in ground arith

  pub handle_request_vote_response-Keeps :
      (r : Raft S) (response : Option VoteResponse)
      → Keeps e r (handle_request_vote_response b c e r response)
  unfolding handle_request_vote_response
  handle_request_vote_response-Keeps r none = IsLater-refl r.persistent
  handle_request_vote_response-Keeps r (some response) =
      let raised = try_increment_current_term-Keeps r response.term in ground arith

  pub append_log-Keeps :
      (r : Raft S) (unique_id : List ℕ) (node_id : ℕ)
      → Keeps e r (append_log b c e r unique_id node_id)
  unfolding append_log handle_update_error switch_state register_activity
  append_log-Keeps r unique_id node_id = ground arith

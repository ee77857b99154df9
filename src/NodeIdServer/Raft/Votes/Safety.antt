-- ===== src/NodeIdServer/Raft/Votes/Safety.antt =====
-- raft_core.hpp: the votes of a server in one term, over any run of events and any storage.
use uavcan.Base.{ℕ, ◌<◌, ◌≡◌, ◌≢◌, ◌⊎◌, true, false, List, [], ◌∷◌, some, arith}
use uavcan.Transport.Transfer.{is_unicast}
use uavcan.NodeIdServer.Storage.{Backend, get_number}
use uavcan.NodeIdServer.Persistent.{voted_for_key}
use uavcan.NodeIdServer.Persistent.Updates.{set_voted_for_outcome}
use uavcan.NodeIdServer.Raft.{
  follower, VoteRequest, Raft, Config, Env, register_activity, switch_state, adopt_term,
}
use uavcan.NodeIdServer.Raft.Requests.{answer_vote, handle_request_vote_request}
use uavcan.NodeIdServer.Raft.Events.{
  Event, At, timer, append_request, append_response, vote_request, vote_response, discovery,
  discovery_timer, new_entry, env, handle_event, run,
}
use uavcan.NodeIdServer.Raft.Votes.{
  IsLater, IsLater-refl, Later-trans, set_voted_for-current_term, set_voted_for-voted_for,
  switch_state-persistent, adopt_term_newer,
}
use uavcan.NodeIdServer.Raft.Votes.Handlers.{
  handle_timer_event-Keeps, handle_append_entries_request-Keeps,
  handle_append_entries_response-Keeps, handle_request_vote_request-Keeps,
  handle_request_vote_response-Keeps, append_log-Keeps,
}

module _ {S : Type 0} (b : Backend S) (c : Config) (self : ℕ) where
  handle_event-IsLater :
      (a : At) (r : Raft S) (x : Event)
      → is_unicast self ≡ true
      → IsLater self r.persistent (handle_event b c self (env b c self a) r x).persistent
  unfolding handle_event
  handle_event-IsLater a r timer hs = handle_timer_event-Keeps b c (env b c self a) r
  handle_event-IsLater a r (append_request src request) hs =
      handle_append_entries_request-Keeps b c (env b c self a) src r request hs
  handle_event-IsLater a r (append_response server response) hs =
      handle_append_entries_response-Keeps b c (env b c self a) server r response
  handle_event-IsLater a r (vote_request src request) hs =
      handle_request_vote_request-Keeps b c (env b c self a) src r request hs
  handle_event-IsLater a r (vote_response response) hs =
      handle_request_vote_response-Keeps b c (env b c self a) r response
  handle_event-IsLater a r (discovery msg) hs = IsLater-refl r.persistent
  handle_event-IsLater a r discovery_timer hs = IsLater-refl r.persistent
  handle_event-IsLater a r (new_entry unique_id node_id) hs =
      append_log-Keeps b c (env b c self a) r unique_id node_id

  -- Over any run of events of a server with a unicast id, whatever the storage does: the term never
  -- falls, and while it stays the same a vote that was set is kept or becomes the server's own.
  pub run-IsLater :
      (r : Raft S) (events : List At)
      → is_unicast self ≡ true
      → IsLater self r.persistent (run b c self r events).persistent
  unfolding run
  run-IsLater r [] hs = IsLater-refl r.persistent
  run-IsLater r (a ∷ events) hs =
      let r' = handle_event b c self (env b c self a) r a.event in
      let r'' = run b c self r' events in
      Later-trans self r.persistent.current_term r.persistent.voted_for r'.persistent.current_term
        r'.persistent.voted_for r''.persistent.current_term r''.persistent.voted_for hs
        (handle_event-IsLater a r a.event hs) (run-IsLater r' events hs)

  answer_vote_granted :
      (e : Env) (src : ℕ) (r : Raft S) (request : VoteRequest) (term : ℕ)
      → let (response, r') = answer_vote b c e r src request in
        response ≡ some (record { term = term; vote_granted = true })
        → (term ≡ r.persistent.current_term)
          × (r'.persistent.current_term ≡ term)
          × (r'.persistent.voted_for ≡ src)
          × ((is_unicast r.persistent.voted_for ≡ false) ⊎ (r.persistent.voted_for ≡ src))
  unfolding answer_vote register_activity
  answer_vote_granted e src r request term = λ h.
      let same = switch_state-persistent follower r in
      let voter = register_activity c e (switch_state follower r) in
      let same_term = set_voted_for-current_term b voter.persistent src in
      let vote = set_voted_for-voted_for b voter.persistent src in ground arith

  answer_vote_stored :
      (e : Env) (src : ℕ) (r : Raft S) (request : VoteRequest) (term : ℕ)
      → let (response, r') = answer_vote b c e r src request in
        response ≡ some (record { term = term; vote_granted = true })
        → get_number b r'.persistent.log.storage voted_for_key ≡ some src
  unfolding answer_vote
  answer_vote_stored e src r request term = λ h.
      let voter = register_activity c e (switch_state follower r) in
      let stored = set_voted_for_outcome b voter.persistent src in ground arith

  -- What a granted vote says of the state before and after it.
  pub granted_vote :
      (e : Env) (src : ℕ) (r : Raft S) (request : VoteRequest) (term : ℕ)
      → let (response, r') = handle_request_vote_request b c e r src request in
        response ≡ some (record { term = term; vote_granted = true })
        → (r'.persistent.current_term ≡ term)
          × (r'.persistent.voted_for ≡ src)
          × ((r.persistent.current_term < term)
              ⊎ ((r.persistent.current_term ≡ term)
                  × ((is_unicast r.persistent.voted_for ≡ false) ⊎ (r.persistent.voted_for ≡ src))))
  unfolding handle_request_vote_request
  granted_vote e src r request term = λ h.
      let r1 = (adopt_term b c e (switch_state follower r) request.term).1 in
      let newer = adopt_term_newer b c e (switch_state follower r) request.term in
      let same = switch_state-persistent follower r in
      let adopted = answer_vote_granted e src r1 request term in
      let at_once = answer_vote_granted e src r request term in ground arith

  -- A server with a unicast id that grants two votes in one term, with any run of events between
  -- them and whatever the storage does, grants them to the same candidate, where the first candidate
  -- has a unicast id and the second is not the server itself.
  pub one_vote_per_term :
      (r : Raft S) (e₁ e₂ : Env) (src₁ src₂ : ℕ) (request₁ request₂ : VoteRequest)
      (events : List At) (term : ℕ)
      → let (response₁, r₁) = handle_request_vote_request b c e₁ r src₁ request₁ in
        let r₂ = run b c self r₁ events in
        let (response₂, r₃) = handle_request_vote_request b c e₂ r₂ src₂ request₂ in
        is_unicast self ≡ true
        → is_unicast src₁ ≡ true
        → src₂ ≢ self
        → response₁ ≡ some (record { term = term; vote_granted = true })
        → response₂ ≡ some (record { term = term; vote_granted = true })
        → src₁ ≡ src₂
  one_vote_per_term r e₁ e₂ src₁ src₂ request₁ request₂ events term = λ hs h1 h2 g1 g2.
      let r₁ = (handle_request_vote_request b c e₁ r src₁ request₁).1 in
      let r₂ = run b c self r₁ events in
      let first = granted_vote e₁ src₁ r request₁ term g1 in
      let second = granted_vote e₂ src₂ r₂ request₂ term g2 in
      let between = run-IsLater r₁ events hs in ground arith

  -- A vote that is granted is in the storage as well: the storage gives it back.
  pub granted_vote_stored :
      (e : Env) (src : ℕ) (r : Raft S) (request : VoteRequest) (term : ℕ)
      → let (response, r') = handle_request_vote_request b c e r src request in
        response ≡ some (record { term = term; vote_granted = true })
        → get_number b r'.persistent.log.storage voted_for_key ≡ some src
  unfolding handle_request_vote_request
  granted_vote_stored e src r request term = λ h.
      let r1 = (adopt_term b c e (switch_state follower r) request.term).1 in
      let adopted = answer_vote_stored e src r1 request term in
      let at_once = answer_vote_stored e src r request term in ground arith

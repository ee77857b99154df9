-- ===== src/NodeIdServer/Raft/Elections.antt =====
-- raft_core.hpp: a campaign, from the timer event that starts it to the one that counts the votes, on
-- a storage that works.
use uavcan.Base.{
  ℕ, ◌+◌, ◌%◌, ◌^◌, ◌≤◌, ◌<◌, ◌≡◌, sym, ap, ◌∙◌, subst, true, List, [], ◌∷◌, length, some, leb,
  if◌then◌else◌, arith,
}
use uavcan.NodeIdServer.{ok}
use uavcan.NodeIdServer.Storage.{Backend, set_and_get_back}
use uavcan.NodeIdServer.Storage.Faithful.{IsFaithful, get_number-set}
use uavcan.NodeIdServer.Persistent.{
  Persistent, store, current_term_key, voted_for_key, set_current_term, set_voted_for,
}
use uavcan.NodeIdServer.Cluster.{Cluster, get_quorum_size}
use uavcan.NodeIdServer.Raft.{follower, candidate, leader, Raft, Config, Env, switch_state}
use uavcan.NodeIdServer.Raft.Timer.{start_campaign, update_candidate, handle_timer_event}
use uavcan.NodeIdServer.Raft.Responses.{handle_request_vote_response}
use uavcan.NodeIdServer.Raft.Events.{At, vote_response, handle_event, run, env}

-- Granted votes, each of some term that is no higher than `term`.
abbrev pub AreVotes : ℕ → List At → Type 0
AreVotes term [] = Unit
AreVotes term (a ∷ given) =
    ((t : ℕ) × (t ≤ term)
      × (a.event ≡ vote_response (some (record { term = t; vote_granted = true }))))
    × AreVotes term given

module _ {S : Type 0} (b : Backend S) where
  store-ok :
      (s : S) (key : List ℕ) (value : ℕ)
      → IsFaithful b
      → value < 2 ^ 32
      → (store b s key value).0 ≡ ok
  unfolding store set_and_get_back
  store-ok s key value f lt = let back = get_number-set b s key value f lt in ground arith

  pub set_voted_for-ok :
      (p : Persistent S) (node_id : ℕ)
      → IsFaithful b
      → node_id ≤ 127
      → let (res, q) = set_voted_for b p node_id in
        (res ≡ ok) × (q.voted_for ≡ node_id) × (q.current_term ≡ p.current_term)
  unfolding set_voted_for
  set_voted_for-ok p node_id f le =
      let stored = store-ok p.log.storage voted_for_key node_id f (omega arith) in ground arith

  pub set_current_term-ok :
      (p : Persistent S) (term : ℕ)
      → IsFaithful b
      → p.current_term ≤ term
      → term < 2 ^ 32
      → let (res, q) = set_current_term b p term in
        (res ≡ ok) × (q.current_term ≡ term) × (q.voted_for ≡ p.voted_for)
  unfolding set_current_term
  set_current_term-ok p term f le lt =
      let stored = store-ok p.log.storage current_term_key term f lt in ground arith

  module _ (c : Config) (self : ℕ) where
    -- The state of a campaign in which `votes` votes have been given.
    abbrev pub IsCampaign : Raft S → ℕ → ℕ → Cluster → Type 0
    IsCampaign r term votes cluster =
        (r.server_state ≡ candidate)
        × (r.persistent.current_term ≡ term)
        × (r.num_votes ≡ votes)
        × (r.cluster ≡ cluster)

    start_campaign-IsCampaign :
        (e : Env) (r : Raft S)
        → IsFaithful b
        → e.self ≤ 127
        → r.server_state ≡ candidate
        → r.persistent.current_term + 1 < 2 ^ 32
        → IsCampaign (start_campaign b c e r) (r.persistent.current_term + 1) 1 r.cluster
    unfolding start_campaign
    start_campaign-IsCampaign e r f le st lt =
        let p1 = (set_voted_for b r.persistent e.self).1 in
        let next = (p1.current_term + 1) % 2 ^ 32 in
        let voted = set_voted_for-ok r.persistent e.self f le in
        let raised = set_current_term-ok p1 next f (omega arith) (omega arith) in ground arith

    vote_counts :
        (e : Env) (votes : ℕ) (r : Raft S) (term t : ℕ) (cluster : Cluster)
        → IsCampaign r term votes cluster
        → t ≤ term
        → votes + 1 < 2 ^ 8
        → IsCampaign
            (handle_request_vote_response b c e r (some (record { term = t; vote_granted = true })))
            term
            (votes + 1)
            cluster
    unfolding handle_request_vote_response
    vote_counts e votes r term t cluster h le lt =
        let same : (votes + 1) % 2 ^ 8 ≡ votes + 1 = omega arith in ground arith

    votes-IsCampaign :
        (given : List At) (votes : ℕ) (r : Raft S) (term : ℕ) (cluster : Cluster)
        → IsCampaign r term votes cluster
        → votes + length given < 2 ^ 8
        → AreVotes term given
        → IsCampaign (run b c self r given) term (votes + length given) cluster
    unfolding run handle_event
    votes-IsCampaign [] votes r term cluster h lt granted = (h.0, h.1, h.2 ∙ omega arith, h.3)
    votes-IsCampaign (a ∷ given) votes r term cluster h lt ((t, le, e), granted) =
        let r' = handle_event b c self (env b c self a) r a.event in
        let counted : IsCampaign r' term (votes + 1) cluster =
          subst
            (λ x. IsCampaign (handle_event b c self (env b c self a) r x) term (votes + 1) cluster)
            (sym e) (vote_counts (env b c self a) votes r term t cluster h le (omega arith)) in
        let rest =
          votes-IsCampaign given (votes + 1) r' term cluster counted (omega arith) granted in
        (rest.0, rest.1, rest.2 ∙ omega arith, rest.3)

    finish_campaign :
        (e : Env) (r : Raft S) (term votes : ℕ) (cluster : Cluster)
        → 0 < votes
        → IsCampaign r term votes cluster
        → let r' = handle_timer_event b c e r in
          (r'.server_state ≡ (if leb (get_quorum_size cluster) votes then leader else follower))
          × (r'.persistent.current_term ≡ term)
    unfolding handle_timer_event update_candidate switch_state
    finish_campaign e r term votes cluster pos h =
        let quorum : get_quorum_size r.cluster ≡ get_quorum_size cluster = ap get_quorum_size h.3 in
        ground arith

    -- On a storage that works: a candidate with an id of at most 127, a term below 2^32 - 1 and no
    -- campaign under way starts one on a timer event, and if then any granted votes arrive, at any
    -- times and each of a term no higher than the new one, fewer than 255, the next timer event makes
    -- it leader where these votes and its own are a quorum, else follower, in a term one higher than
    -- before.
    pub election :
        (start finish : Env) (given : List At) (r : Raft S)
        → IsFaithful b
        → start.self ≤ 127
        → r.server_state ≡ candidate
        → r.num_votes ≡ 0
        → r.persistent.current_term + 1 < 2 ^ 32
        → AreVotes (r.persistent.current_term + 1) given
        → 1 + length given < 2 ^ 8
        → let r' =
            handle_timer_event b c finish (run b c self (handle_timer_event b c start r) given) in
          (r'.server_state
            ≡ (if leb (get_quorum_size r.cluster) (1 + length given) then leader else follower))
          × (r'.persistent.current_term ≡ r.persistent.current_term + 1)
    unfolding handle_timer_event update_candidate
    election start finish given r f le st none_yet lt granted as_lt =
        let r1 = handle_timer_event b c start r in
        let begun = start_campaign-IsCampaign start r f le st lt in
        let campaign : IsCampaign r1 (r.persistent.current_term + 1) 1 r.cluster = ground arith in
        let r2 = run b c self r1 given in
        let voted =
          votes-IsCampaign given 1 r1 (r.persistent.current_term + 1) r.cluster campaign as_lt
            granted in
        finish_campaign finish r2 (r.persistent.current_term + 1) (1 + length given) r.cluster
          (omega arith) voted

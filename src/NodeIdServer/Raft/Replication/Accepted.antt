-- ===== src/NodeIdServer/Raft/Replication/Accepted.antt =====
-- raft_core.hpp, handleAppendEntriesRequest: the log after a request that is answered with success.
use uavcan.Base.{
  ℕ, ◌≤◌, ◌≡◌, refl, inl, inr, sym, ap, ◌∙◌, subst, true, Option, some, length, ltb, Bool-cases,
  Option-cases, arith,
}
use uavcan.NodeIdServer.Storage.{Backend}
use uavcan.NodeIdServer.Log.View.{IsValid}
use uavcan.NodeIdServer.Persistent.{set_current_term, set_voted_for, reset_voted_for}
use uavcan.NodeIdServer.Raft.{
  Raft, Config, Env, follower, AppendRequest, AppendResponse, adopt_term, handle_update_error,
  register_activity, switch_state,
}
use uavcan.NodeIdServer.Raft.Requests.{
  follow_leader, serve_leader, handle_append_entries_request, admit, accept_entries,
}
use uavcan.NodeIdServer.Raft.Replication.{IsReplicated, same_entries, accept_entries-view}

abbrev pub success_of : ℕ → Option AppendResponse
success_of term = some (record { term = term; success = true })

module _ {S : Type 0} (b : Backend S) (c : Config) (e : Env) where
  adopt_term-log :
      (r : Raft S) (term : ℕ)
      → let (res, r') = adopt_term b c e r term in
        (r'.persistent.log.entries ≡ r.persistent.log.entries)
        × (r'.persistent.log.last_index ≡ r.persistent.log.last_index)
  unfolding adopt_term set_current_term reset_voted_for set_voted_for handle_update_error
      register_activity switch_state
  adopt_term-log r term = ground arith

  followed : Raft S → Raft S
  followed r = switch_state follower (register_activity c e r)

  followed_kept :
      (r : Raft S)
      → ((followed r).persistent ≡ r.persistent) × ((followed r).server_state ≡ follower)
  unfolding followed switch_state register_activity
  followed_kept r = ground arith

  follow_leader_accepts :
      (r : Raft S) (request : AppendRequest) (term : ℕ)
      → (follow_leader b c e r request).0 ≡ success_of term
      → (follow_leader b c e r request ≡ accept_entries b (followed r) request)
        × (r.persistent.current_term ≤ request.term)
  unfolding follow_leader followed
  follow_leader_accepts r request term success = ground arith

  follow_leader_success :
      (r : Raft S) (request : AppendRequest) (term : ℕ)
      → IsValid r.persistent.log
      → let (response, r') = follow_leader b c e r request in
        response ≡ success_of term
        → IsReplicated r.persistent.log r'.persistent.log request × (r'.server_state ≡ follower)
  follow_leader_success r request term h = λ success.
      let r0 = followed r in
      let kept = followed_kept r in
      let (same, older) = follow_leader_accepts r request term success in
      let valid = subst (λ p. IsValid p.log) (sym kept.0) h in
      let accepted =
        subst
          (λ x.
            (x.0 ≡ success_of term
              → IsReplicated r0.persistent.log x.1.persistent.log request
                × (x.1.server_state ≡ r0.server_state)))
          (sym same) (accept_entries-view b r0 request term valid) in
      let (replicated, state) = accepted success in
      (
        same_entries r.persistent.log r0.persistent.log
            (follow_leader b c e r request).1.persistent.log request
            (ap (λ p. p.log.entries) kept.0, ap (λ p. p.log.last_index) kept.0) replicated,
        state ∙ kept.1,
      )

  serve_leader_follows :
      (r : Raft S) (request : AppendRequest) (term : ℕ)
      → (serve_leader b c e r request).0 ≡ success_of term
      → (r1 : Raft S) × (serve_leader b c e r request ≡ follow_leader b c e r1 request)
        × (r1.persistent.log.entries ≡ r.persistent.log.entries)
        × (r1.persistent.log.last_index ≡ r.persistent.log.last_index)
  unfolding serve_leader
  serve_leader_follows r request term success =
      let kept = adopt_term-log r request.term in
      elim (Bool-cases (ltb r.persistent.current_term request.term)) [
        | inl t ↦ ((adopt_term b c e r request.term).1, ground arith, kept.0, kept.1)
        | inr f ↦ (r, ground arith, refl, refl)
      ]

  pub serve_leader_success :
      (r : Raft S) (request : AppendRequest) (term : ℕ)
      → IsValid r.persistent.log
      → let (response, r') = serve_leader b c e r request in
        response ≡ success_of term
        → IsReplicated r.persistent.log r'.persistent.log request × (r'.server_state ≡ follower)
  serve_leader_success r request term h = λ success.
      let (r1, same, es, i) = serve_leader_follows r request term success in
      let l' = (serve_leader b c e r request).1.persistent.log in
      let valid : IsValid r1.persistent.log = (ap length es ∙ h.0, omega arith) in
      let (replicated, state) =
        subst
          (λ x.
            x.0 ≡ success_of term
            → IsReplicated r1.persistent.log x.1.persistent.log request
              × (x.1.server_state ≡ follower))
          (sym same) (follow_leader_success r1 request term valid) success in
      (same_entries r.persistent.log r1.persistent.log l' request (es, i) replicated, state)

  handle_serves :
      (src : ℕ) (r : Raft S) (request : AppendRequest) (term : ℕ)
      → (handle_append_entries_request b c e r src request).0 ≡ success_of term
      → (r0 : Raft S) × (handle_append_entries_request b c e r src request
          ≡ serve_leader b c e r0 request)
        × (r0.persistent ≡ r.persistent)
  unfolding handle_append_entries_request admit
  handle_serves src r request term success = elim (Option-cases (admit e src r)) [
    | inl n ↦ absurd (ground arith)
    | inr (r0, h) ↦ (r0, ground arith, ground arith)
  ]

  -- A request that is answered with success, on a valid log: its previous entry was there with the
  -- term given, and the log is now that log up to this entry and then the entries of the request,
  -- in order; it is valid, and the server is a follower.
  pub handle_append_entries_request-IsReplicated :
      (src : ℕ) (r : Raft S) (request : AppendRequest) (term : ℕ)
      → IsValid r.persistent.log
      → let (response, r') = handle_append_entries_request b c e r src request in
        response ≡ success_of term
        → IsReplicated r.persistent.log r'.persistent.log request × (r'.server_state ≡ follower)
  handle_append_entries_request-IsReplicated src r request term h = λ success.
      let (r0, same, p) = handle_serves src r request term success in
      let valid = subst (λ p. IsValid p.log) (sym p) h in
      let served =
        subst
          (λ x.
            x.0 ≡ success_of term
            → IsReplicated r0.persistent.log x.1.persistent.log request
              × (x.1.server_state ≡ follower))
          (sym same) (serve_leader_success r0 request term valid) success in
      subst
        (λ q.
          IsReplicated q.log (handle_append_entries_request b c e r src request).1.persistent.log
            request
          × ((handle_append_entries_request b c e r src request).1.server_state ≡ follower))
        p served

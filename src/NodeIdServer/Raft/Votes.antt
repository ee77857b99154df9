-- ===== src/NodeIdServer/Raft/Votes.antt =====
-- raft_core.hpp: what the shared steps of the handlers do to the term and the vote.
pub mod Handlers
pub mod Safety
pub mod Stale
use uavcan.Base.{
  ℕ, ◌+◌, ◌%◌, ◌^◌, ◌≤◌, ◌<◌, ◌≡◌, refl, ◌≢◌, ◌⊎◌, inl, inr, Bool, true, false, not, List, [], ◌∷◌,
  Option, none, some, ltb, leb, ◌==◌, arith,
}
use uavcan.Transport.Transfer.{is_unicast}
use uavcan.NodeIdServer.{Status, ok, err}
use uavcan.NodeIdServer.Storage.{Backend}
use uavcan.NodeIdServer.Log.{Log}
use uavcan.NodeIdServer.Persistent.{
  Persistent, store, set_current_term, set_voted_for, reset_voted_for,
}
use uavcan.NodeIdServer.Raft.{
  ServerState, Raft, Config, Env, register_activity, switch_state, handle_update_error, adopt_term,
}

-- From a state with one term and vote to a later one: the term is higher, or the same and a vote
-- that was set is kept or has become the local node's.
abbrev pub Later : ℕ → ℕ → ℕ → ℕ → ℕ → Type 0
Later self term vote term' vote' =
    (term < term')
    ⊎ ((term' ≡ term) × ((vote' ≡ vote) ⊎ (vote' ≡ self) ⊎ (is_unicast vote ≡ false)))

abbrev pub IsLater : {S : Type 0} → ℕ → Persistent S → Persistent S → Type 0
IsLater self p q = Later self p.current_term p.voted_for q.current_term q.voted_for

pub IsLater-refl : {S : Type 0} {self : ℕ} → (p : Persistent S) → IsLater self p p
IsLater-refl p = inr (refl, inl refl)

pub Later-trans :
    (self t v t' v' t'' v'' : ℕ)
    → is_unicast self ≡ true
    → Later self t v t' v'
    → Later self t' v' t'' v''
    → Later self t v t'' v''
Later-trans self t v t' v' t'' v'' hs h1 h2 = ground arith

module _ {S : Type 0} (b : Backend S) where
  pub set_current_term_result :
      (p : Persistent S) (term : ℕ)
      → let (res, q) = set_current_term b p term in
        (q.voted_for ≡ p.voted_for)
        × (p.current_term ≤ q.current_term)
        × (((res ≡ ok) × (q.current_term ≡ term))
            ⊎ ((res ≢ ok) × (q.current_term ≡ p.current_term)))
  unfolding set_current_term
  set_current_term_result p term = ground arith

  pub set_voted_for-current_term :
      (p : Persistent S) (node_id : ℕ)
      → let (res, q) = set_voted_for b p node_id in q.current_term ≡ p.current_term
  unfolding set_voted_for
  set_voted_for-current_term p node_id = ground arith

  pub set_voted_for-voted_for :
      (p : Persistent S) (node_id : ℕ)
      → let (res, q) = set_voted_for b p node_id in
        ((res ≡ ok) × (q.voted_for ≡ node_id)) ⊎ ((res ≢ ok) × (q.voted_for ≡ p.voted_for))
  unfolding set_voted_for
  set_voted_for-voted_for p node_id = ground arith

pub switch_state-persistent :
    {S : Type 0} → (s : ServerState) (r : Raft S) → (switch_state s r).persistent ≡ r.persistent
unfolding switch_state
switch_state-persistent s r = ground arith

module _ {S : Type 0} (b : Backend S) (c : Config) (e : Env) where
  pub handle_update_error-persistent :
      (r : Raft S) → (handle_update_error c e r).persistent ≡ r.persistent
  unfolding handle_update_error register_activity
  handle_update_error-persistent r = switch_state-persistent ServerState.follower r

  pub adopt_term-Later :
      (r : Raft S) (term : ℕ)
      → r.persistent.current_term < term
      → let (res, r') = adopt_term b c e r term in IsLater e.self r.persistent r'.persistent
  unfolding adopt_term reset_voted_for
  adopt_term-Later r term h =
      let p1 = (set_current_term b r.persistent term).1 in
      let p2 = (set_voted_for b p1 0).1 in
      let set_term = set_current_term_result b r.persistent term in
      let same_term = set_voted_for-current_term b p1 0 in
      let e1 = handle_update_error-persistent (record r { persistent = p1 }) in
      let e2 = handle_update_error-persistent (record r { persistent = p2 }) in ground arith

  pub adopt_term_newer :
      (r : Raft S) (term : ℕ)
      → let (res, r') = adopt_term b c e r term in
        res ≡ ok → (r'.persistent.current_term ≡ term) × (r'.persistent.voted_for ≡ 0)
  unfolding adopt_term reset_voted_for
  adopt_term_newer r term = λ h.
      let p1 = (set_current_term b r.persistent term).1 in
      let set_term = set_current_term_result b r.persistent term in
      let same_term = set_voted_for-current_term b p1 0 in
      let vote = set_voted_for-voted_for b p1 0 in ground arith

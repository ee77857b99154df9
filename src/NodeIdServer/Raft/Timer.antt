-- ===== src/NodeIdServer/Raft/Timer.antt =====
-- raft_core.hpp: handleTimerEvent with updateFollower, updateCandidate and updateLeader, and
-- propagateCommitIndex.
use uavcan.Base.{
  ℕ, zero, suc, ◌+◌, ◌-◌, ◌%◌, ◌^◌, not, List, [], ◌∷◌, ◌++◌, none, some, length, get_or, ltb, leb,
  if◌then◌else◌,
}
use uavcan.Transport.Transfer.{is_unicast}
use uavcan.NodeIdServer.{Status, ok, err, err_logic, LogEntry, empty_entry}
use uavcan.NodeIdServer.Storage.{Backend}
use uavcan.NodeIdServer.Log.{Log, get_entry}
use uavcan.NodeIdServer.Persistent.{set_current_term, set_voted_for}
use uavcan.NodeIdServer.Cluster.{
  Cluster, remote_server_at, get_server_next_index, get_server_match_index, get_num_known_servers,
  get_quorum_size,
}
use uavcan.NodeIdServer.Raft.{
  follower, candidate, leader, VoteRequest, Effect, call_append, call_vote, cancel_append_calls,
  log_commit, Raft, Config, Env, emit, last_log_index, register_activity, is_activity_timed_out,
  switch_state, handle_update_error,
}

unfoldable pub update_follower : {S : Type 0} → Config → Env → Raft S → Raft S
update_follower c e r =
    if is_activity_timed_out e r then register_activity c e (switch_state candidate r) else r

-- The loop over the servers of the cluster that requests their votes, from index `index` on and for
-- `count` of them.
unfoldable pub request_votes : ℕ → ℕ → Cluster → VoteRequest → List Effect
request_votes zero index cluster req = []
request_votes (suc count) index cluster req =
    let rest = request_votes count (index + 1) cluster req in
    let node_id = remote_server_at cluster.servers index in
    if not (is_unicast node_id) then [] else call_vote node_id req ∷ rest

-- The request of a campaign. The entry at the last index is there in every log.
unfoldable pub vote_request : {S : Type 0} → Raft S → VoteRequest
vote_request r = record {
  term = r.persistent.current_term;
  last_log_term = (get_or r.persistent.log.entries (last_log_index r) empty_entry).term;
  last_log_index = last_log_index r;
}

module _ {S : Type 0} (b : Backend S) (c : Config) (e : Env) where
  -- The branch of updateCandidate that starts a campaign.
  unfoldable pub start_campaign : Raft S → Raft S
  start_campaign r =
      let (res, p) = set_voted_for b r.persistent e.self in
      elim res [
        | err x ↦ handle_update_error c e (record r { persistent = p })
        | ok ↦
            let (res', p') = set_current_term b p ((p.current_term + 1) % 2 ^ 32) in
            elim res' [
              | err x ↦ handle_update_error c e (record r { persistent = p' })
              | ok ↦
                  let r' = record r { persistent = p'; num_votes = 1 } in
                  record r' {
                    outbox =
                        r'.outbox
                        ++ request_votes (c.max_cluster_size - 1) 0 r'.cluster (vote_request r');
                  }
            ]
      ]

  unfoldable pub update_candidate : Raft S → Raft S
  update_candidate r =
      if ltb 0 r.num_votes
      then switch_state (if leb (get_quorum_size r.cluster) r.num_votes then leader else follower) r
      else start_campaign r

-- The number of known servers, from index `index` on and `count` of them, that have an entry behind
-- the last committed one.
unfoldable pub count_available : ℕ → ℕ → Cluster → ℕ → ℕ
count_available zero index cluster commit_index = 0
count_available (suc count) index cluster commit_index =
    let rest = count_available count (index + 1) cluster commit_index in
    if ltb commit_index (get_server_match_index cluster (remote_server_at cluster.servers index))
    then rest + 1
    else rest

unfoldable pub propagate_commit_index : {S : Type 0} → Raft S → Raft S
propagate_commit_index r =
    if ltb r.commit_index (last_log_index r)
    then (let available =
          (count_available (get_num_known_servers r.cluster) 0 r.cluster r.commit_index + 1)
          % 2 ^ 8 in
        if leb (get_quorum_size r.cluster) available
        then (let next = (r.commit_index + 1) % 2 ^ 8 in
            emit (log_commit (get_or r.persistent.log.entries next empty_entry))
              (record r { commit_index = next }))
        else r)
    else r

-- The entries of a request from index `index` on, `room` of them at most.
unfoldable pub collect_entries : {S : Type 0} → ℕ → Log S → ℕ → List LogEntry
collect_entries zero l index = []
collect_entries (suc room) l index =
    let rest = collect_entries room l (index + 1) in
    if leb index l.last_index then get_or l.entries index empty_entry ∷ rest else []

module _ {S : Type 0} (c : Config) (e : Env) where
  -- The request of updateLeader to the next server, and whether its log index was right.
  unfoldable pub send_append_entries : Raft S → Status × Raft S
  send_append_entries r =
      let node_id = remote_server_at r.cluster.servers r.next_server_index in
      let next = (r.next_server_index + 1) % 2 ^ 8 in
      let r' = record r {
        next_server_index = if leb (get_num_known_servers r.cluster) next then 0 else next;
      } in
      let next_index = get_server_next_index r.cluster node_id in
      let prev = (next_index + 2 ^ 8 - 1) % 2 ^ 8 in
      elim (get_entry r.persistent.log prev) [
        | none ↦ (err err_logic, handle_update_error c e r')
        | some entry ↦
            let entries = collect_entries c.max_entries r.persistent.log next_index in
            (
              ok,
              emit
                  (call_append node_id (record {
                    term = r.persistent.current_term;
                    prev_log_term = entry.term;
                    prev_log_index = prev;
                    leader_commit = r.commit_index;
                    entries = entries;
                  }))
                  (record r' {
                    pending_prev_log_index = prev;
                    pending_num_entries = length entries % 2 ^ 8;
                  }),
            )
      ]

  unfoldable pub update_leader : Raft S → Raft S
  update_leader r =
      let r0 = emit cancel_append_calls r in
      if ltb 1 r.cluster.cluster_size
      then (let (res, r1) = send_append_entries r0 in
          elim res [ err x ↦ r1 | ok ↦ propagate_commit_index r1 ])
      else propagate_commit_index r0

unfoldable pub handle_timer_event : {S : Type 0} → Backend S → Config → Env → Raft S → Raft S
handle_timer_event b c e r = elim r.server_state [
  | follower ↦ update_follower c e r
  | candidate ↦ update_candidate b c e r
  | leader ↦ update_leader c e r
]

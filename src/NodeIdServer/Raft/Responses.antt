-- ===== src/NodeIdServer/Raft/Responses.antt =====
-- raft_core.hpp: handleAppendEntriesResponse and handleRequestVoteResponse, whose calls that failed
-- are `none`; appendLog, and the queries of the allocator.
use uavcan.Base.{
  ℕ, zero, suc, ◌+◌, ◌%◌, ◌^◌, Bool, List, Option, none, some, get_or, ltb, leb, ◌==◌,
  if◌then◌else◌,
}
use uavcan.NodeIdServer.{Status, ok, err, LogEntry, empty_entry}
use uavcan.NodeIdServer.Storage.{Backend}
use uavcan.NodeIdServer.Log.{Log}
use uavcan.NodeIdServer.Log
use uavcan.NodeIdServer.Persistent.{Persistent, set_current_term}
use uavcan.NodeIdServer.Persistent
use uavcan.NodeIdServer.Cluster.{
  Cluster, increment_server_next_index_by, set_server_match_index, decrement_server_next_index,
}
use uavcan.NodeIdServer.Cluster
use uavcan.NodeIdServer.Raft.{
  follower, leader, same_state, AppendResponse, VoteResponse, Raft, Config, Env, last_log_index,
  register_activity, switch_state, handle_update_error,
}
use uavcan.NodeIdServer.Raft.Requests.{with_log}

-- The two changes of the cluster after a successful response.
unfoldable pub note_replicated : {S : Type 0} → Raft S → ℕ → Cluster
note_replicated r server =
    set_server_match_index (increment_server_next_index_by r.cluster server r.pending_num_entries)
      server ((r.pending_prev_log_index + r.pending_num_entries) % 2 ^ 8)

module _ {S : Type 0} (b : Backend S) (c : Config) (e : Env) where
  -- tryIncrementCurrentTermFromResponse. A failure of the storage is only traced.
  unfoldable pub try_increment_current_term : Raft S → ℕ → Raft S
  try_increment_current_term r new_term =
      let (res, p) = set_current_term b r.persistent new_term in
      switch_state follower (register_activity c e (record r { persistent = p }))

  unfoldable pub handle_append_entries_response : Raft S → ℕ → Option AppendResponse → Raft S
  handle_append_entries_response r server none = r
  handle_append_entries_response r server (some response) =
      let r' =
        if ltb r.persistent.current_term response.term
        then try_increment_current_term r response.term
        else if response.success
        then record r { cluster = note_replicated r server }
        else record r { cluster = decrement_server_next_index r.cluster server } in
      record r' { pending_prev_log_index = 0; pending_num_entries = 0 }

  unfoldable pub handle_request_vote_response : Raft S → Option VoteResponse → Raft S
  handle_request_vote_response r none = r
  handle_request_vote_response r (some response) =
      if ltb r.persistent.current_term response.term
      then try_increment_current_term r response.term
      else if response.vote_granted
      then record r { num_votes = (r.num_votes + 1) % 2 ^ 8 }
      else r

  -- A node that is not the leader asserts, and changes nothing.
  unfoldable pub append_log : Raft S → List ℕ → ℕ → Raft S
  append_log r unique_id node_id =
      if same_state r.server_state leader
      then (let entry : LogEntry = record {
        term = r.persistent.current_term;
        unique_id = unique_id;
        node_id = node_id;
      } in
          let (res, log) = Log.append b r.persistent.log entry in
          elim res [ err x ↦ handle_update_error c e (with_log r log) | ok ↦ with_log r log ])
      else r

  -- The part of `init` that concerns the state; the results of the start of the transport are
  -- those of `started`, and of the broadcasts.
  unfoldable pub init : Status → Status → Status → Raft S → ℕ → Status × Raft S
  init pub_res sub_res started r cluster_size =
      let r0 = register_activity c e (record r {
        server_state = follower;
        next_server_index = 0;
        num_votes = 0;
        commit_index = 0;
      }) in
      let (res, p) = Persistent.init b r0.persistent in
      let r1 = record r0 { persistent = p } in
      elim res [
        | err x ↦ (err x, r1)
        | ok ↦
            let (res', s, cluster) =
              Cluster.init b c.max_cluster_size pub_res sub_res p.log.last_index p.log.storage
                cluster_size r1.cluster in
            let r2 = record (with_log r1 (record p.log { storage = s })) { cluster = cluster } in
            elim res' [ err x ↦ (err x, r2) | ok ↦ (started, r2) ]
      ]

abbrev pub are_all_log_entries_committed : {S : Type 0} → Raft S → Bool
are_all_log_entries_committed r = r.commit_index == last_log_index r

-- LogEntryInfo.
pub record LogEntryInfo : Type 0 where
  pub entry : LogEntry
  pub committed : Bool

-- The loop of traverseLogFromEndUntil over the indices below `count`, from the highest down.
unfoldable pub traverse_below :
    {S : Type 0} → (LogEntryInfo → Bool) → Raft S → ℕ → Option LogEntryInfo
traverse_below predicate r zero = none
traverse_below predicate r (suc index) =
    let info : LogEntryInfo = record {
      entry = get_or r.persistent.log.entries index empty_entry;
      committed = leb index r.commit_index;
    } in
    let rest = traverse_below predicate r index in if predicate info then some info else rest

unfoldable pub traverse_log_from_end_until :
    {S : Type 0} → (LogEntryInfo → Bool) → Raft S → Option LogEntryInfo
traverse_log_from_end_until predicate r = traverse_below predicate r (last_log_index r + 1)

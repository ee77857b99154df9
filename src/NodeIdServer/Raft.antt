-- ===== src/NodeIdServer/Raft.antt =====
-- RaftCore of distributed/raft_core.hpp: its state and the parts that its handlers share. What the
-- core sends, and what it tells the leader monitor, is put into `outbox`, the newest at the end. The
-- monitor may append to the log on such a call; the core makes the call with true and the one for a
-- committed entry at the end of a timer event, so that this is an `append_log` after that event.
-- On false the allocator of this repository does nothing.
pub mod Timer
pub mod Requests
pub mod Responses
pub mod Events
pub mod Votes
pub mod Replication
pub mod Elections
pub mod Commit
use uavcan.Base.{
  ℕ, ◌+◌, ◌-◌, ◌*◌, ◌%◌, Bool, true, false, ◌||◌, List, [], ◌∷◌, ◌++◌, ltb, if◌then◌else◌,
}
use uavcan.NodeIdServer.{Status, ok, err, LogEntry}
use uavcan.NodeIdServer.Storage.{Backend}
use uavcan.NodeIdServer.Persistent.{Persistent, set_current_term, reset_voted_for}
use uavcan.NodeIdServer.Cluster.{Cluster, reset_all_server_indices}

pub data ServerState : Type 0 where
  follower candidate leader : ServerState

abbrev pub same_state : ServerState → ServerState → Bool
same_state follower follower = true
same_state candidate candidate = true
same_state leader leader = true
same_state _ _ = false

pub record AppendRequest : Type 0 where
  pub term : ℕ
  pub prev_log_term : ℕ
  pub prev_log_index : ℕ
  pub leader_commit : ℕ
  pub entries : List LogEntry

pub record AppendResponse : Type 0 where
  pub term : ℕ
  pub success : Bool

pub record VoteRequest : Type 0 where
  pub term : ℕ
  pub last_log_term : ℕ
  pub last_log_index : ℕ

pub record VoteResponse : Type 0 where
  pub term : ℕ
  pub vote_granted : Bool

pub data Effect : Type 0 where
  call_append : (node_id : ℕ) → AppendRequest → Effect
  call_vote : (node_id : ℕ) → VoteRequest → Effect
  cancel_append_calls cancel_vote_calls : Effect
  leadership_change : Bool → Effect
  log_commit : LogEntry → Effect

-- Times in microseconds. PendingAppendEntriesFields are the last two numbers but one.
pub record Raft (S : Type 0) : Type 0 where
  pub persistent : Persistent S
  pub cluster : Cluster
  pub commit_index : ℕ
  pub last_activity : ℕ
  pub activity_timeout : ℕ
  pub server_state : ServerState
  pub next_server_index : ℕ
  pub num_votes : ℕ
  pub pending_prev_log_index : ℕ
  pub pending_num_entries : ℕ
  pub outbox : List Effect

-- The constants of the message types, which are no part of the repository: the election timeouts in
-- milliseconds and the capacity of the list of entries in a request.
pub record Config : Type 0 where
  pub min_election_timeout : ℕ
  pub max_election_timeout : ℕ
  pub max_entries : ℕ
  pub max_cluster_size : ℕ

-- The id of the local node, and what the clock and std::rand give during a call.
pub record Env : Type 0 where
  pub self : ℕ
  pub now : ℕ
  pub random : ℕ

abbrev pub emit : {S : Type 0} → Effect → Raft S → Raft S
emit x r = record r { outbox = r.outbox ++ (x ∷ []) }

abbrev pub last_log_index : {S : Type 0} → Raft S → ℕ
last_log_index r = r.persistent.log.last_index

unfoldable pub register_activity : {S : Type 0} → Config → Env → Raft S → Raft S
register_activity c e r =
    let random_msec = e.random % (c.max_election_timeout - c.min_election_timeout) + 1 in
    record r {
      last_activity = e.now;
      activity_timeout = (c.min_election_timeout + random_msec) * 1000;
    }

unfoldable pub is_activity_timed_out : {S : Type 0} → Env → Raft S → Bool
is_activity_timed_out e r = ltb (r.last_activity + r.activity_timeout) e.now

abbrev is_leader_state : ServerState → Bool
is_leader_state s = same_state s leader

unfoldable pub switch_state : {S : Type 0} → ServerState → Raft S → Raft S
switch_state new_state r =
    if same_state r.server_state new_state
    then r
    else (let switched = record r {
      server_state = new_state;
      cluster = reset_all_server_indices (last_log_index r) r.cluster;
      next_server_index = 0;
      num_votes = 0;
      outbox = r.outbox ++ (cancel_vote_calls ∷ cancel_append_calls ∷ []);
    } in
        if is_leader_state r.server_state || is_leader_state new_state
        then emit (leadership_change (is_leader_state new_state)) switched
        else switched)

-- handlePersistentStateUpdateError.
unfoldable pub handle_update_error : {S : Type 0} → Config → Env → Raft S → Raft S
handle_update_error c e r = register_activity c e (switch_state follower r)

-- What both request handlers do where the term of the request is newer: take it over and forget the
-- vote.
unfoldable pub adopt_term : {S : Type 0} → Backend S → Config → Env → Raft S → ℕ → Status × Raft S
adopt_term b c e r term =
    let (res, p) = set_current_term b r.persistent term in
    elim res [
      | err x ↦ (err x, handle_update_error c e (record r { persistent = p }))
      | ok ↦
          let (res', p') = reset_voted_for b p in
          elim res' [
            | err x ↦ (err x, handle_update_error c e (record r { persistent = p' }))
            | ok ↦ (ok, record r { persistent = p' })
          ]
    ]

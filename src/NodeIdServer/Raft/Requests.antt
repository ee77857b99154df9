-- ===== src/NodeIdServer/Raft/Requests.antt =====
-- raft_core.hpp: handleAppendEntriesRequest and handleRequestVoteRequest. A result of `none` is a
-- disabled response.
use uavcan.Base.{
  ℕ, true, false, not, ◌&&◌, ◌||◌, List, [], ◌∷◌, Option, none, some, min, ltb, ◌==◌, if◌then◌else◌,
}
use uavcan.NodeIdServer.{Status, ok, err, LogEntry}
use uavcan.NodeIdServer.Storage.{Backend}
use uavcan.NodeIdServer.Log.{
  Log, get_entry, append, is_other_log_up_to_date, remove_from, remove_behind,
}
use uavcan.NodeIdServer.Persistent.{set_voted_for, is_voted_for_set}
use uavcan.NodeIdServer.Cluster.{is_known_server, is_cluster_discovered, add_server}
use uavcan.NodeIdServer.Raft.{
  follower, AppendRequest, AppendResponse, VoteRequest, VoteResponse, Raft, Config, Env,
  last_log_index, register_activity, switch_state, adopt_term,
}

-- A change of the log.
abbrev pub with_log : {S : Type 0} → Raft S → Log S → Raft S
with_log r log = record r { persistent = record r.persistent { log = log } }

-- A server that is not known is added as long as some are missing; `none` where the request is
-- ignored.
unfoldable pub admit : {S : Type 0} → Env → ℕ → Raft S → Option (Raft S)
admit e src r =
    if is_known_server e.self r.cluster src
    then some r
    else if is_cluster_discovered r.cluster
    then none
    else some (record r { cluster = add_server e.self (last_log_index r) r.cluster src })

-- The entries are appended in their order, up to the first failure.
unfoldable pub append_all : {S : Type 0} → Backend S → Log S → List LogEntry → Status × Log S
append_all b l [] = (ok, l)
append_all b l (x ∷ entries) =
    let (res, l') = append b l x in
    let rest = append_all b l' entries in elim res [ err e ↦ (err e, l') | ok ↦ rest ]

module _ {S : Type 0} (b : Backend S) where
  -- The first part of step 4: what stands behind the entry that the new ones follow goes.
  unfoldable pub cut_behind : Log S → ℕ → Status × Log S
  cut_behind l prev_log_index =
      if not (prev_log_index == l.last_index) then remove_behind b l prev_log_index else (ok, l)

  -- Step 4: the log as it is after the request.
  unfoldable pub replace_entries : Log S → ℕ → List LogEntry → Status × Log S
  replace_entries l prev_log_index entries =
      let (res, l') = cut_behind l prev_log_index in
      elim res [ err e ↦ (err e, l') | ok ↦ append_all b l' entries ]

  -- Steps 2 to 5, of a request whose term is the current one.
  unfoldable pub accept_entries : Raft S → AppendRequest → Option AppendResponse × Raft S
  accept_entries r request =
      let refused : AppendResponse = record { term = r.persistent.current_term; success = false } in
      elim (get_entry r.persistent.log request.prev_log_index) [
        | none ↦ (some refused, r)
        | some prev_entry ↦
            if not (prev_entry.term == request.prev_log_term)
            then (let (res, log) = remove_from b r.persistent.log request.prev_log_index in
                elim res [ err x ↦ (none, with_log r log) | ok ↦ (some refused, with_log r log) ])
            else (let (res, log) =
                  replace_entries r.persistent.log request.prev_log_index request.entries in
                let r' = with_log r log in
                elim res [
                  | err x ↦ (none, r')
                  | ok ↦ (
                    some (record { term = r.persistent.current_term; success = true }),
                    if ltb r.commit_index request.leader_commit
                        then record r' { commit_index = min request.leader_commit log.last_index }
                        else r',
                  )
                ])
      ]

  module _ (c : Config) (e : Env) where
    -- The part behind the update of the term: step 1, and the switch to follower.
    unfoldable pub follow_leader : Raft S → AppendRequest → Option AppendResponse × Raft S
    follow_leader r request =
        if ltb request.term r.persistent.current_term
        then (some (record { term = r.persistent.current_term; success = false }), r)
        else accept_entries (switch_state follower (register_activity c e r)) request

    -- The part behind the check of the sender.
    unfoldable pub serve_leader : Raft S → AppendRequest → Option AppendResponse × Raft S
    serve_leader r request =
        if ltb r.persistent.current_term request.term
        then (let (res, r1) = adopt_term b c e r request.term in
            elim res [ err x ↦ (none, r1) | ok ↦ follow_leader r1 request ])
        else follow_leader r request

    unfoldable pub handle_append_entries_request :
        Raft S → ℕ → AppendRequest → Option AppendResponse × Raft S
    handle_append_entries_request r src request = elim (admit e src r) [
      | none ↦ (none, r)
      | some r0 ↦ serve_leader r0 request
    ]

    -- The vote on a request whose term is not newer than the current one.
    unfoldable pub answer_vote : Raft S → ℕ → VoteRequest → Option VoteResponse × Raft S
    answer_vote r src request =
        let term = r.persistent.current_term in
        if ltb request.term term
        then (some (record { term = term; vote_granted = false }), r)
        else (let can_vote = not (is_voted_for_set r.persistent) || r.persistent.voted_for == src in
            let log_is_up_to_date =
              is_other_log_up_to_date r.persistent.log request.last_log_index
                request.last_log_term in
            if can_vote && log_is_up_to_date
            then (let r' = register_activity c e (switch_state follower r) in
                let (res, p) = set_voted_for b r'.persistent src in
                elim res [
                  | err x ↦ (none, record r' { persistent = p })
                  | ok ↦ (
                    some (record { term = term; vote_granted = true }),
                    record r' { persistent = p },
                  )
                ])
            else (some (record { term = term; vote_granted = false }), r))

    unfoldable pub handle_request_vote_request :
        Raft S → ℕ → VoteRequest → Option VoteResponse × Raft S
    handle_request_vote_request r src request =
        if not (is_known_server e.self r.cluster src)
        then (none, r)
        else if ltb r.persistent.current_term request.term
        then (let (res, r1) = adopt_term b c e (switch_state follower r) request.term in
            elim res [ err x ↦ (none, r1) | ok ↦ answer_vote r1 src request ])
        else answer_vote r src request

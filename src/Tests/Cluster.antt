-- ===== src/Tests/Cluster.antt =====
-- libuavcan/include/uavcan/protocol/dynamic_node_id_server: elections, the replication of the log
-- and the choice of a node id, on the storage of Tests/Allocation.
use uavcan.Base.{
  ℕ, ◌+◌, ◌≤◌, ◌<◌, ◌≡◌, refl, ◌⊎◌, Bool, true, false, [], ◌∷◌, some, replicate, set, not, ◌==◌,
  if◌then◌else◌, leb, get_or, arith,
}
use uavcan.NodeIdServer.{empty_entry}
use uavcan.NodeIdServer.Storage.{
  digits, decimal, all_digits, to_number, parse_number, get_number, set_and_get_back,
  set_and_get_back_unique_id, get_unique_id, parse_unique_id, convert_unique_id_to_hex, all_hex,
  hex_to_bytes,
}
use uavcan.NodeIdServer.Log.{
  capacity, get_entry, append, write_entry, store_last_index, last_index_key, make_entry_key,
}
use uavcan.NodeIdServer.Cluster.{is_known_server, is_listed, get_quorum_size}
use uavcan.NodeIdServer.Raft.{
  Raft, follower, candidate, leader, VoteRequest, VoteResponse, AppendRequest, switch_state,
  log_commit, register_activity,
}
use uavcan.NodeIdServer.Raft.Requests.{
  handle_request_vote_request, handle_append_entries_request, admit, serve_leader, follow_leader,
  accept_entries, replace_entries, cut_behind, append_all,
}
use uavcan.NodeIdServer.Raft.Responses.{handle_request_vote_response}
use uavcan.NodeIdServer.Raft.Timer.{handle_timer_event, propagate_commit_index}
use uavcan.NodeIdServer.Raft.Elections.{election}
use uavcan.NodeIdServer.Raft.Replication.{IsReplicated}
use uavcan.NodeIdServer.Raft.Replication.Accepted.{
  success_of, handle_append_entries_request-IsReplicated,
}
use uavcan.NodeIdServer.Raft.Commit.{replicas, AreDistinct, propagate_commit_index_iff}
use uavcan.NodeIdServer.Selector.{find_free_node_id, find_free_node_id_free}
use uavcan.NodeIdServer.Raft.Events.{At, vote_response, run}
use uavcan.NodeIdServer.Raft.Votes.Stale.{newer_term_keeps_vote}
use uavcan.Tests.Allocation.{
  Texts, texts, no_texts, texts_work, config, server, new_log, core, at_start, allocation,
}

-- A candidate that has voted for itself, and a response of term 5.
abbrev campaigner : Raft Texts
campaigner = record core {
  server_state = candidate;
  num_votes = 1;
  persistent = record { current_term = 2; voted_for = 10; log = new_log };
}

abbrev from_term_5 : VoteResponse
from_term_5 = record { term = 5; vote_granted = false }

abbrev request_5 : VoteRequest
request_5 = record { term = 5; last_log_term = 4; last_log_index = 3 }

is_listed_12 : is_listed core.cluster.servers 12 ≡ true
unfolding is_listed
is_listed_12 = refl

newer_term_keeps_vote_example :
    let r' = handle_request_vote_response texts config at_start campaigner (some from_term_5) in
    (handle_request_vote_request texts config at_start r' 12 request_5).0
    ≡ some (record { term = 5; vote_granted = false })
newer_term_keeps_vote_example =
    newer_term_keeps_vote texts config at_start at_start campaigner from_term_5 12 request_5
      texts_work refl (omega arith) (omega arith) (omega arith) refl is_listed_12

abbrev ready : Raft Texts
ready = record campaigner { num_votes = 0 }

abbrev vote_of_11 : At
vote_of_11 = record {
  now = 9;
  random = 4;
  event = vote_response (some (record { term = 3; vote_granted = true }));
}

abbrev vote_of_12 : At
vote_of_12 = record {
  now = 12;
  random = 1;
  event = vote_response (some (record { term = 2; vote_granted = true }));
}

election_example :
    let r' = handle_timer_event texts config at_start (
      run texts config 10
        (handle_timer_event texts config at_start ready)
        (vote_of_11 ∷ vote_of_12 ∷ [])) in
    (r'.server_state ≡ (if leb (get_quorum_size core.cluster) 3 then leader else follower))
    × (r'.persistent.current_term ≡ 3)
election_example =
    election texts config 10 at_start at_start (vote_of_11 ∷ vote_of_12 ∷ []) ready texts_work
      (omega arith) refl refl (omega arith) ((3, omega arith, refl), ((2, omega arith, refl), tt))
      (omega arith)

-- A leader of a log with one entry that server 11 has as well.
abbrev leading : Raft Texts
leading = record core {
  server_state = leader;
  persistent = record {
    current_term = 1;
    voted_for = 10;
    log = record {
      storage = no_texts;
      entries = set (replicate capacity empty_entry) 1 allocation;
      last_index = 1;
    };
  };
  cluster = record {
    servers = record { node_id = 11; next_index = 2; match_index = 1 } ∷ server 12 ∷ [];
    cluster_size = 3;
    is_running = false;
  };
}

distinct_leading : AreDistinct leading.cluster.servers
unfolding AreDistinct is_listed
distinct_leading = (refl, (refl, tt))

propagate_commit_index_iff_example :
    let r' = propagate_commit_index leading in
    let has_quorum =
      leb (get_quorum_size leading.cluster) (replicas 0 leading.cluster.servers + 1) in
    ((0 < 1)
      × (has_quorum ≡ true)
      × (r'.commit_index ≡ 1)
      × (r'.outbox ≡ log_commit (get_or leading.persistent.log.entries 1 empty_entry) ∷ []))
    ⊎ (((1 ≤ 0) ⊎ (has_quorum ≡ false)) × (r' ≡ leading))
propagate_commit_index_iff_example =
    propagate_commit_index_iff leading distinct_leading (omega arith) (omega arith)

abbrev new_entries : AppendRequest
new_entries = record {
  term = 1;
  prev_log_term = 0;
  prev_log_index = 0;
  leader_commit = 0;
  entries = allocation ∷ [];
}

abbrev is_taken : ℕ → Bool
is_taken n = not (n == 77)

find_free_node_id_free_example :
    let id = find_free_node_id is_taken 100 in
    ((is_taken id ≡ false) × (0 < id) × (id ≤ 127))
    ⊎ ((id ≡ 255) × ((n : ℕ) → 0 < n → n ≤ 125 → is_taken n ≡ true))
find_free_node_id_free_example = find_free_node_id_free is_taken 100

accepted :
    (handle_append_entries_request texts config at_start core 11 new_entries).0 ≡ success_of 1
unfolding handle_append_entries_request admit serve_leader follow_leader accept_entries
    replace_entries cut_behind append_all is_known_server is_listed switch_state register_activity
    get_entry append write_entry store_last_index last_index_key make_entry_key
    set_and_get_back_unique_id get_unique_id parse_unique_id convert_unique_id_to_hex all_hex
    hex_to_bytes set_and_get_back get_number parse_number decimal digits all_digits to_number
accepted = refl

handle_append_entries_request-IsReplicated_example :
    let r' = (handle_append_entries_request texts config at_start core 11 new_entries).1 in
    IsReplicated new_log r'.persistent.log new_entries × (r'.server_state ≡ follower)
handle_append_entries_request-IsReplicated_example =
    handle_append_entries_request-IsReplicated texts config at_start 11 core new_entries 1
      (refl, omega arith) accepted

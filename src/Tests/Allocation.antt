-- ===== src/Tests/Allocation.antt =====
-- libuavcan/include/uavcan/protocol/dynamic_node_id_server: runs of the distributed allocator on a
-- storage that maps each key to its text.
use uavcan.Base.{
  ℕ, ◌≤◌, ◌≡◌, refl, ◌≢◌, ◌⊎◌, true, false, List, [], ◌∷◌, Option, some, replicate, if◌then◌else◌,
  arith,
}
use uavcan.NodeIdServer.{ok, LogEntry, empty_entry, same_bytes}
use uavcan.NodeIdServer.Storage.{
  Backend, digits, decimal, all_digits, to_number, parse_number, get_number, set_and_get_back,
}
use uavcan.NodeIdServer.Storage.Faithful.{IsFaithful}
use uavcan.NodeIdServer.Log.{Log, capacity, read_entry, write_entry, is_other_log_up_to_date}
use uavcan.NodeIdServer.Log.RoundTrip.{read_entry-write_entry}
use uavcan.NodeIdServer.Persistent.{
  store, set_current_term, set_voted_for, reset_voted_for, voted_for_key, current_term_key,
}
use uavcan.NodeIdServer.Persistent.Updates.{set_current_term_outcome}
use uavcan.NodeIdServer.Cluster.{
  Server, is_known_server, is_listed, broadcast_discovery, is_cluster_discovered,
}
use uavcan.NodeIdServer.Raft.{
  Raft, Config, Env, follower, VoteRequest, VoteResponse, switch_state, adopt_term,
  register_activity,
}
use uavcan.NodeIdServer.Raft.Requests.{handle_request_vote_request, answer_vote}
use uavcan.NodeIdServer.Raft.Events.{At, discovery_timer, run, handle_event}
use uavcan.NodeIdServer.Raft.Votes.{IsLater}
use uavcan.NodeIdServer.Raft.Votes.Safety.{one_vote_per_term, run-IsLater, granted_vote_stored}

-- A storage is the function from keys to texts.
abbrev pub Texts : Type 0
Texts = List ℕ → List ℕ

abbrev pub texts : Backend Texts
texts = record {
  get = λ s key. s key;
  set = λ s key text key'. if same_bytes key key' then text else s key';
}

abbrev pub no_texts : Texts
no_texts key = []

pub texts_work : IsFaithful texts
texts_work s key text key' = refl

abbrev pub config : Config
config = record {
  min_election_timeout = 2000;
  max_election_timeout = 4000;
  max_entries = 1;
  max_cluster_size = 5;
}

abbrev pub server : ℕ → Server
server n = record { node_id = n; next_index = 1; match_index = 0 }

abbrev pub new_log : Log Texts
new_log = record { storage = no_texts; entries = replicate capacity empty_entry; last_index = 0 }

-- Server 10 of a cluster of the servers 10, 11 and 12.
abbrev pub core : Raft Texts
core = record {
  persistent = record { current_term = 1; voted_for = 0; log = new_log };
  cluster = record { servers = server 11 ∷ server 12 ∷ []; cluster_size = 3; is_running = false };
  commit_index = 0;
  last_activity = 0;
  activity_timeout = 0;
  server_state = follower;
  next_server_index = 0;
  num_votes = 0;
  pending_prev_log_index = 0;
  pending_num_entries = 0;
  outbox = [];
}

abbrev pub at_start : Env
at_start = record { self = 10; now = 5; random = 7 }

abbrev request_2 : VoteRequest
request_2 = record { term = 2; last_log_term = 0; last_log_index = 0 }

abbrev granted_2 : Option VoteResponse
granted_2 = some (record { term = 2; vote_granted = true })

first_vote : (handle_request_vote_request texts config at_start core 11 request_2).0 ≡ granted_2
unfolding handle_request_vote_request is_known_server is_listed adopt_term switch_state
    set_current_term store set_and_get_back get_number parse_number decimal digits all_digits
    to_number reset_voted_for set_voted_for answer_vote register_activity current_term_key
    voted_for_key is_other_log_up_to_date
first_vote = refl

abbrev voted : Raft Texts
voted = (handle_request_vote_request texts config at_start core 11 request_2).1

-- The second request comes from the same candidate, after an hour without a message.
abbrev idle : List At
idle = record { now = 3600000000; random = 3; event = discovery_timer } ∷ []

abbrev later : Raft Texts
later = run texts config 10 voted idle

second_vote : (handle_request_vote_request texts config at_start later 11 request_2).0 ≡ granted_2
unfolding run handle_event broadcast_discovery is_cluster_discovered handle_request_vote_request
    is_known_server is_listed adopt_term switch_state set_current_term store set_and_get_back
    get_number parse_number decimal digits all_digits to_number reset_voted_for set_voted_for
    answer_vote register_activity current_term_key voted_for_key is_other_log_up_to_date
second_vote = refl

abbrev applicant : ℕ
applicant = 11

one_vote_per_term_example : applicant ≡ applicant
one_vote_per_term_example =
    one_vote_per_term texts config 10 core at_start at_start applicant applicant request_2 request_2
      idle 2 refl refl (omega arith) first_vote second_vote

run-IsLater_example : IsLater 10 voted.persistent later.persistent
run-IsLater_example = run-IsLater texts config 10 voted idle refl

granted_vote_stored_example : get_number texts voted.persistent.log.storage voted_for_key ≡ some 11
granted_vote_stored_example =
    granted_vote_stored texts config 10 at_start 11 core request_2 2 first_vote

set_current_term_outcome_example :
    let (res, q) = set_current_term texts core.persistent 3 in
    (q.voted_for ≡ 0)
    × (q.log.entries ≡ new_log.entries)
    × (q.log.last_index ≡ 0)
    × (((res ≡ ok)
          × (1 ≤ 3)
          × (q.current_term ≡ 3)
          × (get_number texts q.log.storage current_term_key ≡ some 3))
        ⊎ ((res ≢ ok) × (q.current_term ≡ 1)))
set_current_term_outcome_example = set_current_term_outcome texts core.persistent 3

abbrev pub allocation : LogEntry
allocation = record {
  term = 70000;
  unique_id = 1 ∷ 35 ∷ 69 ∷ 103 ∷ 137 ∷ 171 ∷ 205 ∷ 239 ∷ 0 ∷ 255 ∷ 16 ∷ 9 ∷ 10 ∷ 160 ∷ 99 ∷ 7 ∷ [];
  node_id = 125;
}

read_entry-write_entry_example :
    let (res, s') = write_entry texts no_texts 12 allocation in
    (res ≡ ok) × (read_entry texts s' 12 ≡ some allocation)
read_entry-write_entry_example =
    read_entry-write_entry texts no_texts 12 allocation texts_work
      (omega arith, ground arith, refl, omega arith)

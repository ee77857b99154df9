-- ===== src/NodeIdServer/Raft/Events.antt =====
-- The events that reach a RaftCore after init, and the runs of them. Each event has its own time and
-- random number; the calls of the responses are those of the transport.
use uavcan.Base.{ℕ, List, [], ◌∷◌, Option}
use uavcan.NodeIdServer.Storage.{Backend}
use uavcan.NodeIdServer.Cluster.{Discovery, handle_discovery, broadcast_discovery}
use uavcan.NodeIdServer.Raft.{
  Raft, Config, Env, AppendRequest, AppendResponse, VoteRequest, VoteResponse, last_log_index,
}
use uavcan.NodeIdServer.Raft.Timer.{handle_timer_event}
use uavcan.NodeIdServer.Raft.Requests.{handle_append_entries_request, handle_request_vote_request}
use uavcan.NodeIdServer.Raft.Responses.{
  handle_append_entries_response, handle_request_vote_response, append_log,
}

pub data Event : Type 0 where
  timer : Event
  append_request : (src : ℕ) → AppendRequest → Event
  append_response : (server : ℕ) → Option AppendResponse → Event
  vote_request : (src : ℕ) → VoteRequest → Event
  vote_response : Option VoteResponse → Event
  discovery : Discovery → Event
  discovery_timer : Event
  new_entry : (unique_id : List ℕ) → (node_id : ℕ) → Event

-- Time and random number of an event.
pub record At : Type 0 where
  pub now : ℕ
  pub random : ℕ
  pub event : Event

module _ {S : Type 0} (b : Backend S) (c : Config) (self : ℕ) where
  abbrev pub env : At → Env
  env a = record { self = self; now = a.now; random = a.random }

  -- The state after an event; the responses are not kept.
  unfoldable pub handle_event : Env → Raft S → Event → Raft S
  handle_event e r timer = handle_timer_event b c e r
  handle_event e r (append_request src request) =
      let (response, r') = handle_append_entries_request b c e r src request in r'
  handle_event e r (append_response server response) =
      handle_append_entries_response b c e r server response
  handle_event e r (vote_request src request) =
      let (response, r') = handle_request_vote_request b c e r src request in r'
  handle_event e r (vote_response response) = handle_request_vote_response b c e r response
  handle_event e r (discovery msg) = record r {
    cluster = handle_discovery self (last_log_index r) r.cluster msg;
  }
  handle_event e r discovery_timer =
      let (msg, cluster) = broadcast_discovery self r.cluster in record r { cluster = cluster }
  handle_event e r (new_entry unique_id node_id) = append_log b c e r unique_id node_id

  unfoldable pub run : Raft S → List At → Raft S
  run r [] = r
  run r (a ∷ events) = run (handle_event (env a) r a.event) events

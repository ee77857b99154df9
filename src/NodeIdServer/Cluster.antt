-- ===== src/NodeIdServer/Cluster.antt =====
-- ClusterManager of distributed/cluster_manager.hpp. The calls take the id of the local node, and
-- those that read the log the index of its last entry. MaxClusterSize is the size of a field of the
-- message Discovery, which is no part of the repository: `max_cluster_size` stands for it. A list
-- stands for the used part of servers_; add_server is only called while that array has room.
use uavcan.Base.{
  ℕ, zero, suc, ◌+◌, ◌-◌, ◌/◌, ◌%◌, ◌^◌, Bool, true, false, not, ◌&&◌, ◌||◌, List, [], ◌∷◌, ◌++◌,
  map, Option, none, some, length, ltb, ◌==◌, if◌then◌else◌,
}
use uavcan.Transport.Transfer.{is_unicast}
use uavcan.NodeIdServer.{Status, ok, err, err_failure, err_invalid_param, err_invalid_configuration}
use uavcan.NodeIdServer.Storage.{codes, Backend, get_number, set_and_get_back}

pub record Server : Type 0 where
  pub node_id : ℕ
  pub next_index : ℕ
  pub match_index : ℕ

abbrev pub reset_indices : ℕ → Server → Server
reset_indices last_index s = record s { next_index = (last_index + 1) % 2 ^ 8; match_index = 0 }

-- `is_running` is the state of the timer of the discovery broadcasts.
pub record Cluster : Type 0 where
  pub servers : List Server
  pub cluster_size : ℕ
  pub is_running : Bool

unfoldable pub find_server : List Server → ℕ → Option Server
find_server [] node_id = none
find_server (s ∷ servers) node_id =
    let rest = find_server servers node_id in if s.node_id == node_id then some s else rest

-- A change of the server that find_server finds.
unfoldable pub change_server : (Server → Server) → List Server → ℕ → List Server
change_server f [] node_id = []
change_server f (s ∷ servers) node_id =
    let rest = change_server f servers node_id in
    if s.node_id == node_id then f s ∷ servers else s ∷ rest

unfoldable pub is_listed : List Server → ℕ → Bool
is_listed [] node_id = false
is_listed (s ∷ servers) node_id = s.node_id == node_id || is_listed servers node_id

unfoldable pub is_known_server : ℕ → Cluster → ℕ → Bool
is_known_server self c node_id = node_id == self || is_listed c.servers node_id

unfoldable pub add_server : ℕ → ℕ → Cluster → ℕ → Cluster
add_server self last_index c node_id =
    if not (is_known_server self c node_id) && is_unicast node_id
    then record c {
      servers =
          c.servers
          ++ (reset_indices last_index
                (record { node_id = node_id; next_index = 0; match_index = 0 })
              ∷ []);
    }
    else c

-- The invalid node id is 0xFF.
unfoldable pub remote_server_at : List Server → ℕ → ℕ
remote_server_at [] index = 255
remote_server_at (s ∷ servers) zero = s.node_id
remote_server_at (s ∷ servers) (suc index) = remote_server_at servers index

unfoldable pub get_server_next_index : Cluster → ℕ → ℕ
get_server_next_index c node_id = elim (find_server c.servers node_id) [
  | none ↦ 0
  | some s ↦ s.next_index
]

unfoldable pub get_server_match_index : Cluster → ℕ → ℕ
get_server_match_index c node_id = elim (find_server c.servers node_id) [
  | none ↦ 0
  | some s ↦ s.match_index
]

unfoldable pub increment_server_next_index_by : Cluster → ℕ → ℕ → Cluster
increment_server_next_index_by c node_id increment = record c {
  servers =
      change_server (λ s. record s { next_index = (s.next_index + increment) % 2 ^ 8 }) c.servers
        node_id;
}

unfoldable pub decrement_server_next_index : Cluster → ℕ → Cluster
decrement_server_next_index c node_id = record c {
  servers =
      change_server (λ s. record s { next_index = (s.next_index + 2 ^ 8 - 1) % 2 ^ 8 }) c.servers
        node_id;
}

unfoldable pub set_server_match_index : Cluster → ℕ → ℕ → Cluster
set_server_match_index c node_id match_index = record c {
  servers = change_server (λ s. record s { match_index = match_index }) c.servers node_id;
}

unfoldable pub reset_all_server_indices : ℕ → Cluster → Cluster
reset_all_server_indices last_index c = record c {
  servers = map (reset_indices last_index) c.servers;
}

abbrev pub get_num_known_servers : Cluster → ℕ
get_num_known_servers c = length c.servers

unfoldable pub get_quorum_size : Cluster → ℕ
get_quorum_size c = (c.cluster_size / 2 + 1) % 2 ^ 8

unfoldable pub is_cluster_discovered : Cluster → Bool
is_cluster_discovered c = length c.servers + 1 == c.cluster_size

-- The message Discovery.
pub record Discovery : Type 0 where
  pub configured_cluster_size : ℕ
  pub known_nodes : List ℕ

abbrev server_ids : List Server → List ℕ
server_ids servers = map (λ s. s.node_id) servers

-- handleTimerEvent of the manager: the message that is broadcast.
unfoldable pub broadcast_discovery : ℕ → Cluster → Discovery × Cluster
broadcast_discovery self c = (
  record { configured_cluster_size = c.cluster_size; known_nodes = self ∷ server_ids c.servers },
  if is_cluster_discovered c then record c { is_running = false } else c,
)

-- The loop of handleDiscovery over the known nodes.
unfoldable pub learn_servers : ℕ → ℕ → Cluster → List ℕ → Cluster
learn_servers self last_index c [] = c
learn_servers self last_index c (node_id ∷ known_nodes) =
    let rest =
      learn_servers self last_index
        (if is_unicast node_id && not (is_known_server self c node_id)
          then add_server self last_index c node_id
          else c)
        known_nodes in
    if is_cluster_discovered c then c else rest

unfoldable pub handle_discovery : ℕ → ℕ → Cluster → Discovery → Cluster
handle_discovery self last_index c msg =
    if not (msg.configured_cluster_size == c.cluster_size)
    then c
    else (let learned = learn_servers self last_index c msg.known_nodes in
        if ltb (length msg.known_nodes) msg.configured_cluster_size
        then record learned { is_running = true }
        else learned)

unfoldable pub cluster_size_key : List ℕ
cluster_size_key = codes "cluster_size"

module _ {S : Type 0} (b : Backend S) (max_cluster_size : ℕ) where
  -- The first part of `init`, which finds the cluster size; 0 is ClusterSizeUnknown.
  unfoldable pub init_cluster_size : S → ℕ → Cluster → Status × S × Cluster
  init_cluster_size s init_size c =
      if init_size == 0
      then elim (get_number b s cluster_size_key) [
        | none ↦ (err err_failure, s, c)
        | some value ↦
            if value == 0 || ltb max_cluster_size value
            then (err err_invalid_configuration, s, c)
            else (ok, s, record c { cluster_size = value % 2 ^ 8 })
      ]
      else if ltb max_cluster_size init_size
      then (err err_invalid_param, s, c)
      else (let c' = record c { cluster_size = init_size } in
          let (stored, s') = set_and_get_back b s cluster_size_key init_size in
          elim stored [
            | none ↦ (err err_failure, s', c')
            | some stored ↦ (if stored == init_size then ok else err err_failure, s', c')
          ])

  -- ClusterManager::init; the results of discovery_pub_.init and discovery_sub_.start are
  -- parameters.
  unfoldable pub init : Status → Status → ℕ → S → ℕ → Cluster → Status × S × Cluster
  init pub_res sub_res last_index s init_size c =
      let (res, s', c') = init_cluster_size s init_size c in
      elim res [
        | err e ↦ (err e, s', c')
        | ok ↦ elim pub_res [
          | err e ↦ (err e, s', c')
          | ok ↦ elim sub_res [
            | err e ↦ (err e, s', c')
            | ok ↦ (ok, s', reset_all_server_indices last_index (record c' { is_running = true }))
          ]
        ]
      ]

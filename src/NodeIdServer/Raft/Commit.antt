-- ===== src/NodeIdServer/Raft/Commit.antt =====
-- raft_core.hpp, propagateCommitIndex: when a leader commits the next entry.
use uavcan.Base.{
  ℕ, ◌+◌, ◌%◌, ◌^◌, ◌≤◌, ◌<◌, ◌≡◌, refl, ◌⊎◌, inl, inr, sym, ap, ◌∙◌, subst, true, false, List, [],
  ◌∷◌, ◌++◌, some, length, get_or, ltb, leb, ◌==◌, ==_iff, if◌then◌else◌, Bool-cases, length-append,
  arith,
}
use mathlib.Core.List.{append_assoc}
use uavcan.NodeIdServer.{empty_entry}
use uavcan.NodeIdServer.Cluster.{
  Server, Cluster, find_server, is_listed, remote_server_at, get_server_match_index,
  get_quorum_size,
}
use uavcan.NodeIdServer.Raft.{Raft, last_log_index, log_commit}
use uavcan.NodeIdServer.Raft.Timer.{count_available, propagate_commit_index}

-- The servers of the list that have an entry behind the index.
unfoldable pub replicas : ℕ → List Server → ℕ
replicas commit_index [] = 0
replicas commit_index (s ∷ servers) =
    let rest = replicas commit_index servers in
    if ltb commit_index s.match_index then rest + 1 else rest

replicas_le : (k : ℕ) (servers : List Server) → replicas k servers ≤ length servers
unfolding replicas
replicas_le k [] = omega arith
replicas_le k (s ∷ servers) = let rest = replicas_le k servers in ground arith

-- No node id is listed twice.
unfoldable pub AreDistinct : List Server → Type 0
AreDistinct [] = Unit {0}
AreDistinct (s ∷ servers) = (is_listed servers s.node_id ≡ false) × AreDistinct servers

is_listed-append_here :
    (before after : List Server) (s : Server) → is_listed (before ++ (s ∷ after)) s.node_id ≡ true
unfolding is_listed
is_listed-append_here [] after s = ground arith
is_listed-append_here (x ∷ before) after s =
    let rest = is_listed-append_here before after s in ground arith

find_server-append_here :
    (before after : List Server) (s : Server)
    → AreDistinct (before ++ (s ∷ after))
    → find_server (before ++ (s ∷ after)) s.node_id ≡ some s
unfolding find_server AreDistinct
find_server-append_here [] after s d = ground arith
find_server-append_here (x ∷ before) after s d =
    let rest = find_server-append_here before after s d.1 in
    let listed = is_listed-append_here before after s in
    let other = d.0 in
    elim (Bool-cases (x.node_id == s.node_id)) [
      | inl t ↦
          let same = (==_iff x.node_id s.node_id).0 t in
          let twice : is_listed (before ++ (s ∷ after)) s.node_id ≡ false =
            subst (λ n. is_listed (before ++ (s ∷ after)) n ≡ false) same other in
          absurd (ground arith)
      | inr f ↦ rw (find_server, f) rest
    ]

remote_server_at-append :
    (before after : List Server) (s : Server)
    → remote_server_at (before ++ (s ∷ after)) (length before) ≡ s.node_id
unfolding remote_server_at
remote_server_at-append [] after s = refl
remote_server_at-append (x ∷ before) after s = remote_server_at-append before after s

found_at :
    (xs before after : List Server) (s : Server)
    → xs ≡ before ++ (s ∷ after)
    → AreDistinct xs
    → find_server xs (remote_server_at xs (length before)) ≡ some s
found_at xs before after s e d =
    let whole = subst (λ ys. AreDistinct ys) e d in
    let here : find_server (before ++ (s ∷ after))
          (remote_server_at (before ++ (s ∷ after)) (length before))
        ≡ some s =
      ap (find_server (before ++ (s ∷ after))) (remote_server_at-append before after s)
      ∙ find_server-append_here before after s whole in
    subst (λ ys. find_server ys (remote_server_at ys (length before)) ≡ some s) (sym e) here

-- The loop from position `i` on, over the servers behind it.
count_available-append :
    (c : Cluster) (commit_index i : ℕ) (before after : List Server)
    → i ≡ length before
    → c.servers ≡ before ++ after
    → AreDistinct c.servers
    → count_available (length after) i c commit_index ≡ replicas commit_index after
unfolding count_available replicas get_server_match_index
count_available-append c k i before [] l e d = refl
count_available-append c k i before (s ∷ after) l e d =
    let found : find_server c.servers (remote_server_at c.servers i) ≡ some s =
      ap (λ n. find_server c.servers (remote_server_at c.servers n)) l
      ∙ found_at c.servers before after s e d in
    let rest =
      count_available-append c k (i + 1) (before ++ (s ∷ [])) after
        (omega (arith, length-append before (s ∷ [])))
        (e ∙ sym (append_assoc before (s ∷ []) after)) d in
    ground arith

-- A leader of a cluster of at most 255 servers, of which none is listed twice: the commit index grows by one, and the monitor is told
-- of the entry there, where an entry is not committed and a quorum has it, the leader included;
-- else nothing changes.
pub propagate_commit_index_iff :
    {S : Type 0}
    → (r : Raft S) → AreDistinct r.cluster.servers
    → length r.cluster.servers < 255
    → r.commit_index < 255
    → let r' = propagate_commit_index r in
      let has_quorum =
        leb (get_quorum_size r.cluster) (replicas r.commit_index r.cluster.servers + 1) in
      ((r.commit_index < last_log_index r)
        × (has_quorum ≡ true)
        × (r'.commit_index ≡ r.commit_index + 1)
        × (r'.outbox
            ≡ r.outbox
              ++ (log_commit (get_or r.persistent.log.entries (r.commit_index + 1) empty_entry)
                  ∷ [])))
      ⊎ (((last_log_index r ≤ r.commit_index) ⊎ (has_quorum ≡ false)) × (r' ≡ r))
unfolding propagate_commit_index
propagate_commit_index_iff r d few small =
    let counted =
      count_available-append r.cluster r.commit_index 0 [] r.cluster.servers refl refl d in
    let bound = replicas_le r.commit_index r.cluster.servers in
    let total : (count_available (length r.cluster.servers) 0 r.cluster r.commit_index + 1) % 2 ^ 8
        ≡ replicas r.commit_index r.cluster.servers + 1 =
      omega arith in
    let next : (r.commit_index + 1) % 2 ^ 8 ≡ r.commit_index + 1 = omega arith in ground arith

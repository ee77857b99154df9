-- ===== src/Can/TxQueue.antt =====
-- CanTxQueue of libuavcan/include/uavcan/transport/can_io.hpp and
-- libuavcan/src/transport/uc_can_io.cpp: the frames of one interface that wait to be sent, the one
-- that wins arbitration first. `now` is what the system clock gives in the call.
pub mod Order
use uavcan.Base.{
  ℕ, zero, suc, ◌+◌, ◌-◌, ◌*◌, ◌^◌, Bool, true, false, not, List, [], ◌∷◌, Option, none, some, ltb,
  leb, ◌==◌, if◌then◌else◌,
}
use uavcan.Can.{CanFrame, priority_higher_than, priority_lower_than}
use uavcan.Memory.{LimitedPool, limited_allocate, limited_deallocate}

-- CanTxQueue::Entry; `storage` is the pool block it stands in, and `qos` is 0 for Volatile, 1 for
-- Persistent.
pub record Entry : Type 0 where
  pub storage : List ℕ
  pub deadline : ℕ
  pub frame : CanFrame
  pub qos : ℕ
  pub flags : ℕ

pub record TxQueue : Type 0 where
  pub queue : List Entry
  pub allocator : LimitedPool (List ℕ)
  pub rejected_frames_cnt : ℕ

abbrev pub is_expired : ℕ → Entry → Bool
is_expired now e = ltb e.deadline now

unfoldable pub qos_higher_than : Entry → CanFrame → ℕ → Bool
qos_higher_than e rhs rhs_qos =
    if not (e.qos == rhs_qos) then ltb rhs_qos e.qos else priority_higher_than e.frame rhs

unfoldable pub qos_lower_than : Entry → CanFrame → ℕ → Bool
qos_lower_than e rhs rhs_qos =
    if not (e.qos == rhs_qos) then ltb e.qos rhs_qos else priority_lower_than e.frame rhs

-- registerRejectedFrame; the counter stops at the end of uint32_t.
unfoldable pub register_rejected_frame : TxQueue → TxQueue
register_rejected_frame q = record q {
  rejected_frames_cnt =
      if ltb q.rejected_frames_cnt (2 ^ 32 - 1)
      then q.rejected_frames_cnt + 1
      else q.rejected_frames_cnt;
}

unfoldable pub free_entry : Entry → TxQueue → TxQueue
free_entry e q = record q { allocator = limited_deallocate q.allocator e.storage }

-- remove of the entry at an index.
unfoldable pub unlink : List Entry → ℕ → List Entry
unlink [] i = []
unlink (e ∷ es) zero = es
unlink (e ∷ es) (suc i) = e ∷ unlink es i

-- The cleanup loop of `push` from a node on: the entries that stay, and the rest of the state.
unfoldable pub drop_expired : ℕ → List Entry → TxQueue → List Entry × TxQueue
drop_expired now [] q = ([], q)
drop_expired now (e ∷ es) q =
    let expired = is_expired now e in
    let (kept, q') =
      drop_expired now es (if expired then free_entry e (register_rejected_frame q) else q) in
    (if expired then kept else e ∷ kept, q')

unfoldable pub cleanup : ℕ → TxQueue → TxQueue
cleanup now q = let (kept, q') = drop_expired now q.queue q in record q' { queue = kept }

-- The loop for the lowest QoS: the index and the entry it ends with, from the index `i` on.
unfoldable pub lowest_qos : ℕ → Entry → ℕ → List Entry → ℕ × Entry
lowest_qos at lowest i [] = (at, lowest)
lowest_qos at lowest i (p ∷ ps) =
    if qos_higher_than lowest p.frame p.qos
    then lowest_qos i p (i + 1) ps
    else lowest_qos at lowest (i + 1) ps

-- LinkedListRoot::insertBefore with PriorityInsertionComparator.
unfoldable pub insert_before : Entry → List Entry → List Entry
insert_before e [] = e ∷ []
insert_before e (x ∷ xs) =
    let behind = insert_before e xs in
    if priority_higher_than e.frame x.frame then e ∷ x ∷ xs else x ∷ behind

-- Entry allocation, with the quota's own state updated.
unfoldable pub allocate_entry : TxQueue → Option (List ℕ) × TxQueue
allocate_entry q =
    let (got, a) = limited_allocate q.allocator q.allocator.base.block_size in
    (got, record q { allocator = a })

unfoldable pub enqueue : TxQueue → List ℕ → CanFrame → ℕ → ℕ → ℕ → TxQueue
enqueue q storage frame deadline qos flags =
    let e : Entry = record {
      storage = storage;
      deadline = deadline;
      frame = frame;
      qos = qos;
      flags = flags;
    } in
    record q { queue = insert_before e q.queue }

-- The arbitration by QoS of `push` when the cleanup freed nothing.
unfoldable pub arbitrate : TxQueue → CanFrame → ℕ → Option (List ℕ) × TxQueue
arbitrate q frame qos =
    let counted = register_rejected_frame q in
    elim counted.queue [
      | [] ↦ (none, counted)
      | p ∷ ps ↦
          let (at, lowest) = lowest_qos 0 p 0 (p ∷ ps) in
          if qos_higher_than lowest frame qos
          then (none, counted)
          else allocate_entry (free_entry lowest (record counted { queue = unlink (p ∷ ps) at }))
    ]

unfoldable pub push : ℕ → TxQueue → CanFrame → ℕ → ℕ → ℕ → TxQueue
push now q frame deadline qos flags =
    if leb deadline now
    then register_rejected_frame q
    else (let (got, q1) = allocate_entry q in
        elim got [
          | some b ↦ enqueue q1 b frame deadline qos flags
          | none ↦
              let (again, q2) = allocate_entry (cleanup now q1) in
              elim again [
                | some b ↦ enqueue q2 b frame deadline qos flags
                | none ↦
                    let (last, q3) = arbitrate q2 frame qos in
                    elim last [ some b ↦ enqueue q3 b frame deadline qos flags | none ↦ q3 ]
              ]
        ])

-- peek: the expired entries in front are removed.
unfoldable pub peek_from : ℕ → List Entry → TxQueue → Option Entry × TxQueue
peek_from now [] q = (none, record q { queue = [] })
peek_from now (e ∷ es) q =
    let behind = peek_from now es (free_entry e (register_rejected_frame q)) in
    if is_expired now e then behind else (some e, record q { queue = e ∷ es })

unfoldable pub peek : ℕ → TxQueue → Option Entry × TxQueue
peek now q = peek_from now q.queue q

unfoldable pub remove : ℕ → Entry → TxQueue → TxQueue
remove at e q = free_entry e (record q { queue = unlink q.queue at })

unfoldable pub get_top_priority_pending_frame : TxQueue → Option CanFrame
get_top_priority_pending_frame q = elim q.queue [ [] ↦ none | e ∷ es ↦ some e.frame ]

unfoldable pub top_priority_higher_or_equal : TxQueue → CanFrame → Bool
top_priority_higher_or_equal q rhs = elim q.queue [
  | [] ↦ false
  | e ∷ es ↦ not (priority_higher_than rhs e.frame)
]

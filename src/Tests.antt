-- ===== src/Tests.antt =====
-- The theorems applied at concrete frames, buffers and pools.
mod Receiving
mod Running
mod Allocation
mod Cluster
mod Routing
mod Filters
mod Marshalling
mod Requests
mod Io
use uavcan.Base.{
  ◌==◌, ℕ, ◌+◌, ◌*◌, ◌^◌, ◌≤◌, ◌≡◌, ◌≢◌, ◌↔◌, refl, arith, true, false, List, [], ◌∷◌, none, some,
  length, take, drop, replicate,
}
use uavcan.Can.{
  CanFrame, priority_higher_than, is_extended, is_remote_transmission_request, clean_id,
}
use uavcan.Can.Priority.{priority_higher_than_trans, priority_higher_than_total}
use uavcan.Memory.{Pool, LimitedPool, init, allocate, limited_allocate}
use uavcan.Memory.Accounting.{
  IsCounted, init-IsCounted, allocate-IsCounted, attempts, attempts_exhaust,
}
use uavcan.Transport.Crc.{add, tiny_add, add_bytes}
use uavcan.Transport.Crc.Tiny.{add-tiny_add}
use uavcan.Transport.Crc.Detect.{add_bytes_detects}
use uavcan.Transport.Transfer.{service_request, message_broadcast}
use uavcan.Transport.TransferId.{compute_forward_distance}
use uavcan.Transport.TransferId.Distance.{increments, forward_distance_iff}
use uavcan.Transport.Frame.{Frame, compile, parse, is_valid}
use uavcan.Transport.Frame.RoundTrip.{parse-compile}
use uavcan.Transport.TransferBuffer.Static
use uavcan.Transport.TransferBuffer.Static.{StaticBuffer, write-IsValid, read-write}
use uavcan.Transport.TransferBuffer.Entry
use uavcan.Transport.TransferBuffer.Entry.{Entry, Key}
use uavcan.Transport.TransferBuffer.Entry.Refines
use uavcan.Transport.TransferBuffer.Entry.Refines.{
  contents, IsAppended, write-IsAppended, read-contents,
}
use uavcan.Can.TxQueue
use uavcan.Can.TxQueue.{TxQueue, push, peek, is_expired}
use uavcan.Can.TxQueue.Order.{IsSorted, Below, push-IsSorted, peek-highest}
use uavcan.Transport.TransferBuffer.Entry.{same_key, instantiate}
use uavcan.Transport.TransferBuffer.Manager
use uavcan.Transport.TransferBuffer.Manager.{Manager, access, create, find_first}
use uavcan.Transport.TransferBuffer.Manager.Keys.{Distinct, Absent, create-access, remove-access}
use uavcan.Transport.Listener.{Listener, check_payload_crc}
use uavcan.Transport.Listener.Payload.{check_payload_crc-contents}
use uavcan.Transport.Sender.{Sender, send}
use uavcan.Transport.Sender.Split.{multi_frames, with_crc, dispatch_all, joined}
use uavcan.Transport.Sender.Split.Rounds.{
  logging, send-joined, send-multi_frames, starting_frame, orders_of,
}

-- A request of node 5 to node 9, a whole transfer of three bytes.
abbrev request : Frame
request = record {
  priority = 16;
  transfer_type = service_request;
  data_type_id = 10;
  payload = 1 ∷ 2 ∷ 3 ∷ [];
  src = 5;
  dst = 9;
  transfer_id = 7;
  start_of_transfer = true;
  end_of_transfer = true;
  toggle = false;
}

abbrev zeros : List ℕ
zeros = replicate 8 0

parse-compile_example :
    (c : CanFrame) × (compile request zeros ≡ some c) × (c.dlc ≡ 4) × (parse c ≡ some request)
unfolding is_valid
parse-compile_example = parse-compile request zeros refl (omega arith) (λ h. omega (arith, h))

abbrev block : List ℕ
block = replicate 4 0

abbrev half_full : Entry
half_full = record {
  storage = block;
  blocks = (1 ∷ 2 ∷ 3 ∷ 0 ∷ []) ∷ [];
  max_write_pos = 3;
  max_size = 100;
  key = record { node_id = 5; transfer_type = message_broadcast };
}

abbrev pool : Pool (List ℕ)
pool = record { free_list = block ∷ block ∷ []; block_size = 4; used = 1; max_used = 1 }

half_full-IsValid : Refines.IsValid half_full
unfolding uavcan.Transport.TransferBuffer.Entry.Chain.flatten
half_full-IsValid = record { stored = omega arith; fits = omega arith }

write-IsAppended_example :
    IsAppended half_full pool (7 ∷ 8 ∷ 9 ∷ []) (Entry.write half_full pool 3 (7 ∷ 8 ∷ 9 ∷ []))
unfolding Refines.room uavcan.Transport.TransferBuffer.Entry.Chain.flatten
write-IsAppended_example =
    write-IsAppended half_full pool 3 (7 ∷ 8 ∷ 9 ∷ []) half_full-IsValid refl (omega arith)
      (omega arith)

read-contents_example : Entry.read half_full 1 5 ≡ take 5 (drop 1 (contents half_full))
read-contents_example = read-contents half_full 1 5 half_full-IsValid

add_bytes_detects_example : add_bytes 0xffff (1 ∷ 2 ∷ 3 ∷ []) ≢ add_bytes 0xffff (1 ∷ 7 ∷ 3 ∷ [])
add_bytes_detects_example =
    add_bytes_detects 0xffff (1 ∷ []) (3 ∷ []) 2 7 (omega arith) (omega arith) (omega arith)
      (omega arith, tt) (λ e. omega (arith, e))

add-tiny_add_example : add 0xffff 0x31 ≡ tiny_add 0xffff 0x31
add-tiny_add_example = add-tiny_add 0xffff 0x31 (omega arith) (omega arith)

forward_distance_iff_example : (increments 4 30 ≡ 2) ↔ (4 ≡ compute_forward_distance 30 2)
forward_distance_iff_example = forward_distance_iff 30 2 4 (omega arith) (omega arith) (omega arith)

-- A standard frame, and two extended ones.
abbrev standard : CanFrame
standard = record { id = 0x123; data_bytes = []; dlc = 0 }

abbrev extended : CanFrame
extended = record { id = 2 ^ 31 + 0x123 * 2 ^ 18; data_bytes = []; dlc = 0 }

abbrev lower : CanFrame
lower = record { id = 2 ^ 31 + 0x124 * 2 ^ 18; data_bytes = []; dlc = 0 }

priority_higher_than_trans_example : priority_higher_than standard lower ≡ true
unfolding priority_higher_than
priority_higher_than_trans_example = priority_higher_than_trans standard extended lower refl refl

abbrev array : StaticBuffer
array = record { bytes = zeros; max_write_pos = 2 }

abbrev spent : LimitedPool (List ℕ)
spent = record {
  base = record { free_list = []; block_size = 4; used = 2; max_used = 2 };
  max_blocks = 2;
  used_blocks = 0;
}

attempts_exhaust_example :
    (limited_allocate (attempts 3 4 (record (attempts 2 4 spent) { base = pool })) 4).0 ≡ none
attempts_exhaust_example = attempts_exhaust 2 4 3 4 4 spent pool refl (omega arith)

-- A queue of one frame, and room for no more.
abbrev waiting : TxQueue.Entry
waiting = record { storage = block; deadline = 100; frame = lower; qos = 1; flags = 0 }

abbrev full_queue : TxQueue
full_queue = record {
  queue = waiting ∷ [];
  allocator = record {
    base = record { free_list = []; block_size = 4; used = 1; max_used = 1 };
    max_blocks = 5;
    used_blocks = 1;
  };
  rejected_frames_cnt = 0;
}

full_queue-IsSorted : IsSorted full_queue.queue
unfolding IsSorted Below
full_queue-IsSorted = (tt, tt)

push-IsSorted_example : IsSorted (push 10 full_queue standard 50 1 0).queue
push-IsSorted_example = push-IsSorted 10 full_queue standard 50 1 0 full_queue-IsSorted

abbrev key : Key
key = record { node_id = 5; transfer_type = message_broadcast }

abbrev other_key : Key
other_key = record { node_id = 6; transfer_type = message_broadcast }

abbrev manager : Manager
manager = record { buffers = []; pool = pool; max_buf_size = 64 }

abbrev created : Entry
created = record { storage = block; blocks = []; max_write_pos = 0; max_size = 64; key = key }

create-access_example :
    (access (create manager key).1 key ≡ some created)
    × (access (create manager key).1 other_key ≡ access manager other_key)
    × Distinct (create manager key).1.buffers
    × (created.blocks ≡ [])
    × (created.max_write_pos ≡ 0)
unfolding Distinct create Manager.remove find_first instantiate Entry.reset allocate
create-access_example = create-access manager key other_key created tt refl refl

abbrev one_buffer : Manager
one_buffer = record { buffers = created ∷ []; pool = pool; max_buf_size = 64 }

abbrev listener : Listener
listener = record {
  receivers = [];
  num_kv = 2;
  buffers = half_full ∷ [];
  max_buf_size = 64;
  pool = pool;
  crc_base = 0xffff;
  allow_anonymous_transfers = false;
  perf = record { transfers_rx = 0; errors = 0 };
}

check_payload_crc-contents_example :
    check_payload_crc listener 7 half_full ≡ (add_bytes 0xffff (contents half_full) == 7)
check_payload_crc-contents_example =
    check_payload_crc-contents listener 7 half_full half_full-IsValid

abbrev sender : Sender
sender = record {
  qos = 0;
  flags = 0;
  iface_mask = 0xff;
  priority = 16;
  allow_anonymous_transfers = false;
  data_type_id = 300;
  crc_base = 0xffff;
}

abbrev nine : List ℕ
nine = 1 ∷ 2 ∷ 3 ∷ 4 ∷ 5 ∷ 6 ∷ 7 ∷ 8 ∷ 9 ∷ []

send-multi_frames_example :
    send (logging 5) sender nine 100 0 message_broadcast 0 3 []
    ≡ dispatch_all
        (logging 5)
        (orders_of sender 100 0)
        (multi_frames
          (starting_frame sender message_broadcast 5 0 3)
          (with_crc (add_bytes 0xffff nine) nine))
        0
        []
send-multi_frames_example =
    send-multi_frames (logging 5) sender nine 100 0 message_broadcast 0 3 [] refl (omega arith)

send-joined_example :
    joined (send (logging 5) sender nine 100 0 message_broadcast 0 3 []).1
    ≡ with_crc (add_bytes 0xffff nine) nine
send-joined_example = send-joined sender nine 100 0 message_broadcast 5 0 3 (omega arith)

-- ===== src/Tests/Running.antt =====
-- Runs of the map, the listener and the queue on small inputs.
use uavcan.Base.{ℕ, ◌≡◌, refl, Bool, true, false, List, [], ◌∷◌, some, none, ◌==◌}
use uavcan.Memory.{Pool, allocate, deallocate}
use uavcan.Transport.Transfer.{message_broadcast}
use uavcan.Transport.Receiver.{RxFrame}
use uavcan.Transport.Listener
use uavcan.Transport.Listener.{Listener, handle_frame}
use uavcan.Util.Map
use uavcan.Util.Map.{Map}

abbrev pool : Pool (List ℕ)
pool = record { free_list = [] ∷ [] ∷ [] ∷ []; block_size = 4; used = 0; max_used = 0 }

abbrev empty_map : Map ℕ ℕ
empty_map = record { groups = []; pool = pool; num_kv = 2 }

abbrev test : ℕ → ℕ → Bool
test a b = a == b

three : Map.access test (Map.insert test (Map.insert test empty_map 3 30).1 4 40).1 3 ≡ some 30
unfolding Map.access Map.insert Map.remove Map.assign_key Map.assign_kv Map.find_key Map.find_kv
    Map.matches Map.is_free Map.compact Map.compact_groups Map.all_free allocate
three = refl

three_gone : Map.access test (Map.remove test (Map.insert test empty_map 3 30).1 3) 3 ≡ none
unfolding Map.access Map.insert Map.remove Map.assign_key Map.assign_kv Map.find_key Map.find_kv
    Map.matches Map.is_free Map.compact Map.compact_groups Map.all_free allocate deallocate
three_gone = refl

abbrev listener : Listener
listener = record {
  receivers = [];
  num_kv = 2;
  buffers = [];
  max_buf_size = 64;
  pool = pool;
  crc_base = 0xffff;
  allow_anonymous_transfers = true;
  perf = record { transfers_rx = 0; errors = 0 };
}

-- An anonymous message of one frame.
abbrev anonymous : RxFrame
anonymous = record {
  frame = record {
    priority = 16;
    transfer_type = message_broadcast;
    data_type_id = 1;
    payload = 7 ∷ 8 ∷ [];
    src = 0;
    dst = 0;
    transfer_id = 0;
    start_of_transfer = true;
    end_of_transfer = true;
    toggle = false;
  };
  ts_mono = 2000;
  ts_utc = 0;
  iface_index = 0;
}

anonymous_is_delivered :
    (handle_frame listener anonymous).0 ≡ Listener.single_incoming anonymous ∷ []
unfolding handle_frame Listener.handle_anonymous_transfer_reception
anonymous_is_delivered = refl

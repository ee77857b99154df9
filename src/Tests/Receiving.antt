-- ===== src/Tests/Receiving.antt =====
-- The receiver's theorems on a transfer under way.
use uavcan.Base.{ℕ, ◌≡◌, refl, arith, true, false, List, [], ◌∷◌, ◌++◌, some, replicate}
use uavcan.Transport.Transfer.{message_broadcast}
use uavcan.Transport.TransferId.{increment, compute_forward_distance}
use uavcan.Transport.TransferBuffer.Entry.{Entry, Key}
use uavcan.Transport.TransferBuffer.Entry.Chain.{flatten}
use uavcan.Transport.TransferBuffer.Entry.Refines
use uavcan.Transport.TransferBuffer.Entry.Refines.{contents, room}
use uavcan.Transport.TransferBuffer.Manager
use uavcan.Transport.TransferBuffer.Manager.{Manager}
use uavcan.Transport.Receiver.{
  Receiver, RxFrame, not_complete, complete, new_receiver, add_frame, is_stale, need_restart,
  is_timed_out,
}
use uavcan.Transport.Receiver.Frames.{
  IsAssembling, Continues, HasRoom, add_frame-IsAssembling, add_frame-complete,
}

abbrev block : List ℕ
block = replicate 4 0

abbrev key : Key
key = record { node_id = 5; transfer_type = message_broadcast }

abbrev buffer : Entry
buffer = record {
  storage = block;
  blocks = (1 ∷ 2 ∷ 3 ∷ 0 ∷ []) ∷ [];
  max_write_pos = 3;
  max_size = 100;
  key = key;
}

abbrev manager : Manager
manager = record {
  buffers = buffer ∷ [];
  pool = record { free_list = block ∷ block ∷ []; block_size = 4; used = 2; max_used = 2 };
  max_buf_size = 100;
}

abbrev receiver : Receiver
receiver = record new_receiver {
  this_transfer_ts = 1000;
  this_transfer_crc = 77;
  buffer_write_pos = 3;
  tid = 6;
  next_toggle = true;
  iface_index = 0;
}

abbrev middle : RxFrame
middle = record {
  frame = record {
    priority = 16;
    transfer_type = message_broadcast;
    data_type_id = 300;
    payload = 7 ∷ 8 ∷ 9 ∷ [];
    src = 5;
    dst = 0;
    transfer_id = 6;
    start_of_transfer = false;
    end_of_transfer = false;
    toggle = true;
  };
  ts_mono = 2000;
  ts_utc = 0;
  iface_index = 0;
}

abbrev last : RxFrame
last = record middle { frame = record middle.frame { end_of_transfer = true } }

assembling : IsAssembling receiver manager key buffer (contents buffer)
unfolding Manager.access Manager.find_first flatten
assembling = record {
  found = refl;
  valid = record { stored = omega arith; fits = omega arith };
  holds = refl;
  position = refl;
  narrow = omega arith;
}

middle-Continues : Continues receiver middle
unfolding is_stale need_restart is_timed_out compute_forward_distance
middle-Continues = record {
  fresh = refl;
  going_on = refl;
  same_iface = refl;
  no_start = refl;
  due_toggle = refl;
  due_tid = refl;
}

last-Continues : Continues receiver last
unfolding is_stale need_restart is_timed_out compute_forward_distance
last-Continues = record {
  fresh = refl;
  going_on = refl;
  same_iface = refl;
  no_start = refl;
  due_toggle = refl;
  due_tid = refl;
}

middle-HasRoom : HasRoom receiver middle manager buffer
unfolding room flatten
middle-HasRoom = record { below_limit = omega arith; in_pool = omega arith }

last-HasRoom : HasRoom receiver last manager buffer
unfolding room flatten
last-HasRoom = record { below_limit = omega arith; in_pool = omega arith }

add_frame-IsAssembling_example :
    let res = add_frame receiver middle manager key in
    (res.0 ≡ not_complete)
    × ((e' : Entry) × IsAssembling res.1 res.2 key e' (contents buffer ++ 7 ∷ 8 ∷ 9 ∷ [])
        × (e'.max_size ≡ 100)
        × (room e' res.2.pool ≡ room buffer manager.pool))
    × (res.1.next_toggle ≡ false)
    × (res.1.tid ≡ 6)
    × (res.1.this_transfer_crc ≡ 77)
    × (res.1.error_cnt ≡ 0)
add_frame-IsAssembling_example =
    add_frame-IsAssembling receiver middle manager key buffer (contents buffer) assembling
      middle-Continues middle-HasRoom refl

add_frame-complete_example :
    let res = add_frame receiver last manager key in
    (res.0 ≡ complete)
    × ((e' : Entry) × (Manager.access res.2 key ≡ some e')
        × Refines.IsValid e'
        × (contents e' ≡ contents buffer ++ 7 ∷ 8 ∷ 9 ∷ []))
    × (res.1.tid ≡ increment 6)
    × (res.1.next_toggle ≡ false)
    × (res.1.buffer_write_pos ≡ 0)
    × (res.1.this_transfer_crc ≡ 77)
    × (res.1.prev_transfer_ts ≡ 1000)
    × (res.1.error_cnt ≡ 0)
add_frame-complete_example =
    add_frame-complete receiver last manager key buffer (contents buffer) assembling last-Continues
      last-HasRoom refl

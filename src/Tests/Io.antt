-- ===== src/Tests/Io.antt =====
-- uc_can_io.cpp with a driver of two interfaces that are never ready, and a clock of which four
-- readings give the same microsecond.
use uavcan.Base.{ℕ, ◌+◌, ◌/◌, ◌≡◌, refl, true, List, [], ◌∷◌, ltb, arith}
use uavcan.Can.{CanFrame}
use uavcan.Can.TxQueue.{TxQueue}
use uavcan.Can.IoManager.{done, Driver, IoManager, send_can_frame}
use uavcan.Can.IoManager.Returns.{IsTicking, returns, send_can_frame-returns}
use uavcan.Memory.{Pool}

abbrev frame : CanFrame
frame = record { id = 0x123; data_bytes = 1 ∷ 2 ∷ []; dlc = 2 }

abbrev no_frame : CanFrame
no_frame = record { id = 0; data_bytes = []; dlc = 0 }

abbrev busy : Driver ℕ
busy = record {
  has_iface = λ i s. ltb i 2;
  send = λ i f deadline flags s. (done 0, s);
  receive = λ i s.
      (done 0, record { frame = no_frame; ts_mono = 0; ts_utc = 0; flags = 0; iface_index = 0 }, s);
  select = λ masks pending deadline s. (done 0, record { read = 0; write = 0 }, s + 1);
  clock = λ s. (s / 4, s + 1);
  error_count = λ i s. 0;
}

busy-IsTicking : IsTicking busy 4 (λ s. s)
busy-IsTicking = record {
  some_ticks = omega arith;
  reading = λ s. (refl, omega arith);
  sending = λ i f deadline flags s. omega arith;
  selecting = λ masks pending deadline s. omega arith;
}

abbrev pool : Pool (List ℕ)
pool = record { free_list = [] ∷ [] ∷ []; block_size = 48; used = 0; max_used = 0 }

abbrev queue : TxQueue
queue = record {
  queue = [];
  allocator = record { base = pool; max_blocks = 2; used_blocks = 0 };
  rejected_frames_cnt = 0;
}

abbrev manager : IoManager ℕ
manager = record {
  driver_state = 100;
  pool = pool;
  tx_queues = queue ∷ queue ∷ [];
  frames_tx = 0 ∷ 0 ∷ [];
  frames_rx = 0 ∷ 0 ∷ [];
  num_ifaces = 2;
}

send_can_frame-returns_example :
    returns (send_can_frame queue busy 9 frame 200 27 3 0 0 manager) ≡ true
send_can_frame-returns_example =
    send_can_frame-returns queue busy 4 (λ s. s) busy-IsTicking 8 frame 200 27 3 0 0 manager
      (omega arith)

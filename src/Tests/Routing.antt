-- ===== src/Tests/Routing.antt =====
-- uc_dispatcher.cpp and uc_outgoing_transfer_registry.cpp on small inputs.
use uavcan.Base.{
  Bool, ℕ, ◌≡◌, refl, ◌⊎◌, true, false, ◌||◌, List, [], ◌∷◌, ◌++◌, none, some, ◌==◌, ==_self,
  ==_iff, arith,
}
use uavcan.DataType.{message}
use uavcan.Transport.Transfer.{message_broadcast}
use uavcan.Transport.TransferId.{increment}
use uavcan.Transport.Frame.{Frame, make}
use uavcan.Transport.Receiver.{RxFrame}
use uavcan.Transport.Dispatcher.{Listening, has_listener, add_listener, handle_by_listeners}
use uavcan.Transport.Dispatcher.Routing.{
  handle_matching, handle_by_listeners-handle_matching, IsDescending, AreUnique,
  add_listener-IsDescending,
}
use uavcan.Transport.Registry.{RegistryKey, Outgoing, Registry, same_registry_key, send_next}
use uavcan.Transport.Registry.Ids.{send_next-send}
use uavcan.Transport.Sender
use uavcan.Transport.Sender.{sent, Dispatcher, Sender}
use uavcan.Util.LinkedList.{insert_node, has_node, IsSimple, insert_node-IsSimple}
use uavcan.Util.Map
use uavcan.Util.Map.{Map}
use uavcan.Util.Map.Update.{IsSame}

-- A listener that is its data type id, and puts it into the list that all share.
abbrev probes : Listening ℕ (List ℕ)
probes = record {
  id_of = λ p. p;
  kind_of = λ p. message;
  handle = λ rx p w. (p, p ∷ w);
  clean = λ ts p w. (p, w);
}

abbrev frame_341 : RxFrame
frame_341 = record {
  frame = make 341 message_broadcast 9 0 5;
  ts_mono = 1000;
  ts_utc = 0;
  iface_index = 1;
}

abbrev listeners : List ℕ
listeners = 1000 ∷ 341 ∷ 341 ∷ 20 ∷ []

reached : handle_by_listeners probes frame_341 listeners [] ≡ (listeners, 341 ∷ 341 ∷ [])
unfolding handle_by_listeners
reached = refl

handle_by_listeners-handle_matching_example :
    handle_by_listeners probes frame_341 listeners []
    ≡ handle_matching probes frame_341 listeners []
handle_by_listeners-handle_matching_example =
    handle_by_listeners-handle_matching probes frame_341 listeners [] (ground arith)

-- Two servers, and one of a data type between theirs.
abbrev servers : List ℕ
servers = 200 ∷ 7 ∷ []

servers_differ : AreUnique probes servers
unfolding has_listener
servers_differ = (refl, (refl, tt))

add_listener-IsDescending_example :
    let (done, qs) = add_listener probes true 40 servers in
    IsDescending probes qs
    × (true ≡ true → AreUnique probes qs)
    × (((done ≡ false) × (true ≡ true) × (has_listener probes 40 servers ≡ true) × (qs ≡ servers))
        ⊎ ((done ≡ true)
            × ((dtid : ℕ)
                → has_listener probes dtid qs ≡ (40 == dtid || has_listener probes dtid servers))))
add_listener-IsDescending_example =
    add_listener-IsDescending probes true 40 servers (ground arith) (λ e. servers_differ)

abbrev key_341 : RegistryKey
key_341 = record { data_type_id = 341; transfer_type = message_broadcast; dst = 0 }

abbrev last_31 : Outgoing
last_31 = record { deadline = 500; tid = 31 }

abbrev registry : Registry
registry = record {
  groups =
      record { storage = []; kvs = none ∷ some (record { key = key_341; value = last_31 }) ∷ [] }
      ∷ [];
  pool = record { free_list = []; block_size = 64; used = 1; max_used = 1 };
  num_kv = 2;
}

has_key_341 : Map.access same_registry_key registry key_341 ≡ some last_31
unfolding Map.access Map.find_key Map.find_kv
has_key_341 = refl

-- A dispatcher of node 5, whose state is its registry and the frames that it was given.
abbrev wire : Dispatcher (Registry × List Frame)
wire = record {
  node_id = λ w. 5;
  is_passive_mode = λ w. false;
  dispatch = λ orders frame w. (sent 1, (w.0, w.1 ++ frame ∷ []));
  add_tx_transfer = λ w. w;
  add_error = λ w. w;
}

abbrev publisher : Sender
publisher = record {
  qos = 0;
  flags = 0;
  iface_mask = 3;
  priority = 16;
  allow_anonymous_transfers = false;
  data_type_id = 341;
  crc_base = 0xffff;
}

send_next-send_example :
    (w : Registry × List Frame) × (send_next wire
        (λ w. w.0)
        (λ m w. (m, w.1))
        publisher
        1500000
        (1 ∷ 2 ∷ [])
        1000
        500
        message_broadcast
        0
        (registry, [])
      ≡ Sender.send wire publisher (1 ∷ 2 ∷ []) 1000 500 message_broadcast 0 31 w)
    × (Map.access same_registry_key w.0 key_341
        ≡ some (record { deadline = 3001000; tid = increment 31 }))
    × ((other : RegistryKey)
        → same_registry_key other key_341 ≡ false
        → Map.access same_registry_key w.0 other ≡ Map.access same_registry_key registry other)
send_next-send_example =
    send_next-send wire (λ w. w.0) (λ m w. (m, w.1)) publisher 1500000 (1 ∷ 2 ∷ []) 1000 500
      message_broadcast 0 (registry, []) last_31 (λ m w. refl) has_key_341

abbrev same_listener : ℕ → ℕ → Bool
same_listener a b = a == b

same_listener-IsSame : IsSame same_listener
same_listener-IsSame = (λ a. ==_self a, λ a b h. (==_iff a b).0 h)

listeners_differ : IsSimple same_listener servers
unfolding has_node
listeners_differ = (refl, (refl, tt))

-- A listener that is started again goes to the beginning of the list.
insert_node-IsSimple_example :
    IsSimple same_listener (insert_node same_listener 7 servers)
    × (has_node same_listener 7 (insert_node same_listener 7 servers) ≡ true)
    × ((x : ℕ)
        → same_listener 7 x ≡ false
        → has_node same_listener x (insert_node same_listener 7 servers)
          ≡ has_node same_listener x servers)
insert_node-IsSimple_example =
    insert_node-IsSimple same_listener 7 servers same_listener-IsSame listeners_differ

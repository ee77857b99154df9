-- ===== src/Transport/Dispatcher.antt =====
-- Dispatcher of libuavcan/include/uavcan/transport/dispatcher.hpp and
-- libuavcan/src/transport/uc_dispatcher.cpp. A listener is an interface, as its handleFrame is
-- virtual: `L` is its own state and `W` what the listeners share, the pool and what they deliver to.
-- A handler does not add or remove listeners here.
pub mod Routing
pub mod Loopback
use uavcan.Base.{
  ℕ, zero, suc, ◌+◌, Bool, true, false, not, ◌&&◌, ◌||◌, List, [], ◌∷◌, Option, none, some,
  replicate, bit_and, ltb, leb, ◌==◌, if◌then◌else◌,
}
use uavcan.Can.{CanFrame, max_data_len}
use uavcan.Can.IoManager.{flag_loopback}
use uavcan.DataType.{DataTypeKind, service, message}
use uavcan.Transport.Transfer.{
  TransferType, service_request, service_response, message_broadcast, invalid,
}
use uavcan.Transport.Frame.{Frame, parse, compile}
use uavcan.Transport.Receiver.{RxFrame}
use uavcan.Transport.Sender.{SendResult, sent, failed, err_logic, Orders}
use uavcan.Transport.Registry.{Registry, has_outgoing, cleanup_registry}

-- CanRxFrame.
pub record CanRxFrame : Type 0 where
  pub can_frame : CanFrame
  pub ts_mono : ℕ
  pub ts_utc : ℕ
  pub iface_index : ℕ

-- RxFrame::parse.
unfoldable pub parse_rx : CanRxFrame → Option RxFrame
parse_rx c = elim (parse c.can_frame) [
  | none ↦ none
  | some f ↦
      if c.ts_mono == 0
      then none
      else some (record {
        frame = f;
        ts_mono = c.ts_mono;
        ts_utc = c.ts_utc;
        iface_index = c.iface_index;
      })
]

-- What the registry uses of a TransferListener.
pub record Listening (L W : Type 0) : Type 0 where
  pub id_of : L → ℕ
  pub kind_of : L → DataTypeKind
  pub handle : RxFrame → L → W → L × W
  pub clean : ℕ → L → W → L × W

module _ {L W : Type 0} (i : Listening L W) where
  -- `exists` of ListenerRegistry, and the loop of `add` for a unique listener.
  unfoldable pub has_listener : ℕ → List L → Bool
  has_listener dtid [] = false
  has_listener dtid (p ∷ ps) = i.id_of p == dtid || has_listener dtid ps

  -- insertBefore with DataTypeIDInsertionComparator, of a listener that is not in the list: its users
  -- stop a listener before they start it.
  unfoldable pub insert_listener : L → List L → List L
  insert_listener x [] = x ∷ []
  insert_listener x (p ∷ ps) =
      let behind = insert_listener x ps in
      if ltb (i.id_of p) (i.id_of x) then x ∷ p ∷ ps else p ∷ behind

  -- `add`; `unique` is the mode.
  unfoldable pub add_listener : Bool → L → List L → Bool × List L
  add_listener unique x ps =
      if unique && has_listener (i.id_of x) ps then (false, ps) else (true, insert_listener x ps)

  -- `remove`, of the listener at an index.
  unfoldable pub remove_listener : ℕ → List L → List L
  remove_listener at [] = []
  remove_listener zero (p ∷ ps) = ps
  remove_listener (suc at) (p ∷ ps) = p ∷ remove_listener at ps

  unfoldable pub cleanup_listeners : ℕ → List L → W → List L × W
  cleanup_listeners ts [] w = ([], w)
  cleanup_listeners ts (p ∷ ps) w =
      let (p', w') = i.clean ts p w in
      let (rest, w'') = cleanup_listeners ts ps w' in (p' ∷ rest, w'')

  -- ListenerRegistry::handleFrame.
  unfoldable pub handle_by_listeners : RxFrame → List L → W → List L × W
  handle_by_listeners rx [] w = ([], w)
  handle_by_listeners rx (p ∷ ps) w =
      let hit = i.id_of p == rx.frame.data_type_id in
      let (p', w') = if hit then i.handle rx p w else (p, w) in
      let (rest, w'') = handle_by_listeners rx ps w' in
      if not hit && ltb (i.id_of p) rx.frame.data_type_id then (p ∷ ps, w) else (p' ∷ rest, w'')

pub record Node (L W : Type 0) : Type 0 where
  pub outgoing_transfer_reg : Registry
  pub lmsg : List L
  pub lsrv_req : List L
  pub lsrv_resp : List L
  pub self_node_id : ℕ
  pub self_node_id_is_set : Bool
  pub shared : W

-- What a call of CanIOManager::receive gives: an error, nothing, or a frame with its flags.
pub data Received : Type 0 where
  receive_failed : ℕ → Received
  nothing : Received
  received : CanRxFrame → (flags : ℕ) → Received

module _ {L W : Type 0} (i : Listening L W) where
  -- The switch of handleFrame over the transfer types.
  unfoldable pub route : RxFrame → Node L W → Node L W
  route rx n = elim rx.frame.transfer_type [
    | message_broadcast ↦
        let (ls, w) = handle_by_listeners i rx n.lmsg n.shared in record n { lmsg = ls; shared = w }
    | service_request ↦
        let (ls, w) = handle_by_listeners i rx n.lsrv_req n.shared in
        record n { lsrv_req = ls; shared = w }
    | service_response ↦
        let (ls, w) = handle_by_listeners i rx n.lsrv_resp n.shared in
        record n { lsrv_resp = ls; shared = w }
    | invalid ↦ n
  ]

  unfoldable pub handle_can_frame : CanRxFrame → Node L W → Node L W
  handle_can_frame c n = elim (parse_rx c) [
    | none ↦ n
    | some rx ↦
        if not (rx.frame.dst == 0) && not (rx.frame.dst == n.self_node_id) then n else route rx n
  ]

  -- handleLoopbackFrame and notifyRxFrameListener, over what all share; Loopback has the registry that
  -- the first of them goes through.
  module _ (on_loopback : RxFrame → W → W) (on_rx : CanRxFrame → ℕ → W → W) where
    unfoldable pub handle_loopback_frame : CanRxFrame → Node L W → Node L W
    handle_loopback_frame c n = elim (parse_rx c) [
      | none ↦ n
      | some rx ↦ record n { shared = on_loopback rx n.shared }
    ]

    -- The part of both spin loops behind a call that gave a frame; the count of frames processed.
    unfoldable pub process : CanRxFrame → ℕ → ℕ → Node L W → ℕ × Node L W
    process c flags count n =
        let n₁ = handle_loopback_frame c n in
        let n₂ = handle_can_frame c n in
        if not (bit_and flags flag_loopback == 0)
        then (count, record n₁ { shared = on_rx c flags n₁.shared })
        else (count + 1, record n₂ { shared = on_rx c flags n₂.shared })

    -- spinOnce, over what the calls of `receive` give in turn; where the list ends, there is nothing.
    unfoldable pub spin_once : List Received → ℕ → Node L W → SendResult × Node L W
    spin_once [] count n = (sent count, n)
    spin_once (receive_failed e ∷ rs) count n = (failed e, n)
    spin_once (nothing ∷ rs) count n = (sent count, n)
    spin_once (received c flags ∷ rs) count n =
        let (count', n') = process c flags count n in spin_once rs count' n'

    -- spin; each call of `receive` comes with what the clock gives behind it, and the list ends no
    -- earlier than the deadline.
    unfoldable pub spin : ℕ → List (Received × ℕ) → ℕ → Node L W → SendResult × Node L W
    spin deadline [] count n = (sent count, n)
    spin deadline ((receive_failed e, now) ∷ rs) count n = (failed e, n)
    spin deadline ((nothing, now) ∷ rs) count n =
        let rest = spin deadline rs count n in if ltb now deadline then rest else (sent count, n)
    spin deadline ((received c flags, now) ∷ rs) count n =
        let (count', n') = process c flags count n in
        let rest = spin deadline rs count' n' in
        if ltb now deadline then rest else (sent count', n')

  -- Dispatcher::send; the CanIOManager's is a parameter.
  unfoldable pub send_frame :
      (Orders → CanFrame → W → SendResult × W) → Orders → Frame → Node L W → SendResult × Node L W
  send_frame canio_send orders f n =
      if not (f.src == n.self_node_id)
      then (failed err_logic, n)
      else elim (compile f (replicate max_data_len 0)) [
        | none ↦ (failed err_logic, n)
        | some c ↦ let (res, w) = canio_send orders c n.shared in (res, record n { shared = w })
      ]

  -- Dispatcher::cleanup.
  unfoldable pub cleanup_node : ℕ → Node L W → Node L W
  cleanup_node ts n =
      let (l1, w1) = cleanup_listeners i ts n.lmsg n.shared in
      let (l2, w2) = cleanup_listeners i ts n.lsrv_req w1 in
      let (l3, w3) = cleanup_listeners i ts n.lsrv_resp w2 in
      record n {
        outgoing_transfer_reg = cleanup_registry ts n.outgoing_transfer_reg;
        lmsg = l1;
        lsrv_req = l2;
        lsrv_resp = l3;
        shared = w3;
      }

  abbrev is_message : DataTypeKind → Bool
  is_message message = true
  is_message service = false

  unfoldable pub register_message_listener : L → Node L W → Bool × Node L W
  register_message_listener x n =
      let (done, ls) = add_listener i false x n.lmsg in
      if not (is_message (i.kind_of x)) then (false, n) else (done, record n { lmsg = ls })

  unfoldable pub register_service_request_listener : L → Node L W → Bool × Node L W
  register_service_request_listener x n =
      let (done, ls) = add_listener i true x n.lsrv_req in
      if is_message (i.kind_of x) then (false, n) else (done, record n { lsrv_req = ls })

  unfoldable pub register_service_response_listener : L → Node L W → Bool × Node L W
  register_service_response_listener x n =
      let (done, ls) = add_listener i false x n.lsrv_resp in
      if is_message (i.kind_of x) then (false, n) else (done, record n { lsrv_resp = ls })

  unfoldable pub unregister_message_listener : ℕ → Node L W → Node L W
  unregister_message_listener at n = record n { lmsg = remove_listener i at n.lmsg }

  unfoldable pub unregister_service_request_listener : ℕ → Node L W → Node L W
  unregister_service_request_listener at n = record n { lsrv_req = remove_listener i at n.lsrv_req }

  unfoldable pub unregister_service_response_listener : ℕ → Node L W → Node L W
  unregister_service_response_listener at n = record n {
    lsrv_resp = remove_listener i at n.lsrv_resp;
  }

  abbrev pub has_subscriber : ℕ → Node L W → Bool
  has_subscriber dtid n = has_listener i dtid n.lmsg

  abbrev pub has_server : ℕ → Node L W → Bool
  has_server dtid n = has_listener i dtid n.lsrv_req

  abbrev pub has_publisher : ℕ → Node L W → Bool
  has_publisher dtid n = has_outgoing n.outgoing_transfer_reg dtid message_broadcast

unfoldable pub set_node_id : {L W : Type 0} → ℕ → Node L W → Bool × Node L W
set_node_id nid n =
    if not n.self_node_id_is_set
    then (true, record n { self_node_id = nid; self_node_id_is_set = true })
    else (false, n)

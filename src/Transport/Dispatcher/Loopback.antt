-- ===== src/Transport/Dispatcher/Loopback.antt =====
-- LoopbackFrameListenerRegistry and LoopbackFrameListenerBase of uc_dispatcher.cpp. `same` is equality
-- of pointers, and a handler, which is virtual, changes its listener and what all share.
use uavcan.Base.{Bool, List, [], ◌∷◌}
use uavcan.Transport.Receiver.{RxFrame}
use uavcan.Util.LinkedList.{insert_node, remove_node, has_node}

module _ {L : Type 0} (same : L → L → Bool) where
  -- startListening, by add; stopListening, by remove; isListening, by doesExist.
  unfoldable pub start_listening : L → List L → List L
  start_listening listener listeners = insert_node same listener listeners

  unfoldable pub stop_listening : L → List L → List L
  stop_listening listener listeners = remove_node same listener listeners

  abbrev pub is_listening : L → List L → Bool
  is_listening listener listeners = has_node same listener listeners

unfoldable pub invoke_listeners :
    {L W : Type 0} → (RxFrame → L → W → L × W) → RxFrame → List L → W → List L × W
invoke_listeners handle rx [] w = ([], w)
invoke_listeners handle rx (p ∷ ps) w =
    let (p', w') = handle rx p w in
    let (rest, w'') = invoke_listeners handle rx ps w' in (p' ∷ rest, w'')

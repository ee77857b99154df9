-- ===== src/Transport/Sender/Split/Rounds.antt =====
-- The loop of the sender dispatches the frames that Split describes.
use mathlib.Core.List.{append-nil, append_assoc}
use uavcan.Base.{
  ℕ, zero, suc, ◌+◌, ◌-◌, ◌≤◌, ◌<◌, ◌≡◌, refl, sym, ap, ap₂, ◌∙◌, arith, Bool, true, false, not,
  List, [], ◌∷◌, ◌++◌, length, take, drop, min, leb, ltb, if◌then◌else◌, Bool-cases, inl, inr,
  length-take, length-drop, drop-drop, drop_all, take-take,
}
use uavcan.Transport.Crc
use uavcan.Transport.Transfer.{TransferType}
use uavcan.Transport.Frame.{make, Frame, payload_capacity}
use uavcan.Transport.Sender.{
  Dispatcher, Orders, Sender, SendResult, sent, failed, first_frame, next_frame, send_loop,
  send_multi, send,
}
use uavcan.Transport.Sender.Split.{
  is_nil, chunks, frames_after, multi_frames, with_crc, dispatch_all, joined, joined-multi_frames,
  chunks_nil, chunks_fuel, chunks-cons, is_nil-chunks,
}

-- The frame that carries `bytes` behind `frame`.
following : Frame → List ℕ → Bool → Frame
following frame bytes last = record frame {
  payload = bytes;
  start_of_transfer = false;
  end_of_transfer = last;
  toggle = not frame.toggle;
}

next_frame_form :
    (payload : List ℕ) (frame : Frame) (offset : ℕ)
    → frame.end_of_transfer ≡ false
    → next_frame payload frame offset ≡ (
      following frame
          (take 7 (drop offset payload))
          (leb (length payload) (offset + min 7 (length (drop offset payload)))),
      offset + min 7 (length (drop offset payload)),
    )
unfolding next_frame following
next_frame_form payload frame offset middle =
    let moved = offset + min 7 (length (drop offset payload)) in
    elim (Bool-cases (leb (length payload) moved)) [
      | inl t ↦ rw t refl
      | inr f ↦ rw f (ap (λ b. (following frame (take 7 (drop offset payload)) b, moved)) middle)
    ]

module _ {S : Type 0} (d : Dispatcher S) (orders : Orders) where
  last_round :
      (k : ℕ) (payload : List ℕ) (frame : Frame) (offset n : ℕ) (s : S)
      → frame.end_of_transfer ≡ true
      → send_loop d (suc k) orders payload frame offset n s ≡ dispatch_all d orders (frame ∷ []) n s
  unfolding send_loop dispatch_all
  last_round k payload frame offset n s end = rw end refl

  one_round :
      (k : ℕ) (payload : List ℕ) (frame : Frame) (offset n : ℕ) (s : S) (fs : List Frame)
      → frame.end_of_transfer ≡ false
      → ((s' : S)
          → send_loop d k orders payload
              (next_frame payload frame offset).0
              (next_frame payload frame offset).1
              (n + 1)
              s'
            ≡ dispatch_all d orders fs (n + 1) s')
      → send_loop d (suc k) orders payload frame offset n s ≡ dispatch_all d orders (frame ∷ fs) n s
  unfolding send_loop dispatch_all
  one_round k payload frame offset n s fs middle rest =
      let s' = (d.dispatch orders frame s).1 in
      let next = next_frame payload frame offset in
      let stopping = λ (stop : Bool) (r : SendResult × S).
        elim (d.dispatch orders frame s).0 as (λ x. SendResult × S) [
          | failed e ↦ (failed e, d.add_error s')
          | sent k ↦ if stop then (sent (n + 1), s') else r
        ] in
      ap (λ b. stopping b (send_loop d k orders payload next.0 next.1 (n + 1) s')) middle
      ∙ ap (stopping false) (rest s')

  rounds :
      (k : ℕ) (payload : List ℕ) (frame : Frame) (offset n : ℕ) (s : S)
      → frame.end_of_transfer ≡ false
      → offset < length payload
      → length payload ≤ offset + k
      → send_loop d (suc k) orders payload frame offset n s
        ≡ dispatch_all d orders (frame ∷ frames_after frame (chunks k (drop offset payload))) n s
  unfolding frames_after following
  rounds zero payload frame offset n s middle more enough = absurd (omega arith)
  rounds (suc k) payload frame offset n s middle more enough =
      let left = drop offset payload in
      let left-len : length left ≡ length payload - offset = length-drop offset payload in
      let moved = offset + min 7 (length left) in
      let cs = chunks k (drop 7 left) in
      let g = following frame (take 7 left) in
      let form = next_frame_form payload frame offset middle in
      let cut : chunks (suc k) left ≡ take 7 left ∷ cs =
        chunks-cons k left (omega (arith, left-len)) in
      let tail : (s' : S)
          → send_loop d (suc k) orders payload (g (leb (length payload) moved)) moved (n + 1) s'
            ≡ dispatch_all d orders (g (is_nil cs) ∷ frames_after (g (is_nil cs)) cs) (n + 1) s' =
        λ s'. elim (Bool-cases (leb (length payload) moved)) [
          | inl t ↦
              let end : length payload ≤ moved = ground arith in
              let none_left : cs ≡ [] =
                ap (chunks k) (drop_all 7 left (omega (arith, left-len, end))) ∙ chunks_nil k in
              ap (λ b. send_loop d (suc k) orders payload (g b) moved (n + 1) s') t
              ∙ last_round k payload (g true) moved (n + 1) s' refl
              ∙ sym (
                  ap
                    (λ xs.
                      dispatch_all d orders (g (is_nil xs) ∷ frames_after (g (is_nil xs)) xs)
                        (n + 1) s')
                    none_left)
          | inr f ↦
              let before : moved < length payload = ground arith in
              let full : moved ≡ offset + 7 = omega (arith, left-len, before) in
              let rest : drop moved payload ≡ drop 7 left =
                ap (λ m. drop m payload) full ∙ sym (drop-drop 7 offset payload) in
              let open_end : is_nil cs ≡ false =
                is_nil-chunks k (drop 7 left) (omega (arith, length-drop 7 left, left-len, full))
                  (omega (arith, full)) in
              ap (λ b. send_loop d (suc k) orders payload (g b) moved (n + 1) s') f
              ∙ rounds k payload (g false) moved (n + 1) s' refl before (omega (arith, full))
              ∙ ap
                  (λ xs.
                    dispatch_all d orders (g false ∷ frames_after (g false) (chunks k xs)) (n + 1)
                      s')
                  rest
              ∙ sym (
                  ap (λ b. dispatch_all d orders (g b ∷ frames_after (g b) cs) (n + 1) s') open_end)
        ] in
      one_round (suc k) payload frame offset n s (frames_after frame (chunks (suc k) left)) middle
        (λ s'.
          ap (λ x. send_loop d (suc k) orders payload x.0 x.1 (n + 1) s') form
          ∙ tail s'
          ∙ sym (ap (λ xs. dispatch_all d orders (frames_after frame xs) (n + 1) s') cut))

-- The frame and the orders that `send` starts from.
abbrev pub starting_frame : Sender → TransferType → ℕ → ℕ → ℕ → Frame
starting_frame x transfer_type src dst tid =
    record (make x.data_type_id transfer_type src dst tid) {
      priority = x.priority;
      start_of_transfer = true;
    }

abbrev pub orders_of : Sender → ℕ → ℕ → Orders
orders_of x tx_deadline blocking_deadline = record {
  tx_deadline = tx_deadline;
  blocking_deadline = blocking_deadline;
  qos = x.qos;
  flags = x.flags;
  iface_mask = x.iface_mask;
}

module _ {S : Type 0} (d : Dispatcher S) where
  send_multi-multi_frames :
      (x : Sender) (orders : Orders) (payload : List ℕ) (frame : Frame) (s : S)
      → frame.end_of_transfer ≡ false
      → 7 < length payload
      → send_multi d x orders payload frame s
        ≡ dispatch_all d orders
            (multi_frames frame (with_crc (Crc.add_bytes x.crc_base payload) payload))
            0
            s
  unfolding send_multi first_frame multi_frames
  send_multi-multi_frames x orders payload frame s middle long =
      let crc = Crc.add_bytes x.crc_base payload in
      let bytes = with_crc crc payload in
      let buf = with_crc crc (take 6 payload) in
      let buf-len : length buf ≡ 8 = omega (arith, length-take 6 payload) in
      let res : min 7 (length buf) ≡ 7 = omega (arith, buf-len) in
      let k = length payload - 1 in
      let fuel : length payload ≡ suc k = omega arith in
      let first : take 7 buf ≡ take 7 bytes = ap (with_crc crc) (take-take 5 6 payload) in
      let start = record frame { payload = take 7 bytes } in
      let rest-len = length-drop 5 payload in
      ap
        (λ (r : ℕ).
          if ltb r 2
          then (sent r, d.add_error s)
          else send_loop d (length payload) orders payload (record frame { payload = take 7 buf })
              (r - 2) 0 s)
        res
      ∙ ap₂ (λ n p. send_loop d n orders payload (record frame { payload = p }) 5 0 s) fuel first
      ∙ rounds d orders k payload start 5 0 s middle (omega arith) (omega arith)
      ∙ ap (λ cs. dispatch_all d orders (start ∷ frames_after start cs) 0 s)
          (chunks_fuel k (length bytes) (drop 5 payload) (omega (arith, rest-len))
            (omega (arith, rest-len)))

  -- A payload of more than seven bytes, sent by a node that is not passive: the frames that the
  -- transfer is described by are dispatched in order, with the CRC in front of the payload, and the
  -- result is their number or the first failure.
  pub send-multi_frames :
      (x : Sender) (payload : List ℕ) (tx_deadline blocking_deadline : ℕ)
      (transfer_type : TransferType) (dst tid : ℕ) (s : S)
      → d.is_passive_mode s ≡ false
      → 7 < length payload
      → send d x payload tx_deadline blocking_deadline transfer_type dst tid s
        ≡ dispatch_all d
            (orders_of x tx_deadline blocking_deadline)
            (multi_frames
              (starting_frame x transfer_type (d.node_id s) dst tid)
              (with_crc (Crc.add_bytes x.crc_base payload) payload))
            0
            (d.add_tx_transfer s)
  unfolding send
  send-multi_frames x payload tx_deadline blocking_deadline transfer_type dst tid s active long =
      let multi : leb (length payload) payload_capacity ≡ false = ground arith in
      rw (active, multi)
        (send_multi-multi_frames x (orders_of x tx_deadline blocking_deadline) payload
          (starting_frame x transfer_type (d.node_id s) dst tid) (d.add_tx_transfer s) refl long)

-- A dispatcher that takes every frame and keeps it, for a node that is not passive.
abbrev pub logging : ℕ → Dispatcher (List Frame)
logging node = record {
  node_id = λ s. node;
  is_passive_mode = λ s. false;
  dispatch = λ orders f s. (sent 1, s ++ f ∷ []);
  add_tx_transfer = λ s. s;
  add_error = λ s. s;
}

dispatch_all-logging :
    (node : ℕ) (orders : Orders) (fs : List Frame) (n : ℕ) (s : List Frame)
    → dispatch_all (logging node) orders fs n s ≡ (sent (n + length fs), s ++ fs)
unfolding dispatch_all
dispatch_all-logging node orders [] n s =
    let same : n ≡ n + 0 = omega arith in ap₂ (λ k t. (sent k, t)) same (sym (append-nil s))
dispatch_all-logging node orders (f ∷ fs) n s =
    let same : n + 1 + length fs ≡ n + suc (length fs) = omega arith in
    dispatch_all-logging node orders fs (n + 1) (s ++ f ∷ [])
    ∙ ap₂ (λ k t. (sent k, t)) same (append_assoc s (f ∷ []) fs)

-- What a node that is not passive puts on a bus that takes every frame: its frames carry the
-- transfer CRC and then the payload, all of it and in order.
pub send-joined :
    (x : Sender) (payload : List ℕ) (tx_deadline blocking_deadline : ℕ)
    (transfer_type : TransferType) (node dst tid : ℕ)
    → 7 < length payload
    → joined
        (send (logging node) x payload tx_deadline blocking_deadline transfer_type dst tid []).1
      ≡ with_crc (Crc.add_bytes x.crc_base payload) payload
send-joined x payload tx_deadline blocking_deadline transfer_type node dst tid long =
    let orders = orders_of x tx_deadline blocking_deadline in
    let start = starting_frame x transfer_type node dst tid in
    let bytes = with_crc (Crc.add_bytes x.crc_base payload) payload in
    ap (λ r. joined r.1)
      (send-multi_frames (logging node) x payload tx_deadline blocking_deadline transfer_type dst
          tid [] refl long
        ∙ dispatch_all-logging node orders (multi_frames start bytes) 0 [])
    ∙ joined-multi_frames start bytes

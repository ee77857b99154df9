-- ===== src/Transport/Sender/Split.antt =====
-- The frames of a multi-frame transfer, described without the sender's loop.
pub mod Rounds
use uavcan.Base.{
  ℕ, zero, suc, ◌+◌, ◌-◌, ◌*◌, ◌/◌, ◌^◌, ◌≤◌, ◌<◌, ◌≡◌, refl, sym, ap, ap₂, ◌∙◌, arith, bit_and,
  Bool, true, false, not, List, [], ◌∷◌, ◌++◌, length, take, drop, min, leb, ltb, if◌then◌else◌,
  Bool-cases, inl, inr, ◌⊎◌, length-take, length-drop, take-append-drop, drop-drop, drop_all,
  length-eq_zero, take_nil, take-take,
}
use uavcan.Transport.Crc
use uavcan.Transport.Transfer.{TransferType}
use uavcan.Transport.TransferBuffer.Entry.Chain.{flatten}
use uavcan.Transport.Frame.{make, Frame, set_payload, flip_toggle, payload_capacity}
use uavcan.Transport.Sender.{
  Dispatcher, Orders, Sender, SendResult, sent, failed, first_frame, next_frame, send_loop,
  send_multi, send,
}

abbrev pub is_nil : List (List ℕ) → Bool
is_nil [] = true
is_nil (x ∷ xs) = false

-- A byte sequence in pieces of seven; `fuel` is at least its length.
pub chunks : ℕ → List ℕ → List (List ℕ)
chunks zero xs = []
chunks (suc n) [] = []
chunks (suc n) (x ∷ xs) = take 7 (x ∷ xs) ∷ chunks n (drop 7 (x ∷ xs))

-- The frames behind `f`: no more starts, the toggle changes with each, and the last one is the end.
pub frames_after : Frame → List (List ℕ) → List Frame
frames_after f [] = []
frames_after f (c ∷ cs) =
    let g = record f {
      payload = c;
      start_of_transfer = false;
      end_of_transfer = is_nil cs;
      toggle = not f.toggle;
    } in
    g ∷ frames_after g cs

-- The transfer of all `bytes`, its CRC included, that starts with `f`.
pub multi_frames : Frame → List ℕ → List Frame
multi_frames f bytes =
    let g = record f { payload = take 7 bytes } in
    g ∷ frames_after g (chunks (length bytes) (drop 7 bytes))

-- The transfer CRC in front of the payload, low byte first.
abbrev pub with_crc : ℕ → List ℕ → List ℕ
with_crc crc payload = bit_and crc 0xff ∷ bit_and (crc / 2 ^ 8) 0xff ∷ payload

-- The frames are dispatched in order, up to the first failure, which is counted and returned.
pub dispatch_all : {S : Type 0} → Dispatcher S → Orders → List Frame → ℕ → S → SendResult × S
dispatch_all d orders [] n s = (sent n, s)
dispatch_all d orders (f ∷ fs) n s =
    let (res, s') = d.dispatch orders f s in
    let rest = dispatch_all d orders fs (n + 1) s' in
    elim res [ failed e ↦ (failed e, d.add_error s') | sent k ↦ rest ]

pub chunks_nil : (n : ℕ) → chunks n [] ≡ []
unfolding chunks
chunks_nil zero = refl
chunks_nil (suc n) = refl

pub chunks_fuel :
    (n m : ℕ) (xs : List ℕ) → length xs ≤ n → length xs ≤ m → chunks n xs ≡ chunks m xs
unfolding chunks
chunks_fuel n m [] h k = chunks_nil n ∙ sym (chunks_nil m)
chunks_fuel zero m (x ∷ xs) h k = absurd (omega arith)
chunks_fuel (suc n) zero (x ∷ xs) h k = absurd (omega arith)
chunks_fuel (suc n) (suc m) (x ∷ xs) h k =
    let len = length-drop 7 (x ∷ xs) in
    ap (λ cs. take 7 (x ∷ xs) ∷ cs)
      (chunks_fuel n m (drop 7 (x ∷ xs)) (omega (arith, len)) (omega (arith, len)))

pub chunks-cons :
    (n : ℕ) (xs : List ℕ) → 0 < length xs → chunks (suc n) xs ≡ take 7 xs ∷ chunks n (drop 7 xs)
unfolding chunks
chunks-cons n [] h = absurd (omega arith)
chunks-cons n (x ∷ xs) h = refl

pub is_nil-chunks : (n : ℕ) (xs : List ℕ) → 0 < length xs → 0 < n → is_nil (chunks n xs) ≡ false
unfolding chunks
is_nil-chunks zero xs h k = absurd (omega arith)
is_nil-chunks (suc n) [] h k = absurd (omega arith)
is_nil-chunks (suc n) (x ∷ xs) h k = refl

-- What the frames carry, one behind the other.
pub joined : List Frame → List ℕ
joined [] = []
joined (f ∷ fs) = f.payload ++ joined fs

joined-frames_after : (f : Frame) (cs : List (List ℕ)) → joined (frames_after f cs) ≡ flatten cs
unfolding joined frames_after flatten
joined-frames_after f [] = refl
joined-frames_after f (c ∷ cs) = ap (λ r. c ++ r) (joined-frames_after _ cs)

flatten-chunks : (n : ℕ) (xs : List ℕ) → length xs ≤ n → flatten (chunks n xs) ≡ xs
unfolding chunks flatten
flatten-chunks zero [] h = refl
flatten-chunks zero (x ∷ xs) h = absurd (omega arith)
flatten-chunks (suc n) [] h = refl
flatten-chunks (suc n) (x ∷ xs) h =
    ap (λ r. take 7 (x ∷ xs) ++ r)
      (flatten-chunks n (drop 7 (x ∷ xs)) (omega (arith, length-drop 7 (x ∷ xs))))
    ∙ take-append-drop 7 (x ∷ xs)

-- The frames of a transfer carry its bytes, all of them and in order.
pub joined-multi_frames : (f : Frame) (bytes : List ℕ) → joined (multi_frames f bytes) ≡ bytes
unfolding multi_frames joined
joined-multi_frames f bytes =
    let rest = drop 7 bytes in
    ap (λ r. take 7 bytes ++ r)
      (joined-frames_after _ (chunks (length bytes) rest)
        ∙ flatten-chunks (length bytes) rest (omega (arith, length-drop 7 bytes)))
    ∙ take-append-drop 7 bytes

-- ===== src/Marshal/BitStream/Array.antt =====
-- StaticTransferBufferImpl of libuavcan/src/transport/uc_transfer_buffer.cpp as the buffer of a bit
-- stream.
use uavcan.Base.{
  ℕ, zero, suc, ◌+◌, ◌-◌, ◌≤◌, ◌<◌, ◌≡◌, refl, sym, ap, ◌∙◌, inl, inr, min, max, false, List, [],
  ◌∷◌, length, get_or, take, drop, length-take, length-drop, take_all, copy_at, length-copy_at, leb,
  if◌then◌else◌, Bool-cases, arith,
}
use uavcan.Can.IoManager.{done}
use uavcan.Transport.TransferBuffer.{clip, clip_form}
use uavcan.Transport.TransferBuffer.Static
use uavcan.Transport.TransferBuffer.Static.{StaticBuffer}
use uavcan.Marshal.BitArray.Copied.{in_window}
use uavcan.Marshal.BitStream.{TransferBuffer}
use uavcan.Marshal.BitStream.Written.{IsBuffer}

abbrev pub static_buffer : TransferBuffer StaticBuffer
static_buffer = record {
  read = λ x offset len. (done (length (Static.read x offset len)), Static.read x offset len);
  write = λ x offset bytes. (done (Static.write x offset bytes).1, (Static.write x offset bytes).0);
}

pub get_or-copy_at :
    (offset : ℕ) (xs bs : List ℕ) (i : ℕ)
    → offset + length xs ≤ length bs
    → get_or (copy_at offset xs bs) i 0
      ≡ (if in_window offset (length xs) i then get_or xs (i - offset) 0 else get_or bs i 0)
unfolding copy_at
get_or-copy_at offset xs [] i h =
    let empty : in_window offset (length xs) i ≡ false = ground arith in rw empty refl
get_or-copy_at (suc offset) xs (b ∷ bs) zero h = ground arith
get_or-copy_at (suc offset) xs (b ∷ bs) (suc i) h =
    let index : suc i - suc offset ≡ i - offset = omega arith in
    ground (arith, get_or-copy_at offset xs bs i (omega arith), ap (λ k. get_or xs k 0) index)
get_or-copy_at zero [] (b ∷ bs) i h = ground arith
get_or-copy_at zero (x ∷ xs) (b ∷ bs) zero h = ground arith
get_or-copy_at zero (x ∷ xs) (b ∷ bs) (suc i) h =
    let index : suc i - 0 ≡ suc (i - 0) = omega arith in
    ground (arith, get_or-copy_at zero xs bs i (omega arith), ap (λ k. get_or (x ∷ xs) k 0) index)

get_or-take : (n i : ℕ) (xs : List ℕ) → i < n → get_or (take n xs) i 0 ≡ get_or xs i 0
get_or-take zero i xs h = absurd (omega arith)
get_or-take (suc n) i [] h = refl
get_or-take (suc n) zero (x ∷ xs) h = refl
get_or-take (suc n) (suc i) (x ∷ xs) h = get_or-take n i xs (omega arith)

get_or-drop : (n i : ℕ) (xs : List ℕ) → get_or (drop n xs) i 0 ≡ get_or xs (n + i) 0
get_or-drop zero i xs = let e : i ≡ 0 + i = omega arith in ap (λ k. get_or xs k 0) e
get_or-drop (suc n) i [] = refl
get_or-drop (suc n) i (x ∷ xs) =
    let e : suc n + i ≡ suc (n + i) = omega arith in
    get_or-drop n i xs ∙ ap (λ k. get_or (x ∷ xs) k 0) (sym e)

module _ (x : StaticBuffer) (offset : ℕ) (bytes : List ℕ) where
  -- A write that reports all bytes had room for them.
  pub write-whole :
      0 < length bytes
      → (Static.write x offset bytes).1 ≡ length bytes
      → (offset + length bytes ≤ length x.bytes)
        × ((Static.write x offset bytes).0 ≡ record x {
          bytes = copy_at offset bytes x.bytes;
          max_write_pos = max (offset + length bytes) x.max_write_pos;
        })
  unfolding Static.write
  write-whole some_bytes all = elim (Bool-cases (leb (length x.bytes) offset)) [
    | inl out ↦ absurd (ground arith)
    | inr inside ↦
        let form = clip_form (length x.bytes) offset (length bytes) (ground arith) in
        let whole : clip (length x.bytes) offset (length bytes) ≡ length bytes = ground arith in
        let taken : take (length bytes) bytes ≡ bytes =
          take_all (length bytes) bytes (omega arith) in
        (ground arith, rw inside (rw (whole, taken) refl))
  ]

  pub write-at_most : (Static.write x offset bytes).1 ≤ length bytes
  unfolding Static.write
  write-at_most = ground (arith, clip_form (length x.bytes) offset (length bytes))

pub read-whole :
    (x : StaticBuffer) (offset len : ℕ)
    → offset + len ≤ min x.max_write_pos (length x.bytes)
    → (length (Static.read x offset len) ≡ len)
      × ((i : ℕ) → i < len → get_or (Static.read x offset len) i 0 ≡ get_or x.bytes (offset + i) 0)
unfolding Static.read
read-whole x offset len h = elim (Bool-cases (leb x.max_write_pos offset)) [
  | inl out ↦ rw out (ground arith, λ i lt. absurd (ground arith))
  | inr inside ↦
      let form = clip_form x.max_write_pos offset len (ground arith) in
      let whole : clip x.max_write_pos offset len ≡ len = omega (arith, form) in
      rw (inside, whole)
        (
          omega (arith, length-take len (drop offset x.bytes), length-drop offset x.bytes),
          λ i lt. get_or-take len i (drop offset x.bytes) lt ∙ get_or-drop offset i x.bytes,
        )
]

abbrev pub static_buffer-IsBuffer : IsBuffer static_buffer
static_buffer-IsBuffer = record {
  view = λ x i. get_or x.bytes i 0;
  limit = λ x. min x.max_write_pos (length x.bytes);
  written = λ x offset bytes some_bytes all.
      let (room, now) = write-whole x offset bytes some_bytes (ground arith) in
      rw now (
        λ i. get_or-copy_at offset bytes x.bytes i room,
        omega (arith, length-copy_at offset bytes x.bytes),
      );
  at_most = λ x offset bytes n e. ground (arith, write-at_most x offset bytes);
  readable =
      λ x offset len h. let (count, bytes) = read-whole x offset len h in (ap done count, bytes);
}

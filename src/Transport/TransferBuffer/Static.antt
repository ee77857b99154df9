-- ===== src/Transport/TransferBuffer/Static.antt =====
-- StaticTransferBufferImpl: one array. `read` gives the bytes written to the caller's array, whose
-- number is the result; the fill of a debug build's reset() is not modelled.
use uavcan.Transport.TransferBuffer.{clip, clip_form}
use uavcan.Base.{
  ℕ, zero, suc, ◌+◌, ◌-◌, ◌≤◌, ◌<◌, ◌≡◌, ◌∙◌, arith, List, [], length, take, drop, min, max, leb,
  if◌then◌else◌, copy_at, length-copy_at, take-copy_at, drop-copy_at, false, take-drop-copy_at,
  length-take,
}

pub record StaticBuffer : Type 0 where
  pub bytes : List ℕ
  pub max_write_pos : ℕ

abbrev size : StaticBuffer → ℕ
size b = length b.bytes

unfoldable pub read : StaticBuffer → ℕ → ℕ → List ℕ
read b offset len =
    if leb b.max_write_pos offset
    then []
    else take (clip b.max_write_pos offset len) (drop offset b.bytes)

-- The buffer and the number of bytes written.
unfoldable pub write : StaticBuffer → ℕ → List ℕ → StaticBuffer × ℕ
write b offset input =
    if leb (size b) offset
    then (b, 0)
    else (let clipped = clip (size b) offset (length input) in
        (
          record b {
            bytes = copy_at offset (take clipped input) b.bytes;
            max_write_pos = max (offset + clipped) b.max_write_pos;
          },
          clipped,
        ))

pub reset : StaticBuffer → StaticBuffer
reset b = record b { max_write_pos = 0 }

pub record IsValid (b : StaticBuffer) : Type 0 where
  pub within : b.max_write_pos ≤ length b.bytes

-- A write keeps the write position within the array and the array's size, and reports as many
-- bytes as fit.
pub write-IsValid :
    (b : StaticBuffer) (offset : ℕ) (input : List ℕ)
    → IsValid b
    → IsValid (write b offset input).0
      × (length (write b offset input).0.bytes ≡ length b.bytes)
      × ((write b offset input).1 ≡ min (length input) (length b.bytes - offset))
unfolding write
write-IsValid b offset input h = ground (
  arith,
  clip_form (length b.bytes) offset (length input),
  length-copy_at offset (take (clip (length b.bytes) offset (length input)) input) b.bytes,
)

read_window :
    (b : StaticBuffer) (offset n : ℕ)
    → offset + n ≤ b.max_write_pos
    → read b offset n ≡ take n (drop offset b.bytes)
unfolding read
read_window b offset zero h = ground (arith, clip_form b.max_write_pos offset 0)
read_window b offset (suc n) h = ground (arith, clip_form b.max_write_pos offset (suc n))

-- What the write put in place is read back, and what was there before or behind it stays: the
-- first part of the array, and the rest behind the bytes written.
pub read-write :
    (b : StaticBuffer) (offset : ℕ) (input : List ℕ)
    → offset < length b.bytes
    → let r = write b offset input in
      (read r.0 offset r.1 ≡ take r.1 input)
      × (take offset r.0.bytes ≡ take offset b.bytes)
      × (drop (offset + r.1) r.0.bytes ≡ drop (offset + r.1) b.bytes)
unfolding write
read-write b offset input h =
    let n = clip (length b.bytes) offset (length input) in
    let form = clip_form (length b.bytes) offset (length input) (omega arith) in
    let kept = take n input in
    let kept-len : length kept ≡ n = omega (arith, length-take n input, form) in
    let below : leb (length b.bytes) offset ≡ false = ground arith in
    rw below (
      read_window _ offset n (omega arith)
          ∙ take-drop-copy_at offset n kept b.bytes kept-len (omega (arith, form)),
      take-copy_at offset offset kept b.bytes (omega arith),
      drop-copy_at offset (offset + n) kept b.bytes (omega (arith, kept-len)),
    )

-- ===== src/Transport/Frame/Layout.antt =====
-- The identifier and the tail byte of a compiled frame, as sums of their fields.
use uavcan.Base.{
  ℕ, ◌+◌, ◌*◌, ◌/◌, ◌%◌, ◌^◌, ◌<◌, ◌≡◌, refl, sym, ap, ap₂, ◌∙◌, arith, Bool, true, false, bit_or,
  bit_and_mask, bit_or_assoc, bit_or_comm, bit_or_disjoint, bit_or_above, bit_or_bit, if◌then◌else◌,
  zero-bit_or,
}
use native.Mathlib.Nat.{mod-eq_of_lt}
use uavcan.Transport.Transfer.{message_broadcast, service_request, is_message_broadcast, same_type}
use uavcan.Transport.Frame.{Frame, bitpack, bit_of, compile_id, compile_tail}

pub packed :
    (offset width field : ℕ)
    → field < 2 ^ width
    → field * 2 ^ offset < 2 ^ 32
    → bitpack offset width field ≡ field * 2 ^ offset
packed offset width field h k =
    ap (λ t. t * 2 ^ offset % 2 ^ 32) (bit_and_mask width field ∙ mod-eq_of_lt h) ∙ mod-eq_of_lt k

-- The order of the `|=` put right: format flag, priority, addresses, source.
reordered : (e s p r : ℕ) → bit_or (bit_or (bit_or e s) p) r ≡ bit_or e (bit_or p (bit_or r s))
reordered e s p r =
    bit_or_assoc (bit_or e s) p r
    ∙ bit_or_assoc e s (bit_or p r)
    ∙ ap (bit_or e) (bit_or_comm s (bit_or p r) ∙ bit_or_assoc p r s)

-- The parts that all identifiers share, given the addresses `r`.
common_sum :
    (src priority r : ℕ)
    → src < 2 ^ 7
    → priority < 2 ^ 5
    → bit_or r src ≡ r + src
    → r + src < 2 ^ 24
    → bit_or (bit_or (bit_or (2 ^ 31) (bitpack 0 7 src)) (bitpack 24 5 priority)) r
      ≡ 2 ^ 31 + (priority * 2 ^ 24 + (r + src))
common_sum src priority r hs hp e h =
    ap₂ (λ s p. bit_or (bit_or (bit_or (2 ^ 31) s) p) r)
      (packed 0 7 src hs (omega arith) ∙ omega arith) (packed 24 5 priority hp (omega arith))
    ∙ reordered (2 ^ 31) src (priority * 2 ^ 24) r
    ∙ ap (λ t. bit_or (2 ^ 31) (bit_or (priority * 2 ^ 24) t)) e
    ∙ ap (bit_or (2 ^ 31)) (bit_or_disjoint 24 priority (r + src) h)
    ∙ bit_or_disjoint 31 1 (priority * 2 ^ 24 + (r + src)) (omega arith)

module _ (f : Frame) (hs : f.src < 2 ^ 7) (hp : f.priority < 2 ^ 5) where
  pub compile_id_message :
      f.transfer_type ≡ message_broadcast
      → f.data_type_id < 2 ^ 16
      → compile_id f ≡ 2 ^ 31 + (f.priority * 2 ^ 24 + (f.data_type_id * 2 ^ 8 + f.src))
  unfolding compile_id
  compile_id_message t hd =
      let dtid : f.data_type_id % 2 ^ 16 ≡ f.data_type_id = omega arith in
      let fields : bit_or (bitpack 7 1 0) (bitpack 8 16 (f.data_type_id % 2 ^ 16))
          ≡ f.data_type_id * 2 ^ 8 =
        ap (λ d. bit_or (bitpack 7 1 0) (bitpack 8 16 d)) dtid
        ∙ zero-bit_or (bitpack 8 16 f.data_type_id)
        ∙ packed 8 16 f.data_type_id hd (omega arith) in
      rw (t, fields)
        (common_sum f.src f.priority (f.data_type_id * 2 ^ 8) hs hp
          (bit_or_disjoint 8 f.data_type_id f.src (omega arith)) (omega arith))

  -- `request` is the bit 15 that tells requests from responses.
  pub compile_id_service :
      (request : ℕ)
      → request < 2
      → is_message_broadcast f.transfer_type ≡ false
      → (if same_type f.transfer_type service_request then 1 else 0) ≡ request
      → f.data_type_id < 2 ^ 8
      → f.dst < 2 ^ 7
      → compile_id f
        ≡ 2 ^ 31
          + (f.priority * 2 ^ 24
              + (f.data_type_id * 2 ^ 16 + (request * 2 ^ 15 + (f.dst * 2 ^ 8 + 2 ^ 7)) + f.src))
  unfolding compile_id
  compile_id_service request hr t q hd hn =
      let dtid : f.data_type_id % 2 ^ 16 ≡ f.data_type_id = omega arith in
      let with_dst : bit_or (bitpack 7 1 1) (bitpack 8 7 f.dst) ≡ f.dst * 2 ^ 8 + 2 ^ 7 =
        ap (bit_or (bitpack 7 1 1)) (packed 8 7 f.dst hn (omega arith))
        ∙ bit_or_above 8 f.dst (2 ^ 7) (omega arith) in
      let with_request : bit_or (f.dst * 2 ^ 8 + 2 ^ 7) (bitpack 15 1 request)
          ≡ request * 2 ^ 15 + (f.dst * 2 ^ 8 + 2 ^ 7) =
        ap (bit_or (f.dst * 2 ^ 8 + 2 ^ 7)) (packed 15 1 request hr (omega arith))
        ∙ bit_or_above 15 request (f.dst * 2 ^ 8 + 2 ^ 7) (omega arith) in
      let address = request * 2 ^ 15 + (f.dst * 2 ^ 8 + 2 ^ 7) in
      let with_type : bit_or address (bitpack 16 8 (f.data_type_id % 2 ^ 16))
          ≡ f.data_type_id * 2 ^ 16 + address =
        ap (λ d. bit_or address (bitpack 16 8 d)) dtid
        ∙ ap (bit_or address) (packed 16 8 f.data_type_id hd (omega arith))
        ∙ bit_or_above 16 f.data_type_id address (omega arith) in
      let fields = f.data_type_id * 2 ^ 16 + address in
      let halves = f.data_type_id * 2 ^ 9 + request * 2 ^ 8 + f.dst * 2 + 1 in
      let scaled : fields ≡ halves * 2 ^ 7 = omega arith in
      rw (t, q, with_dst, with_request, with_type)
        (common_sum f.src f.priority fields hs hp
          (ap (λ r. bit_or r f.src) scaled
            ∙ bit_or_disjoint 7 halves f.src hs
            ∙ ap (λ r. r + f.src) (sym scaled))
          (omega arith))

-- The discriminator of an anonymous frame goes above a data type id of two bits.
pub discriminated :
    (upper dtid crc : ℕ)
    → dtid < 4
    → crc < 2 ^ 14
    → bit_or (upper * 2 ^ 24 + dtid * 2 ^ 8) (bitpack 10 14 crc)
      ≡ upper * 2 ^ 24 + (crc * 2 ^ 10 + dtid * 2 ^ 8)
discriminated upper dtid crc hd hc =
    let low = dtid * 2 ^ 8 in
    ap₂ bit_or (sym (bit_or_disjoint 24 upper low (omega arith)))
      (packed 10 14 crc hc (omega arith))
    ∙ bit_or_assoc (upper * 2 ^ 24) low (crc * 2 ^ 10)
    ∙ ap (bit_or (upper * 2 ^ 24)) (bit_or_above 10 crc low (omega arith))
    ∙ bit_or_disjoint 24 upper (crc * 2 ^ 10 + low) (omega arith)

flag_added :
    (k a : ℕ) (b : Bool)
    → a / 2 ^ k % 2 ≡ 0
    → (if b then bit_or a (2 ^ k) else a) ≡ a + bit_of b * 2 ^ k
flag_added k a true h = omega (arith, bit_or_bit k a h)
flag_added k a false h = omega arith

pub compile_tail_sum :
    (f : Frame)
    → f.transfer_id < 2 ^ 5
    → compile_tail f
      ≡ f.transfer_id
        + bit_of f.start_of_transfer * 2 ^ 7
        + bit_of f.end_of_transfer * 2 ^ 6
        + bit_of f.toggle * 2 ^ 5
unfolding compile_tail
compile_tail_sum f h =
    let s = f.transfer_id + bit_of f.start_of_transfer * 2 ^ 7 in
    let e = s + bit_of f.end_of_transfer * 2 ^ 6 in
    rw
      (
        flag_added 7 f.transfer_id f.start_of_transfer (omega arith),
        flag_added 6 s f.end_of_transfer (omega arith),
        flag_added 5 e f.toggle (bits f.start_of_transfer f.end_of_transfer),
      )
      refl
  where
    bits : (a b : Bool) → (f.transfer_id + bit_of a * 2 ^ 7 + bit_of b * 2 ^ 6) / 2 ^ 5 % 2 ≡ 0
    bits a b = ground arith

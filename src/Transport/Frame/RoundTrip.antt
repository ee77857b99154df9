-- ===== src/Transport/Frame/RoundTrip.antt =====
-- Parsing what was compiled gives the frame back.
use mathlib.Core.List.{append_assoc}
use uavcan.Base.{
  ℕ, ◌+◌, ◌-◌, ◌*◌, ◌/◌, ◌%◌, ◌^◌, ◌<◌, ◌≡◌, ◌≢◌, refl, sym, ap, ◌∙◌, inl, inr, arith, Bool, true,
  false, List, [], ◌∷◌, ◌++◌, some, length, drop, bit_and, bit_or, bit_and_mask, Bool-cases,
  if◌then◌else◌, ◌==◌,
}
use uavcan.Can.{CanFrame}
use uavcan.Transport.Crc
use uavcan.Transport.Transfer.{
  TransferType, service_response, service_request, message_broadcast, invalid, is_message_broadcast,
  is_broadcast, same_type,
}
use uavcan.Transport.Frame.{
  Frame, bitpack, bit_of, is_valid, parse, compile, compile_id, compile_tail,
}
use uavcan.Transport.Frame.Layout.{
  compile_id_message, compile_id_service, compile_tail_sum, discriminated,
}
use uavcan.Transport.Frame.Parsed.{Reads, parsed, parsed_message, parsed_service, parse_shape}
use uavcan.Transport.Frame.Validity.{Common, valid-Common, valid-Addressed}

-- The bytes on the bus, and the identifier with the discriminator.
bytes_of : Frame → List ℕ
bytes_of f = f.payload ++ compile_tail f ∷ []

full_id : Frame → ℕ
full_id f =
    let crc = Crc.add_bytes Crc.initial (bytes_of f) in
    if is_broadcast f.src
    then bit_or (compile_id f) (bitpack 10 14 (bit_and crc (2 ^ 14 - 1)))
    else compile_id f

pub compiled : Frame → List ℕ → CanFrame
unfolding full_id bytes_of
compiled f old = record {
  id = full_id f;
  data_bytes = bytes_of f ++ drop (length f.payload + 1) old;
  dlc = length f.payload + 1;
}

pub compile_valid :
    (f : Frame) (old : List ℕ) → is_valid f ≡ true → compile f old ≡ some (compiled f old)
unfolding compile compiled
compile_valid f old h = rw h refl

tail_Reads :
    (f : Frame) (id : ℕ)
    → f.transfer_id < 2 ^ 5
    → id % 2 ^ 29 / 2 ^ 24 % 2 ^ 5 ≡ f.priority
    → id % 2 ^ 29 / 2 ^ 0 % 2 ^ 7 ≡ f.src
    → Reads f id (compile_tail f)
tail_Reads f id h p s =
    let sum = compile_tail_sum f h in
    record {
      priority_field = p;
      src_field = s;
      start_bit =
          ap (λ t. t / 2 ^ 7 % 2) sum ∙ start f.start_of_transfer f.end_of_transfer f.toggle;
      end_bit = ap (λ t. t / 2 ^ 6 % 2) sum ∙ end f.start_of_transfer f.end_of_transfer f.toggle;
      toggle_bit =
          ap (λ t. t / 2 ^ 5 % 2) sum ∙ toggle f.start_of_transfer f.end_of_transfer f.toggle;
      transfer_id_field = omega (arith, sum);
    }
  where
    start :
        (a b c : Bool)
        → (f.transfer_id + bit_of a * 2 ^ 7 + bit_of b * 2 ^ 6 + bit_of c * 2 ^ 5) / 2 ^ 7 % 2
          ≡ bit_of a
    start a b c = ground arith

    end :
        (a b c : Bool)
        → (f.transfer_id + bit_of a * 2 ^ 7 + bit_of b * 2 ^ 6 + bit_of c * 2 ^ 5) / 2 ^ 6 % 2
          ≡ bit_of b
    end a b c = ground arith

    toggle :
        (a b c : Bool)
        → (f.transfer_id + bit_of a * 2 ^ 7 + bit_of b * 2 ^ 6 + bit_of c * 2 ^ 5) / 2 ^ 5 % 2
          ≡ bit_of c
    toggle a b c = ground arith

module _ (f : Frame) (h : Common f) where
  -- The identifier of a message: its middle field is the data type id, under the discriminator if
  -- the frame is anonymous.
  full_id_message :
      f.transfer_type ≡ message_broadcast
      → f.data_type_id < 2 ^ 16
      → (f.src ≡ 0 → f.data_type_id < 4)
      → (mid : ℕ) × (mid < 2 ^ 16)
        × (full_id f ≡ 2 ^ 31 + (f.priority * 2 ^ 24 + (mid * 2 ^ 8 + f.src)))
        × (f.src ≡ 0 → mid % 2 ^ 2 ≡ f.data_type_id)
        × (f.src ≢ 0 → mid ≡ f.data_type_id)
  unfolding full_id
  full_id_message t d small = elim (Bool-cases (is_broadcast f.src)) [
    | inl anonymous ↦
        let src-zero : f.src ≡ 0 = ground arith in
        let crc = Crc.add_bytes Crc.initial (bytes_of f) in
        let x = bit_and crc (2 ^ 14 - 1) in
        let x-lt : x < 2 ^ 14 = omega (arith, bit_and_mask 14 crc) in
        let sum = compile_id_message f h.src_bits h.priority_bits t d in
        let upper : compile_id f ≡ (128 + f.priority) * 2 ^ 24 + f.data_type_id * 2 ^ 8 =
          omega (arith, sum) in
        let id =
          ap (λ i. bit_or i (bitpack 10 14 x)) upper
          ∙ discriminated (128 + f.priority) f.data_type_id x (small src-zero) x-lt in
        let small' = small src-zero in
        (
          x * 4 + f.data_type_id,
          omega arith,
          rw anonymous (omega (arith, id)),
          (λ z. omega arith),
          (λ nz. absurd (nz src-zero)),
        )
    | inr named ↦
        let src-pos : f.src ≢ 0 = ground arith in
        (
          f.data_type_id,
          d,
          rw named (compile_id_message f h.src_bits h.priority_bits t d),
          (λ z. absurd (src-pos z)),
          (λ nz. refl),
        )
  ]

  -- The identifier has the flags of a data frame in the extended format, and reads back.
  abbrev Back : Type 0
  Back =
      (parsed (full_id f) f.payload (compile_tail f) ≡ f)
      × (full_id f / 2 ^ 29 % 2 ≡ 0)
      × (full_id f / 2 ^ 30 % 2 ≡ 0)
      × (full_id f / 2 ^ 31 % 2 ≡ 1)

  full_id_named : f.src ≢ 0 → full_id f ≡ compile_id f
  unfolding full_id
  full_id_named nz = let named : is_broadcast f.src ≡ false = ground arith in rw named refl

  service_back :
      (request : ℕ)
      → f.transfer_id < 2 ^ 5
      → request < 2
      → (f.dst ≢ 0) × (f.src ≢ 0) × (f.data_type_id < 2 ^ 8)
      → is_message_broadcast f.transfer_type ≡ false
      → (if same_type f.transfer_type service_request then 1 else 0) ≡ request
      → (if request == 0 then service_response else service_request) ≡ f.transfer_type
      → Back
  service_back request tid r a m q t =
      let id =
        full_id_named a.1
        ∙ compile_id_service f h.src_bits h.priority_bits request r m q a.2 h.dst_bits in
      let p = h.priority_bits in
      let s = h.src_bits in
      let n = h.dst_bits in
      let d = a.2 in
      (
        parsed_service f (full_id f) (compile_tail f)
            (tail_Reads f (full_id f) tid (omega (arith, id)) (omega (arith, id))) p s request t
            (omega (arith, id)) (omega (arith, id)) (omega (arith, id)) (omega (arith, id)),
        omega (arith, id),
        omega (arith, id),
        omega (arith, id),
      )

  parsed_back :
      (t : TransferType)
      → f.transfer_id < 2 ^ 5
      → (f.src ≡ 0 → f.data_type_id < 4)
      → f.transfer_type ≡ t
      → is_valid f ≡ true
      → Back
  parsed_back message_broadcast tid small e v =
      let (dst, d) = valid-Addressed f message_broadcast e v in
      let (mid, mid-lt, id, anonymous, named) = full_id_message e d small in
      let p = h.priority_bits in
      let s = h.src_bits in
      (
        parsed_message f (full_id f) (compile_tail f)
            (tail_Reads f (full_id f) tid (omega (arith, id)) (omega (arith, id))) p s e dst
            (omega (arith, id)) (λ z. omega (arith, id, anonymous z))
            (λ nz. omega (arith, id, named nz)),
        omega (arith, id),
        omega (arith, id),
        omega (arith, id),
      )
  parsed_back invalid tid small e v = absurd (valid-Addressed f invalid e v)
  parsed_back service_request tid small e v =
      service_back 1 tid (omega arith) (valid-Addressed f service_request e v) (rw e refl)
        (rw e refl) (sym e)
  parsed_back service_response tid small e v =
      service_back 0 tid (omega arith) (valid-Addressed f service_response e v) (rw e refl)
        (rw e refl) (sym e)

-- A valid frame with a transfer id of five bits compiles, and the CAN frame parses back to it; an
-- anonymous frame needs a data type id of two bits. The data length is one more than the payload's.
pub parse-compile :
    (f : Frame) (old : List ℕ)
    → is_valid f ≡ true
    → f.transfer_id < 2 ^ 5
    → (f.src ≡ 0 → f.data_type_id < 4)
    → (c : CanFrame) × (compile f old ≡ some c)
      × (c.dlc ≡ length f.payload + 1)
      × (parse c ≡ some f)
parse-compile f old v tid small =
    let h = valid-Common f v in
    let back = parsed_back f h f.transfer_type tid small refl v in
    let rest = drop (length f.payload + 1) old in
    let shape =
      parse_shape (full_id f) (compile_tail f) f.payload rest back.1 back.2 back.3 h.fits in
    (
      compiled f old,
      compile_valid f old v,
      unfold compiled in refl,
      unfold compiled bytes_of in
          (ap
              (λ bytes.
                parse (record { id = full_id f; data_bytes = bytes; dlc = length f.payload + 1 }))
              (append_assoc f.payload (compile_tail f ∷ []) rest)
            ∙ shape
            ∙ rw (back.0, v) refl),
    )

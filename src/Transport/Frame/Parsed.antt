-- ===== src/Transport/Frame/Parsed.antt =====
-- What `parse` reads, field by field.
use native.Mathlib.Nat.{one-le-pow}
use uavcan.Base.{
  ℕ, ◌+◌, ◌-◌, ◌*◌, ◌/◌, ◌%◌, ◌^◌, ◌≤◌, ◌<◌, ◌≡◌, ◌≢◌, refl, sym, ap, ◌∙◌, arith, Bool, true, false,
  List, [], ◌∷◌, ◌++◌, none, some, length, get_or, bit_and, bit_and_mask, bit_and_bit,
  if◌then◌else◌, ◌==◌, ltb, take-append_left,
}
use uavcan.Can.{has_flag, mask_ext_id}
use uavcan.Transport.Transfer.{
  service_response, service_request, message_broadcast, invalid, is_broadcast,
}
use uavcan.Transport.Frame.{
  Frame, bitunpack, bit_of, make, is_valid, parse, parse_message, parse_service, parse_tail,
}

get_or-append : (xs ys : List ℕ) (x : ℕ) → get_or (xs ++ x ∷ ys) (length xs) 0 ≡ x
get_or-append [] ys x = refl
get_or-append (y ∷ xs) ys x = get_or-append xs ys x

-- The header that `parse` starts from.
head : ℕ → Frame
head id = record (make 0 invalid (bitunpack 0 7 id % 2 ^ 8) 0 0) {
  priority = bitunpack 24 5 id % 2 ^ 8;
}

addressed : ℕ → Frame
unfolding head
addressed id =
    if bitunpack 7 1 id == 0 then parse_message id (head id) else parse_service id (head id)

-- What `parse` reads from an identifier, a payload and a tail byte.
pub parsed : ℕ → List ℕ → ℕ → Frame
unfolding addressed
parsed id payload tail =
    parse_tail tail (record (addressed (bit_and id mask_ext_id)) { payload = payload })

pub parse_shape :
    (id tail : ℕ) (payload rest : List ℕ)
    → id / 2 ^ 29 % 2 ≡ 0
    → id / 2 ^ 30 % 2 ≡ 0
    → id / 2 ^ 31 % 2 ≡ 1
    → length payload ≤ 7
    → parse (record { id = id; data_bytes = payload ++ tail ∷ rest; dlc = length payload + 1 })
      ≡ (if is_valid (parsed id payload tail) then some (parsed id payload tail) else none)
unfolding parse parsed
parse_shape id tail payload rest e r x h =
    let len : length payload + 1 - 1 ≡ length payload = omega arith in
    let err : has_flag id (2 ^ 29) ≡ false = ground (arith, bit_and_bit 29 id) in
    let rtr : has_flag id (2 ^ 30) ≡ false = ground (arith, bit_and_bit 30 id) in
    let eff : has_flag id (2 ^ 31) ≡ true = ground (arith, bit_and_bit 31 id) in
    let bound : ltb 8 (length payload + 1) ≡ false = ground arith in
    let some_byte : ltb (length payload + 1) 1 ≡ false = ground arith in
    let cut = take-append_left (length payload) payload (tail ∷ rest) refl in
    let last = get_or-append payload rest tail in
    rw (err, rtr, eff, bound, some_byte, len, cut, last) refl

unpacked :
    (offset width id : ℕ)
    → bitunpack offset width (bit_and id mask_ext_id) ≡ id % 2 ^ 29 / 2 ^ offset % 2 ^ width
unpacked offset width id =
    bit_and_mask width (bit_and id mask_ext_id / 2 ^ offset)
    ∙ ap (λ t. t / 2 ^ offset % 2 ^ width) (bit_and_mask 29 id)

Frame-ext :
    (f g : Frame)
    → f.priority ≡ g.priority
    → f.transfer_type ≡ g.transfer_type
    → f.data_type_id ≡ g.data_type_id
    → f.payload ≡ g.payload
    → f.src ≡ g.src
    → f.dst ≡ g.dst
    → f.transfer_id ≡ g.transfer_id
    → f.start_of_transfer ≡ g.start_of_transfer
    → f.end_of_transfer ≡ g.end_of_transfer
    → f.toggle ≡ g.toggle
    → f ≡ g
Frame-ext f g a b c d e h j k l m = λ i. record {
  priority = a i;
  transfer_type = b i;
  data_type_id = c i;
  payload = d i;
  src = e i;
  dst = h i;
  transfer_id = j i;
  start_of_transfer = k i;
  end_of_transfer = l i;
  toggle = m i;
}

bit_back : (k tail : ℕ) (b : Bool) → tail / 2 ^ k % 2 ≡ bit_of b → has_flag tail (2 ^ k) ≡ b
bit_back k tail true h =
    let e : bit_and tail (2 ^ k) ≡ 2 ^ k =
      bit_and_bit k tail ∙ ap (λ t. t * 2 ^ k) h ∙ omega arith in
    let p = one-le-pow k 2 (omega arith) in ground arith
bit_back k tail false h =
    let e : bit_and tail (2 ^ k) ≡ 0 = bit_and_bit k tail ∙ ap (λ t. t * 2 ^ k) h ∙ omega arith in
    ground arith

-- What has to be read off an identifier and a tail byte for a frame to come back.
pub record Reads (f : Frame) (id tail : ℕ) : Type 0 where
  pub priority_field : id % 2 ^ 29 / 2 ^ 24 % 2 ^ 5 ≡ f.priority
  pub src_field : id % 2 ^ 29 / 2 ^ 0 % 2 ^ 7 ≡ f.src
  pub start_bit : tail / 2 ^ 7 % 2 ≡ bit_of f.start_of_transfer
  pub end_bit : tail / 2 ^ 6 % 2 ≡ bit_of f.end_of_transfer
  pub toggle_bit : tail / 2 ^ 5 % 2 ≡ bit_of f.toggle
  pub transfer_id_field : tail % 2 ^ 5 ≡ f.transfer_id

module _ (f : Frame) (id tail : ℕ) (h : Reads f id tail) (hp : f.priority < 2 ^ 5)
    (hs : f.src < 2 ^ 7) where
  head_priority : bitunpack 24 5 (bit_and id mask_ext_id) % 2 ^ 8 ≡ f.priority
  head_priority = omega (arith, unpacked 24 5 id, h.priority_field)

  head_src : bitunpack 0 7 (bit_and id mask_ext_id) % 2 ^ 8 ≡ f.src
  head_src = omega (arith, unpacked 0 7 id, h.src_field)

  transfer_id_back : bit_and tail (2 ^ 5 - 1) ≡ f.transfer_id
  transfer_id_back = bit_and_mask 5 tail ∙ h.transfer_id_field

  pub parsed_message :
      f.transfer_type ≡ message_broadcast
      → f.dst ≡ 0
      → id % 2 ^ 29 / 2 ^ 7 % 2 ^ 1 ≡ 0
      → (f.src ≡ 0 → id % 2 ^ 29 / 2 ^ 8 % 2 ^ 2 ≡ f.data_type_id)
      → (f.src ≢ 0 → id % 2 ^ 29 / 2 ^ 8 % 2 ^ 16 ≡ f.data_type_id)
      → parsed id f.payload tail ≡ f
  unfolding parsed addressed head parse_message parse_tail
  parsed_message t n bit anonymous unicast =
      let message : (bitunpack 7 1 (bit_and id mask_ext_id) == 0) ≡ true =
        ground (arith, unpacked 7 1 id) in
      let wide = bitunpack 8 16 (bit_and id mask_ext_id) % 2 ^ 16 in
      let dtid : (if is_broadcast (bitunpack 0 7 (bit_and id mask_ext_id) % 2 ^ 8)
            then bit_and wide 3 % 2 ^ 16
            else wide)
          ≡ f.data_type_id =
        rw head_src (ground (arith, anonymous, unicast, unpacked 8 16 id, bit_and_mask 2 wide)) in
      rw message (
        Frame-ext _ f head_priority (sym t) dtid refl head_src (sym n) transfer_id_back
          (bit_back 7 tail f.start_of_transfer h.start_bit)
          (bit_back 6 tail f.end_of_transfer h.end_bit) (bit_back 5 tail f.toggle h.toggle_bit))

  pub parsed_service :
      (request : ℕ)
      → (if request == 0 then service_response else service_request) ≡ f.transfer_type
      → id % 2 ^ 29 / 2 ^ 7 % 2 ^ 1 ≡ 1
      → id % 2 ^ 29 / 2 ^ 15 % 2 ^ 1 ≡ request
      → id % 2 ^ 29 / 2 ^ 8 % 2 ^ 7 ≡ f.dst
      → id % 2 ^ 29 / 2 ^ 16 % 2 ^ 8 ≡ f.data_type_id
      → parsed id f.payload tail ≡ f
  unfolding parsed addressed head parse_service parse_tail
  parsed_service request t bit r d n =
      let service : (bitunpack 7 1 (bit_and id mask_ext_id) == 0) ≡ false =
        ground (arith, unpacked 7 1 id) in
      let kind : (if bitunpack 15 1 (bit_and id mask_ext_id) == 0
            then service_response
            else service_request)
          ≡ f.transfer_type =
        ap (λ b. if b == 0 then service_response else service_request) (unpacked 15 1 id ∙ r) ∙ t in
      let dst : bitunpack 8 7 (bit_and id mask_ext_id) % 2 ^ 8 ≡ f.dst =
        omega (arith, unpacked 8 7 id, d) in
      let dtid : bitunpack 16 8 (bit_and id mask_ext_id) % 2 ^ 16 ≡ f.data_type_id =
        omega (arith, unpacked 16 8 id, n) in
      rw service (
        Frame-ext _ f head_priority kind dtid refl head_src dst transfer_id_back
          (bit_back 7 tail f.start_of_transfer h.start_bit)
          (bit_back 6 tail f.end_of_transfer h.end_bit) (bit_back 5 tail f.toggle h.toggle_bit))

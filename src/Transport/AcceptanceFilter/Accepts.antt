-- ===== src/Transport/AcceptanceFilter/Accepts.antt =====
-- uc_can_acceptance_filter_configurator.cpp: the configurations of a node let through the frames
-- that other nodes compile for it.
use uavcan.Base.{
  ℕ, suc, ◌+◌, ◌-◌, ◌*◌, ◌/◌, ◌%◌, ◌^◌, ◌≤◌, ◌<◌, ◌≡◌, refl, sym, ap, subst, ◌∙◌, inl, inr, bit_or,
  bit_or_above, min, Bool, true, false, List, some, length, get_elem?, leb, ltb, ◌==◌, ◌&&◌, ◌||◌,
  if◌then◌else◌, digit, digit-mod, digit-div, digit-bit_and, digit_above, same_digits, every,
  every-at, Bool-cases, leb→le, arith,
}
use uavcan.Can.{CanFrame}
use uavcan.Can.IoManager.{IoResult, IoResult-cases, done, failed, err_driver}
use uavcan.Transport.Transfer.{
  TransferType, message_broadcast, service_request, service_response, invalid, is_message_broadcast,
  same_type, is_broadcast,
}
use uavcan.Transport.Frame.{Frame, is_valid, compile, compile_id}
use uavcan.Transport.Frame.Layout.{compile_id_message, compile_id_service}
use uavcan.Transport.Frame.Validity.{valid-Common, valid-Addressed}
use uavcan.Util.Multiset.{Multiset, get_size}
use uavcan.Util.Multiset.Contents.{contents, get_size-contents}
use uavcan.Transport.AcceptanceFilter.Hardware.{get_num_filters-at}
use uavcan.Transport.AcceptanceFilter.{
  FilterConfig, FilterIface, FilterNode, Configurator, service_id, get_num_filters,
  merge_configurations, compute_configuration, load_input_configuration,
}
use uavcan.Transport.AcceptanceFilter.Merge.{Accepts}
use uavcan.Transport.AcceptanceFilter.Rounds.{Accepted, EveryExtended}
use uavcan.Transport.AcceptanceFilter.Merging.{merge_loop-IsMerged, IsMerged}
use uavcan.Transport.AcceptanceFilter.Listeners.{AreIds, listener_config}
use uavcan.Transport.AcceptanceFilter.Loads.{
  service_config, load_input_configuration-Covers, load_input_configuration-done,
}

-- Two numbers with the same value in a window of `width` digits from `low` on have its digits in
-- common.
window_digit :
    (low width k x y : ℕ)
    → low ≤ k
    → k < low + width
    → x / 2 ^ low % 2 ^ width ≡ y / 2 ^ low % 2 ^ width
    → digit k x ≡ digit k y
window_digit low width k x y le lt same =
    let inside : low + (k - low) ≡ k = omega arith in
    let at = λ (z : ℕ).
      digit-mod width (k - low) (z / 2 ^ low) (omega arith)
      ∙ digit-div low (k - low) z
      ∙ ap (λ t. digit t z) inside in
    sym (at x) ∙ ap (digit (k - low)) same ∙ at y

-- The digits that a mask keeps: `width` of them from 7 on, and the flags.
abbrev kept : ℕ → ℕ → Bool
kept width k = leb 7 k && ltb k (7 + width) || leb 29 k && ltb k 32

-- A mask of which the other digits are 0.
abbrev KeepsOnly : ℕ → ℕ → Type 0
KeepsOnly width mask = every 32 (λ k. kept width k || digit k mask == 0) ≡ true

accepted_in_windows :
    (f : FilterConfig) (width x : ℕ)
    → KeepsOnly width f.mask
    → f.mask < 2 ^ 32
    → x / 2 ^ 7 % 2 ^ width ≡ f.id / 2 ^ 7 % 2 ^ width
    → x / 2 ^ 29 % 2 ^ 3 ≡ f.id / 2 ^ 29 % 2 ^ 3
    → Accepts f x
accepted_in_windows f width x only word same flags =
    same_digits _ _ λ k. digit-bit_and k x f.mask ∙ agree k ∙ sym (digit-bit_and k f.id f.mask)
  where
    agree : (k : ℕ) → min (digit k x) (digit k f.mask) ≡ min (digit k f.id) (digit k f.mask)
    agree k = elim (Bool-cases (leb 32 k)) [
      | inl above ↦ omega (arith, digit_above 32 k f.mask word (leb→le 32 k above))
      | inr within ↦ elim (Bool-cases (kept width k)) [
        | inr cut ↦
            let off : (kept width k || digit k f.mask == 0) ≡ true =
              every-at 32 _ k only (ground arith) in
            let zero : digit k f.mask ≡ 0 = ground arith in omega arith
        | inl in_mask ↦ elim (Bool-cases (leb 29 k)) [
          | inl flag ↦
              ap (λ t. min t (digit k f.mask))
                (window_digit 29 3 k x f.id (ground arith) (ground arith) flags)
          | inr field ↦
              ap (λ t. min t (digit k f.mask))
                (window_digit 7 width k x f.id (ground arith) (ground arith) same)
        ]
      ]
    ]

msg_mask_table : KeepsOnly 17 (listener_config 0).mask
unfolding digit every
msg_mask_table = refl

service_mask_table : KeepsOnly 8 (service_config 0).mask
unfolding digit every
service_mask_table = refl

compile-id :
    (f : Frame) (old : List ℕ) {c : CanFrame}
    → compile f old ≡ some c
    → is_broadcast f.src ≡ false
    → (is_valid f ≡ true) × (c.id ≡ compile_id f)
unfolding compile
compile-id f old h named = elim (Bool-cases (is_valid f)) [
  | inl v ↦ (v, ground arith)
  | inr bad ↦ absurd (ground arith)
]

-- A message from a node with an id.
message_accepted :
    (f : Frame) (old : List ℕ) {c : CanFrame}
    → compile f old ≡ some c
    → is_broadcast f.src ≡ false
    → f.transfer_type ≡ message_broadcast
    → Accepts (listener_config f.data_type_id) c.id
message_accepted f old {c} h named t =
    let (v, id) = compile-id f old h named in
    let bits = valid-Common f v in
    let (to_all, d) = valid-Addressed f message_broadcast t v in
    let sum = id ∙ compile_id_message f bits.src_bits bits.priority_bits t d in
    let p = bits.priority_bits in
    let s = bits.src_bits in
    let own : bit_or (f.data_type_id * 2 ^ 8) (2 ^ 31) ≡ 2 ^ 31 + f.data_type_id * 2 ^ 8 =
      bit_or_above 31 1 (f.data_type_id * 2 ^ 8) (omega arith) in
    accepted_in_windows (listener_config f.data_type_id) 17 c.id msg_mask_table (omega arith)
      (omega (arith, own, sum)) (omega (arith, own, sum))

service_type_id :
    (f : Frame) (t : TransferType)
    → f.transfer_type ≡ t
    → is_message_broadcast f.transfer_type ≡ false
    → is_valid f ≡ true
    → f.data_type_id < 2 ^ 8
service_type_id f message_broadcast e h v = absurd (ground arith)
service_type_id f invalid e h v = absurd (valid-Addressed f invalid e v)
service_type_id f service_request e h v = (valid-Addressed f service_request e v).2
service_type_id f service_response e h v = (valid-Addressed f service_response e v).2

-- A request or a response to a node.
service_accepted :
    (f : Frame) (old : List ℕ) {c : CanFrame}
    → compile f old ≡ some c
    → is_broadcast f.src ≡ false
    → is_message_broadcast f.transfer_type ≡ false
    → Accepts (service_config f.dst) c.id
service_accepted f old {c} h named t =
    let (v, id) = compile-id f old h named in
    let bits = valid-Common f v in
    let d = service_type_id f f.transfer_type refl t v in
    let request : ℕ = if same_type f.transfer_type service_request then 1 else 0 in
    let small : request < 2 = ground arith in
    let sum =
      id
      ∙ compile_id_service f bits.src_bits bits.priority_bits request small t refl d
          bits.dst_bits in
    let p = bits.priority_bits in
    let s = bits.src_bits in
    let to = bits.dst_bits in
    let low : bit_or service_id (f.dst * 2 ^ 8) ≡ f.dst * 2 ^ 8 + 2 ^ 7 =
      bit_or_above 8 f.dst (2 ^ 7) (omega arith) in
    let own : bit_or (bit_or service_id (f.dst * 2 ^ 8)) (2 ^ 31)
        ≡ 2 ^ 31 + (f.dst * 2 ^ 8 + 2 ^ 7) =
      ap (λ t. bit_or t (2 ^ 31)) low ∙ bit_or_above 31 1 (f.dst * 2 ^ 8 + 2 ^ 7) (omega arith) in
    accepted_in_windows (service_config f.dst) 8 c.id service_mask_table (omega arith)
      (omega (arith, own, sum)) (omega (arith, own, sum))

-- The result of computeConfiguration: not more filters than getNumFilters gives, which is the number
-- that the configurator was made with, or, where that is 0, no more than any interface has; and every
-- frame for the node passes.
pub record IsConfigured (node : FilterNode) (c c' : Configurator) : Type 0 where
  pub fits : length (contents c'.configs) ≤ get_num_filters node c
  pub hardware :
      (k : ℕ) (iface : FilterIface)
      → c.filters_number ≡ 0
      → get_elem? node.ifaces k ≡ some (some iface)
      → length (contents c'.configs) ≤ iface.num_filters
  pub messages :
      (i : ℕ) (f : Frame) (old : List ℕ) (frame : CanFrame)
      → get_elem? node.listener_ids i ≡ some f.data_type_id
      → compile f old ≡ some frame
      → is_broadcast f.src ≡ false
      → f.transfer_type ≡ message_broadcast
      → Accepted frame.id (contents c'.configs)
  pub services :
      (f : Frame) (old : List ℕ) (frame : CanFrame)
      → f.dst ≡ node.node_id
      → compile f old ≡ some frame
      → is_broadcast f.src ≡ false
      → is_message_broadcast f.transfer_type ≡ false
      → Accepted frame.id (contents c'.configs)

merge_configurations-IsMerged :
    (node : FilterNode) (c : Configurator)
    → 1 ≤ get_num_filters node c
    → EveryExtended (contents c.configs)
    → length (contents c.configs) ≤ 2 ^ 8
    → (m : Multiset FilterConfig) × (merge_configurations node c
        ≡ some (done 0, record c { configs = m }))
      × IsMerged (get_num_filters node c) (contents c.configs) (contents m)
unfolding merge_configurations
merge_configurations-IsMerged node c pos e small =
    let (m, done_at, merged) =
      merge_loop-IsMerged (suc (get_size c.configs)) (get_num_filters node c) c.configs pos e small
        (omega (arith, get_size-contents c.configs)) in
    (m, ground (arith, done_at), merged)

-- For a node with an id of seven bits, at most 254 listeners with ids of 16 bits, and chunks that
-- have room: computeConfiguration ends; and where it gives 0, there are no more configurations than
-- the number of filters that the configurator was made with, or, where that is 0, than any interface
-- has filters; and they let through every message of a listener's type and every service frame to the
-- node that any node with an id compiles.
pub compute_configuration-IsConfigured :
    (node : FilterNode) (anonymous : Bool) (c : Configurator)
    → AreIds node.listener_ids
    → length node.listener_ids ≤ 254
    → node.node_id < 2 ^ 7
    → 0 < c.configs.num_items
    → (r : IoResult) × (c' : Configurator) × (compute_configuration node anonymous c ≡ some (r, c'))
      × (r ≡ done 0 → IsConfigured node c c')
unfolding compute_configuration
compute_configuration-IsConfigured node anonymous c ids few own room =
    let loaded = load_input_configuration node anonymous c.configs in
    let c₁ : Configurator = record c { configs = loaded.1 } in
    elim (Bool-cases (get_num_filters node c == 0)) [
      | inl t ↦ (failed err_driver, c, rw t refl, λ e. absurd (ground arith))
      | inr f ↦ elim (IoResult-cases loaded.0) [
        | inr (e, failure) ↦ (failed e, c₁, ground arith, λ e. absurd (ground arith))
        | inl (n, success) ↦
            let clean : loaded.0 ≡ done 0 =
              success ∙ ap done (load_input_configuration-done node anonymous c.configs success) in
            let covers =
              load_input_configuration-Covers node anonymous c.configs ids own room clean in
            let same : get_num_filters node c₁ ≡ get_num_filters node c =
              unfold get_num_filters in refl in
            let (m, end, merged) =
              merge_configurations-IsMerged node c₁ (ground (arith, same)) covers.extended
                (omega (arith, covers.number)) in
            (
              done 0,
              record c { configs = m },
              ground (arith, end),
              λ e. record {
                fits = omega (arith, merged.fits, same);
                hardware = λ k iface none_given at_k.
                    omega
                      (arith, merged.fits, same, get_num_filters-at node c k iface none_given at_k);
                messages = λ i g old frame at_i compiled named t. merged.wider frame.id (
                    covers.listeners i g.data_type_id frame.id at_i
                      (message_accepted g old compiled named t));
                services = λ g old frame to compiled named t. merged.wider frame.id (
                    covers.services frame.id (
                      subst (λ d. Accepts (service_config d) frame.id) to
                        (service_accepted g old compiled named t)));
              },
            )
      ]
    ]

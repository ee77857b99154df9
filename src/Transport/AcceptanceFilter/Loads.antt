-- ===== src/Transport/AcceptanceFilter/Loads.antt =====
-- uc_can_acceptance_filter_configurator.cpp: what loadInputConfiguration puts into the multiset.
use uavcan.Base.{
  ℕ, suc, ◌+◌, ◌*◌, ◌^◌, ◌≤◌, ◌<◌, ◌≡◌, sym, ap, subst, inl, inr, bit_or, bit_or_and, Bool, true,
  false, List, some, length, get_elem?, Bool-cases, arith,
}
use uavcan.Can.IoManager.{done, IoResult-cases}
use uavcan.Util.Multiset.{Multiset, emplace, clear}
use uavcan.Util.Multiset.Contents.{contents}
use uavcan.Util.Multiset.Clear.{clear-contents, clear-num_items}
use uavcan.Transport.AcceptanceFilter.{
  FilterConfig, FilterNode, flagged, service_id, service_mask, anon_id, anon_mask, load_listeners,
  load_rest, load_input_configuration,
}
use uavcan.Transport.AcceptanceFilter.Merge.{Accepts}
use uavcan.Transport.AcceptanceFilter.Rounds.{Accepted, EveryExtended}
use uavcan.Transport.AcceptanceFilter.Listeners.{
  flagged-IsExtended, emplace-num_items, emplace-Grows, emplace-Accepted, AreIds, listener_config,
  load_listeners-Grows, load_listeners-Accepted,
}

abbrev pub service_config : ℕ → FilterConfig
service_config node_id = flagged (bit_or service_id (node_id * 2 ^ 8)) service_mask

-- What the loading gives for a node, above what the multiset had.
pub record IsLoaded (node : FilterNode) (m m' : Multiset FilterConfig) : Type 0 where
  pub longer : length (contents m') ≡ suc (length node.listener_ids) + length (contents m)
  pub extended : EveryExtended (contents m) → EveryExtended (contents m')
  pub wider : (x : ℕ) → Accepted x (contents m) → Accepted x (contents m')
  pub listeners :
      (i d x : ℕ)
      → get_elem? node.listener_ids i ≡ some d
      → Accepts (listener_config d) x
      → Accepted x (contents m')
  pub services : (x : ℕ) → Accepts (service_config node.node_id) x → Accepted x (contents m')

module _ (node : FilterNode) (m : Multiset FilterConfig) where
  abbrev next : Multiset FilterConfig
  next = (emplace m (service_config node.node_id)).1

  load_rest-steps :
      (load_rest node m).0 ≡ done 0
      → ((emplace m (service_config node.node_id)).0 ≡ true)
        × (n : ℕ) × ((load_listeners node.listener_ids next).0 ≡ done n)
        × ((load_rest node m).1 ≡ (load_listeners node.listener_ids next).1)
  unfolding load_rest
  load_rest-steps h = elim (Bool-cases (emplace m (service_config node.node_id)).0) [
    | inr f ↦ absurd (ground arith)
    | inl t ↦ elim (IoResult-cases (load_listeners node.listener_ids next).0) [
      | inr (e, failure) ↦ absurd (ground arith)
      | inl (n, success) ↦ (t, n, success, ground arith)
    ]
  ]

  load_rest-IsLoaded :
      AreIds node.listener_ids
      → node.node_id < 2 ^ 7
      → 0 < m.num_items
      → (load_rest node m).0 ≡ done 0
      → IsLoaded node m (load_rest node m).1
  load_rest-IsLoaded ids own room h =
      let (stored, n, result, end) = load_rest-steps h in
      let config = service_config node.node_id in
      let kept : 0 < next.num_items = omega (arith, emplace-num_items m config) in
      let first = emplace-Grows m config room stored (
        flagged-IsExtended (bit_or service_id (node.node_id * 2 ^ 8)) service_mask
          (omega (arith, bit_or_and service_id (node.node_id * 2 ^ 8))) (omega arith)) in
      let more = load_listeners-Grows node.listener_ids next ids kept result in
      rw end (record {
        longer = omega (arith, first.longer, more.longer);
        extended = λ e. more.extended (first.extended e);
        wider = λ x a. more.wider x (first.wider x a);
        listeners = load_listeners-Accepted node.listener_ids next ids kept result;
        services = λ x a. more.wider x (emplace-Accepted m config room stored x a);
      })

-- What the configurations of a node let through, and their number.
pub record Covers (node : FilterNode) (anonymous : Bool) (cs : List FilterConfig) : Type 0 where
  pub number : length cs ≤ 2 + length node.listener_ids
  pub extended : EveryExtended cs
  pub listeners :
      (i d x : ℕ)
      → get_elem? node.listener_ids i ≡ some d
      → Accepts (listener_config d) x
      → Accepted x cs
  pub services : (x : ℕ) → Accepts (service_config node.node_id) x → Accepted x cs
  pub anonymous_frames :
      anonymous ≡ true → (x : ℕ) → Accepts (flagged anon_id anon_mask) x → Accepted x cs

pub load_input_configuration-Covers :
    (node : FilterNode) (anonymous : Bool) (m : Multiset FilterConfig)
    → AreIds node.listener_ids
    → node.node_id < 2 ^ 7
    → 0 < m.num_items
    → (load_input_configuration node anonymous m).0 ≡ done 0
    → Covers node anonymous (contents (load_input_configuration node anonymous m).1)
unfolding load_input_configuration
load_input_configuration-Covers node false m ids own room h =
    let loaded = load_rest-IsLoaded node (clear m) ids own (omega (arith, clear-num_items m)) h in
    let empty = clear-contents m in
    record {
      number = omega (arith, loaded.longer, ap length empty);
      extended = loaded.extended (subst EveryExtended (sym empty) tt);
      listeners = loaded.listeners;
      services = loaded.services;
      anonymous_frames = λ e x a. absurd (ground arith);
    }
load_input_configuration-Covers node true m ids own room h =
    let config = flagged anon_id anon_mask in
    let added = (emplace (clear m) config).1 in
    let room₀ : 0 < (clear m).num_items = omega (arith, clear-num_items m) in
    let room₁ : 0 < added.num_items = omega (arith, emplace-num_items (clear m) config) in
    let empty = clear-contents m in
    elim (Bool-cases (emplace (clear m) config).0) [
      | inr f ↦ absurd (ground arith)
      | inl t ↦
          let first =
            emplace-Grows (clear m) config room₀ t
              (flagged-IsExtended anon_id anon_mask (omega arith) (omega arith)) in
          let result : (load_rest node added).0 ≡ done 0 = rw t at h in
          let loaded = load_rest-IsLoaded node added ids own room₁ result in
          rw t (record {
            number = omega (arith, loaded.longer, first.longer, ap length empty);
            extended = loaded.extended (first.extended (subst EveryExtended (sym empty) tt));
            listeners = loaded.listeners;
            services = loaded.services;
            anonymous_frames =
                λ e x a. loaded.wider x (emplace-Accepted (clear m) config room₀ t x a);
          })
    ]

load_rest-done :
    (node : FilterNode) (m : Multiset FilterConfig) {n : ℕ} → (load_rest node m).0 ≡ done n → n ≡ 0
unfolding load_rest
load_rest-done node m h = ground arith

pub load_input_configuration-done :
    (node : FilterNode) (anonymous : Bool) (m : Multiset FilterConfig) {n : ℕ}
    → (load_input_configuration node anonymous m).0 ≡ done n
    → n ≡ 0
unfolding load_input_configuration
load_input_configuration-done node false m h = load_rest-done node (clear m) h
load_input_configuration-done node true m h =
    elim (Bool-cases (emplace (clear m) (flagged anon_id anon_mask)).0) [
      | inr f ↦ absurd (ground arith)
      | inl t ↦ load_rest-done node (emplace (clear m) (flagged anon_id anon_mask)).1 (rw t at h)
    ]

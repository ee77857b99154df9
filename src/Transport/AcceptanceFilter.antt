-- ===== src/Transport/AcceptanceFilter.antt =====
-- CanAcceptanceFilterConfigurator of libuavcan/src/transport/uc_can_acceptance_filter_configurator.cpp
-- and its header. A call that gives 0 is `done 0`. A pointer that getByIndex gives is read where
-- the source reads it; the loops keep their indices below the size.
pub mod Merge
pub mod Rounds
pub mod Merging
pub mod Listeners
pub mod Loads
pub mod Hardware
pub mod Accepts
use uavcan.Base.{
  ℕ, zero, suc, ◌+◌, ◌-◌, ◌*◌, ◌/◌, ◌%◌, ◌^◌, bit_and, bit_or, bit_xor, min, Bool, true, false, not,
  ◌&&◌, List, [], ◌∷◌, Option, none, some, ltb, leb, ◌==◌, if◌then◌else◌,
}
use uavcan.Can.{flag_eff, flag_rtr, flag_err}
use uavcan.Can.IoManager.{IoResult, done, failed, err_driver}
use uavcan.Transport.Registry.{err_memory}
use uavcan.Transport.Sender.{err_logic}
use uavcan.Util.Multiset.{
  Multiset, emplace, clear, get_by_index, get_size, assign_by_index, remove_first_where,
}

pub record FilterConfig : Type 0 where
  pub id : ℕ
  pub mask : ℕ

abbrev pub empty_config : FilterConfig
empty_config = record { id = 0; mask = 0 }

-- CanFilterConfig::operator==.
abbrev pub same_config : FilterConfig → FilterConfig → Bool
same_config a b = b.id == a.id && b.mask == a.mask

-- What a driver's interface is asked for: getNumFilters, and whether configureFilters succeeds.
pub record FilterIface : Type 0 where
  pub num_filters : ℕ
  pub configure : List FilterConfig → Bool

-- The node: its id, the data type ids of its message listeners in the order of their list, and
-- what getIface gives for each index.
pub record FilterNode : Type 0 where
  pub node_id : ℕ
  pub listener_ids : List ℕ
  pub ifaces : List (Option FilterIface)

pub record Configurator : Type 0 where
  pub configs : Multiset FilterConfig
  pub filters_number : ℕ

abbrev pub max_filters : ℕ
max_filters = 32

abbrev pub msg_mask : ℕ
msg_mask = 0xffff80

abbrev pub service_mask : ℕ
service_mask = 0x7f80

abbrev pub service_id : ℕ
service_id = 0x80

abbrev pub anon_mask : ℕ
anon_mask = 0xff

abbrev pub anon_id : ℕ
anon_id = 0

unfoldable pub merge_filters : FilterConfig → FilterConfig → FilterConfig
merge_filters a b =
    let differing = bit_xor a.id b.id in
    let mask = bit_and (bit_and a.mask b.mask) (bit_xor differing (2 ^ 32 - 1)) in
    record { id = bit_and a.id mask; mask = mask }

-- countBits; a number of 32 bits has at most 32 rounds.
unfoldable pub count_loop : ℕ → ℕ → ℕ → ℕ
count_loop zero n count = count
count_loop (suc fuel) n count =
    let rest = count_loop fuel (bit_and n (n - 1)) (count + 1) in if n == 0 then count else rest

unfoldable pub count_bits : ℕ → ℕ
count_bits n = count_loop 32 n 0

-- emplace of a configuration with the flags set in its id and mask.
abbrev pub flagged : (id mask : ℕ) → FilterConfig
flagged id mask = record {
  id = bit_or id flag_eff;
  mask = bit_or (bit_or (bit_or mask flag_eff) flag_rtr) flag_err;
}

unfoldable pub load_listeners : List ℕ → Multiset FilterConfig → IoResult × Multiset FilterConfig
load_listeners [] m = (done 0, m)
load_listeners (d ∷ ds) m =
    let (stored, m') = emplace m (flagged (d * 2 ^ 8) msg_mask) in
    let rest = load_listeners ds m' in if stored then rest else (failed err_memory, m')

-- The part of loadInputConfiguration behind the anonymous messages.
unfoldable pub load_rest : FilterNode → Multiset FilterConfig → IoResult × Multiset FilterConfig
load_rest node m =
    let config = flagged (bit_or service_id (node.node_id * 2 ^ 8)) service_mask in
    let (stored, m₁) = emplace m config in
    if not stored
    then (failed err_memory, m₁)
    else (let (result, m₂) = load_listeners node.listener_ids m₁ in
        elim result [
          | failed e ↦ (failed e, m₂)
          | done n ↦ if get_size m₂ == 0 then (failed err_logic, m₂) else (done 0, m₂)
        ])

-- loadInputConfiguration; the flag is AcceptAnonymousMessages.
unfoldable pub load_input_configuration :
    FilterNode → Bool → Multiset FilterConfig → IoResult × Multiset FilterConfig
load_input_configuration node accept_anonymous m =
    let m₀ = clear m in
    if accept_anonymous
    then (let (stored, m₁) = emplace m₀ (flagged anon_id anon_mask) in
        if not stored then (failed err_memory, m₁) else load_rest node m₁)
    else load_rest node m₀

abbrev pub config_at : Multiset FilterConfig → ℕ → FilterConfig
config_at m index = elim (get_by_index m index) [ some c ↦ c | none ↦ empty_config ]

-- The best rank so far, and the indices that have it.
pub record Best : Type 0 where
  pub rank : ℕ
  pub i_rank : ℕ
  pub j_rank : ℕ

unfoldable pub consider : Multiset FilterConfig → ℕ → ℕ → Best → Best
consider m i j best =
    let rank = count_bits (merge_filters (config_at m i) (config_at m j)).mask in
    if ltb best.rank rank then record { rank = rank; i_rank = i; j_rank = j } else best

-- The loop on j_ind, with the rounds that are left.
unfoldable pub best_with : Multiset FilterConfig → ℕ → ℕ → ℕ → Best → Best
best_with m i zero j best = best
best_with m i (suc rounds) j best = best_with m i rounds (j + 1) (consider m i j best)

-- The loop on i_ind; the first j_ind is cut to 8 bits.
unfoldable pub best_from : Multiset FilterConfig → (size rounds i : ℕ) → Best → Best
best_from m size zero i best = best
best_from m size (suc rounds) i best =
    let first = (i + 1) % 2 ^ 8 in
    best_from m size rounds (i + 1) (best_with m i (size - first) first best)

unfoldable pub find_best : Multiset FilterConfig → Best
find_best m =
    let size = get_size m % 2 ^ 16 in
    best_from m size (size - 1) 0 (record { rank = 0; i_rank = 0; j_rank = 0 })

-- The assignment and the removal at the end of a round.
unfoldable pub merge_pair : Multiset FilterConfig → Best → Multiset FilterConfig
merge_pair m best =
    let merged = merge_filters (config_at m best.i_rank) (config_at m best.j_rank) in
    let m' = assign_by_index m best.j_rank merged in
    remove_first_where (same_config (config_at m' best.i_rank)) m'

-- The loop of mergeConfigurations; `none` where the fuel ends first.
unfoldable pub merge_loop : ℕ → ℕ → Multiset FilterConfig → Option (Multiset FilterConfig)
merge_loop zero filters m = none
merge_loop (suc fuel) filters m =
    let rest = merge_loop fuel filters (merge_pair m (find_best m)) in
    if ltb filters (get_size m) then rest else some m

-- The loop of getNumFilters.
unfoldable pub fewest_filters : List (Option FilterIface) → ℕ → ℕ
fewest_filters [] out = out
fewest_filters (none ∷ ifaces) out = 0
fewest_filters (some iface ∷ ifaces) out =
    let fewest = min out iface.num_filters in
    fewest_filters ifaces (if ltb max_filters fewest then max_filters else fewest)

unfoldable pub get_num_filters : FilterNode → Configurator → ℕ
get_num_filters node c =
    let out = fewest_filters node.ifaces 0xffff in
    if c.filters_number == 0 then (if out == 0xffff then 0 else out) else c.filters_number

-- mergeConfigurations. Each round takes one configuration away, so the fuel is enough.
unfoldable pub merge_configurations : FilterNode → Configurator → Option (IoResult × Configurator)
merge_configurations node c =
    let filters = get_num_filters node c in
    let merged = merge_loop (suc (get_size c.configs)) filters c.configs in
    if filters == 0
    then some (failed err_driver, c)
    else elim merged [ none ↦ none | some m ↦ some (done 0, record c { configs = m }) ]

unfoldable pub compute_configuration :
    FilterNode → Bool → Configurator → Option (IoResult × Configurator)
compute_configuration node accept_anonymous c =
    if get_num_filters node c == 0
    then some (failed err_driver, c)
    else (let (result, m) = load_input_configuration node accept_anonymous c.configs in
        let c' = record c { configs = m } in
        elim result [ failed e ↦ some (failed e, c') | done n ↦ merge_configurations node c' ])

-- addFilterConfig.
unfoldable pub add_filter_config : Configurator → FilterConfig → IoResult × Configurator
add_filter_config c config =
    let (stored, m) = emplace c.configs config in
    (if stored then done 0 else failed err_memory, record c { configs = m })

-- The copy to filter_conf_array, index after index.
unfoldable pub copy_configs : Multiset FilterConfig → (rounds i : ℕ) → List FilterConfig
copy_configs m zero i = []
copy_configs m (suc rounds) i = config_at m i ∷ copy_configs m rounds (i + 1)

-- The loop over the interfaces: the result, and how many of them took the filters.
unfoldable pub configure_ifaces : List FilterConfig → List (Option FilterIface) → IoResult × ℕ
configure_ifaces filters [] = (done 0, 0)
configure_ifaces filters (none ∷ ifaces) = (failed err_driver, 0)
configure_ifaces filters (some iface ∷ ifaces) =
    let (result, taken) = configure_ifaces filters ifaces in
    if iface.configure filters then (result, taken + 1) else (failed err_driver, 0)

-- What the array holds and the interfaces make of it, with the number of them that took it.
unfoldable pub load_hardware : FilterNode → Configurator → IoResult × List FilterConfig × ℕ
load_hardware node c =
    let size = get_size c.configs in
    let filters = copy_configs c.configs size 0 in
    let (result, taken) = configure_ifaces filters node.ifaces in
    if ltb max_filters size then (failed err_logic, [], 0) else (result, filters, taken)

-- applyConfiguration; the result of mergeConfigurations is not looked at.
unfoldable pub apply_configuration :
    FilterNode → Configurator → Option ((IoResult × List FilterConfig × ℕ) × Configurator)
apply_configuration node c =
    let filters = get_num_filters node c in
    let merged = merge_configurations node c in
    if filters == 0
    then some ((failed err_driver, [], 0), c)
    else if ltb filters (get_size c.configs)
    then elim merged [ none ↦ none | some (r, c') ↦ some (load_hardware node c', c') ]
    else some (load_hardware node c, c)

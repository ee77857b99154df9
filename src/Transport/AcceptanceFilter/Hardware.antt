-- ===== src/Transport/AcceptanceFilter/Hardware.antt =====
-- uc_can_acceptance_filter_configurator.cpp: getNumFilters against the interfaces.
use uavcan.Base.{
  ℕ, zero, suc, ◌≤◌, ◌≡◌, min, List, [], ◌∷◌, Option, none, some, get_elem?, ltb, if◌then◌else◌,
  arith,
}
use uavcan.Transport.AcceptanceFilter.{
  FilterIface, FilterNode, Configurator, max_filters, fewest_filters, get_num_filters,
}

-- No interface has fewer filters than getNumFilters finds where it is not told a number.
fewest_filters-le : (ifaces : List (Option FilterIface)) (out : ℕ) → fewest_filters ifaces out ≤ out
unfolding fewest_filters
fewest_filters-le [] out = omega arith
fewest_filters-le (none ∷ ifaces) out = omega arith
fewest_filters-le (some iface ∷ ifaces) out =
    let fewest = min out iface.num_filters in
    let rest = fewest_filters-le ifaces (if ltb max_filters fewest then max_filters else fewest) in
    ground arith

fewest_filters-at :
    (ifaces : List (Option FilterIface)) (out k : ℕ) (iface : FilterIface)
    → get_elem? ifaces k ≡ some (some iface)
    → fewest_filters ifaces out ≤ iface.num_filters
unfolding fewest_filters
fewest_filters-at [] out k iface h = absurd (ground arith)
fewest_filters-at (none ∷ ifaces) out k iface h = omega arith
fewest_filters-at (some first ∷ ifaces) out zero iface h =
    let fewest = min out first.num_filters in
    let rest = fewest_filters-le ifaces (if ltb max_filters fewest then max_filters else fewest) in
    ground arith
fewest_filters-at (some first ∷ ifaces) out (suc k) iface h =
    let fewest = min out first.num_filters in
    fewest_filters-at ifaces (if ltb max_filters fewest then max_filters else fewest) k iface h

pub get_num_filters-at :
    (node : FilterNode) (c : Configurator) (k : ℕ) (iface : FilterIface)
    → c.filters_number ≡ 0
    → get_elem? node.ifaces k ≡ some (some iface)
    → get_num_filters node c ≤ iface.num_filters
unfolding get_num_filters
get_num_filters-at node c k iface none_given h =
    let fewest = fewest_filters-at node.ifaces 0xffff k iface h in ground arith

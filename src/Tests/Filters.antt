-- ===== src/Tests/Filters.antt =====
-- uc_can_acceptance_filter_configurator.cpp on small inputs.
use uavcan.Base.{ℕ, zero, suc, ◌^◌, ◌≡◌, refl, true, List, [], ◌∷◌, none, some, arith}
use uavcan.Memory.{Pool}
use uavcan.Can.IoManager.{IoResult, done}
use uavcan.Util.Multiset.{Multiset, get_by_index, find, find_in, find_item, index_predicate}
use uavcan.Util.Multiset.Contents.{contents}
use uavcan.Transport.AcceptanceFilter.{
  FilterConfig, FilterIface, FilterNode, Configurator, merge_filters, compute_configuration,
  find_best, merge_pair,
}
use uavcan.Transport.AcceptanceFilter.Merging.{AreDisjoint, merge_pair-drops_first}
use uavcan.Transport.AcceptanceFilter.Accepts.{IsConfigured, compute_configuration-IsConfigured}

abbrev iface : FilterIface
iface = record { num_filters = 2; configure = λ _. true }

abbrev node : FilterNode
node = record { node_id = 5; listener_ids = 341 ∷ 1010 ∷ []; ifaces = some iface ∷ [] }

abbrev blocks : Pool (List ℕ)
blocks = record { free_list = [] ∷ [] ∷ [] ∷ []; block_size = 64; used = 0; max_used = 0 }

abbrev configurator : Configurator
configurator = record {
  configs = record { chunks = []; pool = blocks; num_items = 3 };
  filters_number = 0;
}

compute_configuration-IsConfigured_example :
    (r : IoResult) × (c' : Configurator) × (compute_configuration node true configurator
      ≡ some (r, c'))
    × (r ≡ done 0 → IsConfigured node configurator c')
compute_configuration-IsConfigured_example =
    compute_configuration-IsConfigured node true configurator (omega arith) (omega arith)
      (omega arith) (omega arith)

-- A filter for all standard frames and one for all extended frames.
abbrev standard : FilterConfig
standard = record { id = 0; mask = 2 ^ 31 }

abbrev extended : FilterConfig
extended = record { id = 2 ^ 31; mask = 2 ^ 31 }

abbrev mixed : Multiset FilterConfig
mixed = record {
  chunks = record { storage = []; items = some standard ∷ some extended ∷ none ∷ [] } ∷ [];
  pool = blocks;
  num_items = 3;
}

mixed-AreDisjoint : AreDisjoint mixed
unfolding get_by_index find find_in find_item index_predicate merge_filters
mixed-AreDisjoint zero zero lt = absurd (omega arith)
mixed-AreDisjoint zero (suc zero) lt = refl
mixed-AreDisjoint zero (suc (suc j)) lt = refl
mixed-AreDisjoint (suc zero) zero lt = absurd (omega arith)
mixed-AreDisjoint (suc zero) (suc zero) lt = absurd (omega arith)
mixed-AreDisjoint (suc zero) (suc (suc j)) lt = refl
mixed-AreDisjoint (suc (suc i)) zero lt = refl
mixed-AreDisjoint (suc (suc i)) (suc zero) lt = refl
mixed-AreDisjoint (suc (suc i)) (suc (suc j)) lt = refl

merge_pair-drops_first_example : contents (merge_pair mixed (find_best mixed)) ≡ extended ∷ []
merge_pair-drops_first_example =
    merge_pair-drops_first mixed mixed-AreDisjoint standard (extended ∷ []) refl (omega arith)

-- ===== src/Transport/Registry.antt =====
-- libuavcan/include/uavcan/transport/outgoing_transfer_registry.hpp and
-- libuavcan/src/transport/uc_outgoing_transfer_registry.cpp: the transfer ids of the transfers that
-- go out, and the overload of TransferSender::send that takes its id from there. The registry is
-- part of the dispatcher, which the sender knows as an interface: two functions read and write it.
pub mod Ids
use uavcan.Base.{
  ℕ, ◌+◌, ◌*◌, Bool, true, false, ◌&&◌, ◌||◌, List, [], ◌∷◌, Option, none, some, max, leb, ◌==◌,
  if◌then◌else◌,
}
use uavcan.Transport.Transfer.{TransferType, message_broadcast, same_type}
use uavcan.Transport.TransferId.{increment}
use uavcan.Transport.Sender
use uavcan.Transport.Sender.{Dispatcher, Sender, SendResult, failed}
use uavcan.Util.Map
use uavcan.Util.Map.{Map, Pair, Group}

-- OutgoingTransferRegistryKey.
pub record RegistryKey : Type 0 where
  pub data_type_id : ℕ
  pub transfer_type : TransferType
  pub dst : ℕ

-- OutgoingTransferRegistry::Value.
pub record Outgoing : Type 0 where
  pub deadline : ℕ
  pub tid : ℕ

abbrev pub same_registry_key : RegistryKey → RegistryKey → Bool
same_registry_key a b =
    a.data_type_id == b.data_type_id && same_type a.transfer_type b.transfer_type && a.dst == b.dst

abbrev pub Registry : Type 0
Registry = Map RegistryKey Outgoing

-- accessOrCreate; the result is the transfer id that the pointer gives, `none` for the null
-- pointer.
unfoldable pub access_or_create_tid : Registry → RegistryKey → ℕ → Option ℕ × Registry
access_or_create_tid m key new_deadline = elim (Map.access same_registry_key m key) [
  | some v ↦ (
    some v.tid,
    Map.update same_registry_key m key (record { deadline = new_deadline; tid = v.tid }),
  )
  | none ↦
      let (created, m') = Map.insert same_registry_key m key (record { deadline = 0; tid = 0 }) in
      if created
      then (
        some 0,
        Map.update same_registry_key m' key (record { deadline = new_deadline; tid = 0 }),
      )
      else (none, m')
]

-- The increment through the pointer.
unfoldable pub increment_tid : Registry → RegistryKey → Registry
increment_tid m key = elim (Map.access same_registry_key m key) [
  | some v ↦ Map.update same_registry_key m key (record v { tid = increment v.tid })
  | none ↦ m
]

abbrev publishes : ℕ → TransferType → Option (Pair RegistryKey Outgoing) → Bool
publishes dtid tt none = false
publishes dtid tt (some kv) = kv.key.data_type_id == dtid && same_type kv.key.transfer_type tt

unfoldable pub publishes_in_slots :
    ℕ → TransferType → List (Option (Pair RegistryKey Outgoing)) → Bool
publishes_in_slots dtid tt [] = false
publishes_in_slots dtid tt (kv ∷ kvs) = publishes dtid tt kv || publishes_in_slots dtid tt kvs

unfoldable pub publishes_in_groups : ℕ → TransferType → List (Group RegistryKey Outgoing) → Bool
publishes_in_groups dtid tt [] = false
publishes_in_groups dtid tt (g ∷ gs) =
    publishes_in_slots dtid tt g.kvs || publishes_in_groups dtid tt gs

-- `exists`.
unfoldable pub has_outgoing : Registry → ℕ → TransferType → Bool
has_outgoing m dtid tt = publishes_in_groups dtid tt m.groups

-- `cleanup`.
unfoldable pub cleanup_registry : ℕ → Registry → Registry
cleanup_registry ts m =
    let (m', s, removed) =
      Map.remove_where same_registry_key (λ kv s. (leb kv.value.deadline ts, s)) m false in
    if removed == 0 then m' else Map.compact same_registry_key m'

-- MinEntryLifetime, in microseconds.
abbrev pub min_entry_lifetime : ℕ
min_entry_lifetime = 2000000

abbrev pub err_memory : ℕ
err_memory = 3

module _ {S : Type 0} (d : Dispatcher S) (registry : S → Registry)
    (set_registry : Registry → S → S) where
  -- The overload of `send`.
  unfoldable pub send_next : Sender → ℕ → List ℕ → ℕ → ℕ → TransferType → ℕ → S → SendResult × S
  send_next x max_transfer_interval payload tx_deadline blocking_deadline transfer_type dst s =
      let key : RegistryKey = record {
        data_type_id = x.data_type_id;
        transfer_type = transfer_type;
        dst = dst;
      } in
      let otr_deadline = tx_deadline + max (max_transfer_interval * 2) min_entry_lifetime in
      let (tid, m) = access_or_create_tid (registry s) key otr_deadline in
      elim tid [
        | none ↦ (failed err_memory, set_registry m s)
        | some this_tid ↦
            Sender.send d x payload tx_deadline blocking_deadline transfer_type dst this_tid
              (set_registry (increment_tid m key) s)
      ]

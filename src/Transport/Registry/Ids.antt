-- ===== src/Transport/Registry/Ids.antt =====
-- uc_outgoing_transfer_registry.cpp and the overload of TransferSender::send over it: the transfer
-- ids of one key.
use uavcan.Base.{ℕ, ◌+◌, ◌*◌, ◌≡◌, refl, ◌∙◌, true, false, List, some, max, ==_self, arith}
use uavcan.Transport.Sender
use uavcan.Transport.Sender.{Dispatcher, Sender}
use uavcan.Transport.Transfer.{
  TransferType, service_response, service_request, message_broadcast, invalid, same_type,
}
use uavcan.Transport.TransferId.{increment}
use uavcan.Transport.Registry.{
  RegistryKey, Outgoing, Registry, same_registry_key, access_or_create_tid, increment_tid,
  min_entry_lifetime, send_next,
}
use uavcan.Util.Map
use uavcan.Util.Map.{Map}
use uavcan.Util.Map.Update.{IsSame, access-update}

same_type_self : (a : TransferType) → same_type a a ≡ true
same_type_self service_response = refl
same_type_self service_request = refl
same_type_self message_broadcast = refl
same_type_self invalid = refl

same_type_eq : (a b : TransferType) → same_type a b ≡ true → a ≡ b
same_type_eq service_response b h = ground arith
same_type_eq service_request b h = ground arith
same_type_eq message_broadcast b h = ground arith
same_type_eq invalid b h = ground arith

key_self : (a : RegistryKey) → same_registry_key a a ≡ true
key_self a = rw (==_self a.data_type_id, same_type_self a.transfer_type, ==_self a.dst) refl

key_eq : (a b : RegistryKey) → same_registry_key a b ≡ true → a ≡ b
key_eq a b h = let types = same_type_eq a.transfer_type b.transfer_type in ground arith

same_registry_key-IsSame : IsSame same_registry_key
same_registry_key-IsSame = (key_self, key_eq)

-- The id of a key that is there, and the increment: the key has the next id and the new deadline,
-- and every other key what it had.
access_or_create_tid-increment_tid :
    (m : Registry) (key : RegistryKey) (v : Outgoing) (new_deadline : ℕ)
    → Map.access same_registry_key m key ≡ some v
    → let (tid, m₁) = access_or_create_tid m key new_deadline in
      let m₂ = increment_tid m₁ key in
      (tid ≡ some v.tid)
      × (Map.access same_registry_key m₂ key
          ≡ some (record { deadline = new_deadline; tid = increment v.tid }))
      × ((other : RegistryKey)
          → same_registry_key other key ≡ false
          → Map.access same_registry_key m₂ other ≡ Map.access same_registry_key m other)
unfolding access_or_create_tid increment_tid
access_or_create_tid-increment_tid m key v new_deadline h =
    let e = same_registry_key-IsSame in
    let v₁ : Outgoing = record { deadline = new_deadline; tid = v.tid } in
    let v₂ : Outgoing = record { deadline = new_deadline; tid = increment v.tid } in
    let m₁ = Map.update same_registry_key m key v₁ in
    let (now, kept) = access-update same_registry_key m key v₁ v e h in
    let (then_, kept') = access-update same_registry_key m₁ key v₂ v₁ e now in
    rw (access_or_create_tid, h)
      (
        refl,
        rw (increment_tid, now) then_,
        λ other apart. rw (increment_tid, now) (kept' other apart ∙ kept other apart),
      )

-- Where the registry of the dispatcher reads back as it was set, a send with a key that the registry
-- has is a send with the transfer id that is there, from a state in whose registry the key has the
-- next id and the new deadline, and every other key what it had.
pub send_next-send :
    {S : Type 0} (d : Dispatcher S) (registry : S → Registry) (set_registry : Registry → S → S)
    (x : Sender) (interval : ℕ) (payload : List ℕ) (tx_deadline blocking_deadline : ℕ)
    (transfer_type : TransferType) (dst : ℕ) (s : S) (v : Outgoing)
    → ((m : Registry) (t : S) → registry (set_registry m t) ≡ m)
    → let key : RegistryKey = record {
      data_type_id = x.data_type_id;
      transfer_type = transfer_type;
      dst = dst;
    } in
      Map.access same_registry_key (registry s) key ≡ some v
      → (s' : S) × (send_next d registry set_registry x interval payload tx_deadline
            blocking_deadline transfer_type dst s
          ≡ Sender.send d x payload tx_deadline blocking_deadline transfer_type dst v.tid s')
        × (Map.access same_registry_key (registry s') key
            ≡ some (record {
              deadline = tx_deadline + max (interval * 2) min_entry_lifetime;
              tid = increment v.tid;
            }))
        × ((other : RegistryKey)
            → same_registry_key other key ≡ false
            → Map.access same_registry_key (registry s') other
              ≡ Map.access same_registry_key (registry s) other)
unfolding send_next
send_next-send d registry set_registry x interval payload tx_deadline blocking_deadline
      transfer_type dst s v law =
    λ h.
      let key : RegistryKey = record {
        data_type_id = x.data_type_id;
        transfer_type = transfer_type;
        dst = dst;
      } in
      let deadline = tx_deadline + max (interval * 2) min_entry_lifetime in
      let (tid, m₁) = access_or_create_tid (registry s) key deadline in
      let m₂ = increment_tid m₁ key in
      let (taken, now, kept) = access_or_create_tid-increment_tid (registry s) key v deadline h in
      (set_registry m₂ s, rw (send_next, taken) refl, rw (law m₂ s) now, rw (law m₂ s) kept)

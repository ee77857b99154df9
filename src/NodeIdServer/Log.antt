-- ===== src/NodeIdServer/Log.antt =====
-- Log of distributed/log.hpp: the Raft log in memory and in the storage. `entries` is the array of
-- Capacity entries.
pub mod View
pub mod RoundTrip
use uavcan.Base.{
  ℕ, zero, suc, ◌+◌, ◌-◌, ◌%◌, ◌^◌, Bool, true, false, not, ◌||◌, List, [], ◌∷◌, ◌++◌, Option, none,
  some, length, get_or, set, replicate, ltb, leb, ◌==◌, if◌then◌else◌,
}
use uavcan.NodeIdServer.{Status, ok, err, err_failure, err_logic, LogEntry, empty_entry, same_entry}
use uavcan.NodeIdServer.Storage.{
  codes, Backend, decimal, get_number, get_unique_id, set_and_get_back, set_and_get_back_unique_id,
}

-- NodeID::Max, and Log::Capacity.
abbrev pub max_node_id : ℕ
max_node_id = 127

abbrev pub capacity : ℕ
capacity = max_node_id + 1

pub record Log (S : Type 0) : Type 0 where
  pub storage : S
  pub entries : List LogEntry
  pub last_index : ℕ

unfoldable pub last_index_key : List ℕ
last_index_key = codes "log_last_index"

unfoldable pub make_entry_key : ℕ → List ℕ → List ℕ
make_entry_key index postfix = codes "log" ++ decimal index ++ codes "_" ++ postfix

-- getEntryAtIndex; `none` is the null pointer.
unfoldable pub get_entry : {S : Type 0} → Log S → ℕ → Option LogEntry
get_entry l index =
    if leb index l.last_index then some (get_or l.entries index empty_entry) else none

-- isOtherLogUpToDate.
unfoldable pub is_other_log_up_to_date : {S : Type 0} → Log S → ℕ → ℕ → Bool
is_other_log_up_to_date l other_last_index other_last_term =
    let own = get_or l.entries l.last_index empty_entry in
    if not (other_last_term == own.term)
    then ltb own.term other_last_term
    else leb l.last_index other_last_index

module _ {S : Type 0} (b : Backend S) where
  -- readEntryFromStorage. Where it fails, what it has already put into the entry is not kept: a log
  -- whose initialisation failed is not used.
  unfoldable pub read_entry : S → ℕ → Option LogEntry
  read_entry s index = elim (get_number b s (make_entry_key index (codes "term"))) [
    | none ↦ none
    | some term ↦ elim (get_unique_id b s (make_entry_key index (codes "unique_id"))) [
      | none ↦ none
      | some unique_id ↦ elim (get_number b s (make_entry_key index (codes "node_id"))) [
        | none ↦ none
        | some node_id ↦
            if ltb max_node_id node_id
            then none
            else some (record { term = term; unique_id = unique_id; node_id = node_id % 2 ^ 8 })
      ]
    ]
  ]

  -- writeEntryToStorage.
  unfoldable pub write_entry : S → ℕ → LogEntry → Status × S
  write_entry s index entry =
      let (term, s1) = set_and_get_back b s (make_entry_key index (codes "term")) entry.term in
      elim term [
        | none ↦ (err err_failure, s1)
        | some term ↦
            let (unique_id, s2) =
              set_and_get_back_unique_id b s1 (make_entry_key index (codes "unique_id"))
                entry.unique_id in
            elim unique_id [
              | none ↦ (err err_failure, s2)
              | some unique_id ↦
                  let (node_id, s3) =
                    set_and_get_back b s2 (make_entry_key index (codes "node_id")) entry.node_id in
                  elim node_id [
                    | none ↦ (err err_failure, s3)
                    | some node_id ↦
                        let temp : LogEntry = record {
                          term = term;
                          unique_id = unique_id;
                          node_id = node_id % 2 ^ 8;
                        } in
                        (if same_entry temp entry then ok else err err_failure, s3)
                  ]
            ]
      ]

  -- The write of the last index, and whether it is read back as it was written.
  unfoldable pub store_last_index : S → ℕ → Status × S
  store_last_index s index =
      let (stored, s') = set_and_get_back b s last_index_key index in
      elim stored [
        | none ↦ (err err_failure, s')
        | some stored ↦ (if stored == index then ok else err err_failure, s')
      ]

  -- initEmptyLogStorage; the last index is written after the zero entry.
  unfoldable pub init_empty : Log S → Status × Log S
  init_empty l =
      let l0 = record l { entries = set l.entries 0 empty_entry } in
      let (res, s) = write_entry l0.storage 0 empty_entry in
      elim res [
        | err e ↦ (err e, record l0 { storage = s })
        | ok ↦
            let (res', s') = store_last_index s 0 in
            (res', record l0 { storage = s'; last_index = 0 })
      ]

  -- The loop of `init` over the indices from `index` on, `count` of them.
  unfoldable pub restore : ℕ → ℕ → S → List LogEntry → Option (List LogEntry)
  restore zero index s entries = some entries
  restore (suc count) index s entries = elim (read_entry s index) [
    | none ↦ none
    | some e ↦ restore count (index + 1) s (set entries index e)
  ]

  unfoldable pub init : Log S → Status × Log S
  init l = elim (get_number b l.storage last_index_key) [
    | none ↦
        if length (b.get l.storage last_index_key) == 0 then init_empty l else (err err_failure, l)
    | some value ↦
        if leb capacity value
        then (err err_failure, l)
        else (let restored = record l { last_index = value % 2 ^ 8 } in
            elim (restore (value % 2 ^ 8 + 1) 0 l.storage l.entries) [
              | none ↦ (err err_failure, restored)
              | some entries ↦ (ok, record restored { entries = entries })
            ])
  ]

  unfoldable pub append : Log S → LogEntry → Status × Log S
  append l entry =
      let next = l.last_index + 1 in
      if leb capacity next
      then (err err_logic, l)
      else (let (res, s) = write_entry l.storage (next % 2 ^ 8) entry in
          elim res [
            | err e ↦ (err e, record l { storage = s })
            | ok ↦
                let (res', s') = store_last_index s next in
                elim res' [
                  | err e ↦ (err e, record l { storage = s' })
                  | ok ↦ (
                    ok,
                    record {
                      storage = s';
                      entries = set l.entries next entry;
                      last_index = next % 2 ^ 8;
                    },
                  )
                ]
          ])

  -- removeEntriesWhereIndexGreaterOrEqual; the entries stay in the array and in the storage.
  unfoldable pub remove_from : Log S → ℕ → Status × Log S
  remove_from l index =
      if leb capacity index || index == 0
      then (err err_logic, l)
      else if index - 1 == l.last_index
      then (ok, l)
      else (let (res, s) = store_last_index l.storage (index - 1) in
          elim res [
            | err e ↦ (err e, record l { storage = s })
            | ok ↦ (ok, record l { storage = s; last_index = (index - 1) % 2 ^ 8 })
          ])

  -- removeEntriesWhereIndexGreater.
  unfoldable pub remove_behind : Log S → ℕ → Status × Log S
  remove_behind l index = remove_from l ((index + 1) % 2 ^ 8)

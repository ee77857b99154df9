-- ===== src/NodeIdServer/Persistent.antt =====
-- PersistentState of distributed/persistent_state.hpp: the term, the vote and the log. Node id 0
-- stands for no vote.
pub mod Updates
use uavcan.Base.{
  ℕ, ◌-◌, ◌%◌, ◌^◌, Bool, not, ◌&&◌, List, [], ◌∷◌, Option, none, some, length, get_or, ltb, leb,
  ◌==◌, if◌then◌else◌,
}
use uavcan.Transport.Transfer.{is_unicast, node_id_is_valid}
use uavcan.NodeIdServer.{
  Status, ok, err, err_failure, err_invalid_param, err_logic, err_invalid_configuration, LogEntry,
  empty_entry,
}
use uavcan.NodeIdServer.Storage.{codes, Backend, get_number, set_and_get_back}
use uavcan.NodeIdServer.Log
use uavcan.NodeIdServer.Log.{Log, max_node_id, get_entry}

pub record Persistent (S : Type 0) : Type 0 where
  pub current_term : ℕ
  pub voted_for : ℕ
  pub log : Log S

unfoldable pub current_term_key : List ℕ
current_term_key = codes "current_term"

unfoldable pub voted_for_key : List ℕ
voted_for_key = codes "voted_for"

abbrev pub is_voted_for_set : {S : Type 0} → Persistent S → Bool
is_voted_for_set p = is_unicast p.voted_for

abbrev with_storage : {S : Type 0} → Persistent S → S → Persistent S
with_storage p s = record p { log = record p.log { storage = s } }

module _ {S : Type 0} (b : Backend S) where
  -- A write whose value has to be read back as it was written, as all the setters do it.
  unfoldable pub store : S → List ℕ → ℕ → Status × S
  store s key value =
      let (stored, s') = set_and_get_back b s key value in
      elim stored [
        | none ↦ (err err_failure, s')
        | some stored ↦ (if stored == value then ok else err err_failure, s')
      ]

  unfoldable pub set_current_term : Persistent S → ℕ → Status × Persistent S
  set_current_term p term =
      if ltb term p.current_term
      then (err err_invalid_param, p)
      else (let (res, s) = store p.log.storage current_term_key term in
          elim res [
            | err e ↦ (err e, with_storage p s)
            | ok ↦ (ok, record (with_storage p s) { current_term = term })
          ])

  unfoldable pub set_voted_for : Persistent S → ℕ → Status × Persistent S
  set_voted_for p node_id =
      if not (node_id_is_valid node_id)
      then (err err_invalid_param, p)
      else (let (res, s) = store p.log.storage voted_for_key node_id in
          elim res [
            | err e ↦ (err e, with_storage p s)
            | ok ↦ (ok, record (with_storage p s) { voted_for = node_id })
          ])

  unfoldable pub reset_voted_for : Persistent S → Status × Persistent S
  reset_voted_for p = set_voted_for p 0

  -- The part of `init` that reads or initialises currentTerm. On a first initialisation the member
  -- is 0 before the write, and has the value read back after it.
  unfoldable pub init_term : Persistent S → Bool → Status × Persistent S
  init_term p log_is_empty =
      if length (b.get p.log.storage current_term_key) == 0 && log_is_empty
      then (let (stored, s) = set_and_get_back b p.log.storage current_term_key 0 in
          let p' = record (with_storage p s) { current_term = 0 } in
          elim stored [
            | none ↦ (err err_failure, p')
            | some stored ↦
                (if stored == 0 then ok else err err_failure, record p' { current_term = stored })
          ])
      else elim (get_number b p.log.storage current_term_key) [
        | none ↦ (err err_failure, p)
        | some term ↦ (ok, record p { current_term = term })
      ]

  -- The part that reads or initialises votedFor.
  unfoldable pub init_vote : Persistent S → Bool → Status × Persistent S
  init_vote p log_is_empty =
      if length (b.get p.log.storage voted_for_key) == 0 && log_is_empty && p.current_term == 0
      then (let (res, s) = store p.log.storage voted_for_key 0 in
          (res, record (with_storage p s) { voted_for = 0 }))
      else elim (get_number b p.log.storage voted_for_key) [
        | none ↦ (err err_failure, p)
        | some stored ↦
            if ltb max_node_id stored
            then (err err_invalid_configuration, p)
            else (ok, record p { voted_for = stored % 2 ^ 8 })
      ]

  unfoldable pub init : Persistent S → Status × Persistent S
  init p =
      let (res, log) = Log.init b p.log in
      let p0 = record p { log = log } in
      elim res [
        | err e ↦ (err e, p0)
        | ok ↦ elim (get_entry log log.last_index) [
          | none ↦ (err err_logic, p0)
          | some last_entry ↦
              let log_is_empty = log.last_index == 0 && last_entry.term == 0 in
              let (res', p1) = init_term p0 log_is_empty in
              elim res' [
                | err e ↦ (err e, p1)
                | ok ↦
                    if ltb p1.current_term last_entry.term
                    then (err err_logic, p1)
                    else init_vote p1 log_is_empty
              ]
        ]
      ]

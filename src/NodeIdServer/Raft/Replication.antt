-- ===== src/NodeIdServer/Raft/Replication.antt =====
-- raft_core.hpp, handleAppendEntriesRequest: what a request does to the log, as a list of entries.
pub mod Accepted
use uavcan.Base.{
  ℕ, ◌+◌, ◌%◌, ◌^◌, ◌≤◌, ◌<◌, ◌≡◌, refl, ◌≢◌, ◌⊎◌, inl, inr, sym, ap, ◌∙◌, subst, Bool, true, false,
  not, List, [], ◌∷◌, ◌++◌, Option, none, some, get_or, take, length, length-take, take_all, min,
  ltb, leb, ◌==◌, ==_iff, Bool-cases, arith,
}
use mathlib.Core.List.{append_assoc, append-nil}
use uavcan.NodeIdServer.{Status, ok, err, LogEntry, empty_entry, Status-cases}
use uavcan.NodeIdServer.Storage.{Backend}
use uavcan.NodeIdServer.Log.{Log, capacity, get_entry, append, remove_from, remove_behind}
use uavcan.NodeIdServer.Log.View.{IsValid, view, view_changed, append-view, remove_from-view}
use uavcan.NodeIdServer.Persistent.{set_current_term, set_voted_for, reset_voted_for}
use uavcan.NodeIdServer.Raft.{
  Raft, Config, Env, follower, AppendRequest, AppendResponse, adopt_term, handle_update_error,
  register_activity, switch_state,
}
use uavcan.NodeIdServer.Raft.Requests.{
  with_log, follow_leader, serve_leader, handle_append_entries_request, admit, append_all,
  cut_behind, replace_entries, accept_entries,
}

-- What a successful answer says of the log before and after the request.
abbrev pub IsReplicated : {S : Type 0} → Log S → Log S → AppendRequest → Type 0
IsReplicated l l' request =
    (request.prev_log_index ≤ l.last_index)
    × ((get_or l.entries request.prev_log_index empty_entry).term ≡ request.prev_log_term)
    × (view l' ≡ take (request.prev_log_index + 1) (view l) ++ request.entries)
    × IsValid l'

-- It concerns the entries and the last index alone, of the log before.
pub same_entries :
    {S : Type 0}
    → (l l₁ l' : Log S) (request : AppendRequest)
    → (l₁.entries ≡ l.entries) × (l₁.last_index ≡ l.last_index)
    → IsReplicated l₁ l' request
    → IsReplicated l l' request
same_entries l l₁ l' request (es, i) (le, match, whole, valid) = (
  omega arith,
  ap (λ xs. (get_or xs request.prev_log_index empty_entry).term) (sym es) ∙ match,
  whole
      ∙ ap (λ v. take (request.prev_log_index + 1) v ++ request.entries)
          (view_changed l₁ (l.last_index + 1) l.entries (omega arith) es),
  valid,
)

module _ {S : Type 0} (b : Backend S) where
  append_all-view :
      (l : Log S) (entries : List LogEntry)
      → IsValid l
      → let (res, l') = append_all b l entries in
        IsValid l' × (res ≡ ok → view l' ≡ view l ++ entries)
  unfolding append_all
  append_all-view l [] h = (h, λ e. sym (append-nil (view l)))
  append_all-view l (x ∷ entries) h =
      let l1 = (append b l x).1 in
      let (valid, cases) = append-view b l x h in
      elim (Status-cases (append b l x).0) [
        | inl e ↦
            let (valid', whole) = append_all-view l1 entries valid in
            let first : view l1 ≡ view l ++ (x ∷ []) = ground arith in
            rw (append_all, e)
              (
                valid',
                λ done.
                    whole done
                    ∙ ap (λ v. v ++ entries) first
                    ∙ append_assoc (view l) (x ∷ []) entries,
              )
        | inr (n, e) ↦ rw (append_all, e) (valid, λ done. absurd (ground arith))
      ]

  cut_behind-view :
      (l : Log S) (prev : ℕ)
      → IsValid l
      → prev ≤ l.last_index
      → let (res, l') = cut_behind b l prev in
        IsValid l' × (res ≡ ok → view l' ≡ take (prev + 1) (view l))
  unfolding cut_behind remove_behind
  cut_behind-view l prev h le =
      let byte : (prev + 1) % 2 ^ 8 ≡ prev + 1 = omega arith in
      let l' = (remove_from b l ((prev + 1) % 2 ^ 8)).1 in
      let (valid, cases) = remove_from-view b l ((prev + 1) % 2 ^ 8) h (omega arith) in
      elim (Bool-cases (prev == l.last_index)) [
        | inl t ↦
            let same = (==_iff prev l.last_index).0 t in
            let size : length (view l) ≤ prev + 1 =
              omega (arith, length-take (l.last_index + 1) l.entries) in
            rw (cut_behind, t) (h, λ done. sym (take_all (prev + 1) (view l) size))
        | inr f ↦
            rw (cut_behind, f)
              (
                valid,
                λ done.
                    let cut : view l' ≡ take ((prev + 1) % 2 ^ 8) (view l) = ground arith in
                    cut ∙ ap (λ n. take n (view l)) byte,
              )
      ]

  replace_entries-view :
      (l : Log S) (prev : ℕ) (entries : List LogEntry)
      → IsValid l
      → prev ≤ l.last_index
      → let (res, l') = replace_entries b l prev entries in
        IsValid l' × (res ≡ ok → view l' ≡ take (prev + 1) (view l) ++ entries)
  unfolding replace_entries
  replace_entries-view l prev entries h le =
      let l1 = (cut_behind b l prev).1 in
      let (valid, cut) = cut_behind-view l prev h le in
      let (valid', whole) = append_all-view l1 entries valid in
      elim (Status-cases (cut_behind b l prev).0) [
        | inl e ↦
            rw (replace_entries, e) (valid', λ done. whole done ∙ ap (λ v. v ++ entries) (cut e))
        | inr (n, e) ↦ rw (replace_entries, e) (valid, λ done. absurd (ground arith))
      ]

  accept_entries_success :
      (r : Raft S) (request : AppendRequest) (term : ℕ)
      → let (response, r') = accept_entries b r request in
        response ≡ some (record { term = term; success = true })
        → let l = r.persistent.log in
          let (res, l') = replace_entries b l request.prev_log_index request.entries in
          (request.prev_log_index ≤ l.last_index)
          × ((get_or l.entries request.prev_log_index empty_entry).term ≡ request.prev_log_term)
          × (term ≡ r.persistent.current_term)
          × (res ≡ ok)
          × (r'.persistent.log ≡ l')
          × (r'.server_state ≡ r.server_state)
  unfolding accept_entries get_entry
  accept_entries_success r request term = λ success. ground arith

  pub accept_entries-view :
      (r : Raft S) (request : AppendRequest) (term : ℕ)
      → IsValid r.persistent.log
      → let (response, r') = accept_entries b r request in
        response ≡ some (record { term = term; success = true })
        → IsReplicated r.persistent.log r'.persistent.log request
          × (r'.server_state ≡ r.server_state)
  accept_entries-view r request term h = λ success.
      let l = r.persistent.log in
      let prev = request.prev_log_index in
      let (le, match, same, done, log, state) = accept_entries_success r request term success in
      let (valid, whole) = replace_entries-view l prev request.entries h le in
      ((le, match, ap view log ∙ whole done, subst (λ l'. IsValid l') (sym log) valid), state)

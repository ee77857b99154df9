-- ===== src/Transport/TransferBuffer/Entry/Refines.antt =====
-- The chain of blocks implements one growing array of at most max_size_ bytes.
use uavcan.Base.{
  ℕ, ◌+◌, ◌-◌, ◌≤◌, ◌≡◌, refl, sym, ap, ap₂, ◌∙◌, arith, List, [], ◌++◌, length, take, drop, max,
  ◌⊎◌, inl, inr, leb, Bool-cases, copy_at, copy_at_nil, copy_at-append, length-copy_at,
  take-copy_at_end, length-append, length-take, length-drop, take_all, length-eq_zero, drop_all,
  drop-take, take-take, take_nil, take-append,
}
use mathlib.Core.List.{append-nil}
use uavcan.Memory.{Pool}
use uavcan.Transport.TransferBuffer.{clip, clip_form}
use uavcan.Transport.TransferBuffer.Entry.{Entry, read, write, write_blocks, append_blocks}
use uavcan.Transport.TransferBuffer.Entry.Chain.{flatten, flatten-append, write_blocks-Wrote}
use uavcan.Transport.TransferBuffer.Entry.Append.{append_blocks-Appended}
use uavcan.Transport.TransferBuffer.Entry.Reads.{read_blocks_form}

-- The array that the entry stands for: what can be read.
pub contents : Entry → List ℕ
contents e = take e.max_write_pos (flatten e.blocks)

pub record IsValid (e : Entry) : Type 0 where
  pub stored : e.max_write_pos ≤ length (flatten e.blocks)
  pub fits : e.max_write_pos ≤ e.max_size

pub length-contents : (e : Entry) → IsValid e → length (contents e) ≡ e.max_write_pos
unfolding contents
length-contents e v = omega (arith, length-take e.max_write_pos (flatten e.blocks), v.stored)

-- A read gives what the array holds between the offset and the end or the length asked for.
pub read-contents :
    (e : Entry) (offset len : ℕ)
    → IsValid e
    → read e offset len ≡ take len (drop offset (contents e))
unfolding read contents
read-contents e offset len v = elim (Bool-cases (leb e.max_write_pos offset)) [
  | inl beyond ↦
      let h : e.max_write_pos ≤ offset = ground arith in
      let rest =
        drop_all offset (take e.max_write_pos (flatten e.blocks))
          (omega (arith, length-take e.max_write_pos (flatten e.blocks))) in
      rw beyond (sym (ap (take len) rest ∙ take_nil len))
  | inr inside ↦
      let h : offset ≤ e.max_write_pos = ground arith in
      let n = clip e.max_write_pos offset len in
      let none_skipped : offset - 0 ≡ offset = omega arith in
      rw inside (
        read_blocks_form e.blocks offset 0 offset n none_skipped
        ∙ ap (λ t. take t (drop offset (flatten e.blocks))) (clip_form e.max_write_pos offset len h)
        ∙ sym (
            ap (take len) (drop-take offset e.max_write_pos (flatten e.blocks))
            ∙ take-take len (e.max_write_pos - offset) (drop offset (flatten e.blocks))))
]

-- Both loops of `write` together write into the array of the old and the new blocks.
both_loops :
    (blocks : List (List ℕ)) (p : Pool (List ℕ)) (offset : ℕ) (kept : List ℕ)
    → let there = write_blocks blocks offset 0 kept in
      let r = append_blocks (length p.free_list) p offset there.total there.input in
      (taken : List (List ℕ)) × (p.free_list ≡ taken ++ r.1.free_list)
      × (flatten (there.blocks ++ r.0.blocks)
          ≡ copy_at offset kept (flatten blocks ++ flatten taken))
      × (length r.0.input
          ≡ length kept - (length (flatten blocks) + length (flatten taken) - offset))
      × ((length r.0.input ≡ 0) ⊎ (r.1.free_list ≡ []))
both_loops blocks p offset kept =
    let there = write_blocks blocks offset 0 kept in
    let none_skipped : offset - 0 ≡ offset = omega arith in
    let w = write_blocks-Wrote blocks offset 0 offset kept none_skipped in
    let k = offset - there.total in
    let a =
      append_blocks-Appended (length p.free_list) p offset there.total k there.input (omega arith)
        refl in
    let r = append_blocks (length p.free_list) p offset there.total there.input in
    let flat = flatten blocks in
    let more = flatten a.taken in
    let second : copy_at k there.input more ≡ copy_at (offset - length flat) there.input more =
      elim w.2 [
        | inl done ↦
            ap (λ i. copy_at k i more) done
            ∙ copy_at_nil k more
            ∙ sym (
                ap (λ i. copy_at (offset - length flat) i more) done
                ∙ copy_at_nil (offset - length flat) more)
        | inr t ↦ ap (λ j. copy_at j there.input more) (omega (arith, t))
      ] in
    let count : (length r.0.input ≡ length there.input - (length more - k))
        × (length there.input ≡ length kept - (length flat - offset)) =
      (
        ap length a.left_over ∙ length-drop (length more - k) there.input,
        ap length w.1 ∙ length-drop (length flat - offset) kept,
      ) in
    (
      a.taken,
      a.pool_split,
      flatten-append there.blocks r.0.blocks
          ∙ ap₂ ◌++◌ w.0 (a.wrote ∙ second ∙ ap (λ i. copy_at (offset - length flat) i more) w.1)
          ∙ sym (copy_at-append offset kept flat more),
      elim w.2 [
        | inl done ↦ omega (arith, count, ap length done)
        | inr t ↦ omega (arith, count, t)
      ],
      elim a.used_up [ inl x ↦ inl (ap length x) | inr x ↦ inr x ],
    )

-- The bytes that the entry's blocks and the pool's free blocks hold together.
unfoldable pub room : Entry → Pool (List ℕ) → ℕ
room e p = length (flatten e.blocks) + length (flatten p.free_list)

-- What an append leaves behind.
pub record IsAppended (e : Entry) (p : Pool (List ℕ)) (input : List ℕ)
    (r : Entry × Pool (List ℕ) × ℕ) : Type 0 where
  pub valid : IsValid r.0
  pub extended : contents r.0 ≡ contents e ++ input
  pub all_written : r.2 ≡ length input
  pub same_size : r.0.max_size ≡ e.max_size
  pub same_key : r.0.key ≡ e.key
  pub same_room : room r.0 r.1 ≡ room e p

append_beyond :
    (e : Entry) (p : Pool (List ℕ)) (input : List ℕ)
    → IsValid e
    → length input ≡ 0
    → IsAppended e p input (e, p, 0)
append_beyond e p input v none =
    let nothing : input ≡ [] = length-eq_zero input (omega arith) in
    record {
      valid = v;
      extended = sym (ap (◌++◌ (contents e)) nothing ∙ append-nil (contents e));
      all_written = omega arith;
      same_size = refl;
      same_key = refl;
      same_room = refl;
    }

append_within :
    (e : Entry) (p p' : Pool (List ℕ)) (offset n left : ℕ) (input kept : List ℕ)
    (blocks taken : List (List ℕ))
    → IsValid e
    → offset ≡ e.max_write_pos
    → offset + length input ≤ e.max_size
    → offset + length input ≤ room e p
    → n ≡ length input
    → kept ≡ input
    → p.free_list ≡ taken ++ p'.free_list
    → flatten blocks ≡ copy_at offset kept (flatten e.blocks ++ flatten taken)
    → left ≡ length kept - (length (flatten e.blocks) + length (flatten taken) - offset)
    → (left ≡ 0) ⊎ (p'.free_list ≡ [])
    → IsAppended e p input (
      record e { blocks = blocks; max_write_pos = max (offset + (n - left)) e.max_write_pos },
      p',
      n - left,
    )
unfolding room contents
append_within e p p' offset n left input kept blocks taken v at_end fits enough size same split
      wrote over stop =
    let whole = flatten e.blocks ++ flatten taken in
    let whole-len : length whole ≡ length (flatten e.blocks) + length (flatten taken) =
      length-append (flatten e.blocks) (flatten taken) in
    let free-len : length (flatten p.free_list)
        ≡ length (flatten taken) + length (flatten p'.free_list) =
      ap (λ l. length (flatten l)) split
      ∙ ap length (flatten-append taken p'.free_list)
      ∙ length-append (flatten taken) (flatten p'.free_list) in
    let kept-len : length kept ≡ length input = ap length same in
    let nothing_left : left ≡ 0 = elim stop [
      | inl z ↦ z
      | inr empty ↦
          let none_free : length (flatten p'.free_list) ≡ 0 =
            ap (λ l. length (flatten l)) empty ∙ unfold flatten in refl in
          omega (arith, over, free-len, none_free, kept-len)
    ] in
    let new-len : length (flatten blocks) ≡ length whole =
      ap length wrote ∙ length-copy_at offset kept whole in
    let bound : offset + length kept ≤ length whole =
      omega (arith, over, nothing_left, whole-len, kept-len, v.stored) in
    let end : max (offset + (n - left)) e.max_write_pos ≡ offset + length kept =
      omega (arith, nothing_left, kept-len) in
    record {
      valid = record {
        stored = omega (arith, end, new-len, bound);
        fits = omega (arith, end, kept-len);
      };
      extended =
          ap (λ m. take m (flatten blocks)) end
          ∙ ap (take (offset + length kept)) wrote
          ∙ take-copy_at_end offset (offset + length kept) kept whole refl bound
          ∙ ap₂ ◌++◌
              (ap (λ m. take m whole) at_end
                ∙ take-append e.max_write_pos (flatten e.blocks) (flatten taken)
                ∙ ap (λ m. take e.max_write_pos (flatten e.blocks) ++ take m (flatten taken))
                    (let z : e.max_write_pos - length (flatten e.blocks) ≡ 0 =
                        omega (arith, v.stored) in
                      z)
                ∙ append-nil (take e.max_write_pos (flatten e.blocks)))
              same;
      all_written = omega (arith, nothing_left);
      same_size = refl;
      same_key = refl;
      same_room = omega (arith, new-len, whole-len, free-len);
    }

-- A write at the write position that fits max_size_ and for which the pool has room appends all of
-- the input to the array and changes nothing else.
pub write-IsAppended :
    (e : Entry) (p : Pool (List ℕ)) (offset : ℕ) (input : List ℕ)
    → IsValid e
    → offset ≡ e.max_write_pos
    → offset + length input ≤ e.max_size
    → offset + length input ≤ room e p
    → IsAppended e p input (write e p offset input)
unfolding write
write-IsAppended e p offset input v at_end fits enough = elim (Bool-cases (leb e.max_size offset)) [
  | inl beyond ↦
      let full : e.max_size ≤ offset = ground arith in
      rw beyond (append_beyond e p input v (omega arith))
  | inr inside ↦
      let size_left : offset ≤ e.max_size = ground arith in
      let n = clip e.max_size offset (length input) in
      let whole_len : n ≡ length input =
        clip_form e.max_size offset (length input) size_left ∙ omega arith in
      let whole : take n input ≡ input = take_all n input (omega arith) in
      let loops = both_loops e.blocks p offset (take n input) in
      let (taken, split, wrote, over, stop) = loops in
      rw inside (
        append_within e p _ offset n _ input (take n input) _ taken v at_end fits enough whole_len
          whole split wrote over stop)
]

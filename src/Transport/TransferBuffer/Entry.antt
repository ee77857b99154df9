-- ===== src/Transport/TransferBuffer/Entry.antt =====
-- TransferBufferManagerEntry: a chain of blocks from the pool. A block is its Block::data; `storage`
-- is the pool block that holds the entry itself. The pool's blocks have all passed
-- IsDynamicallyAllocatable, so each allocation asks for its block size.
pub mod Chain
pub mod Append
pub mod Reads
pub mod Refines
use uavcan.Base.{
  ℕ, zero, suc, ◌+◌, ◌-◌, List, [], ◌∷◌, ◌++◌, Option, none, some, length, max, ltb, leb, ◌==◌,
  take, Bool, ◌&&◌, not, if◌then◌else◌,
}
use uavcan.Memory.{Pool, allocate, deallocate}
use uavcan.Transport.Transfer.{TransferType, service_response, same_type, node_id_is_valid}
use uavcan.Transport.TransferBuffer.{clip}

-- TransferBufferManagerKey.
pub record Key : Type 0 where
  pub node_id : ℕ
  pub transfer_type : TransferType

abbrev pub empty_key : Key
empty_key = record { node_id = 0xff; transfer_type = service_response }

abbrev pub key_is_empty : Key → Bool
key_is_empty k = not (node_id_is_valid k.node_id)

abbrev pub same_key : Key → Key → Bool
same_key a b = a.node_id == b.node_id && same_type a.transfer_type b.transfer_type

pub record Entry : Type 0 where
  pub storage : List ℕ
  pub blocks : List (List ℕ)
  pub max_write_pos : ℕ
  pub max_size : ℕ
  pub key : Key

-- The state of Block::read: the bytes given out, total_offset and left_to_read.
pub record Reading : Type 0 where
  pub out : List ℕ
  pub total : ℕ
  pub left : ℕ

-- Block::read, from index i on.
pub block_read : List ℕ → ℕ → ℕ → ℕ → Reading
block_read [] target total left = record { out = []; total = total; left = left }
block_read (d ∷ ds) target total zero = record { out = []; total = total; left = zero }
block_read (d ∷ ds) target total (suc left) =
    let hit = leb target total in
    let r = block_read ds target (total + 1) (if hit then left else suc left) in
    record r { out = if hit then d ∷ r.out else r.out }

-- The state of Block::write: the block, total_offset and the input that is left.
pub record Writing : Type 0 where
  pub block : List ℕ
  pub total : ℕ
  pub input : List ℕ

pub block_write : List ℕ → ℕ → ℕ → List ℕ → Writing
block_write [] target total input = record { block = []; total = total; input = input }
block_write (d ∷ ds) target total [] = record { block = d ∷ ds; total = total; input = [] }
block_write (d ∷ ds) target total (x ∷ xs) =
    let hit = leb target total in
    let w = block_write ds target (total + 1) (if hit then xs else x ∷ xs) in
    record w { block = (if hit then x else d) ∷ w.block }

-- The loop of `read` over the chain.
pub read_blocks : List (List ℕ) → ℕ → ℕ → ℕ → List ℕ
read_blocks [] target total left = []
read_blocks (b ∷ bs) target total left =
    let r = block_read b target total left in
    let rest = read_blocks bs target r.total r.left in if r.left == 0 then r.out else r.out ++ rest

pub read : Entry → ℕ → ℕ → List ℕ
read e offset len =
    if leb e.max_write_pos offset
    then []
    else read_blocks e.blocks offset 0 (clip e.max_write_pos offset len)

-- The two loops of `write`: the blocks, total_offset, the input left, and the pool.
pub record Chained : Type 0 where
  pub blocks : List (List ℕ)
  pub total : ℕ
  pub input : List ℕ

pub write_blocks : List (List ℕ) → ℕ → ℕ → List ℕ → Chained
write_blocks [] target total input = record { blocks = []; total = total; input = input }
write_blocks (b ∷ bs) target total input =
    let w = block_write b target total input in
    let rest = write_blocks bs target w.total w.input in
    elim w.input [
      | [] ↦ record { blocks = w.block ∷ bs; total = w.total; input = [] }
      | x ∷ xs ↦ record rest { blocks = w.block ∷ rest.blocks }
    ]

-- `fuel` is the number of free blocks, so where it runs out the pool is empty and the loop breaks.
pub append_blocks : ℕ → Pool (List ℕ) → ℕ → ℕ → List ℕ → Chained × Pool (List ℕ)
append_blocks fuel p target total [] = (record { blocks = []; total = total; input = [] }, p)
append_blocks zero p target total (x ∷ xs) =
    (record { blocks = []; total = total; input = x ∷ xs }, p)
append_blocks (suc fuel) p target total (x ∷ xs) =
    let (got, p') = allocate p p.block_size in
    elim got [
      | none ↦ (record { blocks = []; total = total; input = x ∷ xs }, p')
      | some b ↦
          let w = block_write b target total (x ∷ xs) in
          let (rest, p'') = append_blocks fuel p' target w.total w.input in
          (record rest { blocks = w.block ∷ rest.blocks }, p'')
    ]

-- `write`: the entry, the pool and the number of bytes written.
pub write : Entry → Pool (List ℕ) → ℕ → List ℕ → Entry × Pool (List ℕ) × ℕ
write e p offset input =
    if leb e.max_size offset
    then (e, p, 0)
    else (let len = clip e.max_size offset (length input) in
        let there = write_blocks e.blocks offset 0 (take len input) in
        let (new, p') = append_blocks (length p.free_list) p offset there.total there.input in
        let actually_written = len - length new.input in
        (
          record e {
            blocks = there.blocks ++ new.blocks;
            max_write_pos = max (offset + actually_written) e.max_write_pos;
          },
          p',
          actually_written,
        ))

-- The loop of `reset`: the blocks go back to the pool, first block first.
unfoldable pub free_blocks : List (List ℕ) → Pool (List ℕ) → Pool (List ℕ)
free_blocks [] p = p
free_blocks (b ∷ bs) p = free_blocks bs (deallocate p b)

unfoldable pub reset : Entry → Key → Pool (List ℕ) → Entry × Pool (List ℕ)
reset e key p = (record e { blocks = []; max_write_pos = 0; key = key }, free_blocks e.blocks p)

-- `instantiate` and `destroy`.
unfoldable pub instantiate : Pool (List ℕ) → ℕ → Option Entry × Pool (List ℕ)
instantiate p max_size =
    let (got, p') = allocate p p.block_size in
    elim got [
      | none ↦ (none, p')
      | some b ↦ (
        some (record {
          storage = b;
          blocks = [];
          max_write_pos = 0;
          max_size = max_size;
          key = empty_key;
        }),
        p',
      )
    ]

unfoldable pub destroy : Entry → Pool (List ℕ) → Pool (List ℕ)
destroy e p = deallocate (reset e empty_key p).1 e.storage

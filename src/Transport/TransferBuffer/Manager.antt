-- ===== src/Transport/TransferBuffer/Manager.antt =====
-- TransferBufferManager: the buffers that a listener assembles transfers in, newest first, each
-- found by the key of its sender and transfer type. A `none` stands for the null pointer.
pub mod Keys
pub mod Through
use uavcan.Base.{ℕ, Bool, List, [], ◌∷◌, Option, none, some, length, ◌==◌, if◌then◌else◌}
use uavcan.Memory.{Pool}
use uavcan.Transport.TransferBuffer.Entry
use uavcan.Transport.TransferBuffer.Entry.{Entry, Key, key_is_empty, same_key, instantiate, destroy}

pub record Manager : Type 0 where
  pub buffers : List Entry
  pub pool : Pool (List ℕ)
  pub max_buf_size : ℕ

unfoldable pub find_first : List Entry → Key → Option Entry
find_first [] key = none
find_first (b ∷ bs) key = if same_key b.key key then some b else find_first bs key

-- LinkedListRoot::remove of the entry that find_first gives.
pub unlink_first : List Entry → Key → List Entry
unlink_first [] key = []
unlink_first (b ∷ bs) key = if same_key b.key key then bs else b ∷ unlink_first bs key

unfoldable pub access : Manager → Key → Option Entry
access m key = if key_is_empty key then none else find_first m.buffers key

unfoldable pub remove : Manager → Key → Manager
remove m key = elim (find_first m.buffers key) [
  | none ↦ m
  | some e ↦ record m { buffers = unlink_first m.buffers key; pool = destroy e m.pool }
]

-- create, with the new buffer, which is the first of the list.
unfoldable pub create : Manager → Key → Option Entry × Manager
create m key =
    if key_is_empty key
    then (none, m)
    else (let cleared = remove m key in
        let (made, p) = instantiate cleared.pool cleared.max_buf_size in
        elim made [
          | none ↦ (none, record cleared { pool = p })
          | some e ↦
              let (fresh, p') = Entry.reset e key p in
              (some fresh, record cleared { buffers = fresh ∷ cleared.buffers; pool = p' })
        ])

-- A write through the pointer that `access` or `create` gave: the list's entry of that key changes.
pub replace_first : List Entry → Entry → List Entry
replace_first [] e = []
replace_first (b ∷ bs) e = if same_key b.key e.key then e ∷ bs else b ∷ replace_first bs e

unfoldable pub write_through : Manager → Entry → ℕ → List ℕ → Manager × ℕ
write_through m e offset input =
    let (e', p, n) = Entry.write e m.pool offset input in
    (record m { buffers = replace_first m.buffers e'; pool = p }, n)

unfoldable pub get_num_buffers : Manager → ℕ
get_num_buffers m = length m.buffers

unfoldable pub is_empty : Manager → Bool
is_empty m = get_num_buffers m == 0

-- The destructor's loop.
unfoldable pub destroy_all : List Entry → Pool (List ℕ) → Pool (List ℕ)
destroy_all [] p = p
destroy_all (b ∷ bs) p = destroy_all bs (destroy b p)

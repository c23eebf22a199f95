-- ===== src/ByteArray.antt =====
-- sylar/bytearray.h and sylar/bytearray.cpp: a growing array of bytes in a linked list of nodes, its
-- state, its growth and `write`; the child modules have the other operations and the proofs.
-- The list that starts at m_root is a list of nodes, and m_cur is a position in it, where the
-- length of the list stands for the null pointer. A buffer argument is the memory that its pointer
-- leads to, as a function of the offset, so that a load past the end of the caller's object is a
-- load of whatever lies there. Sizes are not bounded by 2 ^ 64.
pub mod Access
pub mod Flat
pub mod Written
pub mod Stored
pub mod Invariant
pub mod Write
pub mod Read
pub mod RoundTrip
pub mod Codec
pub mod Zigzag
pub mod Stream
pub mod Varint
pub mod Fixed
pub mod Values
pub mod Buffers
mod Runs
use server_framework_learnin.Prelude.{
  ℕ, zero, suc, ◌+◌, ◌-◌, ◌*◌, ◌/◌, ◌%◌, Bool, List, [], ◌∷◌, ◌++◌, ltb, leb, ◌==◌, if◌then◌else◌,
  length, take, drop, Outcome, done, fault, ◌>>=◌,
}

-- `ptr[0 .. size)`; the node's size is the length.
abbrev pub Node : Type 0
Node = List ℕ

abbrev pub Memory : Type 0
Memory = ℕ → ℕ

-- m_baseSize, m_position, m_capacity, m_size, m_endian, the nodes from m_root on, and m_cur.
pub record ByteArray : Type 0 where
  pub base_size : ℕ
  pub position : ℕ
  pub capacity : ℕ
  pub size : ℕ
  pub endian : ℕ
  pub nodes : List Node
  pub cur : ℕ

-- SYLAR_LITTLE_ENDIAN and SYLAR_BIG_ENDIAN.
abbrev pub little_endian : ℕ
little_endian = 1

abbrev pub big_endian : ℕ
big_endian = 2

-- The `n` bytes of memory from `i` on.
unfoldable pub load : Memory → ℕ → ℕ → List ℕ
load mem i zero = []
load mem i (suc n) = mem i ∷ load mem (i + 1) n

-- `std::memcpy(node + at, data, length(data))`.
unfoldable pub copy_into : Node → ℕ → List ℕ → Node
copy_into [] at bytes = []
copy_into (x ∷ xs) (suc at) bytes = x ∷ copy_into xs at bytes
copy_into (x ∷ xs) zero [] = x ∷ xs
copy_into (x ∷ xs) zero (b ∷ bytes) = b ∷ copy_into xs zero bytes

-- `new Node(s)`: the content of fresh memory is not set, `fresh` says what is found there.
pub new_node : Memory → ℕ → ℕ → Node
unfolding load
new_node fresh i s = load fresh i s

-- The constructor.
pub create : Memory → ℕ → ByteArray
unfolding new_node
create fresh base = record {
  base_size = base;
  position = 0;
  capacity = base;
  size = 0;
  endian = big_endian;
  nodes = new_node fresh 0 base ∷ [];
  cur = 0;
}

pub get_read_size : ByteArray → ℕ
get_read_size b = b.size - b.position

pub get_capacity : ByteArray → ℕ
get_capacity b = b.capacity - b.position

pub is_little_endian : ByteArray → Bool
is_little_endian b = b.endian == little_endian

pub set_is_little_endian : ByteArray → Bool → ByteArray
set_is_little_endian b val = record b { endian = if val then little_endian else big_endian }

-- The nodes that the loop of `addCapacity` links behind the last one.
pub new_nodes : Memory → ℕ → ℕ → ℕ → List Node
unfolding new_node
new_nodes fresh base at zero = []
new_nodes fresh base at (suc count) =
    new_node fresh at base ∷ new_nodes fresh base (at + base) count

-- The number of nodes to add, for `size` bytes more than the `old_cap` that are left.
pub node_count : ℕ → ℕ → ℕ → ℕ
node_count base old_cap size = size / base + (if ltb old_cap (size % base) then 1 else 0)

-- addCapacity(size). Where no capacity was left, m_cur becomes `first`, which is null if no node
-- was added.
pub add_capacity : Memory → ℕ → ByteArray → ByteArray
unfolding get_capacity new_nodes node_count
add_capacity fresh size b =
    let old_cap = get_capacity b in
    let count = node_count b.base_size old_cap (size - old_cap) in
    if size == 0 then b else if leb size old_cap then b else record b {
      nodes = b.nodes ++ new_nodes fresh b.base_size (b.base_size * length b.nodes) count;
      capacity = b.capacity + count * b.base_size;
      cur = if old_cap == 0 then length b.nodes else b.cur;
    }

-- The loop of `write(buf, size)` from m_cur on, with the nodes it leaves and the number of steps
-- that m_cur took. The last piece is copied from `buf + npos`, all others from `buf + bpos`.
pub write_loop : Memory → List Node → ℕ → ℕ → ℕ → Outcome (List Node × ℕ)
write_loop mem [] npos bpos size = fault
write_loop mem (n ∷ ns) npos bpos size =
    let ncap = length n - npos in
    let rest = write_loop mem ns 0 (bpos + ncap) (size - ncap) in
    if leb size ncap
    then done (copy_into n npos (load mem npos size) ∷ ns, if length n == npos + size then 1 else 0)
    else (rest >>= λ (r : List Node × ℕ).
        done (copy_into n npos (load mem bpos ncap) ∷ r.0, suc r.1))

-- The tail of `write`, once the loop has ended.
pub finish_write : ByteArray → ℕ → List Node × ℕ → ByteArray
finish_write b size (ns, steps) = record b {
  nodes = take b.cur b.nodes ++ ns;
  cur = b.cur + steps;
  position = b.position + size;
  size = if ltb b.size (b.position + size) then b.position + size else b.size;
}

-- write(buf, size).
pub write : Memory → Memory → ℕ → ByteArray → Outcome ByteArray
write fresh mem size b =
    if size == 0
    then done b
    else let c = add_capacity fresh size b in
      write_loop mem (drop c.cur c.nodes) (c.position % c.base_size) 0 size
      >>= λ (r : List Node × ℕ). done (finish_write c size r)

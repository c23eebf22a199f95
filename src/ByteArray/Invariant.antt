-- ===== src/ByteArray/Invariant.antt =====
-- The invariant of a ByteArray: the constructor, and growth.
use native.Mathlib.Nat.{div-add-mod', mod-lt}
use mathlib.Core.List.{append-nil}
use server_framework_learnin.Prelude.{
  ℕ, zero, suc, ◌+◌, ◌-◌, ◌*◌, ◌/◌, ◌%◌, ◌≤◌, ◌<◌, ◌≡◌, refl, sym, ap, ◌⊎◌, ◌↔◌, inl, inr, List, [],
  ◌++◌, leb, ◌==◌, if◌then◌else◌, length, length-append, Bool-cases, arith,
}
use server_framework_learnin.ByteArray.{
  ByteArray, Memory, new_node, new_nodes, node_count, get_capacity, add_capacity, create,
}
use server_framework_learnin.ByteArray.Flat.{
  contents, contents-append, Full, Full-append, length-load,
}

-- m_cur is the node of m_position, or null where m_position is the capacity.
pub record Inv (b : ByteArray) : Type 0 where
  pub base_pos : 0 < b.base_size
  pub full : Full b.base_size b.nodes
  pub rooted : 0 < length b.nodes
  pub cap : b.capacity ≡ b.base_size * length b.nodes
  pub cur_from : b.base_size * b.cur ≤ b.position
  pub cur_before : b.position < b.base_size * b.cur + b.base_size
  pub pos_le : b.position ≤ b.size
  pub size_le : b.size ≤ b.capacity

-- The quotient and the remainder of a number that is given by them.
pub mod_of_parts : (base q p : ℕ) → base * q ≤ p → p < base * q + base → p % base ≡ p - base * q
mod_of_parts base q p h k = grind arith

pub div_of_parts : (base q p : ℕ) → base * q ≤ p → p < base * q + base → p / base ≡ q
div_of_parts base q p h k = grind arith

pub mul_le_cancel : (base a b : ℕ) → base * a < base * b + base → a ≤ b
mul_le_cancel base a b h = grind arith

pub cur-le-length : {b : ByteArray} → Inv b → b.cur ≤ length b.nodes
cur-le-length {b} v =
    mul_le_cancel b.base_size b.cur (length b.nodes)
      (omega (arith, v.cur_from, v.pos_le, v.size_le, v.cap, v.base_pos))

new_nodes-Full : (fresh : Memory) (base at count : ℕ) → Full base (new_nodes fresh base at count)
unfolding new_nodes new_node
new_nodes-Full fresh base at zero = tt
new_nodes-Full fresh base at (suc count) =
    (length-load fresh at base, new_nodes-Full fresh base (at + base) count)

length-new_nodes :
    (fresh : Memory) (base at count : ℕ) → length (new_nodes fresh base at count) ≡ count
unfolding new_nodes
length-new_nodes fresh base at zero = refl
length-new_nodes fresh base at (suc count) = ap suc (length-new_nodes fresh base (at + base) count)

pub create-Inv : (fresh : Memory) (base : ℕ) → 0 < base → Inv (create fresh base)
unfolding create new_node
create-Inv fresh base h = record {
  base_pos = h;
  full = (length-load fresh 0 base, tt);
  rooted = omega arith;
  cap = omega arith;
  cur_from = omega arith;
  cur_before = omega arith;
  pos_le = omega arith;
  size_le = omega arith;
}

-- What `addCapacity` leaves where it adds `count` nodes.
abbrev pub grown : Memory → ℕ → ByteArray → ByteArray
grown fresh count b = record b {
  nodes = b.nodes ++ new_nodes fresh b.base_size (b.base_size * length b.nodes) count;
  capacity = b.capacity + count * b.base_size;
  cur = if b.capacity - b.position == 0 then length b.nodes else b.cur;
}

abbrev pub nodes_needed : ℕ → ByteArray → ℕ
nodes_needed size b =
    node_count b.base_size (b.capacity - b.position) (size - (b.capacity - b.position))

pub add_capacity_cases :
    (fresh : Memory) (size : ℕ) (b : ByteArray)
    → ((size ≤ b.capacity - b.position) × (add_capacity fresh size b ≡ b))
      ⊎ ((b.capacity - b.position < size)
          × (add_capacity fresh size b ≡ grown fresh (nodes_needed size b) b))
unfolding add_capacity get_capacity
add_capacity_cases fresh size b = elim (Bool-cases (size == 0)) [
  | inl e ↦ inl (ground arith, rw e refl)
  | inr e ↦ elim (Bool-cases (leb size (b.capacity - b.position))) [
    | inl l ↦ inl (ground arith, rw (e, l) refl)
    | inr l ↦ inr (ground arith, rw (e, l) refl)
  ]
]

pub grown-Inv : (fresh : Memory) (count : ℕ) {b : ByteArray} → Inv b → Inv (grown fresh count b)
grown-Inv fresh count {b} v = record {
  base_pos = v.base_pos;
  full =
      Full-append b.base_size b.nodes _ v.full
        (new_nodes-Full fresh b.base_size (b.base_size * length b.nodes) count);
  rooted = omega (
    arith,
    v.rooted,
    length-append b.nodes (new_nodes fresh b.base_size (b.base_size * length b.nodes) count),
  );
  cap = omega (
    arith,
    v.cap,
    length-append b.nodes (new_nodes fresh b.base_size (b.base_size * length b.nodes) count),
    ap (λ (t : ℕ). b.base_size * t)
        (length-append b.nodes (new_nodes fresh b.base_size (b.base_size * length b.nodes) count)),
    ap (λ (t : ℕ). b.base_size * t)
        (length-new_nodes fresh b.base_size (b.base_size * length b.nodes) count),
  );
  cur_from = ground (arith, v.cap, v.cur_from, v.pos_le, v.size_le);
  cur_before = ground (arith, v.cap, v.cur_before, v.base_pos, v.pos_le, v.size_le);
  pos_le = v.pos_le;
  size_le = omega (arith, v.size_le);
}

-- addCapacity keeps the invariant of an array, for every size.
pub add_capacity-Inv :
    (fresh : Memory) (size : ℕ) {b : ByteArray} → Inv b → Inv (add_capacity fresh size b)
add_capacity-Inv fresh size {b} v = elim (add_capacity_cases fresh size b) [
  | inl (_, e) ↦ rw e v
  | inr (_, e) ↦ rw e (grown-Inv fresh (nodes_needed size b) v)
]

-- The bytes there were come first, and the fields that growth leaves alone.
pub record Extends (b c : ByteArray) : Type 0 where
  pub extra : List ℕ
  pub bytes : contents c.nodes ≡ contents b.nodes ++ extra
  pub same_base : c.base_size ≡ b.base_size
  pub same_pos : c.position ≡ b.position
  pub same_size : c.size ≡ b.size
  pub same_endian : c.endian ≡ b.endian

pub add_capacity-Extends :
    (fresh : Memory) (size : ℕ) (b : ByteArray) → Extends b (add_capacity fresh size b)
add_capacity-Extends fresh size b = elim (add_capacity_cases fresh size b) [
  | inl (_, e) ↦ rw e (record {
    extra = [];
    bytes = sym (append-nil (contents b.nodes));
    same_base = refl;
    same_pos = refl;
    same_size = refl;
    same_endian = refl;
  })
  | inr (_, e) ↦ rw e (record {
    extra =
        contents (new_nodes fresh b.base_size (b.base_size * length b.nodes) (nodes_needed size b));
    bytes = contents-append b.nodes _;
    same_base = refl;
    same_pos = refl;
    same_size = refl;
    same_endian = refl;
  })
]

node_count_to :
    (base left rest : ℕ)
    → rest ≤ node_count base left rest * base
    → (left < rest % base) ⊎ (rest % base ≡ 0)
unfolding node_count
node_count_to base left rest h = ground (arith, div-add-mod' rest base)

node_count_from :
    (base left rest : ℕ)
    → 0 < base
    → (left < rest % base) ⊎ (rest % base ≡ 0)
    → rest ≤ node_count base left rest * base
unfolding node_count
node_count_from base left rest p h = ground (arith, div-add-mod' rest base, mod-lt rest p)

-- When `addCapacity` provides for the bytes that were asked for: always but where some are left
-- over that are fewer than what was left before.
abbrev pub Provides : ℕ → ByteArray → Type 0
Provides size b =
    let left = b.capacity - b.position in
    (size ≤ left) ⊎ ((left < (size - left) % b.base_size) ⊎ ((size - left) % b.base_size ≡ 0))

-- In an array with the invariant, addCapacity(size) leaves room for `size` bytes behind the
-- position if and only if `size` bytes were left before, or the bytes beyond those are a multiple
-- of the node size, or their remainder by the node size is larger than what was left before.
pub add_capacity-Provides :
    (fresh : Memory) (size : ℕ) {b : ByteArray}
    → Inv b
    → (b.position + size ≤ (add_capacity fresh size b).capacity) ↔ Provides size b
add_capacity-Provides fresh size {b} v = elim (add_capacity_cases fresh size b) [
  | inl (l, e) ↦ rw e ((λ h. inl l), (λ h. omega (arith, v.pos_le, v.size_le)))
  | inr (l, e) ↦ rw e (
    (λ h. inr (
        node_count_to b.base_size (b.capacity - b.position) (size - (b.capacity - b.position))
          (omega (arith, v.pos_le, v.size_le)))),
    (λ h. elim h [
      | inl few ↦ absurd (omega arith)
      | inr many ↦ omega (
        arith,
        v.pos_le,
        v.size_le,
        node_count_from b.base_size (b.capacity - b.position) (size - (b.capacity - b.position))
            v.base_pos many,
      )
    ]),
  )
]

-- ===== src/ByteArray/RoundTrip.antt =====
-- `write`, `setPosition` and `read` one after the other, `toString`, and the array after `clear`.
use native.Mathlib.Nat.{add-mod_left, mod-le}
use server_framework_learnin.Prelude.{
  ℕ, ◌+◌, ◌-◌, ◌%◌, ◌≤◌, ◌<◌, ◌≡◌, refl, ap, inl, inr, List, ◌++◌, true, false, leb, ltb, ◌==◌,
  length, length-append, Bool-cases, take, drop, length-take, done, fault, ◌>>=◌, arith,
}
use server_framework_learnin.ByteArray.{
  ByteArray, Memory, load, add_capacity, write, get_capacity, get_read_size,
}
use server_framework_learnin.ByteArray.Access.{read, set_position, clear, read_at, to_string}
use server_framework_learnin.ByteArray.Flat.{
  contents, Full-take, Full-drop, length-load, take-drop-copy_into,
}
use server_framework_learnin.ByteArray.Stored.{written_bytes, tail_size}
use server_framework_learnin.ByteArray.Invariant.{Inv, Provides}
use server_framework_learnin.ByteArray.Written.{write_loop-fault}
use server_framework_learnin.ByteArray.Write.{write-Wrote, position_split, room_after}
use server_framework_learnin.ByteArray.Read.{
  read_lem, set_position_lem, read_loop_lem, read_from-read_loop, slice_here,
}

tail_size-le :
    (base npos size : ℕ) → npos < base → base - npos < size → tail_size base npos size ≤ size
tail_size-le base npos size p h =
    let e : npos + size - 1 ≡ base + (size - (base - npos) - 1) = omega arith in
    rw (e, add-mod_left base (size - (base - npos) - 1))
      (omega (arith, mod-le (size - (base - npos) - 1) base))

pub length-written_bytes :
    (mem : Memory) (base npos size : ℕ)
    → npos < base
    → 0 < size
    → length (written_bytes mem base npos size) ≡ size
length-written_bytes mem base npos size p s = elim (Bool-cases (leb size (base - npos))) [
  | inl fits ↦ rw fits (length-load mem npos size)
  | inr over ↦ rw over (
      omega (
        arith,
        length-append (load mem 0 (size - tail_size base npos size))
            (load mem 0 (tail_size base npos size)),
        length-load mem 0 (size - tail_size base npos size),
        length-load mem 0 (tail_size base npos size),
        tail_size-le base npos size p (ground arith),
      ))
]

-- In an array with the invariant, where growth provides for `size` bytes and `size` is not 0,
-- writing `size` bytes, setting the position back and reading `size` bytes returns, keeps the
-- invariant, and gives the closed form of the stored bytes: from `buf + npos` if the write ends in
-- its first node, else all but the last piece in place and the last piece from `buf`.
pub write-read_back :
    (fresh mem : Memory) (size : ℕ) {b : ByteArray}
    → Inv b
    → 0 < size
    → Provides size b
    → (b' : ByteArray) × ((do
      b₁ ← write fresh mem size b
      b₂ ← set_position b.position b₁
      read size b₂)
        ≡ done (written_bytes mem b.base_size (b.position % b.base_size) size, b'))
      × Inv b'
write-read_back fresh mem size {b} v s p =
    let (b₁, e₁, w) = write-Wrote fresh mem size v s p in
    let (b₂, e₂, m) =
      set_position_lem b.position w.inv
        (omega (arith, w.inv.pos_le, w.inv.size_le, w.new_position)) in
    let (b₃, e₃, n) =
      read_lem size m.inv s (ground (arith, m.new_position, m.new_size, w.new_size)) in
    let long =
      length-written_bytes mem b.base_size (b.position % b.base_size) size
        (omega (arith, v.base_pos)) s in
    let back =
      take-drop-copy_into (contents b.nodes ++ w.extra) b.position
        (written_bytes mem b.base_size (b.position % b.base_size) size)
        (omega (arith, long, w.fits)) in
    (
      b₃,
      rw (e₁, e₂, e₃)
          (ap (λ (t : List ℕ). done (t, b₃))
            (cc (m.new_position, m.same_nodes, w.bytes, long, back))),
      n.inv,
    )

-- In an array with the invariant, where growth provides for `size` bytes, `size` is not 0 and at
-- most the node size, and the position is a multiple of the node size, writing `size` bytes,
-- setting the position back and reading `size` bytes returns the argument of the write and keeps
-- the invariant.
pub aligned_write-read_back :
    (fresh mem : Memory) (size : ℕ) {b : ByteArray}
    → Inv b
    → 0 < size
    → Provides size b
    → b.position % b.base_size ≡ 0
    → size ≤ b.base_size
    → (b' : ByteArray) × ((do
      b₁ ← write fresh mem size b
      b₂ ← set_position b.position b₁
      read size b₂)
        ≡ done (load mem 0 size, b'))
      × Inv b'
aligned_write-read_back fresh mem size {b} v s p a f =
    let (b', e, w) = write-read_back fresh mem size v s p in
    let fits : leb size (b.base_size - 0) ≡ true = ground arith in (b', rw (a, fits) at e, w)

-- toString of an array with the invariant returns the contents between the position and the size.
pub to_string_lem :
    {b : ByteArray}
    → Inv b
    → to_string b ≡ done (take (b.size - b.position) (drop b.position (contents b.nodes)))
unfolding to_string read_at get_read_size
to_string_lem {b} v = elim (Bool-cases (b.size - b.position == 0)) [
  | inl none_left ↦ let z : b.size - b.position ≡ 0 = ground arith in rw (none_left, z) refl
  | inr some_left ↦
      let s : 0 < b.size - b.position = ground arith in
      let (steps, e, lo, hi) =
        read_loop_lem b.base_size (drop b.cur b.nodes) (b.position % b.base_size)
          (b.size - b.position) (Full-drop b.base_size b.cur b.nodes v.full)
          (omega (arith, v.base_pos)) s
          (omega (arith, room_after v, position_split v, v.size_le, v.pos_le)) in
      let enough : ltb (b.size - b.position) (b.size - b.position) ≡ false = ground arith in
      rw
        (
          some_left,
          enough,
          read_from-read_loop (drop b.cur b.nodes) (b.position % b.base_size) (b.size - b.position)
              s,
          e,
        )
        (ap done (slice_here (b.size - b.position) v))
]

one_root : {b : ByteArray} → Inv b → length (take 1 b.nodes) ≡ 1
one_root {b} v = omega (arith, length-take 1 b.nodes, v.rooted)

-- `clear` of an array that has the invariant and one node leaves the invariant.
pub clear-Inv : {b : ByteArray} → Inv b → length b.nodes ≡ 1 → Inv (clear b)
unfolding clear
clear-Inv {b} v one = record {
  base_pos = v.base_pos;
  full = Full-take b.base_size 1 b.nodes v.full;
  rooted = omega (arith, one_root v);
  cap = rw (one_root v, ← one) v.cap;
  cur_from = omega arith;
  cur_before = omega (arith, v.base_pos);
  pos_le = omega arith;
  size_le = omega arith;
}

-- After `clear` of an array with the invariant, a write of more bytes than a node has and no more
-- than the capacity was runs past the root.
pub clear-write_fault :
    (fresh mem : Memory) (size : ℕ) {b : ByteArray}
    → Inv b
    → b.base_size < size
    → size ≤ b.capacity
    → write fresh mem size (clear b) ≡ fault
unfolding write clear add_capacity get_capacity
clear-write_fault fresh mem size {b} v h l =
    let some_bytes : (size == 0) ≡ false = ground arith in
    let room : leb size (b.capacity - 0) ≡ true = ground arith in
    rw
      (
        some_bytes,
        room,
        write_loop-fault mem b.base_size (take 1 b.nodes) (0 % b.base_size) 0 size
            (Full-take b.base_size 1 b.nodes v.full) (omega (arith, v.base_pos))
            (rw (one_root v) (omega arith)),
      )
      refl

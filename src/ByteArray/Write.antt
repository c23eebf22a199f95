-- ===== src/ByteArray/Write.antt =====
-- `write`: when it ends, where the bytes go, and which bytes go there.
use server_framework_learnin.Prelude.{
  ℕ, ◌+◌, ◌*◌, ◌%◌, ◌≤◌, ◌<◌, ◌≡◌, refl, sym, ap, ◌∙◌, inl, inr, List, ◌++◌, false, leb, ltb, ◌==◌,
  if◌then◌else◌, length, length-append, Bool-cases, take, drop, length-take, length-drop,
  take-append-drop, done, fault, arith,
}
use server_framework_learnin.ByteArray.{
  ByteArray, Node, Memory, copy_into, add_capacity, write_loop, finish_write, write,
}
use server_framework_learnin.ByteArray.Flat.{
  contents, contents-append, Full-append, Full-take, Full-drop, length-contents,
  copy_into-append_right,
}
use server_framework_learnin.ByteArray.Written.{
  Written, stored, write_loop-Written, write_loop-fault,
}
use server_framework_learnin.ByteArray.Stored.{written_bytes, stored_closed}
use server_framework_learnin.ByteArray.Invariant.{
  Inv, mod_of_parts, cur-le-length, add_capacity-Inv, add_capacity-Extends, add_capacity-Provides,
  Extends, Provides,
}

-- The node list before m_cur.
pub length-before : {b : ByteArray} → Inv b → length (take b.cur b.nodes) ≡ b.cur
length-before {b} v = omega (arith, length-take b.cur b.nodes, cur-le-length v)

pub bytes_before :
    {b : ByteArray} → Inv b → length (contents (take b.cur b.nodes)) ≡ b.base_size * b.cur
bytes_before {b} v =
    length-contents b.base_size (take b.cur b.nodes) (Full-take b.base_size b.cur b.nodes v.full)
    ∙ ap (λ (t : ℕ). b.base_size * t) (length-before v)

-- The bytes of the nodes from m_cur on.
pub room_after :
    {b : ByteArray}
    → Inv b
    → b.base_size * b.cur + b.base_size * length (drop b.cur b.nodes) ≡ b.capacity
room_after {b} v =
    let e : b.cur + length (drop b.cur b.nodes) ≡ length b.nodes =
      omega (arith, length-drop b.cur b.nodes, cur-le-length v) in
    omega (arith, v.cap, ap (λ (t : ℕ). b.base_size * t) e)

pub split_contents :
    (b : ByteArray)
    → contents b.nodes ≡ contents (take b.cur b.nodes) ++ contents (drop b.cur b.nodes)
split_contents b =
    sym (ap contents (take-append-drop b.cur b.nodes))
    ∙ contents-append (take b.cur b.nodes) (drop b.cur b.nodes)

-- m_position is `npos` bytes into the node m_cur.
pub position_split :
    {b : ByteArray} → Inv b → b.base_size * b.cur + b.position % b.base_size ≡ b.position
position_split {b} v =
    omega (arith, mod_of_parts b.base_size b.cur b.position v.cur_from v.cur_before, v.cur_from)

module _ {b : ByteArray} (v : Inv b) (mem : Memory) (size : ℕ) (r : List Node × ℕ) where
  finish_write-Inv :
      Written mem b.base_size (drop b.cur b.nodes) (b.position % b.base_size) 0 size r
      → b.position + size ≤ b.capacity
      → Inv (finish_write b size r)
  unfolding finish_write
  finish_write-Inv w h =
      let same : length (take b.cur b.nodes ++ r.0) ≡ length b.nodes = omega (
        arith,
        length-append (take b.cur b.nodes) r.0,
        length-before v,
        w.same_count,
        length-drop b.cur b.nodes,
        cur-le-length v,
      ) in
      record {
        base_pos = v.base_pos;
        full =
            Full-append b.base_size (take b.cur b.nodes) r.0
              (Full-take b.base_size b.cur b.nodes v.full) w.full;
        rooted = omega (arith, same, v.rooted);
        cap = rw same v.cap;
        cur_from = omega (arith, w.ends_from, position_split v);
        cur_before = omega (arith, w.ends_before, position_split v);
        pos_le = ground arith;
        size_le = ground (arith, v.size_le);
      }

  finish_write-bytes :
      Written mem b.base_size (drop b.cur b.nodes) (b.position % b.base_size) 0 size r
      → contents (finish_write b size r).nodes
        ≡ copy_into
            (contents b.nodes)
            b.position
            (stored mem b.base_size (b.position % b.base_size) 0 size (length (drop b.cur b.nodes)))
  unfolding finish_write
  finish_write-bytes w =
      let at : b.position ≡ length (contents (take b.cur b.nodes)) + b.position % b.base_size =
        omega (arith, bytes_before v, position_split v) in
      cc (
        contents-append (take b.cur b.nodes) r.0,
        w.bytes,
        at,
        split_contents b,
        copy_into-append_right (contents (take b.cur b.nodes)) (contents (drop b.cur b.nodes))
            (b.position % b.base_size)
            (stored mem b.base_size (b.position % b.base_size) 0 size
              (length (drop b.cur b.nodes))),
      )

-- What a `write` of `size` bytes from `mem` makes of the array.
pub record Wrote (mem : Memory) (size : ℕ) (b b' : ByteArray) : Type 0 where
  pub inv : Inv b'
  pub extra : List ℕ
  pub bytes :
      contents b'.nodes
      ≡ copy_into
          (contents b.nodes ++ extra)
          b.position
          (written_bytes mem b.base_size (b.position % b.base_size) size)
  pub fits : b.position + size ≤ length (contents b.nodes ++ extra)
  pub new_position : b'.position ≡ b.position + size
  pub new_size : b'.size ≡ (if ltb b.size (b.position + size) then b.position + size else b.size)
  pub same_base : b'.base_size ≡ b.base_size
  pub same_endian : b'.endian ≡ b.endian

length-contents-nodes : {b : ByteArray} → Inv b → length (contents b.nodes) ≡ b.capacity
length-contents-nodes {b} v = length-contents b.base_size b.nodes v.full ∙ sym v.cap

-- The loop in an array that has the room.
write_in_room :
    (mem : Memory) (size : ℕ) {b c : ByteArray}
    → Inv c
    → Extends b c
    → 0 < size
    → c.position + size ≤ c.capacity
    → (r : List Node × ℕ) × (write_loop mem (drop c.cur c.nodes) (c.position % c.base_size) 0 size
        ≡ done r)
      × Wrote mem size b (finish_write c size r)
write_in_room mem size {b} {c} v x s h =
    let npos = c.position % c.base_size in
    let room : npos + size ≤ c.base_size * length (drop c.cur c.nodes) =
      omega (arith, room_after v, position_split v) in
    let inside : npos < c.base_size = omega (arith, v.base_pos) in
    let (r, e, w) =
      write_loop-Written mem c.base_size (drop c.cur c.nodes) npos 0 size
        (Full-drop c.base_size c.cur c.nodes v.full) inside s room in
    (
      r,
      e,
      record {
        inv = finish_write-Inv v mem size r w h;
        extra = x.extra;
        bytes =
            finish_write-bytes v mem size r w
            ∙ cc (
              x.bytes,
              x.same_base,
              x.same_pos,
              stored_closed mem c.base_size npos size (length (drop c.cur c.nodes)) inside s room,
            );
        fits = omega (arith, ap length x.bytes, length-contents-nodes v, x.same_pos);
        new_position = unfold finish_write in ap (λ (t : ℕ). t + size) x.same_pos;
        new_size = unfold finish_write in cc (x.same_pos, x.same_size);
        same_base = unfold finish_write in x.same_base;
        same_endian = unfold finish_write in x.same_endian;
      },
    )

-- In an array with the invariant, where the growth that addCapacity computes provides for `size`
-- bytes and `size` is not 0, `write` returns, and its result keeps the invariant, moves the
-- position by `size`, sets the size to the larger of the old size and the new position, leaves the
-- node size and the byte order, and has as contents the old contents, extended by the new nodes,
-- with the closed form of the stored bytes laid over them from the old position on.
pub write-Wrote :
    (fresh mem : Memory) (size : ℕ) {b : ByteArray}
    → Inv b
    → 0 < size
    → Provides size b
    → (b' : ByteArray) × (write fresh mem size b ≡ done b') × Wrote mem size b b'
unfolding write
write-Wrote fresh mem size {b} v s p =
    let c = add_capacity fresh size b in
    let x = add_capacity-Extends fresh size b in
    let (r, e, w) =
      write_in_room mem size (add_capacity-Inv fresh size v) x s
        (omega (arith, (add_capacity-Provides fresh size v).1 p, x.same_pos)) in
    let some_bytes : (size == 0) ≡ false = ground arith in
    (finish_write c size r, rw (some_bytes, e) refl, w)

-- In an array with the invariant, a write of `size` bytes, `size` not 0, for which the growth does
-- not provide, runs past the last node.
pub write-fault :
    (fresh mem : Memory) (size : ℕ) {b : ByteArray}
    → Inv b
    → 0 < size
    → ¬ Provides size b
    → write fresh mem size b ≡ fault
unfolding write
write-fault fresh mem size {b} v s p =
    let c = add_capacity fresh size b in
    let w = add_capacity-Inv fresh size v in
    let x = add_capacity-Extends fresh size b in
    let some_bytes : (size == 0) ≡ false = ground arith in
    let short : c.capacity < c.position + size =
      elim (Bool-cases (leb (b.position + size) c.capacity)) [
        | inl fits ↦ absurd (p ((add_capacity-Provides fresh size v).0 (ground arith)))
        | inr over ↦ ground (arith, x.same_pos)
      ] in
    let e =
      write_loop-fault mem c.base_size (drop c.cur c.nodes) (c.position % c.base_size) 0 size
        (Full-drop c.base_size c.cur c.nodes w.full) (omega (arith, w.base_pos))
        (omega (arith, room_after w, position_split w)) in
    rw (some_bytes, e) refl

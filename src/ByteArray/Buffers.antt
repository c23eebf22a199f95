-- ===== src/ByteArray/Buffers.antt =====
-- The buffers for scattered input and output: the bytes that they lead to.
use mathlib.Core.List.{append_assoc, append-nil}
use server_framework_learnin.Prelude.{
  ℕ, suc, ◌+◌, ◌-◌, ◌*◌, ◌%◌, ◌≤◌, ◌<◌, ◌≡◌, refl, sym, ap, ◌∙◌, inl, inr, List, [], ◌∷◌, ◌++◌,
  false, ◌==◌, leb, ltb, if◌then◌else◌, length, length-append, take, drop, take-append-drop, get_or,
  Bool-cases, done, arith,
}
use server_framework_learnin.ByteArray.{ByteArray, Node, Memory, add_capacity, get_read_size}
use server_framework_learnin.ByteArray.Access.{
  Iovec, buffers_loop, get_read_buffers, get_write_buffers,
}
use server_framework_learnin.ByteArray.Flat.{contents, Full, Full-drop, cut_left, cut_both}
use server_framework_learnin.ByteArray.Invariant.{
  Inv, Provides, add_capacity-Inv, add_capacity-Extends, add_capacity-Provides,
}
use server_framework_learnin.ByteArray.Write.{room_after, position_split, length-before}
use server_framework_learnin.ByteArray.Read.{slice_here}
use server_framework_learnin.ByteArray.Stream.{unread, take-take_le}

-- The bytes that the buffers lead to, one buffer after the other.
unfoldable pub gather : List Node → List Iovec → List ℕ
gather nodes [] = []
gather nodes (v ∷ vs) = take v.len (drop v.offset (get_or nodes v.node [])) ++ gather nodes vs

unfoldable pub total_len : List Iovec → ℕ
total_len [] = 0
total_len (v ∷ vs) = v.len + total_len vs

get_or-append_length : (pre ns : List Node) (n : Node) → get_or (pre ++ n ∷ ns) (length pre) [] ≡ n
get_or-append_length [] ns n = refl
get_or-append_length (x ∷ pre) ns n = get_or-append_length pre ns n

-- The loop from the node behind `pre` on.
pub buffers_loop_lem :
    (base : ℕ) (pre ns : List Node) (at npos len : ℕ)
    → Full base ns
    → at ≡ length pre
    → npos < base
    → 0 < len
    → npos + len ≤ base * length ns
    → (vs : List Iovec) × (buffers_loop ns at npos len ≡ done vs)
      × (gather (pre ++ ns) vs ≡ take len (drop npos (contents ns)))
      × (total_len vs ≡ len)
unfolding buffers_loop gather total_len
buffers_loop_lem base pre [] at npos len f a p s h = absurd (omega arith)
buffers_loop_lem base pre (n ∷ ns) at npos len f a p s h =
    elim (Bool-cases (leb len (length n - npos))) [
      | inl fits ↦ (
        record { node = at; offset = npos; len = len } ∷ [],
        rw fits refl,
        rw
            (
              a,
              get_or-append_length pre ns n,
              append-nil,
              cut_left n (contents ns) npos len (ground arith),
            )
            refl,
        omega arith,
      )
      | inr over ↦
          let ncap = length n - npos in
          let (vs, e, g, l) =
            buffers_loop_lem base (pre ++ n ∷ []) ns (suc at) 0 (len - ncap) f.1
              (omega (arith, length-append pre (n ∷ []))) (omega arith) (ground arith)
              (ground arith) in
          let parts : len ≡ ncap + (len - ncap) = ground arith in
          (
            record { node = at; offset = npos; len = ncap } ∷ vs,
            rw (over, e) refl,
            rw (a, get_or-append_length pre ns n)
                (ap (λ (t : List ℕ). take ncap (drop npos n) ++ t)
                    (rw (append_assoc pre (n ∷ []) ns) at g)
                  ∙ sym (cut_both n (contents ns) npos ncap (len - ncap) (omega arith))
                  ∙ ap (λ (k : ℕ). take k (drop npos (n ++ contents ns))) (sym parts)),
            ground arith,
          )
    ]

-- From m_cur on, in an array with the room.
buffers_from_cur :
    (len : ℕ) {b : ByteArray}
    → Inv b
    → 0 < len
    → b.position + len ≤ b.capacity
    → (vs : List Iovec) × (buffers_loop (drop b.cur b.nodes) b.cur (b.position % b.base_size) len
        ≡ done vs)
      × (gather b.nodes vs ≡ take len (drop b.position (contents b.nodes)))
      × (total_len vs ≡ len)
buffers_from_cur len {b} v s h =
    let (vs, e, g, l) =
      buffers_loop_lem b.base_size (take b.cur b.nodes) (drop b.cur b.nodes) b.cur
        (b.position % b.base_size) len (Full-drop b.base_size b.cur b.nodes v.full)
        (sym (length-before v)) (omega (arith, v.base_pos)) s
        (omega (arith, room_after v, position_split v)) in
    (vs, e, (rw (take-append-drop b.cur b.nodes) at g) ∙ slice_here len v, l)

-- In an array with the invariant and a byte unread, getReadBuffers(len) with `len` not 0 returns
-- buffers that lead, one behind the other, to the first unread bytes, as many as the smaller of
-- `len` and the number of unread bytes, which is the length it returns.
pub get_read_buffers-gather :
    (len : ℕ) {b : ByteArray}
    → Inv b
    → 0 < len
    → b.position < b.size
    → (vs : List Iovec) × (n : ℕ) × (get_read_buffers len b ≡ done (vs, n))
      × (gather b.nodes vs ≡ take n (unread b))
      × (total_len vs ≡ n)
      × (n ≡ (if ltb (b.size - b.position) len then b.size - b.position else len))
unfolding get_read_buffers get_read_size
get_read_buffers-gather len {b} v s p =
    let n = if ltb (b.size - b.position) len then b.size - b.position else len in
    let some : 0 < n = ground arith in
    let within : n ≤ b.size - b.position = ground arith in
    let some_b : (n == 0) ≡ false = ground arith in
    let (vs, e, g, l) = buffers_from_cur n v some (omega (arith, v.size_le, v.pos_le)) in
    (vs, n, rw (some_b, e) refl, g ∙ sym (take-take_le n (b.size - b.position) _ within), l, refl)

-- In an array with the invariant, where growth provides for `len` bytes and `len` is not 0,
-- getWriteBuffers(len) returns `len` and buffers that lead to the `len` bytes from the position on
-- of the array that it leaves, whose invariant and position are kept.
pub get_write_buffers-gather :
    (fresh : Memory) (len : ℕ) {b : ByteArray}
    → Inv b
    → 0 < len
    → Provides len b
    → (vs : List Iovec) × (c : ByteArray) × (get_write_buffers fresh len b ≡ done (vs, len, c))
      × Inv c
      × (c.position ≡ b.position)
      × (gather c.nodes vs ≡ take len (drop b.position (contents c.nodes)))
      × (total_len vs ≡ len)
unfolding get_write_buffers
get_write_buffers-gather fresh len {b} v s p =
    let c = add_capacity fresh len b in
    let w = add_capacity-Inv fresh len v in
    let x = add_capacity-Extends fresh len b in
    let (vs, e, g, l) =
      buffers_from_cur len w s
        (omega (arith, (add_capacity-Provides fresh len v).1 p, x.same_pos)) in
    let some_b : (len == 0) ≡ false = ground arith in
    (vs, c, rw (some_b, e) refl, w, x.same_pos, rw x.same_pos at g, l)

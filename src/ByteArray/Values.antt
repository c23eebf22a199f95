-- ===== src/ByteArray/Values.antt =====
-- Values written to a ByteArray and read back: the codec on the array.
use native.Mathlib.Nat.{zero-add, suc-add, sub-zero, suc-sub-suc}
use mathlib.Core.List.{reverse, append-nil}
use server_framework_learnin.Prelude.{
  ℕ, zero, suc, ◌+◌, ◌-◌, ◌%◌, ◌^◌, ◌≤◌, ◌<◌, ◌≡◌, refl, sym, ap, ◌∙◌, inl, List, [], ◌∷◌, ◌++◌,
  true, ◌==◌, leb, if◌then◌else◌, length, length-append, take, drop, done, throws, ◌>>=◌, >>=-then,
  >>=-then_two, arith,
}
use server_framework_learnin.ByteArray.{ByteArray, Memory, copy_into, write}
use server_framework_learnin.ByteArray.Access.{set_position}
use server_framework_learnin.ByteArray.Codec.{
  object, le_bytes, host_bytes, byteswap, write_fixed, read_fixed, write_uint64, read_uint64,
  write_uint32, read_uint32, write_int64, read_int64, encode_zigzag64, decode_zigzag64, sign_extend,
}
use server_framework_learnin.ByteArray.Flat.{contents}
use server_framework_learnin.ByteArray.Invariant.{Inv, Provides}
use server_framework_learnin.ByteArray.Stored.{written_bytes}
use server_framework_learnin.ByteArray.Write.{write-Wrote}
use server_framework_learnin.ByteArray.Read.{set_position_lem}
use server_framework_learnin.ByteArray.Stream.{unread, read-unread}
use server_framework_learnin.ByteArray.Varint.{
  varint, varint_loop_lem, length-varint, length-varint_le, read_uint64-varint, read_uint32-throws,
}
use server_framework_learnin.ByteArray.Fixed.{
  IsOrder, length-le_bytes, host_bytes-order, of_host_bytes-order, load-object, length-reverse,
}
use server_framework_learnin.ByteArray.Zigzag.{
  magnitude, encode_zigzag64-lt, sign_extend-lt, decode-encode_zigzag64,
}

-- The array can take `n` bytes at its position, and they go where they belong.
pub record Takes (n : ℕ) (b : ByteArray) : Type 0 where
  pub inv : Inv b
  pub provides : Provides n b
  pub aligned : b.position % b.base_size ≡ 0
  pub in_node : n ≤ b.base_size

drop-copy_into :
    (xs : List ℕ) (at : ℕ) (d : List ℕ)
    → at + length d ≤ length xs
    → drop at (copy_into xs at d) ≡ d ++ drop (at + length d) xs
unfolding copy_into
drop-copy_into [] zero [] h = refl
drop-copy_into [] (suc at) [] h = absurd (omega arith)
drop-copy_into [] at (x ∷ d) h = absurd (omega arith)
drop-copy_into (x ∷ xs) (suc at) d h = rw suc-add (drop-copy_into xs at d (omega arith))
drop-copy_into (x ∷ xs) zero [] h = refl
drop-copy_into (x ∷ xs) zero (y ∷ d) h =
    ap (◌∷◌ y) (drop-copy_into xs zero d (omega arith) ∙ rw (zero-add, zero-add) refl)

take-append_ge :
    (n : ℕ) (d r : List ℕ) → length d ≤ n → take n (d ++ r) ≡ d ++ take (n - length d) r
take-append_ge n [] r h = rw sub-zero refl
take-append_ge zero (x ∷ d) r h = absurd (omega arith)
take-append_ge (suc n) (x ∷ d) r h =
    rw suc-sub-suc (ap (◌∷◌ x) (take-append_ge n d r (omega arith)))

-- An object written and sought again: its bytes come first, and last if the array ended before.
pub write-unread :
    (fresh around : Memory) (d : List ℕ) {b : ByteArray}
    → 0 < length d
    → Takes (length d) b
    → (b' : ByteArray) × ((write fresh (object around d) (length d) b >>= set_position b.position)
        ≡ done b')
      × Inv b'
      × (b'.endian ≡ b.endian)
      × (rest : List ℕ) × (unread b' ≡ d ++ rest)
      × (b.size ≤ b.position + length d → rest ≡ [])
write-unread fresh around d {b = b} s t =
    let (b₁, e₁, w) = write-Wrote fresh (object around d) (length d) t.inv s t.provides in
    let (b₂, e₂, m) =
      set_position_lem b.position w.inv
        (omega (arith, w.inv.pos_le, w.inv.size_le, w.new_position)) in
    let fits : leb (length d) (b.base_size - 0) ≡ true = ground (arith, t.in_node) in
    let stored : written_bytes (object around d) b.base_size (b.position % b.base_size) (length d)
        ≡ d =
      rw (t.aligned, fits) (load-object around d) in
    let n = b₂.size - b₂.position in
    let long : length d ≤ n = ground (arith, m.new_size, m.new_position, w.new_size) in
    let row : drop b₂.position (contents b₂.nodes)
        ≡ d ++ drop (b.position + length d) (contents b.nodes ++ w.extra) =
      cc (
        m.new_position,
        m.same_nodes,
        w.bytes,
        stored,
        drop-copy_into (contents b.nodes ++ w.extra) b.position d w.fits,
      ) in
    (
      b₂,
      rw (e₁, e₂) refl,
      m.inv,
      m.same_endian ∙ w.same_endian,
      take (n - length d) (drop (b.position + length d) (contents b.nodes ++ w.extra)),
      rw row (take-append_ge n d _ long),
      λ h.
          let z : n - length d ≡ 0 = ground (arith, m.new_size, m.new_position, w.new_size) in
          rw z refl,
    )

-- The same for an object of `n` bytes that is given by an equation.
write-unread_of :
    (fresh around : Memory) (n : ℕ) (x d : List ℕ) {b : ByteArray}
    → x ≡ d
    → n ≡ length d
    → 0 < n
    → Takes n b
    → (b' : ByteArray) × ((write fresh (object around x) n b >>= set_position b.position) ≡ done b')
      × Inv b'
      × (b'.endian ≡ b.endian)
      × (rest : List ℕ) × (unread b' ≡ d ++ rest)
write-unread_of fresh around n x d {b} e len s t =
    let (b', w, v, same, rest, u, _) =
      write-unread fresh around d {b = b} (rw len at s) (rw len at t) in
    (b', rw (e, len) w, v, same, rest, u)

module _ (fresh around : Memory) (host : ℕ) where
  -- Any 64-bit number that writeUint64 writes at the start of a node with room for its code is
  -- returned by readUint64 once the position is set back, and the invariant is kept.
  pub uint64_round_trip :
      (v : ℕ) {b : ByteArray}
      → v < 2 ^ 64
      → Takes (length (varint 9 v)) b
      → (b' : ByteArray) × ((do
        b₁ ← write_uint64 fresh around host v b
        b₂ ← set_position b.position b₁
        read_uint64 b₂)
          ≡ done (v, b'))
        × Inv b'
  unfolding write_uint64
  uint64_round_trip v {b} h t =
      let code = varint_loop_lem 9 v (omega arith) in
      let (b₂, e, w, _, rest, u, _) =
        write-unread fresh around (varint 9 v) (omega (arith, length-varint 9 v)) t in
      let (b₃, f, w', _) = read_uint64-varint v rest w h u in
      (
        b₃,
        rw code (
            >>=-then (write fresh (object around (varint 9 v)) (length (varint 9 v)) b)
              (set_position b.position) read_uint64 e f),
        w',
      )

  -- A number below 2 ^ 28 that writeUint32 writes at the start of a node with room for its code, as
  -- the last bytes of the array, makes readUint32 throw once the position is set back.
  pub uint32_read_back_throws :
      (v : ℕ) {b : ByteArray}
      → v < 2 ^ 28
      → Takes (length (varint 4 v)) b
      → b.size ≤ b.position + length (varint 4 v)
      → (do
        b₁ ← write_uint32 fresh around host v b
        b₂ ← set_position b.position b₁
        read_uint32 b₂)
        ≡ throws
  unfolding write_uint32
  uint32_read_back_throws v {b} h t last =
      let code = varint_loop_lem 4 v (omega arith) in
      let (b₂, e, w, _, rest, u, z) =
        write-unread fresh around (varint 4 v) (omega (arith, length-varint 4 v)) t in
      let few : length (unread b₂) < 5 = omega (
        arith,
        ap length u,
        length-append (varint 4 v) rest,
        ap length (z last),
        length-varint_le 3 4 v (omega arith),
      ) in
      rw code (
        >>=-then (write fresh (object around (varint 4 v)) (length (varint 4 v)) b)
          (set_position b.position) read_uint32 e (read_uint32-throws w few))

  -- A signed 64-bit number of magnitude below 2 ^ 30 that writeInt64 writes at the start of a node
  -- with room for its code is returned by readInt64 once the position is set back, and the
  -- invariant is kept.
  pub int64_round_trip :
      (v : ℕ) {b : ByteArray}
      → v < 2 ^ 64
      → magnitude v < 2 ^ 30
      → Takes (length (varint 9 (sign_extend (encode_zigzag64 v)))) b
      → (b' : ByteArray) × ((do
        b₁ ← write_int64 fresh around host v b
        b₂ ← set_position b.position b₁
        read_int64 b₂)
          ≡ done (v, b'))
        × Inv b'
  unfolding write_int64 read_int64
  int64_round_trip v {b} h small t =
      let code = sign_extend (encode_zigzag64 v) in
      let (b', e, w) =
        uint64_round_trip code {b = b} (sign_extend-lt (encode_zigzag64 v) (encode_zigzag64-lt v))
          t in
      let back : decode_zigzag64 code ≡ v = (decode-encode_zigzag64 v h).1 (inl small) in
      (
        b',
        >>=-then_two (write_uint64 fresh around host code b) (set_position b.position) read_uint64
            (λ r. done (decode_zigzag64 r.0, r.1)) e (ap (λ (x : ℕ). done (x, b')) back),
        w,
      )

  -- An integer of `n` bytes, `n` not 0, that is written with the functions of fixed length and read
  -- back after the position is set back, is returned, for either byte order of the array and of the
  -- host, if the array has the invariant, can take `n` bytes, and stands at the start of a node
  -- that is long enough; the invariant is kept.
  pub fixed_round_trip :
      (n v : ℕ) {b : ByteArray}
      → 0 < n
      → v < 256 ^ n
      → IsOrder b.endian
      → IsOrder host
      → Takes n b
      → (b' : ByteArray) × ((do
        b₁ ← write_fixed fresh around host n v b
        b₂ ← set_position b.position b₁
        read_fixed host n b₂)
          ≡ done (v, b'))
        × Inv b'
  unfolding write_fixed read_fixed
  fixed_round_trip n v {b} s h oe oh t =
      let d = if b.endian == 1 then le_bytes n v else reverse (le_bytes n v) in
      let len : length d ≡ n = ground (arith, length-le_bytes n v, length-reverse (le_bytes n v)) in
      let order = host_bytes-order b.endian host n v oe oh in
      let (b₂, wrote, w, same, rest, u) =
        write-unread_of fresh around n
          (host_bytes host n (if b.endian == host then v else byteswap n v)) d order (sym len) s
          t in
      let (b₃, f, c) = read-unread n w s (omega (arith, ap length u, length-append d rest, len)) in
      let none_over : n - length d ≡ 0 = omega (arith, len) in
      let front : take n (unread b₂) ≡ d =
        ap (take n) u
        ∙ take-append_ge n d rest (omega (arith, len))
        ∙ rw none_over (append-nil d) in
      let value = of_host_bytes-order b.endian host n v oe oh h in
      (
        b₃,
        >>=-then
            (write fresh
              (object around (host_bytes host n (if b.endian == host then v else byteswap n v))) n
              b)
            (set_position b.position) (read_fixed host n) wrote
            (unfold read_fixed in rw (f, same, front) (ap (λ (x : ℕ). done (x, b₃)) value)),
        c.inv,
      )

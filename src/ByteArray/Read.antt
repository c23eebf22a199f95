-- ===== src/ByteArray/Read.antt =====
-- `read`, `setPosition` and `clear`: when they end, what they return, and what they leave.
use native.Mathlib.Nat.{zero-add, suc-add}
use server_framework_learnin.Prelude.{
  ℕ, zero, suc, ◌+◌, ◌-◌, ◌*◌, ◌%◌, ◌≤◌, ◌<◌, ◌≡◌, refl, sym, ap, ◌∙◌, inl, inr, List, [], ◌∷◌,
  ◌++◌, false, leb, ltb, ◌==◌, if◌then◌else◌, length, Bool-cases, take, drop, done, arith,
}
use server_framework_learnin.ByteArray.{ByteArray, Node, get_read_size}
use server_framework_learnin.ByteArray.Access.{read_loop, read_from, read, seek, set_position}
use server_framework_learnin.ByteArray.Flat.{contents, Full, Full-drop, cut_left, cut_both}
use server_framework_learnin.ByteArray.Invariant.{Inv}
use server_framework_learnin.ByteArray.Write.{
  bytes_before, room_after, split_contents, position_split,
}

-- A piece of a row that starts after its first `length xs` bytes.
drop-append : (xs ys : List ℕ) (at : ℕ) → drop (length xs + at) (xs ++ ys) ≡ drop at ys
drop-append [] ys at = simp zero-add
drop-append (x ∷ xs) ys at = rw suc-add (drop-append xs ys at)

pub read_loop_lem :
    (base : ℕ) (ns : List Node) (npos size : ℕ)
    → Full base ns
    → npos < base
    → 0 < size
    → npos + size ≤ base * length ns
    → (steps : ℕ) × (read_loop ns npos size ≡ done (take size (drop npos (contents ns)), steps))
      × (base * steps ≤ npos + size)
      × (npos + size < base * steps + base)
unfolding read_loop
read_loop_lem base [] npos size f p s h = absurd (omega arith)
read_loop_lem base (n ∷ ns) npos size f p s h = elim (Bool-cases (leb size (length n - npos))) [
  | inl fits ↦ (
    (if length n == npos + size then 1 else 0),
    rw (fits, cut_left n (contents ns) npos size (ground arith)) refl,
    ground arith,
    ground arith,
  )
  | inr over ↦
      let (steps, e, lo, hi) =
        read_loop_lem base ns 0 (size - (length n - npos)) f.1 (omega arith) (ground arith)
          (ground arith) in
      let parts : size ≡ length n - npos + (size - (length n - npos)) = ground arith in
      (
        suc steps,
        rw (over, e)
            (ap (λ (t : List ℕ). done (t, suc steps))
              (sym (
                  cut_both n (contents ns) npos (length n - npos) (size - (length n - npos))
                    (omega arith))
                ∙ ap (λ (k : ℕ). take k (drop npos (n ++ contents ns))) (sym parts))),
        ground arith,
        ground arith,
      )
]

-- What a successful `read` leaves.
pub record Moved (b b' : ByteArray) (val : ℕ) : Type 0 where
  pub inv : Inv b'
  pub same_nodes : b'.nodes ≡ b.nodes
  pub new_position : b'.position ≡ val
  pub new_size : b'.size ≡ (if ltb b.size val then val else b.size)
  pub same_base : b'.base_size ≡ b.base_size
  pub same_endian : b'.endian ≡ b.endian

pub read_from-read_loop :
    (ns : List Node) (npos size : ℕ) → 0 < size → read_from ns npos size ≡ read_loop ns npos size
unfolding read_from read_loop
read_from-read_loop [] npos size s = refl
read_from-read_loop (n ∷ ns) npos size s = let e : (size == 0) ≡ false = ground arith in rw e refl

pub slice_here :
    (size : ℕ) {b : ByteArray}
    → Inv b
    → take size (drop (b.position % b.base_size) (contents (drop b.cur b.nodes)))
      ≡ take size (drop b.position (contents b.nodes))
slice_here size {b} v =
    let at : length (contents (take b.cur b.nodes)) + b.position % b.base_size ≡ b.position =
      omega (arith, bytes_before v, position_split v) in
    ap (take size) (
      cc (
        at,
        split_contents b,
        drop-append (contents (take b.cur b.nodes)) (contents (drop b.cur b.nodes))
            (b.position % b.base_size),
      ))

-- In an array with the invariant, reading `size` bytes, `size` not 0 and no more than are there
-- between the position and the size, returns the contents from the position on, and leaves the
-- array with the invariant, the same nodes, size, node size and byte order, and the position behind
-- the bytes.
pub read_lem :
    (size : ℕ) {b : ByteArray}
    → Inv b
    → 0 < size
    → b.position + size ≤ b.size
    → (b' : ByteArray) × (read size b ≡ done (take size (drop b.position (contents b.nodes)), b'))
      × Moved b b' (b.position + size)
unfolding read get_read_size
read_lem size {b} v s h =
    let npos = b.position % b.base_size in
    let (steps, e, lo, hi) =
      read_loop_lem b.base_size (drop b.cur b.nodes) npos size
        (Full-drop b.base_size b.cur b.nodes v.full) (omega (arith, v.base_pos)) s
        (omega (arith, room_after v, position_split v, v.size_le)) in
    let enough : ltb (b.size - b.position) size ≡ false = ground arith in
    (
      record b { cur = b.cur + steps; position = b.position + size },
      rw (enough, read_from-read_loop (drop b.cur b.nodes) npos size s, e)
          (ap
            (λ (t : List ℕ).
              done (t, record b { cur = b.cur + steps; position = b.position + size }))
            (slice_here size v)),
      record {
        inv = record {
          base_pos = v.base_pos;
          full = v.full;
          rooted = v.rooted;
          cap = v.cap;
          cur_from = omega (arith, lo, position_split v);
          cur_before = omega (arith, hi, position_split v);
          pos_le = h;
          size_le = v.size_le;
        };
        same_nodes = refl;
        new_position = refl;
        new_size = ground arith;
        same_base = refl;
        same_endian = refl;
      },
    )

more_nodes : (base val k : ℕ) → base < val → val ≤ base * suc k → 0 < k
more_nodes base val zero h l = absurd (omega arith)
more_nodes base val (suc k) h l = omega arith

seek_lem :
    (base : ℕ) (ns : List Node) (at val : ℕ)
    → Full base ns
    → 0 < base
    → 0 < length ns
    → val ≤ base * length ns
    → (steps : ℕ) × (seek ns at val ≡ done (at + steps))
      × (base * steps ≤ val)
      × (val < base * steps + base)
unfolding seek
seek_lem base [] at val f p s h = absurd (omega arith)
seek_lem base (n ∷ ns) at val f p s h = elim (Bool-cases (ltb (length n) val)) [
  | inl past ↦
      let some_left : 0 < length ns = more_nodes base val (length ns) (ground arith) h in
      let (steps, e, lo, hi) =
        seek_lem base ns (suc at) (val - length n) f.1 p some_left (ground arith) in
      (suc steps, rw (past, e) (ap done (omega arith)), ground arith, ground arith)
  | inr here ↦ (
    (if val == length n then 1 else 0),
    rw here (ap done (ground arith)),
    ground arith,
    ground arith,
  )
]

-- In an array with the invariant, setPosition of a value up to the capacity returns, keeps the
-- nodes, node size and byte order, raises the size to the value if it was below, and leaves the
-- invariant: the current node is the one of the position.
pub set_position_lem :
    (val : ℕ) {b : ByteArray}
    → Inv b
    → val ≤ b.capacity
    → (b' : ByteArray) × (set_position val b ≡ done b') × Moved b b' val
unfolding set_position
set_position_lem val {b} v h =
    let (steps, e, lo, hi) =
      seek_lem b.base_size b.nodes 0 val v.full v.base_pos v.rooted (omega (arith, v.cap)) in
    let inside : ltb b.capacity val ≡ false = ground arith in
    (
      record b { position = val; size = if ltb b.size val then val else b.size; cur = 0 + steps },
      rw (inside, e) refl,
      record {
        inv = record {
          base_pos = v.base_pos;
          full = v.full;
          rooted = v.rooted;
          cap = v.cap;
          cur_from = omega (arith, lo);
          cur_before = omega (arith, hi);
          pos_le = ground arith;
          size_le = ground (arith, v.size_le);
        };
        same_nodes = refl;
        new_position = refl;
        new_size = refl;
        same_base = refl;
        same_endian = refl;
      },
    )

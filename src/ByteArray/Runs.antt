-- ===== src/ByteArray/Runs.antt =====
-- Runs of the operations of a ByteArray on a small array, at the theorems' statements.
use server_framework_learnin.Prelude.{
  ℕ, ◌+◌, ◌*◌, ◌<◌, ◌≤◌, ◌%◌, ◌≡◌, ◌↔◌, refl, inl, arith, [], ◌∷◌, length, done, ◌>>=◌,
}
use server_framework_learnin.ByteArray.{ByteArray, Memory, Node, write, add_capacity}
use server_framework_learnin.ByteArray.Access.{read, set_position}
use server_framework_learnin.ByteArray.Stored.{written_bytes}
use server_framework_learnin.ByteArray.Invariant.{Inv, Provides, add_capacity-Provides}
use server_framework_learnin.ByteArray.Write.{Wrote, write-Wrote}
use server_framework_learnin.ByteArray.RoundTrip.{write-read_back}
use server_framework_learnin.ByteArray.Codec.{varint_loop, write_uint64, read_uint64}
use server_framework_learnin.ByteArray.Varint.{varint, varint_loop_lem}
use server_framework_learnin.ByteArray.Values.{Takes, uint64_round_trip}

-- Memory whose byte at offset `i` is `i + 10`, and memory of zeros.
abbrev memory : Memory
memory i = i + 10

abbrev zeros : Memory
zeros i = 0

-- Two nodes of four bytes with six bytes in them.
abbrev array : ℕ → ℕ → ByteArray
array position cur = record {
  base_size = 4;
  position = position;
  capacity = 8;
  size = 6;
  endian = 2;
  nodes = (1 ∷ 2 ∷ 3 ∷ 4 ∷ []) ∷ (5 ∷ 6 ∷ 0 ∷ 0 ∷ []) ∷ [];
  cur = cur;
}

-- One node of four bytes, empty.
abbrev fresh_array : ByteArray
fresh_array = record {
  base_size = 4;
  position = 0;
  capacity = 4;
  size = 0;
  endian = 2;
  nodes = (0 ∷ 0 ∷ 0 ∷ 0 ∷ []) ∷ [];
  cur = 0;
}

-- One node with the code of 300 in it.
abbrev code_array : ByteArray
code_array = record {
  base_size = 4;
  position = 0;
  capacity = 4;
  size = 3;
  endian = 2;
  nodes = (172 ∷ 2 ∷ 7 ∷ 0 ∷ []) ∷ [];
  cur = 0;
}

array-Inv :
    (position cur : ℕ)
    → 4 * cur ≤ position
    → position < 4 * cur + 4
    → position ≤ 6
    → Inv (array position cur)
array-Inv position cur h k l = record {
  base_pos = omega arith;
  full = (refl, (refl, tt));
  rooted = omega arith;
  cap = refl;
  cur_from = h;
  cur_before = k;
  pos_le = l;
  size_le = omega arith;
}

start_Inv : Inv (array 0 0)
start_Inv = array-Inv 0 0 (omega arith) (omega arith) (omega arith)

second_Inv : Inv (array 4 1)
second_Inv = array-Inv 4 1 (omega arith) (omega arith) (omega arith)

third_Inv : Inv (array 3 0)
third_Inv = array-Inv 3 0 (omega arith) (omega arith) (omega arith)

one_node_Inv :
    (size : ℕ) (n : Node)
    → length n ≡ 4
    → size ≤ 4
    → Inv (record {
      base_size = 4;
      position = 0;
      capacity = 4;
      size = size;
      endian = 2;
      nodes = n ∷ [];
      cur = 0;
    })
one_node_Inv size n e h = record {
  base_pos = omega arith;
  full = (e, tt);
  rooted = omega arith;
  cap = refl;
  cur_from = omega arith;
  cur_before = omega arith;
  pos_le = omega arith;
  size_le = h;
}

fresh_Inv : Inv fresh_array
fresh_Inv = one_node_Inv 0 (0 ∷ 0 ∷ 0 ∷ 0 ∷ []) refl (omega arith)

code_Inv : Inv code_array
code_Inv = one_node_Inv 3 (172 ∷ 2 ∷ 7 ∷ 0 ∷ []) refl (omega arith)

fresh_Takes : (n : ℕ) → n ≤ 4 → Takes n fresh_array
fresh_Takes n h = record { inv = fresh_Inv; provides = inl h; aligned = refl; in_node = h }

write-Wrote_example :
    (b' : ByteArray) × (write zeros memory 5 (array 3 0) ≡ done b') × Wrote memory 5 (array 3 0) b'
write-Wrote_example = write-Wrote zeros memory 5 third_Inv (omega arith) (inl (omega arith))

add_capacity-Provides_example :
    (3 + 9 ≤ (add_capacity zeros 9 (array 3 0)).capacity) ↔ Provides 9 (array 3 0)
add_capacity-Provides_example = add_capacity-Provides zeros 9 third_Inv

write-read_back_example :
    (b' : ByteArray) × ((do
      b₁ ← write zeros memory 5 (array 3 0)
      b₂ ← set_position 3 b₁
      read 5 b₂)
      ≡ done (written_bytes memory 4 (3 % 4) 5, b'))
    × Inv b'
write-read_back_example = write-read_back zeros memory 5 third_Inv (omega arith) (inl (omega arith))

varint_loop_lem_example : varint_loop 2 300 ≡ done (varint 1 300)
varint_loop_lem_example = varint_loop_lem 1 300 (omega arith)

uint64_round_trip_example :
    (b' : ByteArray) × ((do
      b₁ ← write_uint64 zeros memory 1 300 fresh_array
      b₂ ← set_position 0 b₁
      read_uint64 b₂)
      ≡ done (300, b'))
    × Inv b'
unfolding varint
uint64_round_trip_example =
    uint64_round_trip zeros memory 1 300 (omega arith)
      (fresh_Takes (length (varint 9 300)) (omega arith))

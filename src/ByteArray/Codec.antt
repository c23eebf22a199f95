-- ===== src/ByteArray/Codec.antt =====
-- sylar/bytearray.cpp and sylar/endian.h: integers and strings in a ByteArray. An integer of `n`
-- bytes is its bit pattern, a number below 256 ^ n. `host` is SYLAR_BYTE_ORDER, and `around` is the
-- memory in which the object that is handed to `write` lies.
use Prim.Native.Nat.{bit_and, bit_or, bit_xor}
use mathlib.Core.List.{reverse}
use server_framework_learnin.Prelude.{
  ℕ, zero, suc, ◌+◌, ◌-◌, ◌*◌, ◌/◌, ◌%◌, ◌^◌, List, [], ◌∷◌, none, some, get_elem?, ltb, leb, ◌==◌,
  if◌then◌else◌, length, Outcome, done, fault, ◌>>=◌,
}
use server_framework_learnin.ByteArray.{ByteArray, Memory, write}
use server_framework_learnin.ByteArray.Access.{read}

-- The bytes of an integer, lowest first, and the integer of such bytes.
unfoldable pub le_bytes : ℕ → ℕ → List ℕ
le_bytes zero v = []
le_bytes (suc n) v = v % 256 ∷ le_bytes n (v / 256)

unfoldable pub of_le_bytes : List ℕ → ℕ
of_le_bytes [] = 0
of_le_bytes (x ∷ xs) = x + 256 * of_le_bytes xs

-- byteswap, of sylar/endian.h: the bytes the other way round.
unfoldable pub byteswap : ℕ → ℕ → ℕ
byteswap n v = of_le_bytes (reverse (le_bytes n v))

-- An integer as it lies in memory. The value 1 of `host` is the little endian order.
unfoldable pub host_bytes : ℕ → ℕ → ℕ → List ℕ
host_bytes host n v = if host == 1 then le_bytes n v else reverse (le_bytes n v)

unfoldable pub of_host_bytes : ℕ → List ℕ → ℕ
of_host_bytes host xs = if host == 1 then of_le_bytes xs else of_le_bytes (reverse xs)

-- The memory from an object on.
unfoldable pub object : Memory → List ℕ → Memory
object around bytes i = elim (get_elem? bytes i) [ none ↦ around i | some x ↦ x ]

-- The loop of `writeUint32` and `writeUint64`, with the bytes that are left in `tmp`.
unfoldable pub varint_loop : ℕ → ℕ → Outcome (List ℕ)
varint_loop zero value = fault
varint_loop (suc room) value =
    let rest = varint_loop room (value / 128) in
    if leb 0x80 value
    then (rest >>= λ (r : List ℕ). done (bit_or (bit_and value 0x7f) 0x80 ∷ r))
    else done (value ∷ [])

-- EncodeZigzag32; a negative number is a pattern from 2 ^ 31 on. A signed product or negation that
-- overflows, which C++ leaves undefined, wraps here.
unfoldable pub encode_zigzag32 : ℕ → ℕ
encode_zigzag32 v =
    if leb (2 ^ 31) v then ((2 ^ 32 - v) * 2 + 2 ^ 32 - 1) % 2 ^ 32 else v * 2 % 2 ^ 32

-- EncodeZigzag64, which returns an int32_t: the low 32 bits.
unfoldable pub encode_zigzag64 : ℕ → ℕ
encode_zigzag64 v =
    if leb (2 ^ 63) v
    then ((2 ^ 64 - v) * 2 + 2 ^ 64 - 1) % 2 ^ 64 % 2 ^ 32
    else v * 2 % 2 ^ 64 % 2 ^ 32

-- The conversion of an int32_t to a uint64_t.
unfoldable pub sign_extend : ℕ → ℕ
sign_extend v = if leb (2 ^ 31) v then v + (2 ^ 64 - 2 ^ 32) else v

-- DecodeZigzag32 and DecodeZigzag64.
unfoldable pub decode_zigzag32 : ℕ → ℕ
decode_zigzag32 v = bit_xor (v / 2) ((2 ^ 32 - bit_and v 1) % 2 ^ 32)

unfoldable pub decode_zigzag64 : ℕ → ℕ
decode_zigzag64 v = bit_xor (v / 2) ((2 ^ 64 - bit_and v 1) % 2 ^ 64)

module _ (fresh around : Memory) (host : ℕ) where
  -- What the functions of fixed length share: the bytes in the array's order.
  unfoldable pub write_fixed : ℕ → ℕ → ByteArray → Outcome ByteArray
  write_fixed n value b =
      let swapped = if b.endian == host then value else byteswap n value in
      write fresh (object around (host_bytes host n swapped)) n b

  unfoldable pub write_fint8 : ℕ → ByteArray → Outcome ByteArray
  write_fint8 value b = write fresh (object around (value ∷ [])) 1 b

  unfoldable pub write_fuint8 : ℕ → ByteArray → Outcome ByteArray
  write_fuint8 value b = write fresh (object around (value ∷ [])) 1 b

  unfoldable pub write_fint16 : ℕ → ByteArray → Outcome ByteArray
  write_fint16 value b = write_fixed 2 value b

  -- The value is swapped, and nothing is written.
  unfoldable pub write_fuint16 : ℕ → ByteArray → Outcome ByteArray
  write_fuint16 value b = done b

  unfoldable pub write_fint32 : ℕ → ByteArray → Outcome ByteArray
  write_fint32 value b = write_fixed 4 value b

  unfoldable pub write_fuint32 : ℕ → ByteArray → Outcome ByteArray
  write_fuint32 value b = write_fixed 4 value b

  unfoldable pub write_fint64 : ℕ → ByteArray → Outcome ByteArray
  write_fint64 value b = write_fixed 8 value b

  unfoldable pub write_fuint64 : ℕ → ByteArray → Outcome ByteArray
  write_fuint64 value b = write_fixed 8 value b

  unfoldable pub write_uint32 : ℕ → ByteArray → Outcome ByteArray
  write_uint32 value b =
      varint_loop 5 value >>= λ (tmp : List ℕ). write fresh (object around tmp) (length tmp) b

  unfoldable pub write_uint64 : ℕ → ByteArray → Outcome ByteArray
  write_uint64 value b =
      varint_loop 10 value >>= λ (tmp : List ℕ). write fresh (object around tmp) (length tmp) b

  unfoldable pub write_int32 : ℕ → ByteArray → Outcome ByteArray
  write_int32 value b = write_uint32 (encode_zigzag32 (encode_zigzag32 value)) b

  unfoldable pub write_int64 : ℕ → ByteArray → Outcome ByteArray
  write_int64 value b = write_uint64 (sign_extend (encode_zigzag64 value)) b

  -- writeStringWithoutLength, and the four that write a length first.
  unfoldable pub write_string : List ℕ → ByteArray → Outcome ByteArray
  write_string value b = write fresh (object around value) (length value) b

  unfoldable pub write_string_f16 : List ℕ → ByteArray → Outcome ByteArray
  write_string_f16 value b = write_fuint16 (length value % 2 ^ 16) b >>= write_string value

  unfoldable pub write_string_f32 : List ℕ → ByteArray → Outcome ByteArray
  write_string_f32 value b = write_fuint32 (length value % 2 ^ 32) b >>= write_string value

  unfoldable pub write_string_f64 : List ℕ → ByteArray → Outcome ByteArray
  write_string_f64 value b = write_fuint64 (length value) b >>= write_string value

  unfoldable pub write_string_vint : List ℕ → ByteArray → Outcome ByteArray
  write_string_vint value b = write_uint64 (length value) b >>= write_string value

unfoldable pub read_fuint8 : ByteArray → Outcome (ℕ × ByteArray)
read_fuint8 b = read 1 b >>= λ (r : List ℕ × ByteArray). done (of_le_bytes r.0, r.1)

-- The macro XX, for an integer of `n` bytes.
unfoldable pub read_fixed : ℕ → ℕ → ByteArray → Outcome (ℕ × ByteArray)
read_fixed host n b = read n b >>= λ (r : List ℕ × ByteArray).
    let value = of_host_bytes host r.0 in
    done (if b.endian == host then value else byteswap n value, r.1)

-- The loop of `readUint32`, which takes a byte in each of its rounds, `i` bits on.
unfoldable pub read_uint32_loop : ℕ → ℕ → ℕ → ByteArray → Outcome (ℕ × ByteArray)
read_uint32_loop zero i result b = done (result, b)
read_uint32_loop (suc rounds) i result b = read_fuint8 b >>= λ (r : ℕ × ByteArray).
    let x = if ltb r.0 0x80 then r.0 else bit_and r.0 0x7f in
    read_uint32_loop rounds (i + 7) (bit_or result (x * 2 ^ i % 2 ^ 32)) r.1

unfoldable pub read_uint32 : ByteArray → Outcome (ℕ × ByteArray)
read_uint32 b = read_uint32_loop 5 0 0 b

-- The loop of `readUint64`, which ends at a byte below 0x80.
unfoldable pub read_uint64_loop : ℕ → ℕ → ℕ → ByteArray → Outcome (ℕ × ByteArray)
read_uint64_loop zero i result b = done (result, b)
read_uint64_loop (suc rounds) i result b = read_fuint8 b >>= λ (r : ℕ × ByteArray).
    let more =
      read_uint64_loop rounds (i + 7) (bit_or result (bit_and r.0 0x7f * 2 ^ i % 2 ^ 64)) r.1 in
    if ltb r.0 0x80 then done (bit_or result (r.0 * 2 ^ i % 2 ^ 64), r.1) else more

unfoldable pub read_uint64 : ByteArray → Outcome (ℕ × ByteArray)
read_uint64 b = read_uint64_loop 10 0 0 b

unfoldable pub read_int32 : ByteArray → Outcome (ℕ × ByteArray)
read_int32 b = read_uint32 b >>= λ (r : ℕ × ByteArray). done (decode_zigzag32 r.0, r.1)

unfoldable pub read_int64 : ByteArray → Outcome (ℕ × ByteArray)
read_int64 b = read_uint64 b >>= λ (r : ℕ × ByteArray). done (decode_zigzag64 r.0, r.1)

-- The four functions that read a length, and then as many bytes.
unfoldable pub read_string_f16 : ℕ → ByteArray → Outcome (List ℕ × ByteArray)
read_string_f16 host b = read_fixed host 2 b >>= λ (r : ℕ × ByteArray). read r.0 r.1

unfoldable pub read_string_f32 : ℕ → ByteArray → Outcome (List ℕ × ByteArray)
read_string_f32 host b = read_fixed host 4 b >>= λ (r : ℕ × ByteArray). read r.0 r.1

unfoldable pub read_string_f64 : ℕ → ByteArray → Outcome (List ℕ × ByteArray)
read_string_f64 host b = read_fixed host 8 b >>= λ (r : ℕ × ByteArray). read r.0 r.1

unfoldable pub read_string_vint : ByteArray → Outcome (List ℕ × ByteArray)
read_string_vint b = read_uint64 b >>= λ (r : ℕ × ByteArray). read r.0 r.1

-- ===== src/ByteArray/Access.antt =====
-- sylar/bytearray.cpp: reading, the position, `clear`, and the buffers for scattered input and
-- output.
use server_framework_learnin.Prelude.{
  ℕ, suc, ◌+◌, ◌-◌, ◌/◌, ◌%◌, List, [], ◌∷◌, ◌++◌, ltb, leb, ◌==◌, if◌then◌else◌, length, take,
  drop, Outcome, done, throws, fault, ◌>>=◌,
}
use server_framework_learnin.ByteArray.{ByteArray, Node, Memory, get_read_size, add_capacity}

-- The loop of the two `read`s from a node on: the bytes, and the number of steps to the node where
-- it ends. A test of `size` follows each piece.
unfoldable pub read_loop : List Node → ℕ → ℕ → Outcome (List ℕ × ℕ)
read_loop [] npos size = fault
read_loop (n ∷ ns) npos size =
    let ncap = length n - npos in
    let rest = read_loop ns 0 (size - ncap) in
    if leb size ncap
    then done (take size (drop npos n), if length n == npos + size then 1 else 0)
    else (rest >>= λ (r : List ℕ × ℕ). done (take ncap (drop npos n) ++ r.0, suc r.1))

-- What stands before the loop loads `m_cur->size`; with `size` 0 the loop is left at once.
unfoldable pub read_from : List Node → ℕ → ℕ → Outcome (List ℕ × ℕ)
read_from [] npos size = fault
read_from (n ∷ ns) npos size = if size == 0 then done ([], 0) else read_loop (n ∷ ns) npos size

-- read(buf, size): the bytes that it stores in `buf`, and the array.
unfoldable pub read : ℕ → ByteArray → Outcome (List ℕ × ByteArray)
read size b =
    if ltb (get_read_size b) size
    then throws
    else (read_from (drop b.cur b.nodes) (b.position % b.base_size) size >>= λ (r : List ℕ × ℕ).
        done (r.0, record b { cur = b.cur + r.1; position = b.position + size }))

-- read(buf, size, position): the check is of m_position, and the loop starts at m_cur.
unfoldable pub read_at : ℕ → ℕ → ByteArray → Outcome (List ℕ)
read_at size position b =
    if ltb (get_read_size b) size
    then throws
    else (read_from (drop b.cur b.nodes) (position % b.base_size) size >>= λ (r : List ℕ × ℕ).
        done r.0)

-- The loop of `setPosition` from the node at `at` on: where m_cur ends.
unfoldable pub seek : List Node → ℕ → ℕ → Outcome ℕ
seek [] at val = fault
seek (n ∷ ns) at val =
    let rest = seek ns (suc at) (val - length n) in
    if ltb (length n) val then rest else done (if val == length n then suc at else at)

-- setPosition(val).
unfoldable pub set_position : ℕ → ByteArray → Outcome ByteArray
set_position val b =
    if ltb b.capacity val
    then throws
    else (seek b.nodes 0 val >>= λ (at : ℕ).
        done (record b { position = val; size = if ltb b.size val then val else b.size; cur = at }))

-- clear(): all nodes but the root are freed. The root is never null.
unfoldable pub clear : ByteArray → ByteArray
clear b = record b { position = 0; size = 0; nodes = take 1 b.nodes; cur = 0 }

-- toString().
unfoldable pub to_string : ByteArray → Outcome (List ℕ)
to_string b = if get_read_size b == 0 then done [] else read_at (get_read_size b) b.position b

-- An iovec: the node and the offset that iov_base leads to, and iov_len.
pub record Iovec : Type 0 where
  pub node : ℕ
  pub offset : ℕ
  pub len : ℕ

-- The loop of the three functions below from the node at `at` on.
unfoldable pub buffers_loop : List Node → ℕ → ℕ → ℕ → Outcome (List Iovec)
buffers_loop [] at npos len = fault
buffers_loop (n ∷ ns) at npos len =
    let ncap = length n - npos in
    let rest = buffers_loop ns (suc at) 0 (len - ncap) in
    if leb len ncap
    then done (record { node = at; offset = npos; len = len } ∷ [])
    else (rest >>= λ (r : List Iovec). done (record { node = at; offset = npos; len = ncap } ∷ r))

-- getReadBuffers(buffers, len): the buffers it appends and the length it returns.
unfoldable pub get_read_buffers : ℕ → ByteArray → Outcome (List Iovec × ℕ)
get_read_buffers len b =
    let size = if ltb (get_read_size b) len then get_read_size b else len in
    if size == 0
    then done ([], 0)
    else (buffers_loop (drop b.cur b.nodes) b.cur (b.position % b.base_size) size
        >>= λ (r : List Iovec). done (r, size))

-- getReadBuffers(buffers, len, position): the node is sought from the root.
unfoldable pub get_read_buffers_at : ℕ → ℕ → ByteArray → Outcome (List Iovec × ℕ)
get_read_buffers_at len position b =
    let size = if ltb (get_read_size b) len then get_read_size b else len in
    let count = position / b.base_size in
    if size == 0
    then done ([], 0)
    else (buffers_loop (drop count b.nodes) count (position % b.base_size) size
        >>= λ (r : List Iovec). done (r, size))

-- getWriteBuffers(buffers, len): it grows the array, and moves nothing.
unfoldable pub get_write_buffers : Memory → ℕ → ByteArray → Outcome (List Iovec × ℕ × ByteArray)
get_write_buffers fresh len b =
    let c = add_capacity fresh len b in
    if len == 0
    then done ([], 0, b)
    else (buffers_loop (drop c.cur c.nodes) c.cur (c.position % c.base_size) len
        >>= λ (r : List Iovec). done (r, len, c))

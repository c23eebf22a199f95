-- ===== src/Stream.antt =====
-- sylar/stream.h and sylar/stream.cpp: the loops that read or write a fixed size over the read and
-- write of a stream, which are parameters. A buffer is the list of its bytes, and a write outside
-- of it is `fault`. The int that a read or write returns is kept in a size_t of 64 bits, so a
-- negative one wraps, and the size that is returned is cut to the 32 bits of an int. The loops are
-- recursion on fuel, one unit for each read or write.
pub mod Fixed
pub mod Accepted
mod Runs
use server_framework_learnin.Prelude.{
  ℕ, zero, suc, ◌+◌, ◌-◌, ◌%◌, ◌^◌, List, [], ◌∷◌, ◌++◌, length, take, drop, leb, ◌==◌,
  if◌then◌else◌, Outcome, done, fault, ◌>>=◌,
}

-- What a read returns: bytes, fewer than 2 ^ 31; 0; or the negative number -1 - k.
pub data Answer : Type 0 where
  bytes : List ℕ → Answer
  closed : Answer
  failed : ℕ → Answer

-- What a write returns.
pub data Receipt : Type 0 where
  accepted : ℕ → Receipt
  refused : ℕ → Receipt

-- The size_t that the int is kept in.
unfoldable pub size_of_failure : ℕ → ℕ
size_of_failure k = 2 ^ 64 - 1 - k

unfoldable pub read_size : Answer → ℕ
unfolding size_of_failure
read_size (bytes d) = length d
read_size closed = 0
read_size (failed k) = size_of_failure k

unfoldable pub write_size : Receipt → ℕ
unfolding size_of_failure
write_size (accepted n) = n
write_size (refused k) = size_of_failure k

-- Bytes are stored at an offset.
unfoldable pub store_at : List ℕ → ℕ → List ℕ → Outcome (List ℕ)
store_at buffer offset d =
    if leb (offset + length d) (length buffer)
    then done (take offset buffer ++ d ++ drop (offset + length d) buffer)
    else fault

unfoldable pub receive : List ℕ → ℕ → Answer → Outcome (List ℕ)
receive buffer offset (bytes d) = store_at buffer offset d
receive buffer offset closed = done buffer
receive buffer offset (failed k) = done buffer

-- `left` bytes are loaded from an offset.
unfoldable pub load_at : List ℕ → ℕ → ℕ → Outcome (List ℕ)
load_at buffer offset left =
    if leb (offset + left) (length buffer) then done (take left (drop offset buffer)) else fault

-- The end of a loop: what is returned, the buffer and the stream; or more fuel is needed.
pub data Loop {ℓ} (S : Type ℓ) : Type ℓ where
  returned : ℕ → List ℕ → S → Loop S
  unfinished : Loop S

unfoldable pub advance : ℕ → ℕ → ℕ
advance offset n = (offset + n) % 2 ^ 64

unfoldable pub lessen : ℕ → ℕ → ℕ
lessen left n = (left + 2 ^ 64 - n) % 2 ^ 64

module _ {ℓ} {S : Type ℓ} (read : S → ℕ → Answer × S) where
  unfoldable pub read_loop : ℕ → ℕ → List ℕ → ℕ → ℕ → S → Outcome (Loop S)
  read_loop fuel size buffer offset zero s = done (returned (size % 2 ^ 32) buffer s)
  read_loop zero size buffer offset (suc left) s = done unfinished
  read_loop (suc fuel) size buffer offset (suc left) s =
      let (a, t) = read s (suc left) in
      receive buffer offset a >>= λ (b : List ℕ).
      let rest =
        read_loop fuel size b (advance offset (read_size a)) (lessen (suc left) (read_size a)) t in
      if read_size a == 0 then done (returned 0 b t) else rest

  -- readFixSize(buffer, length).
  unfoldable pub read_fix_size : ℕ → List ℕ → ℕ → S → Outcome (Loop S)
  read_fix_size fuel buffer size s = read_loop fuel size buffer 0 size s

module _ {ℓ} {S : Type ℓ} (write : S → List ℕ → Receipt × S) where
  unfoldable pub write_loop : ℕ → ℕ → List ℕ → ℕ → ℕ → S → Outcome (Loop S)
  write_loop fuel size buffer offset zero s = done (returned (size % 2 ^ 32) buffer s)
  write_loop zero size buffer offset (suc left) s = done unfinished
  write_loop (suc fuel) size buffer offset (suc left) s =
      load_at buffer offset (suc left) >>= λ (d : List ℕ).
      let (a, t) = write s d in
      let rest =
        write_loop fuel size buffer (advance offset (write_size a))
          (lessen (suc left) (write_size a)) t in
      if write_size a == 0 then done (returned 0 buffer t) else rest

  -- writeFixSize(buffer, length).
  unfoldable pub write_fix_size : ℕ → List ℕ → ℕ → S → Outcome (Loop S)
  write_fix_size fuel buffer size s = write_loop fuel size buffer 0 size s

-- The loops over a byte array, which the read or write moves on by itself: `step` returns the size.
module _ {ℓ} {S : Type ℓ} (step : S → ℕ → ℕ × S) where
  unfoldable pub array_loop : ℕ → ℕ → ℕ → S → Outcome (Loop S)
  array_loop fuel size zero s = done (returned (size % 2 ^ 32) [] s)
  array_loop zero size (suc left) s = done unfinished
  array_loop (suc fuel) size (suc left) s =
      let (n, t) = step s (suc left) in
      let rest = array_loop fuel size (lessen (suc left) n) t in
      if n == 0 then done (returned 0 [] t) else rest

-- ===== src/ByteArray/Fixed.antt =====
-- Integers of fixed length: the order of their bytes, and the way back.
use native.Mathlib.Nat.{pow-suc}
use mathlib.Core.List.{reverse, reverse-cons, reverse-reverse, append_assoc}
use mathlib.Core.Path.{ap₂}
use server_framework_learnin.Prelude.{
  ℕ, zero, suc, ◌+◌, ◌*◌, ◌/◌, ◌%◌, ◌^◌, ◌<◌, ◌≡◌, ◌⊎◌, refl, ap, ◌∙◌, inl, inr, List, [], ◌∷◌,
  ◌++◌, ◌==◌, if◌then◌else◌, length, length-append, get_elem?, some, arith,
}
use server_framework_learnin.ByteArray.{Memory, load}
use server_framework_learnin.ByteArray.Codec.{
  le_bytes, of_le_bytes, byteswap, host_bytes, of_host_bytes, object,
}

-- Every element is a byte.
abbrev pub Bytes : List ℕ → Type 0
Bytes [] = Unit {0}
Bytes (x ∷ xs) = (x < 256) × Bytes xs

Bytes-append : (xs ys : List ℕ) → Bytes xs → Bytes ys → Bytes (xs ++ ys)
Bytes-append [] ys h k = k
Bytes-append (x ∷ xs) ys h k = (h.0, Bytes-append xs ys h.1 k)

Bytes-reverse : (xs : List ℕ) → Bytes xs → Bytes (reverse xs)
Bytes-reverse [] h = tt
Bytes-reverse (x ∷ xs) h =
    rw (reverse-cons x xs) (Bytes-append (reverse xs) (x ∷ []) (Bytes-reverse xs h.1) (h.0, tt))

pub length-reverse : (xs : List ℕ) → length (reverse xs) ≡ length xs
length-reverse [] = refl
length-reverse (x ∷ xs) =
    omega
      (arith, ap length (reverse-cons x xs), length-append (reverse xs) (x ∷ []), length-reverse xs)

pub length-le_bytes : (n v : ℕ) → length (le_bytes n v) ≡ n
unfolding le_bytes
length-le_bytes zero v = refl
length-le_bytes (suc n) v = ap suc (length-le_bytes n (v / 256))

le_bytes-Bytes : (n v : ℕ) → Bytes (le_bytes n v)
unfolding le_bytes
le_bytes-Bytes zero v = tt
le_bytes-Bytes (suc n) v = (omega arith, le_bytes-Bytes n (v / 256))

pub of_le_bytes-le_bytes : (n v : ℕ) → v < 256 ^ n → of_le_bytes (le_bytes n v) ≡ v
unfolding le_bytes of_le_bytes
of_le_bytes-le_bytes zero v h = omega arith
of_le_bytes-le_bytes (suc n) v h =
    omega (arith, of_le_bytes-le_bytes n (v / 256) (omega (arith, pow-suc 256 n)))

le_bytes-of_le_bytes : (xs : List ℕ) → Bytes xs → le_bytes (length xs) (of_le_bytes xs) ≡ xs
unfolding le_bytes of_le_bytes
le_bytes-of_le_bytes [] h = refl
le_bytes-of_le_bytes (x ∷ xs) h =
    let low : (x + 256 * of_le_bytes xs) % 256 ≡ x = omega (arith, h.0) in
    let high : (x + 256 * of_le_bytes xs) / 256 ≡ of_le_bytes xs = omega (arith, h.0) in
    rw (low, high) (ap (◌∷◌ x) (le_bytes-of_le_bytes xs h.1))

pub le_bytes-byteswap : (n v : ℕ) → le_bytes n (byteswap n v) ≡ reverse (le_bytes n v)
unfolding byteswap
le_bytes-byteswap n v =
    rw (length-reverse, length-le_bytes) at
      (le_bytes-of_le_bytes (reverse (le_bytes n v))
        (Bytes-reverse (le_bytes n v) (le_bytes-Bytes n v)))

-- Swapping twice gives the value back.
pub byteswap-byteswap : (n v : ℕ) → v < 256 ^ n → byteswap n (byteswap n v) ≡ v
unfolding byteswap
byteswap-byteswap n v h =
    ap (λ (t : List ℕ). of_le_bytes (reverse t)) (le_bytes-byteswap n v)
    ∙ ap of_le_bytes (reverse-reverse (le_bytes n v))
    ∙ of_le_bytes-le_bytes n v h

-- One of the two byte orders.
abbrev pub IsOrder : ℕ → Type 0
IsOrder e = (e ≡ 1) ⊎ (e ≡ 2)

-- On a host of either byte order, a value that is swapped when the array's order is not the host's
-- has in memory the bytes of the value in the array's order.
pub host_bytes-order :
    (endian host n v : ℕ)
    → IsOrder endian
    → IsOrder host
    → host_bytes host n (if endian == host then v else byteswap n v)
      ≡ (if endian == 1 then le_bytes n v else reverse (le_bytes n v))
unfolding host_bytes
host_bytes-order endian host n v (inl e) (inl h) = rw (e, h) refl
host_bytes-order endian host n v (inl e) (inr h) =
    rw (e, h, le_bytes-byteswap n v) (reverse-reverse (le_bytes n v))
host_bytes-order endian host n v (inr e) (inl h) = rw (e, h) (le_bytes-byteswap n v)
host_bytes-order endian host n v (inr e) (inr h) = rw (e, h) refl

-- And a reader on either host makes the value of them.
pub of_host_bytes-order :
    (endian host n v : ℕ)
    → IsOrder endian
    → IsOrder host
    → v < 256 ^ n
    → (let value =
          of_host_bytes host (if endian == 1 then le_bytes n v else reverse (le_bytes n v)) in
        if endian == host then value else byteswap n value)
      ≡ v
unfolding of_host_bytes of_le_bytes byteswap
of_host_bytes-order endian host n v (inl e) (inl h) l = rw (e, h) (of_le_bytes-le_bytes n v l)
of_host_bytes-order endian host n v (inl e) (inr h) l = rw (e, h) (byteswap-byteswap n v l)
of_host_bytes-order endian host n v (inr e) (inl h) l = rw (e, h) (byteswap-byteswap n v l)
of_host_bytes-order endian host n v (inr e) (inr h) l =
    rw (e, h, reverse-reverse (le_bytes n v)) (of_le_bytes-le_bytes n v l)

-- What `write` finds in the object that it is handed.
get_elem?-append_length : (xs ds : List ℕ) (y : ℕ) → get_elem? (xs ++ y ∷ ds) (length xs) ≡ some y
get_elem?-append_length [] ds y = refl
get_elem?-append_length (x ∷ xs) ds y = get_elem?-append_length xs ds y

object_at :
    (around : Memory) (xs ds : List ℕ) (y : ℕ) → object around (xs ++ y ∷ ds) (length xs) ≡ y
unfolding object
object_at around xs ds y = rw (get_elem?-append_length xs ds y, object)

load_within :
    (around : Memory) (xs ds : List ℕ)
    → load (object around (xs ++ ds)) (length xs) (length ds) ≡ ds
unfolding load
load_within around xs [] = refl
load_within around xs (y ∷ ds) = ap₂ (◌∷◌) (object_at around xs ds y) (
    rw (append_assoc xs (y ∷ []) ds, length-append xs (y ∷ [])) at
      (load_within around (xs ++ y ∷ []) ds))

pub load-object : (around : Memory) (ds : List ℕ) → load (object around ds) 0 (length ds) ≡ ds
load-object around ds = load_within around [] ds

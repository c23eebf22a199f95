-- ===== src/ByteArray/Stored.antt =====
-- The bytes that a `write` stores, in closed form.
use native.Mathlib.Nat.{add-mod_right, mod-eq_of_lt, zero-add}
use mathlib.Core.List.{append_assoc}
use server_framework_learnin.Prelude.{
  ℕ, zero, suc, ◌+◌, ◌-◌, ◌*◌, ◌%◌, ◌≤◌, ◌<◌, ◌≡◌, refl, sym, inl, inr, List, ◌++◌, leb,
  if◌then◌else◌, Bool-cases, arith,
}
use server_framework_learnin.ByteArray.{Memory, load}
use server_framework_learnin.ByteArray.Flat.{load-append}
use server_framework_learnin.ByteArray.Written.{stored}

-- The bytes of a `write` in closed form. A write that ends in the node where it starts takes them
-- from `buf + npos`; a longer one takes all but the last piece from where they belong, and the last
-- piece, of `tail` bytes, from `buf`.
abbrev pub tail_size : ℕ → ℕ → ℕ → ℕ
tail_size base npos size = (npos + size - 1) % base + 1

abbrev pub written_bytes : Memory → ℕ → ℕ → ℕ → List ℕ
written_bytes mem base npos size =
    if leb size (base - npos)
    then load mem npos size
    else load mem 0 (size - tail_size base npos size) ++ load mem 0 (tail_size base npos size)

tail_step : (base size : ℕ) → base < size → (size - base - 1) % base ≡ (size - 1) % base
tail_step base size h =
    let e : size - 1 ≡ size - base - 1 + base = omega arith in
    rw e (sym (add-mod_right (size - base - 1) base))

stored_from_start :
    (mem : Memory) (base bpos size k : ℕ)
    → 0 < base
    → 0 < size
    → size ≤ base * k
    → stored mem base 0 bpos size k
      ≡ load mem bpos (size - ((size - 1) % base + 1)) ++ load mem 0 ((size - 1) % base + 1)
unfolding stored
stored_from_start mem base bpos size zero p s h = absurd (omega arith)
stored_from_start mem base bpos size (suc k) p s h = elim (Bool-cases (leb size (base - 0))) [
  | inl fits ↦
      let e : (size - 1) % base + 1 ≡ size =
        omega (arith, mod-eq_of_lt {n = size - 1} {m = base} (ground arith)) in
      let z : size - size ≡ 0 = omega arith in rw (fits, e, z) (unfold load in refl)
  | inr over ↦
      let b : base - 0 ≡ base = omega arith in
      let split = load-append mem bpos base (size - base - ((size - base - 1) % base + 1)) in
      let m : base + (size - base - ((size - base - 1) % base + 1))
          ≡ size - ((size - base - 1) % base + 1) =
        grind arith in
      rw
        (
          over,
          b,
          stored_from_start mem base (bpos + base) (size - base) k p (ground arith) (ground arith),
        )
        (rw (← tail_step base size (ground arith), ← m, split, append_assoc) refl)
]

pub stored_closed :
    (mem : Memory) (base npos size k : ℕ)
    → npos < base
    → 0 < size
    → npos + size ≤ base * k
    → stored mem base npos 0 size k ≡ written_bytes mem base npos size
unfolding stored
stored_closed mem base npos size zero p s h = absurd (omega arith)
stored_closed mem base npos size (suc k) p s h = elim (Bool-cases (leb size (base - npos))) [
  | inl fits ↦ rw fits refl
  | inr over ↦
      let more : base - npos < size = ground arith in
      let left = size - (base - npos) in
      let tail : (left - 1) % base ≡ (npos + size - 1) % base =
        let e : npos + size - 1 ≡ left - 1 + base = omega arith in
        rw e (sym (add-mod_right (left - 1) base)) in
      let m : base - npos + (left - ((left - 1) % base + 1)) ≡ size - ((left - 1) % base + 1) =
        grind arith in
      rw
        (
          over,
          zero-add,
          stored_from_start mem base (base - npos) left k (omega arith) (omega arith) (omega arith),
        )
        (rw
          (
            ← tail,
            ← m,
            load-append mem 0 (base - npos) (left - ((left - 1) % base + 1)),
            zero-add,
            append_assoc,
          )
          refl)
]

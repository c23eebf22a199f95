-- ===== src/ByteArray/Written.antt =====
-- What the loop of `write` leaves in the nodes.
use server_framework_learnin.Prelude.{
  ℕ, zero, suc, ◌+◌, ◌-◌, ◌*◌, ◌≤◌, ◌<◌, ◌≡◌, refl, sym, ap, ◌∙◌, inl, inr, List, [], ◌∷◌, ◌++◌,
  true, false, leb, ◌==◌, if◌then◌else◌, length, length-append, Bool-cases, done, fault, arith,
}
use server_framework_learnin.ByteArray.{Node, Memory, load, copy_into, write_loop}
use server_framework_learnin.ByteArray.Flat.{
  contents, Full, length-load, length-copy_into, copy_into-append_left, copy_into-append_both,
}

-- The bytes that the loop stores one after the other, for a list of `k` nodes.
unfoldable pub stored : Memory → ℕ → ℕ → ℕ → ℕ → ℕ → List ℕ
stored mem base npos bpos size zero = []
stored mem base npos bpos size (suc k) =
    let ncap = base - npos in
    let rest = stored mem base 0 (bpos + ncap) (size - ncap) k in
    if leb size ncap then load mem npos size else load mem bpos ncap ++ rest

pub length-stored :
    (mem : Memory) (base npos bpos size k : ℕ)
    → npos + size ≤ base * k
    → npos ≤ base
    → length (stored mem base npos bpos size k) ≡ size
unfolding stored
length-stored mem base npos bpos size zero h p = omega arith
length-stored mem base npos bpos size (suc k) h p = ground (
  arith,
  length-load mem npos size,
  length-load mem bpos (base - npos),
  length-append (load mem bpos (base - npos))
      (stored mem base 0 (bpos + (base - npos)) (size - (base - npos)) k),
  length-stored mem base 0 (bpos + (base - npos)) (size - (base - npos)) k,
)

-- The nodes `r.0` hold the bytes, and m_cur has gone `r.1` steps, to the node of the next byte.
pub record Written (mem : Memory) (base : ℕ) (ns : List Node) (npos bpos size : ℕ)
    (r : List Node × ℕ) : Type 0 where
  pub bytes :
      contents r.0 ≡ copy_into (contents ns) npos (stored mem base npos bpos size (length ns))
  pub same_count : length r.0 ≡ length ns
  pub full : Full base r.0
  pub ends_from : base * r.1 ≤ npos + size
  pub ends_before : npos + size < base * r.1 + base

-- The state after a piece that ends the loop.
abbrev last_piece : Memory → Node → List Node → ℕ → ℕ → List Node × ℕ
last_piece mem n ns npos size =
    (copy_into n npos (load mem npos size) ∷ ns, if length n == npos + size then 1 else 0)

-- The state after a piece that fills its node, and what the loop does after it.
abbrev filled_piece : Memory → Node → ℕ → ℕ → List Node × ℕ → List Node × ℕ
filled_piece mem n npos bpos r = (copy_into n npos (load mem bpos (length n - npos)) ∷ r.0, suc r.1)

last_piece-Written :
    (mem : Memory) (base : ℕ) (n : Node) (ns : List Node) (npos bpos size : ℕ)
    → Full base (n ∷ ns)
    → npos < base
    → size ≤ length n - npos
    → Written mem base (n ∷ ns) npos bpos size (last_piece mem n ns npos size)
unfolding stored
last_piece-Written mem base n ns npos bpos size f p h = record {
  bytes =
      let fits : leb size (base - npos) ≡ true = ground arith in
      rw (fits) (
        sym (
          copy_into-append_left n (contents ns) npos (load mem npos size)
            (omega (arith, length-load mem npos size))));
  same_count = refl;
  full = (length-copy_into n npos (load mem npos size) ∙ f.0, f.1);
  ends_from = ground arith;
  ends_before = ground arith;
}

stored_more :
    (mem : Memory) (base npos bpos size k : ℕ)
    → base - npos < size
    → stored mem base npos bpos size (suc k)
      ≡ load mem bpos (base - npos)
        ++ stored mem base 0 (bpos + (base - npos)) (size - (base - npos)) k
unfolding stored
stored_more mem base npos bpos size k h =
    let over : leb size (base - npos) ≡ false = ground arith in rw over

filled_piece-Written :
    (mem : Memory) (base : ℕ) (n : Node) (ns : List Node) (npos bpos size : ℕ) (r : List Node × ℕ)
    → Full base (n ∷ ns)
    → npos < base
    → length n - npos < size
    → Written mem base ns 0 (bpos + (length n - npos)) (size - (length n - npos)) r
    → Written mem base (n ∷ ns) npos bpos size (filled_piece mem n npos bpos r)
filled_piece-Written mem base n ns npos bpos size r f p h w = record {
  bytes = cc (
    w.bytes,
    f.0,
    stored_more mem base npos bpos size (length ns) (omega arith),
    copy_into-append_both n (contents ns) npos (load mem bpos (length n - npos))
        (stored mem base 0 (bpos + (length n - npos)) (size - (length n - npos)) (length ns))
        (omega (arith, length-load mem bpos (length n - npos))),
  );
  same_count = ap suc w.same_count;
  full = (length-copy_into n npos (load mem bpos (length n - npos)) ∙ f.0, w.full);
  ends_from = omega (arith, w.ends_from);
  ends_before = omega (arith, w.ends_before);
}

-- The loop ends in the nodes at hand whenever the bytes fit in them.
pub write_loop-Written :
    (mem : Memory) (base : ℕ) (ns : List Node) (npos bpos size : ℕ)
    → Full base ns
    → npos < base
    → 0 < size
    → npos + size ≤ base * length ns
    → (r : List Node × ℕ) × (write_loop mem ns npos bpos size ≡ done r)
      × Written mem base ns npos bpos size r
unfolding write_loop
write_loop-Written mem base [] npos bpos size f p s h = absurd (omega arith)
write_loop-Written mem base (n ∷ ns) npos bpos size f p s h =
    elim (Bool-cases (leb size (length n - npos))) [
      | inl fits ↦ (
        last_piece mem n ns npos size,
        rw fits refl,
        last_piece-Written mem base n ns npos bpos size f p (ground arith),
      )
      | inr over ↦
          let (r, e, w) =
            write_loop-Written mem base ns 0 (bpos + (length n - npos)) (size - (length n - npos))
              f.1 (omega arith) (ground arith) (ground arith) in
          (
            filled_piece mem n npos bpos r,
            rw (over, e) refl,
            filled_piece-Written mem base n ns npos bpos size r f p (ground arith) w,
          )
    ]

pub write_loop-fault :
    (mem : Memory) (base : ℕ) (ns : List Node) (npos bpos size : ℕ)
    → Full base ns
    → npos < base
    → base * length ns < npos + size
    → write_loop mem ns npos bpos size ≡ fault
unfolding write_loop
write_loop-fault mem base [] npos bpos size f p h = refl
write_loop-fault mem base (n ∷ ns) npos bpos size f p h = ground (
  arith,
  write_loop-fault mem base ns 0 (bpos + (length n - npos)) (size - (length n - npos)) f.1,
)

-- ===== src/Timer/Order.antt =====
-- The order of timers, and the ordered set: its elements and its order under `insert` and `erase`.
use server_framework_learnin.Prelude.{
  ℕ, ◌<◌, ◌≡◌, ◌≢◌, ◌⊎◌, ◌↔◌, inl, inr, refl, sym, ◌∙◌, true, false, List, [], ◌∷◌, ◌==◌,
  Bool-cases, arith,
}
use server_framework_learnin.Timer.{Timer, Heap, less, insert, found, erase, store}

abbrev pub Elem : ℕ → List ℕ → Type 0
Elem x [] = ⊥
Elem x (y ∷ ys) = (x ≡ y) ⊎ Elem x ys

-- `p` comes before every element.
abbrev pub Below : Heap → ℕ → List ℕ → Type 0
Below h p qs = (q : ℕ) → Elem q qs → less h p q ≡ true

abbrev pub Sorted : Heap → List ℕ → Type 0
Sorted h [] = Unit {0}
Sorted h (p ∷ ps) = Below h p ps × Sorted h ps

abbrev pub NoNull : List ℕ → Type 0
NoNull ps = (p : ℕ) → Elem p ps → 0 < p

-- The order of two timers, in arithmetic.
abbrev pub Before : Heap → ℕ → ℕ → Type 0
Before h l r = ((h l).next < (h r).next) ⊎ (((h l).next ≡ (h r).next) × (l < r))

pub less_iff : (h : Heap) (l r : ℕ) → 0 < l → 0 < r → (less h l r ≡ true) ↔ Before h l r
unfolding less
less_iff h l r p q = ((λ e. ground arith), (λ e. ground arith))

pub less_same :
    (h k : Heap) (l r : ℕ)
    → (h l).next ≡ (k l).next
    → (h r).next ≡ (k r).next
    → less h l r ≡ less k l r
unfolding less
less_same h k l r e f = rw (e, f) refl

pub less_total :
    (h : Heap) (l r : ℕ)
    → 0 < l
    → 0 < r
    → ((less h l r ≡ true) × (less h r l ≡ false))
      ⊎ (((less h l r ≡ false) × (less h r l ≡ true))
          ⊎ ((less h l r ≡ false) × (less h r l ≡ false) × (l ≡ r)))
unfolding less
less_total h l r p q = ground arith

pub less_trans : (h : Heap) (a b c : ℕ) → less h a b ≡ true → less h b c ≡ true → less h a c ≡ true
unfolding less
less_trans h a b c e f = ground arith

pub less_irrefl : (h : Heap) (a : ℕ) → less h a a ≡ false
unfolding less
less_irrefl h a = ground arith

pub insert-Elem :
    (h : Heap) (p : ℕ) (qs : List ℕ)
    → 0 < p
    → NoNull qs
    → (x : ℕ) → Elem x (insert h p qs) ↔ ((x ≡ p) ⊎ Elem x qs)
unfolding insert
insert-Elem h p [] np n x = ((λ e. e), (λ e. e))
insert-Elem h p (q ∷ qs) np n x =
    let (to, from) = insert-Elem h p qs np (λ y e. n y (inr e)) x in
    elim (less_total h p q np (n q (inl refl))) [
      | inl (e, f) ↦ rw e ((λ t. t), (λ t. t))
      | inr (inl (e, f)) ↦
          rw (e, f)
            (
              (λ t. elim t [
                | inl a ↦ inr (inl a)
                | inr b ↦ elim (to b) [ inl c ↦ inl c | inr d ↦ inr (inr d) ]
              ]),
              (λ t. elim t [
                | inl a ↦ inr (from (inl a))
                | inr (inl b) ↦ inl b
                | inr (inr b) ↦ inr (from (inr b))
              ]),
            )
      | inr (inr (e, f, same)) ↦
          rw (e, f) ((λ t. inr t), (λ t. elim t [ inl a ↦ inl (a ∙ same) | inr b ↦ b ]))
    ]

pub insert-NoNull : (h : Heap) (p : ℕ) (qs : List ℕ) → 0 < p → NoNull qs → NoNull (insert h p qs)
insert-NoNull h p qs np n x e = elim ((insert-Elem h p qs np n x).0 e) [
  | inl a ↦ omega arith
  | inr b ↦ n x b
]

pub insert-Sorted :
    (h : Heap) (p : ℕ) (qs : List ℕ) → 0 < p → NoNull qs → Sorted h qs → Sorted h (insert h p qs)
unfolding insert
insert-Sorted h p [] np n s = ((λ q e. absurd e), tt)
insert-Sorted h p (q ∷ qs) np n s =
    let tail_n : NoNull qs = λ y e. n y (inr e) in
    let rest = insert-Sorted h p qs np tail_n s.1 in
    elim (less_total h p q np (n q (inl refl))) [
      | inl (e, f) ↦
          rw e ((λ x t. elim t [ inl a ↦ rw a e | inr b ↦ less_trans h p q x e (s.0 x b) ]), s)
      | inr (inl (e, f)) ↦
          rw (e, f)
            (
              (λ x t. elim ((insert-Elem h p qs np tail_n x).0 t) [
                | inl a ↦ rw a f
                | inr b ↦ s.0 x b
              ]),
              rest,
            )
      | inr (inr (e, f, same)) ↦ rw (e, f) s
    ]

pub found-Elem :
    (h : Heap) (p : ℕ) (qs : List ℕ) → NoNull qs → Sorted h qs → Elem p qs → found h p qs ≡ true
unfolding found
found-Elem h p [] n s e = absurd e
found-Elem h p (q ∷ qs) n s (inl a) = rw (a, less_irrefl h q) refl
found-Elem h p (q ∷ qs) n s (inr b) =
    let later = s.0 p b in
    elim (less_total h p q (n p (inr b)) (n q (inl refl))) [
      | inl (e, f) ↦ cc
      | inr (inl (e, f)) ↦ rw (e, f) (found-Elem h p qs (λ y t. n y (inr t)) s.1 b)
      | inr (inr (e, f, same)) ↦ cc
    ]

pub erase-Elem :
    (h : Heap) (p : ℕ) (qs : List ℕ)
    → 0 < p
    → NoNull qs
    → Sorted h qs
    → (x : ℕ) → Elem x (erase h p qs) ↔ (Elem x qs × (x ≢ p))
unfolding erase
erase-Elem h p [] np n s x = ((λ e. absurd e), (λ e. e.0))
erase-Elem h p (q ∷ qs) np n s x =
    let (to, from) = erase-Elem h p qs np (λ y t. n y (inr t)) s.1 x in
    elim (less_total h p q np (n q (inl refl))) [
      | inl (e, f) ↦ rw e (
        (λ t. (
          t,
          (λ same. elim t [
            | inl a ↦ let i = less_irrefl h q in cc
            | inr b ↦ let i = less_irrefl h p in let l = less_trans h p q x e (s.0 x b) in cc
          ]),
        )),
        (λ t. t.0),
      )
      | inr (inl (e, f)) ↦
          rw (e, f)
            (
              (λ t. elim t [
                | inl a ↦ (inl a, λ same. let i = less_irrefl h q in cc)
                | inr b ↦ (inr (to b).0, (to b).1)
              ]),
              (λ t. elim t.0 [ inl a ↦ inl a | inr b ↦ inr (from (b, t.1)) ]),
            )
      | inr (inr (e, f, same)) ↦
          rw (e, f)
            (
              (λ t. (inr t, λ eq. let i = less_irrefl h q in let l = s.0 x t in cc)),
              (λ t. elim t.0 [ inl a ↦ absurd (t.1 (a ∙ sym same)) | inr b ↦ b ]),
            )
    ]

pub erase-Sorted :
    (h : Heap) (p : ℕ) (qs : List ℕ) → 0 < p → NoNull qs → Sorted h qs → Sorted h (erase h p qs)
unfolding erase
erase-Sorted h p [] np n s = tt
erase-Sorted h p (q ∷ qs) np n s =
    let tail_n : NoNull qs = λ y t. n y (inr t) in
    let rest = erase-Sorted h p qs np tail_n s.1 in
    elim (less_total h p q np (n q (inl refl))) [
      | inl (e, f) ↦ rw e s
      | inr (inl (e, f)) ↦
          rw (e, f) ((λ x t. s.0 x ((erase-Elem h p qs np tail_n s.1 x).0 t).0), rest)
      | inr (inr (e, f, same)) ↦ rw (e, f) s.1
    ]

-- The order of a set depends on the times of expiry of its elements only.
pub same-Sorted :
    (h k : Heap) (qs : List ℕ)
    → ((q : ℕ) → Elem q qs → (h q).next ≡ (k q).next)
    → Sorted h qs
    → Sorted k qs
same-Sorted h k [] e s = tt
same-Sorted h k (q ∷ qs) e s = (
  (λ x t. sym (less_same h k q x (e q (inl refl)) (e x (inr t))) ∙ s.0 x t),
  same-Sorted h k qs (λ x t. e x (inr t)) s.1,
)

-- A store changes its own address only.
pub store-other : (h : Heap) (p q : ℕ) (t : Timer) → q ≢ p → store h p t q ≡ h q
unfolding store
store-other h p q t n = elim (Bool-cases (q == p)) [
  | inl e ↦ absurd (n (ground arith))
  | inr e ↦ rw e refl
]

pub store-same : (h : Heap) (p : ℕ) (t : Timer) → store h p t p ≡ t
unfolding store
store-same h p t = let e : (p == p) ≡ true = ground arith in rw e refl

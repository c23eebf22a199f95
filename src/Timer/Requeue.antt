-- ===== src/Timer/Requeue.antt =====
-- The last loop of `listExpiredCb`, over timers that have been taken out of the set.
use server_framework_learnin.Prelude.{
  ℕ, ◌+◌, ◌%◌, ◌^◌, ◌≡◌, ◌≢◌, ◌⊎◌, ◌↔◌, inl, inr, refl, sym, ap, ◌∙◌, true, false, List, [], ◌∷◌,
  ◌++◌, Option, none, some, Bool-cases,
}
use server_framework_learnin.Timer.{Timer, Heap, store, insert, requeue}
use server_framework_learnin.Timer.Order.{
  Elem, Sorted, NoNull, insert-Elem, insert-NoNull, insert-Sorted, store-other, store-same,
  less_irrefl,
}
use server_framework_learnin.Timer.Invariant.{store-Sorted, same_or_not}

-- No element stands twice.
abbrev pub Apart : List ℕ → Type 0
Apart [] = Unit {0}
Apart (p ∷ ps) = (¬ Elem p ps) × Apart ps

abbrev pub callbacks : Heap → List ℕ → List (Option ℕ)
callbacks h [] = []
callbacks h (p ∷ ps) = (h p).cb ∷ callbacks h ps

-- What the loop makes of the timers `ps` and the set `ts`.
pub record Requeued (h : Heap) (ps ts : List ℕ) (r : List (Option ℕ) × Heap × List ℕ) : Type 0 where
  pub sorted : Sorted r.1 r.2
  pub no_null : NoNull r.2
  pub active : (q f : ℕ) → (r.1 q).cb ≡ some f → Elem q r.2
  pub called : r.0 ≡ callbacks h ps
  pub stay : (q : ℕ) → Elem q r.2 ↔ (Elem q ts ⊎ (Elem q ps × ((h q).recurring ≡ true)))

callbacks-store :
    (h : Heap) (p : ℕ) (t : Timer) (ps : List ℕ)
    → ¬ Elem p ps
    → callbacks (store h p t) ps ≡ callbacks h ps
callbacks-store h p t [] n = refl
callbacks-store h p t (q ∷ ps) n =
    rw (store-other h p q t (λ e. n (inl (sym e))), callbacks-store h p t ps (λ u. n (inr u))) refl

-- One round, from what the rest of the loop does.
round_Requeued :
    (h : Heap) (p : ℕ) (t : Timer) (ps ts us : List ℕ) {r : List (Option ℕ) × Heap × List ℕ}
    → ¬ Elem p ps
    → ((q : ℕ) → Elem q us ↔ (Elem q ts ⊎ ((q ≡ p) × ((h p).recurring ≡ true))))
    → Requeued (store h p t) ps us r
    → Requeued h (p ∷ ps) ts ((h p).cb ∷ r.0, r.1, r.2)
round_Requeued h p t ps ts us {r} out entered x = record {
  sorted = x.sorted;
  no_null = x.no_null;
  active = x.active;
  called = ap (λ (l : List (Option ℕ)). (h p).cb ∷ l) (x.called ∙ callbacks-store h p t ps out);
  stay = λ q. (
    (λ u. elim ((x.stay q).0 u) [
      | inl a ↦ elim ((entered q).0 a) [ inl b ↦ inl b | inr (same, c) ↦ inr (inl same, rw same c) ]
      | inr (d, c) ↦ elim (same_or_not q p) [
        | inl same ↦ absurd (out (rw same at d))
        | inr other ↦ inr (inr d, (rw (store-other h p q t other) at c))
      ]
    ]),
    (λ u. elim u [
      | inl a ↦ (x.stay q).1 (inl ((entered q).1 (inl a)))
      | inr (inl same, c) ↦ (x.stay q).1 (inl ((entered q).1 (inr (same, rw same at c))))
      | inr (inr d, c) ↦ elim (same_or_not q p) [
        | inl same ↦ absurd (out (rw same at d))
        | inr other ↦ (x.stay q).1 (inr (d, rw (store-other h p q t other) c))
      ]
    ]),
  );
}

pub requeue-Requeued :
    (now : ℕ) (ps : List ℕ) (h : Heap) (ts : List ℕ)
    → NoNull ps
    → Apart ps
    → NoNull ts
    → Sorted h ts
    → ((q : ℕ) → Elem q ps → ¬ Elem q ts)
    → ((q f : ℕ) → (h q).cb ≡ some f → Elem q ps ⊎ Elem q ts)
    → Requeued h ps ts (requeue now ps h ts)
unfolding requeue
requeue-Requeued now [] h ts np ap n s d a = record {
  sorted = s;
  no_null = n;
  active = λ q f e. elim (a q f e) [ inl u ↦ absurd u | inr u ↦ u ];
  called = refl;
  stay = λ q. ((λ u. inl u), (λ u. elim u [ inl x ↦ x | inr y ↦ absurd y.0 ]));
}
requeue-Requeued now (p ∷ ps) h ts np (out, ap) n s d a = elim (Bool-cases (h p).recurring) [
  | inl e ↦
      let pos = np p (inl refl) in
      let t : Timer = record (h p) { recurring = true; next = (now + (h p).ms) % 2 ^ 64 } in
      let k = store h p t in
      let away : (q : ℕ) → Elem q ts → q ≢ p = λ q u same. d p (inl refl) (rw same at u) in
      let sk = store-Sorted h p t ts away s in
      let entered = insert-Elem k p ts pos n in
      rw e (
        round_Requeued h p t ps ts (insert k p ts) out
          (λ q. (
            (λ u. elim ((entered q).0 u) [ inl same ↦ inr (same, e) | inr v ↦ inl v ]),
            (λ u. elim u [
              | inl v ↦ (entered q).1 (inr v)
              | inr (same, c) ↦ (entered q).1 (inl same)
            ]),
          ))
          (requeue-Requeued now ps k (insert k p ts) (λ q u. np q (inr u)) ap
            (insert-NoNull k p ts pos n) (insert-Sorted k p ts pos n sk)
            (λ q u v. elim ((entered q).0 v) [
              | inl same ↦ out (rw same at u)
              | inr w ↦ d q (inr u) w
            ])
            (λ q f c. elim (same_or_not q p) [
              | inl same ↦ inr ((entered q).1 (inl same))
              | inr other ↦ elim (a q f (rw (store-other h p q t other) at c)) [
                | inl (inl same) ↦ absurd (other same)
                | inl (inr u) ↦ inl u
                | inr v ↦ inr ((entered q).1 (inr v))
              ]
            ])))
  | inr e ↦
      let t : Timer = record (h p) { recurring = false; cb = none } in
      let k = store h p t in
      let away : (q : ℕ) → Elem q ts → q ≢ p = λ q u same. d p (inl refl) (rw same at u) in
      rw e (
        round_Requeued h p t ps ts ts out
          (λ q. ((λ u. inl u), (λ u. elim u [ inl v ↦ v | inr (same, c) ↦ absurd (cc) ])))
          (requeue-Requeued now ps k ts (λ q u. np q (inr u)) ap n (store-Sorted h p t ts away s)
            (λ q u v. d q (inr u) v)
            (λ q f c. elim (same_or_not q p) [
              | inl same ↦
                  absurd (let off : (k q).cb ≡ none = rw (same, store-same h p t) refl in cc)
              | inr other ↦ elim (a q f (rw (store-other h p q t other) at c)) [
                | inl (inl same) ↦ absurd (other same)
                | inl (inr u) ↦ inl u
                | inr v ↦ inr v
              ]
            ])))
]

-- The two parts of a set.
pub Elem-append : (xs ys : List ℕ) (q : ℕ) → Elem q (xs ++ ys) ↔ (Elem q xs ⊎ Elem q ys)
Elem-append [] ys q = ((λ u. inr u), (λ u. elim u [ inl a ↦ absurd a | inr b ↦ b ]))
Elem-append (x ∷ xs) ys q =
    let (to, from) = Elem-append xs ys q in
    (
      (λ u. elim u [
        | inl a ↦ inl (inl a)
        | inr b ↦ elim (to b) [ inl c ↦ inl (inr c) | inr d ↦ inr d ]
      ]),
      (λ u. elim u [
        | inl (inl a) ↦ inl a
        | inl (inr b) ↦ inr (from (inl b))
        | inr c ↦ inr (from (inr c))
      ]),
    )

pub Sorted-Apart : (h : Heap) (xs : List ℕ) → Sorted h xs → Apart xs
Sorted-Apart h [] s = tt
Sorted-Apart h (x ∷ xs) s =
    ((λ u. let l = s.0 x u in let i = less_irrefl h x in cc), Sorted-Apart h xs s.1)

pub Sorted-append :
    (h : Heap) (xs ys : List ℕ)
    → Sorted h (xs ++ ys)
    → Sorted h xs × Sorted h ys × ((q : ℕ) → Elem q xs → ¬ Elem q ys)
Sorted-append h [] ys s = (tt, s, λ q u. absurd u)
Sorted-append h (x ∷ xs) ys s =
    let (a, b, d) = Sorted-append h xs ys s.1 in
    (
      ((λ q u. s.0 q ((Elem-append xs ys q).1 (inl u))), a),
      b,
      λ q u v. elim u [
        | inl same ↦
            let l = s.0 q ((Elem-append xs ys q).1 (inr v)) in let i = less_irrefl h q in cc
        | inr w ↦ d q w v
      ],
    )

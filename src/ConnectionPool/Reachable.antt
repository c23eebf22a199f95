-- ===== src/ConnectionPool/Reachable.antt =====
-- sylar/http/http_connection.cpp: the pools that the operations lead to.
use server_framework_learnin.Prelude.{
  ℕ, suc, ◌+◌, ◌%◌, ◌^◌, ◌≤◌, ◌<◌, ◌≡◌, inl, inr, refl, ap, ◌∙◌, Bool, true, false, List, [], ◌∷◌,
  ◌++◌, length, length-append, Option, none, some, ltb, Bool-cases, arith,
}
use server_framework_learnin.ConnectionPool.{
  Connection, new_connection, Limits, Pool, end_of_life, take_valid, subtract, lend, get_connection,
  is_over, release,
}

-- One call on the pool. The connection that is released is any of those that are lent.
pub data Step (l : Limits) : Pool → Pool → Type 0 where
  gets :
      (connected : ℕ → Bool) (now : ℕ) (made : Option ℕ) (p : Pool)
      → Step l p (get_connection l connected now made p)
  releases :
      (connected : ℕ → Bool) (now : ℕ) (p : Pool) (before : List Connection) (c : Connection)
      (after : List Connection)
      → p.lent ≡ before ++ c ∷ after
      → Step l p (release l connected now c (record p { lent = before ++ after }))

-- The pools that steps lead to, from one without connections.
pub data Reaches (l : Limits) : Pool → Type 0 where
  starts : Reaches l (record { conns = []; total = 0; lent = [] })
  steps : (p q : Pool) → Reaches l p → Step l p q → Reaches l q

-- A connection without a time of creation.
abbrev pub AllTimeless : List Connection → Type 0
AllTimeless [] = Unit {0}
AllTimeless (c ∷ cs) = (c.create_time ≡ 0) × AllTimeless cs

AllTimeless-append :
    (xs ys : List Connection) → AllTimeless xs → AllTimeless ys → AllTimeless (xs ++ ys)
AllTimeless-append [] ys a b = b
AllTimeless-append (x ∷ xs) ys a b = (a.0, AllTimeless-append xs ys a.1 b)

AllTimeless-without :
    (before : List Connection) (c : Connection) (after : List Connection)
    → AllTimeless (before ++ c ∷ after)
    → (c.create_time ≡ 0) × AllTimeless (before ++ after)
AllTimeless-without [] c after a = a
AllTimeless-without (x ∷ before) c after a =
    let (t, b) = AllTimeless-without before c after a.1 in (t, (a.0, b))

pub record Inv (p : Pool) : Type 0 where
  pub counted : p.total ≡ (length p.conns + length p.lent) % 2 ^ 32
  pub idle : AllTimeless p.conns
  pub held : AllTimeless p.lent

-- What the loop takes and leaves.
taken : Option Connection → ℕ
taken none = 0
taken (some c) = 1

Timeless : Option Connection → Type 0
Timeless none = Unit {0}
Timeless (some c) = c.create_time ≡ 0

take_valid_lem :
    (l : Limits) (connected : ℕ → Bool) (now : ℕ) (cs : List Connection)
    → AllTimeless cs
    → let r = take_valid l connected now cs in
      (length cs ≡ taken r.0 + length r.1 + r.2) × Timeless r.0 × AllTimeless r.1
unfolding take_valid taken Timeless
take_valid_lem l connected now [] a = (refl, tt, tt)
take_valid_lem l connected now (c ∷ cs) a =
    let (n, t, b) = take_valid_lem l connected now cs a.1 in
    elim (Bool-cases (connected c.id)) [
      | inr gone ↦ rw gone (omega (arith, n), t, b)
      | inl there ↦ elim (Bool-cases (ltb now (end_of_life l c))) [
        | inl young ↦ rw (there, young) (omega (arith, n), t, b)
        | inr old ↦ rw (there, old) (omega arith, a.0, a.1)
      ]
    ]

lend-Inv :
    (o : Option Connection) (made : Option ℕ) (p : Pool)
    → p.total ≡ (taken o + length p.conns + length p.lent) % 2 ^ 32
    → Timeless o
    → AllTimeless p.conns
    → AllTimeless p.lent
    → Inv (lend o made p)
unfolding lend taken Timeless new_connection
lend-Inv (some c) made p n t a b = record { counted = omega (arith, n); idle = a; held = (t, b) }
lend-Inv none (some id) p n t a b = record {
  counted = omega (arith, n);
  idle = a;
  held = (refl, b);
}
lend-Inv none none p n t a b = record { counted = omega (arith, n); idle = a; held = b }

get_connection-Inv :
    (l : Limits) (connected : ℕ → Bool) (now : ℕ) (made : Option ℕ) (p : Pool)
    → Inv p
    → Inv (get_connection l connected now made p)
unfolding get_connection subtract
get_connection-Inv l connected now made p i =
    let r = take_valid l connected now p.conns in
    let (n, t, a) = take_valid_lem l connected now p.conns i.idle in
    lend-Inv r.0 made (record p { conns = r.1; total = subtract p.total r.2 })
      (omega (arith, n, i.counted)) t a i.held

release-Inv :
    (l : Limits) (connected : ℕ → Bool) (now : ℕ) (p : Pool) (before : List Connection)
    (c : Connection) (after : List Connection)
    → p.lent ≡ before ++ c ∷ after
    → Inv p
    → Inv (release l connected now c (record p { lent = before ++ after }))
unfolding release subtract
release-Inv l connected now p before c after e i =
    let (t, b) = AllTimeless-without before c after (rw e at i.held) in
    let d = record c { request = (c.request + 1) % 2 ^ 64 } in
    let n : length p.lent ≡ suc (length (before ++ after)) =
      ap length e ∙ omega (arith, length-append before (c ∷ after), length-append before after) in
    elim (Bool-cases (is_over l connected now d)) [
      | inl over ↦
          rw over (record { counted = omega (arith, n, i.counted); idle = i.idle; held = b })
      | inr kept ↦ rw kept (record {
        counted = omega (arith, n, i.counted, length-append p.conns (d ∷ []));
        idle = AllTimeless-append p.conns (d ∷ []) i.idle (t, tt);
        held = b;
      })
    ]

-- In every pool that calls of getConnection and ReleasePtr lead to from an empty one, the count is,
-- as a 32-bit number, that of the idle connections and those that are lent, and no connection has a
-- time of creation other than 0.
pub reachable-Inv : (l : Limits) (p : Pool) → Reaches l p → Inv p
reachable-Inv l p (starts) = record { counted = omega arith; idle = tt; held = tt }
reachable-Inv l q (steps p _ r (gets connected now made _)) =
    get_connection-Inv l connected now made p (reachable-Inv l p r)
reachable-Inv l q (steps p _ r (releases connected now _ before c after e)) =
    release-Inv l connected now p before c after e (reachable-Inv l p r)

abbrev pub AllGone : (ℕ → Bool) → List Connection → Type 0
AllGone connected [] = Unit {0}
AllGone connected (c ∷ cs) = (connected c.id ≡ false) × AllGone connected cs

take_valid-first :
    (l : Limits) (connected : ℕ → Bool) (now : ℕ) (before : List Connection) (c : Connection)
    (after : List Connection)
    → AllGone connected before
    → connected c.id ≡ true
    → ltb now (end_of_life l c) ≡ false
    → take_valid l connected now (before ++ c ∷ after) ≡ (some c, after, length before)
unfolding take_valid
take_valid-first l connected now [] c after g e old = rw (e, old) refl
take_valid-first l connected now (x ∷ before) c after g e old =
    rw (g.0, take_valid-first l connected now before c after g.1 e old) refl

never_young :
    (l : Limits) (c : Connection) (now : ℕ)
    → c.create_time ≡ 0
    → l.max_alive_time < 2 ^ 32
    → l.max_alive_time ≤ now
    → ltb now (end_of_life l c) ≡ false
unfolding end_of_life
never_young l c now born small late =
    let same : (c.create_time + l.max_alive_time) % 2 ^ 64 ≡ l.max_alive_time =
      omega (arith, born, small) in
    rw same (ground (arith, late))

-- In such a pool, from a time of the maximal age on, the maximal age being below 2 ^ 32,
-- getConnection lends the first idle connection that is connected, however old it is, and leaves
-- those behind it.
pub reachable-reuse :
    (l : Limits) (p : Pool) (connected : ℕ → Bool) (now : ℕ) (made : Option ℕ)
    (before : List Connection) (c : Connection) (after : List Connection)
    → Reaches l p
    → l.max_alive_time < 2 ^ 32
    → l.max_alive_time ≤ now
    → p.conns ≡ before ++ c ∷ after
    → AllGone connected before
    → connected c.id ≡ true
    → ((get_connection l connected now made p).lent ≡ c ∷ p.lent)
      × ((get_connection l connected now made p).conns ≡ after)
unfolding get_connection lend
reachable-reuse l p connected now made before c after r small late e g there =
    let i = reachable-Inv l p r in
    let (born, _) = AllTimeless-without before c after (rw e at i.idle) in
    let old : ltb now (end_of_life l c) ≡ false = never_young l c now born small late in
    rw (get_connection, e, take_valid-first l connected now before c after g there old) (refl, refl)

-- ===== src/FdManager/Table.antt =====
-- sylar/fd_manager.cpp: what get and del make of the table.
use server_framework_learnin.Prelude.{
  ℕ, ◌≤◌, ◌<◌, ◌≡◌, ◌≢◌, ◌⊎◌, inl, inr, refl, ◌∙◌, Bool, true, false, Option, none, some, length,
  get_elem?, set, length-set, get_elem?-set_self, get_elem?-set_ne, get_elem?-past, get_elem?-none,
  leb, ◌==◌, if◌then◌else◌, done, fault, Option-cases, arith,
}
use server_framework_learnin.FdManager.{FdManager, new_ctx, create, get_entry, get, del}

within : (n fd : ℕ) → fd < n → leb n fd ≡ false
within n fd h = ground (arith, h)

-- For a descriptor that is not in the table, get with auto_create indexes the table out of bounds.
pub get-fault : (fresh fd : ℕ) (m : FdManager) → length m.datas ≤ fd → get fresh fd true m ≡ fault
unfolding get get_entry
get-fault fresh fd m past =
    let e : leb (length m.datas) fd ≡ true = ground (arith, past) in
    rw (e, get_elem?-past m.datas fd past) refl

-- A lookup of an entry that is known.
get-entry :
    (fresh fd : ℕ) (auto_create : Bool) (m : FdManager) (p : ℕ)
    → get_elem? m.datas fd ≡ some (some p)
    → fd < length m.datas
    → get fresh fd auto_create m ≡ done (some p, m)
unfolding get get_entry
get-entry fresh fd auto_create m p e h = rw (within (length m.datas) fd h, e) refl

get-missing :
    (fresh fd : ℕ) (m : FdManager)
    → get_elem? m.datas fd ≡ some none
    → fd < length m.datas
    → get fresh fd false m ≡ done (none, m)
unfolding get get_entry
get-missing fresh fd m e h = rw (within (length m.datas) fd h, e) refl

-- A context that get has returned is found again, by any call, until del; other descriptors keep
-- theirs.
pub record Kept (fd p : ℕ) (m u : FdManager) : Type 0 where
  pub again : (fresh : ℕ) (auto_create : Bool) → get fresh fd auto_create u ≡ done (some p, u)
  pub deleted : (fresh : ℕ) → get fresh fd false (del fd u) ≡ done (none, del fd u)
  pub others : (n : ℕ) → fd ≢ n → get_elem? (del fd u).datas n ≡ get_elem? m.datas n
  pub size : length (del fd u).datas ≡ length m.datas

kept :
    (fd p : ℕ) (m u : FdManager)
    → fd < length u.datas
    → get_elem? u.datas fd ≡ some (some p)
    → ((n : ℕ) → fd ≢ n → get_elem? u.datas n ≡ get_elem? m.datas n)
    → length u.datas ≡ length m.datas
    → Kept fd p m u
unfolding del
kept fd p m u h e same size =
    let there : leb (length u.datas) fd ≡ false = within (length u.datas) fd h in
    record {
      again = λ fresh auto_create. get-entry fresh fd auto_create u p e h;
      deleted = λ fresh. rw there (
          get-missing fresh fd (record u { datas = set u.datas fd none })
            (get_elem?-set_self u.datas fd none h) (rw (length-set u.datas fd (the_none)) h));
      others = λ n ne. rw there (get_elem?-set_ne u.datas none ne ∙ same n ne);
      size = rw there (length-set u.datas fd none ∙ size);
    }
  where
    the_none : Option ℕ
    the_none = none

-- For a descriptor in the table, get with auto_create returns a context: the one of the table, with
-- nothing changed, or a new one if there is none. After it every call of get for the descriptor
-- returns the same, after a `del` a call without auto_create returns none, and neither changes the
-- entry of another descriptor or the size of the table.
pub get_lem :
    (fresh fd : ℕ) (m : FdManager)
    → fd < length m.datas
    → (p : ℕ) × (u : FdManager) × (get fresh fd true m ≡ done (some p, u))
      × Kept fd p m u
      × ((get_elem? m.datas fd ≡ some (some p)) × (u ≡ m)
          ⊎ (get_elem? m.datas fd ≡ some none)
            × (p ≡ fresh)
            × (u.heap fresh ≡ (new_ctx fd m.sys).0))
unfolding get get_entry create
get_lem fresh fd m h = elim (Option-cases (get_elem? m.datas fd)) [
  | inl gone ↦ absurd (omega (arith, get_elem?-none m.datas fd gone, h))
  | inr (some p, e) ↦ (
    p,
    m,
    rw (within (length m.datas) fd h, e) refl,
    kept fd p m m h e (λ n ne. refl) refl,
    inl (e, refl),
  )
  | inr (none, e) ↦
      let u : FdManager = record {
        datas = set m.datas fd (some fresh);
        heap = λ p. if p == fresh then (new_ctx fd m.sys).0 else m.heap p;
        sys = (new_ctx fd m.sys).1;
      } in
      let size : length u.datas ≡ length m.datas = length-set m.datas fd (some fresh) in
      let self : (fresh == fresh) ≡ true = ground arith in
      (
        fresh,
        u,
        rw (within (length m.datas) fd h, e) refl,
        kept fd fresh m u (rw size h) (get_elem?-set_self m.datas fd (some fresh) h)
            (λ n ne. get_elem?-set_ne m.datas (some fresh) ne) size,
        inr (e, refl, rw self refl),
      )
]

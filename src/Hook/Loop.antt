-- ===== src/Hook/Loop.antt =====
-- sylar/hook.cpp: what do_io and connect_with_timeout return and leave behind.
use server_framework_learnin.Prelude.{
  ℕ, suc, ◌-◌, ◌^◌, ◌≡◌, inl, inr, refl, ap, ◌∙◌, Bool, true, false, List, [], ◌∷◌, ◌++◌, Option,
  none, some, ◌==◌, if◌then◌else◌, Bool-cases,
}
use server_framework_learnin.Hook.{
  error, Turn, Action, called, timer_set, event_added, yielded, timer_cancelled, Result, value,
  not_added, pending, Io, after, is_interrupted, is_again, set_timer, cancel_timer, wait, io_loop,
}

-- How many timers of a trace are set and how many are cancelled.
unfoldable pub timers_set : List Action → ℕ
timers_set [] = 0
timers_set (timer_set to ∷ steps) = suc (timers_set steps)
timers_set (called ∷ steps) = timers_set steps
timers_set (event_added ∷ steps) = timers_set steps
timers_set (yielded ∷ steps) = timers_set steps
timers_set (timer_cancelled ∷ steps) = timers_set steps

unfoldable pub timers_cancelled : List Action → ℕ
timers_cancelled [] = 0
timers_cancelled (timer_set to ∷ steps) = timers_cancelled steps
timers_cancelled (called ∷ steps) = timers_cancelled steps
timers_cancelled (event_added ∷ steps) = timers_cancelled steps
timers_cancelled (yielded ∷ steps) = timers_cancelled steps
timers_cancelled (timer_cancelled ∷ steps) = suc (timers_cancelled steps)

unfoldable pub calls : List Action → ℕ
calls [] = 0
calls (called ∷ steps) = suc (calls steps)
calls (timer_set to ∷ steps) = calls steps
calls (event_added ∷ steps) = calls steps
calls (yielded ∷ steps) = calls steps
calls (timer_cancelled ∷ steps) = calls steps

-- A turn after which the loop calls the function again.
unfoldable pub retries : Turn → Bool
retries x =
    if is_interrupted x.reply
    then true
    else if is_again x.reply
    then (if x.added then elim x.cancelled [ none ↦ true | some e ↦ false ] else false)
    else false

-- What the loop returns at a turn that ends it.
unfoldable pub outcome : Turn → Result
outcome x =
    if is_again x.reply
    then (if x.added
        then elim x.cancelled [ none ↦ pending | some e ↦ value (error e) ]
        else not_added)
    else value x.reply

-- What the loop returns: what the first turn says that does not make it retry.
unfoldable pub expected : List Turn → Result
expected [] = pending
expected (x ∷ xs) = let rest = expected xs in if retries x then rest else outcome x

-- The turns up to that one.
unfoldable pub used : List Turn → ℕ
used [] = 0
used (x ∷ xs) = let rest = used xs in if retries x then suc rest else 1

pub record Sound (io : Io) (result : Result) (n : ℕ) : Type 0 where
  pub same : io.result ≡ result
  pub called_n : calls io.trace ≡ n
  pub balanced : timers_set io.trace ≡ timers_cancelled io.trace

-- The actions of a wait hold as many timers set as cancelled, and no call.
waited :
    (to : ℕ) (steps : List Action)
    → let w = (set_timer to ++ event_added ∷ yielded ∷ cancel_timer to) ++ steps in
      (calls w ≡ calls steps)
      × ((timers_set steps ≡ timers_cancelled steps) → timers_set w ≡ timers_cancelled w)
unfolding set_timer cancel_timer calls timers_set timers_cancelled
waited to steps = elim (Bool-cases (to == 2 ^ 64 - 1)) [
  | inl e ↦ rw e (refl, λ b. b)
  | inr e ↦ rw e (refl, λ b. ap suc b)
]

-- A wait that ends the loop: with a timer, it is cancelled.
pub stopped :
    (to : ℕ)
    → let given_up = set_timer to ++ cancel_timer to in
      let woken = set_timer to ++ event_added ∷ yielded ∷ cancel_timer to in
      (calls given_up ≡ 0)
      × (timers_set given_up ≡ timers_cancelled given_up)
      × (calls woken ≡ 0)
      × (timers_set woken ≡ timers_cancelled woken)
unfolding set_timer cancel_timer calls timers_set timers_cancelled
stopped to = elim (Bool-cases (to == 2 ^ 64 - 1)) [
  | inl e ↦ rw e (refl, refl, refl, refl)
  | inr e ↦ rw e (refl, refl, refl, refl)
]

wait-Sound :
    (to : ℕ) (added : Bool) (c : Option ℕ) (retry : Io) (r : Result) (n : ℕ)
    → Sound retry r n
    → Sound
        (after (called ∷ []) (wait to added c retry))
        (if added then elim c [ none ↦ r | some e ↦ value (error e) ] else not_added)
        (if added then elim c [ none ↦ suc n | some e ↦ 1 ] else 1)
unfolding after wait calls timers_set timers_cancelled
wait-Sound to false c retry r n s =
    let (x, y, _, _) = stopped to in record { same = refl; called_n = ap suc x; balanced = y }
wait-Sound to true (some e) retry r n s =
    let (_, _, x, y) = stopped to in record { same = refl; called_n = ap suc x; balanced = y }
wait-Sound to true none retry r n s =
    let (x, y) = waited to retry.trace in
    record { same = s.same; called_n = ap suc (x ∙ s.called_n); balanced = y s.balanced }

-- The same for a turn with EAGAIN.
again_lem :
    (xs : List Turn) (added : Bool) (c : Option ℕ)
    → let retry = (if added then elim c [ none ↦ true | some e ↦ false ] else false) in
      let r =
        (if added then elim c [ none ↦ expected xs | some e ↦ value (error e) ] else not_added) in
      let o = (if added then elim c [ none ↦ pending | some e ↦ value (error e) ] else not_added) in
      let n = (if added then elim c [ none ↦ suc (used xs) | some e ↦ 1 ] else 1) in
      ((if retry then expected xs else o) ≡ r) × ((if retry then suc (used xs) else 1) ≡ n)
again_lem xs false c = (refl, refl)
again_lem xs true none = (refl, refl)
again_lem xs true (some e) = (refl, refl)

-- A turn that ends the loop in the middle of a wait, or at once.
pub io_loop-Sound :
    (to : ℕ) (turns : List Turn) → Sound (io_loop to turns) (expected turns) (used turns)
unfolding io_loop after wait expected used retries outcome calls timers_set timers_cancelled
io_loop-Sound to [] = record { same = refl; called_n = refl; balanced = refl }
io_loop-Sound to (x ∷ xs) =
    let rest = io_loop-Sound to xs in
    elim (Bool-cases (is_interrupted x.reply)) [
      | inl e ↦
          rw e
            (record { same = rest.same; called_n = ap suc rest.called_n; balanced = rest.balanced })
      | inr e ↦ elim (Bool-cases (is_again x.reply)) [
        | inl f ↦
            let (r, n) = again_lem xs x.added x.cancelled in
            rw (e, f, r, n)
              (wait-Sound to x.added x.cancelled (io_loop to xs) (expected xs) (used xs) rest)
        | inr f ↦ rw (e, f) (record { same = refl; called_n = refl; balanced = refl })
      ]
    ]

-- ===== src/Config/Listeners.antt =====
-- sylar/config.h: what the listeners of a variable are told.
use server_framework_learnin.Prelude.{
  ℕ, ◌≡◌, inl, inr, refl, Bool, true, false, List, [], ◌∷◌, ◌++◌, Bool-cases,
}
use server_framework_learnin.Config.{Casts, ConfigVar, Listener, notify, set_value}

module _ {ℓ} {V : Type ℓ} where
  -- A listener that writes down what it is told.
  abbrev pub noting : Listener V (List (V × V))
  noting old new w = w ++ (old, new) ∷ []

  -- Changes from one value to another, each from where the one before has led, by values that are
  -- not the same.
  pub data Chain (same : V → V → Bool) : V → List (V × V) → V → Type ℓ where
    stays : (v : V) → Chain same v [] v
    changes :
        (u v x : V) (rest : List (V × V))
        → same v u ≡ false
        → Chain same v rest x
        → Chain same u ((u, v) ∷ rest) x

module _ {ℓ} {V : Type ℓ} (casts : Casts V) where
  -- setValue of values one after the other.
  unfoldable pub set_values {κ} : {W : Type κ} → List V → ConfigVar V W × W → ConfigVar V W × W
  set_values [] s = s
  set_values (v ∷ vs) (var, w) = set_values vs (set_value casts v var w)

  Chain-append :
      {same : V → V → Bool} (u v x : V) (xs ys : List (V × V))
      → Chain same u xs v
      → Chain same v ys x
      → Chain same u (xs ++ ys) x
  Chain-append u v x [] ys (stays _) c = c
  Chain-append u v x ((a, b) ∷ xs) ys (changes _ _ _ _ d e) c =
      changes u b x (xs ++ ys) d (Chain-append b v x xs ys e c)

  set_value-same {κ} :
      {W : Type κ} (v : V) (var : ConfigVar V W) (w : W)
      → casts.same var.type_name v var.val ≡ true
      → set_value casts v var w ≡ (var, w)
  unfolding set_value
  set_value-same v var w same = rw same refl

  set_value-new :
      (v : V) (var : ConfigVar V (List (V × V))) (key : ℕ) (w : List (V × V))
      → var.cbs ≡ (key, noting) ∷ []
      → casts.same var.type_name v var.val ≡ false
      → set_value casts v var w ≡ (record var { val = v }, w ++ (var.val, v) ∷ [])
  unfolding set_value notify
  set_value-new v var key w e new = rw (new, e) refl

  -- Where a listener that writes down what it is told is the only one of a variable, and what it
  -- has written down is a chain of changes that leads from a value to that of the variable, each to
  -- a value that is not the same, then setValue of any values, one after the other, leaves such a
  -- chain from that value to the new one of the variable.
  pub set_values-Chain :
      (vs : List V) (var : ConfigVar V (List (V × V))) (key : ℕ) (start : V) (w : List (V × V))
      → var.cbs ≡ (key, noting) ∷ []
      → Chain (casts.same var.type_name) start w var.val
      → let (after, told) = set_values vs (var, w) in
        Chain (casts.same var.type_name) start told after.val
  unfolding set_values
  set_values-Chain [] var key start w e c = c
  set_values-Chain (v ∷ vs) var key start w e c =
      elim (Bool-cases (casts.same var.type_name v var.val)) [
        | inl same ↦
            rw (set_values, set_value-same v var w same) (set_values-Chain vs var key start w e c)
        | inr new ↦
            rw (set_values, set_value-new v var key w e new)
              (set_values-Chain vs (record var { val = v }) key start _ e
                (Chain-append start var.val v w ((var.val, v) ∷ []) c
                  (changes var.val v v [] new (stays v))))
      ]

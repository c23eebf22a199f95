-- ===== src/FdManager/Runs.antt =====
-- Runs of the table of descriptors.
use server_framework_learnin.Prelude.{
  ℕ, ◌≡◌, ◌⊎◌, true, false, [], ◌∷◌, none, some, get_elem?, done, arith,
}
use server_framework_learnin.FdManager.{FdCtx, System, FdManager, new_ctx, get}
use server_framework_learnin.FdManager.Table.{Kept, get_lem}

abbrev sockets : System
sockets = record { kind = λ fd. some true; nonblock = λ fd. false }

abbrev no_ctx : FdCtx
no_ctx = (new_ctx 0 sockets).0

abbrev two : FdManager
two = record { datas = none ∷ some 7 ∷ []; heap = λ p. no_ctx; sys = sockets }

get_lem_example :
    (p : ℕ) × (u : FdManager) × (get 9 0 true two ≡ done (some p, u))
    × Kept 0 p two u
    × ((get_elem? two.datas 0 ≡ some (some p)) × (u ≡ two)
        ⊎ (get_elem? two.datas 0 ≡ some none) × (p ≡ 9) × (u.heap 9 ≡ (new_ctx 0 sockets).0))
get_lem_example = get_lem 9 0 two (omega arith)

-- ===== src/Ring/Tests.antt =====
-- The laws of the ring at a full ring whose contents wrap around.
use packetyeeter.Common.{ℕ, zero, suc, ◌<◌, ◌≡◌, refl, some, [], ◌∷◌, arith, get_elem?}
use packetyeeter.Ring.{EventRing, push_back, drop_front, at, physical}
use packetyeeter.Ring.View.{IsRing, Holds}
use packetyeeter.Ring.Refines.{Pushed}
use packetyeeter.Ring.Laws.{push_back-Pushed, drop_front_lem}

abbrev wrapped : EventRing ℕ
wrapped = record { buf = 4 ∷ 2 ∷ 3 ∷ []; head = 1; size = 3; limit = 3; unused = 0 }

wrapped-IsRing : IsRing wrapped
wrapped-IsRing = omega arith

wrapped-Holds : Holds wrapped (2 ∷ 3 ∷ 4 ∷ [])
unfolding at physical
wrapped-Holds = record { count = refl; entries = entry }
  where
    entry : (i : ℕ) → i < 3 → at wrapped i ≡ get_elem? (2 ∷ 3 ∷ 4 ∷ []) i
    entry zero h = refl
    entry (suc zero) h = refl
    entry (suc (suc zero)) h = refl
    entry (suc (suc (suc i))) h = absurd (omega arith)

push_back-Pushed_example : Pushed wrapped (3 ∷ 4 ∷ 5 ∷ []) (push_back wrapped 5)
push_back-Pushed_example = push_back-Pushed wrapped (2 ∷ 3 ∷ 4 ∷ []) 5 wrapped-IsRing wrapped-Holds

drop_front_lem_example :
    (r' : EventRing ℕ) × (drop_front wrapped 2 ≡ some r')
    × IsRing r'
    × Holds r' (4 ∷ [])
    × (r'.limit ≡ 3)
drop_front_lem_example = drop_front_lem wrapped (2 ∷ 3 ∷ 4 ∷ []) 2 wrapped-IsRing wrapped-Holds

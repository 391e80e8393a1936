-- ===== src/Sustained/Explained.antt =====
-- What Snapshot says of a client agrees with its thresholds.
use packetyeeter.Common.{ℕ, ◌≡◌, true, [], arith, ◌↔◌}
use packetyeeter.Sustained.Config.{Config}
use packetyeeter.Sustained.Thresholds.{Measured, over, match_thresholds, blockers}

-- The blockers of a client are empty exactly when it clears its thresholds on some path.
pub blockers-over :
    (cfg : Config) (m : Measured) (factor : ℕ)
    → (blockers cfg m factor ≡ []) ↔ (over (match_thresholds cfg m factor) ≡ true)
unfolding blockers match_thresholds
blockers-over cfg m factor = (λ e. ground arith, λ e. ground arith)

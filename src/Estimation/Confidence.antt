-- ===== src/Estimation/Confidence.antt =====
-- The bounds of the confidence of an estimate.
use nse_agent.Common.{
  ℕ, ◌+◌, ◌*◌, ◌≡◌, ◌≤◌, Bool, true, false, pos, ◌+ℤ◌, ◌-ℤ◌, ◌≤ℤ◌, min_ℤ, ltb, if◌then◌else◌, ◌==◌,
  arith,
}
use nse_agent.Estimation.Derived.{estimate_confidence, settle}

-- What the history adds to the score, in the same units.
unfoldable earned : ℕ → ℕ
earned n = if ltb (1000 * n) 4000 then 1000 * n else 4000

score_of_history : (n : ℕ) → pos 3000 +ℤ min_ℤ (pos 4000) (pos (1000 * n)) ≡ pos (3000 + earned n)
unfolding ◌+ℤ◌ earned
score_of_history n = ground arith

earned-le : (n m : ℕ) → n ≤ m → (earned n ≤ earned m) × (earned m ≤ 4000)
unfolding earned
earned-le n m le = ground arith

settle-bounds :
    (h k : ℕ) (b c d : Bool)
    → h ≤ k
    → k ≤ 4000
    → (pos 500 ≤ℤ settle (pos (3000 + h)) b c d)
      × (settle (pos (3000 + h)) b c d ≤ℤ pos 8500)
      × (settle (pos (3000 + h)) b c d ≤ℤ settle (pos (3000 + k)) b c d)
unfolding settle ◌+ℤ◌ ◌-ℤ◌
settle-bounds h k true true true le top = ground arith
settle-bounds h k true true false le top = ground arith
settle-bounds h k true false true le top = ground arith
settle-bounds h k true false false le top = ground arith
settle-bounds h k false true true le top = ground arith
settle-bounds h k false true false le top = ground arith
settle-bounds h k false false true le top = ground arith
settle-bounds h k false false false le top = ground arith

-- The confidence lies between 0.05 and 0.85, and with the same samples, spread and guidance a
-- longer history never has less of it.
pub estimate_confidence-bounds :
    (n m samples_n : ℕ) (spread_is_wide has_guidance : Bool)
    → n ≤ m
    → (pos 500 ≤ℤ estimate_confidence n samples_n spread_is_wide has_guidance)
      × (estimate_confidence n samples_n spread_is_wide has_guidance ≤ℤ pos 8500)
      × (estimate_confidence n samples_n spread_is_wide has_guidance
          ≤ℤ estimate_confidence m samples_n spread_is_wide has_guidance)
unfolding estimate_confidence
estimate_confidence-bounds n m samples_n spread_is_wide has_guidance le =
    let (more, top) = earned-le n m le in
    rw (score_of_history n, score_of_history m)
      (settle-bounds (earned n) (earned m) has_guidance (samples_n == 0) spread_is_wide more top)

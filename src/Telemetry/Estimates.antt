-- ===== src/Telemetry/Estimates.antt =====
-- telemetry.rs, `record_rtt`: the estimates of the round trip over many samples.
use remote_input_bridge.Base.{ℕ, ◌-◌, ◌^◌, ◌≤◌, ◌<◌, ◌≡◌, ◌⊎◌, List, [], ◌∷◌, All, arith}
use remote_input_bridge.Telemetry.{Telemetry, record_rtt}

unfoldable pub record_all : Telemetry → List ℕ → Telemetry
record_all tel [] = tel
record_all tel (x ∷ xs) = record_all (record_rtt tel x) xs

-- The mean lies between the bounds of the samples, or there was none yet, and the jitter is at most
-- their distance.
pub record IsWithin (lo hi : ℕ) (tel : Telemetry) : Type 0 where
  pub mean : (tel.rtt_ewma_us ≡ 0) ⊎ ((lo ≤ tel.rtt_ewma_us) × (tel.rtt_ewma_us ≤ hi))
  pub jitter : tel.jitter_us ≤ hi - lo

record_rtt-IsWithin :
    (lo hi : ℕ) (tel : Telemetry) (x : ℕ)
    → hi < 2 ^ 60
    → lo ≤ x
    → x ≤ hi
    → IsWithin lo hi tel
    → IsWithin lo hi (record_rtt tel x)
unfolding record_rtt
record_rtt-IsWithin lo hi tel x small low high w = ground (arith, w.mean, w.jitter)

-- From estimates within the bounds `lo` and `hi`, `hi` below 2 ^ 60 microseconds: whatever samples
-- between `lo` and `hi` come in, the mean stays between them, or there was none yet, and the jitter
-- stays at most `hi - lo`.
pub record_all-IsWithin :
    (lo hi : ℕ) (tel : Telemetry) (xs : List ℕ)
    → hi < 2 ^ 60
    → All (λ x. (lo ≤ x) × (x ≤ hi)) xs
    → IsWithin lo hi tel
    → IsWithin lo hi (record_all tel xs)
unfolding record_all
record_all-IsWithin lo hi tel [] small h w = w
record_all-IsWithin lo hi tel (x ∷ xs) small h w =
    record_all-IsWithin lo hi (record_rtt tel x) xs small h.1
      (record_rtt-IsWithin lo hi tel x small h.0.0 h.0.1 w)

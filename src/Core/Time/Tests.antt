-- ===== src/Core/Time/Tests.antt =====
-- The time windows at concrete times.
use time_shade_db.Prelude.{ℕ, ◌≤◌, ◌<◌, ◌≡◌, refl, arith}
use time_shade_db.Prelude.Int.{ℤ, pos, negsuc, ◌+ℤ◌, ◌*ℤ◌, ◌≤ℤ◌, ◌<ℤ◌}
use time_shade_db.Core.Time.{floor_div, window_start, window_end, window_bounds}

floor_test : floor_div (negsuc 6) (pos 2) ≡ negsuc 3
unfolding floor_div time_shade_db.Prelude.xor time_shade_db.Prelude.Int.int64
    time_shade_db.Prelude.Int.◌-ℤ◌
floor_test = refl

start_test : window_start (negsuc 0) (pos 60000) ≡ negsuc 59999
unfolding window_start floor_div time_shade_db.Prelude.Int.int64 ◌*ℤ◌ time_shade_db.Prelude.xor
    time_shade_db.Prelude.Int.◌-ℤ◌
start_test = refl

window_bounds_example :
    (window_start (negsuc 0) (pos 60000) ≤ℤ negsuc 0)
    × (negsuc 0 <ℤ window_end (negsuc 0) (pos 60000))
    × (window_end (negsuc 0) (pos 60000) ≡ window_start (negsuc 0) (pos 60000) +ℤ pos 60000)
    × (window_start (negsuc 0) (pos 60000) ≡ floor_div (negsuc 0) (pos 60000) *ℤ pos 60000)
window_bounds_example =
    window_bounds (negsuc 0) 60000 (omega arith, omega arith) (omega arith) (omega arith)

-- ===== src/Db/Retry.antt =====
-- The retry queue: a refused record waits, longer each time, and never for ever.
use native.Mathlib.Nat.{mul-le-mul_left, pow-le-pow_right}
use just_in_time.Prelude.{ℕ, ◌+◌, ◌*◌, ◌^◌, ◌≤◌, ◌≡◌, min, max, ℤ, arith, leb}
use just_in_time.Db.{Row, is_pending}
use just_in_time.Db.Update.{backoff_delay, set_failed, retries}

-- The upper bound of the setting `retry_backoff_max_sec`, at least one second.
abbrev pub longest : ℤ → ℕ
longest (ℤ.pos m) = max 1 m
longest (ℤ.negsuc m) = 1

pub backoff_bounds :
    (max_sec base_sec : ℤ) (tries : ℕ)
    → (1 ≤ backoff_delay max_sec base_sec tries)
      × (backoff_delay max_sec base_sec tries ≤ longest max_sec)
unfolding backoff_delay
backoff_bounds (ℤ.negsuc m) base tries = omega arith
backoff_bounds (ℤ.pos m) (ℤ.negsuc b) tries = omega arith
backoff_bounds (ℤ.pos m) (ℤ.pos b) tries = omega arith

pow_mono : (b i j : ℕ) → i ≤ j → b * 2 ^ i ≤ b * 2 ^ j
pow_mono b i j h = mul-le-mul_left b (pow-le-pow_right {n = 2} (omega arith) h)

-- Whatever the settings hold, a longer row of refusals never shortens the wait, and the wait is
-- between one second and the configured maximum (or one second, if that is less than one).
pub backoff_delay_mono :
    (max_sec base_sec : ℤ) (tries more : ℕ)
    → tries ≤ more
    → (1 ≤ backoff_delay max_sec base_sec tries)
      × (backoff_delay max_sec base_sec tries ≤ backoff_delay max_sec base_sec more)
      × (backoff_delay max_sec base_sec more ≤ longest max_sec)
unfolding backoff_delay
backoff_delay_mono (ℤ.negsuc m) base tries more h = omega arith
backoff_delay_mono (ℤ.pos m) (ℤ.negsuc b) tries more h = omega arith
backoff_delay_mono (ℤ.pos m) (ℤ.pos b) tries more h =
    omega (arith, pow_mono b (min (tries + 1) 20) (min (more + 1) 20) (omega arith))

-- A record refused at `now` is out of the queue until its wait is over and back in it from then on,
-- if it is not marked as synced meanwhile.
pub set_failed_waits :
    (max_sec base_sec : ℤ) (now later : ℕ) (r : Row)
    → r.synced ≡ 0
    → is_pending later (set_failed max_sec base_sec now r)
      ≡ leb (now + backoff_delay max_sec base_sec (retries r)) later
unfolding is_pending set_failed
set_failed_waits max_sec base_sec now later r h = rw h

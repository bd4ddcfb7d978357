-- ===== src/Platform/Clock.antt =====
-- src/lib/platform/clock.cpp: sleeping. The time of day is std::chrono's.
use wsldisk.Base.{ℕ, ◌%◌, ◌^◌}
use wsldisk.Base.Int.{ℤ, pos, negsuc}
use wsldisk.Platform.Win32.{Win32}

-- std::max of a duration and 0, as a DWORD.
unfoldable pub milliseconds : ℤ → ℕ
milliseconds (pos n) = n % 2 ^ 32
milliseconds (negsuc n) = 0

module _ (W : Win32) where
  unfoldable pub sleep_for : ℤ → W.World → W.World
  unfolding milliseconds
  sleep_for duration w = W.sleep (milliseconds duration) w

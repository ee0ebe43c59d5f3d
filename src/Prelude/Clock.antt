-- ===== src/Prelude/Clock.antt =====
-- Go's `time`: an instant is its nanoseconds since the zero time.
use Prim.Native.Nat.{ℕ, ◌-◌, min}

-- `now.Sub(t)`, which saturates at the largest `time.Duration`.
abbrev pub since : ℕ → ℕ → ℕ
since now t = min (now - t) 9_223_372_036_854_775_807

abbrev pub millisecond : ℕ
millisecond = 1_000_000

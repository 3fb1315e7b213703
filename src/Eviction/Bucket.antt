-- ===== src/Eviction/Bucket.antt =====
-- pkg/agent/eviction/manager.go: the token bucket. A time is a number of nanoseconds, and `none`
-- the zero time.
use kqos.Prelude.{Bool, true, false, Option, none, some, if◌then◌else◌}
use kqos.Prelude.Int.{ℤ, pos, ◌-ℤ◌, ltb_ℤ, eqb_ℤ}
use kqos.Floats.{FloatApi}

pub record TokenBucket (Float : Type 0) : Type 0 where
  pub capacity : ℤ
  pub tokens : Float
  pub window : ℤ
  pub last : Option ℤ

abbrev pub time_or : Option ℤ → ℤ → ℤ
time_or none now = now
time_or (some t) now = t

module _ {Float : Type 0} ⦃f : FloatApi Float⦄ where
  open f use {of_int, add, sub, mul, div, less}

  unfoldable pub new_token_bucket : ℤ → ℤ → TokenBucket Float
  new_token_bucket capacity window = record {
    capacity = capacity;
    tokens = of_int capacity;
    window = window;
    last = none;
  }

  -- `if tokens > float64(capacity) { tokens = float64(capacity) }`
  unfoldable pub clamp_tokens : Float → ℤ → Float
  clamp_tokens tokens capacity = if less (of_int capacity) tokens then of_int capacity else tokens

  unfoldable pub configure : TokenBucket Float → ℤ → ℤ → TokenBucket Float
  unfolding clamp_tokens
  configure b capacity window =
      let most = if ltb_ℤ capacity (pos 0) then pos 0 else capacity in
      record b { capacity = most; window = window; tokens = clamp_tokens b.tokens most }

  -- The refill at the start of `take`.
  unfoldable pub refill : TokenBucket Float → ℤ → TokenBucket Float
  unfolding clamp_tokens
  refill b now =
      let last = time_or b.last now in
      let elapsed = now -ℤ last in
      if ltb_ℤ (pos 0) elapsed
      then record b {
        tokens =
            clamp_tokens
              (add b.tokens (mul (of_int b.capacity) (div (of_int elapsed) (of_int b.window))))
              b.capacity;
        last = some now;
      }
      else record b { last = some last }

  unfoldable pub take : TokenBucket Float → ℤ → Bool × TokenBucket Float
  unfolding refill
  take b now =
      let filled = refill b now in
      if eqb_ℤ b.capacity (pos 0)
      then (false, b)
      else if less filled.tokens (of_int (pos 1))
      then (false, filled)
      else (true, record filled { tokens = sub filled.tokens (of_int (pos 1)) })

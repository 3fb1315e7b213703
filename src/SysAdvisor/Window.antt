-- ===== src/SysAdvisor/Window.antt =====
-- pkg/agent/sysadvisor/window.go: a ring of timestamped observations. Times are whole numbers of
-- nanoseconds; the stamps of slots that were never written are never read.
pub mod Ring
pub mod History
pub mod Largest
pub mod Sorted
use kqos.Prelude.{
  ℕ, zero, suc, ◌+◌, ◌-◌, ◌%◌, ◌/◌, ◌≡◌, Bool, true, false, ◌||◌, List, [], ◌∷◌, String, str_eq,
  length, get_or, set, replicate, ◌==◌, ltb, if◌then◌else◌,
}
use kqos.Prelude.Int.{ℤ, pos, negsuc, pos_part, ltb_ℤ, leb_ℤ, ◌-ℤ◌}
use kqos.Floats.{FloatApi}

pub record Window (Float : Type 0) : Type 0 where
  pub values : List Float
  pub stamps : List ℤ
  pub next : ℕ
  pub filled : Bool
  pub capacity : ℕ
  pub horizon : ℤ

-- `rank` forced into 1 to `n`.
abbrev pub clamp_rank : ℤ → ℕ → ℕ
clamp_rank rank n =
    if ltb_ℤ rank (pos 1) then 1 else if ltb_ℤ (pos n) rank then n else pos_part rank

module _ {Float : Type 0} ⦃f : FloatApi Float⦄ where
  open f use {of_int, less, add, mul, div, sub, ceil_to_int, fraction}

  abbrev pub float_zero : Float
  float_zero = of_int (pos 0)

  unfoldable pub new_window : ℤ → ℤ → Window Float
  new_window capacity horizon =
      let slots = if ltb_ℤ capacity (pos 1) then 1 else pos_part capacity in
      record {
        values = replicate slots float_zero;
        stamps = replicate slots (pos 0);
        next = 0;
        filled = false;
        capacity = slots;
        horizon = horizon;
      }

  unfoldable pub push : Window Float → Float → ℤ → Window Float
  push w v at =
      let next = (w.next + 1) % w.capacity in
      record w {
        values = set w.values w.next v;
        stamps = set w.stamps w.next at;
        next = next;
        filled = if next == 0 then true else w.filled;
      }

  -- How many slots hold an observation.
  abbrev pub slots : Window Float → ℕ
  slots w = if w.filled then w.capacity else w.next

  -- The slot of the observation number `i`, the oldest being 0.
  abbrev pub slot : Window Float → ℕ → ℕ
  slot w i = if w.filled then (w.next + i) % w.capacity else i

  -- The loop of `live`, with `k` rounds left from `i` on.
  unfoldable pub live_from : Window Float → ℤ → ℕ → ℕ → List Float
  live_from w cutoff zero i = []
  live_from w cutoff (suc k) i =
      let rest = live_from w cutoff k (i + 1) in
      if ltb_ℤ (get_or w.stamps (slot w i) (pos 0)) cutoff
      then rest
      else get_or w.values (slot w i) float_zero ∷ rest

  unfoldable pub live : Window Float → ℤ → List Float
  unfolding live_from
  live w now = live_from w (now -ℤ w.horizon) (slots w) 0

  unfoldable pub count_live : Window Float → ℤ → ℕ
  count_live w now = length (live w now)

  abbrev pub full : Window Float → Bool
  full w = w.filled

  -- `sort.Float64s`
  unfoldable pub insert_float : Float → List Float → List Float
  insert_float v [] = v ∷ []
  insert_float v (x ∷ xs) = if less x v then x ∷ insert_float v xs else v ∷ x ∷ xs

  unfoldable pub sort_floats : List Float → List Float
  unfolding insert_float
  sort_floats [] = []
  sort_floats (v ∷ vs) = insert_float v (sort_floats vs)

  -- The nearest rank of `p` per cent among `n`: `int(math.Ceil(p / 100 * float64(n)))`.
  unfoldable pub rank_of : Float → ℕ → ℤ
  rank_of p n = ceil_to_int (mul (div p (of_int (pos 100))) (of_int (pos n)))

  -- The part of `percentile` that has observations: `p <= 0` is the least, `p >= 100` the largest.
  unfoldable pub percentile_of : Float → List Float → Float
  percentile_of p vals =
      let n = length vals in
      if less (of_int (pos 0)) p
      then (if less p (of_int (pos 100))
          then get_or vals (clamp_rank (rank_of p n) n - 1) float_zero
          else get_or vals (n - 1) float_zero)
      else get_or vals 0 float_zero

  abbrev pub if_any : List Float → Float → Float
  if_any [] v = float_zero
  if_any (x ∷ xs) v = v

  unfoldable pub percentile : Window Float → Float → ℤ → Float
  unfolding percentile_of sort_floats
  percentile w p now = let vals = live w now in if_any vals (percentile_of p (sort_floats vals))

  -- `for _, v := range vals { if v > m { m = v } }`
  unfoldable pub max_from : Float → List Float → Float
  max_from m [] = m
  max_from m (v ∷ vs) = max_from (if less m v then v else m) vs

  abbrev pub max_of : List Float → Float
  max_of [] = float_zero
  max_of (v ∷ vs) = max_from v vs

  unfoldable pub max : Window Float → ℤ → Float
  unfolding max_from
  max w now = max_of (live w now)

  unfoldable pub sum_from : Float → List Float → Float
  sum_from sum [] = sum
  sum_from sum (v ∷ vs) = sum_from (add sum v) vs

  unfoldable pub mean : Window Float → ℤ → Float
  unfolding sum_from
  mean w now =
      let vals = live w now in
      if_any vals (div (sum_from float_zero vals) (of_int (pos (length vals))))

  unfoldable pub smooth_from : Float → Float → List Float → Float
  smooth_from alpha acc [] = acc
  smooth_from alpha acc (v ∷ vs) =
      smooth_from alpha (add (mul alpha v) (mul (sub (of_int (pos 1)) alpha) acc)) vs

  -- `alpha <= 0 || alpha > 1` falls back to 0.3.
  abbrev pub valid_alpha : Float → Float
  valid_alpha alpha =
      if less float_zero alpha
      then (if less (of_int (pos 1)) alpha then fraction 3 10 else alpha)
      else fraction 3 10

  abbrev pub smooth_of : Float → List Float → Float
  smooth_of alpha [] = float_zero
  smooth_of alpha (v ∷ vs) = smooth_from (valid_alpha alpha) v vs

  unfoldable pub ewma : Window Float → Float → ℤ → Float
  unfolding smooth_from
  ewma w alpha now = smooth_of alpha (live w now)

  unfoldable pub aggregate : Window Float → String → Float → ℤ → Float
  aggregate w algorithm alpha now =
      if str_eq algorithm "p99"
      then percentile w (of_int (pos 99)) now
      else if str_eq algorithm "max"
      then max w now
      else if str_eq algorithm "ewma"
      then ewma w alpha now
      else if str_eq algorithm "mean"
      then mean w now
      else percentile w (of_int (pos 95)) now

-- ===== src/SysAdvisor/Window/History.antt =====
-- The ring refines the sequence of its observations: `live` is the newest of them, as many as the
-- ring holds, less those that are older than the horizon.
use kqos.Prelude.{
  ℕ, zero, suc, ◌+◌, ◌-◌, ◌<◌, ◌≡◌, ◌∙◌, refl, ap, List, [], ◌∷◌, ◌++◌, arith, length, length-map,
  get_or, drop, map, length-replicate, if◌then◌else◌,
}
use Prim.Native.Nat.{min}
use mathlib.Core.List.{append-nil, append_assoc}
use kqos.Prelude.Int.{ℤ, pos, ltb_ℤ, ◌-ℤ◌, pos_part}
use kqos.Floats.{FloatApi}
use kqos.SysAdvisor.Window.{Window, new_window, push, slots, slot, live_from, live, float_zero}
use kqos.SysAdvisor.Window.Ring.{Holds, push-Holds}

map-snoc :
    {A B : Type 0} (g : A → B) (xs : List A) (x : A) → map g (xs ++ x ∷ []) ≡ map g xs ++ g x ∷ []
map-snoc g [] x = refl
map-snoc g (y ∷ ys) x = ap (◌∷◌ (g y)) (map-snoc g ys x)

get_or-map :
    {A B : Type 0} (g : A → B) (xs : List A) (j : ℕ) (d : A)
    → get_or (map g xs) j (g d) ≡ g (get_or xs j d)
get_or-map g [] j d = refl
get_or-map g (x ∷ xs) zero d = refl
get_or-map g (x ∷ xs) (suc j) d = get_or-map g xs j d

drop_entry :
    {A : Type 0} (xs : List A) (j : ℕ) (d : A)
    → j < length xs
    → drop j xs ≡ get_or xs j d ∷ drop (suc j) xs
drop_entry [] j d h = absurd (omega arith)
drop_entry (x ∷ xs) zero d h = refl
drop_entry (x ∷ xs) (suc j) d h = drop_entry xs j d (omega arith)

drop-length : {A : Type 0} (xs : List A) → drop (length xs) xs ≡ []
drop-length [] = refl
drop-length (x ∷ xs) = drop-length xs

-- A value and its time.
abbrev pub Observation : Type 0 → Type 0
Observation Float = Float × ℤ

module _ {Float : Type 0} ⦃f : FloatApi Float⦄ where
  -- The calls of `push`, the oldest first.
  abbrev pub push_all : Window Float → List (Observation Float) → Window Float
  push_all w [] = w
  push_all w ((v, at) ∷ obs) = push_all (push w v at) obs

  -- The values of the observations that are not older than the cutoff.
  abbrev pub recent : ℤ → List (Observation Float) → List Float
  recent cutoff [] = []
  recent cutoff ((v, at) ∷ obs) =
      if ltb_ℤ at cutoff then recent cutoff obs else v ∷ recent cutoff obs

  abbrev value_of : Observation Float → Float
  value_of o = o.0

  abbrev stamp_of : Observation Float → ℤ
  stamp_of o = o.1

  -- Both arrays hold the newest entries of one history.
  pub record Refines (w : Window Float) (hist : List (Observation Float)) : Type 0 where
    pub values : Holds float_zero w.capacity w.filled w.next w.values (map value_of hist)
    pub stamps : Holds (pos 0) w.capacity w.filled w.next w.stamps (map stamp_of hist)

  push-Refines :
      (w : Window Float) (hist : List (Observation Float)) (v : Float) (at : ℤ)
      → Refines w hist
      → Refines (push w v at) (hist ++ (v, at) ∷ [])
  unfolding push
  push-Refines w hist v at r = record {
    values =
        rw (map-snoc value_of hist (v, at))
          (push-Holds float_zero w.capacity w.next w.values _ v w.filled r.values);
    stamps =
        rw (map-snoc stamp_of hist (v, at))
          (push-Holds (pos 0) w.capacity w.next w.stamps _ at w.filled r.stamps);
  }

  push_all-Refines :
      (w : Window Float) (hist obs : List (Observation Float))
      → Refines w hist
      → Refines (push_all w obs) (hist ++ obs)
  push_all-Refines w hist [] r = rw append-nil r
  push_all-Refines w hist ((v, at) ∷ obs) r =
      rw (append_assoc hist ((v, at) ∷ []) obs) at
        (push_all-Refines (push w v at) (hist ++ (v, at) ∷ []) obs (push-Refines w hist v at r))

  new-Refines : (capacity horizon : ℤ) → Refines (new_window capacity horizon) []
  unfolding new_window
  new-Refines capacity horizon = record {
    values = record {
      size = length-replicate _ float_zero;
      next_lt = ground arith;
      count = omega arith;
      entries = λ i lt. absurd (omega arith);
    };
    stamps = record {
      size = length-replicate _ (pos 0);
      next_lt = ground arith;
      count = omega arith;
      entries = λ i lt. absurd (omega arith);
    };
  }

  -- Slot `i` holds the observation that stands there in the history.
  slot-value :
      (w : Window Float) (hist : List (Observation Float)) (i j : ℕ)
      → Refines w hist
      → i < slots w
      → j ≡ length hist - slots w + i
      → get_or w.values (slot w i) float_zero ≡ (get_or hist j (float_zero, pos 0)).0
  slot-value w hist i j r lt e =
      r.values.entries i lt
      ∙ ap (λ (n : ℕ). get_or (map value_of hist) n float_zero)
          (omega (arith, length-map value_of hist))
      ∙ get_or-map value_of hist j (float_zero, pos 0)

  slot-stamp :
      (w : Window Float) (hist : List (Observation Float)) (i j : ℕ)
      → Refines w hist
      → i < slots w
      → j ≡ length hist - slots w + i
      → get_or w.stamps (slot w i) (pos 0) ≡ (get_or hist j (float_zero, pos 0)).1
  slot-stamp w hist i j r lt e =
      r.stamps.entries i lt
      ∙ ap (λ (n : ℕ). get_or (map stamp_of hist) n (pos 0))
          (omega (arith, length-map stamp_of hist))
      ∙ get_or-map stamp_of hist j (float_zero, pos 0)

  slots-at_most :
      (w : Window Float) (hist : List (Observation Float))
      → Refines w hist
      → slots w ≡ min (length hist) w.capacity
  slots-at_most w hist r = omega (arith, r.values.count, length-map value_of hist)

  -- Reading `k` slots from `i` on reads the history from there.
  live_from-recent :
      (w : Window Float) (hist : List (Observation Float)) (cutoff : ℤ) (k i j : ℕ)
      → Refines w hist
      → i + k ≡ slots w
      → j + k ≡ length hist
      → live_from w cutoff k i ≡ recent cutoff (drop j hist)
  unfolding live_from
  live_from-recent w hist cutoff zero i j r e a =
      let end : j ≡ length hist = omega arith in rw (end, drop-length hist) refl
  live_from-recent w hist cutoff (suc k) i j r e a =
      let at : j ≡ length hist - slots w + i = omega (arith, slots-at_most w hist r) in
      rw
        (
          slot-value w hist i j r (omega arith) at,
          slot-stamp w hist i j r (omega arith) at,
          drop_entry hist j (float_zero, pos 0) (omega arith),
          live_from-recent w hist cutoff k (i + 1) (suc j) r (omega arith) (omega arith),
        )
        refl

  push-horizon : (w : Window Float) (v : Float) (at : ℤ) → (push w v at).horizon ≡ w.horizon
  unfolding push
  push-horizon w v at = refl

  push_all_keeps :
      (w : Window Float) (obs : List (Observation Float))
      → ((push_all w obs).horizon ≡ w.horizon) × ((push_all w obs).capacity ≡ w.capacity)
  unfolding push
  push_all_keeps w [] = (refl, refl)
  push_all_keeps w ((v, at) ∷ obs) = push_all_keeps (push w v at) obs

  -- A window that was made with a capacity and a horizon and into which observations were pushed
  -- answers with the newest of them, as many as the capacity (1 if that is less than 1), less those
  -- with a time before `now - horizon`, the oldest first.
  pub live-newest :
      (capacity horizon now : ℤ) (obs : List (Observation Float))
      → live (push_all (new_window capacity horizon) obs) now
        ≡ recent
            (now -ℤ horizon)
            (drop (length obs - (if ltb_ℤ capacity (pos 1) then 1 else pos_part capacity)) obs)
  unfolding live new_window
  live-newest capacity horizon now obs =
      let w = push_all (new_window capacity horizon) obs in
      let r : Refines w obs =
        push_all-Refines (new_window capacity horizon) [] obs (new-Refines capacity horizon) in
      let k : slots w ≡ min (length obs) (if ltb_ℤ capacity (pos 1) then 1 else pos_part capacity) =
        slots-at_most w obs r
        ∙ ap (min (length obs)) (push_all_keeps (new_window capacity horizon) obs).1 in
      rw ((push_all_keeps (new_window capacity horizon) obs).0) (
        live_from-recent w obs (now -ℤ horizon) (slots w) 0
          (length obs - (if ltb_ℤ capacity (pos 1) then 1 else pos_part capacity)) r (omega arith)
          (omega arith))

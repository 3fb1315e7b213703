-- ===== src/Usage/Store/Expiry.antt =====
-- Garbage collection: what it leaves, and that no question about a workload is answered differently
-- after it.
use kqos.Prelude.{
  ℕ, ◌<◌, ◌⊎◌, ◌≡◌, ◌∙◌, refl, sym, ap, Bool, true, false, not, ◌&&◌, List, [], ◌∷◌, Option, none,
  some, String, str_eq, eq_iff, if◌then◌else◌, length, select, ◌==◌, AllOf, AllOf-map,
  select-select, select-AllOf, Bool-cases, inl, inr, arith,
}
use mathlib.Core.Path.{subst}
use kqos.Prelude.Int.{ℤ, pos, ltb_ℤ, ◌-ℤ◌, ◌*ℤ◌, ◌≤ℤ◌}
use kqos.Floats.{FloatApi}
use kqos.Kubernetes.{lookup}
use kqos.Kubernetes.Maps.{IsMap}
use kqos.Usage.{WorkloadKey, key_text}
use kqos.Usage.Store.{
  Store, Series, Sample, is_live, is_gone, without_expired, gc_series, gc, stats_of_live,
  stats_since, workload_stats,
}

select-nil : {A : Type 0} (p : A → Bool) → select p [] ≡ []
unfolding select
select-nil p = refl

no_length : {A : Type 0} (xs : List A) → (length xs == 0) ≡ true → xs ≡ []
no_length [] h = refl
no_length (x ∷ xs) h = absurd (ground arith)

first_holds : (a b : Bool) → (a && b) ≡ true → a ≡ true
first_holds a b h = ground arith

used_or_recent :
    (n : ℕ) (limit age : ℤ) → (n == 0 && ltb_ℤ limit age) ≡ false → (0 < n) ⊎ (age ≤ℤ limit)
used_or_recent n limit age h = elim (Bool-cases (n == 0)) [
  | inl e ↦ inr (ground arith)
  | inr e ↦ inl (ground arith)
]

cutoff_later : (now later retention : ℤ) → now ≤ℤ later → (now -ℤ retention) ≤ℤ (later -ℤ retention)
unfolding ◌-ℤ◌
cutoff_later now later retention h = ground arith

module _ {Float : Type 0} ⦃f : FloatApi Float⦄ where
  -- What is live at a time was live before.
  is_live_later :
      (c d : ℤ) (sm : Sample Float) → c ≤ℤ d → is_live c sm ≡ false → is_live d sm ≡ false
  is_live_later c d sm h e = ground arith

  -- What becomes of a series.
  abbrev pub collected : ℤ → ℤ → Option (Series Float) → Option (Series Float)
  collected now retention none = none
  collected now retention (some ser) =
      let kept = without_expired (now -ℤ retention) ser in
      if is_gone now retention kept then none else some kept

  pub lookup-gc_series :
      (now retention : ℤ) (k : String) (m : List (String × Series Float))
      → IsMap m
      → lookup k (gc_series now retention m) ≡ collected now retention (lookup k m)
  unfolding gc_series
  lookup-gc_series now retention k [] u = refl
  lookup-gc_series now retention k ((j, ser) ∷ m) u =
      let kept = without_expired (now -ℤ retention) ser in
      let rest = lookup-gc_series now retention k m u.1 in
      elim (Bool-cases (str_eq j k)) [
        | inl e ↦
            let missing : lookup k m ≡ none =
              subst (λ x. lookup x m ≡ none) ((eq_iff j k).0 e) u.0 in
            elim (Bool-cases (is_gone now retention kept)) [
              | inl g ↦ simp (e, g) (rest ∙ simp missing refl)
              | inr g ↦ simp (e, g) refl
            ]
        | inr e ↦ elim (Bool-cases (is_gone now retention kept)) [
          | inl g ↦ simp (e, g) rest
          | inr g ↦ simp (e, g) rest
        ]
      ]

  stats_since-collected :
      (now later retention : ℤ) (o : Option (Series Float))
      → now ≤ℤ later
      → stats_since (later -ℤ retention) (collected now retention o)
        ≡ stats_since (later -ℤ retention) o
  stats_since-collected now later retention none h = refl
  stats_since-collected now later retention (some ser) h =
      let old = now -ℤ retention in
      let new = later -ℤ retention in
      let once : select (is_live new) (select (is_live old) ser.samples)
          ≡ select (is_live new) ser.samples =
        select-select (is_live new) (is_live old) ser.samples
          (λ sm. is_live_later old new sm (cutoff_later now later retention h)) in
      elim (Bool-cases (is_gone now retention (without_expired old ser))) [
        | inl e ↦
            let empty = no_length (select (is_live old) ser.samples) (first_holds _ _ e) in
            let none_left : select (is_live new) ser.samples ≡ [] =
              sym once ∙ ap (select (is_live new)) empty ∙ select-nil (is_live new) in
            simp e (ap stats_of_live (sym none_left))
        | inr e ↦ simp e (ap stats_of_live once)
      ]

  -- Garbage collection changes no answer of WorkloadStats, then or later.
  pub workload_stats-gc :
      (s : Store Float) (key : WorkloadKey) (now later : ℤ)
      → IsMap s.series
      → now ≤ℤ later
      → workload_stats (gc now s) key later ≡ workload_stats s key later
  unfolding workload_stats gc
  workload_stats-gc s key now later u h =
      ap (stats_since (later -ℤ s.retention))
        (lookup-gc_series now s.retention (key_text key) s.series u)
      ∙ stats_since-collected now later s.retention (lookup (key_text key) s.series) h

  -- Nothing of a series is older than the retention, and it has a sample or was reported on within
  -- twice the retention.
  pub record IsFresh (now retention : ℤ) (ser : Series Float) : Type 0 where
    pub live : AllOf (λ sm. (now -ℤ retention) ≤ℤ sm.at) ser.samples
    pub used : (0 < length ser.samples) ⊎ ((now -ℤ ser.last) ≤ℤ (pos 2 *ℤ retention))

  without_expired-IsFresh :
      (now retention : ℤ) (ser : Series Float)
      → is_gone now retention (without_expired (now -ℤ retention) ser) ≡ false
      → IsFresh now retention (without_expired (now -ℤ retention) ser)
  without_expired-IsFresh now retention ser h = record {
    live =
        AllOf-map (λ sm. is_live (now -ℤ retention) sm ≡ true) (λ sm. (now -ℤ retention) ≤ℤ sm.at) _
          (λ sm e. ground arith) (select-AllOf (is_live (now -ℤ retention)) ser.samples);
    used =
        used_or_recent (length (select (is_live (now -ℤ retention)) ser.samples))
          (pos 2 *ℤ retention) (now -ℤ ser.last) h;
  }

  gc_series-IsFresh :
      (now retention : ℤ) (m : List (String × Series Float))
      → AllOf (λ e. IsFresh now retention e.1) (gc_series now retention m)
  unfolding gc_series
  gc_series-IsFresh now retention [] = tt
  gc_series-IsFresh now retention ((k, ser) ∷ m) =
      elim (Bool-cases (is_gone now retention (without_expired (now -ℤ retention) ser))) [
        | inl e ↦ simp e (gc_series-IsFresh now retention m)
        | inr e ↦
            simp e (without_expired-IsFresh now retention ser e, gc_series-IsFresh now retention m)
      ]

  -- What is left after garbage collection, of the series and of the nodes.
  pub gc-IsFresh :
      (now : ℤ) (s : Store Float)
      → AllOf (λ e. IsFresh now s.retention e.1) (gc now s).series
        × AllOf (λ e. (now -ℤ e.1) ≤ℤ (pos 2 *ℤ s.retention)) (gc now s).node_seen
  unfolding gc
  gc-IsFresh now s = (
    gc_series-IsFresh now s.retention s.series,
    AllOf-map (λ e. not (ltb_ℤ (pos 2 *ℤ s.retention) (now -ℤ e.1)) ≡ true) _ _
        (λ e h. ground arith)
        (select-AllOf (λ e. not (ltb_ℤ (pos 2 *ℤ s.retention) (now -ℤ e.1))) s.node_seen),
  )

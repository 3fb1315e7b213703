-- ===== src/Collector/Totals/Counts.antt =====
-- The totals count the pods of each level.
use kqos.Prelude.{
  ℕ, ◌+◌, ◌≤◌, ◌≡◌, ◌∙◌, refl, sym, ap, Bool, true, false, List, [], ◌∷◌, Bool-cases, inl, inr,
  arith, if◌then◌else◌, length, count,
}
use mathlib.Core.Path.{subst}
use kqos.Prelude.Int.{ℤ, pos, int32, ◌+ℤ◌}
use kqos.Api.{QosLevel, level_eq}
use kqos.Api.Levels.{level_eq_same}
use kqos.Collector.{NodeSample, PodSample}
use kqos.Collector.Totals.{QosTotals, at_level, put_level, add_pod, add_pods, by_qos, no_totals}
use kqos.Floats.{FloatApi}
use kqos.Kubernetes.{QuantityApi}

-- A level that was put is read back, and the others stay.
at_level-put_level :
    {V : Type 0} (k q : QosLevel) (v d : V) (m : List (QosLevel × V))
    → at_level q d (put_level k v m) ≡ (if level_eq k q then v else at_level q d m)
unfolding put_level
at_level-put_level k q v d [] = refl
at_level-put_level k q v d ((j, w) ∷ m) = elim (Bool-cases (level_eq j k)) [
  | inl e ↦ elim (Bool-cases (level_eq k q)) [
    | inl g ↦
        let n : level_eq j q ≡ true =
          subst (λ l. level_eq l q ≡ true) (sym (level_eq_same j k e)) g in
        rw (e, g, n) refl
    | inr g ↦
        let n : level_eq j q ≡ false =
          subst (λ l. level_eq l q ≡ false) (sym (level_eq_same j k e)) g in
        rw (e, g, n) refl
  ]
  | inr e ↦ elim (Bool-cases (level_eq k q)) [
    | inl g ↦
        let n : level_eq j q ≡ false = subst (λ l. level_eq j l ≡ false) (level_eq_same k q g) e in
        rw (e, n) (at_level-put_level k q v d m)
    | inr g ↦ elim (Bool-cases (level_eq j q)) [
      | inl n ↦ rw (e, g, n) refl
      | inr n ↦ rw (e, n) (at_level-put_level k q v d m)
    ]
  ]
]

if_true : {A : Type 0} (b : Bool) (x y : A) → b ≡ true → (if b then x else y) ≡ x
if_true b x y h = rw h refl

if_false : {A : Type 0} (b : Bool) (x y : A) → b ≡ false → (if b then x else y) ≡ y
if_false b x y h = rw h refl

next_fits : (n : ℕ) → n + 1 ≤ 2_147_483_647 → int32 (pos n +ℤ pos 1) ≡ pos (n + 1)
unfolding int32 ◌+ℤ◌
next_fits n h = ground arith

module _ {Float : Type 0} ⦃f : FloatApi Float⦄ where
  -- How many pods the totals have at a level.
  abbrev pub pods_at : QosLevel → List (QosLevel × QosTotals Float) → ℤ
  pods_at q m = (at_level q no_totals m).pods

module _ {Float Quantity : Type 0} ⦃f : FloatApi Float⦄ ⦃api : QuantityApi Quantity⦄ where
  abbrev pub is_at : QosLevel → PodSample Float Quantity → Bool
  is_at q p = level_eq p.qos_level q

  add_pod-pods :
      (p : PodSample Float Quantity) (t : QosTotals Float) (n : ℕ)
      → t.pods ≡ pos n
      → n + 1 ≤ 2_147_483_647
      → (add_pod p t).pods ≡ pos (n + 1)
  unfolding add_pod
  add_pod-pods p t n h l = ap (λ c. int32 (c +ℤ pos 1)) h ∙ next_fits n l

  add_pods-count :
      (q : QosLevel) (ps : List (PodSample Float Quantity)) (m : List (QosLevel × QosTotals Float))
      (n : ℕ)
      → pods_at q m ≡ pos n
      → n + length ps ≤ 2_147_483_647
      → pods_at q (add_pods ps m) ≡ pos (n + count (is_at q) ps)
  unfolding add_pods
  add_pods-count q [] m n h l = h ∙ ap pos (omega arith)
  add_pods-count q (p ∷ ps) m n h l =
      let next = put_level p.qos_level (add_pod p (at_level p.qos_level no_totals m)) m in
      let read =
        at_level-put_level p.qos_level q (add_pod p (at_level p.qos_level no_totals m)) no_totals
          m in
      elim (Bool-cases (level_eq p.qos_level q)) [
        | inl e ↦
            let same = level_eq_same p.qos_level q e in
            let more : pods_at q next ≡ pos (n + 1) =
              ap (λ (t : QosTotals Float). t.pods)
                (read
                  ∙ if_true _ (add_pod p (at_level p.qos_level no_totals m))
                      (at_level q no_totals m) e)
              ∙ add_pod-pods p (at_level p.qos_level no_totals m) n
                  (subst (λ l. pods_at l m ≡ pos n) (sym same) h) (omega arith) in
            rw e (add_pods-count q ps next (n + 1) more (omega arith) ∙ ap pos (omega arith))
        | inr e ↦
            let kept : pods_at q next ≡ pos n =
              ap (λ (t : QosTotals Float). t.pods)
                (read
                  ∙ if_false _ (add_pod p (at_level p.qos_level no_totals m))
                      (at_level q no_totals m) e)
              ∙ h in
            rw e (add_pods-count q ps next n kept (omega arith) ∙ ap pos (omega arith))
      ]

  -- In a sample of at most 2^31 - 1 pods, the number of pods in the totals of a level is the number
  -- of the sample's pods at that level.
  pub by_qos-count :
      (n : NodeSample Float Quantity) (q : QosLevel)
      → length n.pods ≤ 2_147_483_647
      → pods_at q (by_qos n) ≡ pos (count (is_at q) n.pods)
  unfolding by_qos
  by_qos-count n q h = add_pods-count q n.pods [] 0 refl (omega arith) ∙ ap pos (omega arith)

-- ===== src/Qos/Classes.antt =====
-- Which level a pod gets, by its annotation and by its priority class.
use kqos.Prelude.{
  none, false, ◌≡◌, ◌∙◌, refl, sym, true, some, not, ◌||◌, Bool, Option, String, str_eq, eq_iff,
  if◌then◌else◌, Bool-cases, inl, inr,
}
use mathlib.Core.Path.{subst}
use kqos.Api.{
  QosLevel, level_text, is_valid, evictable, annotation_qos_level, system_cores, to_level,
}
use kqos.Api.Levels.{to_level-level_text}
use kqos.Kubernetes.{QuantityApi, Pod, QosClass, unset, guaranteed, burstable, best_effort, lookup}
use kqos.Qos.{annotated_or, level_of_class, native_qos, inferred_level, level_of, is_critical}

module _ {Quantity : Type 0} ⦃api : QuantityApi Quantity⦄ where
  -- A pod that is annotated with the text of a known level has that level.
  pub annotated_level :
      (pod : Pod Quantity) (q : QosLevel)
      → is_valid q ≡ true
      → lookup annotation_qos_level pod.annotations ≡ some (level_text q)
      → level_of pod ≡ q
  unfolding level_of
  annotated_level pod q v h = rw (h, to_level-level_text q v, v) refl

-- The text names one of the four levels.
abbrev pub names_level : Option String → Bool
names_level none = false
names_level (some v) =
    str_eq v "dedicated_cores"
    || str_eq v "shared_cores"
    || str_eq v "reclaimed_cores"
    || str_eq v "system_cores"

abbrev pub is_text : Option String → String → Bool
is_text none t = false
is_text (some v) t = str_eq v t

inferred_evictable :
    (critical : Bool) (c : QosClass)
    → evictable (if critical then system_cores else level_of_class c) ≡ not critical
unfolding evictable
inferred_evictable true c = refl
inferred_evictable false unset = refl
inferred_evictable false guaranteed = refl
inferred_evictable false burstable = refl
inferred_evictable false best_effort = refl

annotated_evictable :
    (o : Option String) (q : QosLevel)
    → evictable (annotated_or o q)
      ≡ (if names_level o then not (is_text o "system_cores") else evictable q)
unfolding evictable to_level is_valid
annotated_evictable none q = refl
annotated_evictable (some v) q = elim (Bool-cases (str_eq v "dedicated_cores")) [
  | inl d ↦
      let other : str_eq v "system_cores" ≡ false =
        subst (λ x. str_eq x "system_cores" ≡ false) (sym ((eq_iff v "dedicated_cores").0 d))
          refl in
      simp (d, other) refl
  | inr d ↦ elim (Bool-cases (str_eq v "shared_cores")) [
    | inl e ↦
        let other : str_eq v "system_cores" ≡ false =
          subst (λ x. str_eq x "system_cores" ≡ false) (sym ((eq_iff v "shared_cores").0 e)) refl in
        simp (d, e, other) refl
    | inr e ↦ elim (Bool-cases (str_eq v "reclaimed_cores")) [
      | inl r ↦
          let other : str_eq v "system_cores" ≡ false =
            subst (λ x. str_eq x "system_cores" ≡ false) (sym ((eq_iff v "reclaimed_cores").0 r))
              refl in
          simp (d, e, r, other) refl
      | inr r ↦ elim (Bool-cases (str_eq v "system_cores")) [
        | inl y ↦ simp (d, e, r, y) refl
        | inr y ↦ simp (d, e, r, y) refl
      ]
    ]
  ]
]

module _ {Quantity : Type 0} ⦃api : QuantityApi Quantity⦄ where
  -- A pod whose annotation names a level is evictable unless it names the system's; any other pod is
  -- evictable unless its priority class is critical to the system.
  pub evictable-level_of :
      (pod : Pod Quantity)
      → evictable (level_of pod) ≡ (
          let o = lookup annotation_qos_level pod.annotations in
          if names_level o then not (is_text o "system_cores") else not (is_critical pod))
  unfolding level_of inferred_level
  evictable-level_of pod =
      let o = lookup annotation_qos_level pod.annotations in
      annotated_evictable o (inferred_level pod)
      ∙ rw (inferred_evictable (is_critical pod) (native_qos pod)) refl

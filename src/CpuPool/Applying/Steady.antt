-- ===== src/CpuPool/Applying/Steady.antt =====
-- The step for one pod: what it leaves to write, of this pod and of the others.
use kqos.Prelude.{
  ℕ, ◌≡◌, refl, true, false, List, [], ◌∷◌, Option, none, some, String, str_eq, Bool-cases, inl,
  inr, arith,
}
use kqos.Strings.{Text, text_eq}
use kqos.Kubernetes.{lookup}
use kqos.Kubernetes.Maps.{lookup-put_key, str_eq_self}
use kqos.CpuPool.Applying.{
  Write, Cgroups, Applied, needs_weight, needs_cpus, set_cpu_weight, set_cpu_set_cpus, text_or_nil,
  apply_weight, apply_cpus, apply_at,
}

pub text_eq_self : (t : Text) → text_eq t t ≡ true
text_eq_self [] = refl
text_eq_self (c ∷ cs) = ground (arith, text_eq_self cs)

-- Of a pod nothing is left to write.
abbrev pub IsQuiet : String → ℕ → Option Text → List (String × ℕ) → List (String × Text) → Type 0
IsQuiet uid weight want weights cpu_sets =
    (needs_weight (lookup uid weights) weight ≡ false)
    × (needs_cpus (lookup uid cpu_sets) want ≡ false)

weight_taken : (w : ℕ) → needs_weight (some w) w ≡ false
weight_taken w = ground arith

cpus_taken :
    (want : Option Text) (o : Option Text)
    → needs_cpus o want ≡ true
    → needs_cpus (some (text_or_nil want)) want ≡ false
cpus_taken none o h = refl
cpus_taken (some t) o h = rw (text_eq_self t) (ground arith)

-- The step for a pod of which nothing is left changes nothing.
pub apply_at_quiet :
    (fs : Cgroups) (uid : String) (weight : ℕ) (want : Option Text) (path : Option String)
    (a : Applied)
    → IsQuiet uid weight want a.weights a.cpu_sets
    → apply_at fs uid weight want path a ≡ a
unfolding apply_weight apply_cpus
apply_at_quiet fs uid weight want none a q = refl
apply_at_quiet fs uid weight want (some path) a q = simp (q.0, q.1) refl

-- If all writes succeed, nothing is left of the pod after its step.
pub weight-IsQuiet :
    (fs : Cgroups) (uid path : String) (weight : ℕ) (a : Applied)
    → ((w : Write) → fs.succeeds w ≡ true)
    → needs_weight (lookup uid (apply_weight fs uid path weight a).weights) weight ≡ false
unfolding apply_weight
weight-IsQuiet fs uid path weight a s =
    elim (Bool-cases (needs_weight (lookup uid a.weights) weight)) [
      | inl e ↦
          simp
            (
              e,
              s (set_cpu_weight path weight),
              lookup-put_key uid uid weight a.weights,
              str_eq_self uid,
            )
            (weight_taken weight)
      | inr e ↦ simp e refl
    ]

pub cpus-IsQuiet :
    (fs : Cgroups) (uid path : String) (want : Option Text) (a : Applied)
    → ((w : Write) → fs.succeeds w ≡ true)
    → needs_cpus (lookup uid (apply_cpus fs uid path want a).cpu_sets) want ≡ false
unfolding apply_cpus
cpus-IsQuiet fs uid path want a s = elim (Bool-cases (needs_cpus (lookup uid a.cpu_sets) want)) [
  | inl e ↦
      simp
        (
          e,
          s (set_cpu_set_cpus path (text_or_nil want)),
          lookup-put_key uid uid (text_or_nil want) a.cpu_sets,
          str_eq_self uid,
        )
        (cpus_taken want (lookup uid a.cpu_sets) e)
  | inr e ↦ simp e refl
]

pub weights-apply_cpus :
    (fs : Cgroups) (uid path : String) (want : Option Text) (a : Applied)
    → (apply_cpus fs uid path want a).weights ≡ a.weights
unfolding apply_cpus
weights-apply_cpus fs uid path want a =
    elim (Bool-cases (needs_cpus (lookup uid a.cpu_sets) want)) [
      | inl e ↦ elim (Bool-cases (fs.succeeds (set_cpu_set_cpus path (text_or_nil want)))) [
        | inl g ↦ simp (e, g) refl
        | inr g ↦ simp (e, g) refl
      ]
      | inr e ↦ simp e refl
    ]

-- The step for another pod leaves what is noted of this one.
pub lookup-apply_weight :
    (fs : Cgroups) (uid path : String) (weight : ℕ) (a : Applied) (k : String)
    → str_eq uid k ≡ false
    → (lookup k (apply_weight fs uid path weight a).weights ≡ lookup k a.weights)
      × ((apply_weight fs uid path weight a).cpu_sets ≡ a.cpu_sets)
unfolding apply_weight
lookup-apply_weight fs uid path weight a k d =
    elim (Bool-cases (needs_weight (lookup uid a.weights) weight)) [
      | inl e ↦ elim (Bool-cases (fs.succeeds (set_cpu_weight path weight))) [
        | inl g ↦ simp (e, g, lookup-put_key k uid weight a.weights, d) (refl, refl)
        | inr g ↦ simp (e, g) (refl, refl)
      ]
      | inr e ↦ simp e (refl, refl)
    ]

pub lookup-apply_cpus :
    (fs : Cgroups) (uid path : String) (want : Option Text) (a : Applied) (k : String)
    → str_eq uid k ≡ false
    → lookup k (apply_cpus fs uid path want a).cpu_sets ≡ lookup k a.cpu_sets
unfolding apply_cpus
lookup-apply_cpus fs uid path want a k d =
    elim (Bool-cases (needs_cpus (lookup uid a.cpu_sets) want)) [
      | inl e ↦ elim (Bool-cases (fs.succeeds (set_cpu_set_cpus path (text_or_nil want)))) [
        | inl g ↦ simp (e, g, lookup-put_key k uid (text_or_nil want) a.cpu_sets, d) refl
        | inr g ↦ simp (e, g) refl
      ]
      | inr e ↦ simp e refl
    ]

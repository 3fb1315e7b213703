-- ===== src/Profile/Conditions.antt =====
-- `setCondition` of pkg/agent/report.go and of pkg/controller/profile/controller.go: a condition is
-- put in a list, in the place of the first of its kind.
use kqos.Prelude.{
  ◌≡◌, ◌∙◌, refl, sym, false, List, [], ◌∷◌, Option, none, some, String, str_eq, eq_iff,
  if◌then◌else◌, Bool-cases, inl, inr,
}
use mathlib.Core.Path.{subst}
use kqos.Prelude.Int.{ℤ}
use kqos.Profile.{Condition}

-- The condition with the time of its transition: that of the old one, if the status is the same.
abbrev pub stamped : ℤ → Condition → Option Condition → Condition
stamped now cond none = record cond { last_transition_time = now }
stamped now cond (some old) = record cond {
  last_transition_time = if str_eq old.status cond.status then old.last_transition_time else now;
}

unfoldable pub set_condition : ℤ → Condition → List Condition → List Condition
set_condition now cond [] = stamped now cond none ∷ []
set_condition now cond (c ∷ cs) =
    let rest = set_condition now cond cs in
    if str_eq c.kind cond.kind then stamped now cond (some c) ∷ cs else c ∷ rest

-- The first condition of a kind.
abbrev pub condition_of : String → List Condition → Option Condition
condition_of kind [] = none
condition_of kind (c ∷ cs) =
    let rest = condition_of kind cs in if str_eq c.kind kind then some c else rest

pub stamped_status :
    (now : ℤ) (cond : Condition) (old : Option Condition)
    → (stamped now cond old).status ≡ cond.status
stamped_status now cond none = refl
stamped_status now cond (some old) = refl

-- A condition that is set is found, with the time at which its status last changed; those of other
-- kinds stay.
pub condition_of-set_condition :
    (now : ℤ) (cond : Condition) (cs : List Condition) (kind : String)
    → condition_of kind (set_condition now cond cs) ≡ (
        if str_eq cond.kind kind
        then some (stamped now cond (condition_of cond.kind cs))
        else condition_of kind cs)
unfolding set_condition
condition_of-set_condition now cond [] kind = refl
condition_of-set_condition now cond (c ∷ cs) kind = elim (Bool-cases (str_eq c.kind cond.kind)) [
  | inl e ↦ elim (Bool-cases (str_eq cond.kind kind)) [
    | inl g ↦ simp (e, g) refl
    | inr g ↦
        let other : str_eq c.kind kind ≡ false =
          subst (λ k. str_eq k kind ≡ false) (sym ((eq_iff c.kind cond.kind).0 e)) g in
        simp (e, g, other) refl
  ]
  | inr e ↦ elim (Bool-cases (str_eq cond.kind kind)) [
    | inl g ↦
        let other : str_eq c.kind kind ≡ false =
          subst (λ k. str_eq c.kind k ≡ false) ((eq_iff cond.kind kind).0 g) e in
        simp (e, other) (condition_of-set_condition now cond cs kind ∙ simp g refl)
    | inr g ↦ elim (Bool-cases (str_eq c.kind kind)) [
      | inl n ↦ simp (e, g, n) refl
      | inr n ↦ simp (e, n) (condition_of-set_condition now cond cs kind ∙ simp g refl)
    ]
  ]
]

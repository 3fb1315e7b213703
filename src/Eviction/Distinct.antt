-- ===== src/Eviction/Distinct.antt =====
-- No pass evicts two pods of one namespace and name.
use kqos.Prelude.{
  mem_text, AllOf, AllOf-snoc, AllOf-map, ◌≡◌, inl, inr, refl, Bool, true, false, List, [], ◌∷◌,
  ◌++◌, String, str_eq, eq_iff, Bool-cases, not_both, arith,
}
use mathlib.Core.Path.{subst}
use kqos.Prelude.Int.{ℤ}
use kqos.Eviction.Manager.{ApiAnswer, Manager, Pass, key_of, track_breach, propose, consider, run}
use kqos.Eviction.Signals.{Signal, Verdict}
use kqos.Floats.{FloatApi}
use kqos.Kubernetes.{QuantityApi}
use kqos.Eviction.Rounds.{consider_cases, carry_out_keeps, run_cases}

-- A key that was seen is another than one that was not.
seen_apart :
    (k j : String) (seen : List String)
    → mem_text k seen ≡ true
    → mem_text j seen ≡ false
    → str_eq k j ≡ false
seen_apart k j seen h g = elim (Bool-cases (str_eq k j)) [
  | inr e ↦ e
  | inl e ↦
      let same : k ≡ j = (eq_iff k j).0 e in
      not_both (mem_text j seen) (subst (λ x. mem_text x seen ≡ true) same h) g
]

mem_text-cons :
    (k j : String) (seen : List String) → mem_text k seen ≡ true → mem_text k (j ∷ seen) ≡ true
mem_text-cons k j seen h = ground arith

mem_text-head : (k : String) (seen : List String) → mem_text k (k ∷ seen) ≡ true
mem_text-head k seen = rw ((eq_iff k k).1 refl) refl

module _ {Float Quantity : Type 0} ⦃f : FloatApi Float⦄ ⦃api : QuantityApi Quantity⦄ where
  -- The verdicts have different keys, each with those after it.
  abbrev pub Distinct : List (Verdict Float Quantity) → Type 0
  Distinct [] = Unit
  Distinct (v ∷ vs) = AllOf (λ w. str_eq (key_of v) (key_of w) ≡ false) vs × Distinct vs

  Distinct-snoc :
      (vs : List (Verdict Float Quantity)) (v : Verdict Float Quantity)
      → Distinct vs
      → AllOf (λ w. str_eq (key_of w) (key_of v) ≡ false) vs
      → Distinct (vs ++ v ∷ [])
  Distinct-snoc [] v d h = (tt, tt)
  Distinct-snoc (w ∷ vs) v d h = (
    AllOf-snoc (λ u. str_eq (key_of w) (key_of u) ≡ false) vs v d.0 h.0,
    Distinct-snoc vs v d.1 h.1,
  )

  abbrev AllSeen : List String → List (Verdict Float Quantity) → Type 0
  AllSeen seen = AllOf (λ w. mem_text (key_of w) seen ≡ true)

  -- The loop's invariant: the keys of the evicted pods differ, and all were seen.
  abbrev DistinctSeen : Pass Float Quantity → Type 0
  DistinctSeen s = Distinct s.result.evicted × AllSeen s.seen s.result.evicted

  consider-DistinctSeen :
      (answer : Verdict Float Quantity → ApiAnswer) (dry_run : Bool) (now : ℤ)
      (v : Verdict Float Quantity) (s : Pass Float Quantity)
      → DistinctSeen s
      → DistinctSeen (consider answer dry_run now v s).1
  consider-DistinctSeen answer dry_run now v s h =
      let more =
        AllOf-map _ _ s.result.evicted (λ w. mem_text-cons (key_of w) (key_of v) s.seen) h.1 in
      elim (consider_cases answer dry_run now v s) [
        | inl c ↦ elim c.1 [ inl same ↦ rw (c.0, same) h | inr noted ↦ rw (c.0, noted) (h.0, more) ]
        | inr g ↦
            rw (g.appended, g.noted)
              (
                Distinct-snoc s.result.evicted v h.0 (
                    AllOf-map _ _ s.result.evicted
                      (λ w k. seen_apart (key_of w) (key_of v) s.seen k g.fresh) h.1),
                AllOf-snoc (λ w. mem_text (key_of w) (key_of v ∷ s.seen) ≡ true) s.result.evicted v
                    more (mem_text-head (key_of v) s.seen),
              )
      ]

  -- A pass evicts no two pods of the same key, which is the namespace and the name.
  pub run-Distinct :
      (answer : Verdict Float Quantity → ApiAnswer) (m : Manager Float Quantity)
      (sig : Signal Float Quantity) (now : ℤ)
      → Distinct (run answer m sig now).0.evicted
  run-Distinct answer m sig now = elim (run_cases answer m sig now) [
    | inl e ↦ rw e tt
    | inr a ↦
        let kept =
          carry_out_keeps DistinctSeen answer sig.config now
            (propose (track_breach m sig now).plugins sig) (track_breach m sig now)
            (consider-DistinctSeen answer sig.config.dry_run now) (tt, tt) in
        rw (a.carried, kept.2) (kept.1.0)
  ]

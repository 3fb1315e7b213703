-- ===== src/SysAdvisor/Window/Sorted.antt =====
-- `sort.Float64s`: the entries are in order, and no others than before.
use kqos.Prelude.{
  ℕ, zero, suc, ◌-◌, ◌<◌, ◌≤◌, ◌≡◌, refl, true, false, Bool, if◌then◌else◌, Bool-cases, inl, inr,
  arith, List, [], ◌∷◌, length, get_or, AllOf, AllOf-map,
}
use kqos.Floats.{FloatApi}
use kqos.SysAdvisor.Window.{insert_float, sort_floats}
use kqos.SysAdvisor.Window.Largest.{less_irrefl}

module _ {Float : Type 0} ⦃f : FloatApi Float⦄ where
  -- No entry is less than one before it.
  abbrev pub IsSorted : List Float → Type 0
  IsSorted [] = Unit
  IsSorted (x ∷ xs) = AllOf (λ y. f.less y x ≡ false) xs × IsSorted xs

  insert_float-AllOf :
      (P : Float → Type 0) (v : Float) (xs : List Float)
      → P v
      → AllOf P xs
      → AllOf P (insert_float v xs)
  unfolding insert_float
  insert_float-AllOf P v [] p h = (p, tt)
  insert_float-AllOf P v (x ∷ xs) p h = elim (Bool-cases (f.less x v)) [
    | inl e ↦ rw e (h.0, insert_float-AllOf P v xs p h.1)
    | inr e ↦ rw e (p, h)
  ]

  length-insert_float : (v : Float) (xs : List Float) → length (insert_float v xs) ≡ suc (length xs)
  unfolding insert_float
  length-insert_float v [] = refl
  length-insert_float v (x ∷ xs) = elim (Bool-cases (f.less x v)) [
    | inl e ↦ simp (e, length-insert_float v xs) refl
    | inr e ↦ simp e refl
  ]

  insert_float-IsSorted : (v : Float) (xs : List Float) → IsSorted xs → IsSorted (insert_float v xs)
  unfolding insert_float
  insert_float-IsSorted v [] s = (tt, tt)
  insert_float-IsSorted v (x ∷ xs) s = elim (Bool-cases (f.less x v)) [
    | inl e ↦ rw e (
      insert_float-AllOf (λ y. f.less y x ≡ false) v xs (f.less_asym x v e) s.0,
      insert_float-IsSorted v xs s.1,
    )
    | inr e ↦ rw e (
      (
        e,
        AllOf-map (λ y. f.less y x ≡ false) (λ y. f.less y v ≡ false) xs
            (λ y h. f.not_less_trans y x v h e) s.0,
      ),
      s,
    )
  ]

  insert_cases :
      (P : Float → Type 0) (v x : Float) (xs : List Float) (b : Bool)
      → (AllOf P (insert_float v xs) → P v × AllOf P xs)
      → AllOf P (if b then x ∷ insert_float v xs else v ∷ x ∷ xs)
      → P v × AllOf P (x ∷ xs)
  insert_cases P v x xs true rest h = let both = rest h.1 in (both.0, (h.0, both.1))
  insert_cases P v x xs false rest h = h

  -- What holds of all entries of the one list holds of all of the other.
  insert_float-entries :
      (P : Float → Type 0) (v : Float) (xs : List Float)
      → AllOf P (insert_float v xs)
      → P v × AllOf P xs
  unfolding insert_float
  insert_float-entries P v [] h = h
  insert_float-entries P v (x ∷ xs) h =
      insert_cases P v x xs (f.less x v) (insert_float-entries P v xs) h

  pub sort_floats-IsSorted : (vs : List Float) → IsSorted (sort_floats vs)
  unfolding sort_floats
  sort_floats-IsSorted [] = tt
  sort_floats-IsSorted (v ∷ vs) = insert_float-IsSorted v (sort_floats vs) (sort_floats-IsSorted vs)

  pub length-sort_floats : (vs : List Float) → length (sort_floats vs) ≡ length vs
  unfolding sort_floats
  length-sort_floats [] = refl
  length-sort_floats (v ∷ vs) =
      rw (length-insert_float v (sort_floats vs), length-sort_floats vs) refl

  pub sort_floats-AllOf :
      (P : Float → Type 0) (vs : List Float) → AllOf P vs → AllOf P (sort_floats vs)
  unfolding sort_floats
  sort_floats-AllOf P [] h = tt
  sort_floats-AllOf P (v ∷ vs) h =
      insert_float-AllOf P v (sort_floats vs) h.0 (sort_floats-AllOf P vs h.1)

  pub sort_floats-entries :
      (P : Float → Type 0) (vs : List Float) → AllOf P (sort_floats vs) → AllOf P vs
  unfolding sort_floats
  sort_floats-entries P [] h = tt
  sort_floats-entries P (v ∷ vs) h =
      let both = insert_float-entries P v (sort_floats vs) h in
      (both.0, sort_floats-entries P vs both.1)

  pub get_or-AllOf :
      (P : Float → Type 0) (xs : List Float) (i : ℕ) (d : Float)
      → i < length xs
      → AllOf P xs
      → P (get_or xs i d)
  get_or-AllOf P [] i d k h = absurd (omega arith)
  get_or-AllOf P (x ∷ xs) zero d k h = h.0
  get_or-AllOf P (x ∷ xs) (suc i) d k h = get_or-AllOf P xs i d (omega arith) h.1

  -- An entry is no less than one that stands before it.
  pub get_or-sorted :
      (xs : List Float) (i j : ℕ) (d : Float)
      → IsSorted xs
      → i ≤ j
      → j < length xs
      → f.less (get_or xs j d) (get_or xs i d) ≡ false
  get_or-sorted [] i j d s o k = absurd (omega arith)
  get_or-sorted (x ∷ xs) zero zero d s o k = less_irrefl x
  get_or-sorted (x ∷ xs) zero (suc j) d s o k =
      get_or-AllOf (λ y. f.less y x ≡ false) xs j d (omega arith) s.0
  get_or-sorted (x ∷ xs) (suc i) zero d s o k = absurd (omega arith)
  get_or-sorted (x ∷ xs) (suc i) (suc j) d s o k =
      get_or-sorted xs i j d s.1 (omega arith) (omega arith)

  every_entry :
      (P : Float → Type 0) (xs : List Float) (d : Float)
      → ((i : ℕ) → i < length xs → P (get_or xs i d))
      → AllOf P xs
  every_entry P [] d h = tt
  every_entry P (x ∷ xs) d h =
      (h 0 (omega arith), every_entry P xs d (λ i k. h (suc i) (omega (arith, k))))

  -- The last entry is the largest.
  pub last_above :
      (xs : List Float) (d : Float)
      → IsSorted xs
      → AllOf (λ x. f.less (get_or xs (length xs - 1) d) x ≡ false) xs
  last_above xs d s =
      every_entry (λ x. f.less (get_or xs (length xs - 1) d) x ≡ false) xs d
        (λ i k. get_or-sorted xs i (length xs - 1) d s (omega (arith, k)) (omega (arith, k)))

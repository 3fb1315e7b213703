-- ===== src/Kubernetes/Maps.antt =====
-- Reading a map after a write.
use kqos.Prelude.{
  AllOf, not_both, ◌≡◌, refl, true, false, List, [], ◌∷◌, none, some, String, str_eq, eq_iff,
  if◌then◌else◌, Bool-cases, inl, inr, sym, ap, ◌∙◌,
}
use mathlib.Core.Path.{subst}
use kqos.Kubernetes.{lookup, put_key, delete_key}

pub str_eq_self : (k : String) → str_eq k k ≡ true
str_eq_self k = (eq_iff k k).1 refl

-- A key equal to one that differs from another differs from it too.
pub str_eq_differs : (j k l : String) → str_eq j k ≡ true → str_eq j l ≡ false → str_eq k l ≡ false
str_eq_differs j k l h g = subst (λ x. str_eq x l ≡ false) ((eq_iff j k).0 h) g

pub str_eq_follows : (j k l : String) → str_eq j k ≡ false → str_eq k l ≡ true → str_eq j l ≡ false
str_eq_follows j k l h g = subst (λ x. str_eq j x ≡ false) ((eq_iff k l).0 g) h

str_eq_flip : (j k : String) → str_eq j k ≡ false → str_eq k j ≡ false
str_eq_flip j k h = elim (Bool-cases (str_eq k j)) [
  | inr e ↦ e
  | inl e ↦
      not_both (str_eq j k)
        (subst (λ x. str_eq j x ≡ true) (sym ((eq_iff k j).0 e)) (str_eq_self j)) h
]

never_some : {A : Type 0} {a : A} → none ≡ some a → ⊥
never_some h = cc

some_eq : {A : Type 0} {a b : A} → some a ≡ some b → a ≡ b
some_eq h = cc

abbrev entry : {V : Type 0} → String → V → List (String × V) → List (String × V)
entry k v m = (k, v) ∷ m

entry_eq :
    {V : Type 0} {j k : String} {v w : V} (m : List (String × V))
    → j ≡ k
    → w ≡ v
    → entry k v m ≡ entry j w m
entry_eq m h g = rw (h, g) refl

module _ {V : Type 0} where
  pub lookup-put_key :
      (j k : String) (v : V) (m : List (String × V))
      → lookup j (put_key k v m) ≡ (if str_eq k j then some v else lookup j m)
  unfolding put_key
  lookup-put_key j k v [] = refl
  lookup-put_key j k v ((i, w) ∷ m) = elim (Bool-cases (str_eq i k)) [
    | inl e ↦ elim (Bool-cases (str_eq k j)) [
      | inl g ↦ rw (e, g) refl
      | inr g ↦
          let n : str_eq i j ≡ false = subst (λ x. str_eq x j ≡ false) (sym ((eq_iff i k).0 e)) g in
          rw (e, g, n) refl
    ]
    | inr e ↦ elim (Bool-cases (str_eq k j)) [
      | inl g ↦ rw (e, str_eq_follows i k j e g) (lookup-put_key j k v m)
      | inr g ↦ elim (Bool-cases (str_eq i j)) [
        | inl n ↦ rw (e, g, n) refl
        | inr n ↦ rw (e, n) (lookup-put_key j k v m)
      ]
    ]
  ]

  pub lookup-delete_key :
      (j k : String) (m : List (String × V))
      → lookup j (delete_key k m) ≡ (if str_eq k j then none else lookup j m)
  unfolding delete_key
  lookup-delete_key j k [] = elim (Bool-cases (str_eq k j)) [
    | inl g ↦ rw g refl
    | inr g ↦ rw g refl
  ]
  lookup-delete_key j k ((i, w) ∷ m) = elim (Bool-cases (str_eq i k)) [
    | inl e ↦ elim (Bool-cases (str_eq k j)) [
      | inl g ↦ rw (e, g) (lookup-delete_key j k m ∙ rw g refl)
      | inr g ↦
          let n : str_eq i j ≡ false = subst (λ x. str_eq x j ≡ false) (sym ((eq_iff i k).0 e)) g in
          rw (e, n, g) (lookup-delete_key j k m ∙ rw g refl)
    ]
    | inr e ↦ elim (Bool-cases (str_eq k j)) [
      | inl g ↦ rw (e, str_eq_follows i k j e g) (lookup-delete_key j k m)
      | inr g ↦ elim (Bool-cases (str_eq i j)) [
        | inl n ↦ rw (e, g, n) refl
        | inr n ↦ rw (e, n) (lookup-delete_key j k m)
      ]
    ]
  ]

  -- Writing what stands there changes nothing.
  pub put_key_there :
      (k : String) (v : V) (m : List (String × V)) → lookup k m ≡ some v → put_key k v m ≡ m
  unfolding put_key
  put_key_there k v [] h = absurd (never_some h)
  put_key_there k v ((j, w) ∷ m) h = elim (Bool-cases (str_eq j k)) [
    | inl e ↦
        let same : some w ≡ some v = sym (rw e refl) ∙ h in
        let here : put_key k v ((j, w) ∷ m) ≡ (k, v) ∷ m = rw e refl in
        here ∙ entry_eq m ((eq_iff j k).0 e) (some_eq same)
    | inr e ↦ rw e (ap (λ x. (j, w) ∷ x) (put_key_there k v m (sym (rw e refl) ∙ h)))
  ]

  -- A map holds no key twice.
  abbrev pub IsMap : List (String × V) → Type 0
  IsMap [] = Unit
  IsMap ((k, v) ∷ m) = (lookup k m ≡ none) × IsMap m

  pub put_key-IsMap : (k : String) (v : V) (m : List (String × V)) → IsMap m → IsMap (put_key k v m)
  unfolding put_key
  put_key-IsMap k v [] h = (refl, tt)
  put_key-IsMap k v ((j, w) ∷ m) h = elim (Bool-cases (str_eq j k)) [
    | inl e ↦ rw e (subst (λ x. lookup x m ≡ none) ((eq_iff j k).0 e) h.0, h.1)
    | inr e ↦ rw e (lookup-put_key j k v m ∙ rw (str_eq_flip j k e) h.0, put_key-IsMap k v m h.1)
  ]

  pub put_key-AllOf :
      (P : String × V → Type 0) (k : String) (v : V) (m : List (String × V))
      → AllOf P m
      → P (k, v)
      → AllOf P (put_key k v m)
  unfolding put_key
  put_key-AllOf P k v [] h p = (p, tt)
  put_key-AllOf P k v ((j, w) ∷ m) h p = elim (Bool-cases (str_eq j k)) [
    | inl e ↦ rw e (p, h.1)
    | inr e ↦ rw e (h.0, put_key-AllOf P k v m h.1 p)
  ]

  pub lookup-AllOf :
      (P : String × V → Type 0) (k : String) (v : V) (m : List (String × V))
      → AllOf P m
      → lookup k m ≡ some v
      → P (k, v)
  lookup-AllOf P k v [] h e = absurd (never_some e)
  lookup-AllOf P k v ((j, w) ∷ m) h e = elim (Bool-cases (str_eq j k)) [
    | inl g ↦
        let same : w ≡ v = some_eq (sym (rw g refl) ∙ e) in
        subst (λ x. P (k, x)) same (subst (λ x. P (x, w)) ((eq_iff j k).0 g) h.0)
    | inr g ↦ lookup-AllOf P k v m h.1 (sym (rw g refl) ∙ e)
  ]

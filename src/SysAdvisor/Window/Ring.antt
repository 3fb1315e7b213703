-- ===== src/SysAdvisor/Window/Ring.antt =====
-- One array of the ring against the sequence of all that was pushed.
use kqos.Prelude.{
  ℕ, zero, suc, ◌+◌, ◌-◌, ◌%◌, ◌≤◌, ◌<◌, ◌≡◌, ◌∙◌, inl, inr, refl, ap, Bool, true, false, List, [],
  ◌∷◌, ◌++◌, arith, length, get_or, set, length-append, length-set, ltb, ◌==◌, if◌then◌else◌,
  Bool-cases, ltb→lt,
}
use Prim.Native.Nat.{min}
use native.Mathlib.Nat.{mod-eq_of_lt, mod-eq-sub-mod}

-- The remainder of a number below twice the divisor.
pub mod-below_twice : (a cap : ℕ) → a < cap + cap → a % cap ≡ (if ltb a cap then a else a - cap)
mod-below_twice a cap h = elim (Bool-cases (ltb a cap)) [
  | inl e ↦ rw e (mod-eq_of_lt (ltb→lt a cap e))
  | inr e ↦ rw e (mod-eq-sub-mod {n = a} {m = cap} (ground arith) ∙ mod-eq_of_lt (ground arith))
]

get_or-set :
    {A : Type 0} (xs : List A) (i j : ℕ) (v d : A)
    → i < length xs
    → get_or (set xs i v) j d ≡ (if i == j then v else get_or xs j d)
get_or-set [] i j v d h = elim h [ ]
get_or-set (x ∷ xs) zero zero v d h = refl
get_or-set (x ∷ xs) zero (suc j) v d h = ground arith
get_or-set (x ∷ xs) (suc i) zero v d h = ground arith
get_or-set (x ∷ xs) (suc i) (suc j) v d h = ground (arith, get_or-set xs i j v d)

get_or-snoc :
    {A : Type 0} (xs : List A) (j : ℕ) (v d : A)
    → get_or (xs ++ v ∷ []) j d ≡ (if j == length xs then v else get_or xs j d)
get_or-snoc [] zero v d = refl
get_or-snoc [] (suc j) v d = ground arith
get_or-snoc (x ∷ xs) zero v d = ground arith
get_or-snoc (x ∷ xs) (suc j) v d = ground (arith, get_or-snoc xs j v d)

-- How many entries are held, and where the entry number `i` stands.
abbrev pub held : ℕ → Bool → ℕ → ℕ
held cap filled next = if filled then cap else next

abbrev pub place : ℕ → Bool → ℕ → ℕ → ℕ
place cap filled next i = if filled then (next + i) % cap else i

-- The array holds the last entries of the history, as many as it has room for.
pub record Holds {A : Type 0} (d : A) (cap : ℕ) (filled : Bool) (next : ℕ) (xs hist : List A)
    : Type 0 where
  pub size : length xs ≡ cap
  pub next_lt : next < cap
  pub count : held cap filled next ≡ min (length hist) cap
  pub entries :
      (i : ℕ)
      → i < held cap filled next
      → get_or xs (place cap filled next i) d
        ≡ get_or hist (length hist - held cap filled next + i) d

abbrev pub wrapped : ℕ → ℕ → ℕ
wrapped next cap = (next + 1) % cap

module _ {A : Type 0} (d : A) (cap next : ℕ) (xs hist : List A) (v : A) where
  full_entries :
      Holds d cap true next xs hist
      → (i : ℕ) → i < cap
      → get_or (set xs next v) ((wrapped next cap + i) % cap) d
        ≡ get_or (hist ++ v ∷ []) (length (hist ++ v ∷ []) - cap + i) d
  full_entries h i lt =
      let wraps = mod-below_twice (next + 1) cap (omega (arith, h.next_lt)) in
      let at : (wrapped next cap + i) % cap ≡ (next + (i + 1)) % cap = ground (
        arith,
        h.next_lt,
        wraps,
        mod-below_twice (wrapped next cap + i) cap,
        mod-below_twice (next + (i + 1)) cap,
      ) in
      rw at (
        ground (
          arith,
          h.next_lt,
          h.size,
          h.count,
          mod-below_twice (next + (i + 1)) cap,
          get_or-set xs next ((next + (i + 1)) % cap) v d,
          length-append hist (v ∷ []),
          get_or-snoc hist (length hist + 1 - cap + i) v d,
          h.entries (i + 1),
        ))

  short_entries :
      Holds d cap false next xs hist
      → (i : ℕ) → i ≤ next
      → get_or (set xs next v) i d ≡ get_or (hist ++ v ∷ []) i d
  short_entries h i le = ground (
    arith,
    h.next_lt,
    h.size,
    h.count,
    get_or-set xs next i v d,
    get_or-snoc hist i v d,
    h.entries i,
  )

  abbrev fills : Bool → Bool
  fills filled = if wrapped next cap == 0 then true else filled

  push_full :
      Holds d cap true next xs hist
      → Holds d cap true (wrapped next cap) (set xs next v) (hist ++ v ∷ [])
  push_full h = record {
    size = length-set xs next v ∙ h.size;
    next_lt = ground (arith, h.next_lt, mod-below_twice (next + 1) cap);
    count = omega (arith, h.count, length-append hist (v ∷ []));
    entries = full_entries h;
  }

  push_short :
      Holds d cap false next xs hist
      → next + 1 < cap
      → Holds d cap false (next + 1) (set xs next v) (hist ++ v ∷ [])
  push_short h lt = record {
    size = length-set xs next v ∙ h.size;
    next_lt = lt;
    count = omega (arith, h.count, length-append hist (v ∷ []));
    entries = λ i k.
        short_entries h i (omega arith)
        ∙ ap (λ (j : ℕ). get_or (hist ++ v ∷ []) j d)
            (omega (arith, h.count, h.next_lt, length-append hist (v ∷ [])));
  }

  push_last :
      Holds d cap false next xs hist
      → next + 1 ≡ cap
      → Holds d cap true 0 (set xs next v) (hist ++ v ∷ [])
  push_last h e = record {
    size = length-set xs next v ∙ h.size;
    next_lt = omega arith;
    count = omega (arith, h.count, length-append hist (v ∷ []));
    entries = λ i k.
        let at : (0 + i) % cap ≡ i = ground (arith, mod-below_twice (0 + i) cap) in
        rw at (
          short_entries h i (omega arith)
          ∙ ap (λ (j : ℕ). get_or (hist ++ v ∷ []) j d)
              (omega (arith, h.count, h.next_lt, length-append hist (v ∷ []))));
  }

  -- A write at `next` keeps the last entries of the history.
  pub push-Holds :
      (filled : Bool)
      → Holds d cap filled next xs hist
      → Holds d cap (fills filled) (wrapped next cap) (set xs next v) (hist ++ v ∷ [])
  push-Holds true h = rw (always (wrapped next cap == 0)) (push_full h)
    where
      always : (b : Bool) → (if b then true else true) ≡ true
      always true = refl
      always false = refl
  push-Holds false h = elim (Bool-cases (ltb (next + 1) cap)) [
    | inl e ↦
        let n : wrapped next cap ≡ next + 1 = mod-eq_of_lt (ltb→lt (next + 1) cap e) in
        let z : (next + 1 == 0) ≡ false = ground arith in
        rw (n, z) (push_short h (ltb→lt (next + 1) cap e))
    | inr e ↦
        let n : wrapped next cap ≡ 0 = ground (arith, h.next_lt, mod-below_twice (next + 1) cap) in
        rw n (push_last h (ground (arith, h.next_lt)))
  ]

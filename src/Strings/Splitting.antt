-- ===== src/Strings/Splitting.antt =====
-- Splitting what was joined, and trimming what has no white space.
use kqos.Prelude.{ℕ, ◌≡◌, refl, sym, true, not, List, [], ◌∷◌, ◌++◌, none, some, arith, ◌==◌, all}
use mathlib.Core.List.{append_assoc}
use kqos.Strings.{Text, is_space, trim_left, trim_right, trim_space, split, cut}

abbrev pub NoSpace : Text → Type 0
NoSpace s = all (λ c. not (is_space c)) s ≡ true

abbrev pub Lacks : ℕ → Text → Type 0
Lacks sep s = all (λ c. not (c == sep)) s ≡ true

trim_right_id : (s : Text) → NoSpace s → trim_right s ≡ s
unfolding trim_right
trim_right_id [] h = refl
trim_right_id (c ∷ cs) h = ground (arith, trim_right_id cs)

trim_left_id : (s : Text) → NoSpace s → trim_left s ≡ s
unfolding trim_left
trim_left_id [] h = refl
trim_left_id (c ∷ cs) h = ground arith

pub trim_space_id : (s : Text) → NoSpace s → trim_space s ≡ s
unfolding trim_space
trim_space_id s h = rw (trim_left_id s h) (trim_right_id s h)

split_one : (sep : ℕ) (s : Text) → Lacks sep s → split sep s ≡ s ∷ []
unfolding split
split_one sep [] h = refl
split_one sep (c ∷ cs) h = ground (arith, split_one sep cs)

split_first : (sep : ℕ) (s t : Text) → Lacks sep s → split sep (s ++ sep ∷ t) ≡ s ∷ split sep t
unfolding split
split_first sep [] t h = ground arith
split_first sep (c ∷ cs) t h = ground (arith, split_first sep cs t)

-- The parts with a separator between each two, `strings.Join`.
abbrev pub join : ℕ → List Text → Text
join sep [] = []
join sep (p ∷ []) = p
join sep (p ∷ q ∷ ps) = p ++ sep ∷ join sep (q ∷ ps)

abbrev pub EachLacks : ℕ → List Text → Type 0
EachLacks sep [] = Unit {0}
EachLacks sep (p ∷ ps) = Lacks sep p × EachLacks sep ps

pub split-join :
    (sep : ℕ) (p : Text) (ps : List Text)
    → EachLacks sep (p ∷ ps)
    → split sep (join sep (p ∷ ps)) ≡ p ∷ ps
split-join sep p [] h = split_one sep p h.0
split-join sep p (q ∷ ps) h =
    rw (split_first sep p (join sep (q ∷ ps)) h.0, split-join sep q ps h.1)

pub cut_found : (sep : ℕ) (s t : Text) → Lacks sep s → cut sep (s ++ sep ∷ t) ≡ (s, some t)
unfolding cut
cut_found sep [] t h = ground arith
cut_found sep (c ∷ cs) t h = ground (arith, cut_found sep cs t)

pub cut_missing : (sep : ℕ) (s : Text) → Lacks sep s → cut sep s ≡ (s, none)
unfolding cut
cut_missing sep [] h = refl
cut_missing sep (c ∷ cs) h = ground (arith, cut_missing sep cs)

-- The text of two lists of parts, neither of them empty.
pub join-append :
    (sep : ℕ) (p : Text) (ps : List Text) (q : Text) (qs : List Text)
    → join sep ((p ∷ ps) ++ q ∷ qs) ≡ join sep (p ∷ ps) ++ sep ∷ join sep (q ∷ qs)
join-append sep p [] q qs = refl
join-append sep p (r ∷ ps) q qs =
    rw (join-append sep r ps q qs)
      (sym (append_assoc p (sep ∷ join sep (r ∷ ps)) (sep ∷ join sep (q ∷ qs))))

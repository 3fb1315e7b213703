-- ===== src/Overcommit/Sync.antt =====
-- What a node advertises after a pass of the controller.
use kqos.Prelude.{
  ℕ, ◌+◌, ◌*◌, ◌≤◌, ◌≡◌, refl, sym, ap, Bool, true, false, ◌||◌, Bool-cases, inl, inr, arith,
}
use mathlib.Core.Path.{subst}
use kqos.Prelude.Int.{
  ℤ, pos, negsuc, pos_part, neg_part, eqb_ℤ, int64, int64_fits, Fits64, -ℤ_size, ◌-ℤ◌, ◌*ℤ◌, ◌/ℤ◌,
  ◌<ℤ◌,
}
use kqos.Api.{resource_reclaimed_cpu, resource_reclaimed_memory}
use kqos.Kubernetes.{QuantityApi, put_key}
use kqos.Kubernetes.Maps.{lookup-put_key}
use kqos.Overcommit.{Reconciler, Node, abs, matters, significant, extended_value, patch, sync, mebi}

-- An amount from 0 to `most`.
abbrev pub IsUpTo : ℕ → ℤ → Type 0
IsUpTo most a = (neg_part a ≡ 0) × (pos_part a ≤ most)

-- 2^62, 2^61, and 2^61 in mebibytes
abbrev pub most_milli : ℕ
most_milli = 4_611_686_018_427_387_904

abbrev pub most_bytes : ℕ
most_bytes = 2_305_843_009_213_693_952

abbrev pub most_mib : ℕ
most_mib = 2_199_023_255_552

-- |a - b|
abbrev pub gap : ℤ → ℤ → ℕ
gap a b = pos_part (a -ℤ b) + neg_part (a -ℤ b)

-- What is advertised is 0 just if what is wanted is, and is less than `least` away, in units of
-- which `unit` make one of the amounts'.
pub record IsClose (unit : ℕ) (least wanted advertised : ℤ) : Type 0 where
  pub withdrawn : eqb_ℤ wanted (pos 0) ≡ eqb_ℤ advertised (pos 0)
  pub near : pos (gap wanted advertised * unit) <ℤ least

matters_not :
    (w c d l : ℤ) → matters w c d l ≡ false → (eqb_ℤ w (pos 0) ≡ eqb_ℤ c (pos 0)) × (d <ℤ l)
matters_not w c d l h = ground arith

abs_value :
    (d : ℤ)
    → pos_part d ≤ most_milli
    → neg_part d ≤ most_milli
    → abs d ≡ pos (pos_part d + neg_part d)
unfolding abs int64 ◌-ℤ◌
abs_value (pos n) h g = ground arith
abs_value (negsuc n) h g = ground arith

-- The distance of two amounts, without an overflow.
distance :
    (a b : ℤ) → IsUpTo most_milli a → IsUpTo most_milli b → abs (int64 (a -ℤ b)) ≡ pos (gap a b)
distance a b h g =
    let size = -ℤ_size a b in
    let fits : Fits64 (a -ℤ b) =
      (omega (arith, size.0, h.1, g.0), omega (arith, size.1, h.0, g.1)) in
    rw (int64_fits (a -ℤ b) fits)
      (abs_value (a -ℤ b) (omega (arith, size.0, h.1, g.0)) (omega (arith, size.1, h.0, g.1)))

gap_bound : (a b : ℤ) (n : ℕ) → IsUpTo n a → IsUpTo n b → gap a b ≤ n + n
gap_bound a b n h g = let size = -ℤ_size a b in omega (arith, size.0, size.1, h.0, h.1, g.0, g.1)

pub gap_self : (a : ℤ) → gap a a ≡ 0
unfolding ◌-ℤ◌
gap_self a = ground arith

gap_eq : (a b : ℤ) → a ≡ b → gap a b ≡ 0
gap_eq a b h = rw h (gap_self b)

scaled :
    (n : ℕ)
    → n ≤ most_mib + most_mib
    → int64 (int64 (pos n *ℤ pos 1024) *ℤ pos 1024) ≡ pos (n * 1_048_576)
unfolding int64 ◌*ℤ◌
scaled n h = ground arith

IsUpTo-more : (m n : ℕ) (a : ℤ) → m ≤ n → IsUpTo m a → IsUpTo n a
IsUpTo-more m n a h g = (g.0, omega (arith, h, g.1))

no_times : (n : ℕ) → 0 * n ≡ 0
no_times n = omega arith

-- Equal amounts are close.
IsClose-refl : (unit : ℕ) (least a b : ℤ) → pos 0 <ℤ least → b ≡ a → IsClose unit least a b
IsClose-refl unit least a b h e = record {
  withdrawn = ap (λ x. eqb_ℤ x (pos 0)) (sym e);
  near = rw (gap_eq a b (sym e)) (rw (no_times unit) h);
}

-- What is not significant is close, in milli-cores and in mebibytes.
IsClose-milli :
    (r : Reconciler) (w c : ℤ)
    → IsUpTo most_milli w
    → IsUpTo most_milli c
    → matters w c (abs (int64 (w -ℤ c))) r.min_change_milli ≡ false
    → IsClose 1 r.min_change_milli w c
IsClose-milli r w c h g m =
    let small = matters_not w c (abs (int64 (w -ℤ c))) r.min_change_milli m in
    let less : pos (gap w c) <ℤ r.min_change_milli =
      subst (λ d. d <ℤ r.min_change_milli) (distance w c h g) small.1 in
    record { withdrawn = small.0; near = omega (arith, less) }

IsClose-mib :
    (r : Reconciler) (w c : ℤ)
    → IsUpTo most_mib w
    → IsUpTo most_mib c
    → matters w c (int64 (int64 (abs (int64 (w -ℤ c)) *ℤ pos 1024) *ℤ pos 1024)) r.min_change_bytes
      ≡ false
    → IsClose 1_048_576 r.min_change_bytes w c
IsClose-mib r w c h g m =
    let small = matters_not w c _ r.min_change_bytes m in
    let size : int64 (int64 (abs (int64 (w -ℤ c)) *ℤ pos 1024) *ℤ pos 1024)
        ≡ pos (gap w c * 1_048_576) =
      rw
        (distance w c (IsUpTo-more most_mib most_milli w (omega arith) h)
          (IsUpTo-more most_mib most_milli c (omega arith) g))
        (scaled (gap w c) (gap_bound w c most_mib h g)) in
    record { withdrawn = small.0; near = subst (λ d. d <ℤ r.min_change_bytes) size small.1 }

pub or_false : (a b : Bool) → (a || b) ≡ false → (a ≡ false) × (b ≡ false)
or_false a b h = ground arith

mib_IsUpTo : (bytes : ℤ) → IsUpTo most_bytes bytes → IsUpTo most_mib (bytes /ℤ mebi)
unfolding ◌/ℤ◌
mib_IsUpTo (pos n) h = (refl, ground arith)
mib_IsUpTo (negsuc n) h = absurd (ground arith)

module _ {Quantity : Type 0} ⦃api : QuantityApi Quantity⦄ where
  open api use {value, new_quantity, value-new}

  -- A patch is read back, and touches no other resource.
  pub extended_value-patch :
      (cpu mem : ℤ) (node : Node Quantity)
      → (extended_value (patch cpu mem node) resource_reclaimed_cpu ≡ cpu)
        × (extended_value (patch cpu mem node) resource_reclaimed_memory ≡ mem)
  unfolding patch extended_value
  extended_value-patch cpu mem node =
      let first = put_key resource_reclaimed_cpu (new_quantity cpu) node.allocatable in
      (
        simp
            (
              lookup-put_key resource_reclaimed_cpu resource_reclaimed_memory (new_quantity mem)
                  first,
              lookup-put_key resource_reclaimed_cpu resource_reclaimed_cpu (new_quantity cpu)
                  node.allocatable,
            )
            (value-new cpu),
        simp
            (lookup-put_key resource_reclaimed_memory resource_reclaimed_memory (new_quantity mem)
              first)
            (value-new mem),
      )

  -- What a node offers is close to what was wanted: in milli-cores, and in whole MiB.
  pub record IsSynced (r : Reconciler) (cpu_milli mem_bytes : ℤ) (node : Node Quantity)
      : Type 0 where
    pub cpu : IsClose 1 r.min_change_milli cpu_milli (extended_value node resource_reclaimed_cpu)
    pub memory :
        IsClose 1_048_576 r.min_change_bytes
          (mem_bytes /ℤ mebi)
          (extended_value node resource_reclaimed_memory)

  -- The node's own amounts are within bounds in which nothing overflows.
  pub record IsSane (node : Node Quantity) : Type 0 where
    pub cpu : IsUpTo most_milli (extended_value node resource_reclaimed_cpu)
    pub memory : IsUpTo most_mib (extended_value node resource_reclaimed_memory)

  -- For positive thresholds and amounts up to 2^62 milli-cores and 2^61 bytes, a sync whose patch is
  -- taken leaves the node with an offer of CPU that is 0 just where no CPU is wanted and is less than
  -- the threshold away from what is wanted; and with an offer of memory, in MiB, of which the same
  -- holds against the wish cut off to whole MiB, so that a wish below one MiB counts as none.
  pub sync-IsSynced :
      (r : Reconciler) (cpu_milli mem_bytes : ℤ) (node : Node Quantity)
      → pos 0 <ℤ r.min_change_milli
      → pos 0 <ℤ r.min_change_bytes
      → IsUpTo most_milli cpu_milli
      → IsUpTo most_bytes mem_bytes
      → IsSane node
      → IsSynced r cpu_milli mem_bytes (sync r true cpu_milli mem_bytes node).1
  unfolding sync significant
  sync-IsSynced r cpu_milli mem_bytes node some_milli some_bytes cpu mem sane =
      let cur_cpu = extended_value node resource_reclaimed_cpu in
      let cur_mem = extended_value node resource_reclaimed_memory in
      let mib = mem_bytes /ℤ mebi in
      let read = extended_value-patch cpu_milli mib node in
      elim (Bool-cases (significant r cpu_milli mib cur_cpu cur_mem)) [
        | inl e ↦ simp e (record {
          cpu = IsClose-refl 1 r.min_change_milli cpu_milli _ some_milli read.0;
          memory = IsClose-refl 1_048_576 r.min_change_bytes mib _ some_bytes read.1;
        })
        | inr e ↦
            let small = or_false _ _ e in
            simp e (record {
              cpu = IsClose-milli r cpu_milli cur_cpu cpu sane.cpu small.0;
              memory = IsClose-mib r mib cur_mem (mib_IsUpTo mem_bytes mem) sane.memory small.1;
            })
      ]

-- ===== src/Overcommit/Withdrawal.antt =====
-- A node whose profile is stale loses its offer, and a pass that follows another changes nothing.
use kqos.Prelude.{◌≡◌, ◌∙◌, refl, Bool, true, false, String, Bool-cases, inl, inr, arith}
use kqos.Prelude.Int.{ℤ, pos, int64, ◌-ℤ◌, ◌*ℤ◌, ◌/ℤ◌, ◌<ℤ◌}
use kqos.Api.{resource_reclaimed_cpu, resource_reclaimed_memory}
use kqos.Kubernetes.{QuantityApi}
use kqos.Overcommit.{
  Reconciler, Node, Fetched, found, not_found, failed, unchanged, abs, matters, significant, stale,
  extended_value, sync, mebi, reconcile, reconcile_node,
}
use kqos.Overcommit.Sync.{extended_value-patch, or_false}
use kqos.Profile.{NodeResourceProfile}

-- What is 0 already, where a wish for 0 does not matter.
zero_already : (w c d l : ℤ) → w ≡ pos 0 → matters w c d l ≡ false → c ≡ pos 0
zero_already w c d l e h = ground arith

no_mebi : pos 0 /ℤ mebi ≡ pos 0
unfolding ◌/ℤ◌
no_mebi = refl

no_gap : (a : ℤ) → abs (int64 (a -ℤ a)) ≡ pos 0
unfolding abs int64 ◌-ℤ◌
no_gap a = ground arith

no_bytes : int64 (int64 (pos 0 *ℤ pos 1024) *ℤ pos 1024) ≡ pos 0
unfolding int64 ◌*ℤ◌
no_bytes = refl

same_idle : (a l : ℤ) → pos 0 <ℤ l → matters a a (pos 0) l ≡ false
same_idle a l h = ground arith

-- What is advertised already is never patched again.
significant_same :
    (r : Reconciler) (cpu mem : ℤ)
    → pos 0 <ℤ r.min_change_milli
    → pos 0 <ℤ r.min_change_bytes
    → significant r cpu mem cpu mem ≡ false
unfolding significant
significant_same r cpu mem h g =
    rw
      (
        no_gap cpu,
        no_gap mem,
        no_bytes,
        same_idle cpu r.min_change_milli h,
        same_idle mem r.min_change_bytes g,
      )
      refl

module _ {Quantity : Type 0} ⦃api : QuantityApi Quantity⦄ where
  -- The node that a pass found and left offers nothing.
  abbrev pub OffersNothing : Fetched (Node Quantity) → Type 0
  OffersNothing (found node) =
      (extended_value node resource_reclaimed_cpu ≡ pos 0)
      × (extended_value node resource_reclaimed_memory ≡ pos 0)
  OffersNothing not_found = ⊥
  OffersNothing failed = ⊥

  sync_nothing :
      (r : Reconciler) (node : Node Quantity)
      → OffersNothing (found (sync r true (pos 0) (pos 0) node).1)
  unfolding sync significant
  sync_nothing r node =
      let cur_cpu = extended_value node resource_reclaimed_cpu in
      let cur_mem = extended_value node resource_reclaimed_memory in
      let mib = pos 0 /ℤ mebi in
      let read = extended_value-patch (pos 0) mib node in
      elim (Bool-cases (significant r (pos 0) mib cur_cpu cur_mem)) [
        | inl e ↦ simp e (read.0, read.1 ∙ no_mebi)
        | inr e ↦
            let idle = or_false _ _ e in
            simp e (
              zero_already (pos 0) cur_cpu (abs (int64 (pos 0 -ℤ cur_cpu))) r.min_change_milli refl
                  idle.0,
              zero_already mib cur_mem
                  (int64 (int64 (abs (int64 (mib -ℤ cur_mem)) *ℤ pos 1024) *ℤ pos 1024))
                  r.min_change_bytes no_mebi idle.1,
            )
      ]

  -- If the profile of a node was not refreshed for more than 90 seconds, or never, a pass whose patch
  -- the API server takes leaves the node without an offer, however small the change.
  pub reconcile-OffersNothing :
      (r : Reconciler) (nodes : String → Fetched (Node Quantity)) (now : ℤ)
      (profile : NodeResourceProfile Quantity) (node : Node Quantity)
      → stale profile.status.last_report_time now ≡ true
      → nodes profile.node_name ≡ found node
      → OffersNothing (reconcile r true nodes now (found profile)).1
  unfolding reconcile reconcile_node
  reconcile-OffersNothing r nodes now profile node s e = simp (e, s) (sync_nothing r node)

  -- The second of two passes with the same wish writes nothing.
  pub sync_twice :
      (r : Reconciler) (cpu_milli mem_bytes : ℤ) (node : Node Quantity)
      → pos 0 <ℤ r.min_change_milli
      → pos 0 <ℤ r.min_change_bytes
      → (takes : Bool)
      → sync r takes cpu_milli mem_bytes (sync r true cpu_milli mem_bytes node).1
        ≡ (unchanged, (sync r true cpu_milli mem_bytes node).1)
  unfolding sync
  sync_twice r cpu_milli mem_bytes node some_milli some_bytes takes =
      let mib = mem_bytes /ℤ mebi in
      let read = extended_value-patch cpu_milli mib node in
      elim (Bool-cases (
        significant r cpu_milli mib (extended_value node resource_reclaimed_cpu)
          (extended_value node resource_reclaimed_memory))) [
            | inl e ↦
                simp (e, read.0, read.1, significant_same r cpu_milli mib some_milli some_bytes)
                  refl
            | inr e ↦ simp e refl
          ]

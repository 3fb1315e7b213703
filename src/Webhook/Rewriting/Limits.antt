-- ===== src/Webhook/Rewriting/Limits.antt =====
-- Rewriting keeps what validation demands of the limits.
use kqos.Prelude.{
  ◌≡◌, ◌∙◌, refl, ap, false, List, [], ◌∷◌, Option, none, some, String, Bool-cases, Option-cases,
  inl, inr,
}
use kqos.Api.{resource_reclaimed_cpu, resource_reclaimed_memory}
use kqos.Kubernetes.{QuantityApi, Container, lookup, delete_key, resource_cpu, resource_memory}
use kqos.Kubernetes.Maps.{lookup-put_key, lookup-delete_key}
use kqos.Webhook.Rewriting.{
  mebibytes, set_extended, with_ceiling, rewrite_cpu, rewrite_memory, rewrite_container,
  rewrite_all,
}
use kqos.Webhook.Validation.{first_error-none, first_error_both, check_limit, check_reclaimed}

module _ {Quantity : Type 0} ⦃api : QuantityApi Quantity⦄ where
  rewrite_cpu_limits :
      (o : Option Quantity) (c : Container Quantity)
      → lookup resource_memory (rewrite_cpu o c).limits ≡ lookup resource_memory c.limits
  unfolding rewrite_cpu set_extended
  rewrite_cpu_limits none c = refl
  rewrite_cpu_limits (some q) c = elim (Bool-cases (api.is_zero q)) [
    | inl e ↦ simp e refl
    | inr e ↦
        simp
          (
            e,
            lookup-put_key resource_memory resource_reclaimed_cpu
                (api.new_quantity (api.milli_value q)) (delete_key resource_cpu c.limits),
            lookup-delete_key resource_memory resource_cpu c.limits,
          )
          refl
  ]

  -- A ceiling that is set is above 0.
  check_limit-with_ceiling :
      (name : String) (q : Quantity) (limits : List (String × Quantity))
      → api.is_zero q ≡ false
      → check_limit name (lookup resource_memory limits) ≡ none
      → check_limit name
          (lookup resource_memory (with_ceiling q (lookup resource_memory limits) limits))
        ≡ none
  check_limit-with_ceiling name q limits z h = elim (Option-cases (lookup resource_memory limits)) [
    | inl e ↦ rw e (rw (lookup-put_key resource_memory resource_memory q limits) (rw z refl))
    | inr e ↦
        let same : with_ceiling q (lookup resource_memory limits) limits ≡ limits = rw (e.1) refl in
        rw same h
  ]

  rewrite_memory_limits :
      (name : String) (o : Option Quantity) (c : Container Quantity)
      → check_limit name (lookup resource_memory c.limits) ≡ none
      → check_limit name (lookup resource_memory (rewrite_memory o c).limits) ≡ none
  unfolding rewrite_memory set_extended
  rewrite_memory_limits name none c h = h
  rewrite_memory_limits name (some q) c h = elim (Bool-cases (api.is_zero q)) [
    | inl e ↦ simp e h
    | inr e ↦
        let limits = with_ceiling q (lookup resource_memory c.limits) c.limits in
        let read =
          lookup-put_key resource_memory resource_reclaimed_memory
            (api.new_quantity (mebibytes (api.value q))) limits in
        simp e (simp read (check_limit-with_ceiling name q c.limits e h))
  ]

  rewrite_container_limits :
      (name : String) (c : Container Quantity)
      → check_limit name (lookup resource_memory c.limits) ≡ none
      → check_limit name (lookup resource_memory (rewrite_container c).limits) ≡ none
  unfolding rewrite_container
  rewrite_container_limits name c h =
      let first = rewrite_cpu (lookup resource_cpu c.requests) c in
      let kept : check_limit name (lookup resource_memory first.limits) ≡ none =
        ap (check_limit name) (rewrite_cpu_limits (lookup resource_cpu c.requests) c) ∙ h in
      rewrite_memory_limits name (lookup resource_memory c.requests) first kept

  name-rewrite_cpu :
      (o : Option Quantity) (c : Container Quantity) → (rewrite_cpu o c).name ≡ c.name
  unfolding rewrite_cpu set_extended
  name-rewrite_cpu none c = refl
  name-rewrite_cpu (some q) c = elim (Bool-cases (api.is_zero q)) [
    | inl e ↦ simp e refl
    | inr e ↦ simp e refl
  ]

  name-rewrite_memory :
      (o : Option Quantity) (c : Container Quantity) → (rewrite_memory o c).name ≡ c.name
  unfolding rewrite_memory set_extended
  name-rewrite_memory none c = refl
  name-rewrite_memory (some q) c = elim (Bool-cases (api.is_zero q)) [
    | inl e ↦ simp e refl
    | inr e ↦ simp e refl
  ]

  name-rewrite_container : (c : Container Quantity) → (rewrite_container c).name ≡ c.name
  unfolding rewrite_container
  name-rewrite_container c =
      name-rewrite_memory (lookup resource_memory c.requests) _
      ∙ name-rewrite_cpu (lookup resource_cpu c.requests) c

  pub check_reclaimed-rewrite_all :
      (cs : List (Container Quantity))
      → check_reclaimed cs ≡ none
      → check_reclaimed (rewrite_all cs) ≡ none
  unfolding check_reclaimed rewrite_all
  check_reclaimed-rewrite_all [] h = refl
  check_reclaimed-rewrite_all (c ∷ cs) h =
      let parts = first_error-none (check_limit c.name (lookup resource_memory c.limits)) _ h in
      let limits = lookup resource_memory (rewrite_container c).limits in
      first_error_both _ _
        (ap (λ n. check_limit n limits) (name-rewrite_container c)
          ∙ rewrite_container_limits c.name c parts.0)
        (check_reclaimed-rewrite_all cs parts.1)

-- ===== src/Webhook/Rewriting/Requests.antt =====
-- What rewriting leaves of the requests, and that a second rewriting changes nothing.
use kqos.Prelude.{
  ◌≡◌, ◌∙◌, refl, ap, false, List, [], ◌∷◌, Option, none, some, Bool-cases, inl, inr, not_both,
  AllOf,
}
use kqos.Api.{resource_reclaimed_cpu, resource_reclaimed_memory}
use kqos.Kubernetes.{QuantityApi, Container, lookup, delete_key, resource_cpu, resource_memory}
use kqos.Kubernetes.Maps.{lookup-put_key, lookup-delete_key}
use kqos.Webhook.Rewriting.{
  asks, mebibytes, set_extended, rewrite_cpu, rewrite_memory, rewrite_container, rewrite_all,
  is_rewritten, any_rewritten,
}

module _ {Quantity : Type 0} ⦃api : QuantityApi Quantity⦄ where
  -- No CPU and no memory is asked for natively, but an amount of 0.
  pub record IsStripped (c : Container Quantity) : Type 0 where
    pub cpu : asks (lookup resource_cpu c.requests) ≡ false
    pub memory : asks (lookup resource_memory c.requests) ≡ false

  rewrite_cpu-cpu :
      (o : Option Quantity) (c : Container Quantity)
      → lookup resource_cpu c.requests ≡ o
      → asks (lookup resource_cpu (rewrite_cpu o c).requests) ≡ false
  unfolding rewrite_cpu set_extended
  rewrite_cpu-cpu none c h = ap asks h
  rewrite_cpu-cpu (some q) c h = elim (Bool-cases (api.is_zero q)) [
    | inl e ↦ simp e (ap asks h ∙ simp e refl)
    | inr e ↦
        simp
          (
            e,
            lookup-put_key resource_cpu resource_reclaimed_cpu
                (api.new_quantity (api.milli_value q)) (delete_key resource_cpu c.requests),
            lookup-delete_key resource_cpu resource_cpu c.requests,
          )
          refl
  ]

  rewrite_cpu-memory :
      (o : Option Quantity) (c : Container Quantity)
      → lookup resource_memory (rewrite_cpu o c).requests ≡ lookup resource_memory c.requests
  unfolding rewrite_cpu set_extended
  rewrite_cpu-memory none c = refl
  rewrite_cpu-memory (some q) c = elim (Bool-cases (api.is_zero q)) [
    | inl e ↦ simp e refl
    | inr e ↦
        simp
          (
            e,
            lookup-put_key resource_memory resource_reclaimed_cpu
                (api.new_quantity (api.milli_value q)) (delete_key resource_cpu c.requests),
            lookup-delete_key resource_memory resource_cpu c.requests,
          )
          refl
  ]

  rewrite_memory-cpu :
      (o : Option Quantity) (c : Container Quantity)
      → lookup resource_cpu (rewrite_memory o c).requests ≡ lookup resource_cpu c.requests
  unfolding rewrite_memory set_extended
  rewrite_memory-cpu none c = refl
  rewrite_memory-cpu (some q) c = elim (Bool-cases (api.is_zero q)) [
    | inl e ↦ simp e refl
    | inr e ↦
        simp
          (
            e,
            lookup-put_key resource_cpu resource_reclaimed_memory
                (api.new_quantity (mebibytes (api.value q)))
                (delete_key resource_memory c.requests),
            lookup-delete_key resource_cpu resource_memory c.requests,
          )
          refl
  ]

  rewrite_memory-memory :
      (o : Option Quantity) (c : Container Quantity)
      → lookup resource_memory c.requests ≡ o
      → asks (lookup resource_memory (rewrite_memory o c).requests) ≡ false
  unfolding rewrite_memory set_extended
  rewrite_memory-memory none c h = ap asks h
  rewrite_memory-memory (some q) c h = elim (Bool-cases (api.is_zero q)) [
    | inl e ↦ simp e (ap asks h ∙ simp e refl)
    | inr e ↦
        simp
          (
            e,
            lookup-put_key resource_memory resource_reclaimed_memory
                (api.new_quantity (mebibytes (api.value q)))
                (delete_key resource_memory c.requests),
            lookup-delete_key resource_memory resource_memory c.requests,
          )
          refl
  ]

  pub rewrite_container-IsStripped : (c : Container Quantity) → IsStripped (rewrite_container c)
  unfolding rewrite_container
  rewrite_container-IsStripped c =
      let first = rewrite_cpu (lookup resource_cpu c.requests) c in
      record {
        cpu =
            ap asks (rewrite_memory-cpu (lookup resource_memory c.requests) first)
            ∙ rewrite_cpu-cpu (lookup resource_cpu c.requests) c refl;
        memory =
            rewrite_memory-memory (lookup resource_memory c.requests) first
              (rewrite_cpu-memory (lookup resource_cpu c.requests) c);
      }

  pub rewrite_all-IsStripped : (cs : List (Container Quantity)) → AllOf IsStripped (rewrite_all cs)
  unfolding rewrite_all
  rewrite_all-IsStripped [] = tt
  rewrite_all-IsStripped (c ∷ cs) = (rewrite_container-IsStripped c, rewrite_all-IsStripped cs)

  -- A part of the loop's body does nothing without an amount above 0.
  rewrite_cpu_idle :
      (o : Option Quantity) (c : Container Quantity) → asks o ≡ false → rewrite_cpu o c ≡ c
  unfolding rewrite_cpu
  rewrite_cpu_idle none c h = refl
  rewrite_cpu_idle (some q) c h = elim (Bool-cases (api.is_zero q)) [
    | inl e ↦ simp e refl
    | inr e ↦ not_both (asks (some q)) (simp e refl) h
  ]

  rewrite_memory_idle :
      (o : Option Quantity) (c : Container Quantity) → asks o ≡ false → rewrite_memory o c ≡ c
  unfolding rewrite_memory
  rewrite_memory_idle none c h = refl
  rewrite_memory_idle (some q) c h = elim (Bool-cases (api.is_zero q)) [
    | inl e ↦ simp e refl
    | inr e ↦ not_both (asks (some q)) (simp e refl) h
  ]

  rewrite_container_idle : (c : Container Quantity) → IsStripped c → rewrite_container c ≡ c
  unfolding rewrite_container
  rewrite_container_idle c s =
      rewrite_memory_idle (lookup resource_memory c.requests) _ s.memory
      ∙ rewrite_cpu_idle (lookup resource_cpu c.requests) c s.cpu

  -- Rewriting what holds no native request changes nothing, and says so.
  pub rewrite_all_idle :
      (cs : List (Container Quantity))
      → AllOf IsStripped cs
      → (rewrite_all cs ≡ cs) × (any_rewritten cs ≡ false)
  unfolding rewrite_all any_rewritten is_rewritten
  rewrite_all_idle [] h = (refl, refl)
  rewrite_all_idle (c ∷ cs) h =
      let rest = rewrite_all_idle cs h.1 in
      (rw (rewrite_container_idle c h.0, rest.0) refl, rw (h.0.cpu, h.0.memory, rest.1) refl)

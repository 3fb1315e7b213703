-- ===== src/Webhook/Rewriting.antt =====
-- pkg/webhook/pod.go: `rewriteReclaimed`. A list of requests or limits that is nil and one that is
-- empty are the same here, as they are to a reader of the map.
pub mod Requests
pub mod Limits
use kqos.Prelude.{
  ℕ, ◌≡◌, Bool, true, false, not, ◌&&◌, ◌||◌, List, [], ◌∷◌, Option, none, some, String, str_eq,
  if◌then◌else◌,
}
use kqos.Prelude.Int.{ℤ, pos, ltb_ℤ, eqb_ℤ, ◌/ℤ◌, ◌%ℤ◌}
use kqos.Api.{
  QosLevel, dedicated_cores, shared_cores, reclaimed_cores, other_level, to_level, level_text,
  is_valid, level_eq, annotation_qos_level, annotation_numa_binding, annotation_original_resources,
  resource_reclaimed_cpu, resource_reclaimed_memory,
}
use kqos.Kubernetes.{
  QuantityApi, ResourceList, Container, Pod, lookup, put_key, delete_key, resource_cpu,
  resource_memory,
}
use kqos.Qos.{level_of, annotation_is}

-- Bytes in mebibytes, 1 at least.
abbrev pub mebibytes : ℤ → ℤ
mebibytes bytes = if ltb_ℤ (bytes /ℤ pos 1_048_576) (pos 1) then pos 1 else bytes /ℤ pos 1_048_576

abbrev pub annotate : String → Option String → List (String × String) → List (String × String)
annotate key none m = m
annotate key (some v) m = put_key key v m

module _ {Quantity : Type 0} ⦃api : QuantityApi Quantity⦄ where
  open api use {milli_value, value, is_zero, new_quantity}

  unfoldable pub set_extended : Container Quantity → String → ℤ → Container Quantity
  set_extended c name amount = record c {
    requests = put_key name (new_quantity amount) c.requests;
    limits = put_key name (new_quantity amount) c.limits;
  }

  abbrev pub asks : Option Quantity → Bool
  asks none = false
  asks (some q) = not (is_zero q)

  -- The CPU part of the loop's body.
  unfoldable pub rewrite_cpu : Option Quantity → Container Quantity → Container Quantity
  rewrite_cpu none c = c
  rewrite_cpu (some q) c =
      if is_zero q
      then c
      else set_extended
          (record c {
            requests = delete_key resource_cpu c.requests;
            limits = delete_key resource_cpu c.limits;
          })
          resource_reclaimed_cpu (milli_value q)

  abbrev pub with_ceiling :
      Quantity → Option Quantity → ResourceList Quantity → ResourceList Quantity
  with_ceiling q none limits = put_key resource_memory q limits
  with_ceiling q (some l) limits = limits

  -- The memory part of the loop's body.
  unfoldable pub rewrite_memory : Option Quantity → Container Quantity → Container Quantity
  rewrite_memory none c = c
  rewrite_memory (some q) c =
      if is_zero q
      then c
      else set_extended
          (record c {
            requests = delete_key resource_memory c.requests;
            limits = with_ceiling q (lookup resource_memory c.limits) c.limits;
          })
          resource_reclaimed_memory (mebibytes (value q))

  -- Both requests are read before either is rewritten.
  unfoldable pub rewrite_container : Container Quantity → Container Quantity
  rewrite_container c =
      rewrite_memory (lookup resource_memory c.requests)
        (rewrite_cpu (lookup resource_cpu c.requests) c)

  -- Whether a container has a request that is rewritten.
  unfoldable pub is_rewritten : Container Quantity → Bool
  is_rewritten c = asks (lookup resource_cpu c.requests) || asks (lookup resource_memory c.requests)

  unfoldable pub rewrite_all : List (Container Quantity) → List (Container Quantity)
  rewrite_all [] = []
  rewrite_all (c ∷ cs) = rewrite_container c ∷ rewrite_all cs

  unfoldable pub any_rewritten : List (Container Quantity) → Bool
  any_rewritten [] = false
  any_rewritten (c ∷ cs) = is_rewritten c || any_rewritten cs

  abbrev pub is_there : Option Quantity → Bool
  is_there none = false
  is_there (some q) = true

  -- The containers as they were, by name: those with a CPU or memory request.
  unfoldable pub snapshot :
      List (Container Quantity)
      → List (String × Container Quantity)
      → List (String × Container Quantity)
  snapshot [] out = out
  snapshot (c ∷ cs) out = snapshot cs (
      if is_there (lookup resource_cpu c.requests) || is_there (lookup resource_memory c.requests)
      then put_key c.name c out
      else out)

  -- `marshal` is `json.Marshal` of the snapshot.
  unfoldable pub rewrite_reclaimed :
      (List (String × Container Quantity) → Option String) → Pod Quantity → Pod Quantity × Bool
  rewrite_reclaimed marshal pod =
      let changed = any_rewritten pod.containers in
      let text = if changed then marshal (snapshot pod.containers []) else none in
      (
        record pod {
          containers = rewrite_all pod.containers;
          annotations = annotate annotation_original_resources text pod.annotations;
        },
        changed,
      )

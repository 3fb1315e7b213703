-- ===== src/Samples.antt =====
-- Concrete values for the tests and witnesses: quantities, floats that are whole numbers, pods and
-- nodes.
use kqos.Prelude.{suc, ◌+◌, ◌/◌, ◌≡◌, true, false, arith, ℕ, refl, Bool, [], ◌∷◌, none, String}
use kqos.Prelude.Int.{
  ◌-ℤ◌, ◌≤ℤ◌, negsuc, pos_part, neg_part, ℤ, pos, eqb_ℤ, ltb_ℤ, leb_ℤ, ◌*ℤ◌, ◌/ℤ◌, ◌+ℤ◌,
}
use kqos.Floats.{FloatApi}
use kqos.Api.{QosLevel, shared_cores, reclaimed_cores}
use kqos.Collector.{NodeSample, PodSample, Psi}
use kqos.Kubernetes.{
  ResourceList, QuantityApi, Container, Pod, unset, running, resource_cpu, resource_memory,
}
use mathlib.Core.Bool.{not}

-- An amount as it was made: in thousandths, or whole.
pub data Amount : Type 0 where
  thousandths whole : ℤ → Amount

abbrev in_thousandths : Amount → ℤ
in_thousandths (thousandths m) = m
in_thousandths (whole v) = v *ℤ pos 1000

abbrev in_units : Amount → ℤ
in_units (thousandths m) = m /ℤ pos 1000
in_units (whole v) = v

abbrev is_none : Amount → Bool
is_none (thousandths m) = eqb_ℤ m (pos 0)
is_none (whole v) = eqb_ℤ v (pos 0)

instance abbrev pub amounts : QuantityApi Amount
amounts = record {
  milli_value = in_thousandths;
  value = in_units;
  is_zero = is_none;
  add = λ q r. thousandths (in_thousandths q +ℤ in_thousandths r);
  new_milli_quantity = thousandths;
  new_quantity = whole;
  is_greater = λ q r. ltb_ℤ (in_thousandths r) (in_thousandths q);
  differs = λ q r. not (eqb_ℤ (in_thousandths q) (in_thousandths r));
  milli_value-new = λ m. refl;
  value-new = λ v. refl;
  is_zero-new = λ v. refl;
}

abbrev pub container_of : ℕ → ℕ → Container Amount
container_of cores mib = record {
  name = "app";
  requests = (resource_cpu, whole (pos cores)) ∷ (resource_memory, whole (pos mib)) ∷ [];
  limits = (resource_cpu, whole (pos cores)) ∷ (resource_memory, whole (pos mib)) ∷ [];
}

-- A pod that is Guaranteed, and so dedicated.
abbrev pub pod_of : String → ℕ → Pod Amount
pod_of uid cores = record {
  namespace = "default";
  name = uid;
  uid = uid;
  annotations = [];
  priority_class_name = "";
  priority = none;
  init_containers = [];
  containers = container_of cores 64 ∷ [];
  qos_class = unset;
  phase = running;
  deleting = Bool.false;
}

abbrev pub abs_of : ℤ → ℤ
abs_of a = pos (pos_part a + neg_part a)

pub minus_one : (a : ℤ) → ltb_ℤ a (pos 1) ≡ false → suc (pos_part (a -ℤ pos 1)) ≡ pos_part a
unfolding ◌-ℤ◌
minus_one (pos n) h = ground arith
minus_one (negsuc n) h = ground arith

pub less_minus_one : (a : ℤ) → ltb_ℤ a (a -ℤ pos 1) ≡ false
unfolding ◌-ℤ◌
less_minus_one (pos n) = ground arith
less_minus_one (negsuc n) = ground arith

pub less_once : (a b : ℤ) → ltb_ℤ a b ≡ true → ltb_ℤ b a ≡ false
less_once a b h = ground arith

pub less_chain : (a b c : ℤ) → ltb_ℤ a b ≡ false → ltb_ℤ b c ≡ false → ltb_ℤ a c ≡ false
less_chain a b c h k = ground arith

pub not_less : (a b : ℤ) → ltb_ℤ b a ≡ false → a ≤ℤ b
not_less a b h = ground arith

-- Whole numbers in the place of floats.
instance abbrev pub whole_floats : FloatApi ℤ
whole_floats = record {
  of_int = λ a. a;
  to_int = λ a. a;
  round_to_int = λ a. a;
  add = ◌+ℤ◌;
  sub = ◌-ℤ◌;
  mul = ◌*ℤ◌;
  div = ◌/ℤ◌;
  abs = abs_of;
  ceil_to_int = λ a. a;
  fraction = λ n d. pos (n / d);
  less = ltb_ℤ;
  at_most = leb_ℤ;
  less_asym = less_once;
  not_less_trans = less_chain;
  less_sub_one = less_minus_one;
  to_int_of_int = λ n k. refl;
  to_int_at_most = λ a n k. not_less a (pos n);
  to_int_mono = λ a b n k h. not_less a b;
  to_int_sub_one = λ a n k h. minus_one a;
}

abbrev quiet_psi : Psi ℤ
quiet_psi = record {
  some_avg10 = pos 0;
  some_avg60 = pos 0;
  some_avg300 = pos 0;
  full_avg10 = pos 0;
  full_avg60 = pos 0;
  full_avg300 = pos 0;
}

-- A sample of a pod, at a level and with a usage.
abbrev pub pod_sample : String → QosLevel → ℕ → ℕ → PodSample ℤ Amount
pod_sample uid level milli bytes = record {
  uid = uid;
  namespace = "default";
  name = uid;
  qos_level = level;
  cpu_milli = pos milli;
  memory_bytes = bytes;
  throttled_ratio = pos 0;
  requests = [];
  limits = [];
  valid = true;
}

-- A node with a pod that is protected and one that is not.
abbrev pub node_sample : ℤ → ℕ → NodeSample ℤ Amount
node_sample at bytes = record {
  timestamp = at;
  interval = pos 10_000_000_000;
  cpu_milli = pos 3000;
  memory_bytes = bytes;
  cpu_pressure = quiet_psi;
  memory_pressure = quiet_psi;
  online_cpus = pos 8;
  pods = pod_sample "a" shared_cores 1000 bytes ∷ pod_sample "b" reclaimed_cores 2000 64 ∷ [];
  degraded = Bool.false;
  valid = true;
}

-- Eight cores and a thousand bytes.
abbrev pub node_capacity : ResourceList Amount
node_capacity = (resource_cpu, whole (pos 8)) ∷ (resource_memory, whole (pos 1000)) ∷ []

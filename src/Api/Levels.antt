-- ===== src/Api/Levels.antt =====
-- The levels' texts and ranks.
use kqos.Prelude.{ap, eq_iff, ◌≡◌, ◌<◌, ◌↔◌, refl, true, arith}
use kqos.Api.{
  level_eq, shared_cores, reclaimed_cores, system_cores, QosLevel, dedicated_cores, other_level,
  to_level, level_text, is_valid, eviction_rank, evictable,
}

-- A known level is read back from its text.
pub to_level-level_text : (q : QosLevel) → is_valid q ≡ true → to_level (level_text q) ≡ q
unfolding to_level is_valid
to_level-level_text (other_level v) h = cc
to_level-level_text dedicated_cores h = refl
to_level-level_text _ h = refl

-- Among the known levels exactly the system level is not evictable, and it has the least rank.
pub evictable_rank : (q : QosLevel) → (evictable q ≡ true) ↔ (0 < eviction_rank q)
unfolding evictable eviction_rank
evictable_rank q = ground arith

-- Levels that test as equal are equal.
pub level_eq_same : (k q : QosLevel) → level_eq k q ≡ true → k ≡ q
level_eq_same (other_level v) (other_level w) h = ap other_level ((eq_iff v w).0 h)
level_eq_same dedicated_cores dedicated_cores h = refl
level_eq_same shared_cores shared_cores h = refl
level_eq_same reclaimed_cores reclaimed_cores h = refl
level_eq_same system_cores system_cores h = refl
level_eq_same _ _ h = absurd (ground arith)

pub level_eq_self : (q : QosLevel) → level_eq q q ≡ true
level_eq_self (other_level v) = (eq_iff v v).1 refl
level_eq_self dedicated_cores = refl
level_eq_self shared_cores = refl
level_eq_self reclaimed_cores = refl
level_eq_self system_cores = refl

-- ===== src/CpuSet/Format/Ending.antt =====
-- `Parse` ends on short texts: no number in them is as large as the largest int.
use kqos.CpuSet.Format.{Result, ok, err, endless}

-- There is a result, or an error.
abbrev pub Ends : {A : Type 0} → Result A → Type 0
Ends (ok a) = Unit {0}
Ends (err e) = Unit {0}
Ends endless = ⊥

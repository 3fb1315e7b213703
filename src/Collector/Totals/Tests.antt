-- ===== src/Collector/Totals/Tests.antt =====
-- The theorem on the totals at a concrete node.
use kqos.Prelude.{◌≡◌, arith}
use kqos.Prelude.Int.{pos}
use kqos.Api.{reclaimed_cores}
use kqos.Collector.Totals.{by_qos}
use kqos.Collector.Totals.Counts.{pods_at, by_qos-count}
use kqos.Samples.{amounts, whole_floats, node_sample}

-- One of the node's two pods is reclaimed.
by_qos-count_example : pods_at reclaimed_cores (by_qos (node_sample (pos 5) 300)) ≡ pos 1
by_qos-count_example = by_qos-count (node_sample (pos 5) 300) reclaimed_cores (omega arith)

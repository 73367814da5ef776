-- ===== src/Cluster/Node.antt =====
-- internal/cluster/node.go: the availability of one cache node.
use distributed_caching.Prelude.{Bool, true, false, Str, Time}

pub record NodeHealth : Type 0 where
  pub node_id : Str
  pub addr : Str
  pub available : Bool
  pub last_probe_at : Time
  pub last_seen_at : Time

-- A new node counts as available, with zero times.
unfoldable pub new_node_health : Str → Str → NodeHealth
new_node_health node_id addr = record {
  node_id = node_id;
  addr = addr;
  available = true;
  last_probe_at = 0;
  last_seen_at = 0;
}

unfoldable pub mark_available : Time → NodeHealth → NodeHealth
mark_available now n = record n { available = true; last_seen_at = now }

unfoldable pub mark_unavailable : NodeHealth → NodeHealth
mark_unavailable n = record n { available = false }

unfoldable pub is_available : NodeHealth → Bool
is_available n = n.available

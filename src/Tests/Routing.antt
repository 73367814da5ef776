-- ===== src/Tests/Routing.antt =====
-- internal/cluster: a coordinator on a ring of two nodes.
use distributed_caching.Prelude.{◌≡◌, refl, true, false, [], ◌∷◌, none, Str-discrete, str_key}
use distributed_caching.Prelude.Dict.{lookup, insert}
use distributed_caching.Cluster.Node.{
  new_node_health, is_available, mark_available, mark_unavailable,
}
use distributed_caching.Cluster.Coordinator.{
  Coordinator, new_coordinator, set_leader, route, no_route, node_up, update_node_health,
}
use distributed_caching.Tests.Cluster.{two, key, n1, n2, a1, a2, owner}

abbrev coordinator : Coordinator
coordinator =
    set_leader true
      (new_coordinator two ((n1, new_node_health n1 a1) ∷ (n2, new_node_health n2 a2) ∷ []))

abbrev degraded : Coordinator
degraded = update_node_health 0 n2 false coordinator

program : Unit {0}
unfolding Str-discrete lookup insert new_node_health is_available mark_available mark_unavailable
    new_coordinator set_leader node_up update_node_health
program = tt

routed : route key coordinator ≡ (record { node_id = n2; addr = a2 }, true, none)
unfolding program route
routed = rw owner refl

-- The owner of the key counts as down.
not_routed : route key degraded ≡ (no_route, false, none)
unfolding program route
not_routed = rw owner refl

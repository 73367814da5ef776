-- ===== src/Tests/Election.antt =====
-- scripts/raft_election.go: the first election in the cluster of the script.
use distributed_caching.Prelude.{
  ◌+◌, ◌≡◌, refl, true, none, some, List, [], ◌∷◌, Str, Str-discrete, codes, arith, ap, get_or,
}
use distributed_caching.Prelude.Dict.{lookup, insert}
use distributed_caching.Raft.{
  RaftNode, PeerConfig, absent, follower, no_state, new_raft_node, load_state,
}
use distributed_caching.Raft.InMemory.{
  Nodes, make_cluster, make_nodes, peers_of, cluster_ids, run_election,
}
use distributed_caching.Raft.InMemory.Quiet.{IsElected, run_election-leads}

abbrev node : Str → RaftNode
node id = record {
  id = id;
  peers = peers_of id cluster_ids;
  state = follower;
  leader_id = [];
  ps = no_state;
  file = absent;
  leader_ch = none;
  last_heartbeat = 0;
}

abbrev node1 : Str
node1 = codes "node1"

abbrev cluster : Nodes
cluster =
    (node1, node node1)
    ∷ (codes "node2", node (codes "node2"))
    ∷ (codes "node3", node (codes "node3"))
    ∷ []

made : make_cluster (λ id. absent) ≡ some cluster
unfolding make_nodes new_raft_node load_state insert Str-discrete
made = refl

-- The third node answers first.
abbrev order : List PeerConfig
order =
    record { id = codes "node3"; addr = codes "node3" }
    ∷ record { id = codes "node2"; addr = codes "node2" }
    ∷ []

run_election-leads_example :
    IsElected
      ((node node1).ps.current_term + 1)
      node1
      node1
      order
      (run_election true 5 node1 order cluster)
unfolding lookup Str-discrete peers_of
run_election-leads_example =
    run_election-leads true 5 node1 order cluster (node node1) refl (omega arith) refl (omega arith)
      (
        (λ e. omega (arith, ap (λ s. get_or s 4 0) e), (node (codes "node3"), refl, omega arith)),
        (
          (λ e. omega (arith, ap (λ s. get_or s 4 0) e), (node (codes "node2"), refl, omega arith)),
          tt,
        ),
      )

-- ===== src/CacheNode/Serving.antt =====
-- cmd/cachenode/main.go: the routing of a cache node that has just started.
use distributed_caching.Prelude.{
  ℕ, ◌≡◌, ◌⊎◌, refl, sym, ◌∙◌, ap, inl, inr, true, none, some, List, [], ◌∷◌, map, Str, str_key,
  Str-discrete, nat_key, arith, Bool-cases,
}
use distributed_caching.Prelude.Sets.{elem as member}
use distributed_caching.Prelude.Dict.{
  Dict, lookup, insert, has, has-insert, has-true, lookup-insert,
}
use distributed_caching.Raft.{PeerConfig}
use distributed_caching.Cluster.Hash.{hash_key, token_name}
use distributed_caching.Cluster.Ring.{Ring, new_ring, add, get, nodes, node_addr, string_at}
use distributed_caching.Cluster.Ring.Sorting.{Sorted, sort-Sorted}
use distributed_caching.Cluster.Ring.Valid.{elem, tokens_of, add-Joined, elem-add}
use distributed_caching.Cluster.Ring.Routing.{get-answers}
use distributed_caching.Cluster.Node.{new_node_health, is_available}
use distributed_caching.Cluster.Coordinator.{
  Coordinator, RouteResult, RouteError, new_coordinator, set_leader, node_up, route_iff,
}
use distributed_caching.Cluster.Coordinator
use distributed_caching.CacheNode.{
  add_peers, start_ring, self_addr, health_map, start_coordinator, on_leader,
}

-- The token list is sorted, and the owner of each token is a node of the ring.
record IsServed (r : Ring) : Type 0 where
  sorted : Sorted r.sorted_tokens
  owned :
      (t : ℕ)
      → elem t r.sorted_tokens ≡ true
      → has (string_at (lookup t r.tokens)) r.node_addrs ≡ true

new_ring-IsServed : IsServed new_ring
unfolding new_ring
new_ring-IsServed = record { sorted = tt; owned = λ t e. cc }

-- `Add` keeps it, whatever tokens meet.
add-IsServed : (n addr : Str) (r : Ring) → IsServed r → IsServed (add n addr r)
add-IsServed n addr r v =
    let j = add-Joined n addr r in
    record {
      sorted = rw j.list (sort-Sorted _);
      owned = λ t e. elim (Bool-cases (elem t (tokens_of n r.virtual_nodes 0))) [
        | inl new ↦ rw (j.map t, new, j.addrs) (ground (arith, has-insert n n addr r.node_addrs))
        | inr old ↦
            rw (j.map t, old, j.addrs)
              (ground (
                arith,
                has-insert n (string_at (lookup t r.tokens)) addr r.node_addrs,
                elem-add n addr r t,
                v.owned t,
              ))
      ];
    }

add_peers-IsServed : (ps : List PeerConfig) (r : Ring) → IsServed r → IsServed (add_peers ps r)
unfolding add_peers
add_peers-IsServed [] r v = v
add_peers-IsServed (p ∷ ps) r v = add_peers-IsServed ps _ (add-IsServed p.id p.addr r v)

-- A ring with a token answers for every key, with one of its nodes and the address of it.
get-IsServed :
    (key : Str) (r : Ring) (t : ℕ)
    → IsServed r
    → elem t r.sorted_tokens ≡ true
    → (n : Str) × (addr : Str) × (get key r ≡ some (n, addr)) × (node_addr n r ≡ some addr)
unfolding node_addr
get-IsServed key r t v e =
    let (u, here, found) = get-answers key r t v.sorted e in
    let (addr, known) = has-true _ r.node_addrs (v.owned u here) in
    let n = string_at (lookup u r.tokens) in
    (n, addr, found ∙ ap (λ o. some (n, string_at o)) known, known)

-- A token of a ring stays when peers join.
elem-add_peers :
    (ps : List PeerConfig) (r : Ring) (t : ℕ)
    → elem t r.sorted_tokens ≡ true
    → elem t (add_peers ps r).sorted_tokens ≡ true
unfolding add_peers
elem-add_peers [] r t e = e
elem-add_peers (p ∷ ps) r t e = elem-add_peers ps _ t (ground (arith, elem-add p.id p.addr r t))

-- The nodes of the ring are those that were there and the peers.
has-add_peers :
    (ps : List PeerConfig) (r : Ring) (n : Str)
    → has n (add_peers ps r).node_addrs ≡ true
    → (has n r.node_addrs ≡ true) ⊎ (member n (map (λ p. p.id) ps) ≡ true)
unfolding add_peers
has-add_peers [] r n e = inl e
has-add_peers (p ∷ ps) r n e = elim (has-add_peers ps (add p.id p.addr r) n e) [
  | inl h ↦
      let there : has n (insert p.id p.addr r.node_addrs) ≡ true =
        ap (has n) (sym (add-Joined p.id p.addr r).addrs) ∙ h in
      ground (arith, has-insert p.id n p.addr r.node_addrs)
  | inr h ↦ inr (ground arith)
]

member-nodes : (n : Str) (addrs : Dict Str Str) → member n (map (λ e. e.0) addrs) ≡ has n addrs
unfolding lookup
member-nodes n [] = refl
member-nodes n ((k, a) ∷ addrs) = ground (arith, member-nodes n addrs)

-- Every node of the health map counts as available.
lookup-health_map :
    (r : Ring) (n : Str) (ns : List Str)
    → member n ns ≡ true
    → lookup n (health_map r ns) ≡ some (new_node_health n (string_at (node_addr n r)))
unfolding health_map
lookup-health_map r n [] e = cc
lookup-health_map r n (m ∷ ns) e = ground (
  arith,
  lookup-insert m n (new_node_health m (string_at (node_addr m r))) (health_map r ns),
  lookup-health_map r n ns,
)

module _ (node_id : Str) (grpc_port : ℕ) (peers : List PeerConfig) where
  abbrev pub ring : Ring
  ring = start_ring node_id grpc_port peers

  start_ring-IsServed : IsServed ring
  unfolding start_ring
  start_ring-IsServed =
      add_peers-IsServed peers _ (add-IsServed node_id _ new_ring new_ring-IsServed)

  start_ring-token : (t : ℕ) × (elem t ring.sorted_tokens ≡ true)
  unfolding start_ring new_ring
  start_ring-token = (
    hash_key (token_name node_id 0),
    elem-add_peers peers _ _ (
        ground (
          arith,
          elem-add node_id (self_addr node_id grpc_port) new_ring (hash_key (token_name node_id 0)),
        )),
  )

  has-start_ring :
      (n : Str) → has n ring.node_addrs ≡ true → member n (node_id ∷ map (λ p. p.id) peers) ≡ true
  unfolding start_ring new_ring lookup
  has-start_ring n e = elim (has-add_peers peers _ n e) [
    | inr h ↦ ground arith
    | inl h ↦
        let there : has n (insert node_id (self_addr node_id grpc_port) []) ≡ true =
          ap (has n) (sym (add-Joined node_id (self_addr node_id grpc_port) new_ring).addrs) ∙ h in
        ground (arith, has-insert {K = Str} {V = Str} node_id n (self_addr node_id grpc_port) [])
  ]

  node_up-start :
      (n : Str) → has n ring.node_addrs ≡ true → node_up (start_coordinator ring) n ≡ true
  unfolding node_up start_coordinator new_coordinator is_available new_node_health nodes
  node_up-start n e =
      let there = member-nodes n ring.node_addrs ∙ e in
      rw (node_up, lookup-health_map ring n _ there) refl

  -- A cache node that has just started and hears that it is the leader routes every key: to itself
  -- or to one of its peers, at the address that the ring holds for that node.
  pub route-on_leader :
      (key : Str)
      → (r : RouteResult) × (Coordinator.route key
            (on_leader node_id node_id (start_coordinator ring))
          ≡ (r, true, none))
        × (member r.node_id (node_id ∷ map (λ p. p.id) peers) ≡ true)
        × (node_addr r.node_id ring ≡ some r.addr)
  unfolding on_leader start_coordinator new_coordinator set_leader node_addr node_up Str-discrete
  route-on_leader key =
      let (t, here) = start_ring-token in
      let (n, addr, found, known) = get-IsServed key ring t start_ring-IsServed here in
      let there : has n ring.node_addrs ≡ true = ground arith in
      let r : RouteResult = record { node_id = n; addr = addr } in
      (
        r,
        (route_iff key _ r).1 (ground arith, found, node_up-start n there),
        has-start_ring n there,
        known,
      )

-- ===== src/Raft/Invariant.antt =====
-- internal/raft: what holds of a cluster of nodes and of the messages between them, and how a move
-- of one node keeps it so.
use distributed_caching.Prelude.{
  ◌≡◌, ◌≢◌, refl, sym, true, Option, some, List, [], Str, str_key, arith, subst,
}
use distributed_caching.Prelude.Sets.{elem}
use distributed_caching.Raft.{RaftNode}
use distributed_caching.Raft.Election.{is_candidate}
use distributed_caching.Raft.Votes.{
  Grows, CountsOf, NodeOk, CountsOf-Grows, CountsOf-node, NodeOk-Grows,
}
use distributed_caching.Raft.Ballots.{Moved}
use distributed_caching.Raft.System.{Election, Ask, Reply, Cast, System, In, update}

pub update-cases :
    {A : Type 0} (P : Str → A → Type 0) (f : Str → A) (i : Str) (x : A)
    → P i x
    → ((j : Str) → i ≢ j → P j (f j))
    → (j : Str) → P j (update f i x j)
update-cases P f i x now others j = elim (str_key.dec i j) [
  | yes q ↦
      let e : update f i x j ≡ x = ground arith in subst (P j) (sym e) (subst (λ k. P k x) q now)
  | no q ↦ let e : update f i x j ≡ f j = ground arith in subst (P j) (sym e) (others j q)
]

module _ (members : List Str) where
  pub record IsValid (s : System) : Type 0 where
    pub nodes : (i : Str) → elem i members ≡ true → NodeOk members s.cast i (s.nodes i)
    pub elections :
        (i : Str) → elem i members ≡ true → CountsOf members s.cast i (s.nodes i) (s.elections i)
    pub asks : (a : Ask) → In a s.asks → a.candidate_id ≢ []
    pub replies :
        (r : Reply)
        → In r s.replies
        → r.result.granted ≡ true
        → s.cast r.voter r.asked ≡ some r.candidate_id

  -- A move of node `i` leaves every node in order.
  pub moved_nodes :
      (s : System) (i : Str) (cast' : Cast) (n : RaftNode)
      → IsValid s
      → Moved members s.cast cast' i n
      → (j : Str) → elem j members ≡ true
      → NodeOk members cast' j (update s.nodes i n j)
  moved_nodes s i cast' n v m =
      update-cases (λ j x. elem j members ≡ true → NodeOk members cast' j x) s.nodes i n (λ _. m.ok)
        (λ j other e.
          NodeOk-Grows members s.cast cast' j (s.nodes j) m.grows (m.others j other) (v.nodes j e))

  -- Every election other than its own goes on.
  pub moved_elections :
      (s : System) (i : Str) (cast' : Cast) (n : RaftNode) (o : Option Election)
      → IsValid s
      → Grows s.cast cast'
      → CountsOf members cast' i n o
      → (j : Str) → elem j members ≡ true
      → CountsOf members cast' j (update s.nodes i n j) (update s.elections i o j)
  moved_elections s i cast' n o v g k j e = elim (str_key.dec i j) [
    | yes q ↦
        let a : update s.nodes i n j ≡ n = ground arith in
        let b : update s.elections i o j ≡ o = ground arith in
        rw (a, b) (subst (λ x. CountsOf members cast' x n o) q k)
    | no q ↦
        let a : update s.nodes i n j ≡ s.nodes j = ground arith in
        let b : update s.elections i o j ≡ s.elections j = ground arith in
        rw (a, b)
          (CountsOf-Grows members s.cast cast' j (s.nodes j) (s.elections j) g (v.elections j e))
  ]

  -- The move of a node that does not touch its election.
  pub kept_elections :
      (s : System) (i : Str) (cast' : Cast) (n : RaftNode)
      → IsValid s
      → Grows s.cast cast'
      → (is_candidate n.state ≡ true
          → (is_candidate (s.nodes i).state ≡ true)
            × (n.ps.current_term ≡ (s.nodes i).ps.current_term))
      → (j : Str) → elem j members ≡ true
      → CountsOf members cast' j (update s.nodes i n j) (s.elections j)
  kept_elections s i cast' n v g f =
      update-cases (λ j x. elem j members ≡ true → CountsOf members cast' j x (s.elections j))
        s.nodes i n
        (λ e.
          CountsOf-Grows members s.cast cast' i n (s.elections i) g
            (CountsOf-node members s.cast i (s.nodes i) n (s.elections i) f (v.elections i e)))
        (λ j other e.
          CountsOf-Grows members s.cast cast' j (s.nodes j) (s.elections j) g (v.elections j e))

  pub still_cast :
      (s : System) (i : Str) (n : RaftNode)
      → NodeOk members s.cast i n
      → Moved members s.cast s.cast i n
  still_cast s i n ok = record { grows = λ p t c e. e; ok = ok; others = λ j h t. refl }

  -- A move of one node that casts no vote, sends nothing, and does not make it a candidate.
  pub quiet-IsValid :
      (s : System) (i : Str) (n : RaftNode)
      → IsValid s
      → NodeOk members s.cast i n
      → (is_candidate n.state ≡ true
          → (is_candidate (s.nodes i).state ≡ true)
            × (n.ps.current_term ≡ (s.nodes i).ps.current_term))
      → IsValid (record s { nodes = update s.nodes i n })
  quiet-IsValid s i n v ok f = record {
    nodes = moved_nodes s i s.cast n v (still_cast s i n ok);
    elections = kept_elections s i s.cast n v (λ p t c e. e) f;
    asks = v.asks;
    replies = v.replies;
  }

-- ===== src/Raft/Counting.antt =====
-- internal/raft/timer.go: the collection of the votes of an election.
use distributed_caching.Prelude.{
  ℕ, suc, ◌+◌, ◌≤◌, ◌≡◌, inl, inr, refl, ap, true, some, List, [], ◌∷◌, ◌&&◌, ltb, leb, Str,
  str_key, Int64, length, arith, Bool-cases,
}
use distributed_caching.Prelude.Sets.{elem, erase, elem-erase, erase-Distinct, length-erase}
use distributed_caching.Raft.{RaftNode, PeerConfig, become_follower, become_leader, catch_up}
use distributed_caching.Raft.Election.{majority, VoteResult, collect, is_candidate}
use distributed_caching.Raft.Votes.{Elected, Counts, CountsOf, NodeOk, catch_up-NodeOk}
use distributed_caching.Raft.System.{Election, Cast, ids, count}

length-ids : (ps : List PeerConfig) → length (ids ps) ≡ length ps
length-ids [] = refl
length-ids (p ∷ ps) = ap suc (length-ids ps)

module _ (members : List Str) where
  superseded-NodeOk :
      (cast : Cast) (i : Str) (n : RaftNode) (t : Int64)
      → ltb n.ps.current_term t ≡ true
      → NodeOk members cast i n
      → NodeOk members cast i (become_follower true t n)
  unfolding catch_up
  superseded-NodeOk cast i n t newer ok = rw newer at (catch_up-NodeOk members cast i n t ok)

  -- The supporters of a candidate and the peer whose vote makes the majority have elected it.
  won-Elected :
      (cast : Cast) (i p : Str) (n : RaftNode) (e : Election)
      → elem i members ≡ true
      → NodeOk members cast i n
      → Counts members cast i n e
      → elem p e.waiting ≡ true
      → cast p e.term ≡ some i
      → majority (length n.peers) ≤ e.votes + 1
      → is_candidate n.state ≡ true
      → Elected members cast i n.ps.current_term
  won-Elected cast i p n e m ok k w voted enough running = record {
    quorum = p ∷ e.supporters;
    distinct = (k.apart p w, k.distinct);
    within = λ q h. ground (arith, k.within q, k.peers q);
    voted = λ q h. ground (arith, k.voted q, k.current running);
    enough = omega (
      arith,
      enough,
      k.counted,
      length-ids n.peers,
      ap length ok.peers,
      length-erase i members m,
    );
  }

  become_leader-NodeOk :
      (cast : Cast) (i : Str) (n : RaftNode)
      → NodeOk members cast i n
      → Elected members cast i n.ps.current_term
      → NodeOk members cast i (become_leader n)
  unfolding become_leader
  become_leader-NodeOk cast i n ok elected = record {
    id = ok.id;
    peers = ok.peers;
    file = ok.file;
    ahead = ok.ahead;
    current = ok.current;
    named = ok.named;
    leads = λ l. elected;
  }

  -- A result that was sent keeps what the votes of the candidate rest on.
  pub collect-NodeOk :
      (cast : Cast) (i p : Str) (n : RaftNode) (e : Election) (r : VoteResult)
      → elem i members ≡ true
      → NodeOk members cast i n
      → Counts members cast i n e
      → elem p e.waiting ≡ true
      → (r.granted ≡ true → cast p e.term ≡ some i)
      → NodeOk members cast i (collect true (majority (length n.peers)) r e.votes n).0
  unfolding collect
  collect-NodeOk cast i p n e r m ok k w voted = elim (Bool-cases (ltb n.ps.current_term r.term)) [
    | inl newer ↦ rw (newer, collect) (superseded-NodeOk cast i n r.term newer ok)
    | inr here ↦ elim (Bool-cases r.granted) [
      | inr refused ↦ rw (here, refused, collect) ok
      | inl granted ↦
          elim (Bool-cases
            (leb (majority (length n.peers)) (e.votes + 1) && is_candidate n.state)) [
              | inr more ↦ rw (here, granted, more, collect) ok
              | inl enough ↦
                  rw (here, granted, enough, collect)
                    (become_leader-NodeOk cast i n ok (
                      won-Elected cast i p n e m ok k w (voted granted) (ground arith)
                        (ground arith)))
            ]
    ]
  ]

  granted-Counts :
      (cast : Cast) (i p : Str) (n : RaftNode) (e : Election)
      → Counts members cast i n e
      → elem p e.waiting ≡ true
      → cast p e.term ≡ some i
      → Counts members cast i n (record e {
        votes = e.votes + 1;
        waiting = erase p e.waiting;
        supporters = p ∷ e.supporters;
      })
  granted-Counts cast i p n e k w voted = record {
    distinct = (k.apart p w, k.distinct);
    within = λ q h. ground (arith, k.within q, k.peers q);
    voted = λ q h. ground (arith, k.voted q);
    counted = omega (arith, k.counted);
    waited = erase-Distinct p e.waiting k.waited;
    peers = λ q h. ground (arith, elem-erase p q e.waiting k.waited, k.peers q);
    apart = λ q h. ground (arith, elem-erase p q e.waiting k.waited, k.apart q);
    current = k.current;
  }

  refused-Counts :
      (cast : Cast) (i p : Str) (n : RaftNode) (e : Election)
      → Counts members cast i n e
      → Counts members cast i n (record e { waiting = erase p e.waiting })
  refused-Counts cast i p n e k = record {
    distinct = k.distinct;
    within = k.within;
    voted = k.voted;
    counted = k.counted;
    waited = erase-Distinct p e.waiting k.waited;
    peers = λ q h. ground (arith, elem-erase p q e.waiting k.waited, k.peers q);
    apart = λ q h. ground (arith, elem-erase p q e.waiting k.waited, k.apart q);
    current = k.current;
  }

  -- So does what is left of the election.
  pub collect-CountsOf :
      (cast : Cast) (i p : Str) (n : RaftNode) (e : Election) (r : VoteResult) (needed : ℕ)
      → Counts members cast i n e
      → elem p e.waiting ≡ true
      → (r.granted ≡ true → cast p e.term ≡ some i)
      → CountsOf members cast i
          (collect true needed r e.votes n).0
          (count e p r.granted (collect true needed r e.votes n).1)
  unfolding collect
  collect-CountsOf cast i p n e r needed k w voted =
      elim (Bool-cases (ltb n.ps.current_term r.term)) [
        | inl newer ↦ rw (newer, collect) tt
        | inr here ↦ elim (Bool-cases r.granted) [
          | inr refused ↦ rw (here, refused, collect) (refused-Counts cast i p n e k)
          | inl granted ↦ elim (Bool-cases (leb needed (e.votes + 1) && is_candidate n.state)) [
            | inr more ↦
                rw (here, granted, more, collect) (granted-Counts cast i p n e k w (voted granted))
            | inl enough ↦ rw (here, granted, enough, collect) tt
          ]
        ]
      ]

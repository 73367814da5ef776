-- ===== src/Raft/Moves.antt =====
-- internal/raft: the transitions of a node, and what its votes rest on.
use distributed_caching.Prelude.{
  ◌+◌, ◌^◌, ◌<◌, ◌≡◌, ◌≢◌, inl, inr, refl, ap, ◌∙◌, true, none, some, List, [], ◌∷◌, ltb, Str,
  str_key, Time, arith, Bool-cases, subst,
}
use distributed_caching.Prelude.Sets.{elem, Distinct, elem-erase, erase-Distinct}
use distributed_caching.Raft.{
  RaftNode, NodeState, follower, candidate, leader, load_state, save_state, new_raft_node,
  become_candidate, handle_append_entries, step_back, AppendEntriesRequest,
}
use distributed_caching.Raft.Election.{is_candidate}
use distributed_caching.Raft.Votes.{Grows, Counts, NodeOk, catch_up-NodeOk, catch_up-state}
use distributed_caching.Raft.System.{Cast, record_vote, ids}

candidate-step_back : (x : NodeState) → is_candidate (step_back x) ≡ true → is_candidate x ≡ true
candidate-step_back follower e = e
candidate-step_back candidate e = refl
candidate-step_back leader e = e

module _ (members : List Str) where
  pub step_back-NodeOk :
      (cast : Cast) (i : Str) (n : RaftNode) (l : Str) (now : Time)
      → NodeOk members cast i n
      → NodeOk members cast i
          (record n { state = step_back n.state; leader_id = l; last_heartbeat = now })
  step_back-NodeOk cast i n l now ok = record {
    id = ok.id;
    peers = ok.peers;
    file = ok.file;
    ahead = ok.ahead;
    current = ok.current;
    named = ok.named;
    leads = λ e. ok.leads (step_back-leader n.state e);
  }
    where
      step_back-leader : (x : NodeState) → step_back x ≡ leader → x ≡ leader
      step_back-leader follower e = cc
      step_back-leader candidate e = cc
      step_back-leader leader e = refl

  -- A heartbeat does the voting no harm.
  pub handle_append_entries-NodeOk :
      (cast : Cast) (i : Str) (n : RaftNode) (now : Time) (b : AppendEntriesRequest)
      → NodeOk members cast i n
      → NodeOk members cast i (handle_append_entries true now b n).0
  unfolding handle_append_entries
  handle_append_entries-NodeOk cast i n now b ok =
      elim (Bool-cases (ltb b.term n.ps.current_term)) [
        | inl old ↦ rw old ok
        | inr new ↦
            rw new (
              step_back-NodeOk cast i _ b.leader_id now
                (catch_up-NodeOk members cast i n b.term ok))
      ]

  pub handle_append_entries-state :
      (n : RaftNode) (now : Time) (b : AppendEntriesRequest)
      → is_candidate (handle_append_entries true now b n).0.state ≡ true
      → (is_candidate n.state ≡ true)
        × ((handle_append_entries true now b n).0.ps.current_term ≡ n.ps.current_term)
  unfolding handle_append_entries
  handle_append_entries-state n now b e = elim (Bool-cases (ltb b.term n.ps.current_term)) [
    | inl old ↦ (ground arith, ground arith)
    | inr new ↦
        let c = catch_up-state members n b.term (candidate-step_back _ (ground arith)) in
        (c.0, ground arith)
  ]

  -- The node starts from the file, which holds what it last knew.
  pub new_raft_node-NodeOk :
      (cast : Cast) (i : Str) (n m : RaftNode)
      → new_raft_node n.id n.peers n.file ≡ some m
      → NodeOk members cast i n
      → NodeOk members cast i m
  unfolding new_raft_node
  new_raft_node-NodeOk cast i n m e ok = subst (NodeOk members cast i) started (record {
    id = ok.id;
    peers = ok.peers;
    file = ok.file;
    ahead = ok.ahead;
    current = ok.current;
    named = ok.named;
    leads = λ l. absurd (ground arith);
  })
    where
      started :
          record n { state = follower; leader_id = []; leader_ch = none; last_heartbeat = 0 } ≡ m
      started = ap (λ o. elim o [ none ↦ n | some x ↦ x ]) (rw (ok.file, new_raft_node) at e)

  pub receive-NodeOk :
      (cast : Cast) (i : Str) (n : RaftNode)
      → NodeOk members cast i n
      → NodeOk members cast i (record n { leader_ch = none })
  receive-NodeOk cast i n ok = record {
    id = ok.id;
    peers = ok.peers;
    file = ok.file;
    ahead = ok.ahead;
    current = ok.current;
    named = ok.named;
    leads = ok.leads;
  }

  -- A new term has no votes of the node yet, so that its vote for itself takes none back.
  pub become_candidate-Grows :
      (cast : Cast) (i : Str) (n : RaftNode)
      → NodeOk members cast i n
      → n.ps.current_term + 1 < 2 ^ 64
      → Grows cast (record_vote cast i (become_candidate true n).ps.current_term i)
  unfolding become_candidate save_state
  become_candidate-Grows cast i n ok room p t c e = elim (str_key.dec i p) [
    | yes q ↦ ground (arith, ok.ahead t c (ap (λ x. cast x t) q ∙ e))
    | no q ↦ ground arith
  ]

  pub become_candidate-NodeOk :
      (cast : Cast) (i : Str) (n : RaftNode)
      → i ≢ []
      → NodeOk members cast i n
      → n.ps.current_term + 1 < 2 ^ 64
      → NodeOk members
          (record_vote cast i (become_candidate true n).ps.current_term i)
          i
          (become_candidate true n)
  unfolding become_candidate save_state load_state
  become_candidate-NodeOk cast i n named ok room = record {
    id = ok.id;
    peers = ok.peers;
    file = refl;
    ahead = λ t c e. ground (arith, ok.ahead t c);
    current = λ c e. ground (arith, ok.id);
    named = λ t c e. ground (arith, ok.named t c);
    leads = λ l. absurd (ground arith);
  }

  -- The election that it starts has its own vote, and waits for every other member.
  pub become_candidate-Counts :
      (cast : Cast) (i : Str) (n : RaftNode)
      → Distinct members
      → elem i members ≡ true
      → NodeOk members cast i n
      → Counts members
          (record_vote cast i (become_candidate true n).ps.current_term i)
          i
          (become_candidate true n)
          (record {
            term = (become_candidate true n).ps.current_term;
            votes = 1;
            waiting = ids (become_candidate true n).peers;
            supporters = i ∷ [];
          })
  unfolding become_candidate save_state
  become_candidate-Counts cast i n d m ok = record {
    distinct = (refl, tt);
    within = λ q e. ground (arith, m);
    voted = λ q e. ground arith;
    counted = refl;
    waited = rw ok.peers (erase-Distinct i members d);
    peers = λ q e. ground (arith, ap (elem q) ok.peers, elem-erase i q members d);
    apart = λ q e. ground (arith, ap (elem q) ok.peers, elem-erase i q members d);
    current = λ e. refl;
  }

-- ===== src/Raft/Ballots.antt =====
-- internal/raft: the grant of a vote, and the count of the votes.
use distributed_caching.Prelude.{
  ◌≡◌, ◌≢◌, ◌⊎◌, inl, inr, refl, ap, ◌∙◌, true, some, List, [], if◌then◌else◌, ◌&&◌, not, ltb, Str,
  str_key, Int64, same, arith, Bool-cases,
}
use distributed_caching.Raft.{
  RaftNode, load_state, save_state, become_follower, catch_up, vote, handle_request_vote,
  RequestVoteRequest, RequestVoteResponse,
}
use distributed_caching.Raft.Election.{is_candidate}
use distributed_caching.Raft.Votes.{Grows, NodeOk, Elected-Grows, catch_up-NodeOk}
use distributed_caching.Raft.System.{Cast, record_vote}

abbrev pub cast_after : Cast → Str → Str → RequestVoteResponse → Cast
cast_after cast p c r = if r.vote_granted then record_vote cast p r.term c else cast

module _ (members : List Str) where
  -- A transition of node `i` takes no vote back and casts none for others.
  pub record Moved (cast cast' : Cast) (i : Str) (n : RaftNode) : Type 0 where
    pub grows : Grows cast cast'
    pub ok : NodeOk members cast' i n
    pub others : (j : Str) → i ≢ j → (t : Int64) → cast' j t ≡ cast j t

  still : (cast : Cast) (i : Str) (n : RaftNode) → NodeOk members cast i n → Moved cast cast i n
  still cast i n ok = record { grows = λ p t c e. e; ok = ok; others = λ j h t. refl }

  grant-Moved :
      (cast : Cast) (p c : Str) (n : RaftNode)
      → c ≢ []
      → (n.ps.voted_for ≡ []) ⊎ (n.ps.voted_for ≡ c)
      → NodeOk members cast p n
      → Moved cast
          (record_vote cast p n.ps.current_term c)
          p
          (save_state true (record n { ps = record n.ps { voted_for = c } }))
  unfolding save_state load_state
  grant-Moved cast p c n named free ok = record {
    grows = grows;
    ok = record {
      id = ok.id;
      peers = ok.peers;
      file = refl;
      ahead = λ t d e. ground (arith, ok.ahead t d);
      current = λ d e. ground arith;
      named = λ t d e. ground (arith, ok.named t d);
      leads = λ l. Elected-Grows members cast _ p n.ps.current_term grows (ok.leads l);
    };
    others = λ j h t. ground arith;
  }
    where
      grows : Grows cast (record_vote cast p n.ps.current_term c)
      grows q t d e = elim (str_key.dec p q) [
        | yes same_node ↦
            let mine : cast p t ≡ some d = ap (λ x. cast x t) same_node ∙ e in
            ground (arith, mine, ok.named t d, ok.current d)
        | no other ↦ ground arith
      ]

  pub vote-Moved :
      (cast : Cast) (p c : Str) (n : RaftNode)
      → c ≢ []
      → NodeOk members cast p n
      → Moved cast (cast_after cast p c (vote true c n).1) p (vote true c n).0
  unfolding vote
  vote-Moved cast p c n named ok =
      elim (Bool-cases (not (same n.ps.voted_for []) && not (same n.ps.voted_for c))) [
        | inl taken ↦ rw (taken, vote) (still cast p n ok)
        | inr free ↦ rw (free, vote) (grant-Moved cast p c n named (ground arith) ok)
      ]

  -- The answer to a request for a vote keeps what the node's votes rest on.
  pub handle_request_vote-Moved :
      (cast : Cast) (p : Str) (req : RequestVoteRequest) (n : RaftNode)
      → req.candidate_id ≢ []
      → NodeOk members cast p n
      → Moved cast
          (cast_after cast p req.candidate_id (handle_request_vote true true req n).1)
          p
          (handle_request_vote true true req n).0
  unfolding handle_request_vote
  handle_request_vote-Moved cast p req n named ok =
      elim (Bool-cases (ltb req.term n.ps.current_term)) [
        | inl stale ↦ rw stale (still cast p n ok)
        | inr new ↦ rw new (
            vote-Moved cast p req.candidate_id _ named
              (catch_up-NodeOk members cast p n req.term ok))
      ]

  -- A vote is granted only for the term that was asked for.
  pub handle_request_vote-term :
      (req : RequestVoteRequest) (n : RaftNode)
      → (handle_request_vote true true req n).1.vote_granted ≡ true
      → (handle_request_vote true true req n).1.term ≡ req.term
  unfolding handle_request_vote vote catch_up become_follower save_state
  handle_request_vote-term req n e = ground arith

  pub handle_request_vote-state :
      (req : RequestVoteRequest) (n : RaftNode)
      → is_candidate (handle_request_vote true true req n).0.state ≡ true
      → (is_candidate n.state ≡ true)
        × ((handle_request_vote true true req n).0.ps.current_term ≡ n.ps.current_term)
  unfolding handle_request_vote vote catch_up become_follower save_state
  handle_request_vote-state req n e = ground arith

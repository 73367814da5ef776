-- ===== src/Raft/Votes.antt =====
-- internal/raft: what one node knows about the votes of its cluster.
use distributed_caching.Prelude.{
  ◌-◌, ◌≤◌, ◌≡◌, ◌≢◌, inl, inr, refl, sym, ◌∙◌, true, false, Option, none, some, List, [], ltb, Str,
  str_key, Int64, length, arith, Bool-cases,
}
use distributed_caching.Prelude.Sets.{elem, erase, Distinct, Within}
use distributed_caching.Raft.{RaftNode, leader, load_state, save_state, become_follower, catch_up}
use distributed_caching.Raft.Election.{majority, is_candidate}
use distributed_caching.Raft.System.{Election, Cast, ids}

-- No vote is taken back.
abbrev pub Grows : Cast → Cast → Type 0
Grows cast cast' = (p : Str) (t : Int64) (c : Str) → cast p t ≡ some c → cast' p t ≡ some c

module _ (members : List Str) where
  -- A majority of the members voted for the node in the term.
  pub record Elected (cast : Cast) (i : Str) (t : Int64) : Type 0 where
    pub quorum : List Str
    pub distinct : Distinct quorum
    pub within : Within quorum members
    pub voted : (q : Str) → elem q quorum ≡ true → cast q t ≡ some i
    pub enough : majority (length members - 1) ≤ length quorum

  -- The votes counted so far were cast for this election by the supporters, who are no longer
  -- waited for. While the node is a candidate, its term is that of the election.
  pub record Counts (cast : Cast) (i : Str) (n : RaftNode) (e : Election) : Type 0 where
    pub distinct : Distinct e.supporters
    pub within : Within e.supporters members
    pub voted : (q : Str) → elem q e.supporters ≡ true → cast q e.term ≡ some i
    pub counted : e.votes ≡ length e.supporters
    pub waited : Distinct e.waiting
    pub peers : Within e.waiting members
    pub apart : (q : Str) → elem q e.waiting ≡ true → elem q e.supporters ≡ false
    pub current : is_candidate n.state ≡ true → n.ps.current_term ≡ e.term

  abbrev pub CountsOf : Cast → Str → RaftNode → Option Election → Type 0
  CountsOf cast i n none = Unit
  CountsOf cast i n (some e) = Counts cast i n e

  pub record NodeOk (cast : Cast) (i : Str) (n : RaftNode) : Type 0 where
    pub id : n.id ≡ i
    pub peers : ids n.peers ≡ erase i members
    pub file : load_state n.file ≡ some n.ps
    pub ahead : (t : Int64) (c : Str) → cast i t ≡ some c → t ≤ n.ps.current_term
    pub current : (c : Str) → cast i n.ps.current_term ≡ some c → n.ps.voted_for ≡ c
    pub named : (t : Int64) (c : Str) → cast i t ≡ some c → c ≢ []
    pub leads : n.state ≡ leader → Elected cast i n.ps.current_term

  pub Elected-Grows :
      (cast cast' : Cast) (i : Str) (t : Int64)
      → Grows cast cast'
      → Elected cast i t
      → Elected cast' i t
  Elected-Grows cast cast' i t g e = record {
    quorum = e.quorum;
    distinct = e.distinct;
    within = e.within;
    voted = λ q m. g q t i (e.voted q m);
    enough = e.enough;
  }

  pub CountsOf-Grows :
      (cast cast' : Cast) (i : Str) (n : RaftNode) (o : Option Election)
      → Grows cast cast'
      → CountsOf cast i n o
      → CountsOf cast' i n o
  CountsOf-Grows cast cast' i n none g k = tt
  CountsOf-Grows cast cast' i n (some e) g k = record {
    distinct = k.distinct;
    within = k.within;
    voted = λ q m. g q e.term i (k.voted q m);
    counted = k.counted;
    waited = k.waited;
    peers = k.peers;
    apart = k.apart;
    current = k.current;
  }

  -- The node's own state may change without harm to its count, as long as it does not become a
  -- candidate of another term.
  pub CountsOf-node :
      (cast : Cast) (i : Str) (n n' : RaftNode) (o : Option Election)
      → (is_candidate n'.state ≡ true
          → (is_candidate n.state ≡ true) × (n'.ps.current_term ≡ n.ps.current_term))
      → CountsOf cast i n o
      → CountsOf cast i n' o
  CountsOf-node cast i n n' none f k = tt
  CountsOf-node cast i n n' (some e) f k = record {
    distinct = k.distinct;
    within = k.within;
    voted = k.voted;
    counted = k.counted;
    waited = k.waited;
    peers = k.peers;
    apart = k.apart;
    current = λ c. (f c).1 ∙ k.current (f c).0;
  }

  -- Votes of other nodes do not concern this one.
  pub NodeOk-Grows :
      (cast cast' : Cast) (i : Str) (n : RaftNode)
      → Grows cast cast'
      → ((t : Int64) → cast' i t ≡ cast i t)
      → NodeOk cast i n
      → NodeOk cast' i n
  NodeOk-Grows cast cast' i n g same_row ok = record {
    id = ok.id;
    peers = ok.peers;
    file = ok.file;
    ahead = λ t c e. ok.ahead t c (sym (same_row t) ∙ e);
    current = λ c e. ok.current c (sym (same_row n.ps.current_term) ∙ e);
    named = λ t c e. ok.named t c (sym (same_row t) ∙ e);
    leads = λ l. Elected-Grows cast cast' i n.ps.current_term g (ok.leads l);
  }

  pub catch_up-NodeOk :
      (cast : Cast) (i : Str) (n : RaftNode) (t : Int64)
      → NodeOk cast i n
      → NodeOk cast i (catch_up true t n)
  unfolding catch_up become_follower save_state load_state
  catch_up-NodeOk cast i n t ok = elim (Bool-cases (ltb n.ps.current_term t)) [
    | inl newer ↦
        rw (newer, catch_up)
          (record {
            id = ok.id;
            peers = ok.peers;
            file = refl;
            ahead = λ u c e. ground (arith, ok.ahead u c);
            current = λ c e. absurd (ground (arith, ok.ahead t c));
            named = ok.named;
            leads = λ l. absurd (ground arith);
          })
    | inr older ↦ rw (older, catch_up) ok
  ]

  pub catch_up-state :
      (n : RaftNode) (t : Int64)
      → is_candidate (catch_up true t n).state ≡ true
      → (is_candidate n.state ≡ true) × ((catch_up true t n).ps.current_term ≡ n.ps.current_term)
  unfolding catch_up become_follower save_state
  catch_up-state n t e = ground arith

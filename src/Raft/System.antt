-- ===== src/Raft/System.antt =====
-- internal/raft: a cluster of nodes and the messages between them, in any interleaving.
--
-- A message that was sent stays in the list of its kind: it may arrive late, more than once, or
-- never. Each step is one critical section of one node. `cast` is a history variable: who voted for
-- whom in which term; so are the `supporters` of an election. No step depends on them.
use distributed_caching.Prelude.{
  ℕ, ◌+◌, ◌<◌, ◌^◌, ◌≡◌, ◌⊎◌, Bool, true, Option, none, some, List, [], ◌∷◌, if◌then◌else◌, ◌==◌,
  Str, str_key, Int64, Time, same, length, map,
}
use distributed_caching.Prelude.Sets.{elem, erase}
use distributed_caching.Raft.{
  RaftNode, PeerConfig, new_raft_node, become_candidate, handle_request_vote, handle_append_entries,
  AppendEntriesRequest,
}
use distributed_caching.Raft.Election.{
  election_due, majority, VoteResult, failed, Outcome, superseded, won, counting, collect,
  heartbeat, heartbeat_answer,
}

-- An election between two results: its term, the votes counted, the peers still to be heard from.
pub record Election : Type 0 where
  pub term : Int64
  pub votes : ℕ
  pub waiting : List Str
  pub supporters : List Str

pub record Ask : Type 0 where
  pub candidate_id : Str
  pub term : Int64

pub record Reply : Type 0 where
  pub candidate_id : Str
  pub asked : Int64
  pub voter : Str
  pub result : VoteResult

abbrev pub Cast : Type 0
Cast = Str → Int64 → Option Str

pub record System : Type 0 where
  pub nodes : Str → RaftNode
  pub elections : Str → Option Election
  pub asks : List Ask
  pub replies : List Reply
  pub beats : List AppendEntriesRequest
  pub cast : Cast

abbrev pub In : {A : Type 0} → A → List A → Type 0
In a [] = ⊥
In a (x ∷ xs) = (a ≡ x) ⊎ In a xs

abbrev pub update : {A : Type 0} → (Str → A) → Str → A → Str → A
update f i x j = if same i j then x else f j

abbrev pub record_vote : Cast → Str → Int64 → Str → Cast
record_vote cast p t c q u = if same p q then (if t == u then some c else cast q u) else cast q u

abbrev pub ids : List PeerConfig → List Str
ids = map (λ p. p.id)

-- The election timer of `i` starts an election.
unfoldable pub do_timeout : Str → System → System
do_timeout i s =
    let n = become_candidate true (s.nodes i) in
    record s {
      nodes = update s.nodes i n;
      elections = update s.elections i (
          some (record {
            term = n.ps.current_term;
            votes = 1;
            waiting = ids n.peers;
            supporters = i ∷ [];
          }));
      asks = record { candidate_id = n.id; term = n.ps.current_term } ∷ s.asks;
      cast = record_vote s.cast i n.ps.current_term i;
    }

-- Node `p` answers a request for its vote.
unfoldable pub do_vote : Str → Ask → System → System
do_vote p a s =
    let (n, r) =
      handle_request_vote true true (record { term = a.term; candidate_id = a.candidate_id })
        (s.nodes p) in
    record s {
      nodes = update s.nodes p n;
      replies =
          record {
            candidate_id = a.candidate_id;
            asked = a.term;
            voter = p;
            result = record { granted = r.vote_granted; term = r.term };
          }
          ∷ s.replies;
      cast = if r.vote_granted then record_vote s.cast p r.term a.candidate_id else s.cast;
    }

-- What the candidate's election is after a result from `p`.
abbrev pub count : Election → Str → Bool → Outcome → Option Election
count e p granted superseded = none
count e p granted won = none
count e p granted (counting votes) = some (record e {
  votes = votes;
  waiting = erase p e.waiting;
  supporters = if granted then p ∷ e.supporters else e.supporters;
})

-- Candidate `i` takes the result of peer `p`.
unfoldable pub do_collect : Str → Str → Election → VoteResult → System → System
do_collect i p e r s =
    let (n, outcome) = collect true (majority (length (s.nodes i).peers)) r e.votes (s.nodes i) in
    record s {
      nodes = update s.nodes i n;
      elections = update s.elections i (count e p r.granted outcome);
    }

unfoldable pub do_beat : Str → Time → AppendEntriesRequest → System → System
do_beat p now b s = record s {
  nodes = update s.nodes p (handle_append_entries true now b (s.nodes p)).0;
}

module _ (members : List Str) where
  pub data Step (s : System) : System → Type 0 where
    -- The election loop runs one election at a time. A term has room for one more.
    timeout :
        (i : Str) (now : Time)
        → elem i members ≡ true
        → s.elections i ≡ none
        → election_due now (s.nodes i) ≡ true
        → (s.nodes i).ps.current_term + 1 < 2 ^ 64
        → Step s (do_timeout i s)
    vote : (p : Str) (a : Ask) → elem p members ≡ true → In a s.asks → Step s (do_vote p a s)
    take_result :
        (i p : Str) (e : Election) (r : VoteResult)
        → elem i members ≡ true
        → s.elections i ≡ some e
        → elem p e.waiting ≡ true
        → In (record { candidate_id = i; asked = e.term; voter = p; result = r }) s.replies
        → Step s (do_collect i p e r s)
    take_failure :
        (i p : Str) (e : Election)
        → elem i members ≡ true
        → s.elections i ≡ some e
        → elem p e.waiting ≡ true
        → Step s (do_collect i p e failed s)
    -- No peer is left to be heard from, and the election is lost.
    give_up :
        (i : Str) (e : Election)
        → elem i members ≡ true
        → s.elections i ≡ some e
        → e.waiting ≡ []
        → Step s (record s { elections = update s.elections i none })
    -- Between the test for leadership and the reading of the term the lock is given up, so that the
    -- sender need no longer be the leader.
    send_beat :
        (i : Str)
        → elem i members ≡ true
        → Step s (record s { beats = heartbeat (s.nodes i) ∷ s.beats })
    take_beat :
        (p : Str) (now : Time) (b : AppendEntriesRequest)
        → elem p members ≡ true
        → In b s.beats
        → Step s (do_beat p now b s)
    -- An answer to a heartbeat, whatever term it carries.
    take_answer :
        (i : Str) (term : Int64) (success : Bool)
        → elem i members ≡ true
        → Step s (record s {
          nodes =
              update s.nodes i
                (heartbeat_answer true (record { term = term; success = success }) (s.nodes i));
        })
    -- A node crashes and comes back with what its state file holds.
    restart :
        (i : Str) (n : RaftNode)
        → elem i members ≡ true
        → new_raft_node (s.nodes i).id (s.nodes i).peers (s.nodes i).file ≡ some n
        → Step s (record s { nodes = update s.nodes i n; elections = update s.elections i none })
    -- The channel of new leaders is read.
    receive :
        (i : Str)
        → elem i members ≡ true
        → Step s (record s { nodes = update s.nodes i (record (s.nodes i) { leader_ch = none }) })

  pub data Reach (s : System) : System → Type 0 where
    here : Reach s s
    next : {t u : System} → Reach s t → Step t u → Reach s u

-- ===== src/Raft/Safety.antt =====
-- internal/raft: the leaders of a term, over every order in which messages may arrive.
use distributed_caching.Prelude.{
  ◌+◌, ◌^◌, ◌<◌, ◌≡◌, ◌≢◌, inl, inr, refl, ap, sym, ◌∙◌, true, none, some, List, [], Str, str_key,
  Int64, int64, arith, subst,
}
use distributed_caching.Prelude.Sets.{elem, erase, Distinct, length-erase, shared_member}
use distributed_caching.Raft.{
  RaftNode, PeerConfig, leader, follower, absent, no_state, new_raft_node, load_state,
  become_candidate, save_state, RequestVoteRequest, RequestVoteResponse, handle_request_vote,
}
use distributed_caching.Raft.Election.{VoteResult, failed, heartbeat_answer}
use distributed_caching.Raft.Votes.{
  Grows, Elected, Counts, CountsOf, NodeOk, Elected-Grows, catch_up-NodeOk, catch_up-state,
}
use distributed_caching.Raft.Moves.{
  handle_append_entries-NodeOk, handle_append_entries-state, new_raft_node-NodeOk, receive-NodeOk,
  become_candidate-Grows, become_candidate-NodeOk, become_candidate-Counts,
}
use distributed_caching.Raft.Ballots.{
  Moved, handle_request_vote-Moved, handle_request_vote-term, handle_request_vote-state, cast_after,
}
use distributed_caching.Raft.Counting.{collect-NodeOk, collect-CountsOf}
use distributed_caching.Raft.System.{
  Election, Ask, Cast, System, In, ids, do_timeout, do_vote, do_collect, do_beat, Step, timeout,
  vote, take_result, take_failure, give_up, send_beat, take_beat, take_answer, restart, receive,
  Reach, here, next,
}
use distributed_caching.Raft.Invariant.{
  update-cases, IsValid, moved_nodes, moved_elections, kept_elections, still_cast, quiet-IsValid,
}

-- A cluster before its first step: every member is new, knows all others as its peers, and finds no
-- state file; nothing has been sent.
pub record Starts (members : List Str) (s : System) : Type 0 where
  pub distinct : Distinct members
  pub named : (i : Str) → elem i members ≡ true → i ≢ []
  pub peers : Str → List PeerConfig
  pub others : (i : Str) → elem i members ≡ true → ids (peers i) ≡ erase i members
  pub nodes :
      (i : Str) → elem i members ≡ true → new_raft_node i (peers i) absent ≡ some (s.nodes i)
  pub elections : (i : Str) → s.elections i ≡ none
  pub asks : s.asks ≡ []
  pub replies : s.replies ≡ []
  pub cast : (p : Str) (t : Int64) → s.cast p t ≡ none

cast_after_granted :
    (cast : Cast) (p c : Str) (t : Int64) (r : RequestVoteResponse)
    → r.vote_granted ≡ true
    → r.term ≡ t
    → cast_after cast p c r p t ≡ some c
cast_after_granted cast p c t r granted same_term = ground arith

module _ (members : List Str) (d : Distinct members)
    (named : (i : Str) → elem i members ≡ true → i ≢ []) where
  timeout-IsValid :
      (s : System) (i : Str)
      → IsValid members s
      → elem i members ≡ true
      → (s.nodes i).ps.current_term + 1 < 2 ^ 64
      → IsValid members (do_timeout i s)
  unfolding do_timeout become_candidate save_state
  timeout-IsValid s i v m room =
      let n = s.nodes i in
      let g = become_candidate-Grows members s.cast i n (v.nodes i m) room in
      let moved : Moved members s.cast _ i (become_candidate true n) = record {
        grows = g;
        ok = become_candidate-NodeOk members s.cast i n (named i m) (v.nodes i m) room;
        others = λ j h t. ground arith;
      } in
      record {
        nodes = moved_nodes members s i _ _ v moved;
        elections =
            moved_elections members s i _ _ _ v g
              (become_candidate-Counts members s.cast i n d m (v.nodes i m));
        asks = λ a h. elim h [
          | inl e ↦ λ nil. named i m (sym (v.nodes i m).id ∙ sym (ap (λ x. x.candidate_id) e) ∙ nil)
          | inr old ↦ v.asks a old
        ];
        replies = λ r h e. g r.voter r.asked r.candidate_id (v.replies r h e);
      }

  vote-IsValid :
      (s : System) (p : Str) (a : Ask)
      → IsValid members s
      → elem p members ≡ true
      → In a s.asks
      → IsValid members (do_vote p a s)
  unfolding do_vote
  vote-IsValid s p a v m sent =
      let req : RequestVoteRequest = record { term = a.term; candidate_id = a.candidate_id } in
      let resp = (handle_request_vote true true req (s.nodes p)).1 in
      let moved =
        handle_request_vote-Moved members s.cast p req (s.nodes p) (v.asks a sent) (v.nodes p m) in
      record {
        nodes = moved_nodes members s p _ _ v moved;
        elections =
            kept_elections members s p _ _ v moved.grows
              (handle_request_vote-state members req (s.nodes p));
        asks = v.asks;
        replies = λ r h e. elim h [
          | inl q ↦
              let yes_vote : resp.vote_granted ≡ true = sym (ap (λ x. x.result.granted) q) ∙ e in
              subst
                (λ x. cast_after s.cast p a.candidate_id resp x.voter x.asked ≡ some x.candidate_id)
                (sym q)
                (cast_after_granted s.cast p a.candidate_id a.term resp yes_vote
                  (handle_request_vote-term members req (s.nodes p) yes_vote))
          | inr old ↦ moved.grows r.voter r.asked r.candidate_id (v.replies r old e)
        ];
      }

  collect-IsValid :
      (s : System) (i p : Str) (e : Election) (r : VoteResult)
      → IsValid members s
      → elem i members ≡ true
      → s.elections i ≡ some e
      → elem p e.waiting ≡ true
      → (r.granted ≡ true → s.cast p e.term ≡ some i)
      → IsValid members (do_collect i p e r s)
  unfolding do_collect
  collect-IsValid s i p e r v m running w voted =
      let k : Counts members s.cast i (s.nodes i) e =
        subst (CountsOf members s.cast i (s.nodes i)) running (v.elections i m) in
      let ok = collect-NodeOk members s.cast i p (s.nodes i) e r m (v.nodes i m) k w voted in
      record {
        nodes = moved_nodes members s i s.cast _ v (still_cast members s i _ ok);
        elections =
            moved_elections members s i s.cast _ _ v (λ p t c h. h)
              (collect-CountsOf members s.cast i p (s.nodes i) e r _ k w voted);
        asks = v.asks;
        replies = v.replies;
      }

  step-IsValid : (s t : System) → IsValid members s → Step members s t → IsValid members t
  unfolding do_beat heartbeat_answer
  step-IsValid s _ v (timeout i now m idle due room) = timeout-IsValid s i v m room
  step-IsValid s _ v (vote p a m sent) = vote-IsValid s p a v m sent
  step-IsValid s _ v (take_result i p e r m running w sent) =
      collect-IsValid s i p e r v m running w (v.replies _ sent)
  step-IsValid s _ v (take_failure i p e m running w) =
      collect-IsValid s i p e failed v m running w (λ h. cc)
  step-IsValid s _ v (give_up i e m running done) = record {
    nodes = v.nodes;
    elections =
        update-cases (λ j o. elem j members ≡ true → CountsOf members s.cast j (s.nodes j) o)
          s.elections i none (λ _. tt) (λ j other. v.elections j);
    asks = v.asks;
    replies = v.replies;
  }
  step-IsValid s _ v (send_beat i m) = record {
    nodes = v.nodes;
    elections = v.elections;
    asks = v.asks;
    replies = v.replies;
  }
  step-IsValid s _ v (take_beat p now b m sent) =
      quiet-IsValid members s p _ v
        (handle_append_entries-NodeOk members s.cast p (s.nodes p) now b (v.nodes p m))
        (handle_append_entries-state members (s.nodes p) now b)
  step-IsValid s _ v (take_answer i term success m) =
      quiet-IsValid members s i _ v
        (catch_up-NodeOk members s.cast i (s.nodes i) term (v.nodes i m))
        (catch_up-state members (s.nodes i) term)
  step-IsValid s _ v (restart i n m started) =
      let ok = new_raft_node-NodeOk members s.cast i (s.nodes i) n started (v.nodes i m) in
      record {
        nodes = moved_nodes members s i s.cast n v (still_cast members s i n ok);
        elections = moved_elections members s i s.cast n none v (λ p t c h. h) tt;
        asks = v.asks;
        replies = v.replies;
      }
  step-IsValid s _ v (receive i m) =
      quiet-IsValid members s i _ v (receive-NodeOk members s.cast i (s.nodes i) (v.nodes i m))
        (λ c. (c, refl))

  step-Grows : (s t : System) → IsValid members s → Step members s t → Grows s.cast t.cast
  unfolding do_timeout do_vote do_collect do_beat
  step-Grows s _ v (timeout i now m idle due room) =
      become_candidate-Grows members s.cast i (s.nodes i) (v.nodes i m) room
  step-Grows s _ v (vote p a m sent) =
      (handle_request_vote-Moved members s.cast p
        (record { term = a.term; candidate_id = a.candidate_id }) (s.nodes p) (v.asks a sent)
        (v.nodes p m)).grows
  step-Grows s _ v (take_result i p e r m running w sent) = λ p t c h. h
  step-Grows s _ v (take_failure i p e m running w) = λ p t c h. h
  step-Grows s _ v (give_up i e m running done) = λ p t c h. h
  step-Grows s _ v (send_beat i m) = λ p t c h. h
  step-Grows s _ v (take_beat p now b m sent) = λ p t c h. h
  step-Grows s _ v (take_answer i term success m) = λ p t c h. h
  step-Grows s _ v (restart i n m started) = λ p t c h. h
  step-Grows s _ v (receive i m) = λ p t c h. h

  pub Reach-IsValid : (s t : System) → IsValid members s → Reach members s t → IsValid members t
  Reach-IsValid s _ v here = v
  Reach-IsValid s _ v (next {t} {u} r q) = step-IsValid t u (Reach-IsValid s t v r) q

Reach-Grows :
    (members : List Str) (d : Distinct members) (named : (i : Str) → elem i members ≡ true → i ≢ [])
    (s t : System)
    → IsValid members s
    → Reach members s t
    → Grows s.cast t.cast
Reach-Grows members d named s _ v here = λ p t c h. h
Reach-Grows members d named s _ v (next {t} {u} r q) = λ p x c h.
    step-Grows members d named t u (Reach-IsValid members d named s t v r) q p x c
      (Reach-Grows members d named s t v r p x c h)

new_node-NodeOk :
    (members : List Str) (cast : Cast) (i : Str) (peers : List PeerConfig) (n : RaftNode)
    → ids peers ≡ erase i members
    → ((t : Int64) → cast i t ≡ none)
    → new_raft_node i peers absent ≡ some n
    → NodeOk members cast i n
unfolding new_raft_node load_state
new_node-NodeOk members cast i peers n others none_cast e =
    subst (NodeOk members cast i) first (record {
      id = refl;
      peers = others;
      file = refl;
      ahead = λ t c h. absurd (ground (arith, none_cast t));
      current = λ c h. absurd (ground (arith, none_cast (int64 0)));
      named = λ t c h. absurd (ground (arith, none_cast t));
      leads = λ l. absurd (ground arith);
    })
  where
    first :
        record {
          id = i;
          peers = peers;
          state = follower;
          leader_id = [];
          ps = no_state;
          file = absent;
          leader_ch = none;
          last_heartbeat = 0;
        }
        ≡ n
    first = ap (λ o. elim o [ none ↦ n | some x ↦ x ]) e

Starts-IsValid : (members : List Str) (s : System) → Starts members s → IsValid members s
Starts-IsValid members s b = record {
  nodes = λ i m.
      new_node-NodeOk members s.cast i (b.peers i) (s.nodes i) (b.others i m) (b.cast i)
        (b.nodes i m);
  elections = λ i m. rw (b.elections i) tt;
  asks = λ a h. absurd (rw b.asks at h);
  replies = λ r h e. absurd (rw b.replies at h);
}

one_winner :
    (members : List Str) (cast : Cast) (i j : Str) (t : Int64)
    → elem i members ≡ true
    → Elected members cast i t
    → Elected members cast j t
    → i ≡ j
one_winner members cast i j t m a b =
    let (q, x, y) =
      shared_member a.quorum b.quorum members a.distinct b.distinct a.within b.within
        (omega (arith, a.enough, b.enough, length-erase i members m)) in
    ground (arith, a.voted q x, b.voted q y)

-- In a cluster that starts afresh and whose writes of state files succeed: if one member is a
-- leader at some moment, and one is a leader in the same term then or later, they are the same
-- node, whatever messages are lost, late or repeated and whatever nodes crash and restart.
pub leaders_agree :
    (members : List Str) (s t u : System) (i j : Str)
    → Starts members s
    → Reach members s t
    → Reach members t u
    → elem i members ≡ true
    → elem j members ≡ true
    → (t.nodes i).state ≡ leader
    → (u.nodes j).state ≡ leader
    → (t.nodes i).ps.current_term ≡ (u.nodes j).ps.current_term
    → i ≡ j
leaders_agree members s t u i j b r r' m k x y e =
    let v = Reach-IsValid members b.distinct b.named s t (Starts-IsValid members s b) r in
    let w = Reach-IsValid members b.distinct b.named t u v r' in
    one_winner members u.cast i j (t.nodes i).ps.current_term m
      (Elected-Grows members t.cast u.cast i _ (Reach-Grows members b.distinct b.named t u v r')
        ((v.nodes i m).leads x))
      (subst (Elected members u.cast j) (sym e) ((w.nodes j k).leads y))

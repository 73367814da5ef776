-- ===== src/CacheNode/Peers.antt =====
-- cmd/cachenode/main.go: the list of peers as text.
use distributed_caching.Prelude.{
  ℕ, ◌≡◌, ◌≢◌, refl, true, false, Option, none, some, List, [], ◌∷◌, ◌++◌, map, ◌==◌, Str, str_key,
  Str-discrete, same, arith, All, length, take, ltb, ap, ◌∙◌,
}
use distributed_caching.Proxy.CacheControl.{
  is_space, split_commas, trim_space, trim_left, trim_right,
}
use distributed_caching.Raft.{PeerConfig}
use distributed_caching.CacheNode.{index_byte, peer_id, parse_parts, parse_peers}

-- An ID, and a port if one is given.
pub record Address : Type 0 where
  pub id : Str
  pub port : Option Str

abbrev pub address_text : Str → Option Str → Str
address_text id none = id
address_text id (some port) = id ++ b':' ∷ port

-- What may stand between two commas: spaces, or an address with spaces around it.
pub data Part : Type 0 where
  blank : (spaces : Str) → Part
  peer_part : (before : Str) (address : Address) (after : Str) → Part

abbrev pub written : Part → Str
written (blank spaces) = spaces
written (peer_part before a after) = before ++ (address_text a.id a.port ++ after)

-- The peers that the parts name.
abbrev pub peers_in : List Part → List PeerConfig
peers_in [] = []
peers_in (blank spaces ∷ parts) = peers_in parts
peers_in (peer_part before a after ∷ parts) =
    record { id = a.id; addr = address_text a.id a.port } ∷ peers_in parts

abbrev pub IsBlank : Str → Type 0
IsBlank w = All (λ b. is_space b ≡ true) w

-- No space and no comma.
abbrev pub IsPlain : Str → Type 0
IsPlain t = All (λ b. (is_space b ≡ false) × ((b == b',') ≡ false)) t

abbrev pub IsPort : Option Str → Type 0
IsPort none = Unit
IsPort (some port) = IsPlain port

-- The ID is not empty and has no colon, and neither it nor the port has a space or a comma.
pub record IsAddress (a : Address) : Type 0 where
  pub nonempty : a.id ≢ []
  pub whole : All (λ b. (b == b':') ≡ false) a.id
  pub plain : IsPlain a.id
  pub port : IsPort a.port

abbrev pub IsPart : Part → Type 0
IsPart (blank spaces) = IsBlank spaces
IsPart (peer_part before a after) = IsBlank before × IsAddress a × IsBlank after

-- The parts with a comma between each two.
abbrev pub join_commas : Str → List Str → Str
join_commas a [] = a
join_commas a (b ∷ bs) = a ++ b',' ∷ join_commas b bs

abbrev IsWhole : Str → Type 0
IsWhole t = All (λ b. (b == b',') ≡ false) t

split_commas-whole : (a : Str) → IsWhole a → split_commas a ≡ a ∷ []
unfolding split_commas
split_commas-whole [] h = refl
split_commas-whole (b ∷ bs) h = rw (h.0, split_commas-whole bs h.1) refl

split_commas-append :
    (a rest : Str) → IsWhole a → split_commas (a ++ b',' ∷ rest) ≡ a ∷ split_commas rest
unfolding split_commas
split_commas-append [] rest h = refl
split_commas-append (b ∷ bs) rest h = rw (h.0, split_commas-append bs rest h.1) refl

-- The parts of a joined list are the list.
split_commas-join :
    (a : Str) (parts : List Str)
    → IsWhole a
    → All IsWhole parts
    → split_commas (join_commas a parts) ≡ a ∷ parts
split_commas-join a [] h hs = split_commas-whole a h
split_commas-join a (b ∷ bs) h hs =
    rw (split_commas-append a (join_commas b bs) h, split_commas-join b bs hs.0 hs.1) refl

All-append : (P : ℕ → Type 0) (s t : Str) → All P s → All P t → All P (s ++ t)
All-append P [] t h k = k
All-append P (b ∷ bs) t h k = (h.0, All-append P bs t h.1 k)

IsBlank-IsWhole : (w : Str) → IsBlank w → IsWhole w
IsBlank-IsWhole [] h = tt
IsBlank-IsWhole (b ∷ bs) h = (ground (arith, h.0), IsBlank-IsWhole bs h.1)

IsPlain-IsWhole : (t : Str) → IsPlain t → IsWhole t
IsPlain-IsWhole [] h = tt
IsPlain-IsWhole (b ∷ bs) h = (h.0.1, IsPlain-IsWhole bs h.1)

address_text-IsPlain :
    (id : Str) (port : Option Str) → IsPlain id → IsPort port → IsPlain (address_text id port)
address_text-IsPlain id none h k = h
address_text-IsPlain id (some port) h k = All-append _ id (b':' ∷ port) h ((refl, refl), k)

written-IsWhole : (part : Part) → IsPart part → IsWhole (written part)
written-IsWhole (blank spaces) h = IsBlank-IsWhole spaces h
written-IsWhole (peer_part before a after) (h, k, g) =
    All-append _ before (address_text a.id a.port ++ after) (IsBlank-IsWhole before h) (
      All-append _ (address_text a.id a.port) after
        (IsPlain-IsWhole _ (address_text-IsPlain a.id a.port k.plain k.port))
        (IsBlank-IsWhole after g))

map-written-IsWhole : (parts : List Part) → All IsPart parts → All IsWhole (map written parts)
map-written-IsWhole [] h = tt
map-written-IsWhole (p ∷ ps) h = (written-IsWhole p h.0, map-written-IsWhole ps h.1)

trim_left-blank : (w t : Str) → IsBlank w → trim_left (w ++ t) ≡ trim_left t
unfolding trim_left
trim_left-blank [] t h = refl
trim_left-blank (b ∷ bs) t h = rw h.0 (trim_left-blank bs t h.1)

trim_left-plain : (t s : Str) → IsPlain t → t ≢ [] → trim_left (t ++ s) ≡ t ++ s
unfolding trim_left
trim_left-plain [] s h n = absurd (n refl)
trim_left-plain (b ∷ bs) s h n = rw h.0.0 refl

trim_right-blank : (w : Str) → IsBlank w → trim_right w ≡ []
unfolding trim_right Str-discrete
trim_right-blank [] h = refl
trim_right-blank (b ∷ bs) h = rw (trim_right-blank bs h.1, h.0) refl

trim_right-plain : (t w : Str) → IsPlain t → IsBlank w → trim_right (t ++ w) ≡ t
unfolding trim_right
trim_right-plain [] w h k = trim_right-blank w k
trim_right-plain (b ∷ bs) w h k = rw (trim_right-plain bs w h.1 k, h.0.0) (ground arith)

trim_space-blank : (w : Str) → IsBlank w → trim_space w ≡ []
unfolding trim_left trim_right
trim_space-blank [] h = refl
trim_space-blank (b ∷ bs) h = rw h.0 (trim_space-blank bs h.1)

trim_space-plain :
    (before t after : Str)
    → IsBlank before
    → IsPlain t
    → t ≢ []
    → IsBlank after
    → trim_space (before ++ (t ++ after)) ≡ t
trim_space-plain before t after h k n g =
    ap trim_right (trim_left-blank before (t ++ after) h ∙ trim_left-plain t after k n)
    ∙ trim_right-plain t after k g

index_byte-none : (t : Str) → All (λ b. (b == b':') ≡ false) t → index_byte b':' t ≡ none
unfolding index_byte
index_byte-none [] h = refl
index_byte-none (b ∷ bs) h = rw (h.0, index_byte-none bs h.1) refl

index_byte-append :
    (t rest : Str)
    → All (λ b. (b == b':') ≡ false) t
    → index_byte b':' (t ++ b':' ∷ rest) ≡ some (length t)
unfolding index_byte
index_byte-append [] rest h = refl
index_byte-append (b ∷ bs) rest h = rw (h.0, index_byte-append bs rest h.1) refl

take-append : (t rest : Str) → take (length t) (t ++ rest) ≡ t
take-append [] rest = refl
take-append (b ∷ bs) rest = ap (λ s. b ∷ s) (take-append bs rest)

length-nonempty : (t : Str) → t ≢ [] → ltb 0 (length t) ≡ true
length-nonempty [] n = absurd (n refl)
length-nonempty (b ∷ bs) n = ground arith

peer_id-address_text :
    (id : Str) (port : Option Str)
    → id ≢ []
    → All (λ b. (b == b':') ≡ false) id
    → peer_id (address_text id port) ≡ id
unfolding peer_id
peer_id-address_text id none n h = rw (index_byte-none id h, peer_id) refl
peer_id-address_text id (some port) n h =
    rw (index_byte-append id port h, peer_id, length-nonempty id n) (take-append id (b':' ∷ port))

address_text-nonempty : (id : Str) (port : Option Str) → id ≢ [] → address_text id port ≢ []
address_text-nonempty [] port n = absurd (n refl)
address_text-nonempty (b ∷ bs) none n = n
address_text-nonempty (b ∷ bs) (some port) n = λ e. cc

same_nothing : same {K = Str} [] [] ≡ true
same_nothing = ground arith

same-nil : (a : Str) → a ≢ [] → same a [] ≡ false
same-nil a h = ground arith

parse_parts-written :
    (parts : List Part) → All IsPart parts → parse_parts (map written parts) ≡ peers_in parts
unfolding parse_parts
parse_parts-written [] hs = refl
parse_parts-written (blank spaces ∷ parts) hs =
    rw (trim_space-blank spaces hs.0, same_nothing, parse_parts-written parts hs.1) refl
parse_parts-written (peer_part before a after ∷ parts) ((h, k, g), hs) =
    let text = address_text a.id a.port in
    let n : text ≢ [] = address_text-nonempty a.id a.port k.nonempty in
    rw
      (
        trim_space-plain before text after h (address_text-IsPlain a.id a.port k.plain k.port) n g,
        same-nil text n,
        peer_id-address_text a.id a.port k.nonempty k.whole,
        parse_parts-written parts hs,
      )
      refl

parse_peers-nil : parse_peers [] ≡ parse_parts (split_commas [])
unfolding parse_peers parse_parts split_commas trim_left trim_right Str-discrete
parse_peers-nil = refl

-- No text at all is read like one of spaces.
parse_peers-parts : (t : Str) → parse_peers t ≡ parse_parts (split_commas t)
unfolding parse_peers
parse_peers-parts [] = parse_peers-nil
parse_peers-parts (b ∷ bs) = rw (same-nil (b ∷ bs) (λ e. cc)) refl

-- `parsePeers` reads a text whose parts between commas are each either spaces or an address with
-- spaces around it: it gives the peers of the addresses, in order, and nothing for the other parts.
-- An address is an ID that is not empty and has no colon, alone or followed by a colon and a port,
-- and neither has a space or a comma. The peer has this ID, and the whole address.
pub parse_peers-join_commas :
    (part : Part) (parts : List Part)
    → IsPart part
    → All IsPart parts
    → parse_peers (join_commas (written part) (map written parts)) ≡ peers_in (part ∷ parts)
parse_peers-join_commas part parts h hs =
    parse_peers-parts (join_commas (written part) (map written parts))
    ∙ ap parse_parts (
        split_commas-join (written part) (map written parts) (written-IsWhole part h)
          (map-written-IsWhole parts hs))
    ∙ parse_parts-written (part ∷ parts) (h, hs)

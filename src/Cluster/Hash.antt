-- ===== src/Cluster/Hash.antt =====
-- internal/cluster/ring.go: the positions on the ring. `hash/fnv` and the `%d` of `fmt` belong to
-- the standard library and are modelled by what they compute.
use Prim.Native.Nat.{bit_xor}
use distributed_caching.Prelude.{
  ℕ, zero, suc, ◌+◌, ◌*◌, ◌/◌, ◌%◌, ◌^◌, ◌<◌, ◌≡◌, refl, [], ◌∷◌, ◌++◌, Str, codes, ltb,
  if◌then◌else◌, arith,
}

-- 32-bit FNV-1a: the loop over the bytes.
unfoldable pub fnv1a : ℕ → Str → ℕ
fnv1a h [] = h
fnv1a h (b ∷ bs) = fnv1a (bit_xor h b * 16_777_619 % 2 ^ 32) bs

unfoldable pub hash_key : Str → ℕ
unfolding fnv1a
hash_key key = fnv1a 2_166_136_261 key

-- The decimal digits of a number, on as many rounds as the number says at most.
unfoldable pub digits : ℕ → ℕ → Str
digits zero n = []
digits (suc fuel) n =
    let rest = digits fuel (n / 10) in
    if ltb n 10 then (b'0' + n) ∷ [] else rest ++ (b'0' + n % 10) ∷ []

-- `fmt.Sprintf("%s-%d", nodeID, i)`
unfoldable pub token_name : Str → ℕ → Str
unfolding digits
token_name node_id i = node_id ++ b'-' ∷ digits (i + 1) i

fnv1a-lt : (h : ℕ) (bs : Str) → h < 2 ^ 32 → fnv1a h bs < 2 ^ 32
unfolding fnv1a
fnv1a-lt h [] lt = lt
fnv1a-lt h (b ∷ bs) lt = fnv1a-lt (bit_xor h b * 16_777_619 % 2 ^ 32) bs (omega arith)

-- Every position is a uint32.
pub hash_key-lt : (key : Str) → hash_key key < 2 ^ 32
unfolding hash_key
hash_key-lt key = fnv1a-lt 2_166_136_261 key (omega arith)

-- The reference values of FNV-1a for the empty string and for "a".
hash_key_examples : (hash_key [] ≡ 0x811c9dc5) × (hash_key (codes "a") ≡ 0xe40c292c)
unfolding hash_key
hash_key_examples = (refl, refl)

token_name_example : token_name (codes "node1") 149 ≡ codes "node1-149"
unfolding token_name
token_name_example = refl

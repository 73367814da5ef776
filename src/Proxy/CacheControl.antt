-- ===== src/Proxy/CacheControl.antt =====
-- internal/proxy/proxy.go: the Cache-Control header. The functions of `strings` and `strconv` belong
-- to the standard library; they are modelled on the bytes of an ASCII header.
use distributed_caching.Prelude.{
  ℕ, ◌+◌, ◌-◌, ◌*◌, ◌^◌, Bool, true, false, ◌&&◌, Option, none, some, List, [], ◌∷◌, if◌then◌else◌,
  ◌==◌, ltb, leb, Str, str_key, codes, same, Duration, Int64, int64, scale64, second, seconds,
}

-- `strings.ToLower`
abbrev pub lower_byte : ℕ → ℕ
lower_byte b = if leb b'A' b && leb b b'Z' then b + 32 else b

unfoldable pub to_lower : Str → Str
to_lower [] = []
to_lower (b ∷ bs) = lower_byte b ∷ to_lower bs

-- `strings.HasPrefix(s, prefix)`
unfoldable pub has_prefix : Str → Str → Bool
has_prefix s [] = true
has_prefix [] (p ∷ ps) = false
has_prefix (b ∷ bs) (p ∷ ps) = (b == p) && has_prefix bs ps

-- `strings.TrimPrefix` where the prefix is there
unfoldable pub drop_prefix : Str → Str → Str
drop_prefix s [] = s
drop_prefix [] (p ∷ ps) = []
drop_prefix (b ∷ bs) (p ∷ ps) = drop_prefix bs ps

-- `strings.Contains(s, sub)`
unfoldable pub has_substring : Str → Str → Bool
has_substring [] sub = has_prefix [] sub
has_substring (b ∷ bs) sub =
    let rest = has_substring bs sub in if has_prefix (b ∷ bs) sub then true else rest

-- `strings.TrimSpace`
abbrev pub is_space : ℕ → Bool
is_space b = if b == 32 then true else leb 9 b && leb b 13

unfoldable pub trim_left : Str → Str
trim_left [] = []
trim_left (b ∷ bs) = let rest = trim_left bs in if is_space b then rest else b ∷ bs

unfoldable pub trim_right : Str → Str
trim_right [] = []
trim_right (b ∷ bs) =
    let rest = trim_right bs in if same rest [] && is_space b then [] else b ∷ rest

abbrev pub trim_space : Str → Str
trim_space s = trim_right (trim_left s)

-- `strings.Split(s, ",")`
abbrev pub push_front : ℕ → List Str → List Str
push_front b [] = (b ∷ []) ∷ []
push_front b (p ∷ ps) = (b ∷ p) ∷ ps

unfoldable pub split_commas : Str → List Str
split_commas [] = [] ∷ []
split_commas (b ∷ bs) =
    let rest = split_commas bs in if b == b',' then [] ∷ rest else push_front b rest

-- `strconv.Atoi`: an optional sign and at least one digit, in the range of an int
unfoldable pub digits_value : ℕ → Str → Option ℕ
digits_value acc [] = some acc
digits_value acc (b ∷ bs) =
    let rest = digits_value (acc * 10 + (b - b'0')) bs in
    if leb b'0' b && leb b b'9' then rest else none

abbrev pub unsigned : Str → Option ℕ
unsigned [] = none
unsigned (b ∷ bs) = digits_value 0 (b ∷ bs)

abbrev pub positive : Option ℕ → Option Int64
positive none = none
positive (some v) = if ltb v (2 ^ 63) then some (2 ^ 63 + v) else none

abbrev pub negative : Option ℕ → Option Int64
negative none = none
negative (some v) = if leb v (2 ^ 63) then some (2 ^ 63 - v) else none

unfoldable pub atoi : Str → Option Int64
atoi [] = none
atoi (b ∷ bs) =
    if b == b'-'
    then negative (unsigned bs)
    else if b == b'+'
    then positive (unsigned bs)
    else positive (unsigned (b ∷ bs))

-- 5 minutes
abbrev pub default_cache_ttl : Duration
default_cache_ttl = seconds 300

-- The directives that prevent caching.
abbrev pub forbids : Str → Bool
forbids lower =
    if has_substring lower (codes "no-store")
    then true
    else if has_substring lower (codes "no-cache")
    then true
    else has_substring lower (codes "private")

-- The loop over the parts.
unfoldable pub find_max_age : List Str → Bool × Duration
find_max_age [] = (true, default_cache_ttl)
find_max_age (part ∷ parts) =
    let rest = find_max_age parts in
    let q = to_lower (trim_space part) in
    if has_prefix q (codes "max-age=")
    then elim (atoi (trim_space (drop_prefix q (codes "max-age=")))) [
      | none ↦ rest
      | some n ↦ if n == int64 0 then (false, int64 0) else (true, scale64 n second)
    ]
    else rest

unfoldable pub parse_cache_control : Str → Bool × Duration
parse_cache_control header =
    if same header []
    then (true, default_cache_ttl)
    else if forbids (to_lower header)
    then (false, int64 0)
    else find_max_age (split_commas header)

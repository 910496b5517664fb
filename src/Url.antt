-- ===== src/Url.antt =====
-- server/UrlUtils.cc: splitting a request target, decoding it, and parsing its query.

pub mod Decoding
pub mod Targets
pub mod Queries
use cdfs.Base.{
  ℕ, zero, suc, ◌+◌, ◌-◌, ◌*◌, Bool, not, ◌&&◌, ◌||◌, Option, none, some, [], ◌∷◌, ◌++◌, leb, ◌==◌,
  if◌then◌else◌, Bytes, codes, length, take, drop, is_empty, find_char, Result, ok, throws,
  url_parse_exception, ◌>>=◌, Dict, insert,
}

-- `splitTarget`, first step: the fragment is cut off.
unfoldable pub without_fragment : Bytes → Bytes
without_fragment target = elim (find_char b'#' target) [
  | none ↦ target
  | some fragment_pos ↦ take fragment_pos target
]

abbrev pub split_at_query : Bytes → Option ℕ → Bytes × Bytes
split_at_query target none = (target, [])
split_at_query target (some query_pos) = (take query_pos target, drop (query_pos + 1) target)

-- `splitTarget`: the path and the query. Its last test stores an empty path in an empty path.
unfoldable pub split_target : Bytes → Bytes × Bytes
split_target target =
    let rest = without_fragment target in split_at_query rest (find_char b'?' rest)

-- `std::isxdigit` in the "C" locale
unfoldable pub isxdigit : ℕ → Bool
isxdigit c = (leb b'0' c && leb c b'9') || (leb b'a' c && leb c b'f') || (leb b'A' c && leb c b'F')

unfoldable pub hex_to_val : ℕ → ℕ
hex_to_val c =
    if leb b'0' c && leb c b'9'
    then c - b'0'
    else if leb b'a' c && leb c b'f'
    then 10 + (c - b'a')
    else if leb b'A' c && leb c b'F'
    then 10 + (c - b'A')
    else 0

abbrev incomplete : Bytes
incomplete = codes "Invalid URL encode: incomplete % sequence (e.g. %2)"

-- The value of the two digits behind a `%`.
unfoldable pub hex_escape : Bytes → Result ℕ
unfolding isxdigit hex_to_val
hex_escape (hex1 ∷ hex2 ∷ s) =
    if not (isxdigit hex1) || not (isxdigit hex2)
    then throws (url_parse_exception (codes "Invalid URL encode: " ++ b'%' ∷ hex1 ∷ hex2 ∷ []))
    else ok (hex_to_val hex1 * 16 + hex_to_val hex2)
hex_escape _ = throws (url_parse_exception incomplete)

abbrev pub push_back : ℕ → Result Bytes → Result Bytes
push_back c rest = rest >>= λ s. ok (c ∷ s)

-- The loop of `decode` from some index on. The first argument counts the characters that
-- `i += 2` passes over before the next round.
unfoldable pub decode_from : ℕ → Bytes → Result Bytes
unfolding hex_escape
decode_from n [] = ok []
decode_from (suc n) (c ∷ s) = decode_from n s
decode_from zero (c ∷ s) =
    let escape = (hex_escape s >>= λ val. push_back val (decode_from 2 s)) in
    let next = decode_from 0 s in
    if c == b'+' then push_back b' ' next else if c == b'%' then escape else push_back c next

unfoldable pub decode : Bytes → Result Bytes
unfolding decode_from
decode str = decode_from 0 str

abbrev pub Params : Type 0
Params = Dict Bytes

-- The key and the value of one `key=value` of a query. A key before `=` is not decoded.
unfoldable pub query_pair : Bytes → Result (Bytes × Bytes)
query_pair pair = elim (find_char b'=' pair) [
  | none ↦ decode pair >>= λ key. ok (key, [])
  | some pos ↦ decode (drop (pos + 1) pair) >>= λ value. ok (take pos pair, value)
]

-- One round of the loop of `parseQuery` on the text up to the next `&`.
unfoldable pub put_pair : Bytes → Params → Result Params
put_pair pair params =
    if is_empty pair then ok params else query_pair pair >>= λ kv. ok (insert kv.0 kv.1 params)

-- The loop of `parseQuery` on what stands from `start` on. Every round goes on behind an `&`, so
-- the length of the query bounds the rounds.
unfoldable pub parse_query_from : ℕ → Bytes → Params → Result Params
parse_query_from zero query params = ok params
parse_query_from (suc fuel) query params =
    if is_empty query then ok params else elim (find_char b'&' query) [
      | none ↦ put_pair query params
      | some end ↦ put_pair (take end query) params >>= λ params'.
          parse_query_from fuel (drop (end + 1) query) params'
    ]

unfoldable pub parse_query : Bytes → Result Params
parse_query query = parse_query_from (length query) query []

-- ===== src/Url/Queries.antt =====
-- What `UrlUtils::parseQuery` makes of a query.
use cdfs.Base.{
  ℕ, zero, suc, ◌+◌, ◌/◌, ◌%◌, ◌<◌, ◌≤◌, ◌≡◌, refl, sym, ap, ◌∙◌, ◌≢◌, inl, inr, true, false,
  Option, none, some, List, [], ◌∷◌, ◌++◌, arith, ◌==◌, if◌then◌else◌, Bool-cases, Option-cases,
  Bytes, bytes_eq, All, All-append, Avoids, length, take, drop, is_empty, find_char,
  find_char-append, find_char-eq-none, find_char-eq-some, take-length-append,
  drop-length-append_cons, length-drop, Result, ok, throws, ◌>>=◌, lookup, insert, lookup-insert,
}
use cdfs.Util.{to_hex}
use cdfs.Url.{Params, query_pair, put_pair, parse_query_from, parse_query}
use cdfs.Url.Decoding.{is_unreserved, percent_encode, decode-percent_encode}

abbrev push_head : ℕ → List Bytes → List Bytes
push_head c [] = (c ∷ []) ∷ []
push_head c (x ∷ xs) = (c ∷ x) ∷ xs

-- The texts between the `&` signs, in order.
unfoldable pub pieces : Bytes → List Bytes
pieces [] = [] ∷ []
pieces (c ∷ s) = let rest = pieces s in if c == b'&' then [] ∷ rest else push_head c rest

unfoldable pub put_pairs : List Bytes → Params → Result Params
put_pairs [] params = ok params
put_pairs (x ∷ xs) params = put_pair x params >>= put_pairs xs

pieces-single : (s : Bytes) → find_char b'&' s ≡ none → pieces s ≡ s ∷ []
unfolding pieces find_char
pieces-single [] h = refl
pieces-single (c ∷ s) h = ground (arith, pieces-single s)

pieces-append : (x s : Bytes) → Avoids b'&' x → pieces (x ++ b'&' ∷ s) ≡ x ∷ pieces s
unfolding pieces
pieces-append [] s h = refl
pieces-append (c ∷ x) s (p, h) = ground (arith, pieces-append x s h)

>>=-ok : (m : Result Params) → (m >>= put_pairs []) ≡ m
unfolding put_pairs
>>=-ok (ok a) = refl
>>=-ok (throws e) = refl

put_pairs-single : (x : Bytes) (params : Params) → put_pairs (x ∷ []) params ≡ put_pair x params
unfolding put_pairs
put_pairs-single x params = >>=-ok (put_pair x params)

put_pairs_empty :
    (fuel : ℕ) (params : Params) → parse_query_from fuel [] params ≡ put_pairs (pieces []) params
unfolding parse_query_from put_pairs pieces put_pair
put_pairs_empty zero params = refl
put_pairs_empty (suc fuel) params = refl

pieces-find :
    (s : Bytes) (n : ℕ) → find_char b'&' s ≡ some n → pieces s ≡ take n s ∷ pieces (drop (n + 1) s)
pieces-find s n e =
    let (avoids, same) = find_char-eq-some b'&' s n e in
    let one : n + 1 ≡ suc n = omega arith in
    rw one (ap pieces same ∙ pieces-append (take n s) (drop (suc n) s) avoids)

>>=-cong :
    (m : Result Params) {f g : Params → Result Params}
    → ((a : Params) → f a ≡ g a)
    → (m >>= f) ≡ (m >>= g)
>>=-cong (ok a) h = h a
>>=-cong (throws e) h = refl

-- Enough fuel gives the fold over the pieces.
parse_query_from-eq-put_pairs :
    (fuel : ℕ) (query : Bytes) (params : Params)
    → length query ≤ fuel
    → parse_query_from fuel query params ≡ put_pairs (pieces query) params
unfolding parse_query_from put_pairs
parse_query_from-eq-put_pairs fuel [] params h = put_pairs_empty fuel params
parse_query_from-eq-put_pairs zero (c ∷ s) params h = absurd (omega arith)
parse_query_from-eq-put_pairs (suc fuel) (c ∷ s) params h =
    elim (Option-cases (find_char b'&' (c ∷ s))) [
      | inl e ↦
          rw (pieces-single (c ∷ s) e)
            (rw (e, parse_query_from) (sym (put_pairs-single (c ∷ s) params)))
      | inr (n, e) ↦ rw (pieces-find (c ∷ s) n e) (
          rw (e, parse_query_from)
            (>>=-cong (put_pair (take n (c ∷ s)) params) (λ params'.
              parse_query_from-eq-put_pairs fuel (drop (n + 1) (c ∷ s)) params'
                (omega (arith, h, length-drop (n + 1) (c ∷ s))))))
    ]

-- For every query, the loop of `parseQuery` ends within its bound, and puts the texts between the
-- `&` signs into the map one after the other, the first failure ending it.
parse_query-eq-put_pairs : (query : Bytes) → parse_query query ≡ put_pairs (pieces query) []
unfolding parse_query
parse_query-eq-put_pairs query = parse_query_from-eq-put_pairs (length query) query [] (omega arith)

abbrev pub render_pair : Bytes × Bytes → Bytes
render_pair (k, v) = k ++ b'=' ∷ percent_encode v

-- The query text of a list of keys and values.
unfoldable pub render : List (Bytes × Bytes) → Bytes
render [] = []
render (kv ∷ []) = render_pair kv
render (kv ∷ next ∷ kvs) = render_pair kv ++ b'&' ∷ render (next ∷ kvs)

-- The value of the last pair with the key.
unfoldable pub last_value : Bytes → List (Bytes × Bytes) → Option Bytes
last_value k [] = none
last_value k ((j, v) ∷ kvs) = elim (last_value k kvs) [
  | some w ↦ some w
  | none ↦ if bytes_eq j k then some v else none
]

-- A key that stands for itself in a query, and a value of bytes.
abbrev pub IsPlainPair : Bytes × Bytes → Type 0
IsPlainPair (k, v) = Avoids b'&' k × Avoids b'=' k × All (λ c. c < 256) v

put_all : List (Bytes × Bytes) → Params → Params
put_all [] d = d
put_all ((k, v) ∷ kvs) d = put_all kvs (insert k v d)

abbrev or_else : Option Bytes → Option Bytes → Option Bytes
or_else none o = o
or_else (some v) o = some v

lookup-put_all :
    (k : Bytes) (kvs : List (Bytes × Bytes)) (d : Params)
    → lookup k (put_all kvs d) ≡ or_else (last_value k kvs) (lookup k d)
unfolding put_all last_value
lookup-put_all k [] d = refl
lookup-put_all k ((j, v) ∷ kvs) d =
    ground (arith, lookup-put_all k kvs (insert j v d), lookup-insert j k v d)

Avoids-to_hex : (v : ℕ) → v < 16 → to_hex v ≢ b'&'
unfolding to_hex
Avoids-to_hex v h = ground arith

unreserved_no_ampersand : (c : ℕ) → is_unreserved c ≡ true → c ≢ b'&'
unfolding is_unreserved
unreserved_no_ampersand c h = ground arith

Avoids-percent_encode : (v : Bytes) → All (λ c. c < 256) v → Avoids b'&' (percent_encode v)
unfolding percent_encode
Avoids-percent_encode [] h = tt
Avoids-percent_encode (c ∷ v) (lt, h) = elim (Bool-cases (is_unreserved c)) [
  | inl u ↦ rw u (unreserved_no_ampersand c u, Avoids-percent_encode v h)
  | inr u ↦ rw u (
    (λ e. omega arith),
    (
      Avoids-to_hex (c / 16) (omega arith),
      (Avoids-to_hex (c % 16) (omega arith), Avoids-percent_encode v h),
    ),
  )
]

query_pair-render_pair :
    (k v : Bytes) → IsPlainPair (k, v) → query_pair (render_pair (k, v)) ≡ ok (k, v)
unfolding query_pair
query_pair-render_pair k v (a, b, h) =
    rw (find_char-append b'=' k (percent_encode v) b, query_pair)
      (rw (take-length-append k (b'=' ∷ percent_encode v))
        (rw (drop-length-append_cons k b'=' (percent_encode v)) (rw (decode-percent_encode v h))))

render_pair_not_empty : (k v : Bytes) → is_empty (render_pair (k, v)) ≡ false
render_pair_not_empty [] v = refl
render_pair_not_empty (c ∷ k) v = refl

put_pair-render_pair :
    (k v : Bytes) (d : Params)
    → IsPlainPair (k, v)
    → put_pair (render_pair (k, v)) d ≡ ok (insert k v d)
unfolding put_pair
put_pair-render_pair k v d h = rw (render_pair_not_empty k v) (rw (query_pair-render_pair k v h))

Avoids-render_pair : (k v : Bytes) → IsPlainPair (k, v) → Avoids b'&' (render_pair (k, v))
Avoids-render_pair k v (a, b, h) =
    All-append (λ c. c ≢ b'&') k (b'=' ∷ percent_encode v) a
      ((λ e. omega arith), Avoids-percent_encode v h)

put_pairs_nothing : (d : Params) → put_pairs (pieces []) d ≡ ok d
unfolding put_pairs pieces put_pair
put_pairs_nothing d = refl

or_else-none : (o : Option Bytes) → or_else o none ≡ o
or_else-none none = refl
or_else-none (some v) = refl

lookup-put_all_empty :
    (k : Bytes) (kvs : List (Bytes × Bytes)) → lookup k (put_all kvs []) ≡ last_value k kvs
unfolding lookup
lookup-put_all_empty k kvs = lookup-put_all k kvs [] ∙ or_else-none (last_value k kvs)

put_pairs-render :
    (kvs : List (Bytes × Bytes)) (d : Params)
    → All IsPlainPair kvs
    → put_pairs (pieces (render kvs)) d ≡ ok (put_all kvs d)
unfolding render put_all put_pairs
put_pairs-render [] d h = put_pairs_nothing d
put_pairs-render ((k, v) ∷ []) d (p, h) =
    rw
      (pieces-single (render_pair (k, v))
        (find_char-eq-none b'&' (render_pair (k, v)) (Avoids-render_pair k v p)))
      (rw (put_pair-render_pair k v d p))
put_pairs-render ((k, v) ∷ next ∷ kvs) d (p, h) =
    rw (pieces-append (render_pair (k, v)) (render (next ∷ kvs)) (Avoids-render_pair k v p))
      (rw (put_pair-render_pair k v d p) (put_pairs-render (next ∷ kvs) (insert k v d) h))

-- Parsing the query text of keys that hold neither `&` nor `=`, and values of bytes, succeeds, and
-- each key is then mapped to the value of its last pair, decoded; a key without a pair is absent.
pub parse_query-render :
    (kvs : List (Bytes × Bytes))
    → All IsPlainPair kvs
    → (d : Params) × (parse_query (render kvs) ≡ ok d)
      × ((k : Bytes) → lookup k d ≡ last_value k kvs)
parse_query-render kvs h = (
  put_all kvs [],
  parse_query-eq-put_pairs (render kvs) ∙ put_pairs-render kvs [] h,
  λ k. lookup-put_all_empty k kvs,
)

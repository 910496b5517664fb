-- ===== src/Router/Choice.antt =====
-- Which route answers a request.
use mathlib.Core.List.{Memᴰ}
use cdfs.Base.{
  codes, drop, ◌≤◌, ◌≡◌, refl, ◌⊎◌, inl, inr, true, false, none, some, List, [], ◌∷◌, arith, ltb,
  Bool-cases, Option-cases, Bytes, length, All, starts_with, find_str, length-le_of_starts_with,
  find_str_of_starts_with, Result, ok, throws, Exception, ◌>>=◌,
}
use cdfs.Util.{verb_eq, verb_to_string}
use cdfs.Url.{Params, split_target, parse_query}
use cdfs.Json.{Json}
use cdfs.Context.{
  StringRequest, StringResponse, HttpContext, Status, not_found_error, error, make_response,
}
use cdfs.Router.{
  PrefixRouteEntry, Router, find_route, is_found_first, Outcome, called, bad_function_call, sent,
  not_found, context, run_prefix_route, dispatch_prefix, call_route, route_request,
}
use cdfs.Router.Exact.{Exact, find_route-Exact}
use cdfs.Router.Order.{IsSorted}

starts_with_of_found : (p s : Bytes) → find_str p s ≡ some 0 → starts_with p s ≡ true
unfolding find_str
starts_with_of_found p [] e = ground arith
starts_with_of_found p (b ∷ s) e = ground arith

-- The test `find(prefix) != 0` of the source asks whether the path starts with the prefix.
is_found_first-eq-starts_with : (p s : Bytes) → is_found_first p s ≡ starts_with p s
unfolding is_found_first
is_found_first-eq-starts_with p s = elim (Bool-cases (starts_with p s)) [
  | inl t ↦ ground (arith, find_str_of_starts_with p s)
  | inr f ↦ ground (arith, starts_with_of_found p s)
]

module _ {ℓ} {H : Type ℓ} where
  -- A prefix route fits a request by its method and its prefix.
  pub record Fits (req : StringRequest) (raw_path : Bytes) (route : PrefixRouteEntry H)
      : Type 0 where
    pub same_method : verb_eq req.method route.method ≡ true
    pub has_prefix : starts_with route.prefix raw_path ≡ true

  -- No entry that fits has a longer prefix.
  abbrev pub IsLongest :
      StringRequest → Bytes → PrefixRouteEntry H → List (PrefixRouteEntry H) → Type 0
  IsLongest req raw_path route routes =
      All (λ y. Fits req raw_path y → length y.prefix ≤ length route.prefix) routes

  IsLongest-of_bound :
      (req : StringRequest) (raw_path : Bytes) (route : PrefixRouteEntry H)
      (routes : List (PrefixRouteEntry H))
      → All (λ y. length y.prefix ≤ length route.prefix) routes
      → IsLongest req raw_path route routes
  IsLongest-of_bound req raw_path route [] h = tt
  IsLongest-of_bound req raw_path route (y ∷ ys) (p, h) =
      ((λ f. p), IsLongest-of_bound req raw_path route ys h)

Result-cases :
    (r : Result Params) → ((e : Exception) × (r ≡ throws e)) ⊎ ((p : Params) × (r ≡ ok p))
Result-cases (throws e) = inl (e, refl)
Result-cases (ok p) = inr (p, refl)

-- The context that a handler is called with: the request, the names of its method and its path,
-- the query, what of the path stands behind the prefix, and no form yet.
abbrev pub call_context : StringRequest → Bytes → Params → Bytes → HttpContext
call_context req raw_path params suffix = record {
  req = req;
  method = verb_to_string req.method;
  path = raw_path;
  query = params;
  path_suffix = suffix;
  cached_form = none;
}

-- The answer where no route fits.
pub record IsNotFound (req : StringRequest) (response : StringResponse) : Type 0 where
  pub status : response.status ≡ Status.not_found
  pub version : response.version ≡ req.version
  pub keep_alive : response.keep_alive ≡ req.keep_alive
  pub body : response.body ≡ codes "404 Not Found - Powered by Boost.Beast"
  pub content_length : response.content_length ≡ length response.body

not_found-IsNotFound :
    (beast_version : Bytes) (req : StringRequest) → IsNotFound req (not_found beast_version req)
unfolding not_found
not_found-IsNotFound beast_version req = record {
  status = refl;
  version = refl;
  keep_alive = refl;
  body = refl;
  content_length = refl;
}

module _ {ℓ} {H : Type ℓ} (dump : Json → Result Bytes) where
  -- An answer with the status 404, or the exception of its JSON text.
  abbrev pub Answers404 : Result (Outcome H) → Type 0
  Answers404 (ok (sent response)) = response.status ≡ Status.not_found
  Answers404 (ok (called handler ctx)) = ⊥
  Answers404 (ok bad_function_call) = ⊥
  Answers404 (throws e) = (document : Json) × (dump document ≡ throws e)

module _ {ℓ} (H : Type ℓ) (dump : Json → Result Bytes) where
  Answers404-error :
      (ctx : HttpContext) (msg : Bytes)
      → Answers404 {H = H} dump (not_found_error dump ctx msg >>= λ response. ok (sent response))
  unfolding not_found_error error make_response
  Answers404-error ctx msg = by_text _ (dump _) refl
    where
      by_text :
          (document : Json) (r : Result Bytes)
          → dump document ≡ r
          → Answers404 {H = H} dump (
              r
              >>= (λ content.
                  Result.ok (make_response ctx content (codes "application/json") Status.not_found))
              >>= λ response. ok (sent response))
      by_text document (ok content) e = refl
      by_text document (throws why) e = (document, e)

module _ {ℓ} {H : Type ℓ} (dump : Json → Result Bytes) (beast_version : Bytes) where
  -- The outcome of the loop over the prefix routes: that of a listed entry that fits and has the
  -- longest prefix of those, whose handler is called, or the answer 404 where it has no handler or
  -- none fits.
  pub data PrefixRouted (req : StringRequest) (raw_path : Bytes) (params : Params)
      (routes : List (PrefixRouteEntry H)) : Result (Outcome H) → Type ℓ where
    longest :
        (route : PrefixRouteEntry H) (handler : H)
        → Memᴰ route routes
        → Fits req raw_path route
        → IsLongest req raw_path route routes
        → route.handler ≡ some handler
        → PrefixRouted req raw_path params routes (
            ok (
              called handler
                (call_context req raw_path params (drop (length route.prefix) raw_path))))
    empty :
        {r : Result (Outcome H)} (route : PrefixRouteEntry H)
        → Memᴰ route routes
        → Fits req raw_path route
        → IsLongest req raw_path route routes
        → route.handler ≡ none
        → Answers404 dump r
        → PrefixRouted req raw_path params routes r
    nothing :
        {response : StringResponse}
        → All (λ y. ¬ (Fits req raw_path y)) routes
        → IsNotFound req response
        → PrefixRouted req raw_path params routes (ok (sent response))

  -- What a route that fits does.
  run_prefix_route-PrefixRouted :
      (req : StringRequest) (raw_path : Bytes) (params : Params) (route : PrefixRouteEntry H)
      (routes : List (PrefixRouteEntry H))
      → Memᴰ route routes
      → Fits req raw_path route
      → IsLongest req raw_path route routes
      → PrefixRouted req raw_path params routes
          (run_prefix_route dump beast_version req raw_path params route)
  unfolding run_prefix_route
  run_prefix_route-PrefixRouted req raw_path params route routes m f l =
      elim (Option-cases route.handler) [
        | inr (handler, h) ↦ rw (h, run_prefix_route) (longest route handler m f l h)
        | inl h ↦
            rw (h, run_prefix_route)
              (empty route m f l h (
                Answers404-error H dump
                  (context req raw_path params (drop (length route.prefix) raw_path))
                  (codes "Internal Server Error")))
      ]

  skip_route :
      {req : StringRequest} {raw_path : Bytes} {params : Params} {route : PrefixRouteEntry H}
      {routes : List (PrefixRouteEntry H)} {r : Result (Outcome H)}
      → ¬ (Fits req raw_path route)
      → PrefixRouted req raw_path params routes r
      → PrefixRouted req raw_path params (route ∷ routes) r
  skip_route h (longest x handler m f l e) =
      longest x handler (Memᴰ.tail m) f ((λ g. absurd (h g)), l) e
  skip_route h (empty x m f l e a) = empty x (Memᴰ.tail m) f ((λ g. absurd (h g)), l) e a
  skip_route h (nothing n r) = nothing (h, n) r

  dispatch_prefix-PrefixRouted :
      (req : StringRequest) (raw_path : Bytes) (params : Params)
      (routes : List (PrefixRouteEntry H))
      → IsSorted routes
      → PrefixRouted req raw_path params routes
          (dispatch_prefix dump beast_version req raw_path params routes)
  unfolding dispatch_prefix
  dispatch_prefix-PrefixRouted req raw_path params [] h =
      nothing tt (not_found-IsNotFound beast_version req)
  dispatch_prefix-PrefixRouted req raw_path params (route ∷ routes) (p, h) =
      let ih = dispatch_prefix-PrefixRouted req raw_path params routes h in
      elim (Bool-cases (verb_eq req.method route.method)) [
        | inr other ↦ rw other (skip_route (λ f. cc (f.same_method, other)) ih)
        | inl same ↦ elim (Bool-cases (starts_with route.prefix raw_path)) [
          | inr differs ↦ rw same (
              rw (is_found_first-eq-starts_with route.prefix raw_path)
                (rw differs (skip_route (λ f. cc (f.has_prefix, differs)) ih)))
          | inl fits ↦
              let le = length-le_of_starts_with route.prefix raw_path fits in
              let inside : ltb (length raw_path) (length route.prefix) ≡ false = ground arith in
              rw same (
                rw (is_found_first-eq-starts_with route.prefix raw_path) (
                  rw (fits, inside)
                    (run_prefix_route-PrefixRouted req raw_path params route _ (Memᴰ.head refl)
                      (record { same_method = same; has_prefix = fits })
                      ((λ f. omega arith), IsLongest-of_bound req raw_path route routes p))))
        ]
      ]

  -- How a request is routed.
  pub data Routed (router : Router H) (req : StringRequest) : Result (Outcome H) → Type ℓ where
    bad_query :
        {e : Exception}
        → parse_query (split_target req.target).1 ≡ throws e
        → Routed router req (throws e)
    exact :
        {params : Params} {handler : H}
        → parse_query (split_target req.target).1 ≡ ok params
        → Exact req.method (split_target req.target).0 router.routers (some (some handler))
        → Routed router req
            (ok (called handler (call_context req (split_target req.target).0 params [])))
    exact_empty :
        {params : Params}
        → parse_query (split_target req.target).1 ≡ ok params
        → Exact req.method (split_target req.target).0 router.routers (some none)
        → Routed router req (ok bad_function_call)
    by_prefix :
        {params : Params} {r : Result (Outcome H)}
        → parse_query (split_target req.target).1 ≡ ok params
        → Exact req.method (split_target req.target).0 router.routers none
        → PrefixRouted req (split_target req.target).0 params router.prefix_routes r
        → Routed router req r

  -- Where the prefix routes are in the order of falling length, `dispatch` routes every request so:
  -- a query that cannot be decoded throws, whatever the routes; otherwise the handler of an exact
  -- route that is stored for the method and the path is called with the request, its path, its query and no
  -- suffix, or throws where it is empty; otherwise the handler of a prefix route that fits and has
  -- the longest prefix of those that fit is called, with what stands behind the prefix, or is
  -- answered for with status 404, or the exception of the JSON text, where it is empty; and where
  -- none fits, the answer has status 404 and the text of `not_found`.
  pub route_request-Routed :
      (router : Router H) (req : StringRequest)
      → IsSorted router.prefix_routes
      → Routed router req (route_request dump beast_version router req)
  unfolding route_request call_route
  route_request-Routed router req h =
      let path = (split_target req.target).0 in
      let exactly = find_route-Exact req.method path router.routers in
      elim (Result-cases (parse_query (split_target req.target).1)) [
        | inl (e, bad) ↦ rw (bad, route_request) (bad_query bad)
        | inr (params, good) ↦
            elim (Option-cases (find_route req.method (split_target req.target).0 router.routers)) [
              | inl gone ↦
                  rw (good, route_request)
                    (rw gone (
                      by_prefix good (rw gone at exactly) (
                        dispatch_prefix-PrefixRouted req (split_target req.target).0 params
                          router.prefix_routes h)))
              | inr (none, found) ↦
                  rw (good, route_request) (rw found (exact_empty good (rw found at exactly)))
              | inr (some handler, found) ↦
                  rw (good, route_request) (rw found (exact good (rw found at exactly)))
            ]
      ]

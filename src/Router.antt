-- ===== src/Router.antt =====
-- server/Router.h and Router.cc: exact routes, prefix routes, and the dispatch of a request.
-- A handler is a value of a type `H` that the router stores and calls; `none` is an empty
-- `std::function`.
pub mod Order
pub mod Choice
pub mod Exact
use mathlib.Core.List.{foldl}
use cdfs.Base.{
  ℕ, zero, suc, ◌+◌, ◌%◌, ◌^◌, Bool, true, false, not, ◌&&◌, Option, none, some, List, [], ◌∷◌,
  ◌++◌, ltb, ◌==◌, if◌then◌else◌, Bytes, bytes_eq, codes, length, drop, find_str, insert, Result,
  ok, throws, ◌>>=◌,
}
use cdfs.Util.{Verb, verb_to_string, verb_eq}
use cdfs.Url.{Params, split_target, parse_query}
use cdfs.Json.{Json}
use cdfs.Context.{StringRequest, StringResponse, Status, HttpContext, not_found_error}

-- An entry of `routers_`, a map from a method and a path.
pub record RouteEntry {ℓ} (H : Type ℓ) : Type ℓ where
  pub method : Verb
  pub path : Bytes
  pub handler : Option H

pub record PrefixRouteEntry {ℓ} (H : Type ℓ) : Type ℓ where
  pub method : Verb
  pub prefix : Bytes
  pub handler : Option H

pub record Router {ℓ} (H : Type ℓ) : Type ℓ where
  pub routers : List (RouteEntry H)
  pub prefix_routes : List (PrefixRouteEntry H)

module _ {ℓ} {H : Type ℓ} where
  abbrev pub is_key : Verb → Bytes → RouteEntry H → Bool
  is_key method path e = verb_eq e.method method && bytes_eq e.path path

  -- `routers_[{method, path}] = handler`
  unfoldable pub set_route : Verb → Bytes → Option H → List (RouteEntry H) → List (RouteEntry H)
  set_route method path handler [] = record { method = method; path = path; handler = handler } ∷ []
  set_route method path handler (e ∷ es) =
      if is_key method path e
      then record e { handler = handler } ∷ es
      else e ∷ set_route method path handler es

  -- `routers_.find({method, path})`, the stored handler
  unfoldable pub find_route : Verb → Bytes → List (RouteEntry H) → Option (Option H)
  find_route method path [] = none
  find_route method path (e ∷ es) =
      if is_key method path e then some e.handler else find_route method path es

  unfoldable pub add_route : Verb → Bytes → Option H → Router H → Router H
  add_route method path handler router = record router {
    routers = set_route method path handler router.routers;
  }

  -- One step of an insertion sort by falling prefix length: behind the entries that are as long.
  unfoldable pub sort_insert :
      PrefixRouteEntry H → List (PrefixRouteEntry H) → List (PrefixRouteEntry H)
  sort_insert e [] = e ∷ []
  sort_insert e (x ∷ xs) =
      if ltb (length x.prefix) (length e.prefix) then e ∷ x ∷ xs else x ∷ sort_insert e xs

  -- `std::sort` with the comparison of `add_prefix`. The standard leaves the order of entries of
  -- equal length open; this is the insertion sort that the common libraries use on short vectors.
  unfoldable pub sort_routes : List (PrefixRouteEntry H) → List (PrefixRouteEntry H)
  sort_routes routes = foldl (λ sorted e. sort_insert e sorted) [] routes

  unfoldable pub add_prefix : Verb → Bytes → Option H → Router H → Router H
  add_prefix method prefix handler router = record router {
    prefix_routes = sort_routes (
        router.prefix_routes
        ++ record { method = method; prefix = prefix; handler = handler } ∷ []);
  }

-- What a dispatch comes to: a handler is called with a context, or the router answers itself, or
-- an empty handler of an exact route is called, which throws `std::bad_function_call`.
pub data Outcome {ℓ} (H : Type ℓ) : Type ℓ where
  called : H → HttpContext → Outcome H
  sent : StringResponse → Outcome H
  bad_function_call : Outcome H

unfoldable pub call_route {ℓ} : {H : Type ℓ} → HttpContext → Option H → Outcome H
call_route ctx none = bad_function_call
call_route ctx (some handler) = called handler ctx

-- `Router::not_found`; `beast_version` is the text BOOST_BEAST_VERSION_STRING
unfoldable pub not_found : Bytes → StringRequest → StringResponse
not_found beast_version req =
    let body = codes "404 Not Found - Powered by Boost.Beast" in
    record {
      status = Status.not_found;
      version = req.version;
      keep_alive = req.keep_alive;
      fields =
          insert (codes "Content-Type") (codes "text/html")
            (insert (codes "Server") beast_version []);
      body = body;
      content_length = length body;
    }

-- `raw_path.find(prefix) == 0`
unfoldable pub is_found_first : Bytes → Bytes → Bool
is_found_first prefix raw_path = elim (find_str prefix raw_path) [ none ↦ false | some n ↦ n == 0 ]

-- The context of a call: `dispatch` parses no form.
abbrev pub context : StringRequest → Bytes → Params → Bytes → HttpContext
context req raw_path query_params suffix = record {
  req = req;
  method = verb_to_string req.method;
  path = raw_path;
  query = query_params;
  path_suffix = suffix;
  cached_form = none;
}

module _ {ℓ} {H : Type ℓ} (dump : Json → Result Bytes) (beast_version : Bytes) where
  -- What a route that matches does with the request.
  unfoldable pub run_prefix_route :
      StringRequest → Bytes → Params → PrefixRouteEntry H → Result (Outcome H)
  run_prefix_route req raw_path query_params route =
      let ctx = context req raw_path query_params (drop (length route.prefix) raw_path) in
      elim route.handler [
        | none ↦ not_found_error dump ctx (codes "Internal Server Error") >>= λ response.
            ok (sent response)
        | some handler ↦ ok (called handler ctx)
      ]

  -- The loop over `prefix_routes_`.
  unfoldable pub dispatch_prefix :
      StringRequest → Bytes → Params → List (PrefixRouteEntry H) → Result (Outcome H)
  dispatch_prefix req raw_path query_params [] = ok (sent (not_found beast_version req))
  dispatch_prefix req raw_path query_params (route ∷ routes) =
      let rest = dispatch_prefix req raw_path query_params routes in
      if not (verb_eq req.method route.method)
      then rest
      else if not (is_found_first route.prefix raw_path)
      then rest
      else if ltb (length raw_path) (length route.prefix)
      then rest
      else run_prefix_route req raw_path query_params route

  -- `dispatch` behind the counting: the query is parsed before any route is looked at.
  unfoldable pub route_request : Router H → StringRequest → Result (Outcome H)
  route_request router req =
      let target = split_target req.target in
      parse_query target.1 >>= λ query_params.
      elim (find_route req.method target.0 router.routers) [
        | none ↦ dispatch_prefix req target.0 query_params router.prefix_routes
        | some handler ↦ ok (call_route (context req target.0 query_params []) handler)
      ]

  -- `dispatch`: the counter of requests, and the outcome
  unfoldable pub dispatch : Router H → StringRequest → ℕ → ℕ × Result (Outcome H)
  dispatch router req total_requests = ((total_requests + 1) % 2 ^ 64, route_request router req)

-- ===== src/Tests/Routes.antt =====
-- A router with two prefix routes and one exact route.
use mathlib.Core.List.{Perm}
use cdfs.Base.{
  ℕ, ◌≡◌, refl, true, some, [], ◌∷◌, arith, Bytes, bytes_eq, codes, find_char, find_str,
  starts_with, lookup, insert, Result, ok,
}
use cdfs.Util.{get, post, verb_to_string}
use cdfs.Url.{
  decode_from, decode, split_target, without_fragment, query_pair, put_pair, parse_query_from,
  parse_query,
}
use cdfs.Json.{Json}
use cdfs.Context.{StringRequest}
use cdfs.Router.{
  PrefixRouteEntry, Router, set_route, find_route, add_route, sort_insert, sort_routes, add_prefix,
  is_found_first, called, context, call_route, run_prefix_route, dispatch_prefix, route_request,
}
use cdfs.Router.Order.{IsSorted, add_prefix-IsSorted}
use cdfs.Router.Choice.{Routed, route_request-Routed}

routes : Unit {0}
unfolding set_route find_route add_route sort_insert sort_routes add_prefix is_found_first
    call_route run_prefix_route dispatch_prefix route_request decode_from decode split_target
    without_fragment query_pair put_pair parse_query_from parse_query verb_to_string bytes_eq
    find_char find_str starts_with lookup insert
routes = tt

abbrev pub dump : Json → Result Bytes
dump document = ok (codes "{}")

abbrev empty_router : Router ℕ
empty_router = record { routers = []; prefix_routes = [] }

abbrev entry : Bytes → ℕ → PrefixRouteEntry ℕ
entry prefix handler = record { method = get; prefix = prefix; handler = some handler }

abbrev pub router : Router ℕ
router = record {
  routers = record { method = post; path = codes "/upload"; handler = some 7 } ∷ [];
  prefix_routes = entry (codes "/download/") 2 ∷ entry (codes "/") 1 ∷ [];
}

abbrev pub request : StringRequest
request = record {
  method = get;
  target = codes "/download/a.txt?attname=b";
  version = 11;
  keep_alive = true;
  content_type = [];
  body = [];
}

route_tests :
    (add_prefix get (codes "/download/") (some 2) (add_prefix get (codes "/") (some 1) empty_router)
      ≡ record router { routers = [] })
    × (route_request dump [] router request
        ≡ ok (
            called 2 (
              context request
                (codes "/download/a.txt")
                ((codes "attname", codes "b") ∷ [])
                (codes "a.txt"))))
unfolding routes
route_tests = (refl, refl)

add_prefix-IsSorted_example :
    IsSorted (add_prefix get (codes "/list/") (some 3) router).prefix_routes
    × Perm
        (add_prefix get (codes "/list/") (some 3) router).prefix_routes
        (entry (codes "/list/") 3 ∷ router.prefix_routes)
add_prefix-IsSorted_example = add_prefix-IsSorted get (codes "/list/") (some 3) router

sorted : IsSorted router.prefix_routes
sorted = ((omega arith, tt), (tt, tt))

route_request-Routed_example : Routed dump [] router request (route_request dump [] router request)
route_request-Routed_example = route_request-Routed dump [] router request sorted

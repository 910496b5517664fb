-- ===== src/Router/Exact.antt =====
-- The map of exact routes: `routers_` of server/Router.h.
use mathlib.Core.List.{Memᴰ}
use cdfs.Base.{
  ◌≡◌, refl, inl, inr, Bool, true, false, ◌&&◌, Option, none, some, List, [], ◌∷◌, arith,
  if◌then◌else◌, Bool-cases, Bytes, bytes_eq, bytes_eq_iff, All,
}
use cdfs.Util.{Verb, verb_eq}
use cdfs.Router.{RouteEntry, Router, is_key, set_route, find_route, add_route}

if_same {κ} :
    {A : Type κ} (b : Bool) (x y z : A)
    → (if b then x else z) ≡ (if b then x else if b then y else z)
if_same true x y z = refl
if_same false x y z = refl

module _ {ℓ} {H : Type ℓ} where
  is_key_of_same :
      (method m : Verb) (path p : Bytes) (e : RouteEntry H)
      → is_key method path e ≡ true
      → is_key m p e ≡ (verb_eq method m && bytes_eq path p)
  is_key_of_same method m path p e h =
      ground (arith, bytes_eq_iff e.path path, bytes_eq_iff e.path p, bytes_eq_iff path p)

  is_key_of_query :
      (method m : Verb) (path p : Bytes) (e : RouteEntry H)
      → (verb_eq method m && bytes_eq path p) ≡ true
      → is_key m p e ≡ is_key method path e
  is_key_of_query method m path p e h =
      ground (arith, bytes_eq_iff e.path path, bytes_eq_iff e.path p, bytes_eq_iff path p)

  find_route-set_route :
      (method m : Verb) (path p : Bytes) (handler : Option H) (es : List (RouteEntry H))
      → find_route m p (set_route method path handler es)
        ≡ (if verb_eq method m && bytes_eq path p then some handler else find_route m p es)
  unfolding find_route set_route
  find_route-set_route method m path p handler [] = refl
  find_route-set_route method m path p handler (e ∷ es) =
      let ih = find_route-set_route method m path p handler es in
      elim (Bool-cases (is_key method path e)) [
        | inl here ↦ rw here (
            rw (is_key_of_same method m path p e here) (
              if_same (verb_eq method m && bytes_eq path p) (some handler) (some e.handler)
                (find_route m p es)))
        | inr other ↦ rw other (elim (Bool-cases (verb_eq method m && bytes_eq path p)) [
          | inl same ↦ rw (is_key_of_query method m path p e same) (rw other (rw ih (rw same)))
          | inr differs ↦ rw ih (rw differs)
        ])
      ]

  -- The map of exact routes: what was stored last under a method and a path is found there, and
  -- every other entry is as before.
  find_route-add_route :
      (method m : Verb) (path p : Bytes) (handler : Option H) (router : Router H)
      → find_route m p (add_route method path handler router).routers ≡ (
          if verb_eq method m && bytes_eq path p
          then some handler
          else find_route m p router.routers)
  unfolding add_route
  find_route-add_route method m path p handler router =
      find_route-set_route method m path p handler router.routers

  -- An exact route is for a method and a path.
  pub record IsFor (method : Verb) (path : Bytes) (route : RouteEntry H) : Type 0 where
    pub same_method : verb_eq route.method method ≡ true
    pub same_path : route.path ≡ path

  -- What the map of exact routes has for a method and a path.
  pub data Exact (method : Verb) (path : Bytes) (routes : List (RouteEntry H))
      : Option (Option H) → Type ℓ where
    missing : All (λ e. ¬ (IsFor method path e)) routes → Exact method path routes none
    stored :
        (route : RouteEntry H)
        → Memᴰ route routes
        → IsFor method path route
        → Exact method path routes (some route.handler)

  Exact-skip :
      {method : Verb} {path : Bytes} {e : RouteEntry H} {routes : List (RouteEntry H)}
      {o : Option (Option H)}
      → ¬ (IsFor method path e)
      → Exact method path routes o
      → Exact method path (e ∷ routes) o
  Exact-skip h (missing n) = missing (h, n)
  Exact-skip h (stored route m f) = stored route (Memᴰ.tail m) f

  pub find_route-Exact :
      (method : Verb) (path : Bytes) (routes : List (RouteEntry H))
      → Exact method path routes (find_route method path routes)
  unfolding find_route
  find_route-Exact method path [] = missing tt
  find_route-Exact method path (e ∷ es) =
      let ih = find_route-Exact method path es in
      elim (Bool-cases (verb_eq e.method method)) [
        | inr other ↦ rw other (Exact-skip (λ f. cc (f.same_method, other)) ih)
        | inl same ↦ elim (Bool-cases (bytes_eq e.path path)) [
          | inr differs ↦
              rw (same, differs)
                (Exact-skip (λ f. cc ((bytes_eq_iff e.path path).1 f.same_path, differs)) ih)
          | inl here ↦
              rw (same, here)
                (stored e (Memᴰ.head refl)
                  (record { same_method = same; same_path = (bytes_eq_iff e.path path).0 here }))
        ]
      ]

-- ===== src/Context/Forms.antt =====
-- The cached form, and what the two parsers of a form have in common.
use cdfs.Base.{◌≡◌, refl, sym, ap, ◌∙◌, inl, inr, none, some, Option-cases}
use cdfs.Multipart
use cdfs.Multipart.{MultipartForm, empty_form}
use cdfs.Context.{HttpContext, get_form}

-- Asking for the form again gives the same form and leaves the context as the first time did,
-- whether the form could be parsed or not, and the request is not changed.
get_form-get_form :
    (ctx : HttpContext)
    → (get_form (get_form ctx).1 ≡ get_form ctx) × ((get_form ctx).1.req ≡ ctx.req)
unfolding get_form
get_form-get_form ctx = elim (Option-cases ctx.cached_form) [
  | inr (form, e) ↦
      let kept = record ctx { cached_form = some form } in
      let same : ctx ≡ kept = λ i. record ctx { cached_form = e i } in
      let first : get_form ctx ≡ (form, kept) = ap get_form same in
      (ap (λ r. get_form r.1) first ∙ sym (ap get_form same), ap (λ r. r.1.req) first)
  | inl e ↦ elim (Option-cases (Multipart.parse ctx.req.content_type ctx.req.body)) [
    | inl f ↦
        let kept = record ctx { cached_form = none } in
        let first : get_form ctx ≡ (empty_form, kept) = rw (e, get_form) (rw f) in
        let again : get_form kept ≡ (empty_form, kept) = rw (f, get_form) in
        (ap (λ r. get_form r.1) first ∙ again ∙ sym first, ap (λ r. r.1.req) first)
    | inr (form, p) ↦
        let kept = record ctx { cached_form = some form } in
        let first : get_form ctx ≡ (form, kept) = rw (e, get_form) (rw p) in
        let again : get_form kept ≡ (form, kept) = refl in
        (ap (λ r. get_form r.1) first ∙ again ∙ sym first, ap (λ r. r.1.req) first)
  ]
]

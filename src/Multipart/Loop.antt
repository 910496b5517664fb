-- ===== src/Multipart/Loop.antt =====
-- How the loop of `MultipartParser::parse` runs.
use cdfs.Base.{
  ℕ, zero, suc, ◌+◌, ◌≤◌, ◌<◌, ◌≡◌, refl, ◌⊎◌, inl, inr, some, ◌++◌, arith, Option-cases, Bytes,
  codes, length, length-append, find_str_from, find_str_from-le,
}
use cdfs.Multipart.{
  MultipartForm, empty_form, boundary_of, Round, stop, next, read_part, parse_round, parse_parts,
  parse, header_stop,
}

-- The rounds that the source's `while (true)` makes from a position and a form, up to the form
-- that it leaves.
pub data Runs (body delimiter : Bytes) : ℕ → MultipartForm → MultipartForm → Type 0 where
  stops :
      {pos : ℕ} {form out : MultipartForm}
      → parse_round body delimiter pos form ≡ stop out
      → Runs body delimiter pos form out
  goes :
      {pos pos' : ℕ} {form form' out : MultipartForm}
      → parse_round body delimiter pos form ≡ next pos' form'
      → Runs body delimiter pos' form' out
      → Runs body delimiter pos form out

module _ (body delimiter : Bytes) where
  read_part_advances :
      (start : ℕ) (form form' : MultipartForm) (pos' : ℕ)
      → read_part body delimiter start form ≡ next pos' form'
      → (start < pos') × (pos' ≤ length body)
  unfolding read_part
  read_part_advances start form form' pos' e =
      elim (Option-cases (find_str_from header_stop body start)) [
        | inl h ↦ ground arith
        | inr (header_end, h) ↦
            elim (Option-cases (find_str_from delimiter body (header_end + 4))) [
              | inl k ↦ ground arith
              | inr (n, k) ↦ ground (
                arith,
                find_str_from-le header_stop body start header_end h,
                find_str_from-le delimiter body (header_end + 4) n k,
              )
            ]
      ]

  -- A round that goes on moves forward inside the body.
  parse_round_advances :
      (pos : ℕ) (form form' : MultipartForm) (pos' : ℕ)
      → 2 ≤ length delimiter
      → parse_round body delimiter pos form ≡ next pos' form'
      → (pos < pos') × (pos' ≤ length body)
  unfolding parse_round
  parse_round_advances pos form form' pos' h e =
      elim (Option-cases (find_str_from delimiter body pos)) [
        | inl k ↦ ground arith
        | inr (n, k) ↦
            let start = n + length delimiter + 2 in
            ground (
              arith,
              find_str_from-le delimiter body pos n k,
              read_part_advances start form form' pos',
            )
      ]

  Round-cases :
      (r : Round)
      → ((out : MultipartForm) × (r ≡ stop out)) ⊎ ((p : ℕ) × (f : MultipartForm) × (r ≡ next p f))
  Round-cases (stop out) = inl (out, refl)
  Round-cases (next p f) = inr (p, f, refl)

  parse_parts-Runs :
      (fuel pos : ℕ) (form : MultipartForm)
      → 2 ≤ length delimiter
      → pos ≤ length body
      → length body < fuel + pos
      → Runs body delimiter pos form (parse_parts fuel body delimiter pos form)
  unfolding parse_parts
  parse_parts-Runs zero pos form h k lt = absurd (omega arith)
  parse_parts-Runs (suc fuel) pos form h k lt =
      elim (Round-cases (parse_round body delimiter pos form)) [
        | inl (out, e) ↦ rw (e, parse_parts) (stops e)
        | inr (p, f, e) ↦
            let (lt', le') = parse_round_advances pos form f p h e in
            rw (e, parse_parts) (goes e (parse_parts-Runs fuel p f h le' (omega arith)))
      ]

-- Where the content type names a boundary, `parse` returns the form that the source's loop leaves,
-- started at position 0 with an empty form: the loop ends, and it ends by its own `break`.
pub parse-Runs :
    (content_type body boundary : Bytes)
    → boundary_of content_type ≡ some boundary
    → (out : MultipartForm) × (parse content_type body ≡ some out)
      × Runs body (codes "--" ++ boundary) 0 empty_form out
unfolding parse
parse-Runs content_type body boundary h = (
  parse_parts (suc (length body)) body (codes "--" ++ boundary) 0 empty_form,
  rw (h, parse),
  parse_parts-Runs body (codes "--" ++ boundary) (suc (length body)) 0 empty_form
      (omega (arith, length-append (codes "--") boundary)) (omega arith) (omega arith),
)

-- ===== src/Multipart/Parts.antt =====
-- `MultipartParser::parse` on a body written from parts.
use mathlib.Core.Path.{ap₂}
use mathlib.Core.List.{append_assoc, foldl}
use cdfs.Base.{
  Bool-cases, inl, inr, if◌then◌else◌, is_empty, insert, ℕ, zero, suc, ◌+◌, ◌^◌, ◌≤◌, ◌<◌, ◌≡◌,
  refl, ap, ◌∙◌, some, List, [], ◌∷◌, ◌++◌, arith, Bytes, codes, All, Avoids, length, length-append,
}
use cdfs.Multipart.{
  cr, lf, crlf, header_stop, MultipartForm, empty_form, boundary_of, parse_parts, parse,
  extract_value, add_part,
}
use cdfs.Multipart.Bodies.{Part, body_text, IsPart, Value, absent, quoted, take_part}
use cdfs.Multipart.Values.{extract_value_quoted}
use cdfs.Multipart.Rounds.{parse_round_of_split, parse_round_of_end}

module _ (delimiter : Bytes) (no_cr : Avoids cr delimiter) (no_lf : Avoids lf delimiter)
    (long : 2 ≤ length delimiter) where
  starts_at_delimiter :
      (ps : List Part) (epilogue : Bytes)
      → (rest : Bytes) × (body_text delimiter ps epilogue ≡ delimiter ++ rest)
  unfolding body_text
  starts_at_delimiter [] epilogue = (_, refl)
  starts_at_delimiter (p ∷ ps) epilogue = (_, refl)

  parse_parts_of_body :
      {body : Bytes} (fuel pos : ℕ) (pre : Bytes) (ps : List Part) (epilogue : Bytes)
      (form : MultipartForm)
      → All (IsPart delimiter) ps
      → length body < 2 ^ 64
      → body ≡ pre ++ body_text delimiter ps epilogue
      → pos ≡ length pre
      → length ps < fuel
      → parse_parts fuel body delimiter pos form ≡ foldl take_part form ps
  unfolding parse_parts body_text
  parse_parts_of_body zero pos pre ps epilogue form ok small split at enough = absurd (omega arith)
  parse_parts_of_body (suc fuel) pos pre [] epilogue form ok small split at enough =
      rw (parse_round_of_end delimiter no_cr no_lf long pre epilogue form split at, parse_parts)
  parse_parts_of_body {body} (suc fuel) pos pre (p ∷ ps) epilogue form (here, ok) small split at
        enough =
      let (rest, same) = starts_at_delimiter ps epilogue in
      let front = delimiter ++ (crlf ++ (p.headers ++ (header_stop ++ (p.view ++ crlf)))) in
      let split1 =
        split
        ∙ ap
            (λ t.
              pre
              ++ (delimiter ++ (crlf ++ (p.headers ++ (header_stop ++ (p.view ++ (crlf ++ t)))))))
            same in
      let round =
        parse_round_of_split delimiter no_cr no_lf long {body = body} {pos = pos} pre p rest form
          here small split1 at in
      rw (round, parse_parts)
        (parse_parts_of_body fuel
          (length pre + length delimiter + 2 + length p.headers + 4 + (length p.view + 2))
          (pre ++ front) ps epilogue (take_part form p) ok small (split ∙ (simp append_assoc))
          (omega (
            arith,
            length-append pre front,
            length-append delimiter (crlf ++ (p.headers ++ (header_stop ++ (p.view ++ crlf)))),
            length-append p.headers (header_stop ++ (p.view ++ crlf)),
            length-append p.view crlf,
          ))
          (omega arith))

length_of_body :
    (delimiter : Bytes) (ps : List Part) (epilogue : Bytes)
    → length ps ≤ length (body_text delimiter ps epilogue)
unfolding body_text
length_of_body delimiter [] epilogue = omega arith
length_of_body delimiter (p ∷ ps) epilogue =
    let end = body_text delimiter ps epilogue in
    omega (
      arith,
      length_of_body delimiter ps epilogue,
      length-append delimiter (crlf ++ (p.headers ++ (header_stop ++ (p.view ++ (crlf ++ end))))),
      length-append p.headers (header_stop ++ (p.view ++ (crlf ++ end))),
      length-append p.view (crlf ++ end),
    )

-- What a part gives to the form: a part with a file name is the file, another part with a name is a
-- parameter.
abbrev pub give : MultipartForm → Part → MultipartForm
give form p =
    if is_empty p.filename
    then if is_empty p.name then form else record form { params = insert p.name p.view form.params }
    else record form { filename = p.filename; content = p.view }

extract_value-eq :
    {headers key value : Bytes} → Value headers key value → extract_value headers key ≡ value
unfolding extract_value
extract_value-eq {headers} {key} (absent missing) = rw (missing, extract_value)
extract_value-eq {headers} {key} {value} (quoted before rest first plain) =
    extract_value_quoted before key value rest first plain

add_part-eq-give :
    (form : MultipartForm) (p : Part) → add_part p.name p.filename p.view form ≡ give form p
unfolding add_part
add_part-eq-give form p = elim (Bool-cases (is_empty p.filename)) [
  | inl e ↦ rw (e, add_part) (elim (Bool-cases (is_empty p.name)) [ inl f ↦ rw f | inr f ↦ rw f ])
  | inr e ↦ rw (e, add_part)
]

foldl-give :
    (delimiter : Bytes) (ps : List Part) (form : MultipartForm)
    → All (IsPart delimiter) ps
    → foldl take_part form ps ≡ foldl give form ps
unfolding take_part
foldl-give delimiter [] form h = refl
foldl-give delimiter (p ∷ ps) form (h, hs) =
    let here : take_part form p ≡ give form p =
      ap₂ (λ n f. add_part n f p.view form) (extract_value-eq h.has_name)
        (extract_value-eq h.has_filename)
      ∙ add_part-eq-give form p in
    ap (λ f. foldl take_part f ps) here ∙ foldl-give delimiter ps (give form p) hs

-- Let the content type name a boundary without line ends, and let the body be written from parts,
-- closed by the end delimiter, shorter than 2^64 bytes. The data of a part holds no delimiter, its
-- headers end at their first empty line, and its name and its file name are what stands in quotes
-- behind the first `name` and the first `filename` in the headers, or empty where the headers do not
-- hold that word. Then `parse` succeeds, and its form is made from the parts in their order: a part
-- with a file name gives the file's name and, exactly, its data as the content; any other part that
-- has a name gives its data as the parameter of that name; and other parts give nothing.
pub parse-body_text :
    (content_type boundary : Bytes) (ps : List Part) (epilogue : Bytes)
    → boundary_of content_type ≡ some boundary
    → Avoids cr boundary
    → Avoids lf boundary
    → All (IsPart (codes "--" ++ boundary)) ps
    → length (body_text (codes "--" ++ boundary) ps epilogue) < 2 ^ 64
    → parse content_type (body_text (codes "--" ++ boundary) ps epilogue)
      ≡ some (foldl give empty_form ps)
unfolding parse
parse-body_text content_type boundary ps epilogue named no_cr no_lf ok small =
    let delimiter = codes "--" ++ boundary in
    let body = body_text delimiter ps epilogue in
    rw (named, parse)
      (ap some (
        parse_parts_of_body delimiter ((λ e. omega arith), ((λ e. omega arith), no_cr))
          ((λ e. omega arith), ((λ e. omega arith), no_lf))
          (omega (arith, length-append (codes "--") boundary)) (suc (length body)) 0 [] ps epilogue
          empty_form ok small refl refl (omega (arith, length_of_body delimiter ps epilogue))
        ∙ foldl-give delimiter ps empty_form ok))

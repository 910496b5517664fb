-- ===== src/Multipart/Values.antt =====
-- What the multipart parser reads from the headers of a part, and what it takes for its data when
-- the part has none.
use mathlib.Core.List.{append_assoc}
use cdfs.Base.{
  ℕ, ◌+◌, ◌-◌, ◌^◌, ◌<◌, ◌≡◌, refl, sym, ap, ◌∙◌, true, some, [], ◌∷◌, ◌++◌, arith, leb, Bytes,
  codes, Avoids, length, length-append, drop, take-all, substr, size_sub, is_at, shift, find_str,
  find_str_from, find_str_from_at, find_char-append, find_char_from, find_char_from_at, drop_at,
  find_str-append_self, find_str-append_left, is_at_of_split, substr_of_split,
}
use cdfs.Multipart.{
  cr, lf, crlf, header_stop, MultipartForm, extract_value, value_at, data_view, add_part, next,
  read_part,
}

-- A quoted value is read whole, up to its closing quote: where the first place of the key in the
-- header is followed by `="`, a value without quotes, and `"`, the result is that value.
pub extract_value_quoted :
    (before key value rest : Bytes)
    → find_str key (before ++ (key ++ b'=' ∷ b'"' ∷ (value ++ b'"' ∷ rest))) ≡ some (length before)
    → Avoids b'"' value
    → extract_value (before ++ (key ++ b'=' ∷ b'"' ∷ (value ++ b'"' ∷ rest))) key ≡ value
unfolding extract_value value_at
extract_value_quoted before key value rest first plain =
    let header = before ++ (key ++ b'=' ∷ b'"' ∷ (value ++ b'"' ∷ rest)) in
    let equals : is_at header (length before + length key) b'=' ≡ true =
      is_at_of_split (before ++ key) b'=' (b'"' ∷ (value ++ b'"' ∷ rest)) (simp append_assoc)
        (omega (arith, length-append before key)) in
    let quote : is_at header (length before + length key + 1) b'"' ≡ true =
      is_at_of_split (before ++ (key ++ b'=' ∷ [])) b'"' (value ++ b'"' ∷ rest) (simp append_assoc)
        (omega (arith, length-append before (key ++ b'=' ∷ []), length-append key (b'=' ∷ []))) in
    let front = before ++ (key ++ b'=' ∷ b'"' ∷ []) in
    let long : length before + length key + 1 + 1 ≡ length front = omega (
      arith,
      length-append before (key ++ b'=' ∷ b'"' ∷ []),
      length-append key (b'=' ∷ b'"' ∷ []),
    ) in
    let split : header ≡ front ++ (value ++ b'"' ∷ rest) = simp append_assoc in
    let close : find_char_from b'"' header (length before + length key + 1 + 1)
        ≡ some (length before + length key + 1 + 1 + length value) =
      find_char_from_at front (value ++ b'"' ∷ rest) split long b'"'
      ∙ ap (shift (length before + length key + 1 + 1)) (find_char-append b'"' value rest plain) in
    rw (first, extract_value)
      (rw equals (
        rw (quote, value_at)
          (rw close (substr_of_split front value (b'"' ∷ rest) split long (omega arith)))))

data_view_of_nothing :
    {body : Bytes} {n : ℕ} (pre rest : Bytes)
    → length body < 2 ^ 64 - 2
    → body ≡ pre ++ (crlf ++ rest)
    → n ≡ length pre + 2
    → data_view body n n ≡ rest
unfolding data_view
data_view_of_nothing {body} {n} pre rest small split at =
    let cr_at : is_at body (n - 2) cr ≡ true =
      is_at_of_split pre cr (lf ∷ rest) split (omega arith) in
    let lf_at : is_at body (n - 1) lf ≡ true =
      is_at_of_split (pre ++ cr ∷ []) lf rest (split ∙ (simp append_assoc))
        (omega (arith, length-append pre (cr ∷ []))) in
    let two : leb 2 n ≡ true = ground arith in
    let behind : drop n body ≡ rest =
      drop_at (pre ++ crlf) rest (split ∙ (simp append_assoc))
        (omega (arith, length-append pre crlf)) in
    let whole : size_sub (n - 2) n ≡ 2 ^ 64 - 2 = omega arith in
    rw (two, cr_at, lf_at)
      (rw (behind, whole)
        (take-all (2 ^ 64 - 2) rest
          (omega (arith, ap length split, length-append pre (crlf ++ rest)))))

-- A part whose headers are followed at once by the next boundary, with no line end of its own
-- before it, does not get empty data: the round takes for its data the boundary and all that
-- follows it, to the end of the body.
read_part_without_data :
    (pre headers delimiter rest : Bytes) (form : MultipartForm)
    → find_str header_stop (headers ++ header_stop) ≡ some (length headers)
    → length (pre ++ (headers ++ (header_stop ++ (delimiter ++ rest)))) < 2 ^ 64 - 2
    → read_part
        (pre ++ (headers ++ (header_stop ++ (delimiter ++ rest))))
        delimiter
        (length pre)
        form
      ≡ next (length pre + length headers + 4) (
          add_part
            (extract_value headers (codes "name"))
            (extract_value headers (codes "filename"))
            (delimiter ++ rest)
            form)
unfolding read_part
read_part_without_data pre headers delimiter rest form ends small =
    let tail = delimiter ++ rest in
    let body = pre ++ (headers ++ (header_stop ++ tail)) in
    let e1 : find_str_from header_stop body (length pre) ≡ some (length pre + length headers) =
      find_str_from_at pre (headers ++ (header_stop ++ tail)) refl refl header_stop
      ∙ ap (shift (length pre)) (
          ap (find_str header_stop) (sym (append_assoc headers header_stop tail))
          ∙ find_str-append_left header_stop (headers ++ header_stop) tail (length headers) ends) in
    let before = pre ++ (headers ++ header_stop) in
    let at2 : length pre + length headers + 4 ≡ length before =
      omega
        (arith, length-append pre (headers ++ header_stop), length-append headers header_stop) in
    let e2 : find_str_from delimiter body (length pre + length headers + 4)
        ≡ some (length pre + length headers + 4 + 0) =
      find_str_from_at before tail (simp append_assoc) at2 delimiter
      ∙ ap (shift (length pre + length headers + 4)) (find_str-append_self delimiter rest) in
    let e3 : substr body (length pre) (length pre + length headers - length pre) ≡ headers =
      substr_of_split pre headers (header_stop ++ tail) refl refl (omega arith) in
    let same : length pre + length headers + 4 + 0 ≡ length pre + length headers + 4 =
      omega arith in
    let e4 : data_view body (length pre + length headers + 4) (length pre + length headers + 4)
        ≡ tail =
      data_view_of_nothing (pre ++ (headers ++ crlf)) tail small (simp append_assoc)
        (omega (arith, length-append pre (headers ++ crlf), length-append headers crlf)) in
    rw (e1, read_part) (rw e2 (rw (same, e3) (rw e4)))

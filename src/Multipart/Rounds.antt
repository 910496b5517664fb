-- ===== src/Multipart/Rounds.antt =====
-- The rounds of the parser's loop on a body written from parts.
use mathlib.Core.List.{append_assoc}
use cdfs.Base.{
  ℕ, ◌+◌, ◌-◌, ◌^◌, ◌≤◌, ◌<◌, ◌≡◌, refl, sym, ap, ◌∙◌, ◌≢◌, true, false, none, some, [], ◌∷◌, ◌++◌,
  arith, leb, ltb, Bytes, bytes_eq, codes, Avoids, length, length-append, substr, is_at, shift,
  find_str, find_str_from, find_str_from_at, find_str-nil, find_str-append_stop,
  find_str-append_self, find_str-append_left, is_at_of_split, substr_of_split, bytes_eq-append,
  bytes_eq_refl,
}
use cdfs.Multipart.{
  cr, lf, crlf, header_stop, MultipartForm, data_view, stop, next, read_part, parse_round,
}
use cdfs.Multipart.Bodies.{
  Part, body_text, IsPart, take_part, data_view_of_split, crlf_ne_dashes, and_false, not_ltb,
  is_leb,
}

module _ (delimiter : Bytes) (no_cr : Avoids cr delimiter) (no_lf : Avoids lf delimiter)
    (long : 2 ≤ length delimiter) where
  find_delimiter :
      (view rest : Bytes)
      → find_str delimiter view ≡ none
      → find_str delimiter (view ++ (crlf ++ (delimiter ++ rest))) ≡ some (length view + 2)
  find_delimiter view rest plain =
      let empty : delimiter ≢ [] = λ e. omega (arith, ap length e) in
      find_str-append_stop cr delimiter view (lf ∷ (delimiter ++ rest)) no_cr plain
      ∙ ap (shift (length view + 1)) (
          find_str-append_stop lf delimiter [] (delimiter ++ rest) no_lf
            (find_str-nil delimiter empty)
          ∙ ap (shift 1) (find_str-append_self delimiter rest))
      ∙ ap some (omega arith)

  read_part_of_split :
      {body : Bytes} {start : ℕ} (pre : Bytes) (p : Part) (rest : Bytes) (form : MultipartForm)
      → IsPart delimiter p
      → length body < 2 ^ 64
      → body ≡ pre ++ (p.headers ++ (header_stop ++ (p.view ++ (crlf ++ (delimiter ++ rest)))))
      → start ≡ length pre
      → read_part body delimiter start form
        ≡ next (length pre + length p.headers + 4 + (length p.view + 2)) (take_part form p)
  unfolding read_part take_part
  read_part_of_split {body} {start} pre p rest form ok small split at =
      let tail = p.view ++ (crlf ++ (delimiter ++ rest)) in
      let e1 : find_str_from header_stop body start ≡ some (length pre + length p.headers) =
        find_str_from_at pre (p.headers ++ (header_stop ++ tail)) split at header_stop
        ∙ ap (shift start) (
            ap (find_str header_stop) (sym (append_assoc p.headers header_stop tail))
            ∙ find_str-append_left header_stop (p.headers ++ header_stop) tail (length p.headers)
                ok.headers_end)
        ∙ ap some (omega arith) in
      let before = pre ++ (p.headers ++ header_stop) in
      let split2 : body ≡ before ++ tail = split ∙ (simp append_assoc) in
      let at2 : length pre + length p.headers + 4 ≡ length before = omega (
        arith,
        length-append pre (p.headers ++ header_stop),
        length-append p.headers header_stop,
      ) in
      let e2 : find_str_from delimiter body (length pre + length p.headers + 4)
          ≡ some (length pre + length p.headers + 4 + (length p.view + 2)) =
        find_str_from_at before tail split2 at2 delimiter
        ∙ ap (shift (length pre + length p.headers + 4)) (find_delimiter p.view rest ok.plain) in
      let e3 : substr body start (length pre + length p.headers - start) ≡ p.headers =
        substr_of_split pre p.headers (header_stop ++ tail) split at (omega arith) in
      let e4 : data_view body (length pre + length p.headers + 4)
            (length pre + length p.headers + 4 + (length p.view + 2))
          ≡ p.view =
        data_view_of_split before p.view (delimiter ++ rest) small split2 at2 (omega arith) in
      rw (e1, read_part) (rw e2 (rw e3 (rw e4 refl)))

  pub parse_round_of_split :
      {body : Bytes} {pos : ℕ} (pre : Bytes) (p : Part) (rest : Bytes) (form : MultipartForm)
      → IsPart delimiter p
      → length body < 2 ^ 64
      → body
        ≡ pre
          ++ (delimiter
              ++ (crlf
                  ++ (p.headers ++ (header_stop ++ (p.view ++ (crlf ++ (delimiter ++ rest)))))))
      → pos ≡ length pre
      → parse_round body delimiter pos form
        ≡ next
            (length pre + length delimiter + 2 + length p.headers + 4 + (length p.view + 2))
            (take_part form p)
  unfolding parse_round
  parse_round_of_split {body} {pos} pre p rest form ok small split at =
      let tail = p.headers ++ (header_stop ++ (p.view ++ (crlf ++ (delimiter ++ rest)))) in
      let e1 : find_str_from delimiter body pos ≡ some (length pre) =
        find_str_from_at pre (delimiter ++ (crlf ++ tail)) split at delimiter
        ∙ ap (shift pos) (find_str-append_self delimiter (crlf ++ tail))
        ∙ ap some (omega arith) in
      let here : substr body (length pre) (length (delimiter ++ codes "--")) ≡ delimiter ++ crlf =
        substr_of_split pre (delimiter ++ crlf) tail (split ∙ (simp append_assoc)) refl
          (omega (arith, length-append delimiter (codes "--"), length-append delimiter crlf)) in
      let differs : bytes_eq (delimiter ++ crlf) (delimiter ++ codes "--") ≡ false =
        bytes_eq-append delimiter crlf (codes "--") ∙ crlf_ne_dashes in
      let cr_at : is_at body (length pre + length delimiter) cr ≡ true =
        is_at_of_split (pre ++ delimiter) cr (lf ∷ tail) (split ∙ (simp append_assoc))
          (omega (arith, length-append pre delimiter)) in
      let lf_at : is_at body (length pre + length delimiter + 1) lf ≡ true =
        is_at_of_split (pre ++ (delimiter ++ cr ∷ [])) lf tail (split ∙ (simp append_assoc)) (
          omega
            (arith, length-append pre (delimiter ++ cr ∷ []), length-append delimiter (cr ∷ []))) in
      let room : ltb (length body) (length pre + length delimiter + 2) ≡ false =
        not_ltb (length body) (length pre + length delimiter + 2) (
          omega (
            arith,
            ap length split,
            length-append pre (delimiter ++ (crlf ++ tail)),
            length-append delimiter (crlf ++ tail),
          )) in
      let e2 =
        read_part_of_split {body = body} {start = length pre + length delimiter + 2}
          (pre ++ (delimiter ++ crlf)) p rest form ok small (split ∙ (simp append_assoc))
          (omega (arith, length-append pre (delimiter ++ crlf), length-append delimiter crlf)) in
      let moved : length (pre ++ (delimiter ++ crlf)) ≡ length pre + length delimiter + 2 =
        omega (arith, length-append pre (delimiter ++ crlf), length-append delimiter crlf) in
      rw (e1, parse_round)
        (rw (here, differs) (rw and_false (rw (room, cr_at, lf_at) (rw moved at e2))))

  -- At the closing delimiter the loop ends.
  pub parse_round_of_end :
      {body : Bytes} {pos : ℕ} (pre epilogue : Bytes) (form : MultipartForm)
      → body ≡ pre ++ body_text delimiter [] epilogue
      → pos ≡ length pre
      → parse_round body delimiter pos form ≡ stop form
  unfolding parse_round body_text
  parse_round_of_end {body} {pos} pre epilogue form split at =
      let e1 : find_str_from delimiter body pos ≡ some (length pre) =
        find_str_from_at pre (delimiter ++ (codes "--" ++ epilogue)) split at delimiter
        ∙ ap (shift pos) (find_str-append_self delimiter (codes "--" ++ epilogue))
        ∙ ap some (omega arith) in
      let here : substr body (length pre) (length (delimiter ++ codes "--"))
          ≡ delimiter ++ codes "--" =
        substr_of_split pre (delimiter ++ codes "--") epilogue (split ∙ (simp append_assoc)) refl
          refl in
      let room : leb (length pre + length (delimiter ++ codes "--")) (length body) ≡ true =
        is_leb (length pre + length (delimiter ++ codes "--")) (length body) (
          omega (
            arith,
            ap length split,
            length-append pre (delimiter ++ (codes "--" ++ epilogue)),
            length-append delimiter (codes "--" ++ epilogue),
            length-append delimiter (codes "--"),
          )) in
      rw (e1, parse_round) (rw (here, room) (rw bytes_eq_refl))

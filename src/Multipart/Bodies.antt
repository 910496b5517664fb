-- ===== src/Multipart/Bodies.antt =====
-- Bodies written from parts, and the data of a part.
use mathlib.Core.List.{append_assoc}
use cdfs.Base.{
  Avoids, ℕ, ◌+◌, ◌-◌, ◌^◌, ◌≤◌, ◌<◌, ◌≡◌, refl, sym, ap, ◌∙◌, Bool, true, false, ◌&&◌, none, some,
  List, [], ◌∷◌, ◌++◌, arith, leb, ltb, Bytes, bytes_eq, codes, length, length-append, is_at,
  find_str, is_at_of_split, substr_of_split,
}
use cdfs.Multipart.{cr, lf, crlf, header_stop, MultipartForm, extract_value, data_view, add_part}

-- A part: its headers, without the empty line behind them, the `name` and the `filename` that
-- they hold, and its data.
pub record Part : Type 0 where
  pub headers : Bytes
  pub name : Bytes
  pub filename : Bytes
  pub view : Bytes

-- The value of a key in the headers: empty where they do not hold the key, else the text in quotes
-- behind the first place of the key.
pub data Value : Bytes → Bytes → Bytes → Type 0 where
  absent : {headers key : Bytes} → find_str key headers ≡ none → Value headers key []
  quoted :
      {key value : Bytes} (before rest : Bytes)
      → find_str key (before ++ (key ++ b'=' ∷ b'"' ∷ (value ++ b'"' ∷ rest)))
        ≡ some (length before)
      → Avoids b'"' value
      → Value (before ++ (key ++ b'=' ∷ b'"' ∷ (value ++ b'"' ∷ rest))) key value

module _ (delimiter : Bytes) where
  -- The body of a request: each part behind a delimiter, then the closing delimiter, and what a
  -- client sends behind that.
  unfoldable pub body_text : List Part → Bytes → Bytes
  body_text [] epilogue = delimiter ++ (codes "--" ++ epilogue)
  body_text (p ∷ ps) epilogue =
      delimiter
      ++ (crlf ++ (p.headers ++ (header_stop ++ (p.view ++ (crlf ++ body_text ps epilogue)))))

  -- The headers end at the first empty line and hold the name and the file name, and the data holds
  -- no delimiter.
  pub record IsPart (p : Part) : Type 0 where
    pub headers_end : find_str header_stop (p.headers ++ header_stop) ≡ some (length p.headers)
    pub plain : find_str delimiter p.view ≡ none
    pub has_name : Value p.headers (codes "name") p.name
    pub has_filename : Value p.headers (codes "filename") p.filename

-- What the loop makes of one part.
unfoldable pub take_part : MultipartForm → Part → MultipartForm
take_part form p =
    add_part (extract_value p.headers (codes "name")) (extract_value p.headers (codes "filename"))
      p.view form

-- The data of a part, where it is followed by a line end and the next boundary.
pub data_view_of_split :
    {body : Bytes} {start stop_at : ℕ} (pre view rest : Bytes)
    → length body < 2 ^ 64
    → body ≡ pre ++ (view ++ (crlf ++ rest))
    → start ≡ length pre
    → stop_at ≡ length pre + length view + 2
    → data_view body start stop_at ≡ view
unfolding data_view
data_view_of_split {body} {start} {stop_at} pre view rest small split at there =
    let cr_at : is_at body (stop_at - 2) cr ≡ true =
      is_at_of_split (pre ++ view) cr (lf ∷ rest)
        (split ∙ sym (append_assoc pre view (crlf ++ rest)))
        (omega (arith, length-append pre view)) in
    let lf_at : is_at body (stop_at - 1) lf ≡ true =
      is_at_of_split (pre ++ (view ++ cr ∷ [])) lf rest (split ∙ (simp append_assoc))
        (omega (arith, length-append pre (view ++ cr ∷ []), length-append view (cr ∷ []))) in
    let two : leb 2 stop_at ≡ true = ground arith in
    let fits : length pre + length view ≤ length body = omega (
      arith,
      ap length split,
      length-append pre (view ++ (crlf ++ rest)),
      length-append view (crlf ++ rest),
    ) in
    rw (two, cr_at, lf_at) (substr_of_split pre view (crlf ++ rest) split at (omega arith))

pub crlf_ne_dashes : bytes_eq crlf (codes "--") ≡ false
unfolding bytes_eq
crlf_ne_dashes = refl

pub and_false : (b : Bool) → (b && false) ≡ false
and_false true = refl
and_false false = refl

pub not_ltb : (a b : ℕ) → b ≤ a → ltb a b ≡ false
not_ltb a b h = ground arith

pub is_leb : (a b : ℕ) → a ≤ b → leb a b ≡ true
is_leb a b h = ground arith

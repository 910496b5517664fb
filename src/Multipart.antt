-- ===== src/Multipart.antt =====
-- server/MultipartParser.h and MultipartParser.cc: the parser of multipart/form-data bodies.
pub mod Loop
pub mod Bodies
pub mod Rounds
pub mod Parts
pub mod Values
use cdfs.Base.{
  ℕ, zero, suc, ◌+◌, ◌-◌, Bool, true, false, not, ◌&&◌, ◌||◌, Option, none, some, List, [], ◌∷◌,
  ◌++◌, ltb, leb, ◌==◌, if◌then◌else◌, Bytes, bytes_eq, codes, length, take, drop, is_empty, substr,
  size_sub, is_at, find_str, find_str_from, find_char_from, find_first_of_from, Dict, lookup,
  insert,
}

abbrev pub cr : ℕ
cr = 13

abbrev pub lf : ℕ
lf = 10

pub record MultipartForm : Type 0 where
  pub filename : Bytes
  pub content : Bytes
  pub content_type : Bytes
  pub params : Dict Bytes

abbrev pub empty_form : MultipartForm
empty_form = record { filename = []; content = []; content_type = []; params = [] }

-- `get_param`, with its default value
unfoldable pub get_param : MultipartForm → Bytes → Bytes → Bytes
get_param form key default_val = elim (lookup key form.params) [ none ↦ default_val | some v ↦ v ]

unfoldable pub has_file : MultipartForm → Bool
has_file form = not (is_empty form.content)

is_value_end : ℕ → Bool
is_value_end c = (c == b';') || (c == b' ') || (c == cr) || (c == lf)

-- The value that starts at `start`, quoted or not.
unfoldable pub value_at : Bytes → ℕ → Bytes
unfolding is_value_end
value_at header start =
    if is_at header start b'"'
    then elim (find_char_from b'"' header (start + 1)) [
      | none ↦ []
      | some end ↦ substr header (start + 1) (end - (start + 1))
    ]
    else elim (find_first_of_from is_value_end header start) [
      | none ↦ substr header start (length header - start)
      | some end ↦ substr header start (end - start)
    ]

unfoldable pub extract_value : Bytes → Bytes → Bytes
extract_value header key = elim (find_str key header) [
  | none ↦ []
  | some pos ↦
      if is_at header (pos + length key) b'=' then value_at header (pos + length key + 1) else []
]

abbrev pub boundary_prefix : Bytes
boundary_prefix = codes "boundary="

-- `boundary.back() == '"'`
abbrev ends_with_quote : Bytes → Bool
ends_with_quote s = is_at s (length s - 1) b'"'

abbrev unquote : Bytes → Bytes
unquote boundary =
    if leb 2 (length boundary) && is_at boundary 0 b'"' && ends_with_quote boundary
    then substr boundary 1 (length boundary - 2)
    else boundary

-- Steps 1 and 2 of `parse`: the boundary that the content type names.
unfoldable pub boundary_of : Bytes → Option Bytes
boundary_of content_type = elim (find_str boundary_prefix content_type) [
  | none ↦ none
  | some pos ↦ some (unquote (drop (pos + length boundary_prefix) content_type))
]

-- The text between `data_start` and the next boundary, less a line end before the boundary. The
-- difference is taken on `size_t`.
unfoldable pub data_view : Bytes → ℕ → ℕ → Bytes
data_view body data_start next_boundary =
    let data_end =
      if leb 2 next_boundary
        && is_at body (next_boundary - 2) cr
        && is_at body (next_boundary - 1) lf
      then next_boundary - 2
      else next_boundary in
    substr body data_start (size_sub data_end data_start)

-- Step 4 of the loop: a part with a file name is the file, another part with a name a parameter.
unfoldable pub add_part : Bytes → Bytes → Bytes → MultipartForm → MultipartForm
add_part name filename view form =
    if not (is_empty filename)
    then record form { filename = filename; content = view }
    else if not (is_empty name)
    then record form { params = insert name view form.params }
    else form

abbrev pub crlf : Bytes
crlf = cr ∷ lf ∷ []

abbrev pub header_stop : Bytes
header_stop = cr ∷ lf ∷ cr ∷ lf ∷ []

-- How a round of the loop ends: by `break`, or with the next value of `pos`.
pub data Round : Type 0 where
  stop : MultipartForm → Round
  next : ℕ → MultipartForm → Round

-- The rest of a round, from the headers on: `start` is where they begin.
unfoldable pub read_part : Bytes → Bytes → ℕ → MultipartForm → Round
read_part body delimiter start form = elim (find_str_from header_stop body start) [
  | none ↦ stop form
  | some header_end ↦ elim (find_str_from delimiter body (header_end + 4)) [
    | none ↦ stop form
    | some next_boundary ↦
        let header_part = substr body start (header_end - start) in
        next next_boundary (
          add_part (extract_value header_part (codes "name"))
            (extract_value header_part (codes "filename"))
            (data_view body (header_end + 4) next_boundary) form)
  ]
]

abbrev is_end : Bytes → Bytes → ℕ → Bool
is_end body end_delimiter part_start =
    leb (part_start + length end_delimiter) (length body)
    && bytes_eq (substr body part_start (length end_delimiter)) end_delimiter

-- One round of the loop of `parse`.
unfoldable pub parse_round : Bytes → Bytes → ℕ → MultipartForm → Round
parse_round body delimiter pos form = elim (find_str_from delimiter body pos) [
  | none ↦ stop form
  | some part_start ↦
      let header_start = part_start + length delimiter in
      if is_end body (delimiter ++ codes "--") part_start
      then stop form
      else if ltb (length body) (header_start + 2)
      then stop form
      else if is_at body header_start cr && is_at body (header_start + 1) lf
      then read_part body delimiter (header_start + 2) form
      else next header_start form
]

-- The loop. Every round that goes on moves `pos` forward inside the body, which bounds the rounds.
unfoldable pub parse_parts : ℕ → Bytes → Bytes → ℕ → MultipartForm → MultipartForm
parse_parts zero body delimiter pos form = form
parse_parts (suc fuel) body delimiter pos form = elim (parse_round body delimiter pos form) [
  | stop result ↦ result
  | next pos' form' ↦ parse_parts fuel body delimiter pos' form'
]

-- `MultipartParser::parse`, on the content type and the body of the request
unfoldable pub parse : Bytes → Bytes → Option MultipartForm
parse content_type body = elim (boundary_of content_type) [
  | none ↦ none
  | some boundary ↦
      some (parse_parts (suc (length body)) body (codes "--" ++ boundary) 0 empty_form)
]

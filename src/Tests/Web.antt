-- ===== src/Tests/Web.antt =====
-- Requests: targets, queries, and multipart bodies.
use mathlib.Core.List.{foldl}
use cdfs.Base.{
  ◌++◌, ℕ, ◌≡◌, ◌↔◌, ◌<◌, ◌^◌, refl, none, some, List, [], ◌∷◌, arith, Bytes, codes, length, All,
  Avoids, Avoids-of_find_char, find_char, find_char_from, find_str, find_str_from, starts_with,
  find_first_of, find_first_of_from, is_at, bytes_eq, ok, lookup, insert,
}
use cdfs.Util.{to_hex, url_decode}
use cdfs.Url.{
  Params, isxdigit, hex_to_val, hex_escape, decode_from, decode, split_target, without_fragment,
  query_pair, put_pair, parse_query_from, parse_query,
}
use cdfs.Url.Decoding.{
  Decodes, decode_iff, percent_encode, is_unreserved, decode-percent_encode, url_decode-eq-decode,
}
use cdfs.Url.Targets.{Splits, split_target_iff}
use cdfs.Url.Queries.{render, last_value, parse_query-render}
use cdfs.Multipart.{
  MultipartForm, empty_form, boundary_of, extract_value, value_at, data_view, add_part, read_part,
  parse_round, parse_parts, parse,
}
use cdfs.Multipart.Loop.{Runs, parse-Runs}
use cdfs.Multipart.Bodies.{Part, body_text, IsPart, quoted, absent}
use cdfs.Multipart.Parts.{give, parse-body_text}

web : Unit {0}
unfolding isxdigit hex_to_val hex_escape decode_from decode split_target without_fragment query_pair
    put_pair parse_query_from parse_query to_hex is_unreserved percent_encode find_char
    find_char_from find_str find_str_from starts_with find_first_of find_first_of_from is_at
    bytes_eq lookup insert boundary_of extract_value value_at data_view add_part read_part
    parse_round parse_parts parse
web = tt

decode_tests :
    (decode (codes "a%20b+c") ≡ ok (codes "a b c"))
    × (split_target (codes "/p?q#f") ≡ (codes "/p", codes "q"))
    × (parse_query (codes "a=1&b=%32&a=3")
        ≡ ok ((codes "a", codes "3") ∷ (codes "b", codes "2") ∷ []))
unfolding web
decode_tests = (refl, refl, refl)

decode_iff_example :
    (decode (codes "%41+b") ≡ ok (codes "A b")) ↔ Decodes (codes "%41+b") (codes "A b")
decode_iff_example = decode_iff (codes "%41+b") (codes "A b")

decode-percent_encode_example : decode (percent_encode (codes "a/b")) ≡ ok (codes "a/b")
decode-percent_encode_example =
    decode-percent_encode (codes "a/b") (omega arith, (omega arith, (omega arith, tt)))

decoded : decode (codes "%41+b") ≡ ok (codes "A b")
unfolding web
decoded = refl

url_decode-eq-decode_example : url_decode (codes "%41+b") ≡ some (codes "A b")
url_decode-eq-decode_example = url_decode-eq-decode (codes "%41+b") (codes "A b") decoded

split_target_iff_example :
    (split_target (codes "/p?q#f") ≡ (codes "/p", codes "q"))
    ↔ Splits (codes "/p?q#f") (codes "/p") (codes "q")
split_target_iff_example = split_target_iff (codes "/p?q#f") (codes "/p") (codes "q")

abbrev query : Bytes
query = codes "a=1&b=%32&a=3"

abbrev pairs : List (Bytes × Bytes)
pairs = (codes "a", codes "1") ∷ (codes "a", codes "&") ∷ []

parse_query-render_example :
    (d : Params) × (parse_query (render pairs) ≡ ok d)
    × ((k : Bytes) → lookup k d ≡ last_value k pairs)
parse_query-render_example = parse_query-render pairs (
  (((λ e. omega arith), tt), ((λ e. omega arith), tt), (omega arith, tt)),
  ((((λ e. omega arith), tt), ((λ e. omega arith), tt), (omega arith, tt)), tt),
)

abbrev pub content_type : Bytes
content_type = codes "multipart/form-data; boundary=XyZ"

pub named : boundary_of content_type ≡ some (codes "XyZ")
unfolding web
named = refl

abbrev pub parts : List Part
parts =
    record {
      headers = codes "Content-Disposition: form-data; name=\"scene\"";
      name = codes "scene";
      filename = [];
      view = codes "img";
    }
    ∷ record {
      headers = codes "Content-Disposition: form-data; name=\"file\"; filename=\"a.txt\"";
      name = codes "file";
      filename = codes "a.txt";
      view = codes "hi";
    }
    ∷ []

abbrev pub form_body : Bytes
form_body = body_text (codes "--XyZ") parts []

parse-Runs_example :
    (out : MultipartForm) × (parse content_type form_body ≡ some out)
    × Runs form_body (codes "--XyZ") 0 empty_form out
parse-Runs_example = parse-Runs content_type form_body (codes "XyZ") named

plain : (c : ℕ) → find_char c (codes "XyZ") ≡ none → Avoids c (codes "XyZ")
plain c e = Avoids-of_find_char c (codes "XyZ") e

pub no_cr : Avoids 13 (codes "XyZ")
unfolding web
no_cr = plain 13 refl

pub no_lf : Avoids 10 (codes "XyZ")
unfolding web
no_lf = plain 10 refl

abbrev field : Bytes
field = codes "Content-Disposition: form-data; "

unquoted : (value : Bytes) → find_char b'"' value ≡ none → Avoids b'"' value
unquoted value e = Avoids-of_find_char b'"' value e

pub parts_ok : All (IsPart (codes "--XyZ")) parts
unfolding web
parts_ok = (
  record {
    headers_end = refl;
    plain = refl;
    has_name = quoted field [] refl (unquoted (codes "scene") refl);
    has_filename = absent refl;
  },
  (
    record {
      headers_end = refl;
      plain = refl;
      has_name = quoted field (codes "; filename=\"a.txt\"") refl (unquoted (codes "file") refl);
      has_filename =
          quoted (field ++ codes "name=\"file\"; ") [] refl (unquoted (codes "a.txt") refl);
    },
    tt,
  ),
)

pub fits : length form_body < 2 ^ 64
unfolding body_text
fits = omega arith

parse-body_text_example : parse content_type form_body ≡ some (foldl give empty_form parts)
parse-body_text_example =
    parse-body_text content_type (codes "XyZ") parts [] named no_cr no_lf parts_ok fits

form_tests : foldl give empty_form parts ≡ record {
  filename = codes "a.txt";
  content = codes "hi";
  content_type = [];
  params = (codes "scene", codes "img") ∷ [];
}
unfolding web
form_tests = refl

-- ===== src/Logging/Lines.antt =====
-- What stands in the buffer of an entry, without the buffer: the texts that fit.
use mathlib.Core.Path.{ap₂}
use mathlib.Core.List.{append_assoc, append-nil}
use cdfs.Base.{
  ℕ, ◌+◌, ◌-◌, ◌≤◌, ◌≡◌, refl, sym, ap, ◌∙◌, true, false, Bool-cases, inl, inr, none, some, List,
  [], ◌∷◌, ◌++◌, ltb, if◌then◌else◌, Bytes, codes, length, length-append, int_text, length-int_text,
  IsInt, All, arith,
}
use cdfs.Logging.{
  avail, append, LogStream, Piece, c_string, text, int, format_integer, write_piece, write_pieces,
}

unfoldable pub piece_text : Piece → Bytes
piece_text (c_string none) = codes "(null)"
piece_text (c_string (some str)) = str
piece_text (text str) = str
piece_text (int num) = int_text num

-- The room that a piece asks for: a number more than it takes.
unfoldable pub need : Piece → ℕ
need (int num) = 49
need (c_string none) = 6
need (c_string (some str)) = length str
need (text str) = length str

-- The texts, each of which is left out where it does not find its room.
unfoldable pub fill : ℕ → List Piece → Bytes
fill room [] = []
fill room (p ∷ ps) =
    let rest = piece_text p ++ fill (room - length (piece_text p)) ps in
    let without = fill room ps in if ltb room (need p) then without else rest

unfoldable pub texts : List Piece → Bytes
texts [] = []
texts (p ∷ ps) = piece_text p ++ texts ps

unfoldable pub needs : List Piece → ℕ
needs [] = 0
needs (p ∷ ps) = need p + needs ps

-- The numbers among the pieces are of the type `int`.
abbrev pub IsPiece : Piece → Type 0
IsPiece (int num) = IsInt num
IsPiece (c_string str) = Unit
IsPiece (text str) = Unit

length-piece_text : (p : Piece) → IsPiece p → length (piece_text p) ≤ need p
unfolding piece_text need
length-piece_text (c_string none) h = omega arith
length-piece_text (c_string (some str)) h = omega arith
length-piece_text (text str) h = omega arith
length-piece_text (int num) h = omega (arith, length-int_text num h)

-- The buffer never runs over.
pub length-fill : (room : ℕ) (ps : List Piece) → All IsPiece ps → length (fill room ps) ≤ room
unfolding fill
length-fill room [] h = omega arith
length-fill room (p ∷ ps) (a, h) = elim (Bool-cases (ltb room (need p))) [
  | inl full ↦ rw full (length-fill room ps h)
  | inr fits ↦ rw fits (
      ground (
        arith,
        length-append (piece_text p) (fill (room - length (piece_text p)) ps),
        length-fill (room - length (piece_text p)) ps h,
        length-piece_text p a,
      ))
]

pub fill-eq-texts :
    (room : ℕ) (ps : List Piece) → All IsPiece ps → needs ps ≤ room → fill room ps ≡ texts ps
unfolding fill texts needs
fill-eq-texts room [] h roomy = refl
fill-eq-texts room (p ∷ ps) (a, h) roomy =
    let fits : ltb room (need p) ≡ false = ground arith in
    rw fits (
      ap (λ r. piece_text p ++ r)
        (fill-eq-texts (room - length (piece_text p)) ps h (omega (arith, length-piece_text p a))))

-- One piece on a buffer.
write_piece-full : (b : LogStream) (p : Piece) → ltb (avail b) (need p) ≡ true → write_piece b p ≡ b
unfolding write_piece append format_integer need
write_piece-full b (c_string none) h = rw h
write_piece-full b (c_string (some str)) h = rw h
write_piece-full b (text str) h = rw h
write_piece-full b (int num) h = ground arith

write_piece-fits :
    (b : LogStream) (p : Piece)
    → ltb (avail b) (need p) ≡ false
    → (write_piece b p).content ≡ b.content ++ piece_text p
unfolding write_piece append format_integer need piece_text
write_piece-fits b (c_string none) h = rw h
write_piece-fits b (c_string (some str)) h = rw h
write_piece-fits b (text str) h = rw h
write_piece-fits b (int num) h = ground arith

avail_of_content :
    (b : LogStream) (t : Bytes) (d : LogStream)
    → d.content ≡ b.content ++ t
    → avail d ≡ avail b - length t
unfolding avail
avail_of_content b t d e =
    ap (λ (x : Bytes). 4000 - length x) e ∙ omega (arith, length-append b.content t)

pub write_pieces-eq-fill :
    (b : LogStream) (ps : List Piece) → (write_pieces b ps).content ≡ b.content ++ fill (avail b) ps
unfolding write_pieces fill
write_pieces-eq-fill b [] = sym (append-nil b.content)
write_pieces-eq-fill b (p ∷ ps) = elim (Bool-cases (ltb (avail b) (need p))) [
  | inl full ↦ rw full (
      ap (λ c. (write_pieces c ps).content) (write_piece-full b p full) ∙ write_pieces-eq-fill b ps)
  | inr fits ↦ rw fits (
      write_pieces-eq-fill (write_piece b p) ps
      ∙ ap₂ (λ c n. c ++ fill n ps) (write_piece-fits b p fits)
          (avail_of_content b (piece_text p) (write_piece b p) (write_piece-fits b p fits))
      ∙ append_assoc b.content (piece_text p) (fill (avail b - length (piece_text p)) ps))
]

pub write_pieces-append :
    (b : LogStream) (ps qs : List Piece)
    → write_pieces b (ps ++ qs) ≡ write_pieces (write_pieces b ps) qs
unfolding write_pieces
write_pieces-append b [] qs = refl
write_pieces-append b (p ∷ ps) qs = write_pieces-append (write_piece b p) ps qs

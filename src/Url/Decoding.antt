-- ===== src/Url/Decoding.antt =====
-- What `UrlUtils::decode` accepts and returns, against a description of percent encoding, and
-- against `UrlDecode` of common/util.h.
use cdfs.Base.{
  ℕ, ◌+◌, ◌*◌, ◌/◌, ◌%◌, ◌<◌, ◌≤◌, ◌≡◌, refl, ◌≢◌, ◌↔◌, ◌⊎◌, inl, inr, Bool, true, ◌&&◌, ◌||◌, some,
  [], ◌∷◌, arith, leb, ◌==◌, if◌then◌else◌, Bool-cases, length, drop, Bytes, All, Result, ok,
  throws, Result-map-eq-ok,
}
use cdfs.Util.{to_hex, from_hex, url_decode, url_decode_from}
use mathlib.Core.Path.{subst}
use cdfs.Url.{push_back, isxdigit, hex_to_val, hex_escape, decode, decode_from}

-- `c` is a hexadecimal digit, of either case, and stands for `v`.
abbrev pub HexDigit : ℕ → ℕ → Type 0
HexDigit c v =
    (v < 10) × (c ≡ v + 48)
    ⊎ (10 ≤ v) × (v < 16) × (c ≡ v + 55)
    ⊎ (10 ≤ v) × (v < 16) × (c ≡ v + 87)

-- The texts and what they stand for: a plus for a space, `%` and two digits for a byte, and any
-- other character for itself.
pub data Decodes : Bytes → Bytes → Type 0 where
  done : Decodes [] []
  space : {c : ℕ} {s r : Bytes} → c ≡ b'+' → Decodes s r → Decodes (c ∷ s) (b' ' ∷ r)
  escape :
      {c h l v w : ℕ} {s r : Bytes}
      → c ≡ b'%'
      → HexDigit h v
      → HexDigit l w
      → Decodes s r
      → Decodes (c ∷ h ∷ l ∷ s) ((v * 16 + w) ∷ r)
  plain : {c : ℕ} {s r : Bytes} → c ≢ b'+' → c ≢ b'%' → Decodes s r → Decodes (c ∷ s) (c ∷ r)

HexDigit-of_isxdigit : (c : ℕ) → isxdigit c ≡ true → HexDigit c (hex_to_val c)
unfolding isxdigit hex_to_val
HexDigit-of_isxdigit c h = ground arith

hex_to_val_of_HexDigit : (c v : ℕ) → HexDigit c v → (isxdigit c ≡ true) × (hex_to_val c ≡ v)
unfolding isxdigit hex_to_val
hex_to_val_of_HexDigit c v h = ground arith

hex_escape-eq-ok :
    (h l : ℕ) (s : Bytes) (x : ℕ)
    → hex_escape (h ∷ l ∷ s) ≡ ok x
    → (isxdigit h ≡ true) × (isxdigit l ≡ true) × (hex_to_val h * 16 + hex_to_val l ≡ x)
unfolding hex_escape
hex_escape-eq-ok h l s x e = ground arith

-- One round of the loop, taken apart.
data Round (c : ℕ) (s : Bytes) : Bytes → Type 0 where
  spaced : {r : Bytes} → c ≡ b'+' → decode_from 0 s ≡ ok r → Round c s (b' ' ∷ r)
  escaped :
      {v : ℕ} {r : Bytes}
      → c ≡ b'%'
      → hex_escape s ≡ ok v
      → decode_from 2 s ≡ ok r
      → Round c s (v ∷ r)
  kept : {r : Bytes} → c ≢ b'+' → c ≢ b'%' → decode_from 0 s ≡ ok r → Round c s (c ∷ r)

push_back-eq-ok :
    (c : ℕ) (rest : Result Bytes) (r : Bytes)
    → push_back c rest ≡ ok r
    → (t : Bytes) × (rest ≡ ok t) × (c ∷ t ≡ r)
push_back-eq-ok c (ok t) r e = (t, refl, ground arith)
push_back-eq-ok c (throws x) r e = cc

Round_of_decode : (c : ℕ) (s r : Bytes) → decode_from 0 (c ∷ s) ≡ ok r → Round c s r
unfolding decode_from
Round_of_decode c s r e = elim (Bool-cases (c == b'+')) [
  | inl plus ↦
      let (t, got, same) = push_back-eq-ok b' ' (decode_from 0 s) r (rw plus at e) in
      subst (Round c s) same (spaced (ground arith) got)
  | inr other ↦ elim (Bool-cases (c == b'%')) [
    | inl percent ↦
        let (v, value, e') =
          Result-map-eq-ok (hex_escape s) (λ val. push_back val (decode_from 2 s))
            (rw percent at (rw other at e)) in
        let (t, got, same) = push_back-eq-ok v (decode_from 2 s) r e' in
        subst (Round c s) same (escaped (ground arith) value got)
    | inr plain_char ↦
        let (t, got, same) =
          push_back-eq-ok c (decode_from 0 s) r (rw plain_char at (rw other at e)) in
        subst (Round c s) same (kept (ground arith) (ground arith) got)
  ]
]

too_short : (s : Bytes) (v : ℕ) → hex_escape s ≡ ok v → 2 ≤ length s
unfolding hex_escape
too_short [] v e = cc
too_short (h ∷ []) v e = cc
too_short (h ∷ l ∷ t) v e = omega arith

Decodes-of_Round :
    {c : ℕ} {s r : Bytes}
    → Round c s r
    → ((t : Bytes) → decode_from 0 s ≡ ok t → Decodes s t)
    → ((t : Bytes) → decode_from 0 (drop 2 s) ≡ ok t → Decodes (drop 2 s) t)
    → Decodes (c ∷ s) r
unfolding decode_from
Decodes-of_Round (spaced p got) next skip = space p (next _ got)
Decodes-of_Round (kept p q got) next skip = plain p q (next _ got)
Decodes-of_Round {s = []} (escaped p value got) next skip =
    absurd (omega (arith, too_short [] _ value))
Decodes-of_Round {s = h ∷ []} (escaped p value got) next skip =
    absurd (omega (arith, too_short (h ∷ []) _ value))
Decodes-of_Round {c} {s = h ∷ l ∷ u} (escaped {v = v} {r = r} p value got) next skip =
    let (is_h, is_l, same) = hex_escape-eq-ok h l u v value in
    subst (λ x. Decodes (c ∷ h ∷ l ∷ u) (x ∷ r)) same
      (escape p (HexDigit-of_isxdigit h is_h) (HexDigit-of_isxdigit l is_l) (skip r got))

Decodes-of_decode : (s r : Bytes) → decode_from 0 s ≡ ok r → Decodes s r
unfolding decode_from
Decodes-of_decode [] r e = subst (Decodes []) (ground arith) done
Decodes-of_decode (c ∷ []) r e =
    Decodes-of_Round (Round_of_decode c [] r e) (Decodes-of_decode []) (Decodes-of_decode [])
Decodes-of_decode (c ∷ h ∷ []) r e =
    Decodes-of_Round (Round_of_decode c (h ∷ []) r e) (Decodes-of_decode (h ∷ []))
      (Decodes-of_decode [])
Decodes-of_decode (c ∷ h ∷ l ∷ s) r e =
    Decodes-of_Round (Round_of_decode c (h ∷ l ∷ s) r e) (Decodes-of_decode (h ∷ l ∷ s))
      (Decodes-of_decode s)

decode_of_Decodes : {s r : Bytes} → Decodes s r → decode_from 0 s ≡ ok r
unfolding decode_from hex_escape
decode_of_Decodes done = refl
decode_of_Decodes (space p d) = ground (arith, decode_of_Decodes d)
decode_of_Decodes (escape {h = h} {l = l} {v = v} {w = w} p hd hl d) =
    ground
      (arith, decode_of_Decodes d, hex_to_val_of_HexDigit h v hd, hex_to_val_of_HexDigit l w hl)
decode_of_Decodes (plain p q d) = ground (arith, decode_of_Decodes d)

-- `decode` returns a text exactly when the input is well formed, and then the text that the input
-- stands for.
pub decode_iff : (s r : Bytes) → (decode s ≡ ok r) ↔ Decodes s r
unfolding decode
decode_iff s r = (Decodes-of_decode s r, decode_of_Decodes)

-- Percent encoding: unreserved characters stand for themselves, and every other byte is written
-- with the digits of `ToHex`.
unfoldable pub is_unreserved : ℕ → Bool
is_unreserved c =
    (leb b'a' c && leb c b'z')
    || (leb b'A' c && leb c b'Z')
    || (leb b'0' c && leb c b'9')
    || (c == b'-')
    || (c == b'_')
    || (c == b'.')
    || (c == b'~')

unfoldable pub percent_encode : Bytes → Bytes
unfolding is_unreserved to_hex
percent_encode [] = []
percent_encode (c ∷ s) =
    let rest = percent_encode s in
    if is_unreserved c then c ∷ rest else b'%' ∷ to_hex (c / 16) ∷ to_hex (c % 16) ∷ rest

HexDigit-to_hex : (v : ℕ) → v < 16 → HexDigit (to_hex v) v
unfolding to_hex
HexDigit-to_hex v h = ground arith

unreserved_plain : (c : ℕ) → is_unreserved c ≡ true → (c ≢ b'+') × (c ≢ b'%')
unfolding is_unreserved
unreserved_plain c h = ground arith

Decodes-percent_encode : (s : Bytes) → All (λ c. c < 256) s → Decodes (percent_encode s) s
unfolding percent_encode
Decodes-percent_encode [] h = done
Decodes-percent_encode (c ∷ s) (lt, h) = elim (Bool-cases (is_unreserved c)) [
  | inl u ↦
      rw u (plain (unreserved_plain c u).0 (unreserved_plain c u).1 (Decodes-percent_encode s h))
  | inr u ↦ rw u (
      subst (λ x. Decodes (b'%' ∷ to_hex (c / 16) ∷ to_hex (c % 16) ∷ percent_encode s) (x ∷ s))
        (omega arith)
        (escape refl (HexDigit-to_hex (c / 16) (omega arith))
          (HexDigit-to_hex (c % 16) (omega arith)) (Decodes-percent_encode s h)))
]

-- Decoding gives back every text of bytes from its percent encoding.
pub decode-percent_encode : (s : Bytes) → All (λ c. c < 256) s → decode (percent_encode s) ≡ ok s
decode-percent_encode s h = (decode_iff (percent_encode s) s).1 (Decodes-percent_encode s h)

from_hex_of_HexDigit : (c v : ℕ) → HexDigit c v → (from_hex c ≡ some v) × (v < 16)
unfolding from_hex
from_hex_of_HexDigit c v h = ground arith

url_decode_of_Decodes : {s r : Bytes} → Decodes s r → url_decode_from 0 s ≡ some r
unfolding url_decode_from
url_decode_of_Decodes done = refl
url_decode_of_Decodes (space p d) = ground (arith, url_decode_of_Decodes d)
url_decode_of_Decodes (escape {h = h} {l = l} {v = v} {w = w} p hd hl d) =
    ground
      (arith, url_decode_of_Decodes d, from_hex_of_HexDigit h v hd, from_hex_of_HexDigit l w hl)
url_decode_of_Decodes (plain p q d) = ground (arith, url_decode_of_Decodes d)

-- Where `UrlUtils::decode` returns a text, `UrlDecode` passes its assertions and returns the same.
pub url_decode-eq-decode : (s r : Bytes) → decode s ≡ ok r → url_decode s ≡ some r
unfolding url_decode
url_decode-eq-decode s r e = url_decode_of_Decodes ((decode_iff s r).0 e)

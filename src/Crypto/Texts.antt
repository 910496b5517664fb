-- ===== src/Crypto/Texts.antt =====
-- MD5 texts and the storage path made from them.
use cdfs.Base.{
  ℕ, ◌+◌, ◌-◌, ◌*◌, ◌/◌, ◌%◌, ◌≤◌, ◌<◌, ◌≡◌, refl, sym, ap, ◌∙◌, ◌⊎◌, [], ◌∷◌, ◌++◌, arith, leb,
  if◌then◌else◌, Bytes, All, Avoids, length, take, drop, is_at, ok,
}
use cdfs.Paths.{slash, path_append}
use cdfs.Crypto.{Digest, hex_digit, to_hex_text, md5, md5_to_rel_path}

-- A lower case hexadecimal digit.
abbrev pub IsLowerHex : ℕ → Type 0
IsLowerHex c = (b'0' ≤ c) × (c ≤ b'9') ⊎ (b'a' ≤ c) × (c ≤ b'f')

hex_digit-IsLowerHex : (v : ℕ) → v < 16 → IsLowerHex (hex_digit v)
unfolding hex_digit
hex_digit-IsLowerHex v h = ground arith

to_hex_text_shape :
    (s : Bytes)
    → All (λ c. c < 256) s
    → (length (to_hex_text s) ≡ 2 * length s) × All IsLowerHex (to_hex_text s)
unfolding to_hex_text
to_hex_text_shape [] h = (omega arith, tt)
to_hex_text_shape (c ∷ s) (p, h) =
    let (long, digits) = to_hex_text_shape s h in
    (
      omega (arith, long),
      (
        hex_digit-IsLowerHex (c / 16) (omega arith),
        (hex_digit-IsLowerHex (c % 16) (omega arith), digits),
      ),
    )

-- The MD5 text of every content has 32 characters, all of them lower case hexadecimal digits.
pub md5_shape :
    (d : Digest) (content : Bytes) → (length (md5 d content) ≡ 32) × All IsLowerHex (md5 d content)
unfolding md5
md5_shape d content =
    let (long, digits) = to_hex_text_shape (d.digest content) (d.digest_bytes content) in
    (omega (arith, long, d.digest_length content), digits)

hex_value : ℕ → ℕ
hex_value c = if leb c b'9' then c - b'0' else c - b'a' + 10

hex_value-hex_digit : (v : ℕ) → v < 16 → hex_value (hex_digit v) ≡ v
unfolding hex_value hex_digit
hex_value-hex_digit v h = ground arith

hex_digit_injective : (v w : ℕ) → v < 16 → w < 16 → hex_digit v ≡ hex_digit w → v ≡ w
hex_digit_injective v w h k e =
    sym (hex_value-hex_digit v h) ∙ ap hex_value e ∙ hex_value-hex_digit w k

-- Two texts of bytes with the same hexadecimal text are the same: the MD5 text loses nothing of
-- the digest.
to_hex_text_injective :
    (s t : Bytes)
    → All (λ c. c < 256) s
    → All (λ c. c < 256) t
    → to_hex_text s ≡ to_hex_text t
    → s ≡ t
unfolding to_hex_text
to_hex_text_injective [] [] h k e = refl
to_hex_text_injective [] (d ∷ t) h k e = cc
to_hex_text_injective (c ∷ s) [] h k e = cc
to_hex_text_injective (c ∷ s) (d ∷ t) (p, h) (q, k) e =
    let high = hex_digit_injective (c / 16) (d / 16) (omega arith) (omega arith) (cc) in
    let low = hex_digit_injective (c % 16) (d % 16) (omega arith) (omega arith) (cc) in
    let same : c ≡ d = omega (arith, high, low) in
    let rest : s ≡ t = to_hex_text_injective s t h k (cc) in cc (same, rest)

-- A text of at least four characters without a slash, such as an MD5 text, is stored under two
-- directories, named by its first two characters and by the two behind them.
md5_to_rel_path-eq :
    (m : Bytes)
    → 4 ≤ length m
    → Avoids slash m
    → md5_to_rel_path m ≡ ok (take 2 m ++ slash ∷ (take 2 (drop 2 m) ++ slash ∷ m))
unfolding md5_to_rel_path path_append is_at
md5_to_rel_path-eq (a ∷ b ∷ c ∷ d ∷ r) long (pa, (pb, (pc, (pd, h)))) = ground arith
md5_to_rel_path-eq [] long h = absurd (omega arith)
md5_to_rel_path-eq (a ∷ []) long h = absurd (omega arith)
md5_to_rel_path-eq (a ∷ b ∷ []) long h = absurd (omega arith)
md5_to_rel_path-eq (a ∷ b ∷ c ∷ []) long h = absurd (omega arith)

-- ===== src/Util.antt =====
-- common/util.h: hexadecimal digits, a second URL decoder, and the names of HTTP methods.
pub mod ByteOrder
use cdfs.Base.{
  ◌^◌, ◌/◌, ℕ, zero, suc, Bool, ◌+◌, ◌-◌, ◌*◌, ◌%◌, ◌&&◌, Option, none, some, [], ◌∷◌, leb, ltb,
  ◌==◌, if◌then◌else◌, Bytes, codes,
}

-- `ToHex`, on `unsigned char`
unfoldable pub to_hex : ℕ → ℕ
to_hex x = (if ltb 9 x then x + 55 else x + 48) % 256

-- `FromHex`: `none` where `assert(0)` stops the program. Letters after F pass.
unfoldable pub from_hex : ℕ → Option ℕ
from_hex x =
    if leb b'A' x && leb x b'Z'
    then some (x - b'A' + 10)
    else if leb b'a' x && leb x b'z'
    then some (x - b'a' + 10)
    else if leb b'0' x && leb x b'9'
    then some (x - b'0')
    else none

-- The two digits behind a `%`: `none` where the assertion on the length or on a digit fails.
unfoldable pub url_decode_digits : Bytes → Option ℕ
unfolding from_hex
url_decode_digits (h ∷ l ∷ s) = elim (from_hex h) [
  | none ↦ none
  | some high ↦ elim (from_hex l) [ none ↦ none | some low ↦ some ((high * 16 + low) % 256) ]
]
url_decode_digits _ = none

abbrev pub push : ℕ → Option Bytes → Option Bytes
push c none = none
push c (some s) = some (c ∷ s)

abbrev pub push_digits : Option ℕ → Option Bytes → Option Bytes
push_digits none rest = none
push_digits (some c) rest = push c rest

-- The loop of `UrlDecode` from some index on. The first argument counts the characters that
-- `++i` passes over before the next round.
unfoldable pub url_decode_from : ℕ → Bytes → Option Bytes
unfolding url_decode_digits
url_decode_from n [] = some []
url_decode_from (suc n) (c ∷ s) = url_decode_from n s
url_decode_from zero (c ∷ s) =
    let escape = push_digits (url_decode_digits s) (url_decode_from 2 s) in
    let next = url_decode_from 0 s in
    if c == b'+' then push b' ' next else if c == b'%' then escape else push c next

-- `UrlDecode`: `none` where an assertion fails
unfoldable pub url_decode : Bytes → Option Bytes
unfolding url_decode_from
url_decode str = url_decode_from 0 str

-- `http::verb`; `other` stands for the verbs that the program does not name, by a number
pub data Verb : Type 0 where
  get post put delete head options : Verb
  other : ℕ → Verb

unfoldable pub verb_to_string : Verb → Bytes
verb_to_string get = codes "GET"
verb_to_string post = codes "POST"
verb_to_string put = codes "PUT"
verb_to_string delete = codes "DELETE"
verb_to_string head = codes "HEAD"
verb_to_string _ = codes "UNKNOWN"

abbrev pub verb_code : Verb → ℕ
verb_code get = 0
verb_code post = 1
verb_code put = 2
verb_code delete = 3
verb_code head = 4
verb_code options = 5
verb_code (other n) = n + 6

-- `==` on `http::verb`
abbrev pub verb_eq : Verb → Verb → Bool
verb_eq a b = verb_code a == verb_code b

-- `(val >> n) & 0xFF`
abbrev pub byte_at : ℕ → ℕ → ℕ
byte_at val n = val / 2 ^ n % 256

-- `(res << 8) | byte` on 64 bits. The eight low bits of the shifted value are 0, so `|` adds.
abbrev pub shift_in : ℕ → ℕ → ℕ
shift_in res byte = res * 256 % 2 ^ 64 + byte

-- `host_to_net64`: the eight rounds of its loop, from the lowest byte on.
unfoldable pub host_to_net64 : ℕ → ℕ
host_to_net64 val =
    shift_in
      (shift_in
        (shift_in
          (shift_in
            (shift_in
              (shift_in (shift_in (shift_in 0 (byte_at val 0)) (byte_at val 8)) (byte_at val 16))
              (byte_at val 24))
            (byte_at val 32))
          (byte_at val 40))
        (byte_at val 48))
      (byte_at val 56)

-- `net_to_host64`: the eight rounds of its loop, from the highest byte on.
unfoldable pub net_to_host64 : ℕ → ℕ
net_to_host64 val =
    shift_in
      (shift_in
        (shift_in
          (shift_in
            (shift_in
              (shift_in (shift_in (shift_in 0 (byte_at val 56)) (byte_at val 48)) (byte_at val 40))
              (byte_at val 32))
            (byte_at val 24))
          (byte_at val 16))
        (byte_at val 8))
      (byte_at val 0)

-- ===== src/Util/ByteOrder.antt =====
-- What the two 64-bit byte order functions of common/util.h do.
use cdfs.Base.{ℕ, ◌+◌, ◌*◌, ◌^◌, ◌<◌, ◌≡◌, sym, ap, ◌∙◌, arith}
use cdfs.Util.{byte_at, shift_in, host_to_net64, net_to_host64}

-- `net_to_host64` gives every 64-bit value back unchanged: it swaps no bytes.
net_to_host64-id : (val : ℕ) → val < 2 ^ 64 → net_to_host64 val ≡ val
unfolding net_to_host64
net_to_host64-id val h = omega arith

-- The value whose bytes, from the lowest on, are given.
pub of_bytes : ℕ → ℕ → ℕ → ℕ → ℕ → ℕ → ℕ → ℕ → ℕ
of_bytes a b c d e f g h =
    a + b * 2 ^ 8 + c * 2 ^ 16 + d * 2 ^ 24 + e * 2 ^ 32 + f * 2 ^ 40 + g * 2 ^ 48 + h * 2 ^ 56

module _ (a b c d e f g h : ℕ) (lt_a : a < 256) (lt_b : b < 256) (lt_c : c < 256) (lt_d : d < 256)
    (lt_e : e < 256) (lt_f : f < 256) (lt_g : g < 256) (lt_h : h < 256) where
  shift_in_all :
      shift_in
        (shift_in (shift_in (shift_in (shift_in (shift_in (shift_in (shift_in 0 h) g) f) e) d) c) b)
        a
      ≡ of_bytes a b c d e f g h
  unfolding of_bytes
  shift_in_all = omega arith

  byte_0 : byte_at (of_bytes a b c d e f g h) 0 ≡ a
  unfolding of_bytes
  byte_0 = omega arith

  byte_1 : byte_at (of_bytes a b c d e f g h) 8 ≡ b
  unfolding of_bytes
  byte_1 = omega arith

  byte_2 : byte_at (of_bytes a b c d e f g h) 16 ≡ c
  unfolding of_bytes
  byte_2 = omega arith

  byte_3 : byte_at (of_bytes a b c d e f g h) 24 ≡ d
  unfolding of_bytes
  byte_3 = omega arith

  byte_4 : byte_at (of_bytes a b c d e f g h) 32 ≡ e
  unfolding of_bytes
  byte_4 = omega arith

  byte_5 : byte_at (of_bytes a b c d e f g h) 40 ≡ f
  unfolding of_bytes
  byte_5 = omega arith

  byte_6 : byte_at (of_bytes a b c d e f g h) 48 ≡ g
  unfolding of_bytes
  byte_6 = omega arith

  byte_7 : byte_at (of_bytes a b c d e f g h) 56 ≡ h
  unfolding of_bytes
  byte_7 = omega arith

module _ (a b c d e f g h : ℕ) (lt_a : a < 256) (lt_b : b < 256) (lt_c : c < 256) (lt_d : d < 256)
    (lt_e : e < 256) (lt_f : f < 256) (lt_g : g < 256) (lt_h : h < 256) where
  host_to_net64-of_bytes : host_to_net64 (of_bytes a b c d e f g h) ≡ of_bytes h g f e d c b a
  unfolding host_to_net64
  host_to_net64-of_bytes = rw (byte_0 a b c d e f g h lt_a lt_b lt_c lt_d lt_e lt_f lt_g lt_h) (
      rw (byte_1 a b c d e f g h lt_a lt_b lt_c lt_d lt_e lt_f lt_g lt_h) (
        rw (byte_2 a b c d e f g h lt_a lt_b lt_c lt_d lt_e lt_f lt_g lt_h) (
          rw (byte_3 a b c d e f g h lt_a lt_b lt_c lt_d lt_e lt_f lt_g lt_h) (
            rw (byte_4 a b c d e f g h lt_a lt_b lt_c lt_d lt_e lt_f lt_g lt_h) (
              rw (byte_5 a b c d e f g h lt_a lt_b lt_c lt_d lt_e lt_f lt_g lt_h) (
                rw (byte_6 a b c d e f g h lt_a lt_b lt_c lt_d lt_e lt_f lt_g lt_h) (
                  rw (byte_7 a b c d e f g h lt_a lt_b lt_c lt_d lt_e lt_f lt_g lt_h)
                    (shift_in_all h g f e d c b a lt_h lt_g lt_f lt_e lt_d lt_c lt_b lt_a))))))))

abbrev IsByteAt : ℕ → ℕ → Type 0
IsByteAt val n = byte_at val n < 256

of_bytes-byte_at :
    (val : ℕ)
    → val < 2 ^ 64
    → val
      ≡ of_bytes
          (byte_at val 0)
          (byte_at val 8)
          (byte_at val 16)
          (byte_at val 24)
          (byte_at val 32)
          (byte_at val 40)
          (byte_at val 48)
          (byte_at val 56)
unfolding of_bytes
of_bytes-byte_at val lt = omega arith

-- `host_to_net64` reverses the bytes of every 64-bit value, and so gives the value back when it is
-- applied twice.
host_to_net64-reverses :
    (val : ℕ)
    → val < 2 ^ 64
    → (host_to_net64 val
        ≡ of_bytes
            (byte_at val 56)
            (byte_at val 48)
            (byte_at val 40)
            (byte_at val 32)
            (byte_at val 24)
            (byte_at val 16)
            (byte_at val 8)
            (byte_at val 0))
      × (host_to_net64 (host_to_net64 val) ≡ val)
host_to_net64-reverses val lt =
    let lts : (n : ℕ) → IsByteAt val n = λ n. omega arith in
    let once =
      ap host_to_net64 (of_bytes-byte_at val lt)
      ∙ host_to_net64-of_bytes _ _ _ _ _ _ _ _ (lts 0) (lts 8) (lts 16) (lts 24) (lts 32) (lts 40)
          (lts 48) (lts 56) in
    (
      once,
      ap host_to_net64 once
          ∙ host_to_net64-of_bytes _ _ _ _ _ _ _ _ (lts 56) (lts 48) (lts 40) (lts 32) (lts 24)
              (lts 16) (lts 8) (lts 0)
          ∙ sym (of_bytes-byte_at val lt),
    )

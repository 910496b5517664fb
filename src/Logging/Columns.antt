-- ===== src/Logging/Columns.antt =====
-- The columns of a time: numbers in a fixed width, and the text that is made of them.
use mathlib.Core.List.{append_assoc}
use cdfs.Base.{
  ℕ, zero, suc, ◌+◌, ◌-◌, ◌/◌, ◌%◌, ◌<◌, ◌≡◌, refl, sym, ap, ◌∙◌, Bool-cases, true, false, inl, inr,
  [], ◌∷◌, ◌++◌, ltb, if◌then◌else◌, Bytes, codes, length, length-append, to_string, digits_from,
  pow10, length-to_string, arith,
}
use cdfs.Logging.{
  LogLevel, trace, debug, info, warn, error, fatal, log_level_name, Tm, padded, time_text,
  replicate,
}

-- The year has four digits, and the other numbers two.
pub record IsTime (tm : Tm) : Type 0 where
  pub year : tm.year < 10000
  pub mon : tm.mon < 100
  pub mday : tm.mday < 100
  pub hour : tm.hour < 100
  pub min : tm.min < 100
  pub sec : tm.sec < 100

length-replicate : (n c : ℕ) → length (replicate n c) ≡ n
unfolding replicate
length-replicate zero c = refl
length-replicate (suc n) c = ap suc (length-replicate n c)

length-padded : (pad k n : ℕ) → n < pow10 (suc k) → length (padded pad (suc k) n) ≡ suc k
unfolding padded
length-padded pad k n h = omega (
  arith,
  length-append (replicate (suc k - length (to_string n)) pad) (to_string n),
  length-replicate (suc k - length (to_string n)) pad,
  length-to_string k n h,
)

pub length-time_text : (tm : Tm) → IsTime tm → length (time_text tm) ≡ 17
unfolding time_text
length-time_text tm h = omega (
  arith,
  length-append {0},
  length-padded b' ' 3 tm.year h.year,
  length-padded b'0' 1 tm.mon h.mon,
  length-padded b'0' 1 tm.mday h.mday,
  length-padded b'0' 1 tm.hour h.hour,
  length-padded b'0' 1 tm.min h.min,
  length-padded b'0' 1 tm.sec h.sec,
)

-- A number in a column of a given width, from its last digit to its first, filled up at the front.
abbrev pub column : ℕ → ℕ → ℕ → Bytes
column pad zero n = []
column pad (suc width) n =
    let front = column pad width (n / 10) in
    (if ltb n 10 then replicate width pad else front) ++ (n % 10 + 48) ∷ []

-- A time as an entry has it: 20251224 18:30:05.
abbrev pub written_time : Tm → Bytes
written_time tm =
    column b' ' 4 tm.year
    ++ (column b'0' 2 tm.mon
        ++ (column b'0' 2 tm.mday
            ++ (codes " "
                ++ (column b'0' 2 tm.hour
                    ++ (codes ":"
                        ++ (column b'0' 2 tm.min ++ (codes ":" ++ column b'0' 2 tm.sec)))))))

-- The name of a level, in a column of six.
abbrev pub level_text : LogLevel → Bytes
level_text trace = codes "TRACE "
level_text debug = codes "DEBUG "
level_text info = codes "INFO  "
level_text warn = codes "WARN  "
level_text error = codes "ERROR "
level_text fatal = codes "FATAL "

pub log_level_name-eq-level_text : (level : LogLevel) → log_level_name level ≡ level_text level
unfolding log_level_name
log_level_name-eq-level_text trace = refl
log_level_name-eq-level_text debug = refl
log_level_name-eq-level_text info = refl
log_level_name-eq-level_text warn = refl
log_level_name-eq-level_text error = refl
log_level_name-eq-level_text fatal = refl

digits_from_enough :
    (fuel fuel' n : ℕ) → n < fuel → n < fuel' → digits_from fuel n ≡ digits_from fuel' n
unfolding digits_from
digits_from_enough zero fuel' n h k = absurd (omega arith)
digits_from_enough (suc fuel) zero n h k = absurd (omega arith)
digits_from_enough (suc fuel) (suc fuel') n h k = elim (Bool-cases (ltb n 10)) [
  | inl small ↦ rw small refl
  | inr large ↦ rw large (
      ap (λ s. s ++ (n % 10 + b'0') ∷ [])
        (digits_from_enough fuel fuel' (n / 10) (ground arith) (ground arith)))
]

to_string_small : (n : ℕ) → ltb n 10 ≡ true → to_string n ≡ (n % 10 + 48) ∷ []
unfolding to_string digits_from
to_string_small n h = let same : n % 10 ≡ n = ground arith in rw (h, same) refl

to_string_large :
    (n : ℕ) → ltb n 10 ≡ false → to_string n ≡ to_string (n / 10) ++ (n % 10 + 48) ∷ []
unfolding to_string digits_from
to_string_large n h = rw h (
    ap (λ s. s ++ (n % 10 + b'0') ∷ [])
      (digits_from_enough n (suc (n / 10)) (n / 10) (ground arith) (omega arith)))

pub padded-eq-column :
    (pad k n : ℕ) → n < pow10 (suc k) → padded pad (suc k) n ≡ column pad (suc k) n
unfolding padded
padded-eq-column pad zero n h =
    let small : ltb n 10 ≡ true = ground arith in
    rw (to_string_small n small, padded) (rw small refl)
padded-eq-column pad (suc k) n h = elim (Bool-cases (ltb n 10)) [
  | inl small ↦
      let rest : suc (suc k) - 1 ≡ suc k = omega arith in
      rw (to_string_small n small, padded) (rw (small, rest) refl)
  | inr large ↦
      let front = replicate (suc k - length (to_string (n / 10))) pad in
      let len : suc (suc k) - length (to_string n) ≡ suc k - length (to_string (n / 10)) = omega (
        arith,
        ap length (to_string_large n large),
        length-append (to_string (n / 10)) ((n % 10 + 48) ∷ []),
      ) in
      let ih = padded-eq-column pad k (n / 10) (omega arith) in
      rw (len, padded)
        (rw (to_string_large n large) (
          rw large (
            sym (append_assoc front (to_string (n / 10)) ((n % 10 + 48) ∷ []))
            ∙ ap (λ s. s ++ (n % 10 + 48) ∷ []) ih)))
]

pub time_text-eq-written_time : (tm : Tm) → IsTime tm → time_text tm ≡ written_time tm
unfolding time_text
time_text-eq-written_time tm h = rw (
  padded-eq-column b' ' 3 tm.year h.year,
  padded-eq-column b'0' 1 tm.mon h.mon,
  padded-eq-column b'0' 1 tm.mday h.mday,
  padded-eq-column b'0' 1 tm.hour h.hour,
  padded-eq-column b'0' 1 tm.min h.min,
  padded-eq-column b'0' 1 tm.sec h.sec,
  time_text,
)

-- ===== src/Crypto/Names.antt =====
-- What `CryptoUtils::trim_filename_special_char` leaves of a file name.
use mathlib.Core.Path.{subst}
use cdfs.Base.{
  ℕ, ◌+◌, ◌≡◌, refl, sym, ap, ◌∙◌, ◌≢◌, inl, inr, false, [], ◌∷◌, arith, ◌==◌, Bool-cases, Bytes,
  All,
}
use cdfs.Crypto.{
  is_special, remove_special, remove_dot_runs, erase_front_dot, pop_back_dot,
  trim_filename_special_char,
}

abbrev pub dot : ℕ
dot = b'.'

abbrev pub HasNoSpecial : Bytes → Type 0
HasNoSpecial s = All (λ c. is_special c ≡ false) s

abbrev pub HasNoRuns : Bytes → Type 0
HasNoRuns [] = Unit
HasNoRuns (c ∷ []) = Unit
HasNoRuns (c ∷ d ∷ s) = (c ≡ dot → d ≢ dot) × HasNoRuns (d ∷ s)

abbrev pub FrontIsNoDot : Bytes → Type 0
FrontIsNoDot [] = Unit
FrontIsNoDot (c ∷ s) = c ≢ dot

abbrev pub BackIsNoDot : Bytes → Type 0
BackIsNoDot [] = Unit
BackIsNoDot (c ∷ []) = c ≢ dot
BackIsNoDot (c ∷ d ∷ s) = BackIsNoDot (d ∷ s)

-- A name without special characters and without two dots in a row, that neither begins nor ends
-- with a dot.
pub record IsClean (s : Bytes) : Type 0 where
  pub plain : HasNoSpecial s
  pub runs : HasNoRuns s
  pub front : FrontIsNoDot s
  pub back : BackIsNoDot s

remove_special-HasNoSpecial : (s : Bytes) → HasNoSpecial (remove_special s)
unfolding remove_special
remove_special-HasNoSpecial [] = tt
remove_special-HasNoSpecial (c ∷ s) = elim (Bool-cases (is_special c)) [
  | inl t ↦ rw t (remove_special-HasNoSpecial s)
  | inr f ↦ rw f (f, remove_special-HasNoSpecial s)
]

dot_plain : is_special dot ≡ false
unfolding is_special
dot_plain = refl

HasNoRuns-cons : (c : ℕ) (s : Bytes) → c ≢ dot → HasNoRuns s → HasNoRuns (c ∷ s)
HasNoRuns-cons c [] h k = tt
HasNoRuns-cons c (d ∷ s) h k = ((λ e. absurd (h e)), k)

HasNoRuns-tail : (c : ℕ) (s : Bytes) → HasNoRuns (c ∷ s) → HasNoRuns s
HasNoRuns-tail c [] h = tt
HasNoRuns-tail c (d ∷ s) h = h.1

remove_dot_runs_clean :
    (n : ℕ) (s : Bytes)
    → HasNoSpecial s
    → HasNoSpecial (remove_dot_runs n s) × HasNoRuns (remove_dot_runs n s)
unfolding remove_dot_runs
remove_dot_runs_clean n [] h = elim (Bool-cases (n == 1)) [
  | inl one ↦ rw one ((dot_plain, tt), tt)
  | inr other ↦ rw other (tt, tt)
]
remove_dot_runs_clean n (c ∷ s) (p, h) = elim (Bool-cases (c == b'.')) [
  | inl t ↦ rw t (remove_dot_runs_clean (n + 1) s h)
  | inr f ↦
      let (plain, runs) = remove_dot_runs_clean 0 s h in
      let c_ne : c ≢ dot = ground arith in
      let rest_runs = HasNoRuns-cons c (remove_dot_runs 0 s) c_ne runs in
      elim (Bool-cases (n == 1)) [
        | inl one ↦ rw f (rw one ((dot_plain, (p, plain)), ((λ e. c_ne), rest_runs)))
        | inr other ↦ rw f (rw other ((p, plain), rest_runs))
      ]
]

erase_front_dot_clean :
    (s : Bytes)
    → HasNoSpecial s
    → HasNoRuns s
    → HasNoSpecial (erase_front_dot s)
      × HasNoRuns (erase_front_dot s)
      × FrontIsNoDot (erase_front_dot s)
unfolding erase_front_dot
erase_front_dot_clean [] h k = (tt, tt, tt)
erase_front_dot_clean (c ∷ []) h k = elim (Bool-cases (c == b'.')) [
  | inl t ↦ rw t (tt, tt, tt)
  | inr f ↦ rw f (h, tt, ground arith)
]
erase_front_dot_clean (c ∷ d ∷ s) (p, h) (q, k) = elim (Bool-cases (c == b'.')) [
  | inl t ↦ rw t (h, k, q (ground arith))
  | inr f ↦ rw f ((p, h), (q, k), ground arith)
]

pop_back_dot_clean :
    (s : Bytes)
    → HasNoSpecial s
    → HasNoRuns s
    → HasNoSpecial (pop_back_dot s) × HasNoRuns (pop_back_dot s) × BackIsNoDot (pop_back_dot s)
unfolding pop_back_dot
pop_back_dot_clean [] h k = (tt, tt, tt)
pop_back_dot_clean (c ∷ []) h k = elim (Bool-cases (c == b'.')) [
  | inl t ↦ rw t (tt, tt, tt)
  | inr f ↦ rw f (h, tt, ground arith)
]
pop_back_dot_clean (c ∷ d ∷ []) (p, h) (q, k) = elim (Bool-cases (d == b'.')) [
  | inl t ↦ rw t ((p, tt), tt, λ e. q e (ground arith))
  | inr f ↦ rw f ((p, h), (q, k), ground arith)
]
pop_back_dot_clean (c ∷ d ∷ e ∷ s) (p, h) (q, k) =
    let (plain, runs, back) = pop_back_dot_clean (d ∷ e ∷ s) h k in ((p, plain), (q, runs), back)

pop_back_dot-FrontIsNoDot : (s : Bytes) → FrontIsNoDot s → FrontIsNoDot (pop_back_dot s)
unfolding pop_back_dot
pop_back_dot-FrontIsNoDot [] h = tt
pop_back_dot-FrontIsNoDot (c ∷ []) h = elim (Bool-cases (c == b'.')) [
  | inl t ↦ rw t tt
  | inr f ↦ rw f h
]
pop_back_dot-FrontIsNoDot (c ∷ d ∷ s) h = h

-- Whatever the file name, what is left of it has no special character (no slash among them), no
-- two dots in a row, and no dot at either end.
pub trim-IsClean : (filename : Bytes) → IsClean (trim_filename_special_char filename)
unfolding trim_filename_special_char
trim-IsClean filename =
    let (plain, runs) =
      remove_dot_runs_clean 0 (remove_special filename) (remove_special-HasNoSpecial filename) in
    let (plain', runs', front) =
      erase_front_dot_clean (remove_dot_runs 0 (remove_special filename)) plain runs in
    let rest = erase_front_dot (remove_dot_runs 0 (remove_special filename)) in
    let (plain'', runs'', back) = pop_back_dot_clean rest plain' runs' in
    record {
      plain = plain'';
      runs = runs'';
      front = pop_back_dot-FrontIsNoDot rest front;
      back = back;
    }

remove_special_of_clean : (s : Bytes) → HasNoSpecial s → remove_special s ≡ s
unfolding remove_special
remove_special_of_clean [] h = refl
remove_special_of_clean (c ∷ s) (p, h) = rw p (ap (λ r. c ∷ r) (remove_special_of_clean s h))

one_dot :
    (s : Bytes) → HasNoRuns (dot ∷ s) → remove_dot_runs 0 s ≡ s → remove_dot_runs 1 s ≡ dot ∷ s
unfolding remove_dot_runs
one_dot [] h e = refl
one_dot (c ∷ s) h e = elim (Bool-cases (c == b'.')) [
  | inl t ↦ absurd (h.0 refl (ground arith))
  | inr f ↦ rw f (ap (λ r. dot ∷ r) (rw f at e))
]

remove_dot_runs_of_clean : (s : Bytes) → HasNoRuns s → remove_dot_runs 0 s ≡ s
unfolding remove_dot_runs
remove_dot_runs_of_clean [] h = refl
remove_dot_runs_of_clean (c ∷ s) h = elim (Bool-cases (c == b'.')) [
  | inl t ↦
      let e : c ≡ dot = ground arith in
      rw t (
        one_dot s (subst (λ x. HasNoRuns (x ∷ s)) e h)
          (remove_dot_runs_of_clean s (HasNoRuns-tail c s h))
        ∙ ap (λ x. x ∷ s) (sym e))
  | inr f ↦ rw f (ap (λ r. c ∷ r) (remove_dot_runs_of_clean s (HasNoRuns-tail c s h)))
]

erase_of_clean : (s : Bytes) → FrontIsNoDot s → erase_front_dot s ≡ s
unfolding erase_front_dot
erase_of_clean [] h = refl
erase_of_clean (c ∷ s) h = ground arith

pop_of_clean : (s : Bytes) → BackIsNoDot s → pop_back_dot s ≡ s
unfolding pop_back_dot
pop_of_clean [] h = refl
pop_of_clean (c ∷ []) h = ground arith
pop_of_clean (c ∷ d ∷ s) h = ap (λ r. c ∷ r) (pop_of_clean (d ∷ s) h)

-- A clean name stays as it is, so cleaning a name twice changes nothing.
trim_of_IsClean : (s : Bytes) → IsClean s → trim_filename_special_char s ≡ s
unfolding trim_filename_special_char
trim_of_IsClean s h =
    rw (remove_special_of_clean s h.plain) (
      rw (remove_dot_runs_of_clean s h.runs)
        (rw (erase_of_clean s h.front) (pop_of_clean s h.back)))

-- ===== src/System/Fields.antt =====
-- What is read of /proc/self/status.
use mathlib.Core.Path.{subst}
use mathlib.Core.Option
use mathlib.Core.List.{append_assoc, append-nil}
use cdfs.Base.{
  ℕ, suc, ◌≡◌, ◌≢◌, refl, sym, ap, ◌∙◌, true, false, Bool-cases, inl, inr, Option, none, some,
  Option-cases, List, [], ◌∷◌, ◌++◌, arith, ◌==◌, if◌then◌else◌, Bytes, codes, drop, starts_with,
  Avoids, All, ℤ, stoi, is_digit, find_first_of,
}
use cdfs.System.{
  lines_from, stol, parse_kb, ProcStatus, read_status_line, read_status_lines, get_proc_status,
}

-- The lines as a text, each with its line end.
abbrev pub unlines : List Bytes → Bytes
unlines [] = []
unlines (line ∷ lines) = line ++ b'\n' ∷ unlines lines

line-lines_from :
    (before line rest : Bytes)
    → Avoids b'\n' line
    → lines_from before (line ++ b'\n' ∷ rest) ≡ (before ++ line) ∷ lines_from [] rest
unfolding lines_from
line-lines_from before [] rest h = ap (λ l. l ∷ lines_from [] rest) (sym (append-nil before))
line-lines_from before (c ∷ line) rest (p, h) =
    let other : (c == b'\n') ≡ false = ground arith in
    rw other (
      line-lines_from (before ++ c ∷ []) line rest h
      ∙ ap (λ l. l ∷ lines_from [] rest) (append_assoc before (c ∷ []) line))

lines_from-unlines :
    (lines : List Bytes) → All (Avoids b'\n') lines → lines_from [] (unlines lines) ≡ lines
unfolding lines_from
lines_from-unlines [] h = refl
lines_from-unlines (line ∷ lines) (p, h) =
    line-lines_from [] line (unlines lines) p ∙ ap (λ r. line ∷ r) (lines_from-unlines lines h)

-- The last of the lines that begins with a text.
abbrev pub last_with : Bytes → List Bytes → Option Bytes
last_with key [] = none
last_with key (line ∷ lines) = elim (last_with key lines) [
  | some found ↦ some found
  | none ↦ if starts_with key line then some line else none
]

-- The value that is read from the line, or the old one where there is no line.
abbrev pub value_of : ℤ → (Bytes → Option ℤ) → Option Bytes → Option ℤ
value_of old read none = some old
value_of old read (some line) = read line

-- The text from its first digit on.
abbrev pub from_digit : Bytes → Option Bytes
from_digit [] = none
from_digit (c ∷ s) = let rest = from_digit s in if is_digit c then some (c ∷ s) else rest

-- The number that stands at the first digit of a text.
abbrev pub first_number : Bytes → Option ℤ
first_number line = elim (from_digit line) [ none ↦ none | some s ↦ stol s ]

first_digit : (s : Bytes) → from_digit s ≡ Option.map (λ n. drop n s) (find_first_of is_digit s)
unfolding find_first_of
first_digit [] = refl
first_digit (c ∷ s) = elim (Bool-cases (is_digit c)) [
  | inl t ↦ rw t refl
  | inr f ↦ rw f (first_digit s ∙ behind (find_first_of is_digit s))
]
  where
    behind :
        (o : Option ℕ)
        → Option.map (λ n. drop n s) o ≡ Option.map (λ n. drop n (c ∷ s)) (Option.map suc o)
    behind none = refl
    behind (some n) = refl

parse_kb-eq-first_number : (line : Bytes) → parse_kb line ≡ first_number line
unfolding parse_kb
parse_kb-eq-first_number line = elim (Option-cases (find_first_of is_digit line)) [
  | inl e ↦
      rw (e, parse_kb)
        (rw (first_digit line ∙ ap (Option.map (λ n. drop n line)) e, first_number) refl)
  | inr (n, e) ↦
      rw (e, parse_kb)
        (rw (first_digit line ∙ ap (Option.map (λ n. drop n line)) e, first_number) refl)
]

pub record IsReadFrom (lines : List Bytes) (p q : ProcStatus) : Type 0 where
  pub memory : some q.mem_kb ≡ value_of p.mem_kb first_number (last_with (codes "VmRSS:") lines)
  pub threads :
      some q.threads
      ≡ value_of p.threads (λ line. stoi (drop 8 line)) (last_with (codes "Threads:") lines)
  pub switches :
      some q.ctxt_switches
      ≡ value_of p.ctxt_switches
          (λ line. stol (drop 24 line))
          (last_with (codes "voluntary_ctxt_switches:") lines)

-- One line: the value of the key, and no other.
record Sets (key : Bytes) (read : Bytes → Option ℤ) (line : Bytes) (old new : ℤ) : Type 0 where
  hit : starts_with key line ≡ true → some new ≡ read line
  miss : starts_with key line ≡ false → new ≡ old

step-value :
    (key : Bytes) (read : Bytes → Option ℤ) (line : Bytes) (lines : List Bytes) (old mid new : ℤ)
    → Sets key read line old mid
    → some new ≡ value_of mid read (last_with key lines)
    → some new ≡ value_of old read (last_with key (line ∷ lines))
step-value key read line lines old mid new s h = elim (Option-cases (last_with key lines)) [
  | inr (found, e) ↦ rw e (rw e at h)
  | inl e ↦ elim (Bool-cases (starts_with key line)) [
    | inl t ↦ rw e (rw t ((rw e at h) ∙ s.hit t))
    | inr f ↦ rw e (rw f ((rw e at h) ∙ ap some (s.miss f)))
  ]
]

-- Texts that begin differently are not both prefixes.
apart_keys :
    (a b : ℕ) (s t line : Bytes)
    → a ≢ b
    → starts_with (a ∷ s) line ≡ true
    → starts_with (b ∷ t) line ≡ false
unfolding starts_with
apart_keys a b s t [] ne h = cc
apart_keys a b s t (c ∷ line) ne h = ground arith

abbrev vm_rss : Bytes
vm_rss = codes "VmRSS:"

abbrev threads_key : Bytes
threads_key = codes "Threads:"

abbrev switches_key : Bytes
switches_key = codes "voluntary_ctxt_switches:"

record SetsAll (line : Bytes) (p q : ProcStatus) : Type 0 where
  memory : Sets vm_rss first_number line p.mem_kb q.mem_kb
  threads : Sets threads_key (λ l. stoi (drop 8 l)) line p.threads q.threads
  switches : Sets switches_key (λ l. stol (drop 24 l)) line p.ctxt_switches q.ctxt_switches

same_value :
    (key : Bytes) (read : Bytes → Option ℤ) (line : Bytes) (old : ℤ)
    → starts_with key line ≡ false
    → Sets key read line old old
same_value key read line old f = record { hit = λ t. absurd (cc (sym t ∙ f)); miss = λ x. refl }

new_value :
    (key : Bytes) (read : Bytes → Option ℤ) (line : Bytes) (old new : ℤ)
    → starts_with key line ≡ true
    → read line ≡ some new
    → Sets key read line old new
new_value key read line old new t r = record {
  hit = λ x. sym r;
  miss = λ f. absurd (cc (sym t ∙ f));
}

some_status : {p q : ProcStatus} → some p ≡ some q → p ≡ q
some_status e = cc

line-SetsAll :
    (line : Bytes) (p q : ProcStatus) → read_status_line line p ≡ some q → SetsAll line p q
unfolding read_status_line
line-SetsAll line p q e = elim (Bool-cases (starts_with vm_rss line)) [
  | inl t ↦ elim (Option-cases (parse_kb line)) [
    | inl x ↦ absurd (cc (rw (x, read_status_line) at (rw t at e)))
    | inr (n, x) ↦
        let same = some_status (rw (x, read_status_line) at (rw t at e)) in
        subst (SetsAll line p) same (record {
          memory =
              new_value vm_rss first_number line p.mem_kb n t
                (sym (parse_kb-eq-first_number line) ∙ x);
          threads =
              same_value threads_key _ line p.threads
                (apart_keys 86 84 _ _ line (λ k. omega arith) t);
          switches =
              same_value switches_key _ line p.ctxt_switches
                (apart_keys 86 118 _ _ line (λ k. omega arith) t);
        })
  ]
  | inr f ↦ elim (Bool-cases (starts_with threads_key line)) [
    | inl t ↦ elim (Option-cases (stoi (drop 8 line))) [
      | inl x ↦ absurd (cc (rw (x, read_status_line) at (rw t at (rw f at e))))
      | inr (n, x) ↦
          let same = some_status (rw (x, read_status_line) at (rw t at (rw f at e))) in
          subst (SetsAll line p) same (record {
            memory = same_value vm_rss first_number line p.mem_kb f;
            threads = new_value threads_key (λ l. stoi (drop 8 l)) line p.threads n t x;
            switches =
                same_value switches_key _ line p.ctxt_switches
                  (apart_keys 84 118 _ _ line (λ k. omega arith) t);
          })
    ]
    | inr g ↦ elim (Bool-cases (starts_with switches_key line)) [
      | inl t ↦ elim (Option-cases (stol (drop 24 line))) [
        | inl x ↦ absurd (cc (rw (x, read_status_line) at (rw t at (rw g at (rw f at e)))))
        | inr (n, x) ↦
            let same = some_status (rw (x, read_status_line) at (rw t at (rw g at (rw f at e)))) in
            subst (SetsAll line p) same (record {
              memory = same_value vm_rss first_number line p.mem_kb f;
              threads = same_value threads_key _ line p.threads g;
              switches = new_value switches_key (λ l. stol (drop 24 l)) line p.ctxt_switches n t x;
            })
      ]
      | inr h ↦
          let same = some_status (rw h at (rw g at (rw f at e))) in
          subst (SetsAll line p) same (record {
            memory = same_value vm_rss first_number line p.mem_kb f;
            threads = same_value threads_key _ line p.threads g;
            switches = same_value switches_key _ line p.ctxt_switches h;
          })
    ]
  ]
]

lines-IsReadFrom :
    (lines : List Bytes) (p q : ProcStatus)
    → read_status_lines lines p ≡ some q
    → IsReadFrom lines p q
unfolding read_status_lines
lines-IsReadFrom [] p q e =
    subst (IsReadFrom [] p) (some_status e)
      (record { memory = refl; threads = refl; switches = refl })
lines-IsReadFrom (line ∷ lines) p q e = elim (Option-cases (read_status_line line p)) [
  | inl x ↦ absurd (cc (rw (x, read_status_lines) at e))
  | inr (m, x) ↦
      let rest = lines-IsReadFrom lines m q (rw (x, read_status_lines) at e) in
      let here = line-SetsAll line p m x in
      record {
        memory =
            step-value vm_rss first_number line lines p.mem_kb m.mem_kb q.mem_kb here.memory
              rest.memory;
        threads =
            step-value threads_key (λ l. stoi (drop 8 l)) line lines p.threads m.threads q.threads
              here.threads rest.threads;
        switches =
            step-value switches_key (λ l. stol (drop 24 l)) line lines p.ctxt_switches
              m.ctxt_switches q.ctxt_switches here.switches rest.switches;
      }
]

-- Where `get_proc_status` reads a text of lines without an exception, each of the three figures is
-- the number in the last line that begins with its key, or as before where there is none: for the
-- memory the number at the line's first digit, for the others the one that `stoi` or `stol` reads
-- behind the key.
pub get_proc_status-IsReadFrom :
    (lines : List Bytes) (p q : ProcStatus)
    → All (Avoids b'\n') lines
    → get_proc_status (unlines lines) p ≡ some q
    → IsReadFrom lines p q
unfolding get_proc_status
get_proc_status-IsReadFrom lines p q plain e =
    lines-IsReadFrom lines p q
      (ap (λ l. read_status_lines l p) (sym (lines_from-unlines lines plain)) ∙ e)

-- ===== src/Chunks/Listed.antt =====
-- Which chunks are listed.
use mathlib.Core.Path.{subst}
use mathlib.Core.List.{append_assoc}
use cdfs.Base.{
  ◌+◌, ◌≡◌, ◌↔◌, refl, sym, ap, ◌∙◌, ◌⊎◌, inl, inr, Bool, true, false, not, ◌&&◌, some, List, [],
  ◌∷◌, ◌++◌, arith, Bool-cases, Option-cases, Bytes, bytes_eq, bytes_eq_iff, length, length-append,
  drop, drop-length-append_cons, is_empty, starts_with, starts_with-append, starts_with-eq-append,
  find_char, find_char-eq-none, Avoids, Avoids-of_find_char, Dict, lookup, ℤ, stoi,
}
use cdfs.Paths.{slash}
use cdfs.Disk.{Disk, is_directory, is_there}
use cdfs.Chunks.{
  DirectoryService, plain_name, name_in, names_in, indices_of, list_indices, get_shard_index,
}

-- A member of a list.
abbrev pub Occurs : {A : Type 0} → A → List A → Type 0
Occurs a [] = ⊥
Occurs a (x ∷ xs) = (x ≡ a) ⊎ Occurs a xs

-- The text is the name of an entry: it is not empty and has no slash.
abbrev pub IsName : Bytes → Type 0
IsName name = (is_empty name ≡ false) × Avoids slash name

entry_eq : (dir name : Bytes) → (dir ++ slash ∷ []) ++ name ≡ dir ++ slash ∷ name
entry_eq dir name = append_assoc dir (slash ∷ []) name

name_in-entry : (dir name : Bytes) → IsName name → name_in dir (dir ++ slash ∷ name) ≡ some name
unfolding name_in plain_name
name_in-entry dir name (full, plain) =
    let cut = drop-length-append_cons dir slash name in
    let starts : starts_with (dir ++ slash ∷ []) (dir ++ slash ∷ name) ≡ true =
      ap (starts_with (dir ++ slash ∷ [])) (sym (entry_eq dir name))
      ∙ starts_with-append (dir ++ slash ∷ []) name in
    rw cut (rw starts (rw full (rw (find_char-eq-none slash name plain, plain_name))))

name_in-eq :
    (dir p name : Bytes) → name_in dir p ≡ some name → IsName name × (p ≡ dir ++ slash ∷ name)
unfolding name_in plain_name
name_in-eq dir p name h =
    elim (Bool-cases
      (starts_with (dir ++ slash ∷ []) p && not (is_empty (drop (length dir + 1) p)))) [
        | inr f ↦ absurd (cc (rw f at h))
        | inl t ↦ elim (Option-cases (find_char slash (drop (length dir + 1) p))) [
          | inr (n, found) ↦ absurd (cc (rw (found, plain_name) at (rw t at h)))
          | inl plain ↦
              let same : drop (length dir + 1) p ≡ name =
                of_some _ _ (rw (plain, plain_name) at (rw t at h)) in
              let starts = starts_with-eq-append (dir ++ slash ∷ []) p (first _ _ t) in
              let long : length (dir ++ slash ∷ []) ≡ length dir + 1 =
                length-append dir (slash ∷ []) in
              (
                (
                  ap is_empty (sym same) ∙ second _ _ t,
                  Avoids-of_find_char slash name (ap (find_char slash) (sym same) ∙ plain),
                ),
                starts
                    ∙ ap (λ n. (dir ++ slash ∷ []) ++ drop n p) long
                    ∙ ap (λ z. (dir ++ slash ∷ []) ++ z) same
                    ∙ entry_eq dir name,
              )
        ]
      ]
  where
    of_some : (x y : Bytes) → some x ≡ some y → x ≡ y
    of_some x y e = cc

    first : (a b : Bool) → (a && not b) ≡ true → a ≡ true
    first true b e = refl
    first false b e = e

    second : (a b : Bool) → (a && not b) ≡ true → b ≡ false
    second true false e = refl
    second true true e = sym e
    second false b e = cc

names_in-of_lookup :
    (dir name content : Bytes) (files : Dict Bytes)
    → IsName name
    → lookup (dir ++ slash ∷ name) files ≡ some content
    → Occurs name (names_in dir files)
unfolding lookup names_in
names_in-of_lookup dir name content [] n h = absurd (cc h)
names_in-of_lookup dir name content ((p, c) ∷ files) n h =
    elim (Bool-cases (bytes_eq p (dir ++ slash ∷ name))) [
      | inl same ↦
          let e =
            ap (name_in dir) ((bytes_eq_iff p (dir ++ slash ∷ name)).0 same)
            ∙ name_in-entry dir name n in
          rw (e, names_in) (inl refl)
      | inr other ↦
          let rest = names_in-of_lookup dir name content files n (rw other at h) in
          elim (Option-cases (name_in dir p)) [
            | inl f ↦ rw (f, names_in) rest
            | inr (x, e) ↦ rw (e, names_in) (inr rest)
          ]
    ]

lookup-of_names_in :
    (dir name : Bytes) (files : Dict Bytes)
    → Occurs name (names_in dir files)
    → IsName name × ((content : Bytes) × (lookup (dir ++ slash ∷ name) files ≡ some content))
unfolding lookup names_in
lookup-of_names_in dir name [] h = absurd h
lookup-of_names_in dir name ((p, c) ∷ files) h = elim (Option-cases (name_in dir p)) [
  | inl f ↦ later (lookup-of_names_in dir name files (rw (f, names_in) at h))
  | inr (x, e) ↦
      found x e (rw (e, names_in) at h) (λ k. later (lookup-of_names_in dir name files k))
]
  where
    Found : Type 0
    Found =
        IsName name
        × ((content : Bytes) × (lookup (dir ++ slash ∷ name) ((p, c) ∷ files) ≡ some content))

    later :
        IsName name × ((content : Bytes) × (lookup (dir ++ slash ∷ name) files ≡ some content))
        → Found
    later (n, (content, k)) = elim (Bool-cases (bytes_eq p (dir ++ slash ∷ name))) [
      | inl same ↦ (n, (c, rw same refl))
      | inr other ↦ (n, (content, rw other k))
    ]

    found :
        (x : Bytes)
        → name_in dir p ≡ some x
        → (x ≡ name) ⊎ Occurs name (names_in dir files)
        → (Occurs name (names_in dir files) → Found)
        → Found
    found x e (inr k) next = next k
    found x e (inl same) next =
        let (n, k) = name_in-eq dir p name (e ∙ ap some same) in
        (n, (c, rw ((bytes_eq_iff p (dir ++ slash ∷ name)).1 k) refl))

indices_of-of_name :
    (name : Bytes) (index : ℤ) (names : List Bytes)
    → stoi name ≡ some index
    → Occurs name names
    → Occurs index (indices_of names)
unfolding indices_of
indices_of-of_name name index [] e h = absurd h
indices_of-of_name name index (x ∷ names) e (inl same) =
    rw (ap stoi same ∙ e, indices_of) (inl refl)
indices_of-of_name name index (x ∷ names) e (inr h) =
    let rest = indices_of-of_name name index names e h in
    elim (Option-cases (stoi x)) [
      | inl f ↦ rw (f, indices_of) rest
      | inr (n, k) ↦ rw (k, indices_of) (inr rest)
    ]

name-of_indices_of :
    (index : ℤ) (names : List Bytes)
    → Occurs index (indices_of names)
    → (name : Bytes) × Occurs name names × (stoi name ≡ some index)
unfolding indices_of
name-of_indices_of index [] h = absurd h
name-of_indices_of index (x ∷ names) h = elim (Option-cases (stoi x)) [
  | inl f ↦ later (name-of_indices_of index names (rw (f, indices_of) at h))
  | inr (n, k) ↦ found n k (rw (k, indices_of) at h) (λ g. later (name-of_indices_of index names g))
]
  where
    Found : Type 0
    Found = (name : Bytes) × Occurs name (x ∷ names) × (stoi name ≡ some index)

    later : (name : Bytes) × Occurs name names × (stoi name ≡ some index) → Found
    later (name, o, e) = (name, inr o, e)

    found :
        (n : ℤ)
        → stoi x ≡ some n
        → (n ≡ index) ⊎ Occurs index (indices_of names)
        → (Occurs index (indices_of names) → Found)
        → Found
    found n k (inl same) next = (x, inl refl, k ∙ ap some same)
    found n k (inr g) next = next g

-- The iterator gives the entries of a directory, each of them and no others.
abbrev pub GivesEntries : DirectoryService → Type 0
GivesEntries sys =
    (dir name : Bytes) (names : List Bytes)
    → Occurs name (sys.arrange dir names) ↔ Occurs name names

-- A regular file in the directory whose name `std::stoi` reads as the number.
pub record IsChunk (d : Disk) (dir : Bytes) (index : ℤ) : Type 0 where
  pub name : Bytes
  pub content : Bytes
  pub is_name : IsName name
  pub there : lookup (dir ++ slash ∷ name) d.files ≡ some content
  pub reads : stoi name ≡ some index

module _ (sys : DirectoryService) where
  -- Of a directory, `get_shard_index` lists exactly the numbers that `std::stoi` reads from the
  -- names of its regular files, in whatever order the iterator gives them.
  pub get_shard_index_iff :
      (d : Disk) (dir : Bytes) (index : ℤ)
      → GivesEntries sys
      → is_directory d dir ≡ true
      → Occurs index (get_shard_index sys d dir) ↔ IsChunk d dir index
  unfolding get_shard_index list_indices is_there
  get_shard_index_iff d dir index gives there = (listed, back)
    where
      open_dir : get_shard_index sys d dir ≡ indices_of (sys.arrange dir (names_in dir d.files))
      open_dir = ground arith

      listed : Occurs index (get_shard_index sys d dir) → IsChunk d dir index
      listed h =
          let (name, o, e) =
            name-of_indices_of index (sys.arrange dir (names_in dir d.files))
              (subst (Occurs index) open_dir h) in
          let (n, (content, k)) =
            lookup-of_names_in dir name d.files ((gives dir name (names_in dir d.files)).0 o) in
          record { name = name; content = content; is_name = n; there = k; reads = e }

      back : IsChunk d dir index → Occurs index (get_shard_index sys d dir)
      back c = subst (Occurs index) (sym open_dir) (
          indices_of-of_name c.name index (sys.arrange dir (names_in dir d.files)) c.reads (
            (gives dir c.name (names_in dir d.files)).1
              (names_in-of_lookup dir c.name c.content d.files c.is_name c.there)))

-- ===== src/Chunks/Copied.antt =====
-- What the merged file holds.
use mathlib.Core.Path.{subst}
use mathlib.Core.List.{append_assoc, append-nil}
use cdfs.Base.{
  ◌≡◌, refl, sym, ap, ◌∙◌, inl, inr, true, false, some, List, [], ◌∷◌, ◌++◌, arith, Bool-cases,
  Option-cases, if◌then◌else◌, Bytes, is_empty, lookup, ℤ, int_text, Result, ok,
}
use cdfs.Paths.{path_append}
use cdfs.Disk.{Disk, Device}
use cdfs.Chunks.{DirectoryService, Output, copy_chunk, copy_chunks}

-- The texts one after the other, up to the first empty one.
unfoldable pub until_empty : List Bytes → Bytes
until_empty [] = []
until_empty (c ∷ cs) = if is_empty c then [] else c ++ until_empty cs

copy_chunk_failed : (out : Output) (c : Bytes) → out.failed ≡ true → copy_chunk out c ≡ out
unfolding copy_chunk
copy_chunk_failed out c f = ground arith

copy_chunk_empty :
    (w c : Bytes)
    → is_empty c ≡ true
    → copy_chunk (record { written = w; failed = false }) c ≡ record { written = w; failed = true }
unfolding copy_chunk
copy_chunk_empty w c e = rw e

copy_chunk_full :
    (w c : Bytes)
    → is_empty c ≡ false
    → copy_chunk (record { written = w; failed = false }) c
      ≡ record { written = w ++ c; failed = false }
unfolding copy_chunk
copy_chunk_full w c e = rw e

module _ (dev : Device) (d : Disk) (dir : Bytes) where
  -- The files of the directory with these numbers for their names, which can be read, hold these
  -- texts.
  abbrev pub Chunks : List ℤ → List Bytes → Type 0
  Chunks [] [] = Unit
  Chunks [] (c ∷ cs) = ⊥
  Chunks (i ∷ is) [] = ⊥
  Chunks (i ∷ is) (c ∷ cs) =
      (lookup (path_append dir (int_text i)) d.files ≡ some c)
      × (dev.can_read (path_append dir (int_text i)) ≡ true)
      × Chunks is cs

  module _ (sys : DirectoryService) where
    abbrev Ended : Output → List ℤ → Output → Type 0
    Ended out is out' = copy_chunks sys dev d dir out is ≡ (out', ok tt)

    -- The loop goes on behind a chunk.
    record Continues (out out' : Output) (i : ℤ) (is : List ℤ) : Type 0 where
      content : Bytes
      there : lookup (path_append dir (int_text i)) d.files ≡ some content
      opens : dev.can_read (path_append dir (int_text i)) ≡ true
      rest : Ended (copy_chunk out content) is out'

    continues :
        (out out' : Output) (i : ℤ) (is : List ℤ)
        → Ended out (i ∷ is) out'
        → Continues out out' i is
    unfolding copy_chunks
    continues out out' i is e =
        elim (Option-cases (lookup (path_append dir (int_text i)) d.files)) [
          | inl gone ↦ absurd (cc (rw (gone, copy_chunks) at e))
          | inr (c, there) ↦ elim (Bool-cases (dev.can_read (path_append dir (int_text i)))) [
            | inr shut ↦ absurd (cc (rw shut at (rw (there, copy_chunks) at e)))
            | inl opens ↦ record {
              content = c;
              there = there;
              opens = opens;
              rest = rw opens at (rw (there, copy_chunks) at e);
            }
          ]
        ]

    Ended-out : (out out' : Output) → Ended out [] out' → out'.written ≡ out.written
    unfolding copy_chunks
    Ended-out out out' e = sym (ap (λ (r : Output × Result (Unit {0})). r.0.written) e)

    copied_failed :
        (out out' : Output) (is : List ℤ)
        → out.failed ≡ true
        → Ended out is out'
        → (cs : List Bytes) × Chunks is cs × (out'.written ≡ out.written)
    copied_failed out out' [] f e = ([], tt, Ended-out out out' e)
    copied_failed out out' (i ∷ is) f e =
        let k = continues out out' i is e in
        let (cs, h, w) =
          copied_failed out out' is f
            (subst (λ o. Ended o is out') (copy_chunk_failed out k.content f) k.rest) in
        (k.content ∷ cs, (k.there, k.opens, h), w)

    -- Where the loop ends without an exception, every chunk was there, and the stream was given
    -- their texts up to the first empty one.
    pub copied :
        (w : Bytes) (out' : Output) (is : List ℤ)
        → Ended (record { written = w; failed = false }) is out'
        → (cs : List Bytes) × Chunks is cs × (out'.written ≡ w ++ until_empty cs)
    unfolding until_empty
    copied w out' [] e = ([], tt, Ended-out _ out' e ∙ sym (append-nil w))
    copied w out' (i ∷ is) e =
        let k = continues (record { written = w; failed = false }) out' i is e in
        elim (Bool-cases (is_empty k.content)) [
          | inl empty ↦
              let (cs, h, r) =
                copied_failed (record { written = w; failed = true }) out' is refl
                  (subst (λ o. Ended o is out') (copy_chunk_empty w k.content empty) k.rest) in
              (k.content ∷ cs, (k.there, k.opens, h), rw empty (r ∙ sym (append-nil w)))
          | inr full ↦
              let (cs, h, r) =
                copied (w ++ k.content) out' is
                  (subst (λ o. Ended o is out') (copy_chunk_full w k.content full) k.rest) in
              (
                k.content ∷ cs,
                (k.there, k.opens, h),
                rw full (r ∙ append_assoc w k.content (until_empty cs)),
              )
        ]

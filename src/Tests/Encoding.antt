-- ===== src/Tests/Encoding.antt =====
-- A text form of the metadata that both directions of the codec keep: each text stands behind its
-- length, each list behind the number of its members.
use mathlib.Core.Path.{ap₂}
use cdfs.Base.{
  ℕ, zero, suc, ◌≡◌, refl, sym, ap, ◌∙◌, Bool, true, false, List, [], ◌∷◌, ◌++◌, ◌==◌,
  if◌then◌else◌, Bytes, length, take, drop, take-length-append, drop-length-append, ok,
}
use cdfs.MetaFile.{
  FileStatus, normal, deleted, corrupted, syncing, locked, FileShard, MetaFile, stored, Codec,
}

abbrev Reader {ℓ} : Type ℓ → Type ℓ
Reader A = Bytes → A × Bytes

abbrev Writer {ℓ} : Type ℓ → Type ℓ
Writer A = A → Bytes → Bytes

-- What was written is read back, and the reader stops behind it.
abbrev Reads {ℓ} : {A : Type ℓ} → Reader A → Writer A → Type ℓ
Reads {A = A} r w = (a : A) (rest : Bytes) → r (w a rest) ≡ (a, rest)

abbrev write_number : Writer ℕ
write_number n rest = n ∷ rest

abbrev read_number : Reader ℕ
read_number [] = (0, [])
read_number (n ∷ rest) = (n, rest)

abbrev write_text : Writer Bytes
write_text s rest = length s ∷ (s ++ rest)

abbrev read_text : Reader Bytes
read_text [] = ([], [])
read_text (n ∷ rest) = (take n rest, drop n rest)

pub read_text-write_text : Reads read_text write_text
read_text-write_text s rest =
    ap₂ (λ a b. (a, b)) (take-length-append s rest) (drop-length-append s rest)

abbrev write_flag : Writer Bool
write_flag true rest = 1 ∷ rest
write_flag false rest = 0 ∷ rest

abbrev read_flag : Reader Bool
read_flag [] = (false, [])
read_flag (n ∷ rest) = (n == 1, rest)

pub read_flag-write_flag : Reads read_flag write_flag
read_flag-write_flag true rest = refl
read_flag-write_flag false rest = refl

abbrev write_status : Writer FileStatus
write_status normal rest = 0 ∷ rest
write_status deleted rest = 1 ∷ rest
write_status corrupted rest = 2 ∷ rest
write_status syncing rest = 3 ∷ rest
write_status locked rest = 4 ∷ rest

abbrev status_of : ℕ → FileStatus
status_of zero = normal
status_of (suc zero) = deleted
status_of (suc (suc zero)) = corrupted
status_of (suc (suc (suc zero))) = syncing
status_of _ = locked

abbrev read_status : Reader FileStatus
read_status [] = (normal, [])
read_status (n ∷ rest) = (status_of n, rest)

pub read_status-write_status : Reads read_status write_status
read_status-write_status normal rest = refl
read_status-write_status deleted rest = refl
read_status-write_status corrupted rest = refl
read_status-write_status syncing rest = refl
read_status-write_status locked rest = refl

module _ {ℓ} {A : Type ℓ} (r : Reader A) (w : Writer A) where
  abbrev write_items : Writer (List A)
  write_items [] rest = rest
  write_items (x ∷ xs) rest = w x (write_items xs rest)

  abbrev read_items : ℕ → Reader (List A)
  read_items zero s = ([], s)
  read_items (suc n) s = let (x, s1) = r s in let (xs, s2) = read_items n s1 in (x ∷ xs, s2)

  abbrev write_list : Writer (List A)
  write_list xs rest = length xs ∷ write_items xs rest

  abbrev read_list : Reader (List A)
  read_list [] = ([], [])
  read_list (n ∷ rest) = read_items n rest

  pub read_items-write_items :
      Reads r w
      → (xs : List A) (rest : Bytes) → read_items (length xs) (write_items xs rest) ≡ (xs, rest)
  read_items-write_items h [] rest = refl
  read_items-write_items h (x ∷ xs) rest =
      rw (h x (write_items xs rest)) (rw (read_items-write_items h xs rest))

module _ {ℓ} {A B : Type ℓ} (r : Reader A) (w : Writer A) (s : Reader B) (v : Writer B) where
  abbrev write_pair : Writer (A × B)
  write_pair (a, b) rest = w a (v b rest)

  abbrev read_pair : Reader (A × B)
  read_pair t = let (a, t1) = r t in let (b, t2) = s t1 in ((a, b), t2)

  pub read_pair-write_pair : Reads r w → Reads s v → Reads read_pair write_pair
  read_pair-write_pair h k (a, b) rest = rw (h a (v b rest)) (rw (k b rest))

-- A reader with its writer, and the proof that they fit.
record Format (A : Type 0) : Type 0 where
  reader : Reader A
  writer : Writer A
  fits : Reads reader writer

infixr 20 ◌then◌
abbrev ◌then◌ : {A B : Type 0} → Format A → Format B → Format (A × B)
f then g = record {
  reader = read_pair f.reader f.writer g.reader g.writer;
  writer = write_pair f.reader f.writer g.reader g.writer;
  fits = read_pair-write_pair f.reader f.writer g.reader g.writer f.fits g.fits;
}

abbrev number : Format ℕ
number = record { reader = read_number; writer = write_number; fits = λ n rest. refl }

abbrev text : Format Bytes
text = record { reader = read_text; writer = write_text; fits = read_text-write_text }

abbrev flag : Format Bool
flag = record { reader = read_flag; writer = write_flag; fits = read_flag-write_flag }

abbrev status_format : Format FileStatus
status_format = record {
  reader = read_status;
  writer = write_status;
  fits = read_status-write_status;
}

abbrev list_of : {A : Type 0} → Format A → Format (List A)
list_of f = record {
  reader = read_list f.reader f.writer;
  writer = write_list f.reader f.writer;
  fits = read_items-write_items f.reader f.writer f.fits;
}

-- A record as its fields.
abbrev view :
    {A B : Type 0} (to : A → B) (from : B → A) → ((a : A) → from (to a) ≡ a) → Format B → Format A
view to from back f = record {
  reader = λ s. (from (f.reader s).0, (f.reader s).1);
  writer = λ a rest. f.writer (to a) rest;
  fits = λ a rest. rw (f.fits (to a) rest) (rw (back a));
}

abbrev shard_format : Format FileShard
shard_format =
    view (λ s. (s.index, (s.shard_id, (s.size, (s.md5, s.path)))))
      (λ (index, (shard_id, (size, (md5, path)))). record {
        index = index;
        shard_id = shard_id;
        size = size;
        md5 = md5;
        path = path;
      })
      (λ s. refl) (number then text then number then text then text)

abbrev meta_format : Format MetaFile
meta_format =
    view
      (λ m. (
        (m.md5, (m.path, (m.name, (m.domain, (m.scene, m.src))))),
        (
          (m.size, (m.mtime, (m.status, (m.is_sharded, (m.shard_std_size, m.shard_count))))),
          (m.shards, (m.uploaded_count, (m.uploaded_chunks, m.peers))),
        ),
      ))
      (λ (
        (md5, (path, (name, (domain, (scene, src))))),
        (
          (size, (mtime, (status, (is_sharded, (shard_std_size, shard_count))))),
          (shards, (uploaded_count, (uploaded_chunks, peers))),
        ),
      ).
        record {
          md5 = md5;
          path = path;
          name = name;
          domain = domain;
          scene = scene;
          src = src;
          size = size;
          mtime = mtime;
          status = status;
          is_sharded = is_sharded;
          shard_std_size = shard_std_size;
          shard_count = shard_count;
          shards = shards;
          uploaded_count = uploaded_count;
          uploaded_chunks = uploaded_chunks;
          peers = peers;
        })
      (λ m. refl)
      ((text then text then text then text then text then text)
        then (number then number then status_format then flag then number then number)
        then (list_of shard_format then number then list_of number then list_of text))

pub ok_injective : {s t : Bytes} → ok s ≡ ok t → s ≡ t
ok_injective e = cc e

-- A codec that never throws.
abbrev pub plain_codec : Codec
plain_codec = record {
  dump = λ m. ok (meta_format.writer (stored m) []);
  parse = λ s. ok (meta_format.reader s).0;
  parse-dump = λ m s e.
      ap (λ t. ok (meta_format.reader t).0) (sym (ok_injective e))
      ∙ ap (λ (p : MetaFile × Bytes). ok p.0) (meta_format.fits (stored m) []);
}

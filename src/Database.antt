-- ===== src/Database.antt =====
-- LevelDB as the program uses it: an interface with what its documentation promises. Nothing of
-- LevelDB is in this repository.
pub mod Order
pub mod Scan
pub mod Sorted
use cdfs.Base.{
  ℕ, zero, suc, ◌≡◌, Bool, true, false, ◌&&◌, ◌||◌, Option, none, some, List, [], ◌∷◌, ltb, ◌==◌,
  if◌then◌else◌, Bytes, bytes_eq, All, lookup,
}

-- One entry of a `WriteBatch`.
pub data BatchOp : Type 0 where
  put : Bytes → Bytes → BatchOp
  delete : Bytes → BatchOp

-- What an entry of a batch makes of the value at key `j`.
abbrev pub apply_op : BatchOp → Bytes → Option Bytes → Option Bytes
apply_op (put k v) j current = if bytes_eq k j then some v else current
apply_op (delete k) j current = if bytes_eq k j then none else current

-- A batch takes effect in its order.
abbrev pub apply_ops : List BatchOp → Bytes → Option Bytes → Option Bytes
apply_ops [] j current = current
apply_ops (op ∷ ops) j current = apply_ops ops j (apply_op op j current)

-- The order of the keys, that of `BytewiseComparator`.
unfoldable pub bytes_ltb : Bytes → Bytes → Bool
bytes_ltb [] [] = false
bytes_ltb [] (b ∷ t) = true
bytes_ltb (a ∷ s) [] = false
bytes_ltb (a ∷ s) (b ∷ t) = ltb a b || ((a == b) && bytes_ltb s t)

abbrev pub Entry : Type 0
Entry = Bytes × Bytes

-- The keys rise.
abbrev pub IsOrdered : List Entry → Type 0
IsOrdered [] = Unit
IsOrdered (e ∷ es) = All (λ x. bytes_ltb e.0 x.0 ≡ true) es × IsOrdered es

pub record LevelDb : Type 1 where
  pub Db : Type 0
  -- `Get`: `none` where the status is not ok
  pub get : Db → Bytes → Option Bytes
  -- `Write`: `none` where the status is not ok, and then nothing is written
  pub write : Db → List BatchOp → Option Db
  -- What an iterator walks over, in its order
  pub entries : Db → List Entry
  pub get-write :
      (d d' : Db) (ops : List BatchOp) (k : Bytes)
      → write d ops ≡ some d'
      → get d' k ≡ apply_ops ops k (get d k)
  pub lookup-entries : (d : Db) (k : Bytes) → lookup k (entries d) ≡ get d k
  pub entries-IsOrdered : (d : Db) → IsOrdered (entries d)

-- `Seek(target)`: the entries from the first key on that is not below the target.
unfoldable pub seek : Bytes → List Entry → List Entry
seek target [] = []
seek target (e ∷ es) = let rest = seek target es in if bytes_ltb e.0 target then rest else e ∷ es

-- The entries before that place, the nearest first: what `Prev` goes over.
unfoldable pub before : Bytes → List Entry → List Entry → List Entry
before target passed [] = passed
before target passed (e ∷ es) =
    let rest = before target (e ∷ passed) es in if bytes_ltb e.0 target then rest else passed

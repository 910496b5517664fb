-- ===== src/Database/Sorted.antt =====
-- A store that keeps its entries in a list in the order of the keys: a model of the interface.
use cdfs.Base.{
  ◌≡◌, refl, sym, ap, ◌∙◌, inl, inr, true, Option, none, some, List, [], ◌∷◌, arith, if◌then◌else◌,
  Bool-cases, Bytes, bytes_eq, bytes_eq_iff, All, lookup,
}
use cdfs.Database.{BatchOp, put, delete, apply_op, apply_ops, bytes_ltb, Entry, IsOrdered, LevelDb}
use cdfs.Database.Order.{bytes_ltb_trans, bytes_ltb_of_ne}

unfoldable pub put_entry : Bytes → Bytes → List Entry → List Entry
put_entry k v [] = (k, v) ∷ []
put_entry k v (e ∷ es) =
    if bytes_eq e.0 k
    then (k, v) ∷ es
    else if bytes_ltb e.0 k
    then e ∷ put_entry k v es
    else (k, v) ∷ e ∷ es

unfoldable pub erase_entry : Bytes → List Entry → List Entry
erase_entry k [] = []
erase_entry k (e ∷ es) = let rest = erase_entry k es in if bytes_eq e.0 k then rest else e ∷ rest

unfoldable pub run_op : BatchOp → List Entry → List Entry
run_op (put k v) es = put_entry k v es
run_op (delete k) es = erase_entry k es

lookup-put_entry :
    (k j v : Bytes) (es : List Entry)
    → lookup j (put_entry k v es) ≡ (if bytes_eq k j then some v else lookup j es)
unfolding lookup put_entry
lookup-put_entry k j v [] = refl
lookup-put_entry k j v ((i, w) ∷ es) =
    ground (arith, bytes_eq_iff k j, bytes_eq_iff i k, bytes_eq_iff i j, lookup-put_entry k j v es)

lookup-erase_entry :
    (k j : Bytes) (es : List Entry)
    → lookup j (erase_entry k es) ≡ (if bytes_eq k j then none else lookup j es)
unfolding lookup erase_entry
lookup-erase_entry k j [] = ground arith
lookup-erase_entry k j ((i, w) ∷ es) =
    ground (arith, bytes_eq_iff k j, bytes_eq_iff i k, bytes_eq_iff i j, lookup-erase_entry k j es)

abbrev Above : Bytes → List Entry → Type 0
Above k es = All (λ x. bytes_ltb k x.0 ≡ true) es

Above-mono : (j k : Bytes) (es : List Entry) → bytes_ltb j k ≡ true → Above k es → Above j es
Above-mono j k [] h a = tt
Above-mono j k (e ∷ es) h (p, a) = (bytes_ltb_trans j k e.0 h p, Above-mono j k es h a)

Above-put_entry :
    (j k v : Bytes) (es : List Entry)
    → bytes_ltb j k ≡ true
    → Above j es
    → Above j (put_entry k v es)
unfolding put_entry
Above-put_entry j k v [] h a = (h, tt)
Above-put_entry j k v (e ∷ es) h (p, a) = elim (Bool-cases (bytes_eq e.0 k)) [
  | inl same ↦ rw same (h, a)
  | inr other ↦ elim (Bool-cases (bytes_ltb e.0 k)) [
    | inl below ↦ rw other (rw below (p, Above-put_entry j k v es h a))
    | inr above ↦ rw other (rw above (h, (p, a)))
  ]
]

Above-erase_entry : (j k : Bytes) (es : List Entry) → Above j es → Above j (erase_entry k es)
unfolding erase_entry
Above-erase_entry j k [] a = tt
Above-erase_entry j k (e ∷ es) (p, a) = elim (Bool-cases (bytes_eq e.0 k)) [
  | inl same ↦ rw same (Above-erase_entry j k es a)
  | inr other ↦ rw other (p, Above-erase_entry j k es a)
]

Above-of_same : (j k : Bytes) (es : List Entry) → bytes_eq j k ≡ true → Above j es → Above k es
Above-of_same j k es e a = rw ((bytes_eq_iff j k).0 e) at a

pub put_entry-IsOrdered :
    (k v : Bytes) (es : List Entry) → IsOrdered es → IsOrdered (put_entry k v es)
unfolding put_entry
put_entry-IsOrdered k v [] h = (tt, tt)
put_entry-IsOrdered k v (e ∷ es) (a, h) = elim (Bool-cases (bytes_eq e.0 k)) [
  | inl same ↦ rw same (Above-of_same e.0 k es same a, h)
  | inr other ↦ elim (Bool-cases (bytes_ltb e.0 k)) [
    | inl below ↦
        rw other (rw below (Above-put_entry e.0 k v es below a, put_entry-IsOrdered k v es h))
    | inr above ↦
        let first = bytes_ltb_of_ne e.0 k other above in
        rw other (rw above ((first, Above-mono k e.0 es first a), (a, h)))
  ]
]

pub erase_entry-IsOrdered :
    (k : Bytes) (es : List Entry) → IsOrdered es → IsOrdered (erase_entry k es)
unfolding erase_entry
erase_entry-IsOrdered k [] h = tt
erase_entry-IsOrdered k (e ∷ es) (a, h) = elim (Bool-cases (bytes_eq e.0 k)) [
  | inl same ↦ rw same (erase_entry-IsOrdered k es h)
  | inr other ↦ rw other (Above-erase_entry e.0 k es a, erase_entry-IsOrdered k es h)
]

-- The entries, in order.
pub record SortedDb : Type 0 where
  pub listed : List Entry
  pub in_order : IsOrdered listed

unfoldable pub run_on : SortedDb → BatchOp → SortedDb
run_on d (put k v) = record {
  listed = put_entry k v d.listed;
  in_order = put_entry-IsOrdered k v d.listed d.in_order;
}
run_on d (delete k) = record {
  listed = erase_entry k d.listed;
  in_order = erase_entry-IsOrdered k d.listed d.in_order;
}

unfoldable pub run_batch : SortedDb → List BatchOp → SortedDb
run_batch d [] = d
run_batch d (op ∷ ops) = run_batch (run_on d op) ops

lookup-run_on :
    (d : SortedDb) (op : BatchOp) (j : Bytes)
    → lookup j (run_on d op).listed ≡ apply_op op j (lookup j d.listed)
unfolding run_on
lookup-run_on d (put k v) j = lookup-put_entry k j v d.listed
lookup-run_on d (delete k) j = lookup-erase_entry k j d.listed

pub lookup-run_batch :
    (d : SortedDb) (ops : List BatchOp) (j : Bytes)
    → lookup j (run_batch d ops).listed ≡ apply_ops ops j (lookup j d.listed)
unfolding run_batch
lookup-run_batch d [] j = refl
lookup-run_batch d (op ∷ ops) j =
    lookup-run_batch (run_on d op) ops j ∙ ap (apply_ops ops j) (lookup-run_on d op j)

-- The store whose writes all succeed.
abbrev pub sorted_db : LevelDb
sorted_db = record {
  Db = SortedDb;
  get = λ d k. lookup k d.listed;
  write = λ d ops. some (run_batch d ops);
  entries = λ d. d.listed;
  get-write = λ d d' ops k e.
      sym (
        ap
          (λ (o : Option SortedDb). elim o [
            | none ↦ lookup k d'.listed
            | some x ↦ lookup k x.listed
          ])
          e)
      ∙ lookup-run_batch d ops k;
  lookup-entries = λ d k. refl;
  entries-IsOrdered = λ d. d.in_order;
}

-- ===== src/Index/Rows.antt =====
-- The table as a map from receipt paths to rows.
use apohara_sealchain.Prelude.{
  ◌≡◌, refl, sym, ap, ◌∙◌, ◌≤◌, ◌+◌, ℕ, String, true, false, List, [], ◌∷◌, ◌++◌, Option, none,
  some, find?, length, subst, if◌then◌else◌, ◌==◌, eq_iff, eq_refl, Bool-cases, inl, inr, arith,
  All,
}
use apohara_sealchain.Error.{Result, ok, >>=-eq-ok, ok_injective}
use apohara_sealchain.Schema.{SealedRecord, map_option}
use apohara_sealchain.Index.{IndexRecord, index_record_from}
use apohara_sealchain.Index.Store.{
  Table, upsert, index_insert, insert_all, Entry, unreadable, folder, plain_file, Listing, failed,
  nil, cons, is_receipt_file, parse_receipt, keep_receipt, scan_entry, scan_into, rebuild_with,
  rebuild,
}

-- The row of a receipt path.
abbrev pub row_of : Table → String → Option IndexRecord
row_of t q = find? (λ r. r.receipt_path == q) t

-- No two rows have the same receipt path.
abbrev pub IsKeyed : Table → Type 0
IsKeyed [] = Unit {0}
IsKeyed (r ∷ rest) = (row_of rest r.receipt_path ≡ none) × IsKeyed rest

pub same_test : (a b q : String) → (a == b) ≡ true → (a == q) ≡ (b == q)
same_test a b q e = ap (λ (x : String). x == q) ((eq_iff a b).0 e)

pub flip_test : (a b : String) → (a == b) ≡ false → (b == a) ≡ false
flip_test a b e = elim (Bool-cases (b == a)) [
  | inl h ↦ cc (ap (λ (x : String). x == b) (sym ((eq_iff b a).0 h)), eq_refl b)
  | inr h ↦ h
]

-- A row that is put replaces the row of its receipt path and no other.
row_of-upsert :
    (t : Table) (row : IndexRecord) (q : String)
    → row_of (upsert t row) q ≡ (if row.receipt_path == q then some row else row_of t q)
unfolding upsert
row_of-upsert [] row q = refl
row_of-upsert (r ∷ rest) row q = elim (Bool-cases (r.receipt_path == row.receipt_path)) [
  | inl e ↦ ground (arith, e, same_test r.receipt_path row.receipt_path q e)
  | inr e ↦ elim (Bool-cases (row.receipt_path == q)) [
    | inl h ↦
        let ne : (r.receipt_path == q) ≡ false =
          ap (λ (x : String). r.receipt_path == x) (sym ((eq_iff row.receipt_path q).0 h)) ∙ e in
        ground (arith, e, h, ne, row_of-upsert rest row q)
    | inr h ↦ ground (arith, e, h, row_of-upsert rest row q)
  ]
]

upsert-IsKeyed : (t : Table) (row : IndexRecord) → IsKeyed t → IsKeyed (upsert t row)
unfolding upsert
upsert-IsKeyed [] row h = (refl, tt)
upsert-IsKeyed (r ∷ rest) row (fresh, h) = elim (Bool-cases (r.receipt_path == row.receipt_path)) [
  | inl e ↦ rw e (rw ((eq_iff r.receipt_path row.receipt_path).0 e) at fresh, h)
  | inr e ↦ rw e (
    row_of-upsert rest row r.receipt_path ∙ rw (flip_test r.receipt_path row.receipt_path e) fresh,
    upsert-IsKeyed rest row h,
  )
]

length-upsert : (t : Table) (row : IndexRecord) → length (upsert t row) ≤ length t + 1
unfolding upsert
length-upsert [] row = omega arith
length-upsert (r ∷ rest) row = ground (arith, length-upsert rest row)

-- The last receipt with a path.
abbrev pub last_for : String → List (String × SealedRecord) → Option SealedRecord
last_for q [] = none
last_for q ((path, receipt) ∷ rest) =
    let here = if path == q then some receipt else none in
    elim (last_for q rest) [ some r ↦ some r | none ↦ here ]

or_row : Option IndexRecord → Option IndexRecord → Option IndexRecord
or_row none b = b
or_row (some a) b = some a

or_none : (o : Option IndexRecord) → or_row o none ≡ o
unfolding or_row
or_none none = refl
or_none (some a) = refl

put_row :
    (now q path : String) (t : Table) (receipt : SealedRecord)
    → row_of (index_insert now t receipt path) q
      ≡ or_row
          (map_option (λ r. index_record_from r q now) (if path == q then some receipt else none))
          (row_of t q)
unfolding index_insert or_row index_record_from
put_row now q path t receipt =
    row_of-upsert t (index_record_from receipt path now) q ∙ (elim (Bool-cases (path == q)) [
      | inl e ↦ rw (e, (eq_iff path q).0 e) refl
      | inr e ↦ rw e refl
    ])

later_row :
    (now q path : String) (t : Table) (receipt : SealedRecord) (o : Option SealedRecord)
    → or_row
        (map_option (λ r. index_record_from r q now) o)
        (row_of (index_insert now t receipt path) q)
      ≡ or_row
          (map_option
            (λ r. index_record_from r q now)
            (elim o [ some r ↦ some r | none ↦ if path == q then some receipt else none ]))
          (row_of t q)
unfolding or_row
later_row now q path t receipt none = put_row now q path t receipt
later_row now q path t receipt (some r) = refl

row_of-insert_all :
    (now q : String) (t : Table) (rs : List (String × SealedRecord))
    → row_of (insert_all now t rs) q
      ≡ or_row (map_option (λ r. index_record_from r q now) (last_for q rs)) (row_of t q)
unfolding insert_all or_row
row_of-insert_all now q t [] = refl
row_of-insert_all now q t ((path, receipt) ∷ rest) =
    row_of-insert_all now q (index_insert now t receipt path) rest
    ∙ later_row now q path t receipt (last_for q rest)

insert_all-IsKeyed :
    (now : String) (t : Table) (rs : List (String × SealedRecord))
    → IsKeyed t
    → IsKeyed (insert_all now t rs)
unfolding insert_all index_insert
insert_all-IsKeyed now t [] h = h
insert_all-IsKeyed now t ((path, receipt) ∷ rest) h =
    insert_all-IsKeyed now (index_insert now t receipt path) rest
      (upsert-IsKeyed t (index_record_from receipt path now) h)

length-insert_all :
    (now : String) (t : Table) (rs : List (String × SealedRecord))
    → length (insert_all now t rs) ≤ length t + length rs
unfolding insert_all index_insert
length-insert_all now t [] = omega arith
length-insert_all now t ((path, receipt) ∷ rest) =
    let row = index_record_from receipt path now in
    omega (arith, length-insert_all now (upsert t row) rest, length-upsert t row)

abbrev pub IsReceipt : String × SealedRecord → Type 0
IsReceipt x = is_receipt_file x.0 ≡ true

All-append :
    (xs ys : List (String × SealedRecord))
    → All IsReceipt xs
    → All IsReceipt ys
    → All IsReceipt (xs ++ ys)
All-append [] ys h k = k
All-append (x ∷ xs) ys (h, hs) k = (h, All-append xs ys hs k)

kept-IsReceipt :
    (path : String) (o : Option SealedRecord)
    → All IsReceipt (if is_receipt_file path then keep_receipt path o [] else [])
unfolding keep_receipt
kept-IsReceipt path none = ground arith
kept-IsReceipt path (some r) = elim (Bool-cases (is_receipt_file path)) [
  | inl e ↦ rw e (e, tt)
  | inr e ↦ rw e tt
]

module _ (from_str : String → Result String SealedRecord) where
  mutual
    unfolding scan_into scan_entry

    scan_entry-IsReceipt :
        (e : Entry) (xs : List (String × SealedRecord))
        → scan_entry from_str e ≡ ok xs
        → All IsReceipt xs
    scan_entry-IsReceipt (unreadable x) xs h = cc
    scan_entry-IsReceipt (folder path listing) xs h = scan_into-IsReceipt path listing xs h
    scan_entry-IsReceipt (plain_file path text) xs h =
        subst (All IsReceipt) (ok_injective h) (kept-IsReceipt path (parse_receipt from_str text))

    scan_into-IsReceipt :
        (dir : String) (l : Listing) (xs : List (String × SealedRecord))
        → scan_into from_str dir l ≡ ok xs
        → All IsReceipt xs
    scan_into-IsReceipt dir (failed x) xs h = cc
    scan_into-IsReceipt dir nil xs h = subst (All IsReceipt) (ok_injective h) tt
    scan_into-IsReceipt dir (cons e rest) xs h =
        let (ys, h₁, k₁) = >>=-eq-ok (scan_entry from_str e) _ h in
        let (zs, h₂, k₂) = >>=-eq-ok (scan_into from_str dir rest) _ k₁ in
        subst (All IsReceipt) (ok_injective k₂)
          (All-append ys zs (scan_entry-IsReceipt e ys h₁) (scan_into-IsReceipt dir rest zs h₂))

  -- A rebuilding that succeeds forgets the rows of before: the row of a path is that of the last receipt
  -- of the scan with that path, and there is none without such a receipt; only receipt files are scanned,
  -- no two rows have one path, and the count returned is the number of receipts, at least that of the rows.
  pub rebuild_lem :
      (now dir q : String) (t t' : Table) (listing : Listing) (n : ℕ)
      → rebuild from_str now t dir listing ≡ ok (t', n)
      → (rs : List (String × SealedRecord)) × (scan_into from_str dir listing ≡ ok rs)
        × All IsReceipt rs
        × (row_of t' q ≡ map_option (λ r. index_record_from r q now) (last_for q rs))
        × IsKeyed t'
        × (n ≡ length rs)
        × (length t' ≤ n)
  unfolding rebuild rebuild_with
  rebuild_lem now dir q t t' listing n h =
      let (rs, h₁, k₁) = >>=-eq-ok (scan_into from_str dir listing) _ h in
      let same = ok_injective k₁ in
      let rows = insert_all now [] rs in
      let count = length-insert_all now [] rs in
      rw (ap (λ x. x.0) (sym same), ap (λ x. x.1) (sym same))
        (
          rs,
          h₁,
          scan_into-IsReceipt dir listing rs h₁,
          row_of-insert_all now q [] rs ∙ or_none _,
          insert_all-IsKeyed now [] rs tt,
          refl,
          omega arith,
        )

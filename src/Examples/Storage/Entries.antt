-- ===== src/Examples/Storage/Entries.antt =====
-- Which entries the large directory has.
use bloem_plugin_sdk.Base.{
  ℕ, ◌<◌, true, Option, none, some, ltb, ok, ◌≡◌, refl, sym, ap, ◌∙◌, ◌↔◌, ◌⊎◌, inl, inr, arith,
  Bool-cases,
}
use bloem_plugin_sdk.Base.Int.{ℤ, pos, negsuc}
use bloem_plugin_sdk.Base.Decimal.{Bytes, parse_int, pad_int, parse_int-pad_int}
use bloem_plugin_sdk.Text.{codes}
use bloem_plugin_sdk.Text.Bytes.{bytes_eq, bytes_eq_iff, trim_prefix, trim_prefix-append}
use bloem_plugin_sdk.Examples.Storage.{
  Entry, scale_entries, book_id, file_entry, scale_root, names_book, scale_entry,
}

-- the entry of a number
abbrev pub book_entry : Bytes → ℕ → Entry
book_entry book n = file_entry book (book_id n)

-- A number below two million whose id this is.
abbrev pub IsBook : Bytes → Type 0
IsBook id = (n : ℕ) × (n < 2000000) × (id ≡ book_id n)

names_book-IsBook : (id : Bytes) (o : Option ℤ) → names_book id o ≡ true → IsBook id
names_book-IsBook id none h = absurd (cc h)
names_book-IsBook id (some (negsuc n)) h = absurd (cc h)
names_book-IsBook id (some (pos n)) h =
    let few : n < 2000000 = ground (arith, h) in
    let same : bytes_eq (book_id n) id ≡ true = ground (arith, h) in
    (n, few, sym ((bytes_eq_iff (book_id n) id).0 same))

module _ (E : Type 0) (book : Bytes) where
  pub scale_entry-book_id :
      (n : ℕ) → n < 2000000 → scale_entry {E = E} book (book_id n) ≡ ok (book_entry book n)
  unfolding scale_entry bytes_eq
  scale_entry-book_id n h =
      let digits = trim_prefix-append (codes "book-") (pad_int 7 n) in
      let parsed = parse_int-pad_int 7 n (omega (arith, h)) in
      let few : ltb n scale_entries ≡ true = ground (arith, h) in
      let same = (bytes_eq_iff (book_id n) (book_id n)).1 refl in
      rw (digits, parsed) (rw (few, same) refl)

  abbrev Exists : Bytes → Entry → Type 0
  Exists id e = ((id ≡ codes "root") × (e ≡ scale_root)) ⊎ (IsBook id × (e ≡ file_entry book id))

  Exists-of_ok : (id : Bytes) (e : Entry) → scale_entry {E = E} book id ≡ ok e → Exists id e
  unfolding scale_entry
  Exists-of_ok id e h = elim (Bool-cases (bytes_eq id (codes "root"))) [
    | inl a ↦ inl ((bytes_eq_iff id (codes "root")).0 a, cc (rw a at h))
    | inr a ↦
        let number = parse_int (trim_prefix id (codes "book-")) in
        elim (Bool-cases (names_book id number)) [
          | inl b ↦ inr (names_book-IsBook id number b, cc (rw (a, b) at h))
          | inr b ↦ absurd (cc (rw (a, b) at h))
        ]
  ]

  ok-of_Exists : (id : Bytes) (e : Entry) → Exists id e → scale_entry {E = E} book id ≡ ok e
  unfolding scale_entry bytes_eq
  ok-of_Exists id e (inl (i, r)) =
      let root : scale_entry {E = E} book (codes "root") ≡ ok scale_root = refl in
      ap (scale_entry {E = E} book) i ∙ root ∙ ap ok (sym r)
  ok-of_Exists id e (inr ((n, few, i), r)) =
      ap (scale_entry {E = E} book) i
      ∙ scale_entry-book_id n few
      ∙ ap ok (sym (r ∙ ap (file_entry book) i))

  -- The large directory has exactly its root and the books with a number below two million, each
  -- under the one spelling of its id that `List` gives it.
  pub scale_entry-eq-ok_iff :
      (id : Bytes) (e : Entry)
      → (scale_entry {E = E} book id ≡ ok e)
        ↔ (((id ≡ codes "root") × (e ≡ scale_root)) ⊎ (IsBook id × (e ≡ file_entry book id)))
  scale_entry-eq-ok_iff id e = (Exists-of_ok id e, ok-of_Exists id e)

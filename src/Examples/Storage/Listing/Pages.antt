-- ===== src/Examples/Storage/Listing/Pages.antt =====
-- The pages of the large directory, one after the other.
use mathlib.Core.List.{map-append}
use bloem_plugin_sdk.Base.{
  ℕ, zero, suc, ◌+◌, ◌-◌, ◌≤◌, ◌<◌, false, Option, none, some, List, [], ◌∷◌, ◌++◌, map, ltb, ◌==◌,
  length, Result, ok, err, if◌then◌else◌, ◌≡◌, refl, sym, ap, ◌∙◌, inl, inr, arith, Bool-cases,
  ==_iff,
}
use bloem_plugin_sdk.Base.Decimal.{Bytes, format_int, is_empty-format_int, parse_int-format_int}
use bloem_plugin_sdk.Text.{codes}
use bloem_plugin_sdk.Text.Bytes.{bytes_eq}
use bloem_plugin_sdk.Examples.Storage.{StorageError, Entry, scale_entries, book_id, entry}
use bloem_plugin_sdk.Examples.Storage.Entries.{book_entry, scale_entry-book_id}
use bloem_plugin_sdk.Examples.Storage.Listing.{
  ListRequest, ListResponse, page_limit, page_end, count_from, start_of, collect, page, scale_page,
  list_scale,
}

count_from_split :
    (start m n : ℕ) → count_from start m ++ count_from (start + m) n ≡ count_from start (m + n)
unfolding count_from
count_from_split start zero n =
    let a : start + 0 ≡ start = omega arith in let b : 0 + n ≡ n = omega arith in rw (a, b) refl
count_from_split start (suc m) n =
    let a : start + suc m ≡ suc start + m = omega arith in
    let b : suc m + n ≡ suc (m + n) = omega arith in
    rw (a, b) (ap (◌∷◌ start) (count_from_split (suc start) m n))

-- A request for a page of the directory.
abbrev pub asks : Bytes → ℕ → ListRequest
asks cursor max = record {
  source_id = codes "scale";
  directory_id = codes "root";
  cursor = cursor;
  max_entries = max;
}

page_limit-positive : (max : ℕ) → 0 < page_limit max
page_limit-positive max = ground arith

-- A page ends behind its start, unless it is at the end of all.
page_end_lem :
    (start max : ℕ)
    → start ≤ 2000000
    → let end = page_end start (page_limit max) scale_entries in
      (start ≤ end) × (end ≤ 2000000) × ((end == scale_entries) ≡ false → start < end)
page_end_lem start max h =
    let some_entries : 0 < page_limit max = page_limit-positive max in
    elim (Bool-cases (ltb scale_entries (start + page_limit max))) [
      | inl e ↦ rw e (h, omega arith, λ d. absurd (cc d))
      | inr e ↦ rw e (omega arith, ground (arith, e), λ d. omega (arith, some_entries))
    ]

abbrev prepend : List Entry → Option (List Entry) → Option (List Entry)
prepend es none = none
prepend es (some fs) = some (es ++ fs)

module _ (E : Type 0) (book : Bytes) where
  collect-book_ids :
      (start n : ℕ)
      → start + n ≤ 2000000
      → collect (entry {E = E} book (codes "scale")) (map book_id (count_from start n))
        ≡ ok (map (book_entry book) (count_from start n))
  unfolding collect count_from entry bytes_eq
  collect-book_ids start zero h = refl
  collect-book_ids start (suc n) h =
      rw
        (
          scale_entry-book_id E book start (omega (arith, h)),
          collect-book_ids (suc start) n (omega (arith, h)),
        )
        refl

  scale_page_lem :
      (max start : ℕ)
      → start ≤ 2000000
      → let end = page_end start (page_limit max) scale_entries in
        scale_page {E = E} book (codes "scale") max start
        ≡ ok (page scale_entries end (map (book_entry book) (count_from start (end - start))))
  unfolding scale_page bytes_eq
  scale_page_lem max start h =
      let end = page_end start (page_limit max) scale_entries in
      let (from, to, _) = page_end_lem start max h in
      rw (collect-book_ids start (end - start) (omega (arith, from, to))) refl

  list_scale_lem :
      (cursor : Bytes) (max start : ℕ)
      → start_of {E = E} scale_entries cursor ≡ ok start
      → list_scale {E = E} book (asks cursor max)
        ≡ scale_page {E = E} book (codes "scale") max start
  unfolding list_scale bytes_eq
  list_scale_lem cursor max start at = rw at refl

  -- The entries of the pages that a client gets which goes on at each page's cursor until a page
  -- says that it is the last, with a limit for each page; none if a page is an error, or if there
  -- are fewer limits than pages.
  abbrev pub walk_on :
      Result (StorageError E) ListResponse → (Bytes → Option (List Entry)) → Option (List Entry)
  walk_on (err e) rest = none
  walk_on (ok p) rest =
      if p.complete then some p.entries else prepend p.entries (rest p.next_cursor)

  unfoldable pub walk : Bytes → List ℕ → Option (List Entry)
  unfolding list_scale
  walk cursor [] = none
  walk cursor (max ∷ limits) =
      walk_on (list_scale {E = E} book (asks cursor max)) (λ next. walk next limits)

  start_of-format_int : (n : ℕ) → n ≤ 2000000 → start_of {E = E} scale_entries (format_int n) ≡ ok n
  unfolding start_of
  start_of-format_int n h =
      let few : ltb scale_entries n ≡ false = ground (arith, h) in
      rw (is_empty-format_int n, parse_int-format_int n (omega (arith, h))) (rw few refl)

  -- From any cursor that stands for a position, whatever limits are asked for, if there are more of
  -- them than entries left, the walk ends and gives every entry from that position on, once and in
  -- order.
  pub walk_lem :
      (limits : List ℕ) (cursor : Bytes) (start : ℕ)
      → start_of {E = E} scale_entries cursor ≡ ok start
      → start ≤ 2000000
      → 2000000 < start + length limits
      → walk cursor limits ≡ some (map (book_entry book) (count_from start (2000000 - start)))
  unfolding walk
  walk_lem [] cursor start at h enough = absurd (omega arith)
  walk_lem (max ∷ limits) cursor start at h enough =
      let end = page_end start (page_limit max) scale_entries in
      let (from, to, on) = page_end_lem start max h in
      let found = map (book_entry book) (count_from start (end - start)) in
      let rest : Bytes → Option (List Entry) = λ next. walk next limits in
      let step : list_scale {E = E} book (asks cursor max) ≡ ok (page scale_entries end found) =
        list_scale_lem cursor max start at ∙ scale_page_lem max start h in
      elim (Bool-cases (end == scale_entries)) [
        | inl e ↦
            let all : end ≡ 2000000 = (==_iff end scale_entries).0 e in
            let answer : walk_on (ok (page scale_entries end found)) rest ≡ some found =
              rw e refl in
            ap (λ r. walk_on r rest) step
            ∙ answer
            ∙ ap (λ n. some (map (book_entry book) (count_from start (n - start)))) all
        | inr e ↦
            let answer : walk_on (ok (page scale_entries end found)) rest
                ≡ prepend found (walk (format_int end) limits) =
              rw e refl in
            let ih =
              walk_lem limits (format_int end) end (start_of-format_int end to) to
                (omega (arith, on e, enough)) in
            let parts : start + (end - start) ≡ end = omega (arith, from) in
            let sum : (end - start) + (2000000 - end) ≡ 2000000 - start = omega (arith, from, to) in
            let joined : count_from start (end - start) ++ count_from end (2000000 - end)
                ≡ count_from start (2000000 - start) =
              ap (λ n. count_from start (end - start) ++ count_from n (2000000 - end)) (sym parts)
              ∙ count_from_split start (end - start) (2000000 - end)
              ∙ ap (count_from start) sum in
            ap (λ r. walk_on r rest) step
            ∙ answer
            ∙ ap (prepend found) ih
            ∙ ap some (
                sym (
                  map-append (book_entry book) (count_from start (end - start))
                    (count_from end (2000000 - end)))
                ∙ ap (map (book_entry book)) joined)
      ]

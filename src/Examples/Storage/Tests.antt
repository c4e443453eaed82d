-- ===== src/Examples/Storage/Tests.antt =====
-- The storage fixture at concrete inputs, with an ebook of five bytes.
use bloem_plugin_sdk.Base.{
  ℕ, ◌+◌, true, false, Option, none, some, List, [], ◌∷◌, map, concat, any, ok, err, ◌≡◌, refl, ◌⊎◌,
  arith,
}
use bloem_plugin_sdk.Base.Int.{pos}
use bloem_plugin_sdk.Base.Decimal.{Bytes, format_int, parse_int, pad_int}
use bloem_plugin_sdk.Text.{codes}
use bloem_plugin_sdk.Text.Bytes.{bytes_eq, trim_prefix}
use bloem_plugin_sdk.Examples.Storage.{
  canceled, invalid_cursor, entry_absent, scale_entry, fixture_entry, entry, stat, scale_root,
  file_entry,
}
use bloem_plugin_sdk.Examples.Storage.Entries.{book_entry, IsBook, scale_entry-eq-ok_iff}
use bloem_plugin_sdk.Examples.Storage.Listing.{start_of, collect, count_from, list}
use bloem_plugin_sdk.Examples.Storage.Listing.Pages.{walk, walk_lem}
use bloem_plugin_sdk.Examples.Storage.Reading.{
  ReadRequest, ReadChunk, part, read, read_range, read_chunks, send,
}
use bloem_plugin_sdk.Examples.Storage.Reading.Chunks.{IsDelivery}
use bloem_plugin_sdk.Examples.Storage.Reading.Laws.{read_delivers}

abbrev book : Bytes
book = 1 ∷ 2 ∷ 3 ∷ 4 ∷ 5 ∷ []

lists_fixture :
    list {E = ℕ} book none (record {
      source_id = codes "fixture";
      directory_id = codes "root";
      cursor = [];
      max_entries = 1;
    })
    ≡ ok (record {
      entries = file_entry book (codes "book") ∷ [];
      next_cursor = codes "1";
      complete = false;
    })
unfolding list entry bytes_eq fixture_entry start_of collect format_int any
lists_fixture = refl

rejects_cursor :
    list {E = ℕ} book none (record {
      source_id = codes "fixture";
      directory_id = codes "root";
      cursor = codes "3";
      max_entries = 1;
    })
    ≡ err invalid_cursor
unfolding list entry bytes_eq fixture_entry start_of parse_int any
rejects_cursor = refl

misspelt_id : scale_entry {E = ℕ} book (codes "book-7") ≡ err entry_absent
unfolding scale_entry bytes_eq trim_prefix parse_int pad_int format_int
misspelt_id = refl

scale_entry-eq-ok_iff_example :
    ((codes "book-0000007" ≡ codes "root") × (file_entry book (codes "book-0000007") ≡ scale_root))
    ⊎ (IsBook (codes "book-0000007")
        × (file_entry book (codes "book-0000007") ≡ file_entry book (codes "book-0000007")))
unfolding scale_entry bytes_eq trim_prefix parse_int pad_int format_int
scale_entry-eq-ok_iff_example =
    (scale_entry-eq-ok_iff ℕ book (codes "book-0000007") (file_entry book (codes "book-0000007"))).0
      refl

walk_lem_example :
    walk ℕ book (codes "1999998") (1 ∷ 0 ∷ 7 ∷ [])
    ≡ some (map (book_entry book) (count_from 1999998 2))
unfolding start_of parse_int
walk_lem_example =
    walk_lem ℕ book (1 ∷ 0 ∷ 7 ∷ []) (codes "1999998") 1999998 refl (omega arith) (omega arith)

abbrev always : List ReadChunk → ReadChunk → Option ℕ
always sent chunk = none

abbrev middle : ReadRequest
middle = record {
  source_id = codes "fixture";
  entry_id = codes "book";
  expected_revision = codes "v1";
  offset = pos 1;
  length = pos 3;
}

reads_short :
    read always canceled book none (record middle { entry_id = codes "short" })
    ≡ (record { offset = 1; content = 2 ∷ 3 ∷ []; eof = true } ∷ [], ok tt)
unfolding read stat entry bytes_eq fixture_entry read_range read_chunks send any
reads_short = refl

read_delivers_example :
    (chunks : List ReadChunk) × (read always canceled book none middle ≡ (chunks, ok tt))
    × IsDelivery 1 (1 + 3) chunks
    × (concat (map (λ (c : ReadChunk). c.content) chunks) ≡ part book 1 (1 + 3))
unfolding stat entry bytes_eq fixture_entry any
read_delivers_example =
    read_delivers always canceled book middle (file_entry book (codes "book")) 1 3
      (λ sent chunk. refl) (refl, refl, (refl, refl)) refl refl refl refl (omega arith, omega arith)

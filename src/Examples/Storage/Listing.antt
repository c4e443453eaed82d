-- ===== src/Examples/Storage/Listing.antt =====
-- List and listScale of the storage fixture: pages of a directory, with a cursor to the next one.
pub mod Pages
use bloem_plugin_sdk.Base.{
  ℕ, zero, suc, ◌+◌, ◌-◌, Bool, true, false, not, ◌&&◌, ◌||◌, Option, none, some, List, [], ◌∷◌,
  ltb, leb, ◌==◌, length, take, drop, map, is_empty, Result, ok, err, ◌>>=◌, ◌>>◌, fail_if,
  if◌then◌else◌,
}
use bloem_plugin_sdk.Base.Int.{ℤ, pos, negsuc}
use bloem_plugin_sdk.Base.Decimal.{Bytes, format_int, parse_int}
use bloem_plugin_sdk.Text.{codes}
use bloem_plugin_sdk.Text.Bytes.{bytes_eq}
use bloem_plugin_sdk.Examples.Storage.{
  ContextError, StorageError, not_a_directory, invalid_cursor, injected_page_failure,
  directory_absent, EntryKind, file, directory, Entry, scale_entries, book_id, is_scale,
  check_context, entry,
}

pub record ListRequest : Type 0 where
  pub source_id : Bytes
  pub directory_id : Bytes
  pub cursor : Bytes
  -- a uint32
  pub max_entries : ℕ

pub record ListResponse : Type 0 where
  pub entries : List Entry
  pub next_cursor : Bytes
  pub complete : Bool

-- `limit`, of a request that may leave it out
abbrev pub page_limit : ℕ → ℕ
page_limit max = if max == 0 || ltb 512 max then 512 else max

abbrev pub page_end : ℕ → ℕ → ℕ → ℕ
page_end start limit total = if ltb total (start + limit) then total else start + limit

abbrev is_directory : EntryKind → Bool
is_directory file = false
is_directory directory = true

-- Numbers from a first one on.
unfoldable pub count_from : ℕ → ℕ → List ℕ
count_from start zero = []
count_from start (suc n) = start ∷ count_from (suc start) n

-- the response for a page that ends at a position of all
abbrev pub page : ℕ → ℕ → List Entry → ListResponse
page total end entries = record {
  entries = entries;
  next_cursor = if not (end == total) then format_int end else [];
  complete = end == total;
}

abbrev pub fixture_ids : Bytes → List Bytes
fixture_ids dir =
    if bytes_eq dir (codes "chapters") then [] else codes "book" ∷ codes "chapters" ∷ []

module _ {E : Type 0} where
  abbrev pub checked_start : ℕ → Option ℤ → Result (StorageError E) ℕ
  checked_start total none = err invalid_cursor
  checked_start total (some (negsuc n)) = err invalid_cursor
  checked_start total (some (pos n)) = if ltb total n then err invalid_cursor else ok n

  -- where the cursor says that the page starts
  unfoldable pub start_of : ℕ → Bytes → Result (StorageError E) ℕ
  unfolding parse_int
  start_of total cursor = if is_empty cursor then ok 0 else checked_start total (parse_int cursor)

  -- The loop over the ids of a page.
  unfoldable pub collect :
      (Bytes → Result (StorageError E) Entry) → List Bytes → Result (StorageError E) (List Entry)
  collect find [] = ok []
  collect find (id ∷ ids) = do e ← find id; es ← collect find ids; ok (e ∷ es)

  module _ (book : Bytes) where
    -- the page of the large directory that starts at a position
    unfoldable pub scale_page : Bytes → ℕ → ℕ → Result (StorageError E) ListResponse
    unfolding collect entry format_int count_from
    scale_page source max start = do
      fail_if (bytes_eq source (codes "scale-failure") && leb 512 start) injected_page_failure
      let end = page_end start (page_limit max) scale_entries
      entries ← collect (entry book source) (map book_id (count_from start (end - start)))
      ok (page scale_entries end entries)

    -- `listScale`
    unfoldable pub list_scale : ListRequest → Result (StorageError E) ListResponse
    unfolding start_of scale_page
    list_scale r = do
      fail_if (not (bytes_eq r.directory_id (codes "root"))) directory_absent
      start ← start_of scale_entries r.cursor
      scale_page r.source_id r.max_entries start

    abbrev pub list_fixture : ListRequest → Result (StorageError E) ListResponse
    list_fixture r = do
      dir ← entry book r.source_id r.directory_id
      fail_if (not (is_directory dir.kind)) not_a_directory
      let ids = fixture_ids r.directory_id
      start ← start_of (length ids) r.cursor
      let end = page_end start (page_limit r.max_entries) (length ids)
      entries ← collect (entry book (codes "fixture")) (take (end - start) (drop start ids))
      ok (page (length ids) end entries)

    -- `List`
    unfoldable pub list : Option ContextError → ListRequest → Result (StorageError E) ListResponse
    unfolding list_scale entry start_of collect
    list ctx r = do check_context ctx; if is_scale r.source_id then list_scale r else list_fixture r

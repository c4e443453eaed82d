-- ===== src/Examples/Storage.antt =====
-- examples/hello-storage/provider.go: a fixture that serves one ebook and a large virtual directory.
-- The ebook, a zip file that archive/zip writes, is the parameter `book`. Ids, cursors and revisions
-- are the lists of their bytes; for the literals of the source, which are ASCII, the codes of the
-- characters.
pub mod Entries
mod Tests
pub mod Listing
pub mod Reading
use bloem_plugin_sdk.Base.{
  ℕ, zero, suc, ◌+◌, ◌-◌, Bool, true, false, not, ◌&&◌, ◌||◌, Option, none, some, List, [], ◌∷◌,
  ◌++◌, ltb, ◌==◌, length, is_empty, Result, ok, err, ◌>>=◌, ◌>>◌, fail_if, any, if◌then◌else◌,
}
use bloem_plugin_sdk.Base.Int.{ℤ, pos, negsuc}
use bloem_plugin_sdk.Base.Decimal.{Bytes, parse_int, pad_int}
use bloem_plugin_sdk.Text.{codes}
use bloem_plugin_sdk.Text.Bytes.{bytes_eq, trim_prefix}

-- what `status.FromContextError` makes of a context's error
pub data ContextError : Type 0 where
  canceled deadline_exceeded : ContextError

-- The errors of the calls; `out_of_fuel` stands for a loop that is not done.
pub data StorageError (E : Type 0) : Type 0 where
  parent_environment_inherited entry_absent source_absent directory_absent
        expected_revision_required revision_changed :
      StorageError E
  not_a_directory invalid_cursor injected_page_failure invalid_file_range
        revision_changed_before_read out_of_fuel :
      StorageError E
  context_error : ContextError → StorageError E
  not_sent : E → StorageError E

pub data EntryKind : Type 0 where
  file directory : EntryKind

-- the fields of `Entry` that the fixture sets
pub record Entry : Type 0 where
  pub id : Bytes
  pub name : Bytes
  pub logical_path : Bytes
  pub kind : EntryKind
  pub size : ℕ
  pub revision : Bytes

pub record Source : Type 0 where
  pub id : Bytes
  pub name : Bytes
  pub root_entry_id : Bytes
  pub revision_pinned_reads : Bool

pub record DescribeResponse : Type 0 where
  pub revision : ℕ
  pub sources : List Source

pub record StatRequest : Type 0 where
  pub source_id : Bytes
  pub entry_id : Bytes
  pub expected_revision : Bytes

abbrev pub scale_entries : ℕ
scale_entries = 2000000

-- `fmt.Sprintf("book-%07d", n)`
abbrev pub book_id : ℕ → Bytes
book_id n = codes "book-" ++ pad_int 7 n

abbrev pub is_scale : Bytes → Bool
is_scale source = bytes_eq source (codes "scale") || bytes_eq source (codes "scale-failure")

abbrev pub is_one_of : List Bytes → Bytes → Bool
is_one_of ids id = any (bytes_eq id) ids

-- `ctx.Err()` at the start of a call
abbrev pub check_context : {E : Type 0} → Option ContextError → Result (StorageError E) (Unit {0})
check_context none = ok tt
check_context (some e) = err (context_error e)

module _ (book : Bytes) where
  abbrev pub file_entry : Bytes → Entry
  file_entry id = record {
    id = id;
    name = id ++ codes ".epub";
    logical_path = id ++ codes ".epub";
    kind = file;
    size = length book;
    revision = codes "v1";
  }

abbrev pub directory_entry : Bytes → Entry
directory_entry id = record {
  id = id;
  name = id;
  logical_path = id;
  kind = directory;
  size = 0;
  revision = codes "v1";
}

abbrev pub scale_root : Entry
scale_root = record {
  id = codes "root";
  name = codes "root";
  logical_path = [];
  kind = directory;
  size = 0;
  revision = codes "v1";
}

-- whether a number that was parsed names a book of the large directory
abbrev pub names_book : Bytes → Option ℤ → Bool
names_book id none = false
names_book id (some (negsuc n)) = false
names_book id (some (pos n)) = ltb n scale_entries && bytes_eq (book_id n) id

module _ {E : Type 0} (book : Bytes) where
  unfoldable pub scale_entry : Bytes → Result (StorageError E) Entry
  unfolding bytes_eq trim_prefix parse_int pad_int
  scale_entry id =
      if bytes_eq id (codes "root")
      then ok scale_root
      else if names_book id (parse_int (trim_prefix id (codes "book-")))
      then ok (file_entry book id)
      else err entry_absent

  unfoldable pub fixture_entry : Bytes → Result (StorageError E) Entry
  unfolding bytes_eq
  fixture_entry id =
      if is_one_of
        (codes "book"
          ∷ codes "revision-conflict"
          ∷ codes "duplicate"
          ∷ codes "short"
          ∷ codes "blocking"
          ∷ [])
        id
      then ok (file_entry book id)
      else if is_one_of (codes "root" ∷ codes "chapters" ∷ []) id
      then ok (directory_entry id)
      else err entry_absent

  -- `entry`
  unfoldable pub entry : Bytes → Bytes → Result (StorageError E) Entry
  unfolding scale_entry fixture_entry
  entry source id =
      if is_scale source
      then scale_entry id
      else if not (bytes_eq source (codes "fixture"))
      then err source_absent
      else fixture_entry id

  -- `Stat`
  unfoldable pub stat : Option ContextError → StatRequest → Result (StorageError E) Entry
  unfolding entry
  stat ctx r = do
    check_context ctx
    fail_if (is_empty r.expected_revision) expected_revision_required
    e ← entry r.source_id r.entry_id
    fail_if (not (bytes_eq r.expected_revision e.revision)) revision_changed
    ok e

-- `Describe`, by whether the sentinel variable is set
unfoldable pub describe :
    {E : Type 0} → Option ContextError → Bool → Result (StorageError E) DescribeResponse
describe ctx present = do
  check_context ctx
  fail_if present parent_environment_inherited
  ok (record {
    revision = 1;
    sources =
        record {
          id = codes "fixture";
          name = codes "Synthetic ebooks";
          root_entry_id = codes "root";
          revision_pinned_reads = true;
        }
        ∷ record {
          id = codes "scale";
          name = codes "Synthetic two-million-entry namespace";
          root_entry_id = codes "root";
          revision_pinned_reads = true;
        }
        ∷ [];
  })

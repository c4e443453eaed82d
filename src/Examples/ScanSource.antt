-- ===== src/Examples/ScanSource.antt =====
-- examples/hello-scan-source/main.go: a poll returns the lines that were appended to a change log
-- since the previous poll. The file may change between the system calls of one poll, so a poll is
-- given what each of them finds. Sizes and offsets stay below 2^63, so int64 never wraps.
pub mod Lines
pub mod Polls
pub mod Sequences
pub mod Markers
use bloem_plugin_sdk.Base.{
  ℕ, suc, ◌+◌, ◌-◌, String, Bool, true, false, not, ◌||◌, Option, none, some, List, [], ◌∷◌, ◌++◌,
  map, ltb, ◌==◌, str_eq, if◌then◌else◌, is_empty, length, drop, get_elem?, lookup, Result, ok, err,
  ◌>>=◌,
}
use bloem_plugin_sdk.Base.Int.{ℤ, pos, negsuc}
use bloem_plugin_sdk.Base.Decimal.{Bytes, format_int, parse_int}
use bloem_plugin_sdk.Text.{trim_space}
use bloem_plugin_sdk.Text.Bytes.{trim_bytes, has_suffix, trim_right_byte}

abbrev pub changes_file_key : String
changes_file_key = "changes_file"

abbrev pub newline : ℕ
newline = b'\n'

-- `ScanSourceChangeScope`
abbrev pub scope_file : ℤ
scope_file = pos 2

abbrev pub scope_subtree : ℤ
scope_subtree = pos 3

pub record ScanSourceChange : Type 0 where
  pub source_path : Bytes
  pub scope : ℤ

-- the fields that the poll reads of `PollChangesRequest`
pub record PollChangesRequest : Type 0 where
  pub marker : Bytes
  pub source_config : List (String × String)

pub record PollChangesResponse : Type 0 where
  pub next_marker : Bytes
  pub changes : List ScanSourceChange

pub data PollError : Type 0 where
  not_configured cannot_stat cannot_open cannot_seek cannot_read : PollError
  log_not_found : String → PollError

-- What `os.Stat` finds: nothing there, another error, or a size.
pub data Stat : Type 0 where
  no_file no_stat : Stat
  size_of : ℕ → Stat

-- What `os.Open` and the reads after it find: an error, or the bytes, with whether reading on then
-- fails instead of reaching the end of the file. A pipe can be read on, but not at an offset.
pub data File : Type 0 where
  unopenable : File
  unseekable : Bytes → Bool → File
  reading : Bytes → Bool → File

-- What the system calls of one poll find, in their order.
pub record Seen : Type 0 where
  pub stat : Stat
  -- for `followsNewline` or `completeLinesEnd`
  pub check : File
  -- for `readAppended`
  pub read : File

-- `changeFor`
unfoldable pub change_for : Bytes → ScanSourceChange
unfolding has_suffix trim_right_byte
change_for line =
    if has_suffix line b'/'
    then record { source_path = trim_right_byte line b'/'; scope = scope_subtree }
    else record { source_path = line; scope = scope_file }

abbrev pub is_newline : Option ℕ → Bool
is_newline none = false
is_newline (some c) = c == newline

-- `ReadAt` of one byte, which is an error at the end of the file
abbrev pub read_at : Option ℕ → Result PollError Bool
read_at none = err cannot_read
read_at (some c) = ok (c == newline)

-- `followsNewline`, at a positive offset
unfoldable pub follows_newline : File → ℕ → Result PollError Bool
follows_newline unopenable offset = err cannot_open
follows_newline (unseekable bytes fails) offset = err cannot_read
follows_newline (reading bytes fails) offset = read_at (get_elem? bytes (offset - 1))

-- What `ReadString('\n')` returns one after the other before the end of the file: the complete
-- lines, each with its newline. The first argument is the part of a line that has been read.
unfoldable pub complete_lines : Bytes → Bytes → List Bytes
complete_lines line [] = []
complete_lines line (c ∷ s) =
    let begun = line ++ (c ∷ []) in
    let rest = complete_lines (if c == newline then [] else begun) s in
    if c == newline then begun ∷ rest else rest

-- The loop of `readAppended` over the lines read.
unfoldable pub keep_lines : List Bytes → ℕ → List Bytes → List Bytes × ℕ
unfolding trim_bytes
keep_lines lines next [] = (lines, next)
keep_lines lines next (raw ∷ raws) =
    keep_lines (if is_empty (trim_bytes raw) then lines else lines ++ (trim_bytes raw ∷ []))
      (next + length raw) raws

-- `readAppended`
unfoldable pub read_appended : File → ℕ → Result PollError (List Bytes × ℕ)
unfolding complete_lines keep_lines
read_appended unopenable offset = err cannot_open
read_appended (unseekable bytes fails) offset = err cannot_seek
read_appended (reading bytes fails) offset =
    if fails
    then err cannot_read
    else ok (keep_lines [] offset (complete_lines [] (drop offset bytes)))

-- `bytes.LastIndexByte` at a newline
abbrev or_first : Option ℕ → ℕ → Option ℕ
or_first (some i) c = some (suc i)
or_first none c = if c == newline then some 0 else none

unfoldable pub last_newline : Bytes → Option ℕ
last_newline [] = none
last_newline (c ∷ s) = or_first (last_newline s) c

abbrev pub end_in_block : Option ℕ → ℕ → ℕ → ℕ
end_in_block none base end = end
end_in_block (some i) base end = base + i + 1

-- The loop of `completeLinesEnd` over the blocks that `Read` fills.
unfoldable pub end_of_lines : ℕ → ℕ → List Bytes → ℕ
unfolding last_newline
end_of_lines base end [] = end
end_of_lines base end (block ∷ blocks) =
    end_of_lines (base + length block) (end_in_block (last_newline block) base end) blocks

abbrev pub is_zero_marker : Bytes → Bool
is_zero_marker (c ∷ []) = c == b'0'
is_zero_marker _ = false

-- `Read` may fill its buffer in any portions: `blocks` cuts what it reads.
module _ (blocks : Bytes → List Bytes) where
  -- `completeLinesEnd`
  unfoldable pub complete_lines_end : File → Result PollError ℕ
  unfolding end_of_lines
  complete_lines_end unopenable = err cannot_open
  complete_lines_end (unseekable bytes fails) =
      if fails then err cannot_read else ok (end_of_lines 0 0 (blocks bytes))
  complete_lines_end (reading bytes fails) =
      if fails then err cannot_read else ok (end_of_lines 0 0 (blocks bytes))

  -- `resyncToEnd`
  unfoldable pub resync_to_end : File → Result PollError PollChangesResponse
  unfolding complete_lines_end format_int
  resync_to_end file = do
    end ← complete_lines_end file
    ok (record { next_marker = format_int end; changes = [] })

  -- Where the reading starts: at the offset, or at 0 after a truncation.
  unfoldable pub start_of : ℕ → ℕ → File → Result PollError ℕ
  unfolding follows_newline
  start_of offset size file =
      if ltb size offset
      then ok 0
      else if ltb 0 offset
      then (do
        at_line_start ← follows_newline file offset
        ok (if not at_line_start then 0 else offset))
      else ok offset

  unfoldable pub read_changes : ℕ → File → Result PollError PollChangesResponse
  unfolding read_appended change_for format_int
  read_changes offset file = do
    (lines, next) ← read_appended file offset
    ok (record { next_marker = format_int next; changes = map change_for lines })

  unfoldable pub poll_offset : Option ℤ → ℕ → Seen → Result PollError PollChangesResponse
  unfolding resync_to_end start_of read_changes
  poll_offset none size seen = resync_to_end seen.check
  poll_offset (some (negsuc n)) size seen = resync_to_end seen.check
  poll_offset (some (pos offset)) size seen = do
    start ← start_of offset size seen.check
    read_changes start seen.read

  -- The poll of a log with this path, by what `os.Stat` finds.
  unfoldable pub poll_log : String → Bytes → Stat → Seen → Result PollError PollChangesResponse
  unfolding poll_offset parse_int resync_to_end
  poll_log path marker no_file seen =
      if is_empty marker || is_zero_marker marker
      then ok (record { next_marker = b'0' ∷ []; changes = [] })
      else err (log_not_found path)
  poll_log path marker no_stat seen = err cannot_stat
  poll_log path marker (size_of size) seen =
      if is_empty marker then resync_to_end seen.check else poll_offset (parse_int marker) size seen

abbrev pub or_blank : Option String → String
or_blank none = ""
or_blank (some s) = s

-- `PollChanges`, on what the system calls find at each path
unfoldable pub poll_changes :
    (Bytes → List Bytes)
    → (String → Seen)
    → PollChangesRequest
    → Result PollError PollChangesResponse
unfolding poll_log trim_space lookup
poll_changes blocks seen req =
    let path = trim_space (or_blank (lookup changes_file_key req.source_config)) in
    if str_eq path ""
    then err not_configured
    else poll_log blocks path req.marker (seen path).stat (seen path)

-- ===== src/Examples/ScanSource/Markers.antt =====
-- The markers that a poll of the change log returns.
use bloem_plugin_sdk.Base.{
  ℕ, String, Bool, true, false, ◌||◌, Option, none, some, List, [], ◌∷◌, if◌then◌else◌, is_empty,
  Result, ok, err, ◌>>=◌, ◌≡◌, str_eq, lookup,
}
use bloem_plugin_sdk.Base.Int.{ℤ, pos, negsuc}
use bloem_plugin_sdk.Base.Decimal.{Bytes, parse_int, format_int-ne-nil}
use bloem_plugin_sdk.Text.{trim_space}
use bloem_plugin_sdk.Examples.ScanSource.{
  PollChangesRequest, PollChangesResponse, PollError, File, Stat, no_file, no_stat, size_of, Seen,
  start_of, resync_to_end, complete_lines_end, read_appended, read_changes, poll_offset, poll_log,
  poll_changes, is_zero_marker, or_blank, changes_file_key,
}

-- A poll that succeeds returns a marker.
abbrev pub Marks : Result PollError PollChangesResponse → Type 0
Marks (err e) = Unit
Marks (ok r) = ¬ (r.next_marker ≡ [])

cons-ne-nil : (c : ℕ) (s : Bytes) → ¬ (c ∷ s ≡ [])
cons-ne-nil c s e = cc e

bind-Marks :
    {A : Type 0}
    → (r : Result PollError A) (f : A → Result PollError PollChangesResponse)
    → ((a : A) → Marks (f a))
    → Marks (r >>= f)
bind-Marks (err e) f h = tt
bind-Marks (ok a) f h = h a

if-Marks :
    (b : Bool) (r s : Result PollError PollChangesResponse)
    → Marks r
    → Marks s
    → Marks (if b then r else s)
if-Marks true r s hr hs = hr
if-Marks false r s hr hs = hs

module _ (blocks : Bytes → List Bytes) where
  resync_to_end-Marks : (file : File) → Marks (resync_to_end blocks file)
  unfolding resync_to_end
  resync_to_end-Marks file =
      bind-Marks (complete_lines_end blocks file) _ (λ end. format_int-ne-nil end)

  read_changes-Marks : (offset : ℕ) (file : File) → Marks (read_changes blocks offset file)
  unfolding read_changes
  read_changes-Marks offset file =
      bind-Marks (read_appended file offset) _ (λ read. format_int-ne-nil read.1)

  poll_offset-Marks :
      (offset : Option ℤ) (size : ℕ) (seen : Seen) → Marks (poll_offset blocks offset size seen)
  unfolding poll_offset
  poll_offset-Marks none size seen = resync_to_end-Marks seen.check
  poll_offset-Marks (some (negsuc n)) size seen = resync_to_end-Marks seen.check
  poll_offset-Marks (some (pos offset)) size seen =
      bind-Marks (start_of blocks offset size seen.check) _
        (λ start. read_changes-Marks start seen.read)

  poll_log-Marks :
      (path : String) (marker : Bytes) (stat : Stat) (seen : Seen)
      → Marks (poll_log blocks path marker stat seen)
  unfolding poll_log
  poll_log-Marks path marker no_file seen =
      if-Marks (is_empty marker || is_zero_marker marker) _ _ (cons-ne-nil b'0' []) tt
  poll_log-Marks path marker no_stat seen = tt
  poll_log-Marks path marker (size_of size) seen =
      if-Marks (is_empty marker) _ _ (resync_to_end-Marks seen.check)
        (poll_offset-Marks (parse_int marker) size seen)

-- No poll that succeeds returns the empty marker, which the host would take for a first poll,
-- whatever the request and whatever the system calls find.
pub poll_changes-Marks :
    (blocks : Bytes → List Bytes) (seen : String → Seen) (req : PollChangesRequest)
    → Marks (poll_changes blocks seen req)
unfolding poll_changes
poll_changes-Marks blocks seen req =
    let path = trim_space (or_blank (lookup changes_file_key req.source_config)) in
    if-Marks (str_eq path "") _ _ tt
      (poll_log-Marks blocks path req.marker (seen path).stat (seen path))

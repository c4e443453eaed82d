-- ===== src/Examples/ScanSource/Polls.antt =====
-- One poll of a log that only grows.
use mathlib.Core.List.{append_assoc, map-append}
use bloem_plugin_sdk.Base.{
  ℕ, ◌+◌, ◌-◌, ◌^◌, ◌<◌, String, Bool, true, false, List, [], ◌∷◌, ◌++◌, map, ltb, length, concat,
  length-append, drop-append, get_elem?-append, ok, err, ◌≡◌, refl, sym, ap, ◌∙◌, subst, inl, inr,
  arith,
}
use bloem_plugin_sdk.Base.Decimal.{Bytes, format_int, is_empty-format_int, parse_int-format_int}
use bloem_plugin_sdk.Examples.ScanSource.{
  newline, ScanSourceChange, cannot_read, reading, size_of, Seen, change_for, follows_newline,
  complete_lines, read_appended, complete_lines_end, resync_to_end, start_of, read_changes,
  poll_offset, poll_log,
}
use bloem_plugin_sdk.Examples.ScanSource.Lines.{
  unfinished, finished, complete_lines_split, EndsLine, kept, kept-append, keep_lines_lem,
  end_of_lines_lem,
}

-- What is reported for a part of the log: its complete lines that are not blank, in order.
abbrev pub report : Bytes → List ScanSourceChange
report s = map change_for (kept (complete_lines [] s))

pub report_split : (s t : Bytes) → report s ++ report (unfinished [] s ++ t) ≡ report (s ++ t)
report_split s t =
    sym (
      map-append change_for (kept (complete_lines [] s))
        (kept (complete_lines [] (unfinished [] s ++ t))))
    ∙ ap (map change_for) (
        sym (kept-append (complete_lines [] s) (complete_lines [] (unfinished [] s ++ t)))
        ∙ ap kept (sym (complete_lines_split s t)))

-- A log found in three states, each grown from the one before; the last read may fail.
abbrev pub seen_log : Bytes → Bytes → Bytes → Bool → Seen
seen_log s0 s1 s2 fails = record {
  stat = size_of (length s0);
  check = reading s1 false;
  read = reading s2 fails;
}

follows_newline-append :
    (w v : Bytes)
    → follows_newline (reading ((w ++ (newline ∷ [])) ++ v) false) (length w + 1) ≡ ok true
unfolding follows_newline
follows_newline-append w v =
    let at : length w + 1 - 1 ≡ length w = omega arith in
    rw (at, append_assoc w (newline ∷ []) v, get_elem?-append w newline v) refl

module _ (blocks : Bytes → List Bytes) where
  start_of-EndsLine :
      (u v0 v1 : Bytes)
      → EndsLine u
      → start_of blocks (length u) (length (u ++ v0)) (reading (u ++ v1) false) ≡ ok (length u)
  unfolding start_of
  start_of-EndsLine u v0 v1 (inl e) =
      let test : ltb (length v0) 0 ≡ false = ground arith in
      subst
        (λ u.
          start_of blocks (length u) (length (u ++ v0)) (reading (u ++ v1) false) ≡ ok (length u))
        (sym e) (rw test refl)
  start_of-EndsLine u v0 v1 (inr (w, e)) =
      let size : length u ≡ length w + 1 = ap length e ∙ length-append w (newline ∷ []) in
      let reached : ltb (length (u ++ v0)) (length u) ≡ false =
        ground (arith, length-append u v0) in
      let positive : ltb 0 (length u) ≡ true = ground arith in
      let follows : follows_newline (reading (u ++ v1) false) (length u) ≡ ok true =
        subst (λ n. follows_newline (reading (u ++ v1) false) n ≡ ok true) (sym size)
          (subst (λ u. follows_newline (reading (u ++ v1) false) (length w + 1) ≡ ok true) (sym e)
            (follows_newline-append w v1)) in
      rw (reached, positive, follows) refl

  -- A poll whose marker stands at a line start of a log that has only grown reads on from there.
  pub poll_log-reads :
      (path : String) (u v0 v1 v : Bytes) (fails : Bool)
      → EndsLine u
      → length u < 2 ^ 63
      → let seen = seen_log (u ++ v0) (u ++ v1) (u ++ v) fails in
        poll_log blocks path (format_int (length u)) seen.stat seen
        ≡ read_changes blocks (length u) (reading (u ++ v) fails)
  unfolding poll_log poll_offset
  poll_log-reads path u v0 v1 v fails h fits =
      let filled = is_empty-format_int (length u) in
      let parsed = parse_int-format_int (length u) fits in
      let start = start_of-EndsLine u v0 v1 h in rw (filled, parsed, start) refl

  pub read_changes_lem :
      (u v : Bytes)
      → read_changes blocks (length u) (reading (u ++ v) false)
        ≡ ok (record { next_marker = format_int (length (u ++ finished v)); changes = report v })
  unfolding read_changes read_appended
  read_changes_lem u v =
      rw
        (
          drop-append u v,
          keep_lines_lem [] (length u) (complete_lines [] v),
          length-append u (finished v),
        )
        refl

  pub read_changes_fails :
      (offset : ℕ) (s : Bytes) → read_changes blocks offset (reading s true) ≡ err cannot_read
  unfolding read_changes read_appended
  read_changes_fails offset s = refl

  -- The first poll reports nothing and marks the end of the last complete line.
  pub first_poll :
      (path : String) (size : ℕ) (seen : Seen) (s : Bytes)
      → seen.check ≡ reading s false
      → concat (blocks s) ≡ s
      → poll_log blocks path [] (size_of size) seen
        ≡ ok (record { next_marker = format_int (length (finished s)); changes = [] })
  unfolding poll_log resync_to_end complete_lines_end
  first_poll path size seen s e whole = rw (e, end_of_lines_lem (blocks s), whole) refl

-- ===== src/Examples/ScanSource/Sequences.antt =====
-- The polls of a log that only grows, one after the other: which lines they report.
use mathlib.Core.List.{append_assoc, append-nil}
use bloem_plugin_sdk.Base.{
  ◌^◌, ◌<◌, String, Bool, true, false, List, [], ◌∷◌, ◌++◌, length, drop, concat, length-append,
  drop-append, Result, ok, err, ◌≡◌, refl, sym, ap, ◌∙◌, inl, inr, arith, Bool-cases, str_eq,
  lookup,
}
use bloem_plugin_sdk.Base.Decimal.{Bytes, format_int}
use bloem_plugin_sdk.Text.{trim_space}
use bloem_plugin_sdk.Examples.ScanSource.{
  ScanSourceChange, PollChangesResponse, PollError, cannot_read, reading, Seen, read_changes,
  poll_changes, or_blank, changes_file_key,
}
use bloem_plugin_sdk.Examples.ScanSource.Lines.{
  unfinished, finished, lines_whole, EndsLine, finished-EndsLine,
}
use bloem_plugin_sdk.Examples.ScanSource.Polls.{
  report, report_split, seen_log, poll_log-reads, read_changes_lem, read_changes_fails, first_poll,
}

-- What is appended to the log before each system call of one poll, and whether its reading fails.
pub record Growth : Type 0 where
  pub before_stat : Bytes
  pub before_check : Bytes
  pub before_read : Bytes
  pub fails : Bool

abbrev pub grown : Growth → Bytes
grown g = g.before_stat ++ (g.before_check ++ g.before_read)

abbrev pub grown_all : List Growth → Bytes
grown_all [] = []
grown_all (g ∷ gs) = grown g ++ grown_all gs

-- The last poll succeeds.
abbrev pub EndsWell : List Growth → Type 0
EndsWell [] = ⊥
EndsWell (g ∷ []) = g.fails ≡ false
EndsWell (g ∷ h ∷ gs) = EndsWell (h ∷ gs)

-- The host keeps its marker when a poll fails, and reports nothing then.
abbrev pub answer_of : Result PollError PollChangesResponse → Bytes → PollChangesResponse
answer_of (ok r) marker = r
answer_of (err e) marker = record { next_marker = marker; changes = [] }

abbrev pub seen_growth : Bytes → Growth → Seen
seen_growth s g =
    seen_log (s ++ g.before_stat) (s ++ (g.before_stat ++ g.before_check)) (s ++ grown g) g.fails

fits_before : (u v : Bytes) → length (u ++ v) < 2 ^ 63 → length u < 2 ^ 63
fits_before u v fits = ground (arith, length-append u v)

module _ (blocks : Bytes → List Bytes) (config : List (String × String)) where
  abbrev pub host_poll : Bytes → Seen → PollChangesResponse
  unfolding poll_changes
  host_poll marker seen =
      answer_of
        (poll_changes blocks (λ path. seen) (record { marker = marker; source_config = config }))
        marker

  -- The changes that the host receives from a sequence of polls, each with the marker of the one
  -- before.
  unfoldable pub host_polls : Bytes → Bytes → List Growth → List ScanSourceChange
  unfolding host_poll
  host_polls marker s [] = []
  host_polls marker s (g ∷ gs) =
      let answer = host_poll marker (seen_growth s g) in
      answer.changes ++ host_polls answer.next_marker (s ++ grown g) gs

  abbrev pub IsConfigured : Type 0
  IsConfigured = str_eq (trim_space (or_blank (lookup changes_file_key config))) "" ≡ false

  host_poll_lem :
      (u v : Bytes) (g : Growth)
      → IsConfigured
      → EndsLine u
      → length u < 2 ^ 63
      → host_poll (format_int (length u)) (seen_growth (u ++ v) g)
        ≡ answer_of
            (read_changes blocks (length u) (reading (u ++ (v ++ grown g)) g.fails))
            (format_int (length u))
  unfolding host_poll poll_changes
  host_poll_lem u v g configured h fits = rw (configured) (
      rw
        (
          append_assoc u v g.before_stat,
          append_assoc u v (g.before_stat ++ g.before_check),
          append_assoc u v (grown g),
        )
        (ap (λ r. answer_of r (format_int (length u)))
          (poll_log-reads blocks (trim_space (or_blank (lookup changes_file_key config))) u
            (v ++ g.before_stat) (v ++ (g.before_stat ++ g.before_check)) (v ++ grown g) g.fails h
            fits)))

  host_poll_fails :
      (u v : Bytes) (g : Growth)
      → IsConfigured
      → EndsLine u
      → length u < 2 ^ 63
      → g.fails ≡ true
      → host_poll (format_int (length u)) (seen_growth (u ++ v) g)
        ≡ record { next_marker = format_int (length u); changes = [] }
  host_poll_fails u v g configured h fits fails =
      let failed : read_changes blocks (length u) (reading (u ++ (v ++ grown g)) g.fails)
          ≡ err cannot_read =
        rw fails (read_changes_fails blocks (length u) (u ++ (v ++ grown g))) in
      host_poll_lem u v g configured h fits ∙ ap (λ r. answer_of r (format_int (length u))) failed

  host_poll_reads :
      (u v : Bytes) (g : Growth)
      → IsConfigured
      → EndsLine u
      → length u < 2 ^ 63
      → g.fails ≡ false
      → host_poll (format_int (length u)) (seen_growth (u ++ v) g) ≡ record {
        next_marker = format_int (length (u ++ finished (v ++ grown g)));
        changes = report (v ++ grown g);
      }
  host_poll_reads u v g configured h fits reads =
      let read : read_changes blocks (length u) (reading (u ++ (v ++ grown g)) g.fails)
          ≡ ok (record {
            next_marker = format_int (length (u ++ finished (v ++ grown g)));
            changes = report (v ++ grown g);
          }) =
        rw reads (read_changes_lem blocks u (v ++ grown g)) in
      host_poll_lem u v g configured h fits ∙ ap (λ r. answer_of r (format_int (length u))) read

  -- What is left behind the marker when the lines of `t` have been reported.
  rest_of_log : (u t : Bytes) → u ++ t ≡ (u ++ finished t) ++ unfinished [] t
  rest_of_log u t =
      ap (◌++◌ u) (sym (lines_whole [] t)) ∙ sym (append_assoc u (finished t) (unfinished [] t))

  host_polls_step_fails :
      (u v : Bytes) (g : Growth) (gs : List Growth)
      → IsConfigured
      → EndsLine u
      → length u < 2 ^ 63
      → g.fails ≡ true
      → host_polls (format_int (length u)) (u ++ v) (g ∷ gs)
        ≡ host_polls (format_int (length u)) (u ++ (v ++ grown g)) gs
  unfolding host_polls
  host_polls_step_fails u v g gs configured h fits fails =
      rw (host_poll_fails u v g configured h fits fails, append_assoc u v (grown g)) refl

  host_polls_step_reads :
      (u v : Bytes) (g : Growth) (gs : List Growth)
      → IsConfigured
      → EndsLine u
      → length u < 2 ^ 63
      → g.fails ≡ false
      → host_polls (format_int (length u)) (u ++ v) (g ∷ gs)
        ≡ report (v ++ grown g)
          ++ host_polls
              (format_int (length (u ++ finished (v ++ grown g))))
              ((u ++ finished (v ++ grown g)) ++ unfinished [] (v ++ grown g))
              gs
  unfolding host_polls
  host_polls_step_reads u v g gs configured h fits reads =
      rw
        (
          host_poll_reads u v g configured h fits reads,
          append_assoc u v (grown g),
          ← rest_of_log u (v ++ grown g),
        )
        refl

  -- The polls from a line start on report the lines completed behind it, whichever polls fail before
  -- the last.
  host_polls_lem :
      (u v : Bytes) (gs : List Growth)
      → IsConfigured
      → EndsLine u
      → EndsWell gs
      → length (u ++ (v ++ grown_all gs)) < 2 ^ 63
      → host_polls (format_int (length u)) (u ++ v) gs ≡ report (v ++ grown_all gs)
  unfolding host_polls
  host_polls_lem u v [] configured h well fits = elim well [ ]
  host_polls_lem u v (g ∷ []) configured h reads fits =
      rw
        (
          host_poll_reads u v g configured h (fits_before u (v ++ grown_all (g ∷ [])) fits) reads,
          append-nil (grown g),
        )
        (append-nil (report (v ++ grown g)))
  host_polls_lem u v (g ∷ next ∷ gs) configured h well fits =
      let rest = next ∷ gs in
      let t = v ++ grown g in
      let shorter = fits_before u (v ++ grown_all (g ∷ rest)) fits in
      let whole : t ++ grown_all rest ≡ v ++ grown_all (g ∷ rest) =
        append_assoc v (grown g) (grown_all rest) in
      let fits_t : length (u ++ (t ++ grown_all rest)) < 2 ^ 63 = rw whole fits in
      let fits_rest : length ((u ++ finished t) ++ (unfinished [] t ++ grown_all rest)) < 2 ^ 63 =
        rw
          (
            ← append_assoc (u ++ finished t) (unfinished [] t) (grown_all rest),
            ← rest_of_log u t,
            append_assoc u t (grown_all rest),
          )
          fits_t in
      elim (Bool-cases g.fails) [
        | inl fails ↦
            host_polls_step_fails u v g rest configured h shorter fails
            ∙ host_polls_lem u t (next ∷ gs) configured h well fits_t
            ∙ ap report whole
        | inr reads ↦
            host_polls_step_reads u v g rest configured h shorter reads
            ∙ ap (◌++◌ (report t)) (
                host_polls_lem (u ++ finished t) (unfinished [] t) (next ∷ gs) configured
                  (finished-EndsLine u t h) well fits_rest)
            ∙ report_split t (grown_all rest)
            ∙ ap report whole
      ]

-- What the first poll finds when it looks for the last complete line.
abbrev pub first_seen : Bytes → Growth → Bytes
first_seen s g = s ++ (g.before_stat ++ g.before_check)

module _ (blocks : Bytes → List Bytes) (config : List (String × String)) where
  host_poll_first :
      (s : Bytes) (g : Growth)
      → IsConfigured blocks config
      → ((b : Bytes) → concat (blocks b) ≡ b)
      → host_poll blocks config [] (seen_growth s g)
        ≡ record { next_marker = format_int (length (finished (first_seen s g))); changes = [] }
  unfolding host_poll poll_changes
  host_poll_first s g configured whole =
      let path = trim_space (or_blank (lookup changes_file_key config)) in
      let seen = seen_growth s g in
      rw configured (
        ap (λ r. answer_of r [])
          (first_poll blocks path (length (s ++ g.before_stat)) seen (first_seen s g) refl
            (whole (first_seen s g))))

-- The log after the first poll, cut at the marker.
log_at_marker :
    (s : Bytes) (g : Growth)
    → s ++ grown g ≡ finished (first_seen s g) ++ (unfinished [] (first_seen s g) ++ g.before_read)
log_at_marker s g =
    ap (◌++◌ s) (sym (append_assoc g.before_stat g.before_check g.before_read))
    ∙ sym (append_assoc s (g.before_stat ++ g.before_check) g.before_read)
    ∙ ap (λ t. t ++ g.before_read) (sym (lines_whole [] (first_seen s g)))
    ∙ append_assoc (finished (first_seen s g)) (unfinished [] (first_seen s g)) g.before_read

-- From the first poll on, whatever is appended before each system call and whichever polls but the
-- last fail to read, a host that passes the marker on receives the lines that are completed behind
-- those that the first poll finds, without the blank ones, once and in order. The source is
-- configured, the blocks that Read fills are together what is read, and the log stays below 2^63
-- bytes.
pub host_polls_reported :
    (blocks : Bytes → List Bytes) (config : List (String × String)) (s : Bytes) (g : Growth)
    (gs : List Growth)
    → IsConfigured blocks config
    → ((b : Bytes) → concat (blocks b) ≡ b)
    → EndsWell gs
    → length (s ++ grown_all (g ∷ gs)) < 2 ^ 63
    → host_polls blocks config [] s (g ∷ gs)
      ≡ report (drop (length (finished (first_seen s g))) (s ++ grown_all (g ∷ gs)))
unfolding host_polls
host_polls_reported blocks config s g gs configured whole well fits =
    let u = finished (first_seen s g) in
    let v = unfinished [] (first_seen s g) ++ g.before_read in
    let log : s ++ grown g ≡ u ++ v = log_at_marker s g in
    let cut : s ++ grown_all (g ∷ gs) ≡ u ++ (v ++ grown_all gs) =
      sym (append_assoc s (grown g) (grown_all gs))
      ∙ ap (λ t. t ++ grown_all gs) log
      ∙ append_assoc u v (grown_all gs) in
    let at_line : EndsLine u = finished-EndsLine [] (first_seen s g) (inl refl) in
    let fits_rest : length (u ++ (v ++ grown_all gs)) < 2 ^ 63 = rw (← cut) fits in
    rw
      (
        host_poll_first blocks config s g configured whole,
        log,
        cut,
        drop-append u (v ++ grown_all gs),
      )
      (host_polls_lem blocks config u v gs configured at_line well fits_rest)

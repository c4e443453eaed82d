-- ===== src/Examples/ScanSource/Lines.antt =====
-- The complete lines of a growing log, and the two loops that look for their end.
use mathlib.Core.List.{append_assoc, append-nil}
use bloem_plugin_sdk.Base.{
  ℕ, ◌+◌, true, false, Option, none, some, List, [], ◌∷◌, ◌++◌, ◌==◌, if◌then◌else◌, is_empty,
  length, concat, length-append, concat-append, ◌≡◌, refl, sym, ap, ◌∙◌, subst, ◌⊎◌, inl, inr,
  arith, Bool-cases, ==_iff, All,
}
use bloem_plugin_sdk.Base.Decimal.{Bytes}
use bloem_plugin_sdk.Text.Bytes.{trim_bytes}
use bloem_plugin_sdk.Examples.ScanSource.{
  newline, complete_lines, keep_lines, last_newline, or_first, end_in_block, end_of_lines,
}

-- The part of a line that stands behind the last newline.
unfoldable pub unfinished : Bytes → Bytes → Bytes
unfinished line [] = line
unfinished line (c ∷ s) = unfinished (if c == newline then [] else line ++ (c ∷ [])) s

-- The complete lines together.
abbrev pub finished : Bytes → Bytes
finished s = concat (complete_lines [] s)

pub lines_whole : (line s : Bytes) → concat (complete_lines line s) ++ unfinished line s ≡ line ++ s
unfolding complete_lines unfinished
lines_whole line [] = sym (append-nil line)
lines_whole line (c ∷ s) = elim (Bool-cases (c == newline)) [
  | inl e ↦ rw e (
      append_assoc (line ++ (c ∷ [])) (concat (complete_lines [] s)) (unfinished [] s)
      ∙ ap (◌++◌ (line ++ (c ∷ []))) (lines_whole [] s)
      ∙ append_assoc line (c ∷ []) s)
  | inr e ↦ rw e (lines_whole (line ++ (c ∷ [])) s ∙ append_assoc line (c ∷ []) s)
]

-- A log that grows keeps its complete lines and completes the unfinished one.
pub complete_lines-append :
    (line s t : Bytes)
    → complete_lines line (s ++ t) ≡ complete_lines line s ++ complete_lines (unfinished line s) t
unfolding complete_lines unfinished
complete_lines-append line [] t = refl
complete_lines-append line (c ∷ s) t = elim (Bool-cases (c == newline)) [
  | inl e ↦ rw e (ap (◌∷◌ (line ++ (c ∷ []))) (complete_lines-append [] s t))
  | inr e ↦ rw e (complete_lines-append (line ++ (c ∷ [])) s t)
]

abbrev IsUnbroken : Bytes → Type 0
IsUnbroken = All (λ c. (c == newline) ≡ false)

last-IsUnbroken :
    (line : Bytes) (c : ℕ)
    → IsUnbroken line
    → (c == newline) ≡ false
    → IsUnbroken (line ++ (c ∷ []))
last-IsUnbroken [] c h e = (e, tt)
last-IsUnbroken (d ∷ line) c h e = (h.0, last-IsUnbroken line c h.1 e)

unfinished-IsUnbroken : (line s : Bytes) → IsUnbroken line → IsUnbroken (unfinished line s)
unfolding unfinished
unfinished-IsUnbroken line [] h = h
unfinished-IsUnbroken line (c ∷ s) h = elim (Bool-cases (c == newline)) [
  | inl e ↦ rw e (unfinished-IsUnbroken [] s tt)
  | inr e ↦ rw e (unfinished-IsUnbroken (line ++ (c ∷ [])) s (last-IsUnbroken line c h e))
]

-- Reading a part of a line first makes no difference.
complete_lines-unbroken :
    (begun line t : Bytes)
    → IsUnbroken line
    → complete_lines begun (line ++ t) ≡ complete_lines (begun ++ line) t
unfolding complete_lines
complete_lines-unbroken begun [] t h = ap (λ l. complete_lines l t) (sym (append-nil begun))
complete_lines-unbroken begun (c ∷ line) t h = rw (h.0) (
    complete_lines-unbroken (begun ++ (c ∷ [])) line t h.1
    ∙ ap (λ l. complete_lines l t) (append_assoc begun (c ∷ []) line))

-- Reading on behind the complete lines gives the lines completed since.
pub complete_lines_split :
    (s t : Bytes)
    → complete_lines [] (s ++ t) ≡ complete_lines [] s ++ complete_lines [] (unfinished [] s ++ t)
complete_lines_split s t =
    complete_lines-append [] s t
    ∙ ap (◌++◌ (complete_lines [] s))
        (sym (complete_lines-unbroken [] (unfinished [] s) t (unfinished-IsUnbroken [] s tt)))

-- A text that is empty or ends with a newline.
abbrev pub EndsLine : Bytes → Type 0
EndsLine u = (u ≡ []) ⊎ ((w : Bytes) × (u ≡ w ++ (newline ∷ [])))

EndsLine-append : (u v : Bytes) → EndsLine u → EndsLine v → EndsLine (u ++ v)
EndsLine-append u v hu (inl e) =
    subst (λ v. EndsLine (u ++ v)) (sym e) (subst EndsLine (sym (append-nil u)) hu)
EndsLine-append u v hu (inr (w, e)) =
    inr (u ++ w, ap (◌++◌ u) e ∙ sym (append_assoc u w (newline ∷ [])))

complete_lines-EndsLine : (line s : Bytes) → EndsLine (concat (complete_lines line s))
unfolding complete_lines
complete_lines-EndsLine line [] = inl refl
complete_lines-EndsLine line (c ∷ s) = elim (Bool-cases (c == newline)) [
  | inl e ↦ rw e (
      EndsLine-append (line ++ (c ∷ [])) (concat (complete_lines [] s))
        (inr (line, ap (λ d. line ++ (d ∷ [])) ((==_iff c newline).0 e)))
        (complete_lines-EndsLine [] s))
  | inr e ↦ rw e (complete_lines-EndsLine (line ++ (c ∷ [])) s)
]

-- Behind what has been reported stands a line start.
pub finished-EndsLine : (u s : Bytes) → EndsLine u → EndsLine (u ++ finished s)
finished-EndsLine u s h = EndsLine-append u (finished s) h (complete_lines-EndsLine [] s)

-- The lines that are not blank, trimmed.
unfoldable pub kept : List Bytes → List Bytes
kept [] = []
kept (raw ∷ raws) =
    let rest = kept raws in if is_empty (trim_bytes raw) then rest else trim_bytes raw ∷ rest

pub kept-append : (s t : List Bytes) → kept (s ++ t) ≡ kept s ++ kept t
unfolding kept
kept-append [] t = refl
kept-append (raw ∷ s) t = elim (Bool-cases (is_empty (trim_bytes raw))) [
  | inl e ↦ rw e (kept-append s t)
  | inr e ↦ rw e (ap (◌∷◌ (trim_bytes raw)) (kept-append s t))
]

-- The loop of `readAppended` collects the lines that are not blank and the length of all.
pub keep_lines_lem :
    (lines : List Bytes) (next : ℕ) (raws : List Bytes)
    → keep_lines lines next raws ≡ (lines ++ kept raws, next + length (concat raws))
unfolding keep_lines kept
keep_lines_lem lines next [] =
    let e : next + 0 ≡ next = omega arith in rw (append-nil lines, e) refl
keep_lines_lem lines next (raw ∷ raws) =
    let total : next + length raw + length (concat raws) ≡ next + length (raw ++ concat raws) =
      omega (arith, length-append raw (concat raws)) in
    elim (Bool-cases (is_empty (trim_bytes raw))) [
      | inl e ↦ rw e (rw (← total) (keep_lines_lem lines (next + length raw) raws))
      | inr e ↦ rw e (
          rw (← total, ← append_assoc lines (trim_bytes raw ∷ []) (kept raws))
            (keep_lines_lem (lines ++ (trim_bytes raw ∷ [])) (next + length raw) raws))
    ]

-- Where the complete lines of a block end, behind the part of a line that was read before.
abbrev completed : Option ℕ → ℕ → ℕ
completed none k = 0
completed (some i) k = k + i + 1

newline_completes :
    (o : Option ℕ) (c k : ℕ)
    → (c == newline) ≡ true
    → completed (or_first o c) k ≡ k + 1 + completed o 0
newline_completes none c k e = rw e (omega arith)
newline_completes (some i) c k e = omega arith

completed_other :
    (o : Option ℕ) (c k : ℕ)
    → (c == newline) ≡ false
    → completed (or_first o c) k ≡ completed o (k + 1)
completed_other none c k e = rw e refl
completed_other (some i) c k e = omega arith

length-begun : (line : Bytes) (c : ℕ) → length (line ++ (c ∷ [])) ≡ length line + 1
length-begun line c = length-append line (c ∷ [])

complete_lines-last :
    (line s : Bytes)
    → length (concat (complete_lines line s)) ≡ completed (last_newline s) (length line)
unfolding complete_lines last_newline
complete_lines-last line [] = refl
complete_lines-last line (c ∷ s) = elim (Bool-cases (c == newline)) [
  | inl e ↦ rw e (
      omega (
        arith,
        length-append (line ++ (c ∷ [])) (concat (complete_lines [] s)),
        length-begun line c,
        complete_lines-last [] s,
        newline_completes (last_newline s) c (length line) e,
      ))
  | inr e ↦ rw e (
      complete_lines-last (line ++ (c ∷ [])) s
      ∙ ap (completed (last_newline s)) (length-begun line c)
      ∙ sym (completed_other (last_newline s) c (length line) e))
]

end_of_completed :
    (o : Option ℕ) (base end k : ℕ) → base ≡ end + k → end_in_block o base end ≡ end + completed o k
end_of_completed none base end k h = omega arith
end_of_completed (some i) base end k h = omega arith

-- One block moves the end to that of the complete lines read so far.
end_in_block_lem :
    (s block : Bytes)
    → end_in_block (last_newline block) (length s) (length (finished s))
      ≡ length (finished (s ++ block))
end_in_block_lem s block =
    let whole : length s ≡ length (finished s) + length (unfinished [] s) =
      sym (ap length (lines_whole [] s)) ∙ length-append (finished s) (unfinished [] s) in
    end_of_completed (last_newline block) _ _ _ whole
    ∙ ap (λ k. length (finished s) + k) (sym (complete_lines-last (unfinished [] s) block))
    ∙ sym (length-append (finished s) (concat (complete_lines (unfinished [] s) block)))
    ∙ ap length (
        sym (concat-append (complete_lines [] s) (complete_lines (unfinished [] s) block))
        ∙ ap concat (sym (complete_lines-append [] s block)))

end_of_lines_from :
    (s : Bytes) (blocks : List Bytes)
    → end_of_lines (length s) (length (finished s)) blocks ≡ length (finished (s ++ concat blocks))
unfolding end_of_lines
end_of_lines_from s [] = ap (λ t. length (finished t)) (sym (append-nil s))
end_of_lines_from s (block ∷ blocks) =
    rw (end_in_block_lem s block, ← length-append s block)
      (end_of_lines_from (s ++ block) blocks
        ∙ ap (λ t. length (finished t)) (append_assoc s block (concat blocks)))

-- However the blocks cut the log, the loop of `completeLinesEnd` finds the end of its last complete
-- line.
pub end_of_lines_lem :
    (blocks : List Bytes) → end_of_lines 0 0 blocks ≡ length (finished (concat blocks))
unfolding complete_lines
end_of_lines_lem blocks = end_of_lines_from [] blocks

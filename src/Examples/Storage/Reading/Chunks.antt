-- ===== src/Examples/Storage/Reading/Chunks.antt =====
-- The chunks that a read delivers.
use mathlib.Core.List.{append_assoc, append-nil}
use bloem_plugin_sdk.Base.{
  ℕ, zero, suc, ◌+◌, ◌-◌, ◌≤◌, ◌<◌, true, false, Option, none, List, [], ◌∷◌, ◌++◌, map, ltb, ◌==◌,
  length, take, drop, concat, length-take, length-drop, take-add, drop-add, ok, ◌≡◌, refl, sym, ap,
  ◌∙◌, subst, ==_iff, inl, inr, arith, Bool-cases,
}
use bloem_plugin_sdk.Base.Decimal.{Bytes}
use bloem_plugin_sdk.Text.{codes}
use bloem_plugin_sdk.Text.Bytes.{bytes_eq}
use bloem_plugin_sdk.Examples.Storage.Reading.{
  ReadChunk, max_chunk, part, next_offset, send, read_chunks,
}

part_split :
    (book : Bytes) (start mid end : ℕ)
    → start ≤ mid
    → mid ≤ end
    → part book start mid ++ part book mid end ≡ part book start end
part_split book start mid end h k =
    let whole : end - start ≡ (mid - start) + (end - mid) = omega arith in
    let at : start + (mid - start) ≡ mid = omega arith in
    let behind : drop (mid - start) (drop start book) ≡ drop mid book =
      sym (drop-add start (mid - start) book) ∙ ap (λ n. drop n book) at in
    sym (
      ap (λ n. take n (drop start book)) whole
      ∙ take-add (mid - start) (end - mid) (drop start book)
      ∙ ap (λ t. part book start mid ++ take (end - mid) t) behind)

length-part :
    (book : Bytes) (start end : ℕ)
    → start ≤ end
    → end ≤ length book
    → length (part book start end) ≡ end - start
length-part book start end h k =
    length-take (end - start) (drop start book) (omega (arith, length-drop start book))

-- Chunks with consecutive offsets from the first to the last position, of at most 128 KiB, of which
-- the last one, and no other, is marked as the end.
abbrev pub IsDelivery : ℕ → ℕ → List ReadChunk → Type 0
IsDelivery start end [] = ⊥
IsDelivery start end (c ∷ []) =
    (c.offset ≡ start)
    × (start + length c.content ≡ end)
    × (length c.content ≤ 131072)
    × (c.eof ≡ true)
IsDelivery start end (c ∷ d ∷ cs) =
    (c.offset ≡ start)
    × (length c.content ≤ 131072)
    × (c.eof ≡ false)
    × IsDelivery (start + length c.content) end (d ∷ cs)

-- The next position is behind the present one and at most 128 KiB further on.
next_offset_lem :
    (offset end : ℕ)
    → offset < end
    → (offset < next_offset offset end)
      × (next_offset offset end ≤ end)
      × (next_offset offset end ≤ offset + 131072)
next_offset_lem offset end h = elim (Bool-cases (ltb end (offset + max_chunk))) [
  | inl e ↦ rw e (h, omega arith, ground (arith, e))
  | inr e ↦ rw e (omega arith, ground (arith, e), omega arith)
]

-- An id without a fault of its own in the loop.
abbrev pub IsPlain : Bytes → Type 0
IsPlain id = (bytes_eq id (codes "duplicate") ≡ false) × (bytes_eq id (codes "short") ≡ false)

-- The chunk of a round for such an id.
abbrev plain_chunk : Bytes → ℕ → ℕ → ReadChunk
plain_chunk book offset end = record {
  offset = offset;
  content = part book offset (next_offset offset end);
  eof = next_offset offset end == end;
}

IsDelivery-cons :
    (start end : ℕ) (c : ReadChunk) (cs : List ReadChunk)
    → c.offset ≡ start
    → length c.content ≤ 131072
    → c.eof ≡ false
    → IsDelivery (start + length c.content) end cs
    → IsDelivery start end (c ∷ cs)
IsDelivery-cons start end c [] at short unended rest = absurd rest
IsDelivery-cons start end c (d ∷ cs) at short unended rest = (at, short, unended, rest)

module _ {E : Type 0} (sends : List ReadChunk → ReadChunk → Option E) where
  abbrev pub NeverFails : Type 0
  NeverFails = (sent : List ReadChunk) (chunk : ReadChunk) → sends sent chunk ≡ none

  -- One round of the loop.
  read_chunks_step :
      (fuel : ℕ) (book id : Bytes) (offset end : ℕ) (sent : List ReadChunk)
      → NeverFails
      → IsPlain id
      → offset < end
      → read_chunks sends (suc fuel) book id offset end sent
        ≡ read_chunks sends fuel book id
            (next_offset offset end)
            end
            (sent ++ (plain_chunk book offset end ∷ []))
  unfolding read_chunks send
  read_chunks_step fuel book id offset end sent never (a, b) h =
      let more : ltb offset end ≡ true = ground arith in
      rw (more, b) (rw (never sent (plain_chunk book offset end), a) refl)

  read_chunks_end :
      (fuel : ℕ) (book id : Bytes) (end : ℕ) (sent : List ReadChunk)
      → read_chunks sends fuel book id end end sent ≡ (sent, ok tt)
  unfolding read_chunks
  read_chunks_end zero book id end sent =
      let done : ltb end end ≡ false = ground arith in rw done refl
  read_chunks_end (suc fuel) book id end sent =
      let done : ltb end end ≡ false = ground arith in rw done refl

  -- What the loop adds to what has been sent.
  abbrev Delivers : ℕ → Bytes → Bytes → ℕ → ℕ → List ReadChunk → Type 0
  Delivers fuel book id offset end sent =
      (chunks : List ReadChunk) × (read_chunks sends fuel book id offset end sent
        ≡ (sent ++ chunks, ok tt))
      × IsDelivery offset end chunks
      × (concat (map (λ (c : ReadChunk). c.content) chunks) ≡ part book offset end)

  pub read_chunks_lem :
      (fuel : ℕ) (book id : Bytes) (offset end : ℕ) (sent : List ReadChunk)
      → NeverFails
      → IsPlain id
      → offset < end
      → end ≤ length book
      → end ≤ offset + fuel
      → Delivers fuel book id offset end sent
  read_chunks_lem zero book id offset end sent never plain h within enough = absurd (omega arith)
  read_chunks_lem (suc fuel) book id offset end sent never plain h within enough =
      let next = next_offset offset end in
      let c = plain_chunk book offset end in
      let (on, back, near) = next_offset_lem offset end h in
      let size = length-part book offset next (omega (arith, on)) (omega (arith, back)) in
      let short : length (part book offset next) ≤ 131072 = omega (arith, size, near) in
      let step = read_chunks_step fuel book id offset end sent never plain h in
      let reached : offset + length (part book offset next) ≡ next = omega (arith, size, on) in
      elim (Bool-cases (next == end)) [
        | inl e ↦
            let last : next ≡ end = (==_iff next end).0 e in
            (
              c ∷ [],
              step
                  ∙ ap (λ n. read_chunks sends fuel book id n end (sent ++ (c ∷ []))) last
                  ∙ read_chunks_end fuel book id end (sent ++ (c ∷ [])),
              (refl, reached ∙ last, short, e),
              append-nil (part book offset next) ∙ ap (part book offset) last,
            )
        | inr e ↦
            let (cs, ran, delivered, whole) =
              read_chunks_lem fuel book id next end (sent ++ (c ∷ [])) never plain
                (ground (arith, e, back)) within (omega (arith, on, enough)) in
            (
              c ∷ cs,
              step ∙ ran ∙ ap (λ s. (s, ok tt)) (append_assoc sent (c ∷ []) cs),
              IsDelivery-cons offset end c cs refl short e
                  (subst (λ n. IsDelivery n end cs) (sym reached) delivered),
              ap (◌++◌ (part book offset next)) whole
                  ∙ part_split book offset next end (omega (arith, on)) back,
            )
      ]

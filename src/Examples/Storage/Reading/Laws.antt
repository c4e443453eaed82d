-- ===== src/Examples/Storage/Reading/Laws.antt =====
-- What Read delivers for a range of a file.
use bloem_plugin_sdk.Base.{
  ℕ, ◌+◌, ◌-◌, ◌≤◌, true, false, Option, none, some, List, [], ◌∷◌, map, ltb, ◌==◌, length, concat,
  ok, ◌≡◌, refl, inl, inr, arith, Bool-cases,
}
use bloem_plugin_sdk.Base.Int.{pos}
use bloem_plugin_sdk.Base.Decimal.{Bytes}
use bloem_plugin_sdk.Text.{codes}
use bloem_plugin_sdk.Text.Bytes.{bytes_eq}
use bloem_plugin_sdk.Examples.Storage.{ContextError, file, Entry, StatRequest, stat}
use bloem_plugin_sdk.Examples.Storage.Reading.{
  ReadRequest, ReadChunk, max_read, part, checked_range, send, read_range, read,
}
use bloem_plugin_sdk.Examples.Storage.Reading.Chunks.{
  IsDelivery, IsPlain, NeverFails, read_chunks_lem,
}

-- An id without a fault of its own.
abbrev pub IsFaultless : Bytes → Type 0
IsFaultless id =
    (bytes_eq id (codes "revision-conflict") ≡ false)
    × (bytes_eq id (codes "blocking") ≡ false)
    × IsPlain id

-- A range that a read may ask for.
abbrev pub IsRange : Bytes → ℕ → ℕ → Type 0
IsRange book offset len = (len ≤ 8388608) × (offset + len ≤ length book)

checked_range_lem :
    (book : Bytes) (offset len : ℕ)
    → IsRange book offset len
    → checked_range book file (pos offset) (pos len) ≡ some (offset, len)
checked_range_lem book offset len (small, within) =
    let a : ltb max_read len ≡ false = ground arith in
    let b : ltb (length book) offset ≡ false = ground arith in
    let c : ltb (length book - offset) len ≡ false = ground arith in rw (a, b, c) refl

abbrev pub stat_of : ReadRequest → StatRequest
stat_of r = record {
  source_id = r.source_id;
  entry_id = r.entry_id;
  expected_revision = r.expected_revision;
}

module _ {E : Type 0} (sends : List ReadChunk → ReadChunk → Option E) (done : ContextError) where
  read_range_lem :
      (book id : Bytes) (offset len : ℕ)
      → NeverFails sends
      → IsFaultless id
      → IsRange book offset len
      → (chunks : List ReadChunk) × (read_range sends done book id offset len ≡ (chunks, ok tt))
        × IsDelivery offset (offset + len) chunks
        × (concat (map (λ (c : ReadChunk). c.content) chunks) ≡ part book offset (offset + len))
  unfolding read_range send
  read_range_lem book id offset len never (a, b, plain) (small, within) =
      elim (Bool-cases (len == 0)) [
        | inl e ↦
            let c : ReadChunk = record { offset = offset; content = []; eof = true } in
            let nothing : offset + len - offset ≡ 0 = ground (arith, e) in
            (
              c ∷ [],
              rw (a, b, e) (rw (never [] c) refl),
              (refl, ground (arith, e), omega arith, refl),
              rw nothing refl,
            )
        | inr e ↦
            let (chunks, ran, delivered, whole) =
              read_chunks_lem sends len book id offset (offset + len) [] never plain
                (ground (arith, e)) within (omega arith) in
            (chunks, rw (a, b, e) ran, delivered, whole)
      ]

  -- A read of a range of at most 8 MiB within a file whose id stands for no fault, at its revision,
  -- succeeds if no Send fails, and what it has sent then are chunks with consecutive offsets, of at
  -- most 128 KiB, only the last of which is marked as the end, and which together are that range of
  -- the ebook.
  pub read_delivers :
      (book : Bytes) (r : ReadRequest) (e : Entry) (offset len : ℕ)
      → NeverFails sends
      → IsFaultless r.entry_id
      → stat {E = E} book none (stat_of r) ≡ ok e
      → e.kind ≡ file
      → r.offset ≡ pos offset
      → r.length ≡ pos len
      → IsRange book offset len
      → (chunks : List ReadChunk) × (read sends done book none r ≡ (chunks, ok tt))
        × IsDelivery offset (offset + len) chunks
        × (concat (map (λ (c : ReadChunk). c.content) chunks) ≡ part book offset (offset + len))
  unfolding read
  read_delivers book r e offset len never faultless found is_file at size range =
      let (chunks, ran, delivered, whole) =
        read_range_lem book r.entry_id offset len never faultless range in
      (
        chunks,
        rw (found, is_file, at, size) (rw (checked_range_lem book offset len range) ran),
        delivered,
        whole,
      )

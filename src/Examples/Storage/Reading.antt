-- ===== src/Examples/Storage/Reading.antt =====
-- Read of the storage fixture: the chunks of a range of the ebook, sent on a stream. Whether a Send
-- fails, by what has been sent before, is the parameter `sends`; `done` is the context's error once
-- the context is done.
pub mod Chunks
pub mod Laws
use bloem_plugin_sdk.Base.{
  ℕ, zero, suc, ◌+◌, ◌-◌, ◌*◌, Bool, true, false, not, ◌&&◌, ◌||◌, Option, none, some, List, [],
  ◌∷◌, ◌++◌, ltb, leb, ◌==◌, length, take, drop, Result, ok, err, ◌>>=◌, if◌then◌else◌,
}
use bloem_plugin_sdk.Base.Int.{ℤ, pos, negsuc}
use bloem_plugin_sdk.Base.Decimal.{Bytes}
use bloem_plugin_sdk.Text.{codes}
use bloem_plugin_sdk.Text.Bytes.{bytes_eq}
use bloem_plugin_sdk.Examples.Storage.{
  ContextError, StorageError, invalid_file_range, revision_changed_before_read, out_of_fuel,
  context_error, not_sent, EntryKind, file, directory, Entry, StatRequest, stat,
}

pub record ReadRequest : Type 0 where
  pub source_id : Bytes
  pub entry_id : Bytes
  pub expected_revision : Bytes
  pub offset : ℤ
  pub length : ℤ

pub record ReadChunk : Type 0 where
  pub offset : ℕ
  -- `data`
  pub content : Bytes
  pub eof : Bool

abbrev pub max_chunk : ℕ
max_chunk = 128 * 1024

abbrev pub max_read : ℕ
max_read = 8 * 1024 * 1024

-- a part of the ebook
abbrev pub part : Bytes → ℕ → ℕ → Bytes
part book start end = take (end - start) (drop start book)

abbrev pub is_file : EntryKind → Bool
is_file file = true
is_file directory = false

-- The offset and the length of a range that a request may read.
abbrev pub checked_range : Bytes → EntryKind → ℤ → ℤ → Option (ℕ × ℕ)
checked_range book kind (pos offset) (pos len) =
    if not (is_file kind)
      || ltb max_read len
      || ltb (length book) offset
      || ltb (length book - offset) len
    then none
    else some (offset, len)
checked_range book kind (pos offset) (negsuc n) = none
checked_range book kind (negsuc n) len = none

abbrev pub next_offset : ℕ → ℕ → ℕ
next_offset offset end = if ltb end (offset + max_chunk) then end else offset + max_chunk

-- What a call has sent, and what it returns.
abbrev pub Sent : Type 0 → Type 0
Sent E = List ReadChunk × Result (StorageError E) (Unit {0})

-- The chunk of one round of the loop.
abbrev pub chunk_of : Bytes → Bytes → ℕ → ℕ → ReadChunk
chunk_of book id offset end =
    let next = next_offset offset end in
    let content = part book offset next in
    if bytes_eq id (codes "short")
    then record { offset = offset; content = take (length content - 1) content; eof = true }
    else record { offset = offset; content = content; eof = next == end }

module _ {E : Type 0} (sends : List ReadChunk → ReadChunk → Option E) where
  abbrev pub sent_or : Option E → List ReadChunk → ReadChunk → Sent E
  sent_or none sent chunk = (sent ++ (chunk ∷ []), ok tt)
  sent_or (some e) sent chunk = (sent, err (not_sent e))

  -- `stream.Send`
  unfoldable pub send : List ReadChunk → ReadChunk → Sent E
  send sent chunk = sent_or (sends sent chunk) sent chunk

  abbrev pub after : Sent E → (List ReadChunk → Sent E) → Sent E
  after (sent, ok u) next = next sent
  after (sent, err e) next = (sent, err e)

  -- The loop of `Read`, with fuel for its rounds.
  unfoldable pub read_chunks : ℕ → Bytes → Bytes → ℕ → ℕ → List ReadChunk → Sent E
  unfolding send bytes_eq
  read_chunks zero book id offset end sent =
      if ltb offset end then (sent, err out_of_fuel) else (sent, ok tt)
  read_chunks (suc fuel) book id offset end sent =
      let rest = read_chunks fuel book id (next_offset offset end) end in
      let chunk = chunk_of book id offset end in
      if ltb offset end
      then after (send sent chunk) (λ sent.
        if bytes_eq id (codes "duplicate")
        then send sent chunk
        else if bytes_eq id (codes "short")
        then (sent, ok tt)
        else rest sent)
      else (sent, ok tt)

  module _ (done : ContextError) (book : Bytes) where
    -- the range of a request that the checks have let through
    unfoldable pub read_range : Bytes → ℕ → ℕ → Sent E
    unfolding read_chunks send bytes_eq
    read_range id offset len =
        if bytes_eq id (codes "revision-conflict")
        then ([], err revision_changed_before_read)
        else if bytes_eq id (codes "blocking")
        then (if ltb 0 len
            then after
                (send [] (record {
                  offset = offset;
                  content = part book offset (offset + 1);
                  eof = false;
                }))
                (λ sent. (sent, err (context_error done)))
            else ([], err (context_error done)))
        else if len == 0
        then send [] (record { offset = offset; content = []; eof = true })
        else read_chunks len book id offset (offset + len) []

    abbrev pub read_checked : Bytes → Option (ℕ × ℕ) → Sent E
    read_checked id none = ([], err invalid_file_range)
    read_checked id (some (offset, len)) = read_range id offset len

    abbrev pub read_entry : ReadRequest → Result (StorageError E) Entry → Sent E
    read_entry r (err e) = ([], err e)
    read_entry r (ok e) = read_checked r.entry_id (checked_range book e.kind r.offset r.length)

    -- `Read`
    unfoldable pub read : Option ContextError → ReadRequest → Sent E
    unfolding stat read_range
    read ctx r = read_entry r (
        stat book ctx (record {
          source_id = r.source_id;
          entry_id = r.entry_id;
          expected_revision = r.expected_revision;
        }))

-- ===== src/ReadBuffer/Feed/Tests.antt =====
-- `feedUntilDone` on a reader that gives a list of chunks and io.EOF behind them.
use rapidyenc.Base.{
  ℕ, suc, ◌-◌, false, List, [], ◌∷◌, ◌≤◌, ◌⊎◌, arith, length-take, length-replicate, ◌≡◌, refl,
  Option, none, some, Bytes, codes, length, take, replicate, Finishes, Outcome, ret,
}
use rapidyenc.ReadBuffer.{ReadBuffer, ensure_write_space, store, advance}
use rapidyenc.Response.Decode.{feed, decode, on_line, meta_error}
use rapidyenc.Go.ByteStrings.{cut, equal}
use rapidyenc.Go.Strconv.{parse_int}
use rapidyenc.ReadBuffer.Feed.{
  ReadError, eof, Reader, Answer, buffer_full, read_more, next, feed_until_done,
}
use rapidyenc.ReadBuffer.Feed.Ends.{Stops, feed_until_done-Finishes}
use rapidyenc.ReadBuffer.Feed.Reading.{IsFilling, Receives, read_more-window}
use rapidyenc.ReadBuffer.Space.{IsFull}
use rapidyenc.Response.{Decoder, Runtime, new_response}

abbrev read_chunk : List Bytes → ℕ → Bytes × Option ReadError × List Bytes
read_chunk [] n = ([], some eof, [])
read_chunk (c ∷ cs) n = (take n c, none, cs)

abbrev chunks : Reader
chunks = record {
  R = List Bytes;
  read = read_chunk;
  scratch = λ cs n. replicate (n - length (read_chunk cs n).0) 0;
}

chunks-Stops : (cs : List Bytes) → Stops chunks (suc (length cs)) cs
chunks-Stops [] = λ n. tt
chunks-Stops (c ∷ cs) = λ n. chunks-Stops cs

abbrev plain_go : Runtime
plain_go = record { append_capacity = λ n. n; trim_digits = λ s. s }

abbrev decoder : Decoder
decoder = record { status_line_consumed = false; data_func = none; go = plain_go }

abbrev small : ReadBuffer
small = record { buf = replicate 32 0; start = 0; stop = 0 }

-- A status line that is split between two reads, without a body behind it.
abbrev answer : List Bytes
answer = codes "430 no" ∷ codes " article\r\n" ∷ []

feed_until_done-Finishes_example :
    (fuel : ℕ) × Finishes (feed_until_done chunks decoder fuel small answer new_response)
feed_until_done-Finishes_example =
    feed_until_done-Finishes chunks decoder 3 small answer new_response (chunks-Stops answer)

-- It is read to its end in two rounds.
status_of : Outcome (Answer chunks) → ℕ × Bytes
status_of (ret a) = elim a.answer [
  | some r ↦ (length r.metadata.lines, r.metadata.message)
  | none ↦ (9, [])
]
status_of o = (8, [])

answer_read : status_of (next chunks decoder 3 small answer) ≡ (0, codes "430 no article")
unfolding status_of next feed decode ensure_write_space store cut advance on_line equal parse_int
    meta_error
answer_read = refl

-- A reader that leaves its own bytes behind those that it read.
abbrev scribbling : Reader
scribbling = record {
  R = List Bytes;
  read = read_chunk;
  scratch = λ cs n. replicate (n - length (read_chunk cs n).0) 7;
}

chunk-le : (cs : List Bytes) (n : ℕ) → length (read_chunk cs n).0 ≤ n
chunk-le [] n = omega arith
chunk-le (c ∷ cs) n = omega (arith, length-take n c)

scribbling-IsFilling : IsFilling scribbling
scribbling-IsFilling r n =
    omega (arith, chunk-le r n, length-replicate {A = ℕ} (n - length (read_chunk r n).0) 7)

-- Four bytes, of which "c" is unread, and a free one.
abbrev nearly_full : ReadBuffer
nearly_full = record { buf = codes "abcd"; start = 2; stop = 3 }

read_more-window_example :
    (IsFull nearly_full
      × (read_more scribbling nearly_full answer
          ≡ record { rb = nearly_full; reader = answer; error = some buffer_full }))
    ⊎ (n : ℕ) × Receives scribbling nearly_full answer n (read_more scribbling nearly_full answer)
read_more-window_example =
    read_more-window scribbling nearly_full answer scribbling-IsFilling
      (record { ordered = omega arith; inside = omega arith })

-- ===== src/ReadBuffer/Feed.antt =====
-- readBuffer.go, `readMore` and `feedUntilDone`; decoder.go, `NewDecoder` and `Next`.
pub mod Ends
pub mod Reading
mod Tests
use Prim.Native.Nat.{max}
use mathlib.Core.List.{foldl}
use rapidyenc.Base.{
  ℕ, zero, suc, ◌-◌, Bool, true, false, ◌&&◌, Option, none, some, List, [], Bytes, length,
  replicate, ltb, ◌==◌, if◌then◌else◌, Outcome, ret, stuck, ◌>>=◌,
}
use rapidyenc.Base.Int.{ℤ, pos, negsuc}
use rapidyenc.ReadBuffer.{ReadBuffer, init, window, advance, compact, ensure_write_space, store}
use rapidyenc.Response.{Response, Decoder, Runtime, new_response}
use rapidyenc.Response.Decode.{MetaError, Fed, feed}

pub data ReadError : Type 0 where
  eof : ReadError
  failed : ℕ → ReadError

-- An io.Reader: what `Read` gives on a slice of so many bytes, and what it leaves in the slice behind
-- the bytes that it read.
pub record Reader : Type 1 where
  pub R : Type 0
  pub read : R → ℕ → Bytes × Option ReadError × R
  pub scratch : R → ℕ → Bytes

-- The errors of `feedUntilDone`.
pub data FeedError : Type 0 where
  reading : ReadError → FeedError
  buffer_full : FeedError
  response : MetaError → FeedError

module _ (s : Reader) where
  -- `readMore`: the buffer, the reader and the error.
  pub record More : Type 0 where
    pub rb : ReadBuffer
    pub reader : s.R
    pub error : Option FeedError

  abbrev pub as_error : Option ReadError → Option FeedError
  as_error none = none
  as_error (some e) = some (reading e)

  abbrev pub stored : ReadBuffer → Bytes → Bytes × Option ReadError × s.R → More
  stored rb left (got, e, r) = record { rb = store rb got left; reader = r; error = as_error e }

  -- Behind `ensureWriteSpace`.
  abbrev pub read_into : ReadBuffer → s.R → Option ReadBuffer → More
  read_into rb r none = record { rb = rb; reader = r; error = some buffer_full }
  read_into rb r (some rb') =
      let n = length rb'.buf - rb'.stop in stored rb' (s.scratch r n) (s.read r n)

  unfoldable pub read_more : ReadBuffer → s.R → More
  read_more rb r = read_into rb r (ensure_write_space rb)

  -- What `feedUntilDone` leaves.
  pub record Ended : Type 0 where
    pub rb : ReadBuffer
    pub reader : s.R
    pub answer : Response
    pub error : Option FeedError

  -- The variables of the loop, or its return.
  pub data Turn : Type 0 where
    again : ReadBuffer → s.R → Response → Turn
    ended : Ended → Turn

  -- Behind `readMore`: `if err != nil`.
  abbrev pub checked :
      Response → (ReadBuffer → s.R → Outcome Turn) → More → Option FeedError → Outcome Turn
  checked a k m none = k m.rb m.reader
  checked a k m (some e) =
      ret (ended (record { rb = m.rb; reader = m.reader; answer = a; error = some e }))

  pub read_or_return :
      ReadBuffer → s.R → Response → (ReadBuffer → s.R → Outcome Turn) → Outcome Turn
  unfolding read_more
  read_or_return rb r a k = checked a k (read_more rb r) (read_more rb r).error

  -- `rb.advance(consumed)` if `consumed > 0`
  abbrev pub advance_by : ReadBuffer → ℤ → ReadBuffer
  advance_by rb (pos n) = advance rb n
  advance_by rb (negsuc n) = rb

  abbrev pub is_progress : ℤ → Bool
  is_progress (pos n) = ltb 0 n
  is_progress (negsuc n) = false

  abbrev pub is_zero : ℤ → Bool
  is_zero (pos n) = n == 0
  is_zero (negsuc n) = false

  -- The end of a round, behind `response.feed`, at the error of that.
  pub at_error : ReadBuffer → s.R → Fed → Option MetaError → Outcome Turn
  unfolding read_or_return
  at_error rb r f (some e) =
      ret (ended (record { rb = rb; reader = r; answer = f.response; error = some (response e) }))
  at_error rb r f none =
      if f.done
      then ret (ended (record { rb = rb; reader = r; answer = f.response; error = none }))
      else if is_progress f.consumed && ltb rb.start rb.stop
      then ret (again rb r f.response)
      else read_or_return (if is_zero f.consumed && ltb rb.start rb.stop then compact rb else rb) r
          f.response (λ q r'. ret (again q r' f.response))

  unfoldable pub after_feed : ReadBuffer → s.R → Fed → Outcome Turn
  unfolding at_error
  after_feed rb r f = at_error (advance_by rb f.consumed) r f f.error

  -- A round of the loop.
  unfoldable pub feed_round : Decoder → ReadBuffer → s.R → Response → Outcome Turn
  unfolding after_feed read_or_return
  feed_round d rb r a =
      if rb.start == rb.stop
      then read_or_return (record rb { start = 0; stop = 0 }) r a
          (λ q r'. feed d a (window q) >>= after_feed q r')
      else (feed d a (window rb) >>= after_feed rb r)

  abbrev pub on_turn : (ReadBuffer → s.R → Response → Outcome Ended) → Turn → Outcome Ended
  on_turn loop (again rb r a) = loop rb r a
  on_turn loop (ended e) = ret e

  -- `feedUntilDone`, for so many rounds.
  unfoldable pub feed_loop : Decoder → ℕ → ReadBuffer → s.R → Response → Outcome Ended
  unfolding feed_round
  feed_loop d zero rb r a = stuck
  feed_loop d (suc fuel) rb r a = feed_round d rb r a >>= on_turn (feed_loop d fuel)

  unfoldable pub feed_until_done : Decoder → ℕ → ReadBuffer → s.R → Response → Outcome Ended
  unfolding feed_loop init
  feed_until_done d fuel rb r a = feed_loop d fuel (init rb) r a

  -- The errors of `Next`.
  pub data NextError : Type 0 where
    unexpected_eof : NextError
    passed_on : FeedError → NextError

  pub record Answer : Type 0 where
    pub rb : ReadBuffer
    pub reader : s.R
    pub answer : Option Response
    pub error : Option NextError

  abbrev pub answered : Ended → Answer
  answered e = judge e.error
    where
      found : Option Response → Option NextError → Answer
      found a err = record { rb = e.rb; reader = e.reader; answer = a; error = err }

      judge : Option FeedError → Answer
      judge none = found (some e.answer) none
      judge (some (reading eof)) =
          if e.answer.eof then found (some e.answer) none else found none (some unexpected_eof)
      judge (some err) = found (some e.answer) (some (passed_on err))

  -- `Next`
  unfoldable pub next : Decoder → ℕ → ReadBuffer → s.R → Outcome Answer
  unfolding feed_until_done
  next d fuel rb r = feed_until_done d fuel rb r new_response >>= λ e. ret (answered e)

-- The options of `NewDecoder`, and what they make of the decoder and its buffer.
pub data DecoderOption : Type 0 where
  with_status_line_already_read : DecoderOption
  with_buffer_size : ℕ → DecoderOption
  with_data_func : ℕ → DecoderOption

pub record NewDecoder : Type 0 where
  pub decoder : Decoder
  pub rb : ReadBuffer

abbrev pub apply : NewDecoder → DecoderOption → NewDecoder
apply n with_status_line_already_read = record n {
  decoder = record n.decoder { status_line_consumed = true };
}
apply n (with_buffer_size size) = record n {
  rb = record { buf = replicate (max 1024 size) 0; start = 0; stop = 0 };
}
apply n (with_data_func capacity) = record n {
  decoder = record n.decoder { data_func = some capacity };
}

-- `NewDecoder`
unfoldable pub new_decoder : Runtime → List DecoderOption → NewDecoder
new_decoder go = foldl apply (record {
  decoder = record { status_line_consumed = false; data_func = none; go = go };
  rb = record { buf = []; start = 0; stop = 0 };
})

-- ===== src/Lib.antt =====
-- rapidyenc: a yEnc encoder and decoder for Usenet articles, with a writer that encodes and a
-- decoder of NNTP responses.
--
-- The program has six parts. encodeGeneric turns bytes into the characters of yEnc lines, and
-- decodeGeneric turns them back, over any series of slices, from a state that it hands on. The
-- Encoder wraps the first for a series of writes with a header and a trailer. A Response takes
-- the bytes of an NNTP response, finds out whether its lines are yEnc, UU or text, and runs
-- decodeGeneric on a yEnc body. A Decoder reads from an io.Reader into a readBuffer and feeds a
-- Response until that is done. Builds for some processors put other code beneath the first two:
-- the drivers decodeSIMD and encodeSIMD with vector kernels, and a crc32 that is computed in
-- several streams.
--
-- Base: shared names, Boolean tests, lists over the native numbers, results of calls, integers, and
--   linear functions of bits.
-- Go: what the code uses of the standard library: bytes, strconv, hash/crc32, int64,
--   the bits of uint64, and the vectors of simd/archsimd.
-- Decoder: decoder.go (State, End) and decoder_generic.go (decodeGeneric as `decode_generic`). Its
--   labels are `step_*`, one round of its loop is `loop_round`, a goto is `goto`. Decoder/Automaton is
--   the independent description, and Simulation, Rounds, Refine, Progress and Output relate the two.
-- Encoder: encoder_generic.go (encodeGeneric as `encode_generic`, the tables as `escape` and
--   `escaped`). Encoder/Reference is the independent description. Tables, Refine, Lines, RoundTrip,
--   Columns, Blanks and Ending hold the proofs.
-- Meta: meta.go (Meta, Begin, End, validate).
-- Writer: encoder.go (Encoder, Write, Close, Reset, NewEncoder, maxLength) and encoder_scalar.go, over
--   an io.Writer that is the parameter `Sink`. Bounds, Stream, Series, Output and RoundTrip hold the
--   proofs, which take a writer that appends.
-- Response: response.go and the types of decoder.go and meta.go that it uses. Header is
--   processYencHeader, Uu is decodeUU, Detect is detectFormat, Yenc is decodeYenc with its buffer, and
--   Decode is decode, feed and metaError. Yenc/Body, Yenc/Sizes, Decode/Checks, Header/Keeps and the
--   files named Faults, Ends and Tracks hold proofs.
-- ReadBuffer: readBuffer.go and, in Feed, feedUntilDone with NewDecoder and Next of decoder.go. Window,
--   Space and Feed/Reading hold the proofs on the unread bytes, and Feed/Ends those on the loop.
-- Crc: crc32_combine.go (rawUpdate is in Go/Crc32), crc32_clmul_generic.go and
--   crc32_multistream_arm64.go. Linear, Product and Streams hold the proofs.
-- Cgo: encoder_cgo.go and decodeIncremental of decoder_cgo.go. RoundTrip and Incremental hold proofs.
-- Simd: decoder_simd.go (decodeSIMD as `decode_simd`) and encoder_simd.go (encodeSIMD as
--   `encode_simd`). The files below Decode and Encode hold the proofs. Decode/Avx2 is
--   decoder_simd_amd64.go: Tables is initAVX2, and LineEnds, Escapes and Loop are the parts of
--   decodeSIMDAVX2. Its proofs tell vectors from the bytes at each place (Each, Words, Ends, Marks,
--   Search, Lines), then escapes (Chains, Spread, Unescape) and stores (Compact, Stores), then bytes
--   one after the other (Lanes, Reads, Runs, Kept), and put these together for a round and for the
--   loop (Blocks, Plain, Rounds, Whole, Refine, Agree).
--
-- A byte is a number below 256, and a slice is the list of its bytes. A position in a slice is
-- the rest of the list behind it, so an index out of range is the empty rest, at which the model
-- gives `panic`. int and int64 are integers that wrap at 64 bits where the code adds to them.
-- Loops that are not structural run on fuel: `decode_generic` on three steps for each byte and
-- three more, since every step takes a byte or lowers a rank of the labels, `encode_generic` on
-- the number of its bytes, since each round takes one, and `line_loop` on the number of bytes,
-- since each line takes its line end, and `blocks` on the number of bytes, since each round takes
-- 64; `feed_loop` on the number of its rounds, which no bound limits for every reader, so its
-- fuel is an argument. Running out of fuel is the result `stuck`, which is told apart from
-- `panic`.
--
-- Parameters stand for what is not in the repository or is left to Go: the io.Writer and the
-- io.Reader, the capacity that append gives a slice, bytes.TrimLeftFunc with unicode.IsDigit, the
-- assembly routine crc32IEEEQuad, and the functions of the C library. The vector kernels are
-- arguments of the drivers in the code as well; of the kernels themselves decodeSIMDAVX2 is
-- modelled. The vectors of simd/archsimd are modelled as lists of bytes and of bits, a uint64
-- that is used as a set of bits as the list of its bits, and a pointer into a slice as the rest
-- of the slice. The mutex of the Encoder is left out, since it makes each method one step.
--
-- Not modelled: the other vector kernels (those of decoder_simd_arm64.go, encoder_simd_amd64.go
-- and encoder_simd_arm64.go), the choice of a kernel by the processor, the assembly, which is
-- made of processor instructions, the build flags of cgo.go, and the names of platforms
-- (platform*.go). In Writer and Response the choice of decoder_scalar.go, encoder_scalar.go and
-- crc32_multistream_other.go is taken, under which the functions modelled here are the ones that
-- run.
pub mod Base
pub mod Go
pub mod Decoder
pub mod Encoder
pub mod Meta
pub mod Cgo
pub mod Crc
pub mod Simd
pub mod Writer
pub mod Response
pub mod ReadBuffer

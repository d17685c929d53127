-- ===== src/Response/Tests.antt =====
-- Runs of the methods of `Response`, and their theorems at concrete inputs.
use rapidyenc.Base.{
  Finishes, ◌≤◌, ◌+◌, [], some, ret, ◌∷◌, arith, true, none, ◌≡◌, refl, codes, panic,
}
use rapidyenc.Response.{Decoder, Runtime, new_response}
use rapidyenc.Base.Int.{ℤ, pos}
use rapidyenc.Decoder.{crlfdt}
use rapidyenc.Response.{Response, ResponseMeta, yenc}
use rapidyenc.Response.Yenc.{decode_yenc}
use rapidyenc.Response.Yenc.Body.{Extends, decode_yenc-Extends}
use Prim.Native.Nat.{min}
use rapidyenc.Response.Yenc.{compute_expected_size, yenc_min_buffer_size, yenc_max_part_size}
use rapidyenc.Response.Yenc.Sizes.{declared, compute_expected_size_lem}
use rapidyenc.Response.Decode.Checks.{IsComplete, meta_error_iff}
use rapidyenc.Response.Decode.{decode, meta_error}
use rapidyenc.Response.Decode.Ends.{decode-Finishes}
use rapidyenc.Response.Decode.Faults.{decode-panics}
use rapidyenc.Response.Detect.{detect_format, only_space_or_backtick}
use rapidyenc.Response.Detect.Faults.{detect_format-panics}

-- A Go whose `append` takes just the room that it needs.
abbrev plain_go : Runtime
plain_go = record { append_capacity = λ n. n; trim_digits = λ s. s }

-- A decoder of a stream whose status line was read before.
abbrev in_body : Decoder
in_body = record { status_line_consumed = true; data_func = none; go = plain_go }

detect_format-panics_example : detect_format in_body new_response (codes " quoted") ≡ panic
unfolding only_space_or_backtick
detect_format-panics_example = detect_format-panics in_body new_response (codes "quoted") refl refl

-- A response with a byte of a yEnc body, and "\r\n." behind it.
abbrev mid_end : Response
mid_end = record new_response {
  metadata = record new_response.metadata { format = yenc };
  body = true;
  state = crlfdt;
  contents = some (record { bytes = 1 ∷ []; capacity = 1024 });
}

-- A header line, and the body behind it up to the end of the article.
decode-Finishes_example :
    Finishes (decode in_body new_response (codes "=ybegin line=128 size=1 name=a\r\nk\r\n.\r\n"))
decode-Finishes_example =
    decode-Finishes in_body new_response (codes "=ybegin line=128 size=1 name=a\r\nk\r\n.\r\n")

decode-panics_example : decode in_body mid_end (codes "\r\n") ≡ panic
decode-panics_example =
    decode-panics in_body mid_end (record { bytes = 1 ∷ []; capacity = 1024 }) [] refl refl refl
      refl (omega arith)

decode_yenc-Extends_example :
    (n : ℤ) × (q : Response) × (decode_yenc in_body mid_end (codes "abc") ≡ ret (n, q))
    × Extends mid_end (codes "abc") n q
decode_yenc-Extends_example =
    decode_yenc-Extends in_body mid_end (codes "abc") (λ n. omega arith) (omega arith) (omega arith)

-- A header that declares more bytes than the buffer may hold.
abbrev huge_part : ResponseMeta
huge_part = record new_response.metadata {
  meta = record new_response.metadata.meta { part_size = pos 1000000000000 };
}

compute_expected_size_example :
    (yenc_min_buffer_size ≤ compute_expected_size huge_part)
    × (compute_expected_size huge_part ≤ yenc_max_part_size)
    × (min (declared huge_part + 64) yenc_max_part_size ≤ compute_expected_size huge_part)
compute_expected_size_example = compute_expected_size_lem huge_part

-- A complete article of one byte.
abbrev whole_article : Response
whole_article = record new_response {
  metadata = record new_response.metadata {
    meta = record new_response.metadata.meta { file_size = pos 1 };
    bytes_produced = pos 1;
    format = yenc;
  };
  has_begin = true;
  has_end = true;
}

meta_error_iff_example :
    (meta_error whole_article ≡ none → IsComplete whole_article)
    × (IsComplete whole_article → meta_error whole_article ≡ none)
meta_error_iff_example = meta_error_iff whole_article refl

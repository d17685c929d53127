-- ===== src/Response/Decode/Tests.antt =====
-- A whole article through `feed`, and the theorems on it.
use rapidyenc.Base.{◌≡◌, refl, true, false, none, codes, Bytes, Outcome, ret}
use rapidyenc.Base.Int.{pos}
use rapidyenc.Go.ByteStrings.{cut, equal, index, until}
use rapidyenc.Go.Strconv.{parse_int}
use rapidyenc.Go.Int64.{add_int64}
use rapidyenc.Go.Crc32.{update}
use rapidyenc.Decoder.{decode_generic}
use rapidyenc.Response.Header.{process_yenc_header, extract_int, extract_crc}
use rapidyenc.Response.Detect.{detect_format}
use rapidyenc.Response.Yenc.{decode_yenc}
use rapidyenc.Response.{Decoder, Runtime, yenc, new_response}
use rapidyenc.Response.Decode.{Fed, feed, decode, on_line, meta_error}
use rapidyenc.Response.Yenc.Tracks.{IsTracked}
use rapidyenc.Response.Decode.Tracks.{
  IsVerified, new_response-IsTracked, feed-IsTracked, feed-IsVerified,
}

abbrev plain_go : Runtime
plain_go = record { append_capacity = λ n. n; trim_digits = λ s. s }

-- A decoder of a stream whose status line was read before.
abbrev in_body : Decoder
in_body = record { status_line_consumed = true; data_func = none; go = plain_go }

-- The byte "A" with its checksum.
abbrev article : Bytes
article = codes "=ybegin line=128 size=1 name=a\r\nk\r\n=yend size=1 crc32=d3d99e8b\r\n.\r\n"

abbrev returned : Outcome Fed → Fed
returned (ret f) = f
returned o = record { consumed = pos 0; done = false; error = none; response = new_response }

abbrev whole : Fed
whole = returned (feed in_body new_response article)

article_fed :
    (feed in_body new_response article ≡ ret whole)
    × (whole.done ≡ true)
    × (whole.error ≡ none)
    × (whole.response.metadata.format ≡ yenc)
unfolding feed decode cut on_line equal detect_format process_yenc_header extract_int index
    decode_yenc parse_int until decode_generic extract_crc meta_error add_int64 update
article_fed = (refl, refl, refl, refl)

feed-IsTracked_example : IsTracked whole.response
feed-IsTracked_example =
    feed-IsTracked in_body new_response article whole new_response-IsTracked article_fed.0

feed-IsVerified_example : IsVerified whole.response
feed-IsVerified_example =
    feed-IsVerified in_body new_response article whole new_response-IsTracked article_fed.0
      article_fed.1 article_fed.2 article_fed.3

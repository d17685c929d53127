-- ===== src/Response/Header/Keeps.antt =====
-- response.go, `processYencHeader`: it leaves the data and what is kept of them.
use rapidyenc.Base.{◌≡◌, arith, Bytes}
use rapidyenc.Response.{Response}
use rapidyenc.Response.Header.{process_ybegin, process_ypart, process_yend, process_yenc_header}

abbrev pub Keeps : Response → Response → Type 0
Keeps r q =
    (q.contents ≡ r.contents)
    × (q.metadata.crc ≡ r.metadata.crc)
    × (q.metadata.bytes_produced ≡ r.metadata.bytes_produced)

pub process_yenc_header-Keeps : (r : Response) (line : Bytes) → Keeps r (process_yenc_header r line)
unfolding process_yenc_header process_ybegin process_ypart process_yend
process_yenc_header-Keeps r line = ground arith

-- ===== src/ReadBuffer/Tests.antt =====
-- Runs of the methods of `readBuffer`, and their theorems at concrete inputs.
use rapidyenc.Base.{◌⊎◌, none, some, ◌≡◌, refl, arith, codes, drop}
use rapidyenc.ReadBuffer.{ReadBuffer, window, advance, ensure_write_space}
use rapidyenc.ReadBuffer.Window.{IsValid, advance-window}
use rapidyenc.ReadBuffer.Space.{IsFull, Makes, ensure_write_space_lem}

-- Eight bytes, of which "cdef" are unread.
abbrev partly_read : ReadBuffer
partly_read = record { buf = codes "abcdefgh"; start = 2; stop = 6 }

-- Unread bytes up to the end of the slice.
abbrev at_the_end : ReadBuffer
at_the_end = record { buf = codes "abcdefgh"; start = 6; stop = 8 }

partly_read-IsValid : IsValid partly_read
partly_read-IsValid = record { ordered = omega arith; inside = omega arith }

at_the_end-IsValid : IsValid at_the_end
at_the_end-IsValid = record { ordered = omega arith; inside = omega arith }

make_space_run :
    ensure_write_space at_the_end ≡ some (record { buf = codes "ghcdefgh"; start = 0; stop = 2 })
unfolding ensure_write_space
make_space_run = refl

ensure_write_space_example :
    ((ensure_write_space at_the_end ≡ none) × IsFull at_the_end)
    ⊎ (rb' : ReadBuffer) × (ensure_write_space at_the_end ≡ some rb') × Makes at_the_end rb'
ensure_write_space_example = ensure_write_space_lem at_the_end at_the_end-IsValid

advance-window_example :
    (window (advance partly_read 3) ≡ drop 3 (window partly_read)) × IsValid (advance partly_read 3)
advance-window_example = advance-window partly_read 3 partly_read-IsValid

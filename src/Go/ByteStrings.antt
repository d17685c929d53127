-- ===== src/Go/ByteStrings.antt =====
-- The package `bytes`.
use rapidyenc.Base.{
  ℕ, ◌+◌, Bool, true, false, ◌&&◌, Option, none, some, [], ◌∷◌, Bytes, length, drop, ◌==◌,
  if◌then◌else◌,
}

-- `bytes.Equal`
unfoldable pub equal : Bytes → Bytes → Bool
equal [] [] = true
equal (x ∷ xs) (y ∷ ys) = x == y && equal xs ys
equal _ _ = false

-- `bytes.HasPrefix(s, prefix)`
unfoldable pub has_prefix : Bytes → Bytes → Bool
has_prefix s [] = true
has_prefix [] (p ∷ ps) = false
has_prefix (x ∷ xs) (p ∷ ps) = x == p && has_prefix xs ps

-- `bytes.Index(s, sep)`: the first place of `sep`.
unfoldable pub index : Bytes → Bytes → Option ℕ
unfolding has_prefix
index [] sep = if has_prefix [] sep then some 0 else none
index (x ∷ xs) sep =
    let later = index xs sep in
    if has_prefix (x ∷ xs) sep then some 0 else elim later [ none ↦ none | some i ↦ some (i + 1) ]

-- `bytes.Cut(s, sep)`, where `sep` is found: what stands before it and behind it.
unfoldable pub cut : Bytes → Bytes → Option (Bytes × Bytes)
unfolding has_prefix
cut [] sep = if has_prefix [] sep then some ([], drop (length sep) []) else none
cut (x ∷ xs) sep =
    let later = cut xs sep in
    if has_prefix (x ∷ xs) sep
    then some ([], drop (length sep) (x ∷ xs))
    else elim later [ none ↦ none | some (before, behind) ↦ some (x ∷ before, behind) ]

-- `data[:end]` at `end := bytes.IndexAny(data, chars)`, and all of `data` where that is -1; the
-- characters are given as a test.
unfoldable pub until : (ℕ → Bool) → Bytes → Bytes
until test [] = []
until test (x ∷ xs) = if test x then [] else x ∷ until test xs

-- `bytes.TrimLeft` and `bytes.TrimLeftFunc`: drop the leading bytes that pass the test.
unfoldable pub trim_left : (ℕ → Bool) → Bytes → Bytes
trim_left test [] = []
trim_left test (x ∷ xs) = let rest = trim_left test xs in if test x then rest else x ∷ xs

-- ===== src/Examples/Utf8.antt =====
-- A Rust `String` is a byte string that is UTF-8; `String::from_utf8` checks this.
use opaque_vx.Prelude.{
  ℕ, Bool, true, false, Option, none, some, List, [], ◌∷◌, Bytes, ltb, not, ◌&&◌, if◌then◌else◌,
  bytes,
}
use opaque_vx.Prelude.Results.{Result, ok, err}

-- `lo ≤ x ≤ hi`
abbrev pub within : ℕ → ℕ → ℕ → Bool
within lo hi x = not (ltb x lo) && not (ltb hi x)

-- What the bytes after a first byte of a character lie in, or that it is not a first byte.
abbrev pub following : ℕ → Option (List (ℕ × ℕ))
following x =
    if ltb x 128
    then some []
    else if ltb x 194
    then none
    else if ltb x 224
    then some ((128, 191) ∷ [])
    else if ltb x 225
    then some ((160, 191) ∷ (128, 191) ∷ [])
    else if ltb x 237
    then some ((128, 191) ∷ (128, 191) ∷ [])
    else if ltb x 238
    then some ((128, 159) ∷ (128, 191) ∷ [])
    else if ltb x 240
    then some ((128, 191) ∷ (128, 191) ∷ [])
    else if ltb x 241
    then some ((144, 191) ∷ (128, 191) ∷ (128, 191) ∷ [])
    else if ltb x 244
    then some ((128, 191) ∷ (128, 191) ∷ (128, 191) ∷ [])
    else if ltb x 245
    then some ((128, 143) ∷ (128, 191) ∷ (128, 191) ∷ [])
    else none

-- Whether the rest of a string is UTF-8, where a character is to go on as the list says.
unfoldable pub scan : Option (List (ℕ × ℕ)) → Bytes → Bool
scan none xs = false
scan (some []) [] = true
scan (some (p ∷ ps)) [] = false
scan (some []) (x ∷ xs) = scan (following x) xs
scan (some (p ∷ ps)) (x ∷ xs) = within p.0 p.1 x && scan (some ps) xs

abbrev pub is_utf8 : Bytes → Bool
is_utf8 b = scan (some []) b

unfoldable pub from_utf8 : Bytes → Result Bytes Bytes
from_utf8 b = if is_utf8 b then ok b else err (bytes "UTF8 error")

-- ===== src/Strings.antt =====
-- What the program uses of Go's package `strings`, and the conversion of a byte to a string.
use longclaw.Base.{
  ℕ, ◌+◌, ◌/◌, ◌%◌, Bool, true, false, ◌&&◌, Option, none, some, [], ◌∷◌, Bytes, codes, ltb, ◌==◌,
  if◌then◌else◌, ◌≡◌, refl,
}
use mathlib.Core.List.{reverse}

-- `strings.HasPrefix(s, t)`
unfoldable pub has_prefix : Bytes → Bytes → Bool
has_prefix s [] = true
has_prefix [] (d ∷ t) = false
has_prefix (c ∷ s) (d ∷ t) = (c == d) && has_prefix s t

abbrev pub later : Option ℕ → Option ℕ
later none = none
later (some i) = some (i + 1)

-- `strings.Index(s, t)`, where `none` is -1
unfoldable pub index_of : Bytes → Bytes → Option ℕ
unfolding has_prefix
index_of [] t = if has_prefix [] t then some 0 else none
index_of (c ∷ s) t = if has_prefix (c ∷ s) t then some 0 else later (index_of s t)

-- `strings.Contains(s, t)`
unfoldable pub contains : Bytes → Bytes → Bool
unfolding index_of
contains s t = elim (index_of s t) [ none ↦ false | some i ↦ true ]

-- `strings.TrimLeft(s, "c")`
unfoldable pub trim_left : ℕ → Bytes → Bytes
trim_left c [] = []
trim_left c (d ∷ s) = if d == c then trim_left c s else d ∷ s

-- `strings.TrimRight(s, "c")`
unfoldable pub trim_right : ℕ → Bytes → Bytes
unfolding trim_left
trim_right c s = reverse (trim_left c (reverse s))

-- `string(b)` of a byte is the UTF-8 encoding of the code point.
unfoldable pub string_of_byte : ℕ → Bytes
string_of_byte b = if ltb b 128 then b ∷ [] else (192 + b / 64) ∷ (128 + b % 64) ∷ []

strings_run :
    (index_of (codes "TDAR01X") (codes "AR") ≡ some 2)
    × (trim_right b' ' (codes " 90210  ") ≡ codes " 90210")
    × (trim_left b'0' (codes "0010") ≡ codes "10")
unfolding index_of trim_right
strings_run = (refl, refl, refl)

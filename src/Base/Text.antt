-- ===== src/Base/Text.antt =====
-- What the code uses of Go's `strings` package, over native texts.
use Prim.Native.Nat.{ℕ, compare, Ordering}
use Prim.Native.Char.{Char, code}
use Prim.Native.String.{String, [], ◌∷◌}
use mathlib.Core.Bool.{Bool, true, false, ◌||◌}
use mathlib.Core.List.{List}
use text.Mathlib.Text.{◌==◌}

-- len(s) == 0
abbrev pub is_empty : String → Bool
is_empty [] = true
is_empty (c ∷ s) = false

same_code : ℕ → ℕ → Bool
same_code a b = elim (compare a b) [ Ordering.eq ↦ true | _ ↦ false ]

slash_before : Char → String → String
unfolding same_code
slash_before c [] = elim (same_code (code c) b'/') [ true ↦ [] | false ↦ c ∷ [] ]
slash_before c s = c ∷ s

-- strings.TrimRight(s, "/")
unfoldable pub trim_right_slash : String → String
unfolding slash_before
trim_right_slash [] = []
trim_right_slash (c ∷ s) = slash_before c (trim_right_slash s)

-- strings.HasSuffix(s, suffix): `suffix` is one of the tails of `s`
unfoldable pub has_suffix : String → String → Bool
has_suffix [] suffix = [] == suffix
has_suffix (c ∷ s) suffix = (c ∷ s) == suffix || has_suffix s suffix

-- strings.TrimSuffix(s, suffix)
unfoldable pub trim_suffix : String → String → String
trim_suffix [] suffix = []
trim_suffix (c ∷ s) suffix =
    let rest = trim_suffix s suffix in elim ((c ∷ s) == suffix) [ true ↦ [] | false ↦ c ∷ rest ]

-- strings.Contains(s, part): `part` starts one of the tails of `s`
starts : String → String → Bool
starts s [] = true
starts [] (d ∷ part) = false
starts (c ∷ s) (d ∷ part) = elim (compare (code c) (code d)) [
  | Ordering.eq ↦ starts s part
  | _ ↦ false
]

unfoldable pub has_part : String → String → Bool
unfolding starts
has_part [] part = starts [] part
has_part (c ∷ s) part = starts (c ∷ s) part || has_part s part

-- strings.Join(parts, ",")
unfoldable pub join_comma : List String → String
join_comma List.[] = ""
join_comma (List.◌∷◌ s List.[]) = s
join_comma (List.◌∷◌ s rest) =
    Prim.Native.String.◌++◌ s (Prim.Native.String.◌++◌ "," (join_comma rest))

-- strings.HasPrefix(s, part)
unfoldable pub has_prefix : String → String → Bool
unfolding starts
has_prefix = starts

-- strings.Split(s, ",")
push : Char → List String → List String
push c List.[] = List.◌∷◌ (c ∷ []) List.[]
push c (List.◌∷◌ word words) = List.◌∷◌ (c ∷ word) words

unfoldable pub split_comma : String → List String
unfolding push same_code
split_comma [] = List.◌∷◌ [] List.[]
split_comma (c ∷ s) =
    let rest = split_comma s in
    elim (same_code (code c) b',') [ true ↦ List.◌∷◌ [] rest | false ↦ push c rest ]

-- s[1:] and s[:len(s)-1]
abbrev pub drop_first : String → String
drop_first [] = []
drop_first (c ∷ s) = s

unfoldable pub drop_last : String → String
drop_last [] = []
drop_last (c ∷ []) = []
drop_last (c ∷ s) = c ∷ drop_last s

-- each byte, and so each code point, is below 128
unfoldable pub is_ascii : String → Bool
is_ascii [] = true
is_ascii (c ∷ s) = elim (compare (code c) 128) [ Ordering.lt ↦ is_ascii s | _ ↦ false ]

-- the order of strings, by bytes and so by code points
unfoldable pub less : String → String → Bool
less [] [] = false
less [] (d ∷ t) = true
less (c ∷ s) [] = false
less (c ∷ s) (d ∷ t) = elim (compare (code c) (code d)) [
  | Ordering.lt ↦ true
  | Ordering.eq ↦ less s t
  | Ordering.gt ↦ false
]

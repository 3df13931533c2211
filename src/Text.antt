-- ===== src/Text.antt =====
-- Strings as JavaScript holds them, lists of UTF-16 code units, and what docs/html/search/search.js
-- uses of the language's own string functions.
pub mod Laws
pub mod Spaces
use Prim.Native.Char.{code}
use Prim.Native.String.{String}
use owner_based_ball_game.Base.{
  Bool, List, Option, [], false, if◌then◌else◌, ltb, negsuc, none, pos, some, suc, true, zero, ℕ, ℤ,
  ◌%◌, ◌&&◌, ◌+◌, ◌/◌, ◌==◌, ◌∷◌,
}

abbrev pub Text : Type 0
Text = List ℕ

-- The code units of an ASCII literal.
abbrev pub txt : String → Text
txt String.[] = []
txt (String.◌∷◌ c s) = code c ∷ txt s

-- `a == b` on strings
unfoldable pub text_eq : Text → Text → Bool
text_eq [] [] = true
text_eq (a ∷ s) (b ∷ t) = a == b && text_eq s t
text_eq _ _ = false

-- `t.substr(0, s.length) == s`, for an `s` that is no longer than `t`
unfoldable pub starts_with : Text → Text → Bool
starts_with [] t = true
starts_with (a ∷ s) [] = false
starts_with (a ∷ s) (b ∷ t) = a == b && starts_with s t

-- `t.indexOf(s)`, where `none` is -1
unfoldable pub index_of : Text → Text → Option ℕ
unfolding starts_with
index_of s [] = if starts_with s [] then some 0 else none
index_of s (b ∷ t) =
    if starts_with s (b ∷ t)
    then some 0
    else elim (index_of s t) [ none ↦ none | some i ↦ some (suc i) ]

-- `s.replace(/ +/g, "")`
unfoldable pub remove_spaces : Text → Text
remove_spaces [] = []
remove_spaces (c ∷ s) = let rest = remove_spaces s in if c == 32 then rest else c ∷ rest

-- `s.replace(/^ +/, "")`
unfoldable pub strip_leading : Text → Text
strip_leading [] = []
strip_leading (c ∷ s) = let rest = strip_leading s in if c == 32 then rest else c ∷ s

-- `s.replace(/ +$/, "")`: a space goes if nothing but spaces is behind it.
unfoldable pub strip_trailing : Text → Text
strip_trailing [] = []
strip_trailing (c ∷ s) = elim (strip_trailing s) [
  | [] ↦ if c == 32 then [] else c ∷ []
  | d ∷ t ↦ c ∷ d ∷ t
]

-- the digit `d` below 36, as `toString` writes it
unfoldable pub digit : ℕ → ℕ
digit d = if ltb d 10 then d + 48 else d + 87

unfoldable pub digits : ℕ → ℕ → ℕ → Text → Text
unfolding digit
digits radix zero n acc = acc
digits radix (suc f) n acc =
    let acc' = digit (n % radix) ∷ acc in
    let rest = digits radix f (n / radix) acc' in if n / radix == 0 then acc' else rest

-- `n.toString(radix)`; a number has fewer digits than it counts, so the fuel `n + 1` is enough.
unfoldable pub to_string : ℕ → ℕ → Text
unfolding digits
to_string radix n = digits radix (suc n) n []

-- `"" + i`
unfoldable pub decimal : ℤ → Text
unfolding to_string
decimal (pos n) = to_string 10 n
decimal (negsuc n) = b'-' ∷ to_string 10 (suc n)

-- ===== src/ConvertId/Decode.antt =====
-- The spelling of `convertToId` can be read back, so it keeps prefixes apart as the terms do.
use owner_based_ball_game.Base.{
  All, Bool, Bool-cases, [], ap, arith, false, if◌then◌else◌, inl, inr, ltb, passes_at,
  passes_below, refl, true, ℕ, ◌%◌, ◌&&◌, ◌*◌, ◌++◌, ◌+◌, ◌-◌, ◌/◌, ◌<◌, ◌==◌, ◌||◌, ◌∙◌, ◌∷◌, ◌≡◌,
  ◌≢◌,
}
use owner_based_ball_game.ConvertId.{convert_char, convert_to_id, is_id_char}
use owner_based_ball_game.Text.{Text, digit, starts_with, text_eq}
use owner_based_ball_game.Text.Laws.{eq_of_text_eq}

-- What the reader has seen: nothing, an underscore, or an underscore and a digit of that value.
pub data Mode : Type 0 where
  plain escaped : Mode
  half : ℕ → Mode

abbrev value : ℕ → ℕ
value d = if ltb d b'a' then d - b'0' else d - 87

pub decode : Mode → Text → Text
decode m [] = []
decode plain (c ∷ s) = elim (c == b'_') [ true ↦ decode escaped s | false ↦ c ∷ decode plain s ]
decode escaped (c ∷ s) = decode (half (value c)) s
decode (half h) (c ∷ s) = (16 * h + value c) ∷ decode plain s

-- JavaScript's strings hold numbers of 16 bits.
abbrev pub IsUnit16 : ℕ → Type 0
IsUnit16 c = c < 65536

abbrev escape_table : ℕ → Bool
escape_table c =
    is_id_char c || text_eq (convert_char c) (b'_' ∷ digit (c / 16) ∷ digit (c % 16) ∷ [])

table_holds : passes_below escape_table 128 ≡ true
unfolding passes_below convert_char text_eq
table_holds = refl

convert_char-plain : (c : ℕ) → is_id_char c ≡ true → convert_char c ≡ c ∷ []
unfolding convert_char
convert_char-plain c h = rw h

convert_char-escaped :
    (c : ℕ)
    → IsUnit16 c
    → is_id_char c ≡ false
    → (c < 128) × (convert_char c ≡ b'_' ∷ digit (c / 16) ∷ digit (c % 16) ∷ [])
convert_char-escaped c u h =
    let low : c < 128 = unfold is_id_char in ground arith in
    let row = passes_at escape_table 128 c low table_holds in (low, eq_of_text_eq _ _ (rw h at row))

underscore_ne : (c : ℕ) → is_id_char c ≡ true → (c == b'_') ≡ false
unfolding is_id_char
underscore_ne c h = ground arith

-- A character that stands for itself differs from one that is escaped.
classes_ne :
    (a b : ℕ) → is_id_char a ≡ true → is_id_char b ≡ false → ((a == b) ≡ false) × ((b == a) ≡ false)
classes_ne a b p q = let ne : a ≢ b = λ e. cc in ground arith

-- Two characters below 128 agree if both of their digits do.
digits_eq :
    (a b : ℕ) (r : Bool)
    → a < 128
    → b < 128
    → (digit (a / 16) == digit (b / 16) && (digit (a % 16) == digit (b % 16) && r)) ≡ (a == b && r)
unfolding digit
digits_eq a b r h k = ground arith

-- Reading one converted character back gives that character.
decode-convert_char :
    (c : ℕ) (t : Text) → IsUnit16 c → decode plain (convert_char c ++ t) ≡ c ∷ decode plain t
unfolding decode
decode-convert_char c t u = elim (Bool-cases (is_id_char c)) [
  | inl h ↦ rw (convert_char-plain c h) (unfold is_id_char in ground arith)
  | inr h ↦ let (low, e) = convert_char-escaped c u h in rw e (unfold digit in ground arith)
]

-- Reading the id back gives the search term: no two terms share an id.
pub decode-convert_to_id : (s : Text) → All IsUnit16 s → decode plain (convert_to_id s) ≡ s
unfolding convert_to_id decode
decode-convert_to_id [] h = refl
decode-convert_to_id (c ∷ s) (u, h) =
    decode-convert_char c (convert_to_id s) u ∙ ap (c ∷◌) (decode-convert_to_id s h)

-- A term is a prefix of a name exactly if its id is a prefix of the name's id.
pub starts_with-convert_to_id :
    (s t : Text)
    → All IsUnit16 s
    → All IsUnit16 t
    → starts_with (convert_to_id s) (convert_to_id t) ≡ starts_with s t
unfolding convert_to_id starts_with
starts_with-convert_to_id [] t h k = refl
starts_with-convert_to_id (a ∷ s) [] (u, h) k = elim (Bool-cases (is_id_char a)) [
  | inl p ↦ rw (convert_char-plain a p)
  | inr p ↦ rw ((convert_char-escaped a u p).1)
]
starts_with-convert_to_id (a ∷ s) (b ∷ t) (u, h) (v, k) =
    let ih = starts_with-convert_to_id s t h k in
    elim (Bool-cases (is_id_char a)) [
      | inl p ↦ elim (Bool-cases (is_id_char b)) [
        | inl q ↦ rw (convert_char-plain a p, convert_char-plain b q, ih)
        | inr q ↦
            rw (convert_char-plain a p, (convert_char-escaped b v q).1)
              (rw (underscore_ne a p, (classes_ne a b p q).0))
      ]
      | inr p ↦ elim (Bool-cases (is_id_char b)) [
        | inl q ↦
            rw ((convert_char-escaped a u p).1, convert_char-plain b q)
              (ground (arith, underscore_ne b q, classes_ne b a q p))
        | inr q ↦
            rw ((convert_char-escaped a u p).1, (convert_char-escaped b v q).1, ih)
              (digits_eq a b _ (convert_char-escaped a u p).0 (convert_char-escaped b v q).0)
      ]
    ]

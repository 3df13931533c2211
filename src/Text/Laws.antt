-- ===== src/Text/Laws.antt =====
-- The string functions of Text.antt: equality, prefixes, stripped spaces.
use owner_based_ball_game.Base.{
  Bool, Bool-cases, [], ap, arith, false, inl, inr, length, refl, true, ℕ, ◌++◌, ◌<◌, ◌==◌, ◌||◌,
  ◌∷◌, ◌≡◌, ◌≢◌,
}
use owner_based_ball_game.Text.{Text, starts_with, text_eq}

pub text_eq_refl : (s : Text) → text_eq s s ≡ true
unfolding text_eq
text_eq_refl [] = refl
text_eq_refl (a ∷ s) = ground (arith, text_eq_refl s)

pub eq_of_text_eq : (s t : Text) → text_eq s t ≡ true → s ≡ t
unfolding text_eq
eq_of_text_eq [] [] h = refl
eq_of_text_eq [] (b ∷ t) h = cc
eq_of_text_eq (a ∷ s) [] h = cc
eq_of_text_eq (a ∷ s) (b ∷ t) h = ground (arith, eq_of_text_eq s t)

-- Texts of different lengths are told apart.
pub text_eq_longer : (s t : Text) → length t < length s → text_eq s t ≡ false
text_eq_longer s t h = elim (Bool-cases (text_eq s t)) [
  | inl e ↦ absurd (omega (arith, ap length (eq_of_text_eq s t e)))
  | inr e ↦ e
]

-- A prefix is what is followed by something.
pub starts_with-append : (s t : Text) → starts_with s (s ++ t) ≡ true
unfolding starts_with
starts_with-append [] t = refl
starts_with-append (a ∷ s) t = ground (arith, starts_with-append s t)

pub starts_with-rest : (s t : Text) → starts_with s t ≡ true → (r : Text) × (t ≡ s ++ r)
unfolding starts_with
starts_with-rest [] t h = (t, refl)
starts_with-rest (a ∷ s) [] h = cc
starts_with-rest (a ∷ s) (b ∷ t) h =
    let (r, e) = starts_with-rest s t (ground arith) in (r, ground arith)

pub text_eq_nil : (s : Text) → s ≢ [] → text_eq s [] ≡ false
unfolding text_eq
text_eq_nil [] ne = absurd (ne refl)
text_eq_nil (c ∷ s) ne = refl

abbrev pub has_code : ℕ → Text → Bool
has_code k [] = false
has_code k (c ∷ s) = c == k || has_code k s

-- ===== src/Text/Spaces.antt =====
-- The stripped spaces of Text.antt: what is left, and what holds of each of its characters.
use mathlib.Core.Path.{subst}
use owner_based_ball_game.Base.{
  All, Bool-cases, [], arith, if◌then◌else◌, inl, inr, length, refl, take, true, ℕ, ◌==◌, ◌∷◌, ◌≡◌,
  ◌≢◌, ◌≤◌,
}
use owner_based_ball_game.Text.{Text, starts_with, strip_leading, strip_trailing}

pub strip_leading-strip_leading : (s : Text) → strip_leading (strip_leading s) ≡ strip_leading s
unfolding strip_leading
strip_leading-strip_leading [] = refl
strip_leading-strip_leading (c ∷ s) = elim (Bool-cases (c == 32)) [
  | inl h ↦ rw h (strip_leading-strip_leading s)
  | inr h ↦ rw (h, h) refl
]

pub All-strip_leading {ℓ} : (P : ℕ → Type ℓ) (s : Text) → All P s → All P (strip_leading s)
unfolding strip_leading
All-strip_leading P [] h = h
All-strip_leading P (c ∷ s) (h, hs) = elim (Bool-cases (c == 32)) [
  | inl e ↦ rw e (All-strip_leading P s hs)
  | inr e ↦ rw e (h, hs)
]

-- A text is what strip_trailing leaves of it, and more.
pub starts_with-strip_trailing : (s : Text) → starts_with (strip_trailing s) s ≡ true
unfolding starts_with strip_trailing
starts_with-strip_trailing [] = refl
starts_with-strip_trailing (c ∷ s) =
    (elim (strip_trailing s)
        as (λ t.
          starts_with t s ≡ true
          → starts_with
              (elim t as (λ x. Text) [ [] ↦ if c == 32 then [] else c ∷ [] | d ∷ r ↦ c ∷ d ∷ r ])
              (c ∷ s)
            ≡ true) [ [] ↦ λ h. ground arith | d ∷ r ↦ λ h. ground arith ])
      (starts_with-strip_trailing s)

pub All-starts_with {ℓ} : (P : ℕ → Type ℓ) (s t : Text) → starts_with s t ≡ true → All P t → All P s
unfolding starts_with
All-starts_with P [] t h ps = tt
All-starts_with P (a ∷ s) [] h ps = cc
All-starts_with P (a ∷ s) (b ∷ t) h (p, ps) =
    (subst P (ground arith) p, All-starts_with P s t (ground arith) ps)

pub first-starts_with : (s t : Text) → s ≢ [] → starts_with s t ≡ true → take 1 s ≡ take 1 t
unfolding starts_with
first-starts_with [] t ne h = absurd (ne refl)
first-starts_with (a ∷ s) [] ne h = cc
first-starts_with (a ∷ s) (b ∷ t) ne h = ground arith

pub length-starts_with : (s t : Text) → starts_with s t ≡ true → length s ≤ length t
unfolding starts_with
length-starts_with [] t h = omega arith
length-starts_with (a ∷ s) [] h = cc
length-starts_with (a ∷ s) (b ∷ t) h = let ih = length-starts_with s t (ground arith) in omega arith

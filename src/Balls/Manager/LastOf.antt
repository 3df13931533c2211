-- ===== src/Balls/Manager/LastOf.antt =====
-- The arrays of `delete_ball` hold the last candidates that it has met.
use owner_based_ball_game.Balls.Manager.{Candidate, keep_last}
use owner_based_ball_game.Base.{
  Bool-cases, List, [], ap, append-nil, append_assoc, arith, drop, inl, inr, length, length-append,
  ltb, refl, suc, zero, ℕ, ◌++◌, ◌-◌, ◌∙◌, ◌∷◌, ◌≡◌, ◌≤◌,
}

abbrev pub last_of {ℓ} : {A : Type ℓ} → ℕ → List A → List A
last_of count xs = drop (length xs - count) xs

drop-append {ℓ} :
    {A : Type ℓ} (n : ℕ) (xs ys : List A) → n ≤ length xs → drop n (xs ++ ys) ≡ drop n xs ++ ys
drop-append zero xs ys h = refl
drop-append (suc n) [] ys h = absurd (omega arith)
drop-append (suc n) (x ∷ xs) ys h = drop-append n xs ys (omega arith)

length-drop {ℓ} : {A : Type ℓ} (n : ℕ) (xs : List A) → length (drop n xs) ≡ length xs - n
length-drop zero xs = omega arith
length-drop (suc n) [] = omega arith
length-drop (suc n) (x ∷ xs) = omega (arith, length-drop n xs)

drop-suc {ℓ} : {A : Type ℓ} (n : ℕ) (xs : List A) → drop 1 (drop n xs) ≡ drop (suc n) xs
drop-suc zero xs = refl
drop-suc (suc n) [] = refl
drop-suc (suc n) (x ∷ xs) = drop-suc n xs

keep_last-last_of :
    (count : ℕ) (seen : List Candidate) (c : Candidate)
    → 1 ≤ count
    → keep_last count (last_of count seen) c ≡ last_of count (seen ++ (c ∷ []))
unfolding keep_last
keep_last-last_of count seen c h =
    let len : length (seen ++ (c ∷ [])) ≡ suc (length seen) =
      omega (arith, length-append seen (c ∷ [])) in
    let kept = length-drop (length seen - count) seen in
    elim (Bool-cases (ltb (length (last_of count seen)) count)) [
      | inl room ↦
          let all : length seen - count ≡ 0 = ground arith in
          let all' : suc (length seen) - count ≡ 0 = ground arith in rw (room, len, all, all')
      | inr full ↦
          let enough : count ≤ length seen = ground arith in
          let one_more : suc (length seen) - count ≡ suc (length seen - count) = omega arith in
          rw (
            full,
            len,
            one_more,
            drop-append (suc (length seen - count)) seen (c ∷ []) (omega arith),
            drop-suc (length seen - count) seen,
          )
    ]

-- the first loop's array behind some more candidates
abbrev pub keep_all : ℕ → List Candidate → List Candidate → List Candidate
keep_all count found [] = found
keep_all count found (c ∷ cs) = keep_all count (keep_last count found c) cs

pub keep_all-last_of :
    (count : ℕ) (seen cs : List Candidate)
    → 1 ≤ count
    → keep_all count (last_of count seen) cs ≡ last_of count (seen ++ cs)
keep_all-last_of count seen [] h = rw append-nil
keep_all-last_of count seen (c ∷ cs) h = rw (keep_last-last_of count seen c h) (
    keep_all-last_of count (seen ++ (c ∷ [])) cs h
    ∙ ap (last_of count) (append_assoc seen (c ∷ []) cs))

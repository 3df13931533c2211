-- ===== src/Results/Build/Decimals.antt =====
-- The numbers in the ids of the results page: `toString` can be read back, and an id of a child or
-- of a negative number is the id of no link.
use owner_based_ball_game.Base.{
  Bool-cases, [], ap, arith, false, inl, inr, negsuc, pos, refl, suc, sym, true, zero, ℕ, ℤ, ◌%◌,
  ◌*◌, ◌++◌, ◌+◌, ◌-◌, ◌/◌, ◌<◌, ◌==◌, ◌∙◌, ◌∷◌, ◌≡◌, ◌≢◌, ◌⊎◌,
}
use owner_based_ball_game.Results.Page.{child_id, item_id}
use owner_based_ball_game.Text.{Text, decimal, digit, digits, text_eq, to_string}
use owner_based_ball_game.Text.Laws.{eq_of_text_eq, has_code, text_eq_refl}

abbrev read : ℕ → Text → ℕ
read m [] = m
read m (c ∷ s) = read (m * 10 + (c - 48)) s

digit_low : (n : ℕ) → digit (n % 10) ≡ n % 10 + 48
unfolding digit
digit_low n = ground arith

-- What `digits` writes in front of a text is read back as the number.
read-digits : (f n : ℕ) (acc : Text) → n < f → read 0 (digits 10 f n acc) ≡ read n acc
unfolding digits
read-digits zero n acc h = absurd (omega arith)
read-digits (suc f) n acc h = elim (Bool-cases (n / 10 == 0)) [
  | inl last ↦ rw (last, digit_low n) (ap (λ m. read m acc) (ground arith))
  | inr more ↦
      rw (more, read-digits f (n / 10) (digit (n % 10) ∷ acc) (ground arith), digit_low n)
        (ap (λ m. read m acc) (omega arith))
]

-- The decimal spelling of a number is read back as the number.
pub read-to_string : (n : ℕ) → read 0 (to_string 10 n) ≡ n
unfolding to_string
read-to_string n = read-digits (suc n) n [] (omega arith)

has_code-digits :
    (k f n : ℕ) (acc : Text)
    → (k < 48) ⊎ (57 < k)
    → has_code k acc ≡ false
    → has_code k (digits 10 f n acc) ≡ false
unfolding digits
has_code-digits k zero n acc h e = e
has_code-digits k (suc f) n acc h e =
    let other : (digit (n % 10) == k) ≡ false = rw (digit_low n) (ground arith) in
    let rest = has_code-digits k f (n / 10) (digit (n % 10) ∷ acc) h (rw (other, e)) in
    elim (Bool-cases (n / 10 == 0)) [ inl last ↦ rw (last, other, e) | inr more ↦ rw more rest ]

-- A decimal spelling has no code but those of the digits.
pub has_code-to_string : (k n : ℕ) → (k < 48) ⊎ (57 < k) → has_code k (to_string 10 n) ≡ false
unfolding to_string
has_code-to_string k n h = has_code-digits k (suc n) n [] h refl

-- A code that one text has and the other does not have tells them apart.
pub text_eq-has_code : (k : ℕ) (s t : Text) → has_code k s ≢ has_code k t → text_eq s t ≡ false
text_eq-has_code k s t ne = elim (Bool-cases (text_eq s t)) [
  | inl e ↦ absurd (ne (ap (has_code k) (eq_of_text_eq s t e)))
  | inr e ↦ e
]

pub text_eq-decimals : (a b : ℕ) → text_eq (to_string 10 a) (to_string 10 b) ≡ (a == b)
text_eq-decimals a b = elim (Bool-cases (text_eq (to_string 10 a) (to_string 10 b))) [
  | inl e ↦
      let same : a ≡ b =
        sym (read-to_string a) ∙ ap (read 0) (eq_of_text_eq _ _ e) ∙ read-to_string b in
      rw e (ground arith)
  | inr e ↦ rw e (elim (Bool-cases (a == b)) [
    | inl same ↦
        let eq : a ≡ b = ground arith in
        let clash : true ≡ false = rw (eq, text_eq_refl (to_string 10 b)) at e in cc
    | inr ne ↦ rw ne
  ])
]

-- The ids of two links are equal exactly if their numbers are.
pub text_eq-item_id : (a b : ℕ) → text_eq (item_id (pos a)) (item_id (pos b)) ≡ (a == b)
unfolding item_id decimal text_eq
text_eq-item_id a b = text_eq-decimals a b

-- The number -1 is in the id of no link.
pub text_eq-item_id_below : (a : ℕ) → text_eq (item_id (pos a)) (item_id (negsuc 0)) ≡ false
unfolding item_id decimal
text_eq-item_id_below a =
    text_eq-has_code b'-' _ _ (rw (has_code-to_string b'-' a (inl (omega arith))) λ e. cc)

has_code-inside : (k : ℕ) (s t : Text) → has_code k (s ++ (k ∷ t)) ≡ true
has_code-inside k [] t = ground arith
has_code-inside k (c ∷ s) t = rw (has_code-inside k s t) (ground arith)

has_code-decimal : (j : ℤ) → has_code b'_' (decimal j) ≡ false
unfolding decimal
has_code-decimal (pos n) = has_code-to_string b'_' n (inr (omega arith))
has_code-decimal (negsuc n) = has_code-to_string b'_' (suc n) (inr (omega arith))

-- The id of a child is the id of no link.
pub text_eq-child_id : (a c : ℕ) (j : ℤ) → text_eq (child_id (pos a) c) (item_id j) ≡ false
unfolding item_id child_id
text_eq-child_id a c j =
    let has : has_code b'_' (child_id (pos a) c) ≡ true =
      has_code-inside b'_' (decimal (pos a)) (b'c' ∷ decimal (pos c)) in
    let has_not : has_code b'_' (item_id j) ≡ false = has_code-decimal j in
    text_eq-has_code b'_' _ _ λ e. ground arith

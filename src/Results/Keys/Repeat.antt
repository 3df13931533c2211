-- ===== src/Results/Keys/Repeat.antt =====
-- A key that is pressed, held and let go.
use owner_based_ball_game.Base.{
  All, Bool, List, [], ap, arith, false, refl, suc, true, zero, ℕ, ◌==◌, ◌∷◌, ◌≡◌, ◌≢◌,
}
use owner_based_ball_game.Results.Keys.{EventType, KeyEvent, keydown, keypress, keyup, process_keys}
use owner_based_ball_game.Results.Page.{SearchResults}

abbrev pub event : EventType → ℕ → KeyEvent
event t k = record { event_type = t; key_code = k; shift_key = false }

-- The answers of `ProcessKeys` to a run of events, and the object behind them.
unfoldable pub answers : SearchResults → List KeyEvent → List Bool
answers self [] = []
answers self (e ∷ es) = let (self', b) = process_keys self e in b ∷ answers self' es

-- The keypress events of a held key.
unfoldable pub presses : ℕ → ℕ → List KeyEvent → List KeyEvent
presses k zero es = es
presses k (suc n) es = event keypress k ∷ presses k n es

unfoldable pub repeated : ℕ → List Bool → List Bool
repeated zero bs = bs
repeated (suc n) bs = true ∷ repeated n bs

press-held :
    (self : SearchResults) (k : ℕ)
    → self.last_key ≢ 0
    → self.repeat_on ≡ true
    → process_keys self (event keypress k) ≡ (self, true)
unfolding process_keys
press-held self k h r = ground arith

press-idle :
    (self : SearchResults) (k : ℕ)
    → self.last_key ≡ 0
    → self.repeat_on ≡ false
    → process_keys self (event keypress k) ≡ (self, false)
unfolding process_keys
press-idle self k h r = ground arith

key-ne-zero : (k : ℕ) → k ≢ 0 → (k == 0) ≡ false
key-ne-zero k h = ground arith

answers-presses :
    (self : SearchResults) (k n : ℕ) (es : List KeyEvent)
    → self.last_key ≢ 0
    → self.repeat_on ≡ true
    → answers self (presses k n es) ≡ repeated n (answers self es)
unfolding answers presses repeated
answers-presses self k zero es h r = refl
answers-presses self k (suc n) es h r =
    rw (press-held self k h r) (ap (true ∷◌) (answers-presses self k n es h r))

-- From any state, a key is acted on when it goes down, its first keypress is ignored, each further
-- keypress of the held key is acted on, and its release is not.
pub answers-held :
    (self : SearchResults) (k n : ℕ)
    → k ≢ 0
    → answers self (event keydown k ∷ presses k (suc n) (event keyup k ∷ []))
      ≡ true ∷ false ∷ repeated n (false ∷ [])
unfolding answers presses process_keys
answers-held self k n h =
    let held : SearchResults = record self { last_key = k; repeat_on = true } in
    rw (key-ne-zero k h)
      (ap (λ bs. true ∷ false ∷ bs) (answers-presses held k n (event keyup k ∷ []) h refl))

-- Without a key that has gone down no keypress is acted on.
pub keypress-ignored :
    (self : SearchResults) (k n : ℕ)
    → self.last_key ≡ 0
    → self.repeat_on ≡ false
    → All (λ b. b ≡ false) (answers self (presses k n []))
unfolding answers presses
keypress-ignored self k zero h r = tt
keypress-ignored self k (suc n) h r =
    rw (press-idle self k h r) (refl, keypress-ignored self k n h r)

-- ===== src/Memory/Freed.antt =====
-- The nodes of a linked list in memory are freed one by one.
use owner_based_ball_game.Base.{
  List, Option, [], arith, false, if◌then◌else◌, length, none, refl, suc, zero, ℕ, ◌++◌, ◌<◌, ◌==◌,
  ◌∷◌, ◌≡◌,
}
use owner_based_ball_game.Memory.{Cell, Memory, Ptr, ends, free_nodes, null, put_cell, write}
use owner_based_ball_game.Memory.Chain.{Distinct, Linked, Linked-put_cell, first_ptr, has, not_null}
use owner_based_ball_game.Memory.LinkedList.{free-ends, load-ends}

module _ {V : Type 0} where
  -- what is closed on the way
  abbrev pub all_closed : (V → List ℕ) → List (Ptr × V) → List ℕ
  all_closed closes [] = []
  all_closed closes ((p, v) ∷ xs) = closes v ++ all_closed closes xs

  -- the cells without those of a list
  unfoldable pub without_nodes : (Ptr → Option (Cell V)) → List (Ptr × V) → Ptr → Option (Cell V)
  without_nodes f [] = f
  without_nodes f ((p, v) ∷ xs) = without_nodes (put_cell f p none) xs

  pub without_nodes-has :
      (xs : List (Ptr × V)) (f : Ptr → Option (Cell V)) (a : Ptr)
      → without_nodes f xs a ≡ (if has a xs then none else f a)
  unfolding without_nodes put_cell
  without_nodes-has [] f a = refl
  without_nodes-has ((p, v) ∷ xs) f a =
      rw (without_nodes-has xs (put_cell f p none) a) (ground arith)

  pub free_nodes-ends :
      (closes : V → List ℕ) (k : ℕ) (xs : List (Ptr × V)) (m : Memory V)
      → Linked m.cells xs null
      → Distinct xs
      → length xs < k
      → free_nodes closes k (first_ptr xs null) m
        ≡ ends (all_closed closes xs) (record m { cells = without_nodes m.cells xs })
  unfolding free_nodes without_nodes
  free_nodes-ends closes zero xs m l d enough = absurd (omega arith)
  free_nodes-ends closes (suc k) [] m l d enough = refl
  free_nodes-ends closes (suc k) ((p, v) ∷ xs) m (ne, e, l) (out, d) enough =
      let on : (p == null) ≡ false = not_null p ne in
      let rest =
        free_nodes-ends closes k xs (write p none m) (Linked-put_cell m.cells xs null p none out l)
          d (omega arith) in
      rw (on, load-ends p _ m ne e, free-ends p _ m ne e, rest) refl

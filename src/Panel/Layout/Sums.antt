-- ===== src/Panel/Layout/Sums.antt =====
-- The positions that the loops of `getXPos` and `getYPos` add up.
use owner_based_ball_game.Base.{+ℤ_assoc, arith, if◌then◌else◌, pos, sym, ℤ, ◌+ℤ◌, ◌==◌, ◌∙◌, ◌≡◌}
use owner_based_ball_game.Panel.Layout.{
  Ancestry, OffsetBox, add_left, add_top, body, get_x_pos, get_y_pos, inside, top_level,
}

-- The sum of the offsets along the chain.
unfoldable pub sum_left : Ancestry → ℤ
sum_left top_level = pos 0
sum_left body = pos 0
sum_left (inside l t up) = l +ℤ sum_left up

unfoldable pub sum_top : Ancestry → ℤ
sum_top top_level = pos 0
sum_top body = pos 0
sum_top (inside l t up) = t +ℤ sum_top up

zero-+ℤ : (a : ℤ) → pos 0 +ℤ a ≡ a
unfolding ◌+ℤ◌
zero-+ℤ a = ground arith

+ℤ-zero : (a : ℤ) → a +ℤ pos 0 ≡ a
unfolding ◌+ℤ◌
+ℤ-zero a = ground arith

add_left-sum : (x : ℤ) (up : Ancestry) → add_left x up ≡ x +ℤ sum_left up
unfolding add_left sum_left
add_left-sum x top_level = sym (+ℤ-zero x)
add_left-sum x body = sym (+ℤ-zero x)
add_left-sum x (inside l t up) = add_left-sum (x +ℤ l) up ∙ +ℤ_assoc x l (sum_left up)

add_top-sum : (y : ℤ) (up : Ancestry) → add_top y up ≡ y +ℤ sum_top up
unfolding add_top sum_top
add_top-sum y top_level = sym (+ℤ-zero y)
add_top-sum y body = sym (+ℤ-zero y)
add_top-sum y (inside l t up) = add_top-sum (y +ℤ t) up ∙ +ℤ_assoc y t (sum_top up)

-- The position of an element that is laid out is its own offset and the offsets of all its offset
-- parents below the body; one of no width is at 0.
pub get_pos_lem :
    (b : OffsetBox)
    → (get_x_pos b
        ≡ (if b.offset_width == 0 then pos 0 else b.offset_left +ℤ sum_left b.offset_parent))
      × (get_y_pos b
          ≡ (if b.offset_width == 0 then pos 0 else b.offset_top +ℤ sum_top b.offset_parent))
unfolding get_x_pos get_y_pos
get_pos_lem b =
    let open_left = add_left-sum (pos 0 +ℤ b.offset_left) b.offset_parent in
    let open_top = add_top-sum (pos 0 +ℤ b.offset_top) b.offset_parent in
    (rw (open_left, zero-+ℤ), rw (open_top, zero-+ℤ))

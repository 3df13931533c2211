-- ===== src/Dom/Laws.antt =====
-- Places and writes in the tree of Dom.antt.
use native.Mathlib.Nat.{add-zero}
use owner_based_ball_game.Base.{
  Bool, Option, [], ap, arith, false, if◌then◌else◌, none, refl, some, suc, true, zero, ℕ, ◌+◌, ◌∙◌,
  ◌∷◌, ◌≡◌,
}
use owner_based_ball_game.Dom.{
  Elem, Node, Nodes, Place, child_of, cons, elem_of, get_element_by_id, id_among, id_in, item, nil,
  node, node_at, update, update_among, update_in,
}
use owner_based_ball_game.Text.{Text, text_eq}

-- `drop` for the lists of nodes
abbrev pub drop_nodes : ℕ → Nodes → Nodes
drop_nodes zero ns = ns
drop_nodes (suc i) nil = nil
drop_nodes (suc i) (cons n ns) = drop_nodes i ns

pub item-drop_nodes :
    (i : ℕ) (cs : Nodes) {n : Node} {ns : Nodes} → drop_nodes i cs ≡ cons n ns → item cs i ≡ some n
item-drop_nodes zero cs e = rw e
item-drop_nodes (suc i) nil e = cc
item-drop_nodes (suc i) (cons c cs) e = item-drop_nodes i cs e

pub drop_nodes-suc :
    (i : ℕ) (cs : Nodes) {n : Node} {ns : Nodes}
    → drop_nodes i cs ≡ cons n ns
    → drop_nodes (suc i) cs ≡ ns
drop_nodes-suc zero cs e = rw e
drop_nodes-suc (suc i) nil e = cc
drop_nodes-suc (suc i) (cons c cs) e = drop_nodes-suc i cs e

pub item-drop_nodes_nil : (i : ℕ) (cs : Nodes) → drop_nodes i cs ≡ nil → item cs i ≡ none
item-drop_nodes_nil zero cs e = rw e
item-drop_nodes_nil (suc i) nil e = refl
item-drop_nodes_nil (suc i) (cons c cs) e = item-drop_nodes_nil i cs e

abbrev pub map_some {ℓ κ} : {A : Type ℓ} {B : Type κ} → (A → B) → Option A → Option B
map_some f none = none
map_some f (some a) = some (f a)

item-update_among :
    (q : Place) (f : Elem → Elem) (p : Place) (k : ℕ) (cs : Nodes) (i : ℕ)
    → item (update_among q f p k cs) i ≡ map_some (update_in q f ((k + i) ∷ p)) (item cs i)
unfolding update_in
item-update_among q f p k nil i = refl
item-update_among q f p k (cons n ns) zero = rw add-zero
item-update_among q f p k (cons n ns) (suc i) =
    let e : suc k + i ≡ k + suc i = omega arith in rw (← e) (item-update_among q f p (suc k) ns i)

child_of-update_in :
    (q : Place) (f : Elem → Elem) (p : Place) (o : Option Node) (i : ℕ)
    → child_of (map_some (update_in q f p) o) i ≡ map_some (update_in q f (i ∷ p)) (child_of o i)
unfolding update_in
child_of-update_in q f p none i = refl
child_of-update_in q f p (some (node e cs)) i =
    item-update_among q f p 0 cs i
    ∙ ap (λ k. map_some (update_in q f (k ∷ p)) (item cs i)) (omega arith)

-- A write moves no element: what stands at a place is what stood there, rewritten.
pub node_at-update :
    (q : Place) (f : Elem → Elem) (root : Node) (p : Place)
    → node_at (update q f root) p ≡ map_some (update_in q f p) (node_at root p)
unfolding update node_at
node_at-update q f root [] = refl
node_at-update q f root (i ∷ p) =
    rw (node_at-update q f root p) (child_of-update_in q f p (node_at root p) i)

-- The element at a place, if there is one.
abbrev pub elem_at : Node → Place → Option Elem
elem_at root p = map_some elem_of (node_at root p)

elem_of-update_in :
    (q : Place) (f : Elem → Elem) (p : Place) (o : Option Node)
    → map_some elem_of (map_some (update_in q f p) o)
      ≡ (if text_eq p q then map_some (λ n. f (elem_of n)) o else map_some elem_of o)
unfolding update_in
elem_of-update_in q f p none = ground arith
elem_of-update_in q f p (some (node e cs)) = ground arith

-- A write to `q` rewrites the element at `q`, and no other.
pub elem_at-update :
    (q : Place) (f : Elem → Elem) (root : Node) (p : Place)
    → elem_at (update q f root) p
      ≡ (if text_eq p q then map_some (λ n. f (elem_of n)) (node_at root p) else elem_at root p)
elem_at-update q f root p =
    ap (map_some elem_of) (node_at-update q f root p) ∙ elem_of-update_in q f p (node_at root p)

module _ (q : Place) (f : Elem → Elem) (keeps : (e : Elem) → (f e).id ≡ e.id) where
  kept_id : (b : Bool) (e : Elem) → (if b then f e else e).id ≡ e.id
  kept_id true e = keeps e
  kept_id false e = refl

  mutual
    unfolding update_in id_in

    id_in-update_in :
        (s : Text) (p : Place) (n : Node) → id_in s p (update_in q f p n) ≡ id_in s p n
    id_in-update_in s p (node e cs) = rw (id_among-update_among s p 0 cs, kept_id (text_eq p q) e)

    id_among-update_among :
        (s : Text) (p : Place) (i : ℕ) (cs : Nodes)
        → id_among s p i (update_among q f p i cs) ≡ id_among s p i cs
    id_among-update_among s p i nil = refl
    id_among-update_among s p i (cons n ns) =
        rw (id_in-update_in s (i ∷ p) n, id_among-update_among s p (suc i) ns)

  -- A write that keeps the ids keeps what `getElementById` finds.
  pub get_element_by_id-update :
      (root : Node) (s : Text) → get_element_by_id (update q f root) s ≡ get_element_by_id root s
  unfolding get_element_by_id update
  get_element_by_id-update root s = id_in-update_in s [] root

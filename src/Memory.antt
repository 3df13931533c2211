-- ===== src/Memory.antt =====
-- The memory in which the server keeps its linked lists (localball_list.c, client_list_manager.c):
-- nodes at addresses, and the commands that read and write them.
pub mod Chain
pub mod Cut
pub mod LinkedList
pub mod Append
pub mod Values
pub mod Freed
use owner_based_ball_game.Base.{
  List, Option, [], if◌then◌else◌, none, some, suc, zero, ℕ, ◌++◌, ◌==◌, ◌∷◌,
}

abbrev pub Ptr : Type 0
Ptr = ℕ

abbrev pub null : Ptr
null = 0

-- A node: its data, and its member `next`.
pub record Cell (V : Type 0) : Type 0 where
  pub value : V
  pub next : Ptr

-- What is allocated; and the freed nodes that were printed all the same, newest first.
pub record Memory (V : Type 0) : Type 0 where
  pub cells : Ptr → Option (Cell V)
  pub stale_reads : List Ptr

-- How a command ends: with a value, at an address that is not allocated, or out of fuel.
pub data Run (V A : Type 0) : Type 0 where
  ends : A → Memory V → Run V A
  fault : Run V A
  no_fuel : Run V A

abbrev pub Cmd : Type 0 → Type 0 → Type 0
Cmd V A = Memory V → Run V A

abbrev pub and_then : {V A B : Type 0} → Run V A → (A → Cmd V B) → Run V B
and_then (ends a m) k = k a m
and_then fault k = fault
and_then no_fuel k = no_fuel

infixl 5 ◌>>=◌ ◌>>◌
abbrev pub ◌>>=◌ : {V A B : Type 0} → Cmd V A → (A → Cmd V B) → Cmd V B
c >>= k = λ m. and_then (c m) k

abbrev pub ◌>>◌ : {V A B : Type 0} → Cmd V A → Cmd V B → Cmd V B
c >> d = λ m. and_then (c m) λ _. d

abbrev pub pure : {V A : Type 0} → A → Cmd V A
pure a m = ends a m

abbrev pub crash : {V A : Type 0} → Cmd V A
crash m = fault

module _ {V : Type 0} where
  abbrev pub cell : V → Ptr → Cell V
  cell v q = record { value = v; next = q }

  -- the cells with one of them replaced
  unfoldable pub put_cell : (Ptr → Option (Cell V)) → Ptr → Option (Cell V) → Ptr → Option (Cell V)
  put_cell f p c a = if a == p then c else f a

  abbrev pub write : Ptr → Option (Cell V) → Memory V → Memory V
  write p c m = record m { cells = put_cell m.cells p c }

  -- `*p`
  unfoldable pub load : Ptr → Cmd V (Cell V)
  load p m = if p == null then fault else elim (m.cells p) [ none ↦ fault | some c ↦ ends c m ]

  -- `p->next = q`
  unfoldable pub set_next : Ptr → Ptr → Cmd V (Unit {0})
  unfolding load
  set_next p q = load p >>= λ c m. ends tt (write p (some (cell c.value q)) m)

  -- `p->data = v`
  unfoldable pub set_value : Ptr → V → Cmd V (Unit {0})
  unfolding load
  set_value p v = load p >>= λ c m. ends tt (write p (some (cell v c.next)) m)

  -- `free(p)`
  unfoldable pub free : Ptr → Cmd V (Unit {0})
  unfolding load
  free p = load p >>= λ c m. ends tt (write p none m)

  -- `printf("%d", p->data.id)`, which goes on at a freed node with what the memory still holds
  unfoldable pub print_node : Ptr → Cmd V (Unit {0})
  print_node p m = elim (m.cells p) [
    | none ↦ ends tt (record m { stale_reads = p ∷ m.stale_reads })
    | some c ↦ ends tt m
  ]

  -- A node that `malloc` has put at an address, with its data and no successor; NULL on failure.
  unfoldable pub create_node : Ptr → V → Cmd V (Unit {0})
  create_node p v m = if p == null then ends tt m else ends tt (write p (some (cell v null)) m)

  -- The code of `appendBall` and `append_client`: from the head, the tail and the address of the new
  -- node, the new head and tail.
  unfoldable pub append_node : Ptr → V → Ptr → Ptr → Cmd V (Ptr × Ptr)
  append_node address v head tail = do
    create_node address v
    if head == null
        then pure (address, address)
        else (set_next tail address >> pure (head, address))

  -- A loop over all nodes that changes their data.
  unfoldable pub each_node : ℕ → (V → V) → Ptr → Cmd V (Unit {0})
  unfolding set_value
  each_node zero f cur = λ m. no_fuel
  each_node (suc k) f cur =
      if cur == null
      then pure tt
      else do n ← load cur; set_value cur (f n.value); each_node k f n.next

  -- The loop that frees all nodes, and what it closes on its way.
  unfoldable pub free_nodes : (V → List ℕ) → ℕ → Ptr → Cmd V (List ℕ)
  unfolding free
  free_nodes closes zero cur = λ m. no_fuel
  free_nodes closes (suc k) cur = if cur == null then pure [] else do
    n ← load cur
    free cur
    closed ← free_nodes closes k n.next
    pure (closes n.value ++ closed)

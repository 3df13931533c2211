-- ===== src/Server/Connected.antt =====
-- The two lists of the server through any events: every ball belongs to a client that is connected.
use owner_based_ball_game.Balls.{Machine, LogicalBall, move_logical_ball}
use owner_based_ball_game.Balls.Dispatch.Others.{others}
use owner_based_ball_game.Balls.Manager.{Round}
use owner_based_ball_game.Balls.Manager.Add.{AreNew}
use owner_based_ball_game.Balls.Manager.Delete.{keep_first}
use owner_based_ball_game.Base.{
  Bool, Bool-cases, List, [], ap, arith, false, if◌then◌else◌, inl, inr, refl, suc, true, ℕ, ◌++◌,
  ◌==◌, ◌||◌, ◌↔◌, ◌∙◌, ◌∷◌, ◌≡◌,
}
use owner_based_ball_game.Clients.{SocketContext}
use owner_based_ball_game.Clients.Leaving.{without_client}
use owner_based_ball_game.Memory.{Ptr}
use owner_based_ball_game.Memory.Values.{map_nodes}

-- The sockets that are open, by the events alone.
unfoldable pub close_socket : ℕ → List ℕ → List ℕ
close_socket fd [] = []
close_socket fd (s ∷ live) = let rest = close_socket fd live in if s == fd then live else s ∷ rest

unfoldable pub is_open : ℕ → List ℕ → Bool
is_open fd [] = false
is_open fd (s ∷ live) = s == fd || is_open fd live

pub is_open-snoc :
    (fd csock : ℕ) (live : List ℕ)
    → is_open fd (live ++ (csock ∷ [])) ≡ (is_open fd live || csock == fd)
unfolding is_open
is_open-snoc fd csock [] = ground arith
is_open-snoc fd csock (s ∷ live) = rw (is_open-snoc fd csock live) (ground arith)

pub is_open-last : (csock : ℕ) (live : List ℕ) → is_open csock (live ++ (csock ∷ [])) ≡ true
is_open-last csock live = is_open-snoc csock csock live ∙ ground arith

is_open-close_socket :
    (fd other : ℕ) (live : List ℕ)
    → (other == fd) ≡ false
    → is_open other (close_socket fd live) ≡ is_open other live
unfolding is_open close_socket
is_open-close_socket fd other [] ne = refl
is_open-close_socket fd other (s ∷ live) ne = elim (Bool-cases (s == fd)) [
  | inl eq ↦ rw eq (let no : (s == other) ≡ false = ground arith in rw no refl)
  | inr apart_lem ↦ rw apart_lem (rw (is_open-close_socket fd other live ne) refl)
]

module _ {Address : Type 0} where
  abbrev pub sockets : List (Ptr × SocketContext Address) → List ℕ
  sockets [] = []
  sockets ((p, c) ∷ xs) = c.csock ∷ sockets xs

  pub sockets-without_client :
      (fd : ℕ) (xs : List (Ptr × SocketContext Address))
      → sockets (without_client fd xs) ≡ close_socket fd (sockets xs)
  unfolding without_client close_socket
  sockets-without_client fd [] = refl
  sockets-without_client fd ((p, c) ∷ xs) = elim (Bool-cases (c.csock == fd)) [
    | inl eq ↦ rw eq refl
    | inr ne ↦ rw ne (ap (λ ss. c.csock ∷ ss) (sockets-without_client fd xs))
  ]

  pub sockets-append :
      (xs ys : List (Ptr × SocketContext Address)) → sockets (xs ++ ys) ≡ sockets xs ++ sockets ys
  sockets-append [] ys = refl
  sockets-append ((p, c) ∷ xs) ys = ap (λ ss. c.csock ∷ ss) (sockets-append xs ys)

module _ (machine : Machine) where
  -- Each ball is of a socket that is open.
  abbrev pub AllOpen : List ℕ → List (Ptr × LogicalBall machine) → Type 0
  AllOpen live [] = Unit
  AllOpen live ((p, b) ∷ xs) = (is_open b.owner_id live ≡ true) × AllOpen live xs

  pub AllOpen-append :
      (live : List ℕ) (xs ys : List (Ptr × LogicalBall machine))
      → AllOpen live xs
      → AllOpen live ys
      → AllOpen live (xs ++ ys)
  AllOpen-append live [] ys h k = k
  AllOpen-append live ((p, b) ∷ xs) ys (here_lem, h) k = (here_lem, AllOpen-append live xs ys h k)

  pub AllOpen-snoc :
      (live : List ℕ) (csock : ℕ) (xs : List (Ptr × LogicalBall machine))
      → AllOpen live xs
      → AllOpen (live ++ (csock ∷ [])) xs
  AllOpen-snoc live csock [] h = tt
  AllOpen-snoc live csock ((p, b) ∷ xs) (here_lem, h) =
      (is_open-snoc b.owner_id csock live ∙ ground arith, AllOpen-snoc live csock xs h)

  pub AllOpen-new :
      (live : List ℕ) (k owner : ℕ) (rs : List Round) (ys : List (Ptr × LogicalBall machine))
      → AreNew machine k owner rs ys
      → is_open owner live ≡ true
      → AllOpen live ys
  AllOpen-new live k owner [] [] new o = tt
  AllOpen-new live k owner [] (_ ∷ ys) new o = elim new [ ]
  AllOpen-new live k owner (r ∷ rs) [] new o = elim new [ ]
  AllOpen-new live k owner (r ∷ rs) ((p, b) ∷ ys) (_, _, own, new) o =
      (rw own o, AllOpen-new live (suc k) owner rs ys new o)

  pub AllOpen-others :
      (live : List ℕ) (owner : ℕ) (xs : List (Ptr × LogicalBall machine))
      → is_open owner live ≡ true
      → AllOpen live (others machine owner xs) ↔ AllOpen live xs
  unfolding keep_first
  AllOpen-others live owner [] o = (λ h. h, λ h. h)
  AllOpen-others live owner ((p, b) ∷ xs) o =
      let (to, from) = AllOpen-others live owner xs o in
      elim (Bool-cases (b.owner_id == owner)) [
        | inl own ↦
            let same : b.owner_id ≡ owner = ground arith in
            rw (own, same) (λ h. (o, to h), λ (_, h). from h)
        | inr other ↦ rw other (λ (e, h). (e, to h), λ (e, h). (e, from h))
      ]

  pub AllOpen-closed :
      (live : List ℕ) (fd : ℕ) (xs : List (Ptr × LogicalBall machine))
      → AllOpen live xs
      → AllOpen (close_socket fd live) (others machine fd xs)
  unfolding keep_first
  AllOpen-closed live fd [] h = tt
  AllOpen-closed live fd ((p, b) ∷ xs) (here_lem, h) = elim (Bool-cases (b.owner_id == fd)) [
    | inl own ↦ rw own (AllOpen-closed live fd xs h)
    | inr other ↦
        rw other
          (is_open-close_socket fd b.owner_id live other ∙ here_lem, AllOpen-closed live fd xs h)
  ]

  pub AllOpen-map_nodes :
      (live : List ℕ) (xs : List (Ptr × LogicalBall machine))
      → AllOpen live xs
      → AllOpen live (map_nodes (move_logical_ball machine) xs)
  unfolding map_nodes move_logical_ball
  AllOpen-map_nodes live [] h = tt
  AllOpen-map_nodes live ((p, b) ∷ xs) (here_lem, h) = (here_lem, AllOpen-map_nodes live xs h)

  pub AllOpen-added :
      (live : List ℕ) (k csock : ℕ) (rs : List Round) (xs ys : List (Ptr × LogicalBall machine))
      → AllOpen live xs
      → AreNew machine k csock rs ys
      → AllOpen (live ++ (csock ∷ [])) (xs ++ ys)
  AllOpen-added live k csock rs xs ys h new =
      AllOpen-append (live ++ (csock ∷ [])) xs ys (AllOpen-snoc live csock xs h)
        (AllOpen-new (live ++ (csock ∷ [])) k csock rs ys new (is_open-last csock live))

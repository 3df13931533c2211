-- ===== src/Server/Pipeline/Received.antt =====
-- From `recv` in src/server/main.c to the replies of a worker of src/server/server.c.
use owner_based_ball_game.Balls.Dispatch.{Supply}
use owner_based_ball_game.Base.{List, [], ap, length, refl, suc, ℕ, ◌<◌, ◌∷◌, ◌≡◌, ◌≤◌}
use owner_based_ball_game.Server.{Server}
use owner_based_ball_game.Server.Pipeline.{received}
use owner_based_ball_game.Server.Pipeline.Drained.{Drained, Job, tasks_of}

-- what has come from a socket, with what `rand` and `malloc` give the worker that handles it
abbrev pub Message : Type 0
Message = (ℕ × List ℕ) × Supply

abbrev pub contents : List Message → List (ℕ × List ℕ)
contents [] = []
contents ((content, supply) ∷ messages) = content ∷ contents messages

abbrev pub jobs_of : List Message → List Job
jobs_of [] = []
jobs_of (((fd, buf), supply) ∷ messages) = (received fd buf, supply) ∷ jobs_of messages

length-jobs_of : (messages : List Message) → length (tasks_of (jobs_of messages)) ≡ length messages
length-jobs_of [] = refl
length-jobs_of (((fd, buf), supply) ∷ messages) = ap suc (length-jobs_of messages)

-- Each message has at least one byte, and less than the buffer.
abbrev pub AllFit : List Message → Type 0
AllFit [] = Unit
AllFit (((fd, buf), supply) ∷ messages) = ((1 ≤ length buf) × (length buf < 8192)) × AllFit messages

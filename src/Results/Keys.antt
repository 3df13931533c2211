-- ===== src/Results/Keys.antt =====
-- `SearchResults.ProcessKeys`: which key events of a link are acted on.
pub mod Repeat
use owner_based_ball_game.Base.{Bool, false, if◌then◌else◌, not, true, ℕ, ◌==◌}
use owner_based_ball_game.Results.Page.{SearchResults}

pub data EventType : Type 0 where
  keydown keypress keyup unknown_event : EventType

pub record KeyEvent : Type 0 where
  pub event_type : EventType
  pub key_code : ℕ
  pub shift_key : Bool

abbrev finish : SearchResults → SearchResults × Bool
finish self = (self, not (self.last_key == 0))

process_event : EventType → ℕ → SearchResults → SearchResults × Bool
process_event keydown k self = finish (record self { repeat_on = false; last_key = k })
process_event keypress k self =
    if not self.repeat_on
    then ((if not (self.last_key == 0) then record self { repeat_on = true } else self), false)
    else finish self
process_event keyup k self = finish (record self { last_key = 0; repeat_on = false })
process_event unknown_event k self = finish self

-- The new object, and whether the event is to be acted on.
unfoldable pub process_keys : SearchResults → KeyEvent → SearchResults × Bool
unfolding process_event
process_keys self e = process_event e.event_type e.key_code self

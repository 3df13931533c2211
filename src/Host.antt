-- ===== src/Host.antt =====
-- The functions of the browser that docs/html/search/search.js calls and that are not its own.
use owner_based_ball_game.Base.{All, Bool, if◌then◌else◌, leb, map, ℕ, ◌&&◌, ◌+◌, ◌<◌, ◌≡◌}
use owner_based_ball_game.Text.{Text}

pub record Host : Type 0 where
  -- `s.toLowerCase()`, by the Unicode tables
  pub to_lower_case : Text → Text
  -- the global functions `escape` and `unescape`
  pub escape : Text → Text
  pub unescape : Text → Text
  -- `s > 1`, where the string is first converted to a number
  pub exceeds_one : Text → Bool

abbrev pub IsAscii : ℕ → Type 0
IsAscii c = c < 128

abbrev pub lower_char : ℕ → ℕ
lower_char c = if leb b'A' c && leb c b'Z' then c + 32 else c

-- What the language says of these functions on ASCII.
pub record AsciiHost (host : Host) : Type 0 where
  pub lower_lem : (s : Text) → All IsAscii s → host.to_lower_case s ≡ map lower_char s
  pub unescape_lem : (s : Text) → All IsAscii s → host.unescape (host.escape s) ≡ s

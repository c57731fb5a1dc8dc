-- ===== src/Position/Invariant.antt =====
-- The invariant of a market ledger (kalshi_router/accounting/position.py): the episode that is open
-- accounts for the position, and every closed one is flat.
use kalshi_bet_router.Base.{◌+◌, ◌≤◌, ◌≡◌, ◌≢◌, true, false, Option, none, some, if◌then◌else◌, All}
use kalshi_bet_router.Base.Int.{pos, abs, ltb_ℤ}
use kalshi_bet_router.Decimal.{Decimal}
use kalshi_bet_router.Episode.{Direction, long_yes, long_no, PositionEpisode, is_open}
use kalshi_bet_router.Position.{MarketLedger}

abbrev pub facing : Decimal → Direction
facing position = if ltb_ℤ (pos 0) position then long_yes else long_no

-- An open episode accounts for the position that is held.
pub record Accounts (position : Decimal) (episode : PositionEpisode) : Type 0 where
  pub unclosed : is_open episode ≡ true
  pub held : episode.remaining_quantity ≡ abs position
  pub balanced :
      episode.total_opened_quantity ≡ episode.total_closed_quantity + episode.remaining_quantity
  pub peaked : episode.remaining_quantity ≤ episode.peak_quantity
  pub bounded : episode.peak_quantity ≤ episode.total_opened_quantity
  pub directed : episode.direction ≡ facing position

-- A closed episode has closed all that it opened.
pub record IsFlat (episode : PositionEpisode) : Type 0 where
  pub shut : is_open episode ≡ false
  pub empty : episode.remaining_quantity ≡ 0
  pub even : episode.total_opened_quantity ≡ episode.total_closed_quantity

-- There is an open episode exactly when a position is held.
abbrev pub Current : Decimal → Option PositionEpisode → Type 0
Current position none = position ≡ pos 0
Current position (some episode) = (position ≢ pos 0) × Accounts position episode

pub record IsValid (ledger : MarketLedger) : Type 0 where
  pub current : Current ledger.position ledger.current_episode
  pub past : All IsFlat ledger.closed_episodes

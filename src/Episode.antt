-- ===== src/Episode.antt =====
-- Episodes, transitions and identities (kalshi_router/accounting/position.py, identity.py).
use kalshi_bet_router.Base.{
  ℕ, String, Bool, true, false, Option, none, some, List, [], ◌∷◌, ◌||◌, not, if◌then◌else◌, length,
  is_none, concat, str, identity_not_importable, Result, ok, err,
}
use kalshi_bet_router.Decimal.{Decimal}

pub data TransitionKind : Type 0 where
  opens increases reduces closes reverses settles : TransitionKind

pub data Direction : Type 0 where
  long_yes long_no : Direction

pub data PositionAuthority : Type 0 where
  closed_by_fills explained_settled reconciled_current : PositionAuthority
  unexplained conflicted not_reconciled : PositionAuthority

-- `authority in EARNED_AUTHORITY`
abbrev pub earned : PositionAuthority → Bool
earned closed_by_fills = true
earned explained_settled = true
earned reconciled_current = true
earned _ = false

-- A size in contracts: a `Decimal` that `abs` returned, or a sum of such.
abbrev pub Size : Type 0
Size = ℕ

pub record PositionTransition : Type 0 where
  pub fill_id : String
  pub order_id : Option String
  pub ticker : String
  pub kind : TransitionKind
  pub signed_quantity : Decimal
  pub position_before : Decimal
  pub position_after : Decimal
  pub execution_price : Option Decimal
  pub quantity_opened : Size
  pub quantity_closed : Size
  pub realized_pnl : Option Decimal
  pub fee_dollars : Option Decimal

pub record PositionEpisode : Type 0 where
  pub ticker : String
  pub direction : Direction
  pub opening_fill_id : String
  pub opened_at : Decimal
  pub subaccount_number : Option ℕ
  pub closing_fill_id : Option String
  pub closed_at : Option Decimal
  pub last_activity_at : Option Decimal
  pub remaining_quantity : Size
  pub peak_quantity : Size
  pub total_opened_quantity : Size
  pub total_closed_quantity : Size
  pub average_entry_price : Option Decimal
  pub realized_pnl : Decimal
  pub fees_paid : Decimal
  pub cost_basis_complete : Bool
  pub fee_complete : Bool
  pub fee_allocation_ambiguous : Bool
  pub provable : Bool
  pub outcome_provable : Bool
  pub outcome_bounded_by_settlement_coverage : Bool
  pub settlement_revenue_dollars : Option Decimal
  pub settlement_result : Option String
  pub authority : PositionAuthority
  pub transitions : List PositionTransition
  pub order_ids : List String

abbrev pub is_open : PositionEpisode → Bool
is_open episode = is_none episode.closing_fill_id

abbrev pub authority_is_earned : PositionEpisode → Bool
authority_is_earned episode = earned episode.authority

-- The property `fill_count`, which counts the recorded transitions.
unfoldable pub fill_count : PositionEpisode → ℕ
fill_count episode = length episode.transitions

pub data Identity : Type 0 where
  -- the source key of a stable identity, the debug label of a provisional one
  stable : String → Identity
  provisional : String → Identity

abbrev pub is_importable : Identity → Bool
is_importable (stable key) = true
is_importable (provisional label) = false

-- How an authority is spelled.
abbrev authority_value : PositionAuthority → String
authority_value closed_by_fills = "closed_by_fills"
authority_value explained_settled = "explained_settled"
authority_value reconciled_current = "reconciled_current"
authority_value unexplained = "unexplained"
authority_value conflicted = "conflicted"
authority_value not_reconciled = "not_reconciled"

-- `NAMESPACE`
abbrev pub namespace : String
namespace = "kalshi"

unfoldable pub fill_source_key : String → String
fill_source_key fill_id = concat (namespace ∷ ":fill:" ∷ fill_id ∷ [])

unfoldable pub order_source_key : String → String
order_source_key order_id = concat (namespace ∷ ":order:" ∷ order_id ∷ [])

abbrev account_text : Option ℕ → String
account_text none = "default"
account_text (some subaccount) = str subaccount

unfoldable pub episode_source_key : Option ℕ → String → String → String
episode_source_key subaccount ticker opening_fill_id =
    concat (
      namespace ∷ ":episode:" ∷ account_text subaccount ∷ ":" ∷ ticker ∷ ":" ∷ opening_fill_id ∷ [])

-- The property `PositionEpisode.identity`: stable only if the opening and the position are proven.
unfoldable pub identity : PositionEpisode → Identity
identity episode =
    if not episode.provable || not (authority_is_earned episode)
    then provisional (
        concat (
          "provisional:"
          ∷ episode.ticker
          ∷ ":"
          ∷ episode.opening_fill_id
          ∷ ":"
          ∷ authority_value episode.authority
          ∷ []))
    else stable
        (episode_source_key episode.subaccount_number episode.ticker episode.opening_fill_id)

-- The property `PositionEpisode.source_key`.
abbrev key_of : Identity → Option String
key_of (stable key) = some key
key_of (provisional label) = none

unfoldable pub source_key : PositionEpisode → Option String
source_key episode = key_of (identity episode)

unfoldable pub require_importable_identity : Identity → Result String
require_importable_identity (stable key) = ok key
require_importable_identity (provisional label) = err identity_not_importable

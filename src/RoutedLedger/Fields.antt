-- ===== src/RoutedLedger/Fields.antt =====
-- The fields of the rows of a payload and of the ledger (contract/edge_finder_contract/routed_ledger.py).
use kalshi_bet_router.Base.{String, not, List, [], ◌∷◌, contains, filter}

abbrev pub wager_input_fields : List String
wager_input_fields =
    "source_bet_key" ∷ "import_batch_id" ∷ "entry_method" ∷ "game_date" ∷ "market_ticker" ∷ "side"
    ∷ "executed_at" ∷ "contracts" ∷ "execution_price" ∷ "actual_price" ∷ "stake" ∷ "fees_paid"
    ∷ "fees_are_estimated" ∷ "venue" ∷ "fee_state" ∷ "execution_action" ∷ []

abbrev pub wager_required : List String
wager_required =
    "source_bet_key" ∷ "import_batch_id" ∷ "entry_method" ∷ "game_date" ∷ "market_ticker" ∷ "side"
    ∷ "executed_at" ∷ "contracts" ∷ "stake" ∷ "fees_paid" ∷ "fees_are_estimated" ∷ "venue" ∷ []

abbrev pub wager_canonical_fields : List String
wager_canonical_fields =
    "entry_method" ∷ "game_date" ∷ "market_ticker" ∷ "side" ∷ "executed_at" ∷ "contracts"
    ∷ "execution_price" ∷ "stake" ∷ "fees_paid" ∷ "fees_are_estimated" ∷ "venue" ∷ []

abbrev pub settlement_input_fields : List String
settlement_input_fields =
    "source_bet_key" ∷ "market_ticker" ∷ "side" ∷ "settlement_status" ∷ "settled_at" ∷ "result"
    ∷ "gross_return" ∷ "net_profit_loss" ∷ "refusals" ∷ "venue" ∷ "economics_version" ∷ []

abbrev pub settlement_canonical_fields : List String
settlement_canonical_fields =
    "market_ticker" ∷ "side" ∷ "settlement_status" ∷ "settled_at" ∷ "result" ∷ "gross_return"
    ∷ "net_profit_loss" ∷ "refusals" ∷ "venue" ∷ "economics_version" ∷ []

-- The settlement fields that a row may leave out.
abbrev pub settlement_optional : List String
settlement_optional = "result" ∷ "gross_return" ∷ "net_profit_loss" ∷ "economics_version" ∷ []

-- The fields that a wager keeps as they came; `execution_price` is set after them.
abbrev pub wager_kept_fields : List String
wager_kept_fields =
    filter (λ name. not (contains name ("execution_price" ∷ "actual_price" ∷ [])))
      wager_input_fields

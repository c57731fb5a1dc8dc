-- ===== src/RoutedLedger/Rules.antt =====
-- What a row of the ledger must be (contract/edge_finder_contract/routed_ledger.py). A list of problems is
-- the test whether it is empty; the reasons are texts for a receipt, and left out.
use Prim.Native.Char.{Char, code}
use Prim.Native.String.{[] as empty, ◌∷◌ as before, ◌++◌ as append, slice}
use kalshi_bet_router.Base.{
  String, Bool, true, false, not, ◌&&◌, ◌||◌, Option, none, some, List, [], ◌∷◌, ◌++◌,
  if◌then◌else◌, any, all, contains, concat, is_blank, is_empty, ◌==◌,
}
use kalshi_bet_router.Destinations.{Piece, literal, decimal_digits, fullmatch, starts_with}
use kalshi_bet_router.RoutedLedger.Values.{
  Numbers, Value, null, boolean, number, text, texts, FiledRow, get, is_nonempty, is_text,
  is_number, number_that,
}

pub record LedgerSpec : Type 0 where
  pub id_prefix : String
  pub wager_schema : String
  pub settlement_schema : String

-- `PROVENANCE_FIELDS` and `_PROVENANCE_RE`
abbrev provenance_names : List String
provenance_names =
    "recommendation_id" ∷ "recommendation" ∷ "model_version" ∷ "model_evaluation_id"
    ∷ "model_fair_probability" ∷ "model_probability" ∷ "model_supported" ∷ "p_model"
    ∷ "fair_probability" ∷ "fair_prob" ∷ "edge" ∷ "expected_value" ∷ "ev" ∷ "projection_id"
    ∷ "prediction_id" ∷ "prediction_record_id" ∷ "thesis_id" ∷ "authority" ∷ "confidence" ∷ "kelly"
    ∷ "stake_recommendation" ∷ "gate" ∷ "qualification" ∷ "readiness" ∷ "decision_id" ∷ []

abbrev provenance_prefixes : List String
provenance_prefixes =
    "model_" ∷ "fair_" ∷ "edge_" ∷ "probabilit" ∷ "recommendation" ∷ "prediction_" ∷ "thesis"
    ∷ "authority" ∷ "confidence" ∷ []

unfoldable pub is_provenance : String → Bool
unfolding starts_with
is_provenance name =
    contains name provenance_names || any (λ p. starts_with p name) provenance_prefixes

abbrev date_pieces : List Piece
date_pieces =
    decimal_digits 4 ∷ literal "-" ∷ decimal_digits 2 ∷ literal "-" ∷ decimal_digits 2 ∷ []

abbrev pub is_one_of : {N : Type 0} → Value N → List String → Bool
is_one_of (text s) names = contains s names
is_one_of _ names = false

-- The digest, Python's decimal digits, and `datetime.fromisoformat`: none where it raises `ValueError`, and
-- else whether what it reads has a zone.
pub record Environment : Type 0 where
  pub sha256 : String → String
  pub is_decimal : Char → Bool
  pub fromisoformat : String → Option Bool

-- `v.replace("Z", "+00:00")`
abbrev with_offset : String → String
with_offset empty = empty
with_offset (before c s) =
    let rest = with_offset s in if code c == 90 then append "+00:00" rest else before c rest

-- `"T" in v`
abbrev has_time : String → Bool
has_time empty = false
has_time (before c s) = code c == 84 || has_time s

-- `provenance_fields(row)`, whether there is one.
unfoldable pub provenance_fields : {N : Type 0} → FiledRow N → Bool
unfolding is_provenance
provenance_fields row = any (λ m. is_provenance m.0) row

module _ (env : Environment) where
  -- `_mint(prefix, source_bet_key)`, none where the row is refused.
  unfoldable pub mint : {N : Type 0} → String → Value N → Option String
  mint prefix (text key) =
      if is_blank key then none else some (concat (prefix ∷ "-" ∷ slice (env.sha256 key) 0 24 ∷ []))
  mint prefix _ = none

  unfoldable pub mint_wager_id : {N : Type 0} → LedgerSpec → Value N → Option String
  unfolding mint
  mint_wager_id spec key = mint (concat (spec.id_prefix ∷ "w" ∷ [])) key

  unfoldable pub mint_settlement_id : {N : Type 0} → LedgerSpec → Value N → Option String
  unfolding mint
  mint_settlement_id spec key = mint (concat (spec.id_prefix ∷ "s" ∷ [])) key

  -- A date of four, two and two digits; the `$` of the pattern lets a line end follow.
  unfoldable pub is_date : {N : Type 0} → Value N → Bool
  unfolding fullmatch
  is_date (text s) =
      fullmatch env.is_decimal date_pieces s
      || fullmatch env.is_decimal (date_pieces ++ (literal "\n" ∷ [])) s
  is_date _ = false

  -- `dt.tzinfo is not None`, false where the text is no timestamp.
  abbrev has_zone : Option Bool → Bool
  has_zone none = false
  has_zone (some zoned) = zoned

  -- `_aware_ts(v)`
  unfoldable pub aware_ts : {N : Type 0} → Value N → Bool
  aware_ts (text s) = has_time s && has_zone (env.fromisoformat (with_offset s))
  aware_ts _ = false

  abbrev is_id : {N : Type 0} → Value N → Option String → Bool
  is_id value none = false
  is_id value (some id) = is_text value id

  module _ {N : Type 0} (numbers : Numbers N) (spec : LedgerSpec) where
    abbrev lt : N → N → Bool
    lt x y = numbers.is_less x y

    -- `abs(st - (c * px + fee)) > 1e-6 * max(1.0, st)`, asked only of numbers.
    unfoldable pub is_off : Value N → Value N → Value N → Value N → Bool
    is_off (number c) (number px) (number st) (number fee) =
        let cost = numbers.add (numbers.mul c px) fee in
        (numbers.is_finite c
          && numbers.is_finite px
          && numbers.is_finite st
          && numbers.is_finite fee
          && lt numbers.zero c)
        && lt (numbers.mul numbers.micro (numbers.larger numbers.one st))
            (numbers.magnitude (numbers.sub st cost))
    is_off c px st fee = false

    abbrev pub is_false : Value N → Bool
    is_false (boolean b) = not b
    is_false _ = false

    abbrev is_absent : Value N → Bool
    is_absent null = true
    is_absent _ = false

    -- The tests of `validate_wager`, in its order; each is true where it finds no problem.
    unfoldable pub wager_tests : FiledRow N → List Bool
    unfolding get provenance_fields mint_wager_id is_date aware_ts is_off
    wager_tests rec =
        let key = get rec "source_bet_key" in
        not (provenance_fields rec)
        ∷ is_nonempty (get rec "wager_id")
        ∷ is_nonempty key
        ∷ is_nonempty (get rec "import_batch_id")
        ∷ is_nonempty (get rec "market_ticker")
        ∷ is_nonempty (get rec "game_date")
        ∷ is_nonempty (get rec "executed_at")
        ∷ is_text (get rec "schema_version") spec.wager_schema
        ∷ (not (is_nonempty key) || is_id (get rec "wager_id") (mint_wager_id spec key))
        ∷ is_text (get rec "entry_method") "IMPORTED_RECEIPT"
        ∷ is_one_of (get rec "side") ("YES" ∷ "NO" ∷ [])
        ∷ (not (is_nonempty (get rec "game_date")) || is_date (get rec "game_date"))
        ∷ (not (is_nonempty (get rec "executed_at")) || aware_ts (get rec "executed_at"))
        ∷ number_that numbers (λ x. lt numbers.zero x) (get rec "contracts")
        ∷ number_that numbers (λ x. lt numbers.zero x && lt x numbers.one)
            (get rec "execution_price")
        ∷ number_that numbers (λ x. lt numbers.zero x) (get rec "stake")
        ∷ number_that numbers (λ x. not (lt x numbers.zero)) (get rec "fees_paid")
        ∷ is_false (get rec "fees_are_estimated")
        ∷ is_text (get rec "venue") "kalshi"
        ∷ (is_absent (get rec "execution_action")
            || is_one_of (get rec "execution_action") ("BUY" ∷ "SELL" ∷ []))
        ∷ not (
            is_off (get rec "contracts") (get rec "execution_price") (get rec "stake")
              (get rec "fees_paid"))
        ∷ []

    -- Whether `validate_wager` finds no problem.
    unfoldable pub is_valid_wager : FiledRow N → Bool
    unfolding wager_tests
    is_valid_wager rec = all (λ b. b) (wager_tests rec)

    -- `refusals`, which is read as empty where it is no list of texts.
    abbrev is_texts : Value N → Bool
    is_texts (texts ss) = true
    is_texts _ = false

    abbrev texts_of : Value N → List String
    texts_of (texts ss) = ss
    texts_of _ = []

    abbrev is_amount : Value N → Bool
    is_amount v = is_absent v || is_number numbers v

    abbrev has_money : FiledRow N → Bool
    unfolding get
    has_money rec =
        not (is_absent (get rec "gross_return")) && not (is_absent (get rec "net_profit_loss"))

    -- The tests of `validate_settlement`.
    unfoldable pub settlement_tests : FiledRow N → List Bool
    unfolding get provenance_fields mint_settlement_id aware_ts has_money
    settlement_tests rec =
        let key = get rec "source_bet_key" in
        let refusals = texts_of (get rec "refusals") in
        not (provenance_fields rec)
        ∷ is_nonempty (get rec "settlement_id")
        ∷ is_nonempty key
        ∷ is_nonempty (get rec "market_ticker")
        ∷ is_nonempty (get rec "settled_at")
        ∷ is_text (get rec "schema_version") spec.settlement_schema
        ∷ (not (is_nonempty key) || is_id (get rec "settlement_id") (mint_settlement_id spec key))
        ∷ is_one_of (get rec "side") ("YES" ∷ "NO" ∷ [])
        ∷ is_text (get rec "settlement_status") "SETTLED"
        ∷ (not (is_nonempty (get rec "settled_at")) || aware_ts (get rec "settled_at"))
        ∷ (is_absent (get rec "result") || is_one_of (get rec "result") ("WON" ∷ "LOST" ∷ []))
        ∷ is_text (get rec "economics_version") "router-settlement-economics.v2"
        ∷ is_text (get rec "venue") "kalshi"
        ∷ is_texts (get rec "refusals")
        ∷ is_amount (get rec "gross_return")
        ∷ is_amount (get rec "net_profit_loss")
        ∷ not (number_that numbers (λ x. lt x numbers.zero) (get rec "gross_return"))
        ∷ not (has_money rec && not (is_empty refusals))
        ∷ not (not (has_money rec) && is_empty refusals)
        ∷ []

    unfoldable pub is_valid_settlement : FiledRow N → Bool
    unfolding settlement_tests
    is_valid_settlement rec = all (λ b. b) (settlement_tests rec)

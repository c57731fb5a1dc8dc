-- ===== src/Receipts.antt =====
-- Receipts (kalshi_router/receipts.py): what an importer said of each row, in one shape.
--
-- A row is the object in the importer's JSON. Its members are kept by the type of their values: texts
-- or null, booleans, and the list of conflicting fields.
use kalshi_bet_router.Base.{
  ℕ, zero, suc, String, Bool, true, false, not, Option, none, some, List, [], ◌∷◌, ◌++◌, map,
  if◌then◌else◌, is_some, contains, str_eq,
}

-- An entry of `conflictingFields`: an object with the texts it holds, or a text.
pub data Entry : Type 0 where
  object : List (String × Option String) → Entry
  bare : String → Entry

pub record Row : Type 0 where
  pub texts : List (String × Option String)
  pub booleans : List (String × Bool)
  pub entries : List (String × List Entry)

-- `members.get(key)`
abbrev pub member {ℓ} : {A : Type ℓ} → List (String × A) → String → Option A
member [] key = none
member ((name, v) ∷ rest) key = if str_eq name key then some v else member rest key

-- The same where a value may be null.
abbrev pub text_member : List (String × Option String) → String → Option String
text_member [] key = none
text_member ((name, v) ∷ rest) key = if str_eq name key then v else text_member rest key

-- `bool(text)`
abbrev pub is_truthy : Option String → Bool
is_truthy none = false
is_truthy (some s) = not (str_eq s "")

infixr 25 ◌or_else◌
-- `a or b`
abbrev pub ◌or_else◌ : Option String → Option String → Option String
a or_else b = if is_truthy a then a else b

pub record Receipt : Type 0 where
  pub source_key : Option String
  pub identity : Option String
  pub verdict : Option String
  pub success : Bool
  pub conflicting_fields : List String
  pub reason : Option String

abbrev pub no_judgement_verdicts : List String
no_judgement_verdicts = "NEW" ∷ "DUPLICATE_NOOP" ∷ "CORRECTED" ∷ []

abbrev pub idempotent_rerun_verdicts : List String
idempotent_rerun_verdicts = "DUPLICATE_NOOP" ∷ []

-- `text in set_of_texts`, for a text that may be `None`.
abbrev pub option_in : Option String → List String → Bool
option_in none xs = false
option_in (some s) xs = contains s xs

-- The property `needs_judgement`.
unfoldable pub needs_judgement : Receipt → Bool
needs_judgement receipt = not (option_in receipt.verdict no_judgement_verdicts)

-- `_first`
abbrev pub first_of : List (String × Option String) → List String → Option String
first_of texts [] = none
first_of texts (key ∷ keys) = elim (text_member texts key) [
  | none ↦ first_of texts keys
  | some s ↦ some s
]

-- `row.get("conflictingFields") or row.get("conflicting_fields") or []`
abbrev pub conflicting_of : Row → List Entry
conflicting_of row = elim (member row.entries "conflictingFields") [
  | some (entry ∷ rest) ↦ entry ∷ rest
  | _ ↦ elim (member row.entries "conflicting_fields") [ some found ↦ found | none ↦ [] ]
]

-- The name that an entry gives, if it gives one.
abbrev pub field_of : Entry → Option String
field_of (object texts) = text_member texts "field" or_else text_member texts "name"
field_of (bare s) = some s

abbrev pub fields_of : List Entry → List String
fields_of [] = []
fields_of (entry ∷ rest) = elim (field_of entry) [
  | none ↦ fields_of rest
  | some name ↦ if str_eq name "" then fields_of rest else name ∷ fields_of rest
]

-- `sorted(set(xs))` up to the order, which nothing here depends on: the first of each text is kept.
abbrev pub distinct_texts : List String → List String
distinct_texts [] = []
distinct_texts (x ∷ xs) = let rest = distinct_texts xs in if contains x rest then rest else x ∷ rest

-- `bool(row.get("success", verdict is not None))`
abbrev pub success_of : Row → Option String → Bool
success_of row verdict = elim (member row.booleans "success") [
  | some b ↦ b
  | none ↦ is_some verdict
]

-- `_from_row`
unfoldable pub from_row : Row → Receipt
from_row row =
    let found = first_of row.texts ("duplicateStatus" ∷ "duplicate_status" ∷ "status" ∷ []) in
    record {
      source_key = first_of row.texts ("sourceBetKey" ∷ "source_bet_key" ∷ []);
      identity = first_of row.texts (
          "betId" ∷ "bet_id" ∷ "wager_id" ∷ "wagerId" ∷ "imported_wager_id" ∷ "settlement_id" ∷ []);
      verdict = found;
      success = success_of row found;
      conflicting_fields = distinct_texts (fields_of (conflicting_of row));
      reason = first_of row.texts ("reason" ∷ "refusal" ∷ "error" ∷ []);
    }

-- An item of a list in the payload: an object, or something that is not one.
pub data Item : Type 0 where
  row : Row → Item
  other : Item

-- A refusal of the counts-only shape: an object with its `reason`, or a text.
pub data Refusal : Type 0 where
  reasoned : Option String → Refusal
  stated : String → Refusal

-- What an importer may have written: a list, an object with `rows`, an object of counts, or neither.
pub data Payload : Type 0 where
  row_list : List Item → Payload
  object_with_rows : List Item → Payload
  counts : List String → ℕ → List Refusal → Payload
  unreadable : Payload

unfoldable pub rows_of : List Item → List Receipt
unfolding from_row
rows_of [] = []
rows_of (row r ∷ rest) = from_row r ∷ rows_of rest
rows_of (other ∷ rest) = rows_of rest

abbrev pub written : String → Receipt
written key = record {
  source_key = some key;
  identity = none;
  verdict = some "NEW";
  success = true;
  conflicting_fields = [];
  reason = none;
}

abbrev pub already_present : ℕ → List Receipt
already_present zero = []
already_present (suc n) =
    record {
      source_key = none;
      identity = none;
      verdict = some "DUPLICATE_NOOP";
      success = true;
      conflicting_fields = [];
      reason = none;
    }
    ∷ already_present n

abbrev pub refusal_reason : Refusal → Option String
refusal_reason (reasoned reason) = if is_truthy reason then reason else none
refusal_reason (stated s) = if str_eq s "" then none else some s

abbrev pub refused_row : Refusal → Receipt
refused_row refusal = record {
  source_key = none;
  identity = none;
  verdict = some "REFUSED";
  success = false;
  conflicting_fields = [];
  reason = refusal_reason refusal;
}

-- `normalise`
unfoldable pub normalise : Payload → List Receipt
normalise (row_list items) = rows_of items
normalise (object_with_rows items) = rows_of items
normalise (counts keys already refusals) =
    map written keys ++ already_present already ++ map refused_row refusals
normalise unreadable = []

abbrev pub all_fields : List Receipt → List String
all_fields [] = []
all_fields (receipt ∷ rest) = receipt.conflicting_fields ++ all_fields rest

-- `conflicting_field_names`
unfoldable pub conflicting_field_names : List Receipt → List String
conflicting_field_names receipts = distinct_texts (all_fields receipts)

-- ===== src/RoutedLedger/Values.antt =====
-- The values of a row of the ledger (contract/edge_finder_contract/routed_ledger.py).
--
-- A number is an `int` or a `float` of Python, with the operations that the code makes on it; a value that
-- is an array of other things than texts, or an object, is kept as its canonical text.
use kalshi_bet_router.Base.{
  String, Bool, true, false, not, ◌&&◌, List, [], ◌∷◌, if◌then◌else◌, is_blank, str_eq, filter,
}

-- The numbers and their arithmetic. `nano` is 1e-9 and `micro` is 1e-6; `is_finite x` is
-- `math.isfinite(float(x))`.
pub record Numbers (N : Type 0) : Type 0 where
  pub zero : N
  pub one : N
  pub nano : N
  pub micro : N
  pub float : N → N
  pub add : N → N → N
  pub sub : N → N → N
  pub mul : N → N → N
  pub larger : N → N → N
  pub magnitude : N → N
  pub is_less : N → N → Bool
  pub equals : N → N → Bool
  pub is_finite : N → Bool

pub data Value (N : Type 0) : Type 0 where
  null : Value N
  boolean : Bool → Value N
  number : N → Value N
  text : String → Value N
  texts : List String → Value N
  compound : String → Value N

-- An object, with each key once.
abbrev pub FiledRow : Type 0 → Type 0
FiledRow N = List (String × Value N)

module _ {N : Type 0} where
  -- `row.get(name)` and `name in row`
  unfoldable pub get : FiledRow N → String → Value N
  get [] name = null
  get ((key, value) ∷ rest) name = if str_eq key name then value else get rest name

  unfoldable pub has : FiledRow N → String → Bool
  has [] name = false
  has ((key, value) ∷ rest) name = if str_eq key name then true else has rest name

  -- `_nonempty(v)`
  abbrev pub is_nonempty : Value N → Bool
  is_nonempty (text s) = not (is_blank s)
  is_nonempty _ = false

  -- `v == s` for a text `s`
  abbrev pub is_text : Value N → String → Bool
  is_text (text t) s = str_eq t s
  is_text _ s = false

  -- The text that a value is; the code asks for it only of one.
  abbrev pub text_of : Value N → String
  text_of (text s) = s
  text_of _ = ""

abbrev bools_eq : Bool → Bool → Bool
bools_eq true b = b
bools_eq false b = not b

unfoldable pub all_eq : List String → List String → Bool
all_eq [] [] = true
all_eq (s ∷ ss) (t ∷ ts) = str_eq s t && all_eq ss ts
all_eq _ _ = false

module _ {N : Type 0} (numbers : Numbers N) where
  -- A Boolean is the number 0 or 1 where it is compared with one.
  abbrev as_number : Bool → N
  as_number b = if b then numbers.one else numbers.zero

  -- `a == b`
  unfoldable pub equal_values : Value N → Value N → Bool
  unfolding all_eq
  equal_values null null = true
  equal_values (boolean a) (boolean b) = bools_eq a b
  equal_values (boolean a) (number y) = numbers.equals (as_number a) y
  equal_values (number x) (boolean b) = numbers.equals x (as_number b)
  equal_values (number x) (number y) = numbers.equals x y
  equal_values (text s) (text t) = str_eq s t
  equal_values (texts ss) (texts ts) = all_eq ss ts
  equal_values (compound s) (compound t) = str_eq s t
  equal_values _ _ = false

  -- `_is_number(v)`
  abbrev pub is_number : Value N → Bool
  is_number (number x) = numbers.is_finite x
  is_number _ = false

  -- A comparison of a number with others, false where the value is none.
  abbrev pub number_that : (N → Bool) → Value N → Bool
  number_that holds (number x) = numbers.is_finite x && holds x
  number_that holds _ = false

  abbrev pub numbers_differ : N → N → Bool
  numbers_differ x y =
      numbers.is_less numbers.nano
        (numbers.magnitude (numbers.sub (numbers.float x) (numbers.float y)))

  -- `_differs(a, b)`
  unfoldable pub differs : Value N → Value N → Bool
  unfolding equal_values
  differs (number x) (number y) =
      if numbers.is_finite x && numbers.is_finite y
      then numbers_differ x y
      else not (equal_values (number x) (number y))
  differs a b = not (equal_values a b)

  -- `conflicting_fields(existing, incoming, fields)`
  unfoldable pub conflicting_fields : FiledRow N → FiledRow N → List String → List String
  unfolding differs get
  conflicting_fields existing incoming fields =
      filter (λ name. differs (get existing name) (get incoming name)) fields

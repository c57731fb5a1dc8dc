-- ===== src/Production/Keys.antt =====
-- The source key of an order (kalshi_router/production.py): a digest of four fields, each one behind
-- its own length. The digest is `hashlib.sha256(…).hexdigest()` of the text in UTF-8, a parameter here.
-- `Decoding` reads the fields back, `Identity` is about the orders that share a key.
pub mod Decoding
pub mod Identity
use Prim.Native.String.{len}
use kalshi_bet_router.Base.{
  ℕ, String, ◌||◌, Option, none, some, List, [], ◌∷◌, if◌then◌else◌, str, str_eq, concat, Result,
  ok, err, value_error,
}

-- `SOURCE_KEY_VERSION` and `_DIGEST_DOMAIN`
abbrev pub source_key_version : String
source_key_version = "kalshi:v1"

abbrev pub digest_domain : String
digest_domain = "kalshi-bet-router/source-key/v1"

-- `f"{len(field.encode('utf-8'))}:{field}"`; the library's `len` counts the bytes in UTF-8.
abbrev pub length_prefixed : String → String
length_prefixed field = concat (str (len field) ∷ ":" ∷ field ∷ [])

abbrev pub join_fields : List String → String
join_fields [] = ""
join_fields (field ∷ fields) = concat (length_prefixed field ∷ join_fields fields ∷ [])

abbrev pub account_name : Option ℕ → String
account_name none = "default"
account_name (some number) = str number

unfoldable pub key_material : Option ℕ → String → String → String
key_material subaccount ticker order_id =
    join_fields (digest_domain ∷ account_name subaccount ∷ ticker ∷ order_id ∷ [])

module _ (sha256 : String → String) where
  unfoldable pub production_source_key : Option ℕ → String → String → Result String
  unfolding key_material
  production_source_key subaccount ticker order_id =
      if str_eq ticker "" || str_eq order_id ""
      then err value_error
      else ok (
          concat (source_key_version ∷ ":" ∷ sha256 (key_material subaccount ticker order_id) ∷ []))

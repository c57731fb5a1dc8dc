-- ===== src/Production/Keys/Identity.antt =====
-- Which orders can share a source key (kalshi_router/production.py).
use Prim.Native.String.{◌++◌ as append}
use text.Mathlib.TextLemmas.{append_cancel_left, append-nil}
use kalshi_bet_router.Base.{
  ℕ, String, Bool, true, false, ◌||◌, Bool-cases, Option, [], ◌∷◌, ◌≡◌, ◌≢◌, ◌⊎◌, ◌↔◌, inl, inr,
  refl, sym, ◌∙◌, if◌then◌else◌, str_eq, str_eq_iff, concat, ok, err, value_error, arith,
}
use kalshi_bet_router.Production.Keys.{key_material, production_source_key}
use kalshi_bet_router.Production.Keys.Decoding.{key_material_inj}

abbrev pub Order : Type 0
Order = Option ℕ × String × String

abbrev material : Order → String
material order = key_material order.0 order.1 order.2

text_cases : (s t : String) → (s ≡ t) ⊎ (s ≢ t)
text_cases s t = elim (Bool-cases (str_eq s t)) [
  | inl e ↦ inl ((str_eq_iff s t).0 e)
  | inr e ↦ inr (λ same. ground (arith, e, (str_eq_iff s t).1 same))
]

-- A key that was made carries the digest of its material.
key-digest :
    (sha256 : String → String) (order : Order) (key : String)
    → production_source_key sha256 order.0 order.1 order.2 ≡ ok key
    → append "kalshi:v1" (append ":" (append (sha256 (material order)) "")) ≡ key
unfolding production_source_key
key-digest sha256 order key h = go (str_eq order.1 "" || str_eq order.2 "") h
  where
    go :
        (nameless : Bool)
        → (if nameless
            then err value_error
            else ok (concat ("kalshi:v1" ∷ ":" ∷ sha256 (material order) ∷ [])))
          ≡ ok key
        → append "kalshi:v1" (append ":" (append (sha256 (material order)) "")) ≡ key
    go true k = ground arith
    go false k = ground arith

-- Two orders with the same source key are the same order (subaccount, ticker and order id), or the
-- digests of two different texts agree, namely of the two materials.
pub production_source_key-identifies :
    (sha256 : String → String) (a b : Order) (key : String)
    → production_source_key sha256 a.0 a.1 a.2 ≡ ok key
    → production_source_key sha256 b.0 b.1 b.2 ≡ ok key
    → (a ≡ b)
      ⊎ ((key_material a.0 a.1 a.2 ≢ key_material b.0 b.1 b.2)
          × (sha256 (key_material a.0 a.1 a.2) ≡ sha256 (key_material b.0 b.1 b.2)))
production_source_key-identifies sha256 a b key h k = elim (text_cases (material a) (material b)) [
  | inl e ↦ inl (key_material_inj a b e)
  | inr e ↦ inr (e, digests)
]
  where
    digests : sha256 (material a) ≡ sha256 (material b)
    digests =
        sym (append-nil (sha256 (material a)))
        ∙ append_cancel_left ":" (append (sha256 (material a)) "") (append (sha256 (material b)) "")
            (append_cancel_left "kalshi:v1" (append ":" (append (sha256 (material a)) ""))
              (append ":" (append (sha256 (material b)) ""))
              (key-digest sha256 a key h ∙ sym (key-digest sha256 b key k)))
        ∙ append-nil (sha256 (material b))

-- The key is made exactly for an order with a market and an id; a text is empty or it is not.
pub production_source_key-total :
    (sha256 : String → String) (subaccount : Option ℕ) (ticker order_id : String)
    → ((key : String) × (production_source_key sha256 subaccount ticker order_id ≡ ok key)
        × (ticker ≢ "")
        × (order_id ≢ ""))
      ⊎ ((production_source_key sha256 subaccount ticker order_id ≡ err value_error)
          × ((ticker ≡ "") ⊎ (order_id ≡ "")))
unfolding production_source_key
production_source_key-total sha256 subaccount ticker order_id =
    go (str_eq ticker "") (str_eq order_id "") (str_eq_iff ticker "") (str_eq_iff order_id "")
  where
    key : String
    key = concat ("kalshi:v1" ∷ ":" ∷ sha256 (key_material subaccount ticker order_id) ∷ [])

    go :
        (no_ticker no_id : Bool)
        → ((no_ticker ≡ true) ↔ (ticker ≡ ""))
        → ((no_id ≡ true) ↔ (order_id ≡ ""))
        → ((k : String) × ((if no_ticker || no_id then err value_error else ok key) ≡ ok k)
            × (ticker ≢ "")
            × (order_id ≢ ""))
          ⊎ (((if no_ticker || no_id then err value_error else ok key) ≡ err value_error)
              × ((ticker ≡ "") ⊎ (order_id ≡ "")))
    go true no_id t o = inr (refl, inl (t.0 refl))
    go false true t o = inr (refl, inr (o.0 refl))
    go false false t o = inl (key, refl, (λ e. ground (arith, t.1 e)), (λ e. ground (arith, o.1 e)))

-- ===== src/RoutedLedger/Extended.antt =====
-- A file with more rows starts with what it was (contract/edge_finder_contract/routed_ledger.py).
use Prim.Native.Char.{Char, code}
use Prim.Native.String
use Prim.Native.String.{[] as empty, ◌∷◌ as before, ◌++◌ as append}
use text.Mathlib.TextLemmas.{append_assoc}
use kalshi_bet_router.Base.{
  String, Bool, true, Option, none, some, List, [], ◌∷◌, ◌++◌, ◌≡◌, refl, sym, ap, ◌∙◌, map,
  if◌then◌else◌, concat, is_some, ◌==◌, arith,
}
use kalshi_bet_router.Destinations.{strip_prefix, starts_with}
use kalshi_bet_router.RoutedLedger.Values.{FiledRow}
use kalshi_bet_router.RoutedLedger.Imports.{prior_of, or_here}
use kalshi_bet_router.RoutedLedger.Whole.{is_append_only}
use kalshi_bet_router.RoutedLedger.Texts.{file_text}

same_code : (c : Char) → (code c == code c) ≡ true
same_code c = ground arith

strip-append : (p s : String) → strip_prefix p (append p s) ≡ some s
unfolding strip_prefix
strip-append empty s = ap some (String.append.nil s)
strip-append (before c p) s =
    ap (strip_prefix (before c p)) (String.append.cons c p s)
    ∙ ap (λ b. if b then strip_prefix p (append p s) else none) (same_code c)
    ∙ strip-append p s

-- A text with more at its end still starts with what it was.
pub append-is_append_only : (p s : String) → is_append_only (some p) (append p s) ≡ true
unfolding is_append_only starts_with
append-is_append_only p s = ap is_some (strip-append p s)

module _ {N : Type 0} where
  pub file_text-append :
      (line : FiledRow N → String) (xs ys : List (FiledRow N))
      → file_text line (xs ++ ys) ≡ append (file_text line xs) (file_text line ys)
  unfolding file_text
  file_text-append line [] ys = sym (String.append.nil (concat (map line ys)))
  file_text-append line (x ∷ xs) ys =
      ap (append (line x)) (file_text-append line xs ys)
      ∙ sym (append_assoc (line x) (concat (map line xs)) (concat (map line ys)))

  -- A key that is on file stays on file.
  pub still_on_file :
      (k : String) (xs ys : List (FiledRow N))
      → is_some (prior_of k xs) ≡ true
      → is_some (prior_of k (xs ++ ys)) ≡ true
  unfolding prior_of
  still_on_file k [] ys h = ground (arith, h)
  still_on_file k (x ∷ xs) ys h =
      go (prior_of k xs) (prior_of k (xs ++ ys)) _ (still_on_file k xs ys) h
    where
      go :
          (o p : Option (FiledRow N)) (here : Bool)
          → (is_some o ≡ true → is_some p ≡ true)
          → is_some (or_here o here x) ≡ true
          → is_some (or_here p here x) ≡ true
      go o (some p) here ih f = refl
      go (some o) none here ih f = ground (arith, ih refl)
      go none none here ih f = f

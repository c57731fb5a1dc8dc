-- ===== src/RoutedLedger/Sound.antt =====
-- A file of fit rows passes the check (contract/edge_finder_contract/routed_ledger.py).
use kalshi_bet_router.Base.{
  String, Bool, Bool-cases, inl, inr, true, false, not, ◌&&◌, ◌||◌, Option, none, some, List, [],
  ◌∷◌, ◌≡◌, refl, sym, ap, ◌∙◌, any, All, str_eq, str_eq_iff, is_some, arith,
}
use kalshi_bet_router.RoutedLedger.Values.{
  Numbers, Value, text, FiledRow, get, text_of, equal_values,
}
use kalshi_bet_router.RoutedLedger.Imports.{unknown_fields, prior_of, or_here}
use kalshi_bet_router.RoutedLedger.Whole.{sound_rows, no_orphans}
use kalshi_bet_router.RoutedLedger.Keyed.{str_eq_sym, key, NoRepeat, absent}
use kalshi_bet_router.RoutedLedger.Built.{HasKey}

str_eq_comm : (s t : String) → str_eq s t ≡ str_eq t s
str_eq_comm s t = elim (Bool-cases (str_eq s t)) [
  | inl e ↦ e ∙ sym ((str_eq_iff t s).1 (sym ((str_eq_iff s t).0 e)))
  | inr e ↦ e ∙ sym (str_eq_sym s t e)
]

module _ {N : Type 0} (numbers : Numbers N) where
  -- Keys that are texts and that no row has.
  abbrev Unseen : List (FiledRow N) → List (Value N) → Type 0
  Unseen rows keys = All (λ v. (v ≡ text (text_of v)) × (prior_of (text_of v) rows ≡ none)) keys

  not_seen :
      (row : FiledRow N) (rows : List (FiledRow N)) (keys : List (Value N))
      → HasKey row
      → Unseen (row ∷ rows) keys
      → any (λ seen. equal_values numbers (get row "source_bet_key") seen) keys ≡ false
  unfolding equal_values
  not_seen row rows [] h u = refl
  not_seen row rows (v ∷ keys) h u =
      let gone = absent (text_of v) row rows u.0.1 in
      ap
        (λ w.
          equal_values numbers (get row "source_bet_key") w
          || any (λ seen. equal_values numbers (get row "source_bet_key") seen) keys)
        u.0.0
      ∙ ap
          (λ w.
            equal_values numbers w (text (text_of v))
            || any (λ seen. equal_values numbers (get row "source_bet_key") seen) keys)
          h
      ∙ ap (λ b. b || any (λ seen. equal_values numbers (get row "source_bet_key") seen) keys)
          gone.1
      ∙ not_seen row rows keys h u.1

  still-Unseen :
      (row : FiledRow N) (rows : List (FiledRow N)) (keys : List (Value N))
      → Unseen (row ∷ rows) keys
      → Unseen rows keys
  still-Unseen row rows [] u = tt
  still-Unseen row rows (v ∷ keys) u =
      ((u.0.0, (absent (text_of v) row rows u.0.1).0), still-Unseen row rows keys u.1)

  -- A row that is valid and known, under a text.
  abbrev pub IsFit : (FiledRow N → Bool) → List String → FiledRow N → Type 0
  IsFit is_valid fields row =
      (is_valid row ≡ true) × (unknown_fields fields row ≡ false) × HasKey row

  pub sound_rows-true :
      (is_valid : FiledRow N → Bool) (fields : List String) (keys : List (Value N))
      (rows : List (FiledRow N))
      → All (IsFit is_valid fields) rows
      → NoRepeat rows
      → Unseen rows keys
      → sound_rows numbers is_valid fields keys rows ≡ true
  unfolding sound_rows
  sound_rows-true is_valid fields keys [] fit unrepeated u = refl
  sound_rows-true is_valid fields keys (row ∷ rows) fit unrepeated u =
      four (is_valid row) (unknown_fields fields row)
        (any (λ seen. equal_values numbers (get row "source_bet_key") seen) keys)
        (sound_rows numbers is_valid fields (get row "source_bet_key" ∷ keys) rows) fit.0.0 fit.0.1
        (not_seen row rows keys fit.0.2 u)
        (sound_rows-true is_valid fields (get row "source_bet_key" ∷ keys) rows fit.1 unrepeated.1
          ((fit.0.2, unrepeated.0), still-Unseen row rows keys u))
    where
      four :
          (a b c d : Bool)
          → a ≡ true
          → b ≡ false
          → c ≡ false
          → d ≡ true
          → a && (not b && (not c && d)) ≡ true
      four a b c d p q r s = ground (arith, p, q, r, s)

  -- A file that holds a row under a key has a row with that key.
  found_key :
      (k : String) (rows : List (FiledRow N))
      → All HasKey rows
      → is_some (prior_of k rows) ≡ true
      → any (λ w. equal_values numbers (text k) (get w "source_bet_key")) rows ≡ true
  unfolding prior_of equal_values
  found_key k [] h found = ground (arith, found)
  found_key k (row ∷ rows) h found =
      ap
        (λ v.
          equal_values numbers (text k) v
          || any (λ w. equal_values numbers (text k) (get w "source_bet_key")) rows)
        h.0
      ∙ go (prior_of k rows) (str_eq (key row) k) (str_eq k (key row)) (str_eq_comm k (key row))
          (found_key k rows h.1) found
    where
      go :
          (o : Option (FiledRow N)) (here there : Bool)
          → there ≡ here
          → (is_some o ≡ true
              → any (λ w. equal_values numbers (text k) (get w "source_bet_key")) rows ≡ true)
          → is_some (or_here o here row) ≡ true
          → there || any (λ w. equal_values numbers (text k) (get w "source_bet_key")) rows ≡ true
      go (some later) here there e ih f = ground (arith, ih refl)
      go none true there e ih f = ground (arith, e)
      go none false there e ih f = ground (arith, f)

  pub no_orphans-true :
      (wagers settlements : List (FiledRow N))
      → All HasKey wagers
      → All (λ s. HasKey s × (is_some (prior_of (key s) wagers) ≡ true)) settlements
      → no_orphans numbers wagers settlements ≡ true
  unfolding no_orphans
  no_orphans-true wagers [] w s = refl
  no_orphans-true wagers (row ∷ settlements) w s =
      ap (λ b. b && no_orphans numbers wagers settlements)
        (ap (λ v. any (λ w. equal_values numbers v (get w "source_bet_key")) wagers) s.0.0
          ∙ found_key (key row) wagers w s.0.1)
      ∙ no_orphans-true wagers settlements w s.1

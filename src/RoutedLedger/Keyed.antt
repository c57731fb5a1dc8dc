-- ===== src/RoutedLedger/Keyed.antt =====
-- The row that a file holds under a key (contract/edge_finder_contract/routed_ledger.py).
use kalshi_bet_router.Base.{
  String, Bool, true, false, Bool-cases, Option, none, some, List, [], ◌∷◌, ◌++◌, ◌≡◌, inl, inr,
  refl, sym, ap, ◌∙◌, if◌then◌else◌, str_eq, str_eq_iff, str_eq_refl, arith,
}
use kalshi_bet_router.RoutedLedger.Values.{FiledRow, get, text_of}
use kalshi_bet_router.RoutedLedger.Imports.{or_here, prior_of}

pub str_eq_sym : (s t : String) → str_eq s t ≡ false → str_eq t s ≡ false
str_eq_sym s t h = elim (Bool-cases (str_eq t s)) [
  | inl e ↦ ground (arith, h, (str_eq_iff s t).1 (sym ((str_eq_iff t s).0 e)))
  | inr e ↦ e
]

module _ {N : Type 0} where
  abbrev pub key : FiledRow N → String
  key row = text_of (get row "source_bet_key")

  -- A row at the end of the file hides the others of its key.
  pub prior-append :
      (k : String) (rows : List (FiledRow N)) (r : FiledRow N)
      → prior_of k (rows ++ (r ∷ [])) ≡ (if str_eq (key r) k then some r else prior_of k rows)
  unfolding prior_of
  prior-append k [] r = refl
  prior-append k (x ∷ rows) r =
      ap (λ o. or_here o (str_eq (key x) k) x) (prior-append k rows r) ∙ go (str_eq (key r) k)
    where
      go :
          (last : Bool)
          → or_here (if last then some r else prior_of k rows) (str_eq (key x) k) x
            ≡ (if last then some r else or_here (prior_of k rows) (str_eq (key x) k) x)
      go true = refl
      go false = refl

  -- No two rows of a file have one key.
  abbrev pub NoRepeat : List (FiledRow N) → Type 0
  NoRepeat [] = Unit
  NoRepeat (row ∷ rows) = (prior_of (key row) rows ≡ none) × NoRepeat rows

  -- A key that no row has is not that of the first, nor of a later one.
  pub absent :
      (k : String) (x : FiledRow N) (rows : List (FiledRow N))
      → prior_of k (x ∷ rows) ≡ none
      → (prior_of k rows ≡ none) × (str_eq (key x) k ≡ false)
  unfolding prior_of
  absent k x rows h = go (prior_of k rows) (str_eq (key x) k) h
    where
      go :
          (o : Option (FiledRow N)) (here : Bool)
          → or_here o here x ≡ none
          → (o ≡ none) × (here ≡ false)
      go none true e = ground (arith, e)
      go none false e = (refl, refl)
      go (some later) here e = ground (arith, e)

  pub NoRepeat-append :
      (rows : List (FiledRow N)) (r : FiledRow N)
      → NoRepeat rows
      → prior_of (key r) rows ≡ none
      → NoRepeat (rows ++ (r ∷ []))
  unfolding prior_of
  NoRepeat-append [] r h k = (refl, tt)
  NoRepeat-append (x ∷ rows) r h k =
      let gone = absent (key r) x rows k in
      (
        prior-append (key x) rows r
            ∙ ap (λ b. if b then some r else prior_of (key x) rows)
                (str_eq_sym (key x) (key r) gone.1)
            ∙ h.0,
        NoRepeat-append rows r h.1 gone.0,
      )

  -- What a file holds under a key stays when a row of another key is added.
  pub prior-stays :
      (k : String) (rows : List (FiledRow N)) (r p : FiledRow N)
      → prior_of (key r) rows ≡ none
      → prior_of k rows ≡ some p
      → prior_of k (rows ++ (r ∷ [])) ≡ some p
  prior-stays k rows r p h found = prior-append k rows r ∙ go (str_eq (key r) k) refl
    where
      go :
          (same_key : Bool)
          → str_eq (key r) k ≡ same_key
          → (if same_key then some r else prior_of k rows) ≡ some p
      go true e =
          ground (arith, sym h ∙ ap (λ j. prior_of j rows) ((str_eq_iff (key r) k).0 e) ∙ found)
      go false e = found

  -- The row that was added is found under its key.
  pub prior-added :
      (rows : List (FiledRow N)) (r : FiledRow N) → prior_of (key r) (rows ++ (r ∷ [])) ≡ some r
  prior-added rows r =
      prior-append (key r) rows r
      ∙ ap (λ b. if b then some r else prior_of (key r) rows) (str_eq_refl (key r))

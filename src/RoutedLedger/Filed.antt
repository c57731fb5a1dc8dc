-- ===== src/RoutedLedger/Filed.antt =====
-- What the loop of the importers keeps (contract/edge_finder_contract/routed_ledger.py).
use mathlib.Core.List.{append-nil, append_assoc}
use kalshi_bet_router.Base.{
  ℕ, suc, ◌+◌, String, Option, none, some, List, [], ◌∷◌, ◌++◌, ◌≡◌, refl, sym, subst, ap, ◌∙◌, All,
  All-append, length, length-append, arith,
}
use kalshi_bet_router.RoutedLedger.Values.{Numbers, FiledRow, conflicting_fields}
use kalshi_bet_router.RoutedLedger.Imports.{
  Progress, prior_of, entry_key, judge, file_record, import_built, import_rows, started,
}
use kalshi_bet_router.RoutedLedger.Keyed.{key, NoRepeat, NoRepeat-append}

-- After `n` entries: the file has the rows it had and those added, each of which has the property and a key
-- of its own; every entry has its receipt and is counted once.
pub record IsGrown {N : Type 0} (P : FiledRow N → Type 0) (start : List (FiledRow N)) (n : ℕ)
    (st : Progress N) : Type 0 where
  pub grown : st.on_file ≡ start ++ st.added
  pub each : All P st.on_file
  pub unrepeated : NoRepeat st.on_file
  pub written_rows : st.result.written ≡ length st.added
  pub counted : st.result.written + st.result.duplicate + st.result.refused_rows ≡ n
  pub receipted : length st.result.rows ≡ n

judge-IsGrown :
    {N : Type 0} (P : FiledRow N → Type 0) (start : List (FiledRow N)) (i n : ℕ)
    (k id : Option String) (fields : List String) (st : Progress N)
    → IsGrown P start n st
    → IsGrown P start (suc n) (judge i k id fields st)
unfolding judge
judge-IsGrown P start i n k id [] st g = record {
  grown = g.grown;
  each = g.each;
  unrepeated = g.unrepeated;
  written_rows = g.written_rows;
  counted = omega (arith, g.counted);
  receipted = omega (arith, g.receipted, length-append st.result.rows (_ ∷ []));
}
judge-IsGrown P start i n k id (field ∷ fields) st g = record {
  grown = g.grown;
  each = g.each;
  unrepeated = g.unrepeated;
  written_rows = g.written_rows;
  counted = omega (arith, g.counted);
  receipted = omega (arith, g.receipted, length-append st.result.rows (_ ∷ []));
}

module _ {N : Type 0} (numbers : Numbers N) (id_field : String) (canonical : List String)
    (P : FiledRow N → Type 0) (start : List (FiledRow N)) where
  file-IsGrown :
      (i n : ℕ) (k : Option String) (rec : FiledRow N) (st : Progress N)
      (prior : Option (FiledRow N))
      → P rec
      → prior_of (key rec) st.on_file ≡ prior
      → IsGrown P start n st
      → IsGrown P start (suc n) (file_record numbers id_field canonical i k rec prior st)
  unfolding file_record
  file-IsGrown i n k rec st none p found g = record {
    grown = ap (λ rows. rows ++ (rec ∷ [])) g.grown ∙ append_assoc start st.added (rec ∷ []);
    each = All-append P st.on_file (rec ∷ []) g.each (p, tt);
    unrepeated = NoRepeat-append st.on_file rec g.unrepeated found;
    written_rows = omega (arith, g.written_rows, length-append st.added (rec ∷ []));
    counted = omega (arith, g.counted);
    receipted = omega (arith, g.receipted, length-append st.result.rows (_ ∷ []));
  }
  file-IsGrown i n k rec st (some prior) p found g =
      judge-IsGrown P start i n k _ (conflicting_fields numbers prior rec canonical) st g

  built-IsGrown :
      (i n : ℕ) (k : Option String) (built : Option (FiledRow N)) (st : Progress N)
      → ((rec : FiledRow N) → built ≡ some rec → P rec)
      → IsGrown P start n st
      → IsGrown P start (suc n) (import_built numbers id_field canonical i k built st)
  unfolding import_built
  built-IsGrown i n k none st p g = record {
    grown = g.grown;
    each = g.each;
    unrepeated = g.unrepeated;
    written_rows = g.written_rows;
    counted = omega (arith, g.counted);
    receipted = omega (arith, g.receipted, length-append st.result.rows (_ ∷ []));
  }
  built-IsGrown i n k (some rec) st p g =
      file-IsGrown i n k rec st (prior_of (key rec) st.on_file) (p rec refl) refl g

  rows-IsGrown :
      (build : Option (FiledRow N) → Option (FiledRow N))
      → (rows : List (Option (FiledRow N)))
      → All (λ row. (rec : FiledRow N) → build row ≡ some rec → P rec) rows
      → (i n : ℕ) (st : Progress N) → IsGrown P start n st
      → IsGrown P start (n + length rows) (import_rows numbers id_field canonical build i rows st)
  unfolding import_rows
  rows-IsGrown build [] p i n st g = subst (λ m. IsGrown P start m st) (omega arith) g
  rows-IsGrown build (row ∷ rows) p i n st g =
      subst
        (λ m. IsGrown P start m (
          import_rows numbers id_field canonical build (suc i) rows
            (import_built numbers id_field canonical i (entry_key row) (build row) st)))
        (omega arith)
        (rows-IsGrown build rows p.1 (suc i) (suc n) _
          (built-IsGrown i n (entry_key row) (build row) st p.0 g))

  -- A whole import into a file whose rows have the property.
  pub import-IsGrown :
      (build : Option (FiledRow N) → Option (FiledRow N))
      → (rows : List (Option (FiledRow N)))
      → All (λ row. (rec : FiledRow N) → build row ≡ some rec → P rec) rows
      → All P start
      → NoRepeat start
      → IsGrown P start
          (length rows)
          (import_rows numbers id_field canonical build 0 rows (started start))
  import-IsGrown build rows p each unrepeated =
      subst
        (λ m.
          IsGrown P start m (import_rows numbers id_field canonical build 0 rows (started start)))
        (omega arith)
        (rows-IsGrown build rows p 0 0 _ (record {
          grown = sym (append-nil start);
          each = each;
          unrepeated = unrepeated;
          written_rows = refl;
          counted = refl;
          receipted = refl;
        }))

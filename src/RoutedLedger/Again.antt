-- ===== src/RoutedLedger/Again.antt =====
-- A payload that is imported again writes nothing (contract/edge_finder_contract/routed_ledger.py).
use kalshi_bet_router.Base.{
  ℕ, suc, ◌+◌, String, Option, none, some, List, [], ◌∷◌, ◌≡◌, refl, sym, subst, ap, ◌∙◌, arith,
}
use kalshi_bet_router.RoutedLedger.Values.{Numbers, FiledRow, get, text_of, conflicting_fields}
use kalshi_bet_router.RoutedLedger.Imports.{
  Progress, prior_of, entry_key, judge, file_record, import_built, import_rows,
}
use kalshi_bet_router.RoutedLedger.Keyed.{key, prior-stays, prior-added}

-- The second run leaves the file alone, and refuses as much as the first.
abbrev pub Repeats : {N : Type 0} → Progress N → Progress N → Progress N → Progress N → Type 0
Repeats before after again done =
    (done.added ≡ again.added)
    × (done.on_file ≡ again.on_file)
    × (done.result.written ≡ again.result.written)
    × (done.result.refused_rows + before.result.refused_rows
        ≡ after.result.refused_rows + again.result.refused_rows)

judge-on_file :
    {N : Type 0} (i : ℕ) (k id : Option String) (fields : List String) (st : Progress N)
    → (judge i k id fields st).on_file ≡ st.on_file
unfolding judge
judge-on_file i k id [] st = refl
judge-on_file i k id (field ∷ fields) st = refl

judge-Repeats :
    {N : Type 0} (i j : ℕ) (k id : Option String) (fields : List String) (st again : Progress N)
    → Repeats st (judge i k id fields st) again (judge j k id fields again)
unfolding judge
judge-Repeats i j k id [] st again = (refl, refl, refl, omega arith)
judge-Repeats i j k id (field ∷ fields) st again = (refl, refl, refl, omega arith)

module _ {N : Type 0} (numbers : Numbers N) (id_field : String) (canonical : List String) where
  abbrev file : ℕ → Option String → FiledRow N → Option (FiledRow N) → Progress N → Progress N
  file = file_record numbers id_field canonical

  -- A row on file under a key stays there.
  file-stays :
      (i : ℕ) (k : Option String) (rec : FiledRow N) (st : Progress N) (prior : Option (FiledRow N))
      (name : String) (p : FiledRow N)
      → prior_of (key rec) st.on_file ≡ prior
      → prior_of name st.on_file ≡ some p
      → prior_of name (file i k rec prior st).on_file ≡ some p
  unfolding file_record
  file-stays i k rec st none name p e h = prior-stays name st.on_file rec p e h
  file-stays i k rec st (some prior) name p e h =
      ap (prior_of name) (
        judge-on_file i k (some (text_of (get rec id_field)))
          (conflicting_fields numbers prior rec canonical) st)
      ∙ h

  built-stays :
      (i : ℕ) (k : Option String) (built : Option (FiledRow N)) (st : Progress N) (name : String)
      (p : FiledRow N)
      → prior_of name st.on_file ≡ some p
      → prior_of name (import_built numbers id_field canonical i k built st).on_file ≡ some p
  unfolding import_built
  built-stays i k none st name p h = h
  built-stays i k (some rec) st name p h =
      file-stays i k rec st (prior_of (key rec) st.on_file) name p refl h

  rows-stays :
      (build : Option (FiledRow N) → Option (FiledRow N)) (rows : List (Option (FiledRow N)))
      (i : ℕ) (st : Progress N) (name : String) (p : FiledRow N)
      → prior_of name st.on_file ≡ some p
      → prior_of name (import_rows numbers id_field canonical build i rows st).on_file ≡ some p
  unfolding import_rows
  rows-stays build [] i st name p h = h
  rows-stays build (row ∷ rows) i st name p h =
      rows-stays build rows (suc i) _ name p (built-stays i (entry_key row) (build row) st name p h)

  -- A record against what is on file, in the first run and in the second.
  file-Repeats :
      (i : ℕ) (k : Option String) (rec : FiledRow N) (st again : Progress N)
      (prior : Option (FiledRow N))
      → conflicting_fields numbers rec rec canonical ≡ []
      → prior_of (key rec) st.on_file ≡ prior
      → ((p : FiledRow N)
          → prior_of (key rec) (file i k rec prior st).on_file ≡ some p
          → prior_of (key rec) again.on_file ≡ some p)
      → Repeats st
          (file i k rec prior st)
          again
          (file i k rec (prior_of (key rec) again.on_file) again)
  unfolding file_record
  file-Repeats i k rec st again none same_row e kept =
      subst (λ o. Repeats st (file i k rec none st) again (file i k rec o again))
        (sym (kept rec (prior-added st.on_file rec)))
        (subst
          (λ fields.
            Repeats st (file i k rec none st) again
              (judge i k (some (text_of (get rec id_field))) fields again))
          (sym same_row) (refl, refl, refl, omega arith))
  file-Repeats i k rec st again (some p) same_row e kept =
      subst (λ o. Repeats st (file i k rec (some p) st) again (file i k rec o again))
        (sym (kept p (file-stays i k rec st (some p) (key rec) p e e)))
        (judge-Repeats i i k (some (text_of (get rec id_field)))
          (conflicting_fields numbers p rec canonical) st again)

  built-Repeats :
      (i : ℕ) (k : Option String) (built : Option (FiledRow N)) (st again : Progress N)
      → ((rec : FiledRow N) → built ≡ some rec → conflicting_fields numbers rec rec canonical ≡ [])
      → ((name : String) (p : FiledRow N)
          → prior_of name (import_built numbers id_field canonical i k built st).on_file ≡ some p
          → prior_of name again.on_file ≡ some p)
      → Repeats st
          (import_built numbers id_field canonical i k built st)
          again
          (import_built numbers id_field canonical i k built again)
  unfolding import_built
  built-Repeats i k none st again alike kept = (refl, refl, refl, omega arith)
  built-Repeats i k (some rec) st again alike kept =
      file-Repeats i k rec st again (prior_of (key rec) st.on_file) (alike rec refl) refl
        (kept (key rec))

  pub rows-Repeats :
      (build : Option (FiledRow N) → Option (FiledRow N))
      → ((row : Option (FiledRow N)) (rec : FiledRow N)
          → build row ≡ some rec
          → conflicting_fields numbers rec rec canonical ≡ [])
      → (rows : List (Option (FiledRow N))) (i : ℕ) (st again : Progress N)
      → again.on_file ≡ (import_rows numbers id_field canonical build i rows st).on_file
      → Repeats st
          (import_rows numbers id_field canonical build i rows st)
          again
          (import_rows numbers id_field canonical build i rows again)
  unfolding import_rows
  rows-Repeats build alike [] i st again e = (refl, refl, refl, omega arith)
  rows-Repeats build alike (row ∷ rows) i st again e =
      let next = import_built numbers id_field canonical i (entry_key row) (build row) st in
      let next_again =
        import_built numbers id_field canonical i (entry_key row) (build row) again in
      let round =
        built-Repeats i (entry_key row) (build row) st again (alike row)
          (λ name p h. ap (prior_of name) e ∙ rows-stays build rows (suc i) next name p h) in
      let rest = rows-Repeats build alike rows (suc i) next next_again (round.1 ∙ e) in
      (rest.0 ∙ round.0, rest.1 ∙ round.1, rest.2 ∙ round.2, omega (arith, rest.3, round.3))

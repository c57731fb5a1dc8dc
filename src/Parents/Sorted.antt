-- ===== src/Parents/Sorted.antt =====
-- The split puts every row in one place and counts it there.
use kalshi_bet_router.Base.{
  ℕ, suc, ◌+◌, String, Bool, true, false, Option, List, [], ◌∷◌, ◌++◌, ◌≡◌, refl, sym, ap, ◌∙◌,
  subst, not, if◌then◌else◌, length, length-append, filter, str_eq, arith,
}
use mathlib.Core.List.{append-nil, append_assoc}
use kalshi_bet_router.Parents.{
  SettledRow, Proposal, Parent, canonical_parent, waiting_for_parent_wager, no_valid_parent,
  proposal_problem, parent_of, Partition, count_reason, put_row, put_rows, no_rows, records_of,
  partition,
}

abbrev pub is_waiting : Parent → Bool
is_waiting waiting_for_parent_wager = true
is_waiting _ = false

abbrev pub is_canonical : Parent → Bool
is_canonical canonical_parent = true
is_canonical _ = false

-- The sum of the counts of the reasons.
abbrev pub reason_sum : List (String × ℕ) → ℕ
reason_sum [] = 0
reason_sum ((name, n) ∷ rest) = n + reason_sum rest

reason_sum-count :
    (reason : String) (counts : List (String × ℕ))
    → reason_sum (count_reason reason counts) ≡ suc (reason_sum counts)
unfolding count_reason
reason_sum-count reason [] = refl
reason_sum-count reason ((name, n) ∷ rest) = go (str_eq name reason) (reason_sum-count reason rest)
  where
    go :
        (same : Bool)
        → reason_sum (count_reason reason rest) ≡ suc (reason_sum rest)
        → reason_sum (if same then (name, suc n) ∷ rest else (name, n) ∷ count_reason reason rest)
          ≡ suc (n + reason_sum rest)
    go true e = omega arith
    go false e = omega (arith, e)

-- What a split says of the rows it has seen: they are in one of its lists, and the counters count the
-- lists and the reasons.
abbrev pub Counted : (SettledRow → Parent) → List SettledRow → Partition → Type 0
Counted parent rows out =
    (out.ready ≡ filter (λ row. not (is_waiting (parent row))) rows)
    × (out.waiting ≡ filter (λ row. is_waiting (parent row)) rows)
    × (out.canonical_count ≡ length (filter (λ row. is_canonical (parent row)) rows))
    × (out.waiting_count ≡ length out.waiting)
    × (out.canonical_count + out.no_parent_count ≡ length out.ready)
    × (reason_sum out.reasons ≡ out.no_parent_count)

filter-snoc :
    (p : SettledRow → Bool) (xs : List SettledRow) (x : SettledRow)
    → filter p (xs ++ x ∷ []) ≡ filter p xs ++ (if p x then x ∷ [] else [])
filter-snoc p [] x = refl
filter-snoc p (y ∷ ys) x = go (p y) (filter-snoc p ys x)
  where
    go :
        (kept : Bool)
        → filter p (ys ++ x ∷ []) ≡ filter p ys ++ (if p x then x ∷ [] else [])
        → (if kept then y ∷ filter p (ys ++ x ∷ []) else filter p (ys ++ x ∷ []))
          ≡ (if kept then y ∷ filter p ys else filter p ys) ++ (if p x then x ∷ [] else [])
    go true e = ap (λ zs. y ∷ zs) e
    go false e = e

-- A filtered list follows a row that it keeps, and a row that it drops.
module _ (p : SettledRow → Bool) (seen : List SettledRow) (row : SettledRow) where
  keep :
      (xs : List SettledRow)
      → xs ≡ filter p seen
      → p row ≡ true
      → xs ++ row ∷ [] ≡ filter p (seen ++ row ∷ [])
  keep xs h e =
      ap (λ zs. zs ++ row ∷ []) h
      ∙ sym (filter-snoc p seen row ∙ ap (λ c. filter p seen ++ (if c then row ∷ [] else [])) e)

  skip :
      (xs : List SettledRow) → xs ≡ filter p seen → p row ≡ false → xs ≡ filter p (seen ++ row ∷ [])
  skip xs h e =
      h
      ∙ sym (
          filter-snoc p seen row
          ∙ ap (λ c. filter p seen ++ (if c then row ∷ [] else [])) e
          ∙ append-nil (filter p seen))

  count_keep :
      (n : ℕ)
      → n ≡ length (filter p seen)
      → p row ≡ true
      → suc n ≡ length (filter p (seen ++ row ∷ []))
  count_keep n h e =
      omega (
        arith,
        h,
        length-append (filter p seen) (row ∷ []),
        ap length (keep (filter p seen) refl e),
      )

  count_skip :
      (n : ℕ)
      → n ≡ length (filter p seen)
      → p row ≡ false
      → n ≡ length (filter p (seen ++ row ∷ []))
  count_skip n h e = h ∙ ap length (skip (filter p seen) refl e)

length-snoc : (xs : List SettledRow) (x : SettledRow) → length (xs ++ x ∷ []) ≡ suc (length xs)
length-snoc xs x = omega (arith, length-append xs (x ∷ []))

-- One more row.
put_row-Counted :
    (parent : SettledRow → Parent) (seen : List SettledRow) (row : SettledRow) (out : Partition)
    → Counted parent seen out
    → Counted parent (seen ++ row ∷ []) (put_row row (parent row) out)
unfolding put_row
put_row-Counted parent seen row out (ready, waiting, canonical, counted, total, why) =
    go (parent row) refl
  where
    go :
        (state : Parent)
        → parent row ≡ state
        → Counted parent (seen ++ row ∷ []) (put_row row state out)
    go canonical_parent e = (
      keep (λ r. not (is_waiting (parent r))) seen row out.ready ready
          (ap (λ s. not (is_waiting s)) e),
      skip (λ r. is_waiting (parent r)) seen row out.waiting waiting (ap is_waiting e),
      count_keep (λ r. is_canonical (parent r)) seen row out.canonical_count canonical
          (ap is_canonical e),
      counted,
      omega (arith, total, length-snoc out.ready row),
      why,
    )
    go waiting_for_parent_wager e = (
      skip (λ r. not (is_waiting (parent r))) seen row out.ready ready
          (ap (λ s. not (is_waiting s)) e),
      keep (λ r. is_waiting (parent r)) seen row out.waiting waiting (ap is_waiting e),
      count_skip (λ r. is_canonical (parent r)) seen row out.canonical_count canonical
          (ap is_canonical e),
      omega (arith, counted, length-snoc out.waiting row),
      total,
      why,
    )
    go (no_valid_parent reason) e = (
      keep (λ r. not (is_waiting (parent r))) seen row out.ready ready
          (ap (λ s. not (is_waiting s)) e),
      skip (λ r. is_waiting (parent r)) seen row out.waiting waiting (ap is_waiting e),
      count_skip (λ r. is_canonical (parent r)) seen row out.canonical_count canonical
          (ap is_canonical e),
      counted,
      omega (arith, total, length-snoc out.ready row),
      omega (arith, why, reason_sum-count reason out.reasons),
    )

put_rows-Counted :
    (parent : SettledRow → Parent) (rows seen : List SettledRow) (out : Partition)
    → Counted parent seen out
    → Counted parent (seen ++ rows) (put_rows parent rows out)
unfolding put_rows
put_rows-Counted parent [] seen out h =
    subst (λ all_seen. Counted parent all_seen out) (sym (append-nil seen)) h
put_rows-Counted parent (row ∷ rows) seen out h =
    subst
      (λ all_seen. Counted parent all_seen (put_rows parent rows (put_row row (parent row) out)))
      (append_assoc seen (row ∷ []) rows)
      (put_rows-Counted parent rows (seen ++ row ∷ []) (put_row row (parent row) out)
        (put_row-Counted parent seen row out h))

-- The state that `partition` puts a row in.
abbrev pub state_in : List String → Option Proposal → String → String → SettledRow → Parent
state_in keys proposal repo ledger_branch =
    parent_of keys (proposal_problem proposal repo ledger_branch)
      (records_of (proposal_problem proposal repo ledger_branch) proposal)

-- `partition` withholds the rows that wait, and hands on the others, both in the order of the payload;
-- it counts the rows with a canonical parent, those that wait and those without a parent, and the
-- reasons for the last add up to their number.
pub partition-Counted :
    (rows : List SettledRow) (keys : List String) (proposal : Option Proposal)
    (repo ledger_branch : String)
    → Counted
        (state_in keys proposal repo ledger_branch)
        rows
        (partition rows keys proposal repo ledger_branch)
unfolding partition
partition-Counted rows keys proposal repo ledger_branch =
    put_rows-Counted (state_in keys proposal repo ledger_branch) rows []
      (no_rows (proposal_problem proposal repo ledger_branch)) (refl, refl, refl, refl, refl, refl)

-- ===== src/Gate/PassedRows.antt =====
-- What the conditions on receipts, files and ledger rows establish.
use Prim.Native.Char.{Char}
use kalshi_bet_router.Base.{
  ℕ, String, Bool, true, false, Option, none, some, List, [], ◌∷◌, ◌≡◌, refl, ap, not, ◌||◌,
  if◌then◌else◌, is_none, is_empty, length, any, All, option_str_eq-eq, str_eq, ◌==◌, arith, inl,
  inr, ◌⊎◌,
}
use kalshi_bet_router.Receipts.{
  Receipt, needs_judgement, conflicting_field_names, option_in, no_judgement_verdicts,
  idempotent_rerun_verdicts, is_truthy,
}
use kalshi_bet_router.Gate.{LedgerRow, MergeFacts, passes, settlements}
use kalshi_bet_router.Gate.Paths.{is_mergeable_path}
use kalshi_bet_router.Gate.Checks.{holds}
use kalshi_bet_router.Gate.Imports.{
  normalised, refused_nothing, no_judgement, identity_at, found_identity, is_drifted, idempotent,
}
use kalshi_bet_router.Gate.Ledger.{
  canonical_files, append_only, identity_of, key_of, is_foreign, is_receipted, router_identity,
}
use kalshi_bet_router.Gate.Passed.{
  past_wait, past_refusal, neither, not-not, any-All, All-map, is_empty-eq,
}

-- The importer wrote the row, judged it by itself, and named it.
abbrev pub Accepted : Receipt → Type 0
Accepted receipt =
    (option_in receipt.verdict no_judgement_verdicts ≡ true)
    × (receipt.conflicting_fields ≡ [])
    × (is_truthy receipt.identity ≡ true)

-- The second import found the row, under the identity that the first one gave.
abbrev pub Repeated : List Receipt → Receipt → Type 0
Repeated receipts again =
    (option_in again.verdict idempotent_rerun_verdicts ≡ true)
    × (found_identity (identity_at receipts again.source_key) ≡ again.identity)

-- The row is named, and is of the batch of the router, or of none if it is a settlement.
abbrev pub Owned : Bool → LedgerRow → Type 0
Owned for_settlements row =
    (is_foreign for_settlements row ≡ false)
    × (is_truthy (identity_of row) ≡ true)
    × (is_truthy (key_of row) ≡ true)

pub refused_nothing-passes :
    (facts : MergeFacts)
    → refused_nothing facts ≡ passes
    → (is_empty (normalised facts.receipts) ≡ false)
      × All (λ receipt. receipt.success ≡ true) (normalised facts.receipts)
      × (facts.partial_delivery ≡ false)
unfolding refused_nothing
refused_nothing-passes facts h =
    let receipts = normalised facts.receipts in
    let failed = any (λ receipt. not receipt.success) receipts in
    let there = past_wait (is_empty receipts) _ h in
    let clear =
      neither failed facts.partial_delivery
        (past_refusal (failed || facts.partial_delivery) passes there.1).0 in
    (
      there.0,
      All-map _ (λ receipt. receipt.success ≡ true) receipts
          (λ receipt e. not-not receipt.success e)
          (any-All (λ receipt. not receipt.success) receipts clear.0),
      clear.1,
    )

All-three :
    (P Q R : Receipt → Type 0) (receipts : List Receipt)
    → All P receipts
    → All Q receipts
    → All R receipts
    → All (λ receipt. P receipt × Q receipt × R receipt) receipts
All-three P Q R [] p q r = tt
All-three P Q R (x ∷ xs) p q r = ((p.0, q.0, r.0), All-three P Q R xs p.1 q.1 r.1)

pub no_judgement-passes :
    (facts : MergeFacts) → no_judgement facts ≡ passes → All Accepted (normalised facts.receipts)
unfolding no_judgement needs_judgement
no_judgement-passes facts h =
    let receipts = normalised facts.receipts in
    let judged = any needs_judgement receipts in
    let conflicting = any (λ receipt. not (is_empty receipt.conflicting_fields)) receipts in
    let unnamed = any (λ receipt. not (is_truthy receipt.identity)) receipts in
    let names = not (is_empty (conflicting_field_names receipts)) in
    let there = past_wait (is_empty receipts) _ h in
    let clear =
      neither (judged || conflicting || unnamed) names
        (past_refusal (judged || conflicting || unnamed || names) passes there.1).0 in
    let three = neither (judged || conflicting) unnamed clear.0 in
    let two = neither judged conflicting three.0 in
    All-three _ _ _ receipts
      (All-map _ _ receipts (λ receipt e. not-not _ e) (any-All needs_judgement receipts two.0))
      (All-map _ (λ receipt. receipt.conflicting_fields ≡ []) receipts
        (λ receipt e. is_empty-eq receipt.conflicting_fields (not-not _ e))
        (any-All (λ receipt. not (is_empty receipt.conflicting_fields)) receipts two.1))
      (All-map _ (λ receipt. is_truthy receipt.identity ≡ true) receipts (λ receipt e. not-not _ e)
        (any-All (λ receipt. not (is_truthy receipt.identity)) receipts three.1))

All-both :
    (P Q : Receipt → Type 0) (receipts : List Receipt)
    → All P receipts
    → All Q receipts
    → All (λ receipt. P receipt × Q receipt) receipts
All-both P Q [] p q = tt
All-both P Q (x ∷ xs) p q = ((p.0, q.0), All-both P Q xs p.1 q.1)

same_count : (m n : ℕ) → not (m == n) ≡ false → m ≡ n
same_count m n h = ground arith

unchanged : (o : Option Bool) → is_none o ≡ false → holds o ≡ false → o ≡ some false
unchanged none h k = ground arith
unchanged (some b) h k = ap (λ x. some x) k

pub idempotent-passes :
    (facts : MergeFacts)
    → idempotent facts ≡ passes
    → (facts.rerun_changed_the_tree ≡ some false)
      × (length (normalised facts.rerun_receipts) ≡ length (normalised facts.receipts))
      × All (Repeated (normalised facts.receipts)) (normalised facts.rerun_receipts)
unfolding idempotent is_drifted
idempotent-passes facts h =
    let receipts = normalised facts.receipts in
    let rerun = normalised facts.rerun_receipts in
    let changed = holds facts.rerun_changed_the_tree in
    let offends =
      λ (receipt : Receipt). not (option_in receipt.verdict idempotent_rerun_verdicts) in
    let offenders = any offends rerun in
    let miscounted = not (length rerun == length receipts) in
    let drifted = any (is_drifted receipts) rerun in
    let there = past_wait (is_none facts.rerun_changed_the_tree || is_empty rerun) _ h in
    let known = neither (is_none facts.rerun_changed_the_tree) (is_empty rerun) there.0 in
    let clear =
      neither (changed || offenders || miscounted) drifted
        (past_refusal (changed || offenders || miscounted || drifted) passes there.1).0 in
    let three = neither (changed || offenders) miscounted clear.0 in
    let two = neither changed offenders three.0 in
    (
      unchanged facts.rerun_changed_the_tree known.0 two.0,
      same_count (length rerun) (length receipts) three.1,
      All-both _ _ rerun
          (All-map _ _ rerun (λ receipt e. not-not _ e) (any-All offends rerun two.1))
          (All-map _ _ rerun (λ receipt e. option_str_eq-eq _ _ (not-not _ e))
            (any-All (is_drifted receipts) rerun clear.1)),
    )

pub canonical_files-passes :
    (is_decimal : Char → Bool) (facts : MergeFacts)
    → canonical_files is_decimal facts ≡ passes
    → (is_empty facts.changed_files ≡ false)
      × All (λ path. is_mergeable_path is_decimal facts.sport path ≡ true) facts.changed_files
unfolding canonical_files
canonical_files-passes is_decimal facts h =
    let outside = λ (path : String). not (is_mergeable_path is_decimal facts.sport path) in
    let there = past_wait (is_empty facts.changed_files) _ h in
    (
      there.0,
      All-map _ _ facts.changed_files (λ path e. not-not _ e)
          (any-All outside facts.changed_files
            (past_refusal (any outside facts.changed_files) passes there.1).0),
    )

pub append_only-passes :
    (facts : MergeFacts) → append_only facts ≡ passes → facts.removed_ledger_rows ≡ []
unfolding append_only
append_only-passes facts h =
    is_empty-eq facts.removed_ledger_rows
      (not-not _ (past_refusal (not (is_empty facts.removed_ledger_rows)) passes h).0)

-- Every row has a receipt of this run, unless it is a wager and no receipt gives a key.
abbrev pub Proven : MergeFacts → Type 0
Proven facts =
    All (λ row. is_receipted (normalised facts.receipts) (key_of row) ≡ true)
      facts.added_ledger_rows
    ⊎ ((any (λ receipt. is_truthy receipt.source_key) (normalised facts.receipts) ≡ false)
        × (str_eq facts.branch_kind settlements ≡ false))

proven_by :
    (keyed for_settlements : Bool) (receipts : List Receipt) (rows : List LedgerRow)
    → (if keyed
        then any (λ row. not (is_receipted receipts (key_of row))) rows
        else for_settlements)
      ≡ false
    → All (λ row. is_receipted receipts (key_of row) ≡ true) rows
      ⊎ ((keyed ≡ false) × (for_settlements ≡ false))
proven_by true b receipts rows h = inl (
    All-map _ _ rows (λ row e. not-not _ e)
      (any-All (λ row. not (is_receipted receipts (key_of row))) rows h))
proven_by false b receipts rows h = inr (refl, h)

pub router_identity-passes :
    (facts : MergeFacts)
    → router_identity facts ≡ passes
    → (is_empty facts.added_ledger_rows ≡ false)
      × All (Owned (str_eq facts.branch_kind settlements)) facts.added_ledger_rows
      × Proven facts
unfolding router_identity
router_identity-passes facts h =
    let receipts = normalised facts.receipts in
    let rows = facts.added_ledger_rows in
    let for_settlements = str_eq facts.branch_kind settlements in
    let keyed = any (λ receipt. is_truthy receipt.source_key) receipts in
    let foreign = any (is_foreign for_settlements) rows in
    let nameless =
      λ (row : LedgerRow). not (is_truthy (identity_of row)) || not (is_truthy (key_of row)) in
    let stray = λ (row : LedgerRow). not (is_receipted receipts (key_of row)) in
    let unproven = if keyed then any stray rows else for_settlements in
    let there = past_wait (is_empty rows) _ h in
    let clear =
      neither (foreign || any nameless rows) unproven
        (past_refusal (foreign || any nameless rows || unproven) passes there.1).0 in
    let two = neither foreign (any nameless rows) clear.0 in
    (
      there.0,
      owned for_settlements rows (any-All (is_foreign for_settlements) rows two.0)
          (any-All nameless rows two.1),
      proven_by keyed for_settlements receipts rows clear.1,
    )
  where
    owned :
        (for_settlements : Bool) (rows : List LedgerRow)
        → All (λ row. is_foreign for_settlements row ≡ false) rows
        → All
            (λ row. (not (is_truthy (identity_of row)) || not (is_truthy (key_of row))) ≡ false)
            rows
        → All (Owned for_settlements) rows
    owned b [] f n = tt
    owned b (row ∷ rows) f n =
        let split =
          neither (not (is_truthy (identity_of row))) (not (is_truthy (key_of row))) n.0 in
        ((f.0, not-not _ split.0, not-not _ split.1), owned b rows f.1 n.1)

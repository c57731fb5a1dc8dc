-- ===== src/Gate/Approved.antt =====
-- What a verdict of MERGE establishes, and what it can land.
use Prim.Native.Char.{Char}
use kalshi_bet_router.Base.{
  String, Bool, true, false, some, [], ◌≡◌, refl, ap, ◌∙◌, is_empty, length, All, str_eq, Result,
  ok, err, ◌>>=◌, arith,
}
use kalshi_bet_router.Gate.{
  router_branch_for, MergeFacts, passes, settlements, Decision, merge, MergeVerdict,
}
use kalshi_bet_router.Gate.Paths.{is_mergeable_path}
use kalshi_bet_router.Gate.Imports.{normalised}
use kalshi_bet_router.Gate.Verdict.{decided, verdict_of, evaluate}
use kalshi_bet_router.Gate.Decides.{verdict_of-passes}
use kalshi_bet_router.Gate.PassedChecks.{
  Proposed, Verified, Judged, Clean, pull_request-passes, open_and_not_a_draft-passes,
  provenance-passes, verified_head-passes, integration-passes, mergeability-passes,
}
use kalshi_bet_router.Gate.PassedRows.{
  Accepted, Repeated, Owned, Proven, refused_nothing-passes, no_judgement-passes, idempotent-passes,
  canonical_files-passes, append_only-passes, router_identity-passes,
}

-- The importer wrote every row of this run and needed nobody.
abbrev pub Imported : MergeFacts → Type 0
Imported facts =
    (is_empty (normalised facts.receipts) ≡ false)
    × All (λ receipt. receipt.success ≡ true) (normalised facts.receipts)
    × All Accepted (normalised facts.receipts)
    × (facts.partial_delivery ≡ false)

-- A second import changed nothing and named every row as the first did.
abbrev pub Repeatable : MergeFacts → Type 0
Repeatable facts =
    (facts.rerun_changed_the_tree ≡ some false)
    × (length (normalised facts.rerun_receipts) ≡ length (normalised facts.receipts))
    × All (Repeated (normalised facts.receipts)) (normalised facts.rerun_receipts)

-- The diff only appends rows of the router to files that may land unread.
abbrev pub Appends : (Char → Bool) → MergeFacts → Type 0
Appends is_decimal facts =
    (is_empty facts.changed_files ≡ false)
    × All (λ path. is_mergeable_path is_decimal facts.sport path ≡ true) facts.changed_files
    × (facts.removed_ledger_rows ≡ [])
    × (is_empty facts.added_ledger_rows ≡ false)
    × All (Owned (str_eq facts.branch_kind settlements)) facts.added_ledger_rows
    × Proven facts

abbrev pub Approved : (Char → Bool) → MergeFacts → Type 0
Approved is_decimal facts =
    (branch : String) × (router_branch_for facts.sport facts.branch_kind ≡ ok branch)
    × Proposed branch facts
    × Verified facts
    × Imported facts
    × Repeatable facts
    × Appends is_decimal facts
    × Judged facts
    × Clean facts

decided-Approved :
    (is_decimal : Char → Bool) (facts : MergeFacts) (branch : String)
    → router_branch_for facts.sport facts.branch_kind ≡ ok branch
    → All (λ p. p.1 ≡ passes) (decided is_decimal branch facts)
    → Approved is_decimal facts
unfolding decided
decided-Approved is_decimal facts branch named
      (
        number,
        (
          opened,
          (
            origin,
            (head, (refused, (judged, (again, (files, (append, (ours, (green, (clean, u))))))))),
          ),
        ),
      ) =
    let o = open_and_not_a_draft-passes facts opened in
    let p = provenance-passes branch facts origin in
    let r = refused_nothing-passes facts refused in
    let f = canonical_files-passes is_decimal facts files in
    let i = router_identity-passes facts ours in
    (
      branch,
      named,
      (pull_request-passes facts number, o.0, o.1, p.0, p.1, p.2),
      verified_head-passes facts head,
      (r.0, r.1, no_judgement-passes facts judged, r.2),
      idempotent-passes facts again,
      (f.0, f.1, append_only-passes facts append, i.0, i.1, i.2),
      integration-passes facts green,
      mergeability-passes facts clean,
    )

-- Where `evaluate` says MERGE, the pull request was found, and is open and not a draft, from the router's branch into
-- the ledger branch, and in the destination where its repository is stated; its head is known and is the
-- commit that was verified; the importer wrote every row, needed no judgement, stated no conflict and
-- named each; a second import changed nothing and named each row as the first did; only files that may
-- land unread change; no ledger row is removed; each added row is named and of the router's batch, or
-- without a batch if it is a settlement, and has a receipt of this run unless it is a wager and no
-- receipt gives a key; the destination has judged its data, by green checks where its branch runs them
-- and else by its validator; and the merge is clean.
pub evaluate-Approved :
    (is_decimal : Char → Bool) (facts : MergeFacts) (v : MergeVerdict)
    → evaluate is_decimal facts ≡ ok v
    → v.verdict ≡ merge
    → Approved is_decimal facts
unfolding evaluate
evaluate-Approved is_decimal facts v e m =
    go (router_branch_for facts.sport facts.branch_kind) refl e
  where
    verdict_in : MergeVerdict → Result MergeVerdict → Decision
    verdict_in other (ok w) = w.verdict
    verdict_in other (err x) = other.verdict

    go :
        (r : Result String)
        → router_branch_for facts.sport facts.branch_kind ≡ r
        → (r >>= (λ branch. ok (verdict_of (decided is_decimal branch facts)))) ≡ ok v
        → Approved is_decimal facts
    go (ok branch) named e =
        decided-Approved is_decimal facts branch named
          (verdict_of-passes (decided is_decimal branch facts) (ap (verdict_in v) e ∙ m))
    go (err x) named e = ground arith

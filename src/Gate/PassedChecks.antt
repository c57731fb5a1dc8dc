-- ===== src/Gate/PassedChecks.antt =====
-- What the conditions on the pull request, its head, its checks and its mergeability establish.
use kalshi_bet_router.Base.{
  String, Bool, true, false, Option, none, some, List, [], ◌∷◌, ◌≡◌, refl, ap, ◌⊎◌, inl, inr, not,
  ◌||◌, ◌&&◌, if◌then◌else◌, is_none, is_empty, All, option_str_eq, option_str_eq-eq, concat, arith,
}
use kalshi_bet_router.Receipts.{is_truthy, option_in}
use kalshi_bet_router.Gate.{CheckRun, MergeFacts, Outcome, passes, refuses, waits}
use kalshi_bet_router.Gate.Paths.{ledger_branch_for, ledger_branch_runs_ci}
use kalshi_bet_router.Gate.Checks.{
  passing_conclusions, transient_merge_states, check_derived_merge_states, shown, check_state,
  holds, pull_request, open_and_not_a_draft, provenance, verified_head, validated, integration,
  derived_from_checks, mergeability,
}
use kalshi_bet_router.Gate.Passed.{past_wait, past_refusal, neither, not-not}

-- A pull request was found; it is open, from the router's branch in the destination, into the ledger
-- branch.
abbrev pub Proposed : String → MergeFacts → Type 0
Proposed branch facts =
    (is_none facts.pull_number ≡ false)
    × (facts.state ≡ some "open")
    × (holds facts.draft ≡ false)
    × (facts.head_ref ≡ some branch)
    × (facts.base_ref ≡ some (ledger_branch_for facts.sport))
    × ((is_truthy facts.head_repo ≡ false) ⊎ (facts.head_repo ≡ some facts.destination_repo))

-- The head is known, and is the commit that this run verified.
abbrev pub Verified : MergeFacts → Type 0
Verified facts = (is_truthy facts.head_sha ≡ true) × (facts.head_sha ≡ facts.verified_sha)

abbrev pub IsGreen : CheckRun → Type 0
IsGreen run = (run.1 ≡ some "completed") × (option_in run.2 passing_conclusions ≡ true)

-- The destination has judged its data: by its checks, or by its validator where there are none.
abbrev pub Judged : MergeFacts → Type 0
Judged facts =
    ((ledger_branch_runs_ci facts.sport ≡ false) × (facts.destination_validator_passed ≡ some true))
    ⊎ ((ledger_branch_runs_ci facts.sport ≡ true)
        × (is_empty facts.check_runs ≡ false)
        × All IsGreen facts.check_runs)

-- The exchange of branches calls the merge clean.
abbrev pub Clean : MergeFacts → Type 0
Clean facts = (facts.mergeable ≡ some true) × (facts.mergeable_state ≡ some "clean")

pub pull_request-passes :
    (facts : MergeFacts) → pull_request facts ≡ passes → is_none facts.pull_number ≡ false
unfolding pull_request
pull_request-passes facts h = (past_wait (is_none facts.pull_number) _ h).0

pub open_and_not_a_draft-passes :
    (facts : MergeFacts)
    → open_and_not_a_draft facts ≡ passes
    → (facts.state ≡ some "open") × (holds facts.draft ≡ false)
unfolding open_and_not_a_draft
open_and_not_a_draft-passes facts h =
    let known = past_wait (is_none facts.state) _ h in
    let opened = past_wait (not (option_str_eq facts.state (some "open"))) _ known.1 in
    let published = past_refusal (holds facts.draft) passes opened.1 in
    (option_str_eq-eq facts.state (some "open") (not-not _ opened.0), published.0)

guarded : (a b : Bool) → (a && not b) ≡ false → (a ≡ false) ⊎ (b ≡ true)
guarded true b h = inr (not-not b h)
guarded false b h = inl refl

pub provenance-passes :
    (branch : String) (facts : MergeFacts)
    → provenance branch facts ≡ passes
    → (facts.head_ref ≡ some branch)
      × (facts.base_ref ≡ some (ledger_branch_for facts.sport))
      × ((is_truthy facts.head_repo ≡ false) ⊎ (facts.head_repo ≡ some facts.destination_repo))
unfolding provenance
provenance-passes branch facts h =
    let same_head = option_str_eq facts.head_ref (some branch) in
    let same_repo = option_str_eq facts.head_repo (some facts.destination_repo) in
    let same_base = option_str_eq facts.base_ref (some (ledger_branch_for facts.sport)) in
    let clear =
      past_refusal (not same_head || (is_truthy facts.head_repo && not same_repo) || not same_base)
        passes h in
    let second =
      neither (not same_head || (is_truthy facts.head_repo && not same_repo)) (not same_base)
        clear.0 in
    let first = neither (not same_head) (is_truthy facts.head_repo && not same_repo) second.0 in
    (
      option_str_eq-eq _ _ (not-not same_head first.0),
      option_str_eq-eq _ _ (not-not same_base second.1),
      elim (guarded (is_truthy facts.head_repo) same_repo first.1) [
        | inl e ↦ inl e
        | inr e ↦ inr (option_str_eq-eq _ _ e)
      ],
    )

pub verified_head-passes : (facts : MergeFacts) → verified_head facts ≡ passes → Verified facts
unfolding verified_head
verified_head-passes facts h =
    let known =
      past_wait (not (is_truthy facts.head_sha) || not (is_truthy facts.verified_sha)) _ h in
    let same = past_wait (not (option_str_eq facts.head_sha facts.verified_sha)) passes known.1 in
    (
      not-not _
          (neither (not (is_truthy facts.head_sha)) (not (is_truthy facts.verified_sha)) known.0).0,
      option_str_eq-eq _ _ (not-not _ same.0),
    )

-- The lists that one check run leads to.
abbrev sorted :
    Bool → Bool → String → String → List String → List String → List String × List String
sorted completed well name shown_name pending failed =
    if not completed
    then (name ∷ pending, failed)
    else if not well
    then (pending, shown_name ∷ failed)
    else (pending, failed)

-- Where `_check_state` names nothing, every check run has completed well.
check_state-IsGreen :
    (runs : List CheckRun)
    → is_empty (check_state runs).0 ≡ true
    → is_empty (check_state runs).1 ≡ true
    → All IsGreen runs
unfolding check_state
check_state-IsGreen [] h k = tt
check_state-IsGreen ((name, status, conclusion) ∷ rest) h k =
    let settled =
      go (option_str_eq status (some "completed")) (option_in conclusion passing_conclusions) name
        (concat (name ∷ "=" ∷ shown conclusion ∷ [])) (check_state rest).0 (check_state rest).1 h
        k in
    (
      (option_str_eq-eq status (some "completed") settled.0, settled.1),
      check_state-IsGreen rest settled.2 settled.3,
    )
  where
    go :
        (completed well : Bool) (name shown_name : String) (pending failed : List String)
        → is_empty (sorted completed well name shown_name pending failed).0 ≡ true
        → is_empty (sorted completed well name shown_name pending failed).1 ≡ true
        → (completed ≡ true) × (well ≡ true) × (is_empty pending ≡ true) × (is_empty failed ≡ true)
    go true true name shown_name pending failed h k = (refl, refl, h, k)
    go true false name shown_name pending failed h k = ground arith
    go false well name shown_name pending failed h k = ground arith

validated-passes : (o : Option Bool) → validated o ≡ passes → o ≡ some true
validated-passes none h = ground arith
validated-passes (some true) h = refl
validated-passes (some false) h = ground arith

-- The outcome that the check runs lead to, without the splits on what they say.
abbrev rolled_up : List CheckRun → List String → List String → Outcome
rolled_up runs pending broken =
    if is_empty runs
    then waits
    else (if not (is_empty broken)
        then refuses
        else if not (is_empty pending)
        then waits
        else passes)

rolled_up-passes :
    (runs : List CheckRun) (pending broken : List String)
    → rolled_up runs pending broken ≡ passes
    → (is_empty runs ≡ false) × (is_empty pending ≡ true) × (is_empty broken ≡ true)
rolled_up-passes [] pending broken h = ground arith
rolled_up-passes (run ∷ runs) [] [] h = (refl, refl, refl)
rolled_up-passes (run ∷ runs) [] (b ∷ bs) h = ground arith
rolled_up-passes (run ∷ runs) (p ∷ ps) [] h = ground arith
rolled_up-passes (run ∷ runs) (p ∷ ps) (b ∷ bs) h = ground arith

one_of :
    (ci : Bool) (o p : Outcome)
    → (if not ci then o else p) ≡ passes
    → ((ci ≡ false) × (o ≡ passes)) ⊎ ((ci ≡ true) × (p ≡ passes))
one_of true o p h = inr (refl, h)
one_of false o p h = inl (refl, h)

pub integration-passes : (facts : MergeFacts) → integration facts ≡ passes → Judged facts
unfolding integration
integration-passes facts h =
    let runs = facts.check_runs in
    let read = check_state runs in
    elim (one_of (ledger_branch_runs_ci facts.sport) (validated facts.destination_validator_passed)
      (rolled_up runs read.0 read.1) h) [
        | inl (e, v) ↦ inl (e, validated-passes facts.destination_validator_passed v)
        | inr (e, c) ↦
            (let found = rolled_up-passes runs read.0 read.1 c in
              inr (e, found.0, check_state-IsGreen runs found.1 found.2))
      ]

derived_from_checks-fails : (runs : List CheckRun) → derived_from_checks runs ≡ passes → ⊥
unfolding derived_from_checks
derived_from_checks-fails runs h =
    go (is_empty (check_state runs).1) (is_empty (check_state runs).0) (is_empty runs) h
  where
    go :
        (no_broken no_pending no_runs : Bool)
        → (if not no_broken then refuses else if not no_pending || no_runs then waits else refuses)
          ≡ passes
        → ⊥
    go true true true k = ground arith
    go true true false k = ground arith
    go true false no_runs k = ground arith
    go false no_pending no_runs k = ground arith

not_derived :
    (a : Bool) (runs : List CheckRun) (o : Outcome)
    → (if a then derived_from_checks runs else o) ≡ passes
    → o ≡ passes
not_derived true runs o h = elim (derived_from_checks-fails runs h) [ ]
not_derived false runs o h = h

holds-some : (o : Option Bool) → holds o ≡ true → o ≡ some true
holds-some none h = ground arith
holds-some (some b) h = ap (λ x. some x) h

pub mergeability-passes : (facts : MergeFacts) → mergeability facts ≡ passes → Clean facts
unfolding mergeability
mergeability-passes facts h =
    let computed =
      past_wait
        (is_none facts.mergeable
          || is_none facts.mergeable_state
          || option_str_eq facts.mergeable_state (some "unknown"))
        _ h in
    let settled =
      past_wait
        (not (holds facts.mergeable) || option_in facts.mergeable_state transient_merge_states) _
        computed.1 in
    let direct =
      not_derived (option_in facts.mergeable_state check_derived_merge_states) facts.check_runs _
        settled.1 in
    let clean =
      past_refusal (not (option_str_eq facts.mergeable_state (some "clean"))) passes direct in
    (
      holds-some facts.mergeable (not-not _ (neither (not (holds facts.mergeable)) _ settled.0).0),
      option_str_eq-eq _ _ (not-not _ clean.0),
    )

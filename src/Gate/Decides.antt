-- ===== src/Gate/Decides.antt =====
-- What a verdict MERGE says of the conditions.
use kalshi_bet_router.Base.{
  List, [], ◌∷◌, ◌≡◌, refl, ◌↔◌, if◌then◌else◌, not, is_empty, length, All, arith,
}
use kalshi_bet_router.Gate.{passes, refuses, waits, Condition, Decision, merge, wait, refuse}
use kalshi_bet_router.Gate.Verdict.{Decided, with_outcome, is_failed, is_waiting, verdict_of}

-- The choice of a decision between a list of failures and a list of waits.
abbrev decision : List Condition → List Condition → Decision
decision failed waiting =
    if not (is_empty failed) then refuse else if not (is_empty waiting) then wait else merge

decision_merges :
    (failed waiting : List Condition)
    → (decision failed waiting ≡ merge) ↔ ((length failed ≡ 0) × (length waiting ≡ 0))
decision_merges [] [] = ground arith
decision_merges [] (c ∷ cs) = ground arith
decision_merges (c ∷ cs) ds = ground arith

-- Where the verdict is MERGE, every condition passed.
pub verdict_of-passes :
    (outcomes : Decided) → (verdict_of outcomes).verdict ≡ merge → All (λ p. p.1 ≡ passes) outcomes
unfolding verdict_of
verdict_of-passes outcomes h =
    let none_left =
      (decision_merges (with_outcome is_failed outcomes) (with_outcome is_waiting outcomes)).0 h in
    all_pass outcomes none_left.0 none_left.1
  where
    all_pass :
        (outcomes : Decided)
        → length (with_outcome is_failed outcomes) ≡ 0
        → length (with_outcome is_waiting outcomes) ≡ 0
        → All (λ p. p.1 ≡ passes) outcomes
    all_pass [] f w = tt
    all_pass ((c, passes) ∷ rest) f w = (refl, all_pass rest f w)
    all_pass ((c, refuses) ∷ rest) f w = ground arith
    all_pass ((c, waits) ∷ rest) f w = ground arith

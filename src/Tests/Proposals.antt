-- ===== src/Tests/Proposals.antt =====
-- A settlement whose wager is on the router's open proposal, beside one that has no wager.
use kalshi_bet_router.Base.{String, false, none, some, [], ◌∷◌, ◌≡◌, refl, contains}
use kalshi_bet_router.Parents.{
  SettledRow, key_fields, first_member, Proposal, same_lowered, pull_problem, found_problem,
  proposal_problem, waiting_for_parent_wager, parents_with, is_same_bet, among, on_proposal,
  keyed_parent, parent_of, partition,
}
use kalshi_bet_router.Parents.Sorted.{Counted, state_in, partition-Counted}
use kalshi_bet_router.Parents.Withheld.{IsValid, HasParent, state_in-waiting}

abbrev wager : SettledRow
wager =
    ("source_bet_key", some "kalshi:order:o1")
    ∷ ("market_ticker", some "KXNHL-1")
    ∷ ("side", some "yes")
    ∷ []

abbrev settled : SettledRow
settled =
    ("sourceBetKey", some "kalshi:order:o1")
    ∷ ("marketTicker", some "KXNHL-1")
    ∷ ("side", some "yes")
    ∷ []

abbrev orphan : SettledRow
orphan = ("source_bet_key", some "kalshi:order:o2") ∷ ("side", some "no") ∷ []

abbrev proposed : Proposal
proposed = record {
  branch = "kalshi-router/NHL";
  fetched_sha = some "abc";
  pull = some (record {
    state = some "open";
    draft = false;
    head_ref = some "kalshi-router/NHL";
    head_sha = some "abc";
    head_full_name = some "chmoses98/nhl-edge-finder";
    base_ref = some "accounting-data";
  });
  records = wager ∷ [];
  unverifiable = none;
}

abbrev repo : String
repo = "chmoses98/NHL-edge-finder"

proposed-clear : proposal_problem (some proposed) repo "accounting-data" ≡ none
unfolding proposal_problem found_problem pull_problem same_lowered
proposed-clear = refl

settled-waits :
    state_in [] (some proposed) repo "accounting-data" settled ≡ waiting_for_parent_wager
unfolding proposal_problem found_problem pull_problem same_lowered first_member parents_with
    is_same_bet among on_proposal keyed_parent parent_of
settled-waits = refl

state_in-waiting_example :
    (key : String) × (first_member settled key_fields ≡ some key)
    × (contains key [] ≡ false)
    × ((valid : Proposal) × (some proposed ≡ some valid)
        × IsValid valid repo "accounting-data"
        × HasParent valid key settled)
state_in-waiting_example =
    state_in-waiting [] (some proposed) repo "accounting-data" settled settled-waits

partition-Counted_example :
    Counted
      (state_in [] (some proposed) repo "accounting-data")
      (settled ∷ orphan ∷ [])
      (partition (settled ∷ orphan ∷ []) [] (some proposed) repo "accounting-data")
partition-Counted_example =
    partition-Counted (settled ∷ orphan ∷ []) [] (some proposed) repo "accounting-data"

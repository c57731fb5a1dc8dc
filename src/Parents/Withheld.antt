-- ===== src/Parents/Withheld.antt =====
-- The rows that are held back: each has exactly one matching wager on a valid proposal.
use kalshi_bet_router.Base.{
  String, Bool, true, false, Option, none, some, List, [], ◌∷◌, ◌≡◌, refl, not, ◌&&◌, if◌then◌else◌,
  contains, option_str_eq, option_str_eq-eq, arith,
}
use kalshi_bet_router.Receipts.{is_truthy, text_member}
use kalshi_bet_router.Parents.{
  SettledRow, key_fields, ticker_fields, first_member, Pull, Proposal, same_lowered, or_empty,
  pull_problem, found_problem, proposal_problem, Parent, canonical_parent, waiting_for_parent_wager,
  no_valid_parent, parents_with, is_same_bet, among, on_proposal, keyed_parent, parent_of,
  records_of,
}
use kalshi_bet_router.Parents.Sorted.{state_in}

-- The pull request is open and published, from the branch of the router in the repository into the
-- ledger branch, and its head is the commit that was read.
abbrev pub IsOpen : Proposal → Pull → String → String → Type 0
IsOpen proposal pull repo ledger_branch =
    (pull.state ≡ some "open")
    × (pull.draft ≡ false)
    × (pull.head_ref ≡ some proposal.branch)
    × (same_lowered (or_empty pull.head_full_name) repo ≡ true)
    × (pull.base_ref ≡ some ledger_branch)
    × (pull.head_sha ≡ proposal.fetched_sha)

abbrev pub IsValid : Proposal → String → String → Type 0
IsValid proposal repo ledger_branch =
    (is_truthy proposal.fetched_sha ≡ true)
    × (is_truthy proposal.unverifiable ≡ false)
    × ((pull : Pull) × (proposal.pull ≡ some pull) × IsOpen proposal pull repo ledger_branch)

-- A guard that raises no problem.
no_problem :
    (a : Bool) (problem : String) (rest : Option String)
    → (if not a then some problem else rest) ≡ none
    → (a ≡ true) × (rest ≡ none)
no_problem true problem rest h = (refl, h)
no_problem false problem rest h = ground arith

no_flag :
    (a : Bool) (problem : String) (rest : Option String)
    → (if a then some problem else rest) ≡ none
    → (a ≡ false) × (rest ≡ none)
no_flag true problem rest h = ground arith
no_flag false problem rest h = (refl, h)

pull_problem-IsOpen :
    (proposal : Proposal) (pull : Pull) (repo ledger_branch : String)
    → pull_problem proposal pull repo ledger_branch ≡ none
    → IsOpen proposal pull repo ledger_branch
unfolding pull_problem
pull_problem-IsOpen proposal pull repo ledger_branch h =
    let opened = no_problem (option_str_eq pull.state (some "open")) _ _ h in
    let published = no_flag pull.draft _ _ opened.1 in
    let head = no_problem (option_str_eq pull.head_ref (some proposal.branch)) _ _ published.1 in
    let home = no_problem (same_lowered (or_empty pull.head_full_name) repo) _ _ head.1 in
    let base = no_problem (option_str_eq pull.base_ref (some ledger_branch)) _ _ home.1 in
    let read = no_problem (option_str_eq pull.head_sha proposal.fetched_sha) _ _ base.1 in
    (
      option_str_eq-eq _ _ opened.0,
      published.0,
      option_str_eq-eq _ _ head.0,
      home.0,
      option_str_eq-eq _ _ base.0,
      option_str_eq-eq _ _ read.0,
    )

-- `proposal_problem` names nothing only for a proposal whose branch was read, whose pull request could
-- be read, and is open and published, from the router's branch in the repository into the ledger
-- branch, with the commit that was read at its head.
pub proposal_problem-IsValid :
    (proposal : Proposal) (repo ledger_branch : String)
    → proposal_problem (some proposal) repo ledger_branch ≡ none
    → IsValid proposal repo ledger_branch
unfolding proposal_problem found_problem
proposal_problem-IsValid proposal repo ledger_branch h =
    let fetched = no_problem (is_truthy proposal.fetched_sha) _ _ h in
    let verifiable = no_flag (is_truthy proposal.unverifiable) _ _ fetched.1 in
    (fetched.0, verifiable.0, go proposal.pull verifiable.1)
  where
    go :
        (pull : Option Pull)
        → found_problem proposal pull repo ledger_branch ≡ none
        → (p : Pull) × (pull ≡ some p) × IsOpen proposal p repo ledger_branch
    go none k = ground arith
    go (some pull) k = (pull, refl, pull_problem-IsOpen proposal pull repo ledger_branch k)

-- The one record of a proposal that has the key of the row, and its ticker and side.
abbrev pub HasParent : Proposal → String → SettledRow → Type 0
HasParent proposal key row =
    (parent : SettledRow) × (parents_with proposal.records key ≡ parent ∷ [])
    × (first_member parent ticker_fields ≡ first_member row ticker_fields)
    × (text_member parent "side" ≡ text_member row "side")

both : (a b : Bool) → (a && b) ≡ true → (a ≡ true) × (b ≡ true)
both a b h = ground arith

among-waiting :
    (parents : List SettledRow) (row : SettledRow)
    → among parents row ≡ waiting_for_parent_wager
    → (parent : SettledRow) × (parents ≡ parent ∷ [])
      × (first_member parent ticker_fields ≡ first_member row ticker_fields)
      × (text_member parent "side" ≡ text_member row "side")
unfolding among is_same_bet
among-waiting [] row h = ground arith
among-waiting (parent ∷ second ∷ more) row h = ground arith
among-waiting (parent ∷ []) row h =
    let same =
      both (option_str_eq (first_member parent ticker_fields) (first_member row ticker_fields)) _
        (go (is_same_bet parent row) h) in
    (parent, refl, option_str_eq-eq _ _ same.0, option_str_eq-eq _ _ same.1)
  where
    go :
        (same : Bool)
        → (if same then waiting_for_parent_wager else no_valid_parent "parent_identity_mismatch")
          ≡ waiting_for_parent_wager
        → same ≡ true
    go true k = refl
    go false k = ground arith

-- Without a proposal no row waits.
nowhere :
    (repo ledger_branch key : String) (row : SettledRow)
    → on_proposal
        (proposal_problem none repo ledger_branch)
        (records_of (proposal_problem none repo ledger_branch) none)
        key
        row
      ≡ waiting_for_parent_wager
    → ⊥
unfolding on_proposal proposal_problem
nowhere repo ledger_branch key row h = ground arith

on_proposal-waiting :
    (proposal : Option Proposal) (repo ledger_branch key : String) (row : SettledRow)
    → on_proposal
        (proposal_problem proposal repo ledger_branch)
        (records_of (proposal_problem proposal repo ledger_branch) proposal)
        key
        row
      ≡ waiting_for_parent_wager
    → (valid : Proposal) × (proposal ≡ some valid)
      × IsValid valid repo ledger_branch
      × HasParent valid key row
unfolding on_proposal
on_proposal-waiting none repo ledger_branch key row h =
    elim (nowhere repo ledger_branch key row h) [ ]
on_proposal-waiting (some proposal) repo ledger_branch key row h =
    go (proposal_problem (some proposal) repo ledger_branch) refl h
  where
    go :
        (problem : Option String)
        → proposal_problem (some proposal) repo ledger_branch ≡ problem
        → on_proposal problem (records_of problem (some proposal)) key row
          ≡ waiting_for_parent_wager
        → (valid : Proposal) × (some proposal ≡ some valid)
          × IsValid valid repo ledger_branch
          × HasParent valid key row
    go none e k = (
      proposal,
      refl,
      proposal_problem-IsValid proposal repo ledger_branch e,
      among-waiting (parents_with proposal.records key) row k,
    )
    go (some problem) e k = ground arith

unknown :
    (known : Bool) (state : Parent)
    → (if known then canonical_parent else state) ≡ waiting_for_parent_wager
    → (known ≡ false) × (state ≡ waiting_for_parent_wager)
unknown true state h = ground arith
unknown false state h = (refl, h)

-- A row is withheld only if it has a key, its wager is not on the canonical ledger, there is a valid
-- proposal, and exactly one wager on it has that key, with the row's ticker and side.
pub state_in-waiting :
    (keys : List String) (proposal : Option Proposal) (repo ledger_branch : String)
    (row : SettledRow)
    → state_in keys proposal repo ledger_branch row ≡ waiting_for_parent_wager
    → (key : String) × (first_member row key_fields ≡ some key)
      × (contains key keys ≡ false)
      × ((valid : Proposal) × (proposal ≡ some valid)
          × IsValid valid repo ledger_branch
          × HasParent valid key row)
unfolding parent_of keyed_parent
state_in-waiting keys proposal repo ledger_branch row h = go (first_member row key_fields) refl h
  where
    go :
        (k : Option String)
        → first_member row key_fields ≡ k
        → keyed_parent keys
            (proposal_problem proposal repo ledger_branch)
            (records_of (proposal_problem proposal repo ledger_branch) proposal)
            k
            row
          ≡ waiting_for_parent_wager
        → (key : String) × (first_member row key_fields ≡ some key)
          × (contains key keys ≡ false)
          × ((valid : Proposal) × (proposal ≡ some valid)
              × IsValid valid repo ledger_branch
              × HasParent valid key row)
    go none e w = ground arith
    go (some key) e w =
        let off_ledger = unknown (contains key keys) _ w in
        (key, e, off_ledger.0, on_proposal-waiting proposal repo ledger_branch key row off_ledger.1)

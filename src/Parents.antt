-- ===== src/Parents.antt =====
-- Where the parent wager of each settled row is (kalshi_router/settlement_parents.py). `Sorted` is
-- about the split, `Withheld` about the rows that are held back.
pub mod Sorted
pub mod Withheld
use Prim.Native.Char.{code}
use Prim.Native.String.{[] as empty, ◌∷◌ as before}
use kalshi_bet_router.Base.{
  ℕ, suc, ◌+◌, String, Bool, true, false, Option, none, some, List, [], ◌∷◌, ◌++◌, not, ◌&&◌, ◌||◌,
  if◌then◌else◌, leb, ◌==◌, contains, filter, str_eq, option_str_eq,
}
use kalshi_bet_router.Receipts.{is_truthy, text_member}

-- A wager or a settlement as a record with text members.
abbrev pub SettledRow : Type 0
SettledRow = List (String × Option String)

abbrev pub key_fields : List String
key_fields = "source_bet_key" ∷ "sourceBetKey" ∷ []

abbrev pub ticker_fields : List String
ticker_fields = "market_ticker" ∷ "marketTicker" ∷ []

-- `_first`: an empty text counts as missing.
unfoldable pub first_member : SettledRow → List String → Option String
first_member row [] = none
first_member row (name ∷ names) =
    let rest = first_member row names in
    if is_truthy (text_member row name) then text_member row name else rest

-- The parts of GitHub's pull request that are read; a missing object has `none` in all of them.
pub record Pull : Type 0 where
  pub state : Option String
  pub draft : Bool
  pub head_ref : Option String
  pub head_sha : Option String
  pub head_full_name : Option String
  pub base_ref : Option String

pub record Proposal : Type 0 where
  pub branch : String
  pub fetched_sha : Option String
  pub pull : Option Pull
  pub records : List SettledRow
  pub unverifiable : Option String

-- `str.lower` on a letter of a repository's name, which is ASCII on GitHub.
abbrev pub lowered : ℕ → ℕ
lowered n = if leb 65 n && leb n 90 then n + 32 else n

-- `a.lower() == b.lower()`
unfoldable pub same_lowered : String → String → Bool
same_lowered empty empty = true
same_lowered empty (before d t) = false
same_lowered (before c s) empty = false
same_lowered (before c s) (before d t) = lowered (code c) == lowered (code d) && same_lowered s t

abbrev pub or_empty : Option String → String
or_empty none = ""
or_empty (some s) = s

unfoldable pub pull_problem : Proposal → Pull → String → String → Option String
unfolding same_lowered
pull_problem proposal pull repo ledger_branch =
    if not (option_str_eq pull.state (some "open"))
    then some "pull_request_not_open"
    else if pull.draft
    then some "pull_request_is_draft"
    else if not (option_str_eq pull.head_ref (some proposal.branch))
    then some "pull_request_head_is_not_the_router_branch"
    else if not (same_lowered (or_empty pull.head_full_name) repo)
    then some "pull_request_from_another_repository"
    else if not (option_str_eq pull.base_ref (some ledger_branch))
    then some "pull_request_targets_another_branch"
    else if not (option_str_eq pull.head_sha proposal.fetched_sha)
    then some "proposal_moved_since_it_was_read"
    else none

unfoldable pub found_problem : Proposal → Option Pull → String → String → Option String
unfolding pull_problem
found_problem proposal none repo ledger_branch = some "no_open_pull_request"
found_problem proposal (some pull) repo ledger_branch =
    pull_problem proposal pull repo ledger_branch

unfoldable pub proposal_problem : Option Proposal → String → String → Option String
unfolding found_problem
proposal_problem none repo ledger_branch = some "no_proposal_branch"
proposal_problem (some proposal) repo ledger_branch =
    if not (is_truthy proposal.fetched_sha)
    then some "no_proposal_branch"
    else if is_truthy proposal.unverifiable
    then some "pull_request_unverifiable"
    else found_problem proposal proposal.pull repo ledger_branch

-- The state of a row: `CANONICAL_PARENT`, `WAITING_FOR_PARENT_WAGER`, or `NO_VALID_PARENT` with the
-- reason.
pub data Parent : Type 0 where
  canonical_parent waiting_for_parent_wager : Parent
  no_valid_parent : String → Parent

-- `by_key.get(key, [])`: the records of the proposal with this key, in their order.
unfoldable pub parents_with : List SettledRow → String → List SettledRow
unfolding first_member
parents_with records key =
    filter (λ record_row. option_str_eq (first_member record_row key_fields) (some key)) records

unfoldable pub is_same_bet : SettledRow → SettledRow → Bool
unfolding first_member
is_same_bet parent row =
    option_str_eq (first_member parent ticker_fields) (first_member row ticker_fields)
    && option_str_eq (text_member parent "side") (text_member row "side")

unfoldable pub among : List SettledRow → SettledRow → Parent
unfolding is_same_bet
among [] row = no_valid_parent "parent_not_on_proposal"
among (parent ∷ []) row =
    if is_same_bet parent row
    then waiting_for_parent_wager
    else no_valid_parent "parent_identity_mismatch"
among (parent ∷ second ∷ more) row = no_valid_parent "parent_ambiguous_on_proposal"

unfoldable pub on_proposal : Option String → List SettledRow → String → SettledRow → Parent
unfolding among parents_with
on_proposal (some problem) records key row = no_valid_parent problem
on_proposal none records key row = among (parents_with records key) row

unfoldable pub keyed_parent :
    List String → Option String → List SettledRow → Option String → SettledRow → Parent
unfolding on_proposal
keyed_parent canonical problem records none row = no_valid_parent "no_source_key"
keyed_parent canonical problem records (some key) row =
    if contains key canonical then canonical_parent else on_proposal problem records key row

-- One round of the loop, up to the bookkeeping: the state it puts a row in.
unfoldable pub parent_of : List String → Option String → List SettledRow → SettledRow → Parent
unfolding first_member keyed_parent
parent_of canonical problem records row =
    keyed_parent canonical problem records (first_member row key_fields) row

pub record Partition : Type 0 where
  pub ready : List SettledRow
  pub waiting : List SettledRow
  pub canonical_count : ℕ
  pub waiting_count : ℕ
  pub no_parent_count : ℕ
  pub reasons : List (String × ℕ)
  pub problem : Option String

-- `reasons[reason] = reasons.get(reason, 0) + 1`
unfoldable pub count_reason : String → List (String × ℕ) → List (String × ℕ)
count_reason reason [] = (reason, 1) ∷ []
count_reason reason ((name, n) ∷ rest) =
    let more = count_reason reason rest in
    if str_eq name reason then (name, suc n) ∷ rest else (name, n) ∷ more

-- The bookkeeping of a round.
unfoldable pub put_row : SettledRow → Parent → Partition → Partition
unfolding count_reason
put_row row canonical_parent out = record out {
  ready = out.ready ++ row ∷ [];
  canonical_count = suc out.canonical_count;
}
put_row row waiting_for_parent_wager out = record out {
  waiting = out.waiting ++ row ∷ [];
  waiting_count = suc out.waiting_count;
}
put_row row (no_valid_parent reason) out = record out {
  ready = out.ready ++ row ∷ [];
  no_parent_count = suc out.no_parent_count;
  reasons = count_reason reason out.reasons;
}

unfoldable pub put_rows : (SettledRow → Parent) → List SettledRow → Partition → Partition
unfolding put_row
put_rows parent [] out = out
put_rows parent (row ∷ rows) out = put_rows parent rows (put_row row (parent row) out)

abbrev pub no_rows : Option String → Partition
no_rows problem = record {
  ready = [];
  waiting = [];
  canonical_count = 0;
  waiting_count = 0;
  no_parent_count = 0;
  reasons = [];
  problem = problem;
}

-- The records of the proposal, if it is one to defer on.
abbrev pub records_of : Option String → Option Proposal → List SettledRow
records_of none (some proposal) = proposal.records
records_of problem proposal = []

unfoldable pub partition :
    List SettledRow → List String → Option Proposal → String → String → Partition
unfolding proposal_problem parent_of put_rows
partition rows canonical_parent_keys proposal repo ledger_branch =
    let problem = proposal_problem proposal repo ledger_branch in
    put_rows (parent_of canonical_parent_keys problem (records_of problem proposal)) rows
      (no_rows problem)

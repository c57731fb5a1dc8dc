-- ===== src/Lib.antt =====
-- kalshi-bet-router: the accounting core, and the gates that stand between it and a ledger.
--
-- The router reads the fills of an exchange account, replays them into positions and episodes, and
-- hands wagers and settlements to the ledgers of other repositories. This development models the
-- parts that decide something:
--
--   `Base`: shared names, lists, texts, the result of a call that may raise, whole numbers.
--   `Decimal` (the `decimal` module as kalshi_router/accounting uses it): a value is a whole number of
--   units, the unit being one for contracts, 10 ^ -40 dollars for prices and their product for
--   profits, and a microsecond for times. Averages and profits are rounded half-even to 28 significant digits, as the
--   default context does. Sums of quantities and of fees, and the products of a fill's own price and
--   count, are exact in the model: the exchange states them in few digits, so Python's are exact too.
--   `Fill` (kalshi_router/models.py, timeaxis.py, accounting/ordering.py): the normalised records. A
--   timestamp carries the time that `datetime.fromisoformat` reads in it.
--   `Episode` (accounting/position.py, accounting/identity.py): transitions, episodes, identities.
--   `Position` and its children (accounting/position.py): `Fills` is `apply_fill`, `Settlements` is
--   `apply_settlement`. Mutation of a ledger and of its current episode is a new record; the episode
--   that a ledger closes is the one that it held, so no alias is lost.
--   `Ordering` (accounting/ordering.py), `Orders` and its child (accounting/execution.py).
--   `Engine` and its children (accounting/engine.py): `replay` composes the de-duplication, the walk
--   over the fills, the order groups, the settlements, the coverage marks and the authority. The
--   dictionary of ledgers is an association list; counters and flags are fields.
--   `Destinations` and its children (kalshi_router/destinations.py): the profiles of the ledgers that
--   rows go to, as a table, and the patterns of paths, which are matched piece by piece. `\d` matches
--   the decimal digits of every script; which characters those are is a parameter.
--   `Receipts` (kalshi_router/receipts.py): what an importer said of each row. The members of a JSON
--   object are kept by the type of their values.
--   `Gate` and its children (kalshi_router/automerge.py): `evaluate`, one definition for each of its
--   twelve conditions, and what may land. The reasons of a verdict are texts for a log, and are left
--   out; a list of problems is the test whether it is empty.
--   `Parents` and its children (kalshi_router/settlement_parents.py): the split of settled rows by the
--   place of their parent wager. The object GitHub returns for a pull request is a record of the parts
--   that are read, and repository names are ASCII, as GitHub has them.
--   `Coverage` (kalshi_router/coverage.py): the reach of the settlements that the exchange returned.
--   `Wagers` and its children (kalshi_router/settlement.py): what the exchange paid on each wager.
--   `str.upper` and `str.lower` are the parameter that `Classify` has for them.
--   `Production` and its children (kalshi_router/production.py): the source key of an order, whether it
--   is final, the gates of `evaluate_order`, the filter over a run's orders, its counts and its health.
--   SHA-256 is a parameter. The function of the ordered gates is split where the source looks into an
--   optional value.
--   `RoutedLedger` and its children (contract/edge_finder_contract/routed_ledger.py): the append-only
--   ledger that destinations share. JSON values are kept by their type, numbers with the arithmetic that
--   the code uses. The files are texts that are split as `str.splitlines` does; `json.dumps` and
--   `json.loads` are a parameter, so a row whose text ends a line early is not read back, as in Python.
--   The two importers share one loop over the rows.
--   `Classify` and its children (kalshi_router/classify.py, competitions.py, series_registry.py, and the
--   lookups of taxonomy.py, milestones.py and refusals.py): the levels of evidence on a market's sport, the
--   decision over them, and combos. A verdict and the evidence it adds are two functions; the search of a
--   token by a regular expression is a walk over the text.
--   `Tests`: runs on small inputs, and the theorems at such inputs.
--
-- `Classify` gives each market its sport. The accounting reads fills and settlements and yields
-- episodes and orders; `Production` turns orders into wagers, and `RoutedLedger` files them at a
-- destination; `Wagers` turns settlements into rows for the wagers; `Parents` decides which rows an
-- importer is asked about; and after the import `Gate` reads the receipts and the pull request, and
-- decides whether it lands.
--
-- An exception is a value of `Result`. No definition takes fuel but the digit loops, whose fuel is above
-- the number: a round divides it by ten. Network access, signing, the HTTP client, the
-- reports and the scripts that move files only carry data and are not modelled; the tables of the
-- classification are taken as they were read, without the parsing that fills them; the reconciliation of
-- ledgers is not modelled.
pub mod Base
pub mod Decimal
pub mod Destinations
pub mod Wagers
pub mod Receipts
pub mod Fill
pub mod Episode
pub mod Production
pub mod Position
pub mod Ordering
pub mod Orders
pub mod Engine
pub mod Classify
pub mod Coverage
pub mod Gate
pub mod Parents
pub mod RoutedLedger
pub mod Tests

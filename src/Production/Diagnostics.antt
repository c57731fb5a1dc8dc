-- ===== src/Production/Diagnostics.antt =====
-- The counts of a run, and its state of health (kalshi_router/production.py).
use kalshi_bet_router.Base.{
  ℕ, suc, ◌+◌, Bool, true, false, not, ◌||◌, List, [], ◌∷◌, filter, if◌then◌else◌, ◌==◌,
}
use kalshi_bet_router.Production.Finality.{
  OrderFinality, final_market_closed, final_stable, pending_recent_fill, unknown,
}
use kalshi_bet_router.Production.Gates.{
  ProductionRefusal, before_cutover, order_not_final, no_execution_price, fees_incomplete,
  market_not_classified, sport_unresolved, no_destination_importer, destination_not_activated,
  game_date_not_established, reduction_not_representable, combo_not_recordable,
}

pub data HealthState : Type 0 where
  healthy_no_op delivered deferred not_routable blocked : HealthState

pub record ProductionDiagnostics : Type 0 where
  pub orders_considered : ℕ
  pub eligible : ℕ
  pub refused_before_cutover : ℕ
  pub refused_order_not_final : ℕ
  pub refused_no_execution_price : ℕ
  pub refused_fees_incomplete : ℕ
  pub refused_market_not_classified : ℕ
  pub refused_sport_unresolved : ℕ
  pub refused_no_destination_importer : ℕ
  pub refused_destination_not_activated : ℕ
  pub refused_game_date_not_established : ℕ
  pub refused_reduction_not_representable : ℕ
  pub refused_combo_not_recordable : ℕ
  pub eligible_combo_orders : ℕ
  pub sell_orders_recorded_by_contract : ℕ
  pub sell_orders_recorded_by_exposure : ℕ
  pub orders_after_cutover : ℕ
  pub pre_cutover_admitted : ℕ
  pub unresolved_metadata_lookup_failed : ℕ
  pub unresolved_no_metadata : ℕ
  pub unresolved_malformed_event_metadata : ℕ
  pub unresolved_competition_absent : ℕ
  pub unresolved_competition_unknown : ℕ
  pub unresolved_competition_ambiguous : ℕ
  pub unresolved_milestone_conflict : ℕ
  pub unresolved_evidence_conflict : ℕ
  pub unresolved_ambiguous_family : ℕ
  pub unresolved_insufficient : ℕ
  pub unresolved_combo_legs_unavailable : ℕ
  pub unresolved_combo_leg_unresolved : ℕ
  pub unresolved_combo_legs_span_sports : ℕ
  pub unresolved_reason_unavailable : ℕ
  pub final_market_closed_orders : ℕ
  pub final_stable_orders : ℕ
  pub pending_recent_fill_orders : ℕ
  pub finality_unknown : ℕ

abbrev pub no_diagnostics : ProductionDiagnostics
no_diagnostics = record {
  orders_considered = 0;
  eligible = 0;
  refused_before_cutover = 0;
  refused_order_not_final = 0;
  refused_no_execution_price = 0;
  refused_fees_incomplete = 0;
  refused_market_not_classified = 0;
  refused_sport_unresolved = 0;
  refused_no_destination_importer = 0;
  refused_destination_not_activated = 0;
  refused_game_date_not_established = 0;
  refused_reduction_not_representable = 0;
  refused_combo_not_recordable = 0;
  eligible_combo_orders = 0;
  sell_orders_recorded_by_contract = 0;
  sell_orders_recorded_by_exposure = 0;
  orders_after_cutover = 0;
  pre_cutover_admitted = 0;
  unresolved_metadata_lookup_failed = 0;
  unresolved_no_metadata = 0;
  unresolved_malformed_event_metadata = 0;
  unresolved_competition_absent = 0;
  unresolved_competition_unknown = 0;
  unresolved_competition_ambiguous = 0;
  unresolved_milestone_conflict = 0;
  unresolved_evidence_conflict = 0;
  unresolved_ambiguous_family = 0;
  unresolved_insufficient = 0;
  unresolved_combo_legs_unavailable = 0;
  unresolved_combo_leg_unresolved = 0;
  unresolved_combo_legs_span_sports = 0;
  unresolved_reason_unavailable = 0;
  final_market_closed_orders = 0;
  final_stable_orders = 0;
  pending_recent_fill_orders = 0;
  finality_unknown = 0;
}

-- `getattr(diagnostics, _REFUSAL_COUNTERS[refusal])`
unfoldable pub refused_as : ProductionRefusal → ProductionDiagnostics → ℕ
refused_as before_cutover d = d.refused_before_cutover
refused_as order_not_final d = d.refused_order_not_final
refused_as no_execution_price d = d.refused_no_execution_price
refused_as fees_incomplete d = d.refused_fees_incomplete
refused_as market_not_classified d = d.refused_market_not_classified
refused_as sport_unresolved d = d.refused_sport_unresolved
refused_as no_destination_importer d = d.refused_no_destination_importer
refused_as destination_not_activated d = d.refused_destination_not_activated
refused_as game_date_not_established d = d.refused_game_date_not_established
refused_as reduction_not_representable d = d.refused_reduction_not_representable
refused_as combo_not_recordable d = d.refused_combo_not_recordable

-- One more refusal: `setattr` of the counter that `_REFUSAL_COUNTERS` names.
unfoldable pub count_refused : ProductionRefusal → ProductionDiagnostics → ProductionDiagnostics
count_refused before_cutover d = record d { refused_before_cutover = suc d.refused_before_cutover }
count_refused order_not_final d = record d {
  refused_order_not_final = suc d.refused_order_not_final;
}
count_refused no_execution_price d = record d {
  refused_no_execution_price = suc d.refused_no_execution_price;
}
count_refused fees_incomplete d = record d {
  refused_fees_incomplete = suc d.refused_fees_incomplete;
}
count_refused market_not_classified d = record d {
  refused_market_not_classified = suc d.refused_market_not_classified;
}
count_refused sport_unresolved d = record d {
  refused_sport_unresolved = suc d.refused_sport_unresolved;
}
count_refused no_destination_importer d = record d {
  refused_no_destination_importer = suc d.refused_no_destination_importer;
}
count_refused destination_not_activated d = record d {
  refused_destination_not_activated = suc d.refused_destination_not_activated;
}
count_refused game_date_not_established d = record d {
  refused_game_date_not_established = suc d.refused_game_date_not_established;
}
count_refused reduction_not_representable d = record d {
  refused_reduction_not_representable = suc d.refused_reduction_not_representable;
}
count_refused combo_not_recordable d = record d {
  refused_combo_not_recordable = suc d.refused_combo_not_recordable;
}

-- The same for the counter that `_FINALITY_COUNTERS` names.
unfoldable pub count_finality : OrderFinality → ProductionDiagnostics → ProductionDiagnostics
count_finality final_market_closed d = record d {
  final_market_closed_orders = suc d.final_market_closed_orders;
}
count_finality final_stable d = record d { final_stable_orders = suc d.final_stable_orders }
count_finality pending_recent_fill d = record d {
  pending_recent_fill_orders = suc d.pending_recent_fill_orders;
}
count_finality unknown d = record d { finality_unknown = suc d.finality_unknown }

abbrev pub all_refusals : List ProductionRefusal
all_refusals =
    before_cutover ∷ order_not_final ∷ no_execution_price ∷ fees_incomplete ∷ market_not_classified
    ∷ sport_unresolved ∷ no_destination_importer ∷ destination_not_activated
    ∷ game_date_not_established ∷ reduction_not_representable ∷ combo_not_recordable ∷ []

-- Membership in `SELF_RESOLVING_REFUSALS` and in `BY_DESIGN_REFUSALS`.
abbrev pub is_self_resolving : ProductionRefusal → Bool
is_self_resolving order_not_final = true
is_self_resolving _ = false

abbrev pub is_by_design : ProductionRefusal → Bool
is_by_design before_cutover = true
is_by_design no_destination_importer = true
is_by_design _ = false

-- Membership in `NEEDS_ATTENTION_REFUSALS`, which is what the other two sets leave.
abbrev pub needs_attention : ProductionRefusal → Bool
needs_attention r = not (is_self_resolving r || is_by_design r)

-- The sum of the counters of some refusals.
abbrev pub sum_of : List ProductionRefusal → ProductionDiagnostics → ℕ
unfolding refused_as
sum_of [] d = 0
sum_of (r ∷ rs) d = refused_as r d + sum_of rs d

-- The properties of the counts.
unfoldable pub refusals_total : ProductionDiagnostics → ℕ
unfolding refused_as sum_of
refusals_total d = sum_of all_refusals d

unfoldable pub deferred_orders : ProductionDiagnostics → ℕ
unfolding refused_as sum_of
deferred_orders d = sum_of (filter is_self_resolving all_refusals) d

unfoldable pub blocked_orders : ProductionDiagnostics → ℕ
unfolding refused_as sum_of
blocked_orders d = sum_of (filter needs_attention all_refusals) d

unfoldable pub is_healthy_no_op : ProductionDiagnostics → Bool
is_healthy_no_op d = d.orders_after_cutover == 0

unfoldable pub health : ProductionDiagnostics → HealthState
unfolding blocked_orders deferred_orders
health d =
    if not (blocked_orders d == 0)
    then blocked
    else if not (deferred_orders d == 0)
    then deferred
    else if not (d.eligible == 0)
    then delivered
    else if not (d.orders_after_cutover == 0)
    then not_routable
    else healthy_no_op

-- ===== src/Position/Settled.antt =====
-- Both outcomes of `apply_settlement` (kalshi_router/accounting/position.py): what an accepted
-- settlement leaves, and what a refusal says.
use kalshi_bet_router.Base.{
  ℕ, suc, ◌<◌, ◌≡◌, ◌≢◌, ◌⊎◌, inl, inr, refl, ap, ◌∙◌, arith, true, false, Option, none, some, ltb,
  length, length-append, All, All-append, Bool-cases,
}
use kalshi_bet_router.Base.Int.{ℤ, pos, abs, eq_ℤ}
use kalshi_bet_router.Decimal.{Decimal}
use kalshi_bet_router.Fill.{NormalizedSettlement, settled_quantity}
use kalshi_bet_router.Episode.{settles, PositionTransition, PositionEpisode}
use kalshi_bet_router.Position.{MarketLedger, sign}
use kalshi_bet_router.Position.Settlements.{
  SettlementRefusal, replay_flat, settlement_larger, settlement_smaller, opposite_direction,
  ambiguous_subaccount, Settled, applied, refused, refusal_shape, settle, settle_episode,
  disagreement, settle_unless, settled_out, apply_settlement,
}
use kalshi_bet_router.Position.Invariant.{IsFlat, Current, IsValid}

-- How a stated quantity differs from the replayed one.
abbrev pub Differs : SettlementRefusal → Decimal → Decimal → Type 0
Differs settlement_larger stated replayed =
    (sign stated ≡ sign replayed) × (abs replayed < abs stated)
Differs settlement_smaller stated replayed =
    (sign stated ≡ sign replayed) × (abs stated < abs replayed)
Differs opposite_direction stated replayed = sign stated ≢ sign replayed
Differs _ stated replayed = ⊥

-- What an outcome means for the ledger `l`.
abbrev pub Means : MarketLedger → NormalizedSettlement → Settled → Type 0
Means l st (applied l' t) =
    IsValid l'
    × (l.position ≢ pos 0)
    × ((settled_quantity st ≡ none) ⊎ (settled_quantity st ≡ some l.position))
    × (l'.position ≡ pos 0)
    × (length l'.closed_episodes ≡ suc (length l.closed_episodes))
    × (t.kind ≡ settles)
    × (t.position_before ≡ l.position)
    × (t.quantity_closed ≡ abs l.position)
Means l st (refused replay_flat) = l.position ≡ pos 0
Means l st (refused r) =
    (stated : Decimal) × (settled_quantity st ≡ some stated)
    × (stated ≢ l.position)
    × Differs r stated l.position

eq_ℤ-eq : (a b : ℤ) → eq_ℤ a b ≡ true → a ≡ b
eq_ℤ-eq a b h = ground arith

eq_ℤ-ne : (a b : ℤ) → eq_ℤ a b ≡ false → a ≢ b
eq_ℤ-ne a b h = ground arith

lt_of_not : (a b : ℕ) → ltb a b ≡ false → b ≢ a → b < a
lt_of_not a b h ne = ground arith

same_side : (q p : ℤ) → sign q ≡ sign p → abs q ≡ abs p → q ≡ p
same_side q p e h = ground arith

refusal_shape-Differs : (q p : ℤ) → q ≢ p → Differs (refusal_shape q p) q p
unfolding refusal_shape
refusal_shape-Differs q p ne = elim (Bool-cases (eq_ℤ (sign q) (sign p))) [
  | inr apart ↦ rw apart (eq_ℤ-ne (sign q) (sign p) apart)
  | inl same ↦
      let e = eq_ℤ-eq (sign q) (sign p) same in
      elim (Bool-cases (ltb (abs p) (abs q))) [
        | inl more ↦ rw (same, more) (e, ground arith)
        | inr less ↦
            rw (same, less) (e, lt_of_not (abs p) (abs q) less (λ h. ne (same_side q p e h)))
      ]
]

settled_out-IsValid :
    (l : MarketLedger) (current : Option PositionEpisode) (st : NormalizedSettlement) (p : Decimal)
    (realized : Option Decimal) (t : PositionTransition)
    → l.position ≡ pos 0
    → All IsFlat l.closed_episodes
    → Current p current
    → p ≢ pos 0
    → let l' = settled_out l current st (abs p) realized t in
      IsValid l'
      × (l'.position ≡ pos 0)
      × (length l'.closed_episodes ≡ suc (length l.closed_episodes))
unfolding settle_episode
settled_out-IsValid l none st p realized t z past c ne = absurd (ne c)
settled_out-IsValid l (some e) st p realized t z past c ne = (
  record {
    current = z;
    past =
        All-append IsFlat l.closed_episodes _ past
          (record { shut = refl; empty = refl; even = omega (arith, c.1.balanced, c.1.held) }, tt);
  },
  z,
  omega (arith, length-append {0} l.closed_episodes _),
)

module _ (l : MarketLedger) (st : NormalizedSettlement) where
  settle-Means :
      IsValid l
      → l.position ≢ pos 0
      → (settled_quantity st ≡ none) ⊎ (settled_quantity st ≡ some l.position)
      → Means l st (settle l st)
  unfolding settle
  settle-Means v ne agreed =
      let out =
        settled_out-IsValid (record l { position = pos 0; average_entry_price = none })
          l.current_episode st l.position _ _ refl v.past v.current ne in
      (out.0, ne, agreed, out.1, out.2, refl, refl, refl)

  refused-Means :
      (r : SettlementRefusal) (q : Decimal)
      → settled_quantity st ≡ some q
      → q ≢ l.position
      → Differs r q l.position
      → Means l st (refused r)
  refused-Means replay_flat q e ne d = absurd d
  refused-Means settlement_larger q e ne d = (q, e, ne, d)
  refused-Means settlement_smaller q e ne d = (q, e, ne, d)
  refused-Means opposite_direction q e ne d = (q, e, ne, d)
  refused-Means ambiguous_subaccount q e ne d = absurd d

  stated-Means :
      (stated : Option Decimal)
      → settled_quantity st ≡ stated
      → IsValid l
      → l.position ≢ pos 0
      → Means l st (settle_unless (disagreement stated l.position) l st)
  stated-Means none e v ne = settle-Means v ne (inl e)
  stated-Means (some q) e v ne = elim (Bool-cases (eq_ℤ q l.position)) [
    | inl same ↦ rw same (settle-Means v ne (inr (e ∙ ap some (eq_ℤ-eq q l.position same))))
    | inr other ↦ rw other (
        refused-Means (refusal_shape q l.position) q e (eq_ℤ-ne q l.position other)
          (refusal_shape-Differs q l.position (eq_ℤ-ne q l.position other)))
  ]

  -- On a ledger that satisfies the invariant, a settlement is applied only to a position that is
  -- held and whose size it states or leaves open; the ledger is then flat, satisfies the invariant
  -- and has one more closed episode, and the transition closes the whole position. It is refused as
  -- flat only if nothing is held, and otherwise only if it states another quantity, with the shape
  -- of the difference.
  pub apply_settlement-Means : IsValid l → Means l st (apply_settlement l st)
  unfolding apply_settlement
  apply_settlement-Means v = elim (Bool-cases (eq_ℤ l.position (pos 0))) [
    | inl flat ↦ rw flat (eq_ℤ-eq l.position (pos 0) flat)
    | inr held ↦
        rw held (stated-Means (settled_quantity st) refl v (eq_ℤ-ne l.position (pos 0) held))
  ]

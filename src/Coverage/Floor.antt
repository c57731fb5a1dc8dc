-- ===== src/Coverage/Floor.antt =====
-- A floor is the time of the earliest settlement, and it is withheld where that is not known.
use kalshi_bet_router.Base.{
  subst, zero, Bool-cases, ◌||◌, ℕ, suc, Bool, true, false, Option, none, some, List, [], ◌∷◌, ◌≡◌,
  refl, sym, ap, ◌∙◌, ◌⊎◌, inl, inr, not, if◌then◌else◌, ltb, All, arith,
}
use kalshi_bet_router.Base.Int.{◌≤ℤ◌, ltb_ℤ}
use kalshi_bet_router.Decimal.{Decimal}
use kalshi_bet_router.Fill.{NormalizedSettlement, settled_at}
use kalshi_bet_router.Coverage.{
  SettlementCoverage, observed_floor, floor, earlier, measured, measure, unmeasured,
  build_settlement_coverage,
}

-- A settlement whose time is readable and not before `at`.
abbrev pub NotBefore : Decimal → NormalizedSettlement → Type 0
NotBefore at settlement = (t : Decimal) × (settled_at settlement ≡ some t) × (at ≤ℤ t)

-- One of the settlements has the time `at`.
abbrev pub Attained : Decimal → List NormalizedSettlement → Type 0
Attained at [] = ⊥
Attained at (settlement ∷ settlements) = (settled_at settlement ≡ some at) ⊎ Attained at settlements

-- A time that is not known, or not before `at`.
abbrev AtLeast : Decimal → Option Decimal → Type 0
AtLeast at none = Unit
AtLeast at (some t) = at ≤ℤ t

AtLeast-both :
    (earliest : Option Decimal) (t at : Decimal)
    → at ≤ℤ earlier earliest t
    → AtLeast at earliest × (at ≤ℤ t)
AtLeast-both none t at h = (tt, h)
AtLeast-both (some e) t at h = ground arith

one_of_both :
    (earliest : Option Decimal) (t at : Decimal)
    → some (earlier earliest t) ≡ some at
    → (earliest ≡ some at) ⊎ (some t ≡ some at)
one_of_both none t at h = inr h
one_of_both (some e) t at h = elim (Bool-cases (ltb_ℤ t e)) [
  | inl b ↦ inr (ap (λ c. some (if c then t else e)) (sym b) ∙ h)
  | inr b ↦ inl (ap (λ c. some (if c then t else e)) (sym b) ∙ h)
]

-- The loop only lowers its earliest time, and never loses an unreadable row.
measure-lowers :
    (settlements : List NormalizedSettlement) (coverage : SettlementCoverage) (at : Decimal)
    → (measure coverage settlements).rows_with_an_unreadable_time ≡ 0
    → AtLeast at (measure coverage settlements).earliest_settled_at
    → (coverage.rows_with_an_unreadable_time ≡ 0)
      × All (NotBefore at) settlements
      × AtLeast at coverage.earliest_settled_at
unfolding measure measured
measure-lowers [] coverage at h k = (h, tt, k)
measure-lowers (settlement ∷ settlements) coverage at h k =
    go (settled_at settlement) refl
      (measure-lowers settlements (measured coverage (settled_at settlement)) at h k)
  where
    go :
        (time : Option Decimal)
        → settled_at settlement ≡ time
        → ((measured coverage time).rows_with_an_unreadable_time ≡ 0)
          × All (NotBefore at) settlements
          × AtLeast at (measured coverage time).earliest_settled_at
        → (coverage.rows_with_an_unreadable_time ≡ 0)
          × (NotBefore at settlement × All (NotBefore at) settlements)
          × AtLeast at coverage.earliest_settled_at
    go none e (u, rest, b) = ground arith
    go (some t) e (u, rest, b) =
        let split = AtLeast-both coverage.earliest_settled_at t at b in
        (u, ((t, e, split.1), rest), split.0)

-- The earliest time of the loop is that of a row, or the one it began with.
measure-Attained :
    (settlements : List NormalizedSettlement) (coverage : SettlementCoverage) (at : Decimal)
    → (measure coverage settlements).earliest_settled_at ≡ some at
    → (coverage.earliest_settled_at ≡ some at) ⊎ Attained at settlements
unfolding measure measured
measure-Attained [] coverage at k = inl k
measure-Attained (settlement ∷ settlements) coverage at k =
    go (settled_at settlement) refl
      (measure-Attained settlements (measured coverage (settled_at settlement)) at k)
  where
    go :
        (time : Option Decimal)
        → settled_at settlement ≡ time
        → ((measured coverage time).earliest_settled_at ≡ some at) ⊎ Attained at settlements
        → (coverage.earliest_settled_at ≡ some at)
          ⊎ ((settled_at settlement ≡ some at) ⊎ Attained at settlements)
    go time e (inr later_one) = inr (inr later_one)
    go none e (inl k) = inl k
    go (some t) e (inl k) = elim (one_of_both coverage.earliest_settled_at t at k) [
      | inl k ↦ inl k
      | inr k ↦ inr (inl (e ∙ k))
    ]

-- The flags of the walk stay as they were.
measure-flags :
    (settlements : List NormalizedSettlement) (coverage : SettlementCoverage)
    → ((measure coverage settlements).exhausted ≡ coverage.exhausted)
      × ((measure coverage settlements).truncated ≡ coverage.truncated)
unfolding measure measured
measure-flags [] coverage = (refl, refl)
measure-flags (settlement ∷ settlements) coverage =
    go (settled_at settlement)
      (measure-flags settlements (measured coverage (settled_at settlement)))
  where
    go :
        (time : Option Decimal)
        → ((measure (measured coverage time) settlements).exhausted
            ≡ (measured coverage time).exhausted)
          × ((measure (measured coverage time) settlements).truncated
              ≡ (measured coverage time).truncated)
        → ((measure (measured coverage time) settlements).exhausted ≡ coverage.exhausted)
          × ((measure (measured coverage time) settlements).truncated ≡ coverage.truncated)
    go none h = h
    go (some t) h = h

usable :
    (windowed exhausted truncated : Bool) (unreadable : ℕ) (earliest : Option Decimal)
    (at : Decimal)
    → (if windowed
        then none
        else if not exhausted || truncated
        then none
        else if ltb 0 unreadable
        then none
        else earliest)
      ≡ some at
    → (exhausted ≡ true) × (truncated ≡ false) × (unreadable ≡ 0) × (earliest ≡ some at)
usable true exhausted truncated n o at h = ground arith
usable false false truncated n o at h = ground arith
usable false true true n o at h = ground arith
usable false true false n o at h = unread n h
  where
    unread :
        (n : ℕ)
        → (if ltb 0 n then none else o) ≡ some at
        → (true ≡ true) × (false ≡ false) × (n ≡ 0) × (o ≡ some at)
    unread zero h = (refl, refl, refl, h)
    unread (suc n) h = ground arith

-- The floor of a measured walk is a time only where the walk was exhausted and not truncated; then
-- every settlement has a readable time, none is before the floor, and one is at it.
pub floor-earliest :
    (settlements : List NormalizedSettlement) (exhausted truncated : Bool) (at : Decimal)
    → floor (build_settlement_coverage settlements exhausted truncated) ≡ some at
    → (exhausted ≡ true)
      × (truncated ≡ false)
      × All (NotBefore at) settlements
      × Attained at settlements
unfolding floor observed_floor build_settlement_coverage
floor-earliest settlements exhausted truncated at h =
    let coverage = measure (unmeasured exhausted truncated) settlements in
    let found =
      usable (ltb 0 coverage.below_floor_rows_older_than_the_floor) coverage.exhausted
        coverage.truncated coverage.rows_with_an_unreadable_time coverage.earliest_settled_at at
        h in
    let flags = measure-flags settlements (unmeasured exhausted truncated) in
    (
      sym flags.0 ∙ found.0,
      sym flags.1 ∙ found.1,
      (measure-lowers settlements (unmeasured exhausted truncated) at found.2
          (subst (AtLeast at) (sym found.3) at_itself)).1,
      somewhere (measure-Attained settlements (unmeasured exhausted truncated) at found.3),
    )
  where
    at_itself : at ≤ℤ at
    at_itself = omega arith

    somewhere : (none ≡ some at) ⊎ Attained at settlements → Attained at settlements
    somewhere (inl k) = ground arith
    somewhere (inr a) = a

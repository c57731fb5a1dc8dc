-- ===== src/Engine/Earned.antt =====
-- When a position story is proven (`_assign_authority`, kalshi_router/accounting/engine.py).
use mathlib.Core.Option
use kalshi_bet_router.Base.{
  ℕ, ◌≤◌, String, ◌≡◌, ◌↔◌, ◌⊎◌, inl, inr, refl, sym, ap, ◌∙◌, arith, Bool, true, false, Option,
  none, some, List, [], ◌∷◌, ◌++◌, ◌&&◌, if◌then◌else◌, map, all, contains, Bool-cases, All,
}
use kalshi_bet_router.Decimal.{Decimal}
use kalshi_bet_router.Episode.{
  closed_by_fills, explained_settled, earned, PositionEpisode, is_open, authority_is_earned,
}
use kalshi_bet_router.Position.{MarketLedger, episodes, with_current}
use kalshi_bet_router.Engine.{
  AccountingResult, is_complete, all_episodes, claims_complete_position_state,
}
use kalshi_bet_router.Engine.Ledgers.{LedgerMap}
use kalshi_bet_router.Engine.Settle.{on_episodes}
use kalshi_bet_router.Engine.Authority.{
  Positions, reported_at, held_in, open_episode_authority, episode_authority, assign_authority,
  map_ledgers, viewed, reconciled_with, authorise, closed_by_settlement,
}

-- The exchange's view of a ticker confirms the quantity that the replay holds.
abbrev pub Confirms : Positions → AccountingResult → MarketLedger → Type 0
Confirms positions r l =
    (contains l.ticker r.tickers_with_settlement_evidence ≡ false)
    × (held_in l.ticker r.ledgers ≤ 1)
    × (reported_at l.ticker positions ≡ some (some l.position))

viewed-earned :
    (v : Option Positions) (t : String) (n : ℕ) (p : Decimal)
    → earned (viewed v t n p) ≡ true
    → (ps : Positions) × (v ≡ some ps) × (n ≤ 1) × (reported_at t ps ≡ some (some p))
viewed-earned none t n p e = cc
viewed-earned (some ps) t n p e = go (reported_at t ps) refl e
  where
    go :
        (o : Option (Option Decimal))
        → reported_at t ps ≡ o
        → earned (reconciled_with o n p) ≡ true
        → (qs : Positions) × (some ps ≡ some qs) × (n ≤ 1) × (reported_at t qs ≡ some (some p))
    go none q h = cc
    go (some none) q h = ground arith
    go (some (some x)) q h = (ps, refl, ground arith, q ∙ ap (λ y. some (some y)) (ground arith))

viewed-Confirms :
    (t : String) (n : ℕ) (p : Decimal) (ps : Positions)
    → n ≤ 1
    → reported_at t ps ≡ some (some p)
    → earned (viewed (some ps) t n p) ≡ true
viewed-Confirms t n p ps few e = rw e (ground arith)

-- What earns authority: an end, or the exchange's confirmation.
abbrev pub IsProven : AccountingResult → Option Positions → MarketLedger → PositionEpisode → Type 0
IsProven r v l e = (is_open e ≡ false) ⊎ ((ps : Positions) × (v ≡ some ps) × Confirms ps r l)

closed_authority : (b : Bool) → earned (if b then explained_settled else closed_by_fills) ≡ true
closed_authority true = refl
closed_authority false = refl

-- The authority of an open episode, from the exchange's side and to it.
open_earned :
    (r : AccountingResult) (v : Option Positions) (l : MarketLedger)
    → earned (open_episode_authority r l v) ≡ true
    → (ps : Positions) × (v ≡ some ps) × Confirms ps r l
unfolding open_episode_authority
open_earned r v l h = elim (Bool-cases (contains l.ticker r.tickers_with_settlement_evidence)) [
  | inl named ↦ cc (rw named at h)
  | inr silent ↦
      let (ps, q, few, held) =
        viewed-earned v l.ticker (held_in l.ticker r.ledgers) l.position (rw silent at h) in
      (ps, q, (silent, few, held))
]

open_confirmed :
    (r : AccountingResult) (v : Option Positions) (l : MarketLedger) (ps : Positions)
    → v ≡ some ps
    → Confirms ps r l
    → earned (open_episode_authority r l v) ≡ true
unfolding open_episode_authority
open_confirmed r v l ps q (silent, few, held) =
    rw (silent, q) (viewed-Confirms l.ticker (held_in l.ticker r.ledgers) l.position ps few held)

-- The authority of an episode is earned exactly if the episode is closed, or the exchange's positions
-- were supplied and name its ticker with the very quantity that the ledger holds, the ticker is held
-- in one subaccount, and no settlement named it.
pub episode_authority-IsProven :
    (r : AccountingResult) (v : Option Positions) (l : MarketLedger) (e : PositionEpisode)
    → (earned (episode_authority r v l e) ≡ true) ↔ IsProven r v l e
unfolding episode_authority
episode_authority-IsProven r v l e = elim (Bool-cases (is_open e)) [
  | inl open_now ↦ rw open_now (
    λ h. inr (open_earned r v l h),
    elim [ inl over ↦ cc | inr (ps, q, c) ↦ open_confirmed r v l ps q c ],
  )
  | inr over ↦ rw over (λ h. inl refl, λ p. closed_authority (closed_by_settlement e))
]

and_iff : (a b : Bool) → (a && b ≡ true) ↔ ((a ≡ true) × (b ≡ true))
and_iff a b = ground arith

all_iff {ℓ} :
    {A : Type ℓ} (p : A → Bool) (P : A → Type 0)
    → ((x : A) → (p x ≡ true) ↔ P x)
    → (xs : List A) → (all p xs ≡ true) ↔ All P xs
all_iff p P h [] = (λ e. tt, λ t. refl)
all_iff p P h (x ∷ xs) =
    let ih = all_iff p P h xs in
    let parts = and_iff (p x) (all p xs) in
    (λ e. ((h x).0 (parts.0 e).0, ih.0 (parts.0 e).1), λ t. parts.1 ((h x).1 t.0, ih.1 t.1))

all-append {ℓ} :
    {A : Type ℓ} (p : A → Bool) (xs ys : List A) → all p (xs ++ ys) ≡ all p xs && all p ys
all-append p [] ys = refl
all-append p (x ∷ xs) ys = ground (arith, all-append p xs ys)

all-map {ℓ} :
    {A : Type ℓ} (p : A → Bool) (f : A → A) (xs : List A) → all p (map f xs) ≡ all (λ x. p (f x)) xs
all-map p f [] = refl
all-map p f (x ∷ xs) = ap (λ b. p (f x) && b) (all-map p f xs)

-- The episodes of a ledger under an update of each.
all-on_episodes :
    (p : PositionEpisode → Bool) (f : PositionEpisode → PositionEpisode) (l : MarketLedger)
    → all p (episodes (on_episodes f l)) ≡ all (λ e. p (f e)) (episodes l)
all-on_episodes p f l = go l.current_episode
  where
    go :
        (o : Option PositionEpisode)
        → all p (with_current (map f l.closed_episodes) (Option.map f o))
          ≡ all (λ e. p (f e)) (with_current l.closed_episodes o)
    go none = all-map p f l.closed_episodes
    go (some e) =
        all-append p (map f l.closed_episodes) (f e ∷ [])
        ∙ ap (λ b. b && (p (f e) && true)) (all-map p f l.closed_episodes)
        ∙ sym (all-append (λ x. p (f x)) l.closed_episodes (e ∷ []))

-- Every episode of every ledger satisfies `P`, given its ledger.
abbrev pub EachEpisode : (MarketLedger → PositionEpisode → Type 0) → LedgerMap → Type 0
EachEpisode P [] = Unit
EachEpisode P ((key, l) ∷ ls) = All (P l) (episodes l) × EachEpisode P ls

all_episodes-earned :
    (r : AccountingResult) (v : Option Positions) (ls : LedgerMap)
    → (all (λ e. authority_is_earned e) (all_episodes (map_ledgers (authorise r v) ls)) ≡ true)
      ↔ EachEpisode (IsProven r v) ls
unfolding all_episodes map_ledgers
all_episodes-earned r v [] = (λ e. tt, λ t. refl)
all_episodes-earned r v ((key, l) ∷ ls) =
    let split =
      all-append (λ e. authority_is_earned e) (episodes (authorise r v l))
        (all_episodes (map_ledgers (authorise r v) ls)) in
    let here =
      all-on_episodes (λ e. authority_is_earned e)
        (λ e. record e { authority = episode_authority r v l e }) l in
    let each =
      all_iff (λ e. earned (episode_authority r v l e)) (IsProven r v l)
        (episode_authority-IsProven r v l) (episodes l) in
    let rest = all_episodes-earned r v ls in
    rw (split, here)
      (let parts = and_iff _ _ in
        (λ e. (each.0 (parts.0 e).0, rest.0 (parts.0 e).1), λ t. parts.1 (each.1 t.0, rest.1 t.1)))

-- After the authority was assigned, complete position state is claimed exactly if the fill history is
-- complete and every episode is proven: closed, or confirmed by the exchange's own position.
pub claims_complete_position_state_iff :
    (r : AccountingResult) (v : Option Positions)
    → (claims_complete_position_state (assign_authority r v) ≡ true)
      ↔ ((is_complete r.completeness ≡ true) × EachEpisode (IsProven r v) r.ledgers)
unfolding claims_complete_position_state assign_authority
claims_complete_position_state_iff r v = elim (Bool-cases (is_complete r.completeness)) [
  | inr bounded ↦ rw bounded (λ e. cc, λ t. cc)
  | inl full ↦
      let h = all_episodes-earned r v r.ledgers in rw full (λ e. (refl, h.0 e), λ t. h.1 t.1)
]

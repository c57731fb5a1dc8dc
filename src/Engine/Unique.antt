-- ===== src/Engine/Unique.antt =====
-- What the de-duplication of a replay keeps (kalshi_router/accounting/engine.py), and that the whole
-- replay forgets the order of its input.
use kalshi_bet_router.Base.{
  ℕ, ◌+◌, String, ◌≡◌, ◌≢◌, refl, sym, ap, subst, ◌∙◌, arith, true, false, Option, List, [], ◌∷◌,
  ◌++◌, ◌||◌, if◌then◌else◌, length, length-append, str_eq, str_eq_iff, Bool-cases, inl, inr,
}
use kalshi_bet_router.Decimal.{Decimal}
use kalshi_bet_router.Fill.{NormalizedFill, NormalizedSettlement}
use kalshi_bet_router.Ordering.Canonical.{Reorder, same, keep, swap, chain, sort_fills-Reorder}
use kalshi_bet_router.Engine.{HistoryCompleteness, has_id, deduplicate}
use kalshi_bet_router.Engine.Authority.{Positions}
use kalshi_bet_router.Engine.Replay.{replay}

-- No two fills of the list have one id.
abbrev pub IsUnique : List NormalizedFill → Type 0
IsUnique [] = Unit
IsUnique (f ∷ fs) = (has_id f.fill_id fs ≡ false) × IsUnique fs

has_id-append :
    (k : String) (xs ys : List NormalizedFill) → has_id k (xs ++ ys) ≡ has_id k xs || has_id k ys
has_id-append k [] ys = refl
has_id-append k (x ∷ xs) ys = ground (arith, has_id-append k xs ys)

IsUnique-append :
    (xs : List NormalizedFill) (f : NormalizedFill)
    → IsUnique xs
    → has_id f.fill_id xs ≡ false
    → IsUnique (xs ++ (f ∷ []))
IsUnique-append [] f u h = (refl, tt)
IsUnique-append (x ∷ xs) f u h = (
  ground (
    arith,
    has_id-append x.fill_id xs (f ∷ []),
    str_eq_iff x.fill_id f.fill_id,
    str_eq_iff f.fill_id x.fill_id,
  ),
  IsUnique-append xs f u.1 (ground arith),
)

-- The list of first fills, after a fill with the id `k` was looked at.
abbrev noted : List NormalizedFill → NormalizedFill → List NormalizedFill
noted unique f = if has_id f.fill_id unique then unique else unique ++ (f ∷ [])

has_id-noted :
    (k : String) (unique : List NormalizedFill) (f : NormalizedFill)
    → has_id k (noted unique f) ≡ has_id k unique || str_eq f.fill_id k
has_id-noted k unique f = elim (Bool-cases (has_id f.fill_id unique)) [
  | inl old ↦ rw old (ground (arith, str_eq_iff f.fill_id k))
  | inr new ↦ rw new (ground (arith, has_id-append k unique (f ∷ [])))
]

IsUnique-noted :
    (unique : List NormalizedFill) (f : NormalizedFill)
    → IsUnique unique
    → IsUnique (noted unique f)
IsUnique-noted unique f u = elim (Bool-cases (has_id f.fill_id unique)) [
  | inl old ↦ rw old u
  | inr new ↦ rw new (IsUnique-append unique f u new)
]

-- What de-duplication promises.
pub record Deduplicated (fills : List NormalizedFill) (r : List NormalizedFill × ℕ) : Type 0 where
  pub unique : IsUnique r.0
  pub complete : length r.0 + r.1 ≡ length fills
  pub ids : (k : String) → has_id k r.0 ≡ has_id k fills

abbrev tallied : List NormalizedFill → NormalizedFill → ℕ → ℕ
tallied unique f n = if has_id f.fill_id unique then n + 1 else n

length-noted :
    (unique : List NormalizedFill) (f : NormalizedFill) (n : ℕ)
    → length (noted unique f) + tallied unique f n ≡ length unique + n + 1
length-noted unique f n = elim (Bool-cases (has_id f.fill_id unique)) [
  | inl old ↦ rw old (omega arith)
  | inr new ↦ rw new (omega (arith, length-append {0} unique (f ∷ [])))
]

deduplicate_from :
    (unique : List NormalizedFill) (n : ℕ) (fills : List NormalizedFill)
    → IsUnique unique
    → let r = deduplicate unique n fills in
      IsUnique r.0
      × (length r.0 + r.1 ≡ length unique + n + length fills)
      × ((k : String) → has_id k r.0 ≡ has_id k unique || has_id k fills)
unfolding deduplicate
deduplicate_from unique n [] u = (u, omega arith, λ k. ground arith)
deduplicate_from unique n (f ∷ fs) u =
    let ih = deduplicate_from (noted unique f) _ fs (IsUnique-noted unique f u) in
    (
      ih.0,
      omega (arith, ih.1, length-noted unique f n),
      λ k. ih.2 k ∙ ground (arith, has_id-noted k unique f),
    )

-- No two kept fills share an id, the kept and the counted make up the input, and an id is kept
-- exactly if the input has it.
pub deduplicate-Deduplicated :
    (fills : List NormalizedFill) → Deduplicated fills (deduplicate [] 0 fills)
deduplicate-Deduplicated fills =
    let d = deduplicate_from [] 0 fills tt in
    record { unique = d.0; complete = omega (arith, d.1); ids = d.2 }

Reorder-append :
    {xs ys : List NormalizedFill} (zs : List NormalizedFill)
    → Reorder xs ys
    → Reorder (xs ++ zs) (ys ++ zs)
Reorder-append zs (same xs) = same (xs ++ zs)
Reorder-append zs (keep x r) = keep x (Reorder-append zs r)
Reorder-append zs (swap x y xs ne) = swap x y (xs ++ zs) ne
Reorder-append zs (chain r s) = chain (Reorder-append zs r) (Reorder-append zs s)

Reorder-under :
    (ws : List NormalizedFill) {xs ys : List NormalizedFill}
    → Reorder xs ys
    → Reorder (ws ++ xs) (ws ++ ys)
Reorder-under [] r = r
Reorder-under (w ∷ ws) r = keep w (Reorder-under ws r)

has_id-Reorder :
    (k : String) {xs ys : List NormalizedFill} → Reorder xs ys → has_id k xs ≡ has_id k ys
has_id-Reorder k (same xs) = refl
has_id-Reorder k (keep x r) = ap (λ b. str_eq x.fill_id k || b) (has_id-Reorder k r)
has_id-Reorder k (swap x y xs ne) = ground arith
has_id-Reorder k (chain r s) = has_id-Reorder k r ∙ has_id-Reorder k s

noted-Reorder :
    (f : NormalizedFill) {xs ys : List NormalizedFill}
    → Reorder xs ys
    → Reorder (noted xs f) (noted ys f)
noted-Reorder f {xs} {ys} r = elim (Bool-cases (has_id f.fill_id xs)) [
  | inl old ↦ rw (old, sym (has_id-Reorder f.fill_id r) ∙ old) r
  | inr new ↦ rw (new, sym (has_id-Reorder f.fill_id r) ∙ new) (Reorder-append (f ∷ []) r)
]

Reorder-along :
    {xs xs' ys ys' : List NormalizedFill} → xs ≡ xs' → ys ≡ ys' → Reorder xs' ys' → Reorder xs ys
Reorder-along {xs' = xs'} {ys = ys} p q r =
    subst (λ t. Reorder t ys) (sym p) (subst (Reorder xs') (sym q) r)

swap_end :
    (u : List NormalizedFill) (x y : NormalizedFill)
    → x.fill_id ≢ y.fill_id
    → Reorder ((u ++ (x ∷ [])) ++ (y ∷ [])) ((u ++ (y ∷ [])) ++ (x ∷ []))
swap_end [] x y ne = swap x y [] ne
swap_end (w ∷ u) x y ne = keep w (swap_end u x y ne)

noted_old :
    (u : List NormalizedFill) (f : NormalizedFill) → has_id f.fill_id u ≡ true → noted u f ≡ u
noted_old u f h = rw h

noted_new :
    (u : List NormalizedFill) (f : NormalizedFill)
    → has_id f.fill_id u ≡ false
    → noted u f ≡ u ++ (f ∷ [])
noted_new u f h = rw h

-- Noting a fill with another id leaves the membership of an id as it is.
has_id-noted_other :
    (u : List NormalizedFill) (x y : NormalizedFill)
    → x.fill_id ≢ y.fill_id
    → has_id y.fill_id (noted u x) ≡ has_id y.fill_id u
has_id-noted_other u x y ne =
    ground (arith, has_id-noted y.fill_id u x, str_eq_iff x.fill_id y.fill_id)

-- Two fills with different ids are noted in either order.
noted-swap :
    (u : List NormalizedFill) (x y : NormalizedFill)
    → x.fill_id ≢ y.fill_id
    → Reorder (noted (noted u x) y) (noted (noted u y) x)
noted-swap u x y ne =
    let x-y = has_id-noted_other u x y ne in
    let y-x = has_id-noted_other u y x (λ e. ne (sym e)) in
    elim (Bool-cases (has_id x.fill_id u)) [
      | inl hx ↦ elim (Bool-cases (has_id y.fill_id u)) [
        | inl hy ↦
            Reorder-along (noted_old _ y (x-y ∙ hy) ∙ noted_old u x hx)
              (noted_old _ x (y-x ∙ hx) ∙ noted_old u y hy) (same u)
        | inr hy ↦
            Reorder-along (noted_new _ y (x-y ∙ hy) ∙ ap (λ t. t ++ (y ∷ [])) (noted_old u x hx))
              (noted_old _ x (y-x ∙ hx) ∙ noted_new u y hy) (same _)
      ]
      | inr hx ↦ elim (Bool-cases (has_id y.fill_id u)) [
        | inl hy ↦
            Reorder-along (noted_old _ y (x-y ∙ hy) ∙ noted_new u x hx)
              (noted_new _ x (y-x ∙ hx) ∙ ap (λ t. t ++ (x ∷ [])) (noted_old u y hy)) (same _)
        | inr hy ↦
            Reorder-along (noted_new _ y (x-y ∙ hy) ∙ ap (λ t. t ++ (y ∷ [])) (noted_new u x hx))
              (noted_new _ x (y-x ∙ hx) ∙ ap (λ t. t ++ (x ∷ [])) (noted_new u y hy))
              (swap_end u x y ne)
      ]
    ]

tallied-swap :
    (u : List NormalizedFill) (x y : NormalizedFill) (n : ℕ)
    → x.fill_id ≢ y.fill_id
    → tallied (noted u x) y (tallied u x n) ≡ tallied (noted u y) x (tallied u y n)
tallied-swap u x y n ne = ground (
  arith,
  has_id-noted y.fill_id u x,
  has_id-noted x.fill_id u y,
  str_eq_iff x.fill_id y.fill_id,
  str_eq_iff y.fill_id x.fill_id,
)

abbrev Agree : List NormalizedFill × ℕ → List NormalizedFill × ℕ → Type 0
Agree r s = Reorder r.0 s.0 × (r.1 ≡ s.1)

deduplicate-base :
    (u v : List NormalizedFill) (n : ℕ) (xs : List NormalizedFill)
    → Reorder u v
    → Agree (deduplicate u n xs) (deduplicate v n xs)
unfolding deduplicate
deduplicate-base u v n [] r = (r, refl)
deduplicate-base u v n (x ∷ xs) r =
    subst (λ m. Agree (deduplicate u n (x ∷ xs)) (deduplicate (noted v x) m xs))
      (ap (λ b. if b then n + 1 else n) (has_id-Reorder x.fill_id r))
      (deduplicate-base (noted u x) (noted v x) (tallied u x n) xs (noted-Reorder x r))

Agree-chain : {r s t : List NormalizedFill × ℕ} → Agree r s → Agree s t → Agree r t
Agree-chain a b = (chain a.0 b.0, a.1 ∙ b.1)

deduplicate-Reorder :
    {xs ys : List NormalizedFill} (u : List NormalizedFill) (n : ℕ)
    → Reorder xs ys
    → Agree (deduplicate u n xs) (deduplicate u n ys)
unfolding deduplicate
deduplicate-Reorder u n (same xs) = (same _, refl)
deduplicate-Reorder u n (keep x r) = deduplicate-Reorder (noted u x) (tallied u x n) r
deduplicate-Reorder u n (swap x y xs ne) =
    subst (λ m. Agree (deduplicate u n (x ∷ y ∷ xs)) (deduplicate (noted (noted u y) x) m xs))
      (tallied-swap u x y n ne)
      (deduplicate-base (noted (noted u x) y) (noted (noted u y) x)
        (tallied (noted u x) y (tallied u x n)) xs (noted-swap u x y ne))
deduplicate-Reorder u n (chain r s) =
    Agree-chain (deduplicate-Reorder u n r) (deduplicate-Reorder u n s)

-- The replay of a reordered input, where fills with one id keep their order among themselves, is
-- the same result, or the same error.
pub replay-Reorder :
    {xs ys : List NormalizedFill} (completeness : HistoryCompleteness)
    (settlements : List NormalizedSettlement) (floor : Option Decimal)
    (positions : Option Positions)
    → Reorder xs ys
    → replay xs completeness settlements floor positions
      ≡ replay ys completeness settlements floor positions
unfolding replay
replay-Reorder completeness settlements floor positions r =
    let a = deduplicate-Reorder [] 0 r in rw (sort_fills-Reorder a.0, a.1)

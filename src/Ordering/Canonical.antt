-- ===== src/Ordering/Canonical.antt =====
-- Sorting the fills gives one list for every order of the input, where the ids are distinct
-- (kalshi_router/accounting/ordering.py).
use text.Mathlib.TextEquality.{Char-path}
use kalshi_bet_router.Base.{
  String, ◌≡◌, ◌≢◌, refl, sym, ap, ◌∙◌, arith, true, false, List, [], ◌∷◌, map, Error, schema_error,
  Result, ok, err, ◌>>=◌, ap₂,
}
use kalshi_bet_router.Decimal.{Decimal}
use kalshi_bet_router.Fill.{NormalizedFill, parse_execution_time}
use kalshi_bet_router.Ordering.{text_le, Keyed, key_le, keyed, insert_key, sort_keys, sort_fills}

text_le_total : (a b : String) → text_le a b ≡ false → text_le b a ≡ true
unfolding text_le
text_le_total String.[] String.[] h = refl
text_le_total String.[] (String.◌∷◌ d t) h = cc
text_le_total (String.◌∷◌ c s) String.[] h = refl
text_le_total (String.◌∷◌ c s) (String.◌∷◌ d t) h = ground (arith, text_le_total s t)

text_le_trans : (a b c : String) → text_le a b ≡ true → text_le b c ≡ true → text_le a c ≡ true
unfolding text_le
text_le_trans String.[] b String.[] h k = refl
text_le_trans String.[] b (String.◌∷◌ d t) h k = refl
text_le_trans (String.◌∷◌ c s) String.[] u h k = cc
text_le_trans (String.◌∷◌ c s) (String.◌∷◌ d t) String.[] h k = cc
text_le_trans (String.◌∷◌ c s) (String.◌∷◌ d t) (String.◌∷◌ e u) h k =
    ground (arith, text_le_trans s t u)

text_le_antisym : (a b : String) → text_le a b ≡ true → text_le b a ≡ true → a ≡ b
unfolding text_le
text_le_antisym String.[] String.[] h k = refl
text_le_antisym String.[] (String.◌∷◌ d t) h k = cc
text_le_antisym (String.◌∷◌ c s) String.[] h k = cc
text_le_antisym (String.◌∷◌ c s) (String.◌∷◌ d t) h k =
    ap₂ String.◌∷◌ (Char-path c d (ground arith))
      (text_le_antisym s t (ground arith) (ground arith))

-- Distinct fills are strictly ordered, so their order is that of a set.
key_le_total : (a b : Keyed) → key_le a b ≡ false → key_le b a ≡ true
unfolding key_le
key_le_total a b h = ground (arith, text_le_total a.fill.fill_id b.fill.fill_id)

key_le_trans : (a b c : Keyed) → key_le a b ≡ true → key_le b c ≡ true → key_le a c ≡ true
unfolding key_le
key_le_trans a b c h k = ground (arith, text_le_trans a.fill.fill_id b.fill.fill_id c.fill.fill_id)

key_le_antisym :
    (a b : Keyed) → key_le a b ≡ true → key_le b a ≡ true → a.fill.fill_id ≡ b.fill.fill_id
unfolding key_le
key_le_antisym a b h k = text_le_antisym a.fill.fill_id b.fill.fill_id (ground arith) (ground arith)

insert_key_comm :
    (a b : Keyed) (ks : List Keyed)
    → a.fill.fill_id ≢ b.fill.fill_id
    → insert_key a (insert_key b ks) ≡ insert_key b (insert_key a ks)
unfolding insert_key
insert_key_comm a b [] ne = ground (arith, key_le_total a b, key_le_total b a, key_le_antisym a b)
insert_key_comm a b (j ∷ ks) ne = ground (
  arith,
  key_le_total a b,
  key_le_total b a,
  key_le_antisym a b,
  key_le_total j a,
  key_le_total j b,
  key_le_trans a b j,
  key_le_trans b a j,
  insert_key_comm a b ks ne,
)

-- A reordering that exchanges neighbours with different ids.
pub data Reorder : List NormalizedFill → List NormalizedFill → Type 0 where
  same : (xs : List NormalizedFill) → Reorder xs xs
  keep :
      (x : NormalizedFill) {xs ys : List NormalizedFill} → Reorder xs ys → Reorder (x ∷ xs) (x ∷ ys)
  swap :
      (x y : NormalizedFill) (xs : List NormalizedFill)
      → x.fill_id ≢ y.fill_id
      → Reorder (x ∷ y ∷ xs) (y ∷ x ∷ xs)
  chain : {xs ys zs : List NormalizedFill} → Reorder xs ys → Reorder ys zs → Reorder xs zs

-- Sorting one more fill.
add_key : Result Decimal → NormalizedFill → Result (List Keyed) → Result (List Keyed)
add_key time fill rest = do
  t ← time
  ks ← rest
  ok (insert_key (record { time = t; fill = fill }) ks)

sorted : List NormalizedFill → Result (List Keyed)
sorted fills = do ks ← keyed fills; ok (sort_keys ks)

sorted-cons :
    (x : NormalizedFill) (xs : List NormalizedFill)
    → sorted (x ∷ xs) ≡ add_key (parse_execution_time x) x (sorted xs)
unfolding sorted add_key keyed sort_keys
sorted-cons x xs = go (parse_execution_time x) (keyed xs)
  where
    go :
        (t : Result Decimal) (r : Result (List Keyed))
        → (do
          ks ← do time ← t; rest ← r; ok (record { time = time; fill = x } ∷ rest)
          ok (sort_keys ks))
          ≡ add_key t x (do ks ← r; ok (sort_keys ks))
    go (ok t) (ok r) = refl
    go (ok t) (err e) = refl
    go (err e) r = refl

-- The time of a fill is unreadable in one way only.
add_key_comm :
    (x y : NormalizedFill) (t u : Result Decimal) (rest : Result (List Keyed))
    → x.fill_id ≢ y.fill_id
    → ((e : Error) → t ≡ err e → e ≡ schema_error)
    → ((e : Error) → u ≡ err e → e ≡ schema_error)
    → add_key t x (add_key u y rest) ≡ add_key u y (add_key t x rest)
unfolding add_key
add_key_comm x y (ok t) (ok u) (ok ks) ne ht hu = ap ok (insert_key_comm _ _ ks ne)
add_key_comm x y (ok t) (ok u) (err e) ne ht hu = refl
add_key_comm x y (ok t) (err e) rest ne ht hu = refl
add_key_comm x y (err e) (ok u) rest ne ht hu = refl
add_key_comm x y (err e) (err e') rest ne ht hu = ap err (ht e refl ∙ sym (hu e' refl))

unreadable : (f : NormalizedFill) (e : Error) → parse_execution_time f ≡ err e → e ≡ schema_error
unfolding parse_execution_time
unreadable f e h = ground arith

sorted-Reorder : {xs ys : List NormalizedFill} → Reorder xs ys → sorted xs ≡ sorted ys
sorted-Reorder (same xs) = refl
sorted-Reorder (keep x {xs = xs} {ys = ys} r) =
    sorted-cons x xs
    ∙ ap (add_key (parse_execution_time x) x) (sorted-Reorder r)
    ∙ sym (sorted-cons x ys)
sorted-Reorder (swap x y xs ne) =
    sorted-cons x (y ∷ xs)
    ∙ ap (add_key (parse_execution_time x) x) (sorted-cons y xs)
    ∙ add_key_comm x y _ _ (sorted xs) ne (unreadable x) (unreadable y)
    ∙ ap (add_key (parse_execution_time y) y) (sym (sorted-cons x xs))
    ∙ sym (sorted-cons y (x ∷ xs))
sorted-Reorder (chain r s) = sorted-Reorder r ∙ sorted-Reorder s

fills_of : Result (List Keyed) → Result (List NormalizedFill)
fills_of sorted_keys = do ks ← sorted_keys; ok (map (λ (k : Keyed). k.fill) ks)

sort_fills-sorted : (fills : List NormalizedFill) → sort_fills fills ≡ fills_of (sorted fills)
unfolding sort_fills fills_of sorted
sort_fills-sorted fills = go (keyed fills)
  where
    go :
        (r : Result (List Keyed))
        → (do ks ← r; ok (map (λ (k : Keyed). k.fill) (sort_keys ks)))
          ≡ fills_of (do ks ← r; ok (sort_keys ks))
    go (ok ks) = refl
    go (err e) = refl

-- The canonical order is the same for every order of the input that only moves fills with
-- different ids past each other, an unreadable time included.
pub sort_fills-Reorder :
    {xs ys : List NormalizedFill} → Reorder xs ys → sort_fills xs ≡ sort_fills ys
sort_fills-Reorder {xs} {ys} r =
    sort_fills-sorted xs ∙ ap fills_of (sorted-Reorder r) ∙ sym (sort_fills-sorted ys)

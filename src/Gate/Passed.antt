-- ===== src/Gate/Passed.antt =====
-- What a condition that passed has found: guards and problems, undone.
use kalshi_bet_router.Base.{
  Bool, true, false, List, [], ◌∷◌, ◌≡◌, refl, not, ◌||◌, if◌then◌else◌, any, All, is_empty, arith,
}
use kalshi_bet_router.Gate.{Outcome, passes, refuses, waits}

pub past_wait :
    (a : Bool) (o : Outcome) → (if a then waits else o) ≡ passes → (a ≡ false) × (o ≡ passes)
past_wait true o h = ground arith
past_wait false o h = (refl, h)

pub past_refusal :
    (a : Bool) (o : Outcome) → (if a then refuses else o) ≡ passes → (a ≡ false) × (o ≡ passes)
past_refusal true o h = ground arith
past_refusal false o h = (refl, h)

pub neither : (a b : Bool) → (a || b) ≡ false → (a ≡ false) × (b ≡ false)
neither a b h = ground arith

pub not-not : (a : Bool) → not a ≡ false → a ≡ true
not-not a h = ground arith

pub any-All {ℓ} :
    {A : Type ℓ} (p : A → Bool) (xs : List A) → any p xs ≡ false → All (λ x. p x ≡ false) xs
any-All p [] h = tt
any-All p (x ∷ xs) h = let split = neither (p x) (any p xs) h in (split.0, any-All p xs split.1)

pub All-map {ℓ κ ι} :
    {A : Type ℓ} (P : A → Type κ) (Q : A → Type ι) (xs : List A)
    → ((x : A) → P x → Q x)
    → All P xs
    → All Q xs
All-map P Q [] f h = tt
All-map P Q (x ∷ xs) f h = (f x h.0, All-map P Q xs f h.1)

pub is_empty-eq {ℓ} : {A : Type ℓ} (xs : List A) → is_empty xs ≡ true → xs ≡ []
is_empty-eq [] h = refl
is_empty-eq (x ∷ xs) h = ground arith

-- ===== src/Production/Keys/Decoding.antt =====
-- The material of a source key gives its fields back (kalshi_router/production.py).
use mathlib.Core.Option
use Prim.Native.Char.{Char, code}
use Prim.Native.String
use Prim.Native.String.{[] as empty, ◌∷◌ as before, ◌++◌ as append, len, slice}
use text.Mathlib.TextLemmas.{append_assoc, append-nil}
use text.Mathlib.TextPositions.{len-append, slice-append_left, slice-append_right}
use kalshi_bet_router.Base.{
  ℕ, zero, suc, ◌+◌, ◌-◌, ◌*◌, ◌/◌, ◌%◌, ◌≤◌, ◌<◌, String, Bool, true, false, ◌&&◌, Option, none,
  some, List, [], ◌∷◌, ◌≡◌, refl, sym, ap, ◌∙◌, if◌then◌else◌, leb, ◌==◌, str, str_loop, length,
  digit_text, Bool-cases, inl, inr, arith,
}
use kalshi_bet_router.Production.Keys.{
  length_prefixed, join_fields, account_name, digest_domain, key_material,
}

-- A number up to the colon after it, and the text behind the colon.
abbrev read_length : ℕ → String → Option (ℕ × String)
read_length n empty = none
read_length n (before c s) =
    if code c == 58
    then some (n, s)
    else if leb 48 (code c) && leb (code c) 57
    then read_length (n * 10 + (code c - 48)) s
    else none

-- A digit in front of a text.
digit-before : (c : Char) (rest : String) → append (before c empty) rest ≡ before c rest
digit-before c rest =
    String.append.cons c empty rest ∙ ap (λ s. before c s) (String.append.nil rest)

read-digit :
    (d n : ℕ) (rest : String)
    → d < 10
    → read_length n (append (digit_text d) rest) ≡ read_length (n * 10 + d) rest
read-digit zero n rest h = ap (read_length n) (digit-before _ rest)
read-digit (suc zero) n rest h = ap (read_length n) (digit-before _ rest)
read-digit (suc (suc zero)) n rest h = ap (read_length n) (digit-before _ rest)
read-digit (suc (suc (suc zero))) n rest h = ap (read_length n) (digit-before _ rest)
read-digit (suc (suc (suc (suc zero)))) n rest h = ap (read_length n) (digit-before _ rest)
read-digit (suc (suc (suc (suc (suc zero))))) n rest h = ap (read_length n) (digit-before _ rest)
read-digit (suc (suc (suc (suc (suc (suc zero)))))) n rest h =
    ap (read_length n) (digit-before _ rest)
read-digit (suc (suc (suc (suc (suc (suc (suc zero))))))) n rest h =
    ap (read_length n) (digit-before _ rest)
read-digit (suc (suc (suc (suc (suc (suc (suc (suc zero)))))))) n rest h =
    ap (read_length n) (digit-before _ rest)
read-digit (suc (suc (suc (suc (suc (suc (suc (suc (suc d))))))))) n rest h =
    let e : (9 ≡ suc (suc (suc (suc (suc (suc (suc (suc (suc d))))))))) = omega arith in
    ap (read_length n) (digit-before _ rest) ∙ ap (λ k. read_length (n * 10 + k) rest) e

-- Digits written in front of a text are read as the number they stand for.
read-loop :
    (fuel n : ℕ) (rest : String)
    → n ≤ fuel
    → read_length 0 (str_loop fuel n rest) ≡ read_length n rest
unfolding str_loop
read-loop zero n rest h = ap (λ k. read_length k rest) (omega arith)
read-loop (suc fuel) n rest h = elim (Bool-cases (n == 0)) [
  | inl e ↦
      ap (λ b. read_length 0 (if b then rest else more)) e
      ∙ ap (λ k. read_length k rest) (ground arith)
  | inr e ↦
      ap (λ b. read_length 0 (if b then rest else more)) e
      ∙ read-loop fuel (n / 10) (append (digit_text (n % 10)) rest) (ground arith)
      ∙ read-digit (n % 10) (n / 10) rest (omega arith)
      ∙ ap (λ k. read_length k rest) (omega arith)
]
  where
    more : String
    more = str_loop fuel (n / 10) (append (digit_text (n % 10)) rest)

append-loop :
    (fuel n : ℕ) (rest tail : String)
    → append (str_loop fuel n rest) tail ≡ str_loop fuel n (append rest tail)
unfolding str_loop
append-loop zero n rest tail = refl
append-loop (suc fuel) n rest tail =
    go (n == 0) (append-loop fuel (n / 10) (append (digit_text (n % 10)) rest) tail)
  where
    longer : String
    longer = append (digit_text (n % 10)) (append rest tail)

    go :
        (stops : Bool)
        → append (str_loop fuel (n / 10) (append (digit_text (n % 10)) rest)) tail
          ≡ str_loop fuel (n / 10) (append (append (digit_text (n % 10)) rest) tail)
        → append
            (if stops then rest else str_loop fuel (n / 10) (append (digit_text (n % 10)) rest))
            tail
          ≡ (if stops then append rest tail else str_loop fuel (n / 10) longer)
    go true ih = refl
    go false ih =
        ih ∙ ap (λ s. str_loop fuel (n / 10) s) (append_assoc (digit_text (n % 10)) rest tail)

read-str :
    (n : ℕ) (rest : String) → read_length 0 (append (str n) (append ":" rest)) ≡ some (n, rest)
unfolding str
read-str n rest = elim (Bool-cases (n == 0)) [
  | inl e ↦
      ap (λ b. read_length 0 (append (if b then "0" else str_loop n n "") (append ":" rest))) e
      ∙ ap (read_length 0) (digit-before _ (append ":" rest))
      ∙ stop 0
      ∙ ap (λ k. some (k, rest)) (ground arith)
  | inr e ↦
      ap (λ b. read_length 0 (append (if b then "0" else str_loop n n "") (append ":" rest))) e
      ∙ ap (read_length 0) (append-loop n n "" (append ":" rest))
      ∙ read-loop n n (append "" (append ":" rest)) (omega arith)
      ∙ ap (read_length n) (String.append.nil (append ":" rest))
      ∙ stop n
]
  where
    stop : (k : ℕ) → read_length k (append ":" rest) ≡ some (k, rest)
    stop k = ap (read_length k) (digit-before _ rest)

-- The field whose length has been read, and what is behind it.
abbrev cut : Option (ℕ × String) → Option (String × String)
cut none = none
cut (some (n, rest)) = some (slice rest 0 n, slice rest n (len rest))

abbrev read_field : String → Option (String × String)
read_field s = cut (read_length 0 s)

framed :
    (field rest : String)
    → append (length_prefixed field) rest
      ≡ append (str (len field)) (append ":" (append field rest))
framed field rest =
    append_assoc (str (len field)) (append ":" (append field "")) rest
    ∙ ap (append (str (len field))) (
        append_assoc ":" (append field "") rest
        ∙ ap (append ":") (ap (λ f. append f rest) (append-nil field)))

read-prefixed :
    (field rest : String) → read_field (append (length_prefixed field) rest) ≡ some (field, rest)
read-prefixed field rest =
    ap read_field (framed field rest)
    ∙ ap cut (read-str (len field) (append field rest))
    ∙ ap (λ f. some (f, slice (append field rest) (len field) (len (append field rest))))
        (slice-append_left field rest)
    ∙ ap (λ k. some (field, slice (append field rest) (len field) k)) (len-append field rest)
    ∙ ap (λ r. some (field, r)) (slice-append_right field rest)

-- One field more.
abbrev with_field :
    Option (String × String) → (String → Option (List String)) → Option (List String)
with_field none next = none
with_field (some (field, rest)) next = Option.map (λ fields. field ∷ fields) (next rest)

abbrev pub read_fields : ℕ → String → Option (List String)
read_fields zero s = some []
read_fields (suc n) s = with_field (read_field s) (read_fields n)

read-join : (fields : List String) → read_fields (length fields) (join_fields fields) ≡ some fields
read-join [] = refl
read-join (field ∷ fields) =
    ap (λ s. with_field (read_field s) (read_fields (length fields)))
      (ap (append (length_prefixed field)) (append-nil (join_fields fields)))
    ∙ ap (λ r. with_field r (read_fields (length fields)))
        (read-prefixed field (join_fields fields))
    ∙ ap (Option.map (λ more. field ∷ more)) (read-join fields)

-- Reading four fields, each behind its length in bytes, gives back what the key of an order was made of:
-- the domain, the subaccount, the ticker and the order id, whatever characters they hold.
pub key_material-read :
    (subaccount : Option ℕ) (ticker order_id : String)
    → read_fields 4 (key_material subaccount ticker order_id)
      ≡ some (digest_domain ∷ account_name subaccount ∷ ticker ∷ order_id ∷ [])
unfolding key_material
key_material-read subaccount ticker order_id =
    read-join (digest_domain ∷ account_name subaccount ∷ ticker ∷ order_id ∷ [])

-- The number that an account's text is, if it is one.
abbrev account_number : String → Option ℕ
account_number s = Option.map (λ r. r.0) (read_length 0 (append s ":"))

account_number-text :
    (subaccount : Option ℕ) → account_number (account_name subaccount) ≡ subaccount
account_number-text none = refl
account_number-text (some n) =
    ap (λ s. Option.map (λ r. r.0) (read_length 0 (append (str n) s))) (sym (append-nil ":"))
    ∙ ap (Option.map (λ r. r.0)) (read-str n "")

-- What a key identifies: subaccount, ticker and order id.
abbrev of_fields : Option (List String) → Option (Option ℕ × String × String)
of_fields (some (domain ∷ account ∷ ticker ∷ order_id ∷ [])) =
    some (account_number account, ticker, order_id)
of_fields _ = none

pub key_material_inj :
    (a b : Option ℕ × String × String) → key_material a.0 a.1 a.2 ≡ key_material b.0 b.1 b.2 → a ≡ b
key_material_inj a b h = ap (or_given a) (sym (identified a) ∙ ap identity h ∙ identified b)
  where
    identity : String → Option (Option ℕ × String × String)
    identity s = of_fields (read_fields 4 s)

    or_given :
        Option ℕ × String × String
        → Option (Option ℕ × String × String)
        → Option ℕ × String × String
    or_given d none = d
    or_given d (some x) = x

    identified : (c : Option ℕ × String × String) → identity (key_material c.0 c.1 c.2) ≡ some c
    identified c =
        ap of_fields (key_material-read c.0 c.1 c.2)
        ∙ ap (λ n. some (n, c.1, c.2)) (account_number-text c.0)

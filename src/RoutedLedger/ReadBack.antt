-- ===== src/RoutedLedger/ReadBack.antt =====
-- What is written is read back (contract/edge_finder_contract/routed_ledger.py).
use Prim.Native.Char.{Char, code}
use Prim.Native.String
use Prim.Native.String.{[] as empty, ◌∷◌ as before, ◌++◌ as append}
use text.Mathlib.TextLemmas.{append_assoc}
use mathlib.Core.List.{append-nil}
use kalshi_bet_router.Base.{
  String, Bool, true, false, not, ◌&&◌, some, List, [], ◌∷◌, ◌++◌, ◌≡◌, refl, sym, ap, ap₂, ◌∙◌,
  All, if◌then◌else◌, ◌==◌, is_blank, arith,
}
use kalshi_bet_router.RoutedLedger.Values.{Numbers, FiledRow}
use kalshi_bet_router.RoutedLedger.Rules.{LedgerSpec, Environment}
use kalshi_bet_router.RoutedLedger.Texts.{
  Json, ends_line, starts_with_newline, put_first, splitlines, is_open_line, file_text, line,
  with_read, read_lines, read_jsonl, append_rows,
}
use kalshi_bet_router.RoutedLedger.Whole.{object_on, is_object, object_rows, all_objects}
use kalshi_bet_router.RoutedLedger.Extended.{file_text-append}

-- No character of the text ends a line.
abbrev pub is_one_line : String → Bool
is_one_line empty = true
is_one_line (before c s) = not (ends_line (code c)) && is_one_line s

after_newline : (s : String) → append "\n" s ≡ before "\n" s
after_newline s = String.append.cons "\n" empty s ∙ ap (before "\n") (String.append.nil s)

newline-splits : (s : String) → splitlines (append "\n" s) ≡ "" ∷ splitlines s
unfolding splitlines
newline-splits s = ap splitlines (after_newline s)

kept_apart :
    (c : Char) (s : String) (rest : List String)
    → ends_line (code c) ≡ false
    → (if code c == 13 && starts_with_newline s
        then rest
        else if ends_line (code c)
        then "" ∷ rest
        else put_first c rest)
      ≡ put_first c rest
kept_apart c s rest h =
    ap (λ b. if b then rest else if ends_line (code c) then "" ∷ rest else put_first c rest)
      (no_return (starts_with_newline s))
    ∙ ap (λ b. if b then "" ∷ rest else put_first c rest) h
  where
    no_return : (b : Bool) → code c == 13 && b ≡ false
    no_return b = ground (arith, h)

line-splits :
    (d s : String) → is_one_line d ≡ true → splitlines (append d (append "\n" s)) ≡ d ∷ splitlines s
unfolding splitlines
line-splits empty s h = ap splitlines (String.append.nil (append "\n" s)) ∙ newline-splits s
line-splits (before c d) s h =
    let parts = both (ends_line (code c)) (is_one_line d) h in
    ap splitlines (String.append.cons c d (append "\n" s))
    ∙ kept_apart c (append d (append "\n" s)) (splitlines (append d (append "\n" s))) parts.0
    ∙ ap (put_first c) (line-splits d s parts.1)
  where
    both : (a b : Bool) → not a && b ≡ true → (a ≡ false) × (b ≡ true)
    both false b k = (refl, k)
    both true b k = ground (arith, k)

is_open-append :
    (b : Bool) (s t : String) → is_open_line b (append s t) ≡ is_open_line (is_open_line b s) t
unfolding is_open_line
is_open-append b empty t = ap (is_open_line b) (String.append.nil t)
is_open-append b (before c s) t =
    ap (is_open_line b) (String.append.cons c s t) ∙ is_open-append (not (code c == 10)) s t

module _ {N : Type 0} (json : Json N) where
  -- A row is written on one line, which is not blank, and read back from it.
  abbrev pub IsWritten : FiledRow N → Type 0
  IsWritten rec =
      (is_one_line (json.dumps rec) ≡ true)
      × (is_blank (json.dumps rec) ≡ false)
      × (json.loads (json.dumps rec) ≡ some (some rec))

  abbrev text_of_file : List (FiledRow N) → String
  text_of_file rows = file_text (line json) rows

  file-splits :
      (rec : FiledRow N) (rows : List (FiledRow N))
      → IsWritten rec
      → splitlines (text_of_file (rec ∷ rows)) ≡ json.dumps rec ∷ splitlines (text_of_file rows)
  unfolding file_text
  file-splits rec rows h =
      ap splitlines (append_assoc (json.dumps rec) "\n" (text_of_file rows))
      ∙ line-splits (json.dumps rec) (text_of_file rows) h.0

  pub file-read :
      (rows : List (FiledRow N))
      → All IsWritten rows
      → read_jsonl json (text_of_file rows) ≡ some rows
  unfolding read_jsonl file_text read_lines splitlines
  file-read [] h = refl
  file-read (rec ∷ rows) h =
      ap (read_lines json) (file-splits rec rows h.0)
      ∙ ap
          (λ b.
            if b
            then read_jsonl json (text_of_file rows)
            else with_read json (json.loads (json.dumps rec)) (read_jsonl json (text_of_file rows)))
          h.0.1
      ∙ ap₂ (with_read json) h.0.2 (file-read rows h.1)

  module _ (numbers : Numbers N) (env : Environment) (spec : LedgerSpec) where
    pub file-objects :
        (rows : List (FiledRow N))
        → All IsWritten rows
        → object_rows numbers env spec json (splitlines (text_of_file rows)) ≡ rows
    unfolding object_rows file_text splitlines
    file-objects [] h = refl
    file-objects (rec ∷ rows) h =
        ap (object_rows numbers env spec json) (file-splits rec rows h.0)
        ∙ ap
            (λ b.
              if b
              then object_rows numbers env spec json (splitlines (text_of_file rows))
              else object_on numbers env spec json (json.loads (json.dumps rec))
                  (object_rows numbers env spec json (splitlines (text_of_file rows))))
            h.0.1
        ∙ ap₂ (object_on numbers env spec json) h.0.2 (file-objects rows h.1)

    pub file-all_objects :
        (rows : List (FiledRow N))
        → All IsWritten rows
        → all_objects numbers env spec json (splitlines (text_of_file rows)) ≡ true
    unfolding all_objects file_text splitlines
    file-all_objects [] h = refl
    file-all_objects (rec ∷ rows) h =
        ap (all_objects numbers env spec json) (file-splits rec rows h.0)
        ∙ ap₂
            (λ b o.
              not b
              && (is_object numbers env spec json o
                  && all_objects numbers env spec json (splitlines (text_of_file rows))))
            h.0.1 h.0.2
        ∙ file-all_objects rows h.1

  closed : (rows : List (FiledRow N)) → is_open_line false (text_of_file rows) ≡ false
  unfolding is_open_line file_text
  closed [] = refl
  closed (rec ∷ rows) =
      is_open-append false (line json rec) (text_of_file rows)
      ∙ ap (λ b. is_open_line b (text_of_file rows)) (is_open-append false (json.dumps rec) "\n")
      ∙ closed rows

  pub append_rows-file :
      (rows recs : List (FiledRow N))
      → append_rows json (text_of_file rows) recs ≡ text_of_file (rows ++ recs)
  unfolding append_rows
  append_rows-file rows [] = ap text_of_file (sym (append-nil rows))
  append_rows-file rows (rec ∷ recs) =
      ap
        (λ b.
          append (if b then append (text_of_file rows) "\n" else text_of_file rows)
            (text_of_file (rec ∷ recs)))
        (closed rows)
      ∙ sym (file_text-append (line json) rows (rec ∷ recs))

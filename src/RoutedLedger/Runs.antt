-- ===== src/RoutedLedger/Runs.antt =====
-- Runs of the importers on files (contract/edge_finder_contract/routed_ledger.py).
use Prim.Native.String.{[] as empty, ◌∷◌ as before, ◌++◌ as append}
use Prim.Native.String
use text.Mathlib.TextLemmas.{append_assoc}
use kalshi_bet_router.Base.{
  String, Bool, true, ◌&&◌, Option, none, some, List, [], ◌≡◌, sym, ap, ap₂, ◌∙◌, subst, All,
  is_some, arith,
}
use kalshi_bet_router.RoutedLedger.Values.{Numbers, FiledRow}
use kalshi_bet_router.RoutedLedger.Rules.{
  LedgerSpec, Environment, is_valid_wager, is_valid_settlement,
}
use kalshi_bet_router.RoutedLedger.Imports.{
  Ledger, ImportResult, build_settlement, wager_for, prior_of,
}
use kalshi_bet_router.RoutedLedger.Texts.{
  Json, Files, line, file_text, splitlines, append_rows, import_wagers_file,
  import_settlements_file,
}
use kalshi_bet_router.RoutedLedger.Whole.{
  wager_fields, settlement_fields, is_append_only, sound_rows, no_orphans, object_rows, all_objects,
  validate_ledger,
}
use kalshi_bet_router.RoutedLedger.Keyed.{key}
use kalshi_bet_router.RoutedLedger.Built.{HasKey, IsFiledWager, IsFiledSettlement}
use kalshi_bet_router.RoutedLedger.Sound.{IsFit, sound_rows-true, no_orphans-true}
use kalshi_bet_router.RoutedLedger.Extended.{append-is_append_only, file_text-append}
use kalshi_bet_router.RoutedLedger.ReadBack.{file-objects, file-all_objects, append_rows-file}
use kalshi_bet_router.RoutedLedger.Reached.{wagers_done, settlements_done, map_All}
use kalshi_bet_router.RoutedLedger.Written.{
  IsWrittenIf, IsTextOf, import_wagers_file_sound, import_settlements_file_sound, wagers-IsTextOf,
  settlements-IsTextOf,
}

seven :
    (a b c d e f g : Bool)
    → a ≡ true
    → b ≡ true
    → c ≡ true
    → d ≡ true
    → e ≡ true
    → f ≡ true
    → g ≡ true
    → (a && (b && c)) && ((d && (e && f)) && g) ≡ true
seven a b c d e f g p q r s t u v = ground (arith, p, q, r, s, t, u, v)

unchanged : (s : String) → s ≡ append s ""
unchanged empty = sym (String.append.nil "")
unchanged (before c s) = ap (before c) (unchanged s) ∙ sym (String.append.cons c s "")

abbrev files_of : Files → Option (Files × ImportResult) → Files
files_of otherwise none = otherwise
files_of otherwise (some done) = done.0

module _ (env : Environment) {N : Type 0} (numbers : Numbers N) (spec : LedgerSpec)
    (json : Json N) where
  -- One run of an importer that ends, of a payload whose records are each written on one line.
  pub data FileStep : Files → Files → Type 0 where
    wagers_come :
        (files : Files) (rows : List (Option (FiledRow N))) (batch : Option String) {after : Files}
        {result : ImportResult}
        → All (λ row. IsWrittenIf env numbers spec json (wager_for env numbers spec batch row)) rows
        → import_wagers_file env numbers spec json files rows batch ≡ some (after, result)
        → FileStep files after
    settlements_come :
        (files : Files) (rows : List (Option (FiledRow N))) {after : Files} {result : ImportResult}
        → All
            (λ row. IsWrittenIf env numbers spec json (build_settlement env numbers spec row))
            rows
        → import_settlements_file env numbers spec json files rows ≡ some (after, result)
        → FileStep files after

  -- Any number of runs.
  pub data FileReach : Files → Files → Type 0 where
    stays : (files : Files) → FileReach files files
    goes_on : {a b c : Files} → FileReach a b → FileStep b c → FileReach a c

  -- The files after, sound, and what each has more than before.
  abbrev Follows : Files → Files → Type 0
  Follows a b =
      (ledger : Ledger N) × IsTextOf env numbers spec json ledger b
      × (w : String) × (s : String) × (b.wagers ≡ append a.wagers w)
      × (b.settlements ≡ append a.settlements s)

  longer :
      (text : String) (rows recs : List (FiledRow N))
      → text ≡ file_text (line json) rows
      → append_rows json text recs ≡ append text (file_text (line json) recs)
  longer text rows recs e =
      ap (λ t. append_rows json t recs) e
      ∙ append_rows-file json rows recs
      ∙ file_text-append (line json) rows recs
      ∙ sym (ap (λ t. append t (file_text (line json) recs)) e)

  FileStep-Follows :
      (ledger : Ledger N) {a b : Files}
      → IsTextOf env numbers spec json ledger a
      → FileStep a b
      → Follows a b
  FileStep-Follows ledger s (wagers_come files rows batch written e) =
      subst (Follows files)
        (ap (files_of files)
          (sym (import_wagers_file_sound env numbers spec json ledger files s rows batch) ∙ e))
        (
          _,
          wagers-IsTextOf env numbers spec json ledger files s rows batch written,
          _,
          "",
          longer files.wagers ledger.wagers (wagers_done env numbers spec ledger rows batch).added
              s.wagers_text,
          unchanged files.settlements,
        )
  FileStep-Follows ledger s (settlements_come files rows written e) =
      subst (Follows files)
        (ap (files_of files)
          (sym (import_settlements_file_sound env numbers spec json ledger files s rows) ∙ e))
        (
          _,
          settlements-IsTextOf env numbers spec json ledger files s rows written,
          "",
          _,
          unchanged files.wagers,
          longer files.settlements ledger.settlements
              (settlements_done env numbers spec ledger rows).added s.settlements_text,
        )

  FileReach-Follows :
      (ledger : Ledger N) {a b : Files}
      → IsTextOf env numbers spec json ledger a
      → FileReach a b
      → Follows a b
  FileReach-Follows ledger s (stays files) =
      (ledger, s, "", "", unchanged files.wagers, unchanged files.settlements)
  FileReach-Follows ledger {a} s (goes_on earlier step) =
      let (l, t, w, x, e, f) = FileReach-Follows ledger s earlier in
      let (l', t', w', x', e', f') = FileStep-Follows l t step in
      (
        l',
        t',
        append w w',
        append x x',
        e' ∙ ap (λ u. append u w') e ∙ append_assoc a.wagers w w',
        f' ∙ ap (λ u. append u x') f ∙ append_assoc a.settlements x x',
      )

  -- Sound files pass the check of a whole ledger, against texts that they extend.
  sound-validates :
      (ledger : Ledger N) (files : Files) (base_wagers base_settlements : String)
      → IsTextOf env numbers spec json ledger files
      → is_append_only (some base_wagers) files.wagers ≡ true
      → is_append_only (some base_settlements) files.settlements ≡ true
      → (validate_ledger numbers env spec json files (some base_wagers) (some base_settlements)).ok
        ≡ true
  unfolding validate_ledger
  sound-validates ledger files base_wagers base_settlements s w t =
      let wagers : object_rows numbers env spec json (splitlines files.wagers) ≡ ledger.wagers =
        ap (λ u. object_rows numbers env spec json (splitlines u)) s.wagers_text
        ∙ file-objects json numbers env spec ledger.wagers s.wagers_written in
      let settlements : object_rows numbers env spec json (splitlines files.settlements)
          ≡ ledger.settlements =
        ap (λ u. object_rows numbers env spec json (splitlines u)) s.settlements_text
        ∙ file-objects json numbers env spec ledger.settlements s.settlements_written in
      seven _ _ _ _ _ _ _
        (ap (λ u. all_objects numbers env spec json (splitlines u)) s.wagers_text
          ∙ file-all_objects json numbers env spec ledger.wagers s.wagers_written)
        (ap (sound_rows numbers (is_valid_wager env numbers spec) wager_fields []) wagers
          ∙ sound_rows-true numbers (is_valid_wager env numbers spec) wager_fields [] ledger.wagers
              s.sound.wagers_fit s.sound.wagers_apart tt)
        w
        (ap (λ u. all_objects numbers env spec json (splitlines u)) s.settlements_text
          ∙ file-all_objects json numbers env spec ledger.settlements s.settlements_written)
        (ap (sound_rows numbers (is_valid_settlement env numbers spec) settlement_fields [])
            settlements
          ∙ sound_rows-true numbers (is_valid_settlement env numbers spec) settlement_fields []
              ledger.settlements
              (map_All (IsFiledSettlement env numbers spec ledger.wagers)
                (IsFit numbers (is_valid_settlement env numbers spec) settlement_fields)
                ledger.settlements (λ x h. (h.0, h.1, h.2)) s.sound.settlements_fit)
              s.sound.settlements_apart tt)
        t
        (ap₂ (no_orphans numbers) wagers settlements
          ∙ no_orphans-true numbers ledger.wagers ledger.settlements
              (map_All (IsFiledWager env numbers spec) HasKey ledger.wagers (λ x h. h.2)
                s.sound.wagers_fit)
              (map_All (IsFiledSettlement env numbers spec ledger.wagers)
                (λ x. HasKey x × (is_some (prior_of (key x) ledger.wagers) ≡ true))
                ledger.settlements (λ x h. (h.2, h.3)) s.sound.settlements_fit))

  -- Files that any runs of the importers make of sound ones pass the check of a whole ledger, against the
  -- texts they were made of: each line is an object, the rows are valid, without unknown fields, and have
  -- keys of their own, every settlement has its wager, and each file starts with the text it had. Sound
  -- files hold such rows, and the condition on them and on the payloads is that each row is written on one
  -- line, which is not blank, and read back from it; a text with U+0085, U+2028 or U+2029 in it is not.
  pub FileReach-validates :
      (ledger : Ledger N) (a b : Files)
      → IsTextOf env numbers spec json ledger a
      → FileReach a b
      → (validate_ledger numbers env spec json b (some a.wagers) (some a.settlements)).ok ≡ true
  FileReach-validates ledger a b s r =
      let (l, t, w, x, e, f) = FileReach-Follows ledger s r in
      sound-validates l b a.wagers a.settlements t
        (ap (is_append_only (some a.wagers)) e ∙ append-is_append_only a.wagers w)
        (ap (is_append_only (some a.settlements)) f ∙ append-is_append_only a.settlements x)

-- ===== src/VectorCast/Parser.antt =====
-- `parse_file` and `parse_directory`.
use automotive_testing_frame.VectorCast.{
  Float, Element, get, find, find_all, Fault, bad_int, bad_float, other, Parsed, tree, malformed,
  failed, Entry, malformed_xml, unexpected, Execution, Coverage, Metrics,
}
use automotive_testing_frame.VectorCast.Numbers.{parse_int}
use automotive_testing_frame.VectorCast.Attempts.{Attempt, ◌then◌, for_each, add_value, if_found}
use automotive_testing_frame.Prelude.{
  Bool, false, Option, none, some, List, [], ◌∷◌, ◌++◌, ◌==◌, if◌then◌else◌, Result, ok, err,
}
use automotive_testing_frame.Prelude.Int.{ℤ, pos, ◌+ℤ◌}
use automotive_testing_frame.Prelude.Texts.{Text, codes, split_on}

abbrev pub int_or_raise : Text → Option ℤ → Result Fault ℤ
int_or_raise s none = err (bad_int s)
int_or_raise s (some n) = ok n

-- `int(e.get(name, 0))`
abbrev pub int_of : Option Text → Result Fault ℤ
int_of none = ok (pos 0)
int_of (some s) = int_or_raise s (parse_int s)

unfoldable pub add_passed : ℤ → Execution → Execution
add_passed n x = record x { passed = x.passed +ℤ n }

unfoldable pub add_failed : ℤ → Execution → Execution
add_failed n x = record x { failed = x.failed +ℤ n }

unfoldable pub add_total : ℤ → Execution → Execution
add_total n x = record x { total = x.total +ℤ n }

unfoldable pub add_test_cases : Element → Attempt Execution
add_test_cases e =
    add_value (int_of (get (codes "passed") e)) add_passed
    then add_value (int_of (get (codes "failed") e)) add_failed
    then add_value (int_of (get (codes "total") e)) add_total

unfoldable pub add_suite : Element → Attempt Execution
add_suite test_suite = if_found (find (codes "test_cases") test_suite) add_test_cases

-- The execution report of a root.
unfoldable pub add_execution : Element → Attempt Execution
add_execution root =
    if_found (find (codes "execution_report") root)
      (λ node. for_each add_suite (find_all (codes "test_suite") node))

abbrev pub ends_in_slash : Text → Bool
ends_in_slash [] = false
ends_in_slash (c ∷ []) = c == b'/'
ends_in_slash (c ∷ d ∷ s) = ends_in_slash (d ∷ s)

-- A directory and a pattern, joined.
abbrev pub join_path : Text → Text → Text
join_path [] name = name
join_path (c ∷ s) name = if ends_in_slash (c ∷ s) then (c ∷ s) ++ name else (c ∷ s) ++ b'/' ∷ name

-- `os.path.basename`
abbrev pub last_piece : Text → List Text → Text
last_piece piece [] = piece
last_piece piece (p ∷ ps) = last_piece p ps

unfoldable pub basename : Text → Text
basename path = last_piece [] (split_on b'/' path)

module _ {F : Type 0} (num : Float F) where
  abbrev pub float_or_raise : Text → Option F → Result Fault F
  float_or_raise s none = err (bad_float s)
  float_or_raise s (some x) = ok x

  -- `float(e.get(name, 0.0))`
  abbrev pub float_of : Option Text → Result Fault F
  float_of none = ok num.zero_f
  float_of (some s) = float_or_raise s (num.parse s)

  -- The two sums of one kind of coverage.
  abbrev pub add_coverage :
      (F → Coverage F → Coverage F) → (F → Coverage F → Coverage F) → Element → Attempt (Coverage F)
  add_coverage achieved total e =
      add_value (float_of (get (codes "achieved") e)) achieved
      then add_value (float_of (get (codes "total") e)) total

  unfoldable pub add_statement : Element → Attempt (Coverage F)
  add_statement =
      add_coverage (λ x c. record c { statement_achieved_sum = num.add c.statement_achieved_sum x })
        (λ x c. record c { statement_total_sum = num.add c.statement_total_sum x })

  unfoldable pub add_branch : Element → Attempt (Coverage F)
  add_branch =
      add_coverage (λ x c. record c { branch_achieved_sum = num.add c.branch_achieved_sum x })
        (λ x c. record c { branch_total_sum = num.add c.branch_total_sum x })

  unfoldable pub add_mcdc : Element → Attempt (Coverage F)
  add_mcdc =
      add_coverage (λ x c. record c { mcdc_achieved_sum = num.add c.mcdc_achieved_sum x })
        (λ x c. record c { mcdc_total_sum = num.add c.mcdc_total_sum x })

  unfoldable pub add_module : Element → Attempt (Coverage F)
  add_module m =
      if_found (find (codes "statement_coverage") m) add_statement
      then if_found (find (codes "branch_coverage") m) add_branch
      then if_found (find (codes "mcdc_coverage") m) add_mcdc

  -- The coverage report of a root.
  unfoldable pub add_coverages : Element → Attempt (Coverage F)
  add_coverages root =
      if_found (find (codes "coverage_report") root)
        (λ node. for_each add_module (find_all (codes "module") node))

  abbrev pub add_errors : List Entry → Metrics F → Metrics F
  add_errors es m = record m { errors = m.errors ++ es }

  abbrev pub unexpected_entries : Text → Option Fault → List Entry
  unexpected_entries file_path none = []
  unexpected_entries file_path (some f) = unexpected (basename file_path) f ∷ []

  -- The body of the `try` for a parsed file: the coverage is not reached after an exception in the
  -- execution report.
  unfoldable pub add_root : Element → Attempt (Metrics F)
  add_root root m =
      let (execution, fault) = add_execution root m.execution in
      let (coverage, later) = add_coverages root m.coverage in
      elim fault [
        | some f ↦ (record m { execution = execution }, some f)
        | none ↦ (record m { execution = execution; coverage = coverage }, later)
      ]

  unfoldable pub parse_file : (Text → Parsed) → Text → Metrics F → Metrics F
  parse_file parse file_path m = elim (parse file_path) [
    | tree root ↦
        let (added, fault) = add_root root m in
        add_errors (unexpected_entries file_path fault) added
    | malformed e ↦ add_errors (malformed_xml (basename file_path) e ∷ []) m
    | failed e ↦ add_errors (unexpected (basename file_path) (other e) ∷ []) m
  ]

  unfoldable pub parse_files : (Text → Parsed) → List Text → Metrics F → Metrics F
  parse_files parse [] m = m
  parse_files parse (file ∷ files) m = parse_files parse files (parse_file parse file m)

  -- The files that `glob.glob` gives, in its order.
  unfoldable pub parse_directory :
      (Text → List Text) → (Text → Parsed) → Text → Metrics F → Metrics F
  parse_directory glob parse directory_path m =
      parse_files parse (glob (join_path directory_path (codes "*.xml"))) m

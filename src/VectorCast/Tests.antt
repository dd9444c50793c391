-- ===== src/VectorCast/Tests.antt =====
-- Two small files of results, and the properties of the parser at them.
use automotive_testing_frame.VectorCast.{key_error, delta_error, Metrics}
use automotive_testing_frame.VectorCast.Report.{
  Loaded, loaded, deltas_of, compute_deltas, summary, percentage, generate_json_report,
}
use automotive_testing_frame.Prelude.{none, false, some}
use automotive_testing_frame.VectorCast.Totals.{
  all_readable, cases_in_files, sums, parse_files-sums,
}
use mathlib.Core.Option
use mathlib.Core.List.{Permᴰ}
use automotive_testing_frame.Prelude.Bytes.{bytes_eq}
use automotive_testing_frame.VectorCast.{
  Float, Element, element, end, child, lookup, find_in, find_all_in, bad_int, Parsed, tree,
  malformed, malformed_xml, unexpected, init,
}
use automotive_testing_frame.VectorCast.Numbers.{parse_int, read_signed, read_digits}
use automotive_testing_frame.VectorCast.Attempts.{◌then◌, for_each}
use automotive_testing_frame.VectorCast.Parser.{
  add_passed, add_failed, add_total, add_test_cases, add_suite, add_execution, add_coverages,
  add_root, basename, parse_file, parse_files, parse_directory,
}
use automotive_testing_frame.VectorCast.Added.{plus}
use automotive_testing_frame.VectorCast.Order.{parse_directory_order}
use automotive_testing_frame.Prelude.{true, ◌*◌, ◌/◌, ◌≡◌, refl, List, [], ◌∷◌, ◌++◌, if◌then◌else◌}
use automotive_testing_frame.Prelude.Int.{
  ℤ, pos, sub_ℕ, pos_part, neg_part, ltb_ℤ, leb_ℤ, ◌+ℤ◌, ◌-ℤ◌,
}
use automotive_testing_frame.Prelude.Texts.{Text, codes, split_on, show_ℤ, lstrip, rstrip}

-- Numbers with two decimals, of which `float` reads the whole ones.
abbrev cents : Float ℤ
cents = record {
  zero_f = pos 0;
  parse = λ s. Option.map (λ n. sub_ℕ (100 * pos_part n) (100 * neg_part n)) (parse_int s);
  add = ◌+ℤ◌;
  sub = ◌-ℤ◌;
  div = λ a b. pos (pos_part a * 100 / pos_part b);
  ratio = λ a b. pos (pos_part a * 100 / pos_part b);
  times_100 = λ a. pos (100 * pos_part a);
  round_2 = λ a. a;
  is_positive = λ a. ltb_ℤ (pos 0) a;
  is_nonnegative = λ a. leb_ℤ (pos 0) a;
  show = show_ℤ;
  show_signed = show_ℤ;
}

abbrev cases : Text → Text → Text → Element
cases passed failed total =
    element (codes "test_cases")
      ((codes "passed", passed) ∷ (codes "failed", failed) ∷ (codes "total", total) ∷ []) end

abbrev root_of : Element → Element
root_of e = element (codes "results") [] (
    child
      (element (codes "execution_report") []
        (child (element (codes "test_suite") [] (child e end)) end))
      end)

-- The second file breaks off at its failed tests.
abbrev parse : Text → Parsed
parse path =
    if bytes_eq path (codes "in/a.xml")
    then tree (root_of (cases (codes "8") (codes " 2") (codes "10")))
    else if bytes_eq path (codes "in/b.xml")
    then tree (root_of (cases (codes "5") (codes "many") (codes "6")))
    else malformed (codes "no element found")

abbrev files : List Text
files = codes "in/a.xml" ∷ codes "in/b.xml" ∷ codes "in/c.xml" ∷ []

abbrev files_too : List Text
files_too = codes "in/b.xml" ∷ codes "in/a.xml" ∷ codes "in/c.xml" ∷ []

totals :
    let m = parse_files cents parse files (init cents) in
    (m.execution ≡ record { passed = pos 13; failed = pos 2; total = pos 10 })
    × (m.errors
        ≡ unexpected (codes "b.xml") (bad_int (codes "many"))
          ∷ malformed_xml (codes "c.xml") (codes "no element found")
          ∷ [])
unfolding parse_files parse_file add_root add_execution add_suite add_test_cases add_passed
    add_failed add_total add_coverages for_each ◌then◌ find_in find_all_in lookup parse_int
    read_signed read_digits lstrip rstrip init basename split_on ◌+ℤ◌ bytes_eq
totals = (refl, refl)

-- A third file is readable, a fourth is malformed.
abbrev parse_more : Text → Parsed
parse_more path =
    if bytes_eq path (codes "in/b.xml")
    then tree (root_of (cases (codes "5") (codes "1") (codes "6")))
    else parse path

readable : all_readable (cases_in_files parse_more files) ≡ true
unfolding find_in find_all_in lookup parse_int read_signed read_digits lstrip rstrip bytes_eq
readable = refl

parse_files-sums_example :
    (parse_files cents parse_more files (init cents)).execution
    ≡ plus (init cents).execution (sums (cases_in_files parse_more files))
parse_files-sums_example = parse_files-sums cents parse_more files (init cents) readable

parse_directory_order_example :
    let one = parse_directory cents (λ p. files) parse (codes "in") (init cents) in
    let other_one = parse_directory cents (λ p. files_too) parse (codes "in") (init cents) in
    (one.execution ≡ other_one.execution) × Permᴰ one.errors other_one.errors
parse_directory_order_example =
    parse_directory_order cents parse (λ p. files) (λ p. files_too) (codes "in") (init cents)
      (Permᴰ.swap refl refl)

-- A run with one unreadable file, and a baseline without the section of the coverage.
abbrev measured : Metrics ℤ
measured = record {
  execution = record { passed = pos 13; failed = pos 2; total = pos 15 };
  coverage = record {
    statement_achieved_sum = pos 8000;
    statement_total_sum = pos 10000;
    branch_achieved_sum = pos 0;
    branch_total_sum = pos 0;
    mcdc_achieved_sum = pos 0;
    mcdc_total_sum = pos 0;
  };
  errors = malformed_xml (codes "c.xml") (codes "no element found") ∷ [];
}

abbrev load : Text → Loaded ℤ
load path = loaded (record {
  execution = true;
  passed = some (pos 10);
  failed = some (pos 4);
  pass_rate_percentage = some (pos 7143);
  coverage = false;
  statement_coverage_percentage = none;
  branch_coverage_percentage = none;
  mcdc_coverage_percentage = none;
})

reports_key :
    let (report, after) = generate_json_report cents load (some (codes "b.json")) measured in
    (report.errors ≡ measured.errors ++ delta_error (key_error (codes "coverage")) ∷ [])
    × (report.statement_coverage_percentage ≡ pos 8000)
unfolding generate_json_report compute_deltas deltas_of summary percentage
reports_key = (refl, refl)

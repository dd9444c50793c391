-- ===== src/Traceability/Tests.antt =====
-- A report of four test cases against two requirements.
use automotive_testing_frame.Prelude.Texts.{codes, join}
use automotive_testing_frame.Traceability.Markdown.{row_line, row_lines, status_text}
use automotive_testing_frame.Traceability.Lines.{rows_in_one_line}
use automotive_testing_frame.Prelude.{
  ◌≡◌, refl, Bool, true, false, ◌&&◌, none, some, List, [], ◌∷◌, map, if◌then◌else◌,
}
use automotive_testing_frame.Prelude.Bytes.{bytes_eq}
use automotive_testing_frame.Traceability.{
  status_of, any_failure, Results, orphaned_tests, uncovered_reqs, append_result, first_req,
  req_id_of, add_testcase, collect, Text, Testcase, Requirements, exit_code, matrix,
  parse_junit_xml, req_name, find,
}
use automotive_testing_frame.Traceability.Coverage.{all_covered, all_linked, exit_code_complete}
use automotive_testing_frame.Traceability.Verdicts.{line_of, expected_line, matrix-verdict}

abbrev req_1 : Text
req_1 = b'R' ∷ b'1' ∷ []

abbrev req_2 : Text
req_2 = b'R' ∷ b'2' ∷ []

abbrev requirements : Requirements
requirements = (req_1, some (b'a' ∷ [])) ∷ (req_2, none) ∷ []

abbrev case_for : Text → Bool → Testcase
case_for req has_failure = record {
  name = some (b't' ∷ []);
  has_failure = has_failure;
  has_skipped = false;
  has_error = false;
  properties = some ((none, none) ∷ (some req_name, some req) ∷ []);
}

abbrev unmarked : Testcase
unmarked = record {
  name = none;
  has_failure = true;
  has_skipped = false;
  has_error = false;
  properties = none;
}

abbrev report : List Testcase
report = case_for req_1 false ∷ case_for req_1 true ∷ unmarked ∷ case_for req_2 false ∷ []

-- The build passes although a test of the first requirement failed.
passes_with_failure : exit_code requirements (some report) ≡ 0
unfolding exit_code parse_junit_xml collect add_testcase req_id_of first_req append_result bytes_eq
    uncovered_reqs orphaned_tests find
passes_with_failure = refl

exit_code_complete_example :
    (exit_code requirements none ≡ 1)
    × (exit_code requirements (some report)
        ≡ (if all_covered requirements report && all_linked requirements report then 0 else 1))
exit_code_complete_example = exit_code_complete requirements report

matrix-verdict_example :
    map line_of (matrix requirements (parse_junit_xml report))
    ≡ map (expected_line report) requirements
matrix-verdict_example = matrix-verdict requirements report

abbrev results : Results
results = parse_junit_xml report

in_lines : rows_in_one_line (matrix requirements results) ≡ true
unfolding matrix parse_junit_xml collect add_testcase req_id_of first_req append_result bytes_eq
    find
in_lines = refl

last_line :
    row_lines (matrix requirements results)
    ≡ codes "| R1 | a | `t`<br>`t` | ❌ FAILED |" ∷ codes "| R2 | Unknown | `t` | ✅ PASSED |" ∷ []
unfolding matrix parse_junit_xml collect add_testcase req_id_of first_req append_result bytes_eq
    find row_line status_text join any_failure status_of
last_line = refl

-- ===== src/Traceability/Verdicts.antt =====
-- The status that a requirement gets in the matrix, told from the test cases.
use automotive_testing_frame.Prelude.{
  ◌≡◌, refl, inl, inr, Bool, true, false, not, ◌&&◌, ◌||◌, Option, none, some, List, [], ◌∷◌, ◌++◌,
  map, arith, if◌then◌else◌, Option-cases,
}
use automotive_testing_frame.Prelude.Bytes.{bytes_eq_sound, bytes_eq}
use automotive_testing_frame.Traceability.{
  Text, find, Testcase, passed, req_id_of, status_of, TestResult, Results, append_result,
  add_testcase, collect, parse_junit_xml, Requirements, Row, RowStatus, row_passed, row_failed,
  row_uncovered, any_failure, matrix, row_of,
}
use automotive_testing_frame.Traceability.Coverage.{tests_req, covered, has-collect}

-- No child element tells of a failure, a skip or an error.
abbrev pub is_passed : Testcase → Bool
is_passed t = not (t.has_failure || t.has_skipped || t.has_error)

-- Every test case that names the requirement passed.
abbrev pub all_passed : Text → List Testcase → Bool
all_passed k [] = true
all_passed k (t ∷ ts) = (not (tests_req k t) || is_passed t) && all_passed k ts

abbrev pub verdict : Text → List Testcase → RowStatus
verdict k ts =
    if covered k ts then (if all_passed k ts then row_passed else row_failed) else row_uncovered

abbrev fails : Text → Results → Bool
fails k d = elim (find k d) [ none ↦ false | some rs ↦ any_failure rs ]

abbrev is_bad : TestResult → Bool
is_bad r = elim (r.status) [ passed ↦ false | _ ↦ true ]

any_failure-append :
    (rs : List TestResult) (r : TestResult)
    → any_failure (rs ++ r ∷ []) ≡ any_failure rs || is_bad r
unfolding any_failure
any_failure-append [] r = ground arith
any_failure-append (q ∷ rs) r = ground (arith, any_failure-append rs r)

fails-append_result :
    (k j : Text) (r : TestResult) (d : Results)
    → fails k (append_result j r d) ≡ fails k d || (bytes_eq k j && is_bad r)
unfolding find append_result any_failure
fails-append_result k j r [] = ground (arith, any_failure-append [] r)
fails-append_result k j r ((i, rs) ∷ d) = ground (
  arith,
  fails-append_result k j r d,
  any_failure-append rs r,
  bytes_eq_sound j i,
  bytes_eq_sound k i,
  bytes_eq_sound k j,
)

status_of-is_passed :
    (t : Testcase)
    → is_bad (record { test_name = t.name; status = status_of t }) ≡ not (is_passed t)
unfolding status_of
status_of-is_passed t = ground arith

fails-add_testcase :
    (k : Text) (t : Testcase) (d : Results)
    → fails k (add_testcase t d) ≡ fails k d || (tests_req k t && not (is_passed t))
unfolding add_testcase tests_req
fails-add_testcase k t d = elim (Option-cases (req_id_of t)) [
  | inl e ↦ rw (add_testcase, tests_req, e) (ground arith)
  | inr ([], e) ↦ rw (add_testcase, tests_req, e) (ground arith)
  | inr (c ∷ cs, e) ↦
      rw (add_testcase, tests_req, e)
        (ground (
          arith,
          status_of-is_passed t,
          fails-append_result k (c ∷ cs) (record { test_name = t.name; status = status_of t }) d,
        ))
]

fails-collect :
    (k : Text) (ts : List Testcase) (d : Results)
    → fails k (collect ts d) ≡ fails k d || not (all_passed k ts)
unfolding collect
fails-collect k [] d = ground arith
fails-collect k (t ∷ ts) d =
    ground (arith, fails-collect k ts (add_testcase t d), fails-add_testcase k t d)

-- A line of the matrix without the title and the names of the tests.
abbrev pub line_of : Row → Text × RowStatus
line_of row = (row.req_id, row.row_status)

abbrev pub expected_line : List Testcase → Text × Option Text → Text × RowStatus
expected_line ts (k, title) = (k, verdict k ts)

row_of-verdict :
    (k : Text) (title : Option Text) (ts : List Testcase)
    → line_of (row_of k title (find k (parse_junit_xml ts))) ≡ expected_line ts (k, title)
unfolding parse_junit_xml find
row_of-verdict k title ts =
    let is_there = has-collect k ts [] in
    let bad = fails-collect k ts [] in
    elim (Option-cases (find k (collect ts []))) [
      | inl e ↦ rw e (ground (arith, e, is_there, bad))
      | inr (rs, e) ↦ rw e (ground (arith, e, is_there, bad))
    ]

-- The matrix has one line for each requirement, in their order, and each says UNCOVERED if no test
-- case names the requirement, else PASSED if all of those that do passed, and else FAILED.
pub matrix-verdict :
    (reqs : Requirements) (ts : List Testcase)
    → map line_of (matrix reqs (parse_junit_xml ts)) ≡ map (expected_line ts) reqs
unfolding matrix
matrix-verdict [] ts = refl
matrix-verdict ((k, title) ∷ reqs) ts =
    rw (matrix, row_of-verdict k title ts, matrix-verdict reqs ts) refl

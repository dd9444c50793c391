-- ===== src/Traceability/Coverage.antt =====
-- Which requirements are covered and which tests are orphaned, told from the test cases.
use automotive_testing_frame.Prelude.{
  ◌≡◌, refl, inl, inr, Bool, true, false, ◌&&◌, ◌||◌, none, some, List, [], ◌∷◌, arith,
  if◌then◌else◌, Option-cases,
}
use automotive_testing_frame.Prelude.Bytes.{bytes_eq}
use automotive_testing_frame.Prelude.Bytes.{bytes_eq_sound}
use automotive_testing_frame.Traceability.{
  Text, find, has, Testcase, req_id_of, TestResult, Results, append_result, add_testcase, collect,
  parse_junit_xml, Requirements, uncovered_reqs, orphaned_tests, is_empty, exit_code,
}

-- The test case names a requirement: not none, and not the empty string.
unfoldable pub tests_req : Text → Testcase → Bool
tests_req k t = elim (req_id_of t) [
  | none ↦ false
  | some [] ↦ false
  | some (c ∷ cs) ↦ bytes_eq k (c ∷ cs)
]

abbrev pub covered : Text → List Testcase → Bool
covered k [] = false
covered k (t ∷ ts) = tests_req k t || covered k ts

-- Every requirement is named by some test case.
abbrev pub all_covered : Requirements → List Testcase → Bool
all_covered [] ts = true
all_covered ((k, title) ∷ reqs) ts = covered k ts && all_covered reqs ts

-- A test case that names a requirement names one of the list.
unfoldable pub is_linked : Requirements → Testcase → Bool
is_linked reqs t = elim (req_id_of t) [
  | none ↦ true
  | some [] ↦ true
  | some (c ∷ cs) ↦ has (c ∷ cs) reqs
]

abbrev pub all_linked : Requirements → List Testcase → Bool
all_linked reqs [] = true
all_linked reqs (t ∷ ts) = is_linked reqs t && all_linked reqs ts

has-append_result :
    (k j : Text) (r : TestResult) (d : Results)
    → has k (append_result j r d) ≡ bytes_eq k j || has k d
unfolding find append_result
has-append_result k j r [] = ground arith
has-append_result k j r ((i, rs) ∷ d) =
    ground
      (arith, has-append_result k j r d, bytes_eq_sound j i, bytes_eq_sound k i, bytes_eq_sound k j)

has-add_testcase :
    (k : Text) (t : Testcase) (d : Results) → has k (add_testcase t d) ≡ tests_req k t || has k d
unfolding add_testcase tests_req
has-add_testcase k t d = elim (Option-cases (req_id_of t)) [
  | inl e ↦ rw (add_testcase, tests_req, e) refl
  | inr ([], e) ↦ rw (add_testcase, tests_req, e) refl
  | inr (c ∷ cs, e) ↦ rw (add_testcase, tests_req, e) (has-append_result k (c ∷ cs) _ d)
]

pub has-collect :
    (k : Text) (ts : List Testcase) (d : Results) → has k (collect ts d) ≡ has k d || covered k ts
unfolding collect
has-collect k [] d = ground arith
has-collect k (t ∷ ts) d =
    ground (arith, has-collect k ts (add_testcase t d), has-add_testcase k t d)

uncovered-is_empty :
    (reqs : Requirements) (ts : List Testcase)
    → is_empty (uncovered_reqs reqs (parse_junit_xml ts)) ≡ all_covered reqs ts
unfolding uncovered_reqs parse_junit_xml find
uncovered-is_empty [] ts = refl
uncovered-is_empty ((k, title) ∷ reqs) ts =
    ground (arith, uncovered-is_empty reqs ts, has-collect k ts [])

-- The keys of the results are requirements.
abbrev all_known : Requirements → Results → Bool
all_known reqs [] = true
all_known reqs ((k, rs) ∷ d) = has k reqs && all_known reqs d

orphaned-is_empty :
    (reqs : Requirements) (d : Results) → is_empty (orphaned_tests reqs d) ≡ all_known reqs d
unfolding orphaned_tests
orphaned-is_empty reqs [] = refl
orphaned-is_empty reqs ((k, rs) ∷ d) = ground (arith, orphaned-is_empty reqs d)

all_known-append_result :
    (reqs : Requirements) (k : Text) (r : TestResult) (d : Results)
    → all_known reqs (append_result k r d) ≡ all_known reqs d && has k reqs
unfolding append_result
all_known-append_result reqs k r [] = ground arith
all_known-append_result reqs k r ((j, rs) ∷ d) =
    ground (arith, all_known-append_result reqs k r d, bytes_eq_sound k j)

all_known-add_testcase :
    (reqs : Requirements) (t : Testcase) (d : Results)
    → all_known reqs (add_testcase t d) ≡ all_known reqs d && is_linked reqs t
unfolding add_testcase is_linked
all_known-add_testcase reqs t d = elim (Option-cases (req_id_of t)) [
  | inl e ↦ rw (add_testcase, is_linked, e) (ground arith)
  | inr ([], e) ↦ rw (add_testcase, is_linked, e) (ground arith)
  | inr (c ∷ cs, e) ↦ rw (add_testcase, is_linked, e) (all_known-append_result reqs (c ∷ cs) _ d)
]

all_known-collect :
    (reqs : Requirements) (ts : List Testcase) (d : Results)
    → all_known reqs (collect ts d) ≡ all_known reqs d && all_linked reqs ts
unfolding collect
all_known-collect reqs [] d = ground arith
all_known-collect reqs (t ∷ ts) d =
    ground (arith, all_known-collect reqs ts (add_testcase t d), all_known-add_testcase reqs t d)

-- The build passes exactly if the report exists, every requirement is named by a test case, and every
-- test case that names a requirement names one of the list. Whether the tests passed plays no part.
pub exit_code_complete :
    (reqs : Requirements) (ts : List Testcase)
    → (exit_code reqs none ≡ 1)
      × (exit_code reqs (some ts) ≡ (if all_covered reqs ts && all_linked reqs ts then 0 else 1))
unfolding exit_code parse_junit_xml
exit_code_complete reqs ts = (
  refl,
  ground (
    arith,
    uncovered-is_empty reqs ts,
    orphaned-is_empty reqs (parse_junit_xml ts),
    all_known-collect reqs ts [],
  ),
)

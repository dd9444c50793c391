-- ===== src/Traceability.antt =====
-- subProj 5 ASPICE Traceability/traceability_generator.py: the matrix of requirements and test results.
pub use automotive_testing_frame.Prelude.Texts.{Text}
use automotive_testing_frame.Prelude.{
  ℕ, zero, suc, ◌+◌, ◌-◌, ◌*◌, ◌/◌, ◌%◌, ◌^◌, ◌≤◌, ◌<◌, ◌≡◌, refl, sym, ap, ◌∙◌, ◌≢◌, ◌↔◌, ◌⊎◌, inl,
  inr, Bool, true, false, not, ◌&&◌, ◌||◌, Option, none, some, List, [], ◌∷◌, ◌++◌, map, arith, ltb,
  leb, ◌==◌, if◌then◌else◌, length, take, drop, All, Bool-cases, Option-cases, get_or,
  length-append,
}
use automotive_testing_frame.Prelude.Bytes.{Bytes, bytes_eq}
pub mod Coverage
pub mod Verdicts
pub mod Markdown
pub mod Lines
mod Tests

-- A dict with strings for keys, in insertion order.
abbrev pub TextDict {ℓ} : Type ℓ → Type ℓ
TextDict V = List (Text × V)

-- `d[k]`, `none` if it is not there
unfoldable pub find {ℓ} : {V : Type ℓ} → Text → TextDict V → Option V
find k [] = none
find k ((j, v) ∷ d) = if bytes_eq k j then some v else find k d

abbrev pub has {ℓ} : {V : Type ℓ} → Text → TextDict V → Bool
has k d = elim (find k d) [ none ↦ false | some v ↦ true ]

pub data Status : Type 0 where
  passed failed skipped error : Status

-- What the parser reads of a `testcase` element: its name, whether `find` meets a child of a tag, and
-- the pairs of name and value below `properties`, if there is such a child.
pub record Testcase : Type 0 where
  pub name : Option Text
  pub has_failure : Bool
  pub has_skipped : Bool
  pub has_error : Bool
  pub properties : Option (List (Option Text × Option Text))

unfoldable pub status_of : Testcase → Status
status_of t =
    if t.has_failure
    then failed
    else if t.has_skipped
    then skipped
    else if t.has_error
    then error
    else passed

-- "req"
abbrev pub req_name : Text
req_name = b'r' ∷ b'e' ∷ b'q' ∷ []

-- The value of the first property with the name "req".
unfoldable pub first_req : List (Option Text × Option Text) → Option Text
first_req [] = none
first_req ((none, v) ∷ ps) = first_req ps
first_req ((some n, v) ∷ ps) = if bytes_eq n req_name then v else first_req ps

unfoldable pub req_id_of : Testcase → Option Text
req_id_of t = elim (t.properties) [ none ↦ none | some ps ↦ first_req ps ]

pub record TestResult : Type 0 where
  pub test_name : Option Text
  pub status : Status

abbrev pub Results : Type 0
Results = TextDict (List TestResult)

-- `test_results[req_id].append(result)`, after an empty list for a new key
unfoldable pub append_result : Text → TestResult → Results → Results
append_result k r [] = (k, r ∷ []) ∷ []
append_result k r ((j, rs) ∷ d) =
    if bytes_eq k j then (j, rs ++ r ∷ []) ∷ d else (j, rs) ∷ append_result k r d

-- The body of the loop: `if req_id` passes over None and the empty string.
unfoldable pub add_testcase : Testcase → Results → Results
add_testcase t d = elim (req_id_of t) [
  | none ↦ d
  | some [] ↦ d
  | some (c ∷ cs) ↦ append_result (c ∷ cs) (record { test_name = t.name; status = status_of t }) d
]

unfoldable pub collect : List Testcase → Results → Results
collect [] d = d
collect (t ∷ ts) d = collect ts (add_testcase t d)

unfoldable pub parse_junit_xml : List Testcase → Results
parse_junit_xml ts = collect ts []

-- A line of the matrix. The title is `none` where the requirement gives none ("Unknown").
pub data RowStatus : Type 0 where
  row_passed row_failed row_uncovered : RowStatus

pub record Row : Type 0 where
  pub req_id : Text
  pub title : Option Text
  pub tests : List (Option Text)
  pub row_status : RowStatus

-- `any(t['status'] != "PASSED" for t in tests)`
unfoldable pub any_failure : List TestResult → Bool
any_failure [] = false
any_failure (r ∷ rs) = elim (r.status) [ passed ↦ any_failure rs | _ ↦ true ]

abbrev pub Requirements : Type 0
Requirements = TextDict (Option Text)

abbrev pub row_of : Text → Option Text → Option (List TestResult) → Row
row_of req_id title none = record {
  req_id = req_id;
  title = title;
  tests = [];
  row_status = row_uncovered;
}
row_of req_id title (some rs) = record {
  req_id = req_id;
  title = title;
  tests = map (λ r. r.test_name) rs;
  row_status = if any_failure rs then row_failed else row_passed;
}

unfoldable pub matrix : Requirements → Results → List Row
matrix [] d = []
matrix ((req_id, title) ∷ reqs) d = row_of req_id title (find req_id d) ∷ matrix reqs d

unfoldable pub uncovered_reqs : Requirements → Results → List Text
uncovered_reqs [] d = []
uncovered_reqs ((req_id, title) ∷ reqs) d =
    let rest = uncovered_reqs reqs d in if has req_id d then rest else req_id ∷ rest

unfoldable pub orphaned_tests : Requirements → Results → List (Text × List (Option Text))
orphaned_tests reqs [] = []
orphaned_tests reqs ((req_id, rs) ∷ d) =
    let rest = orphaned_tests reqs d in
    if has req_id reqs then rest else (req_id, map (λ r. r.test_name) rs) ∷ rest

abbrev pub is_empty {ℓ} : {A : Type ℓ} → List A → Bool
is_empty [] = true
is_empty (x ∷ xs) = false

-- The exit code of main, for the requirements and, if the report exists, its test cases.
unfoldable pub exit_code : Requirements → Option (List Testcase) → ℕ
exit_code reqs none = 1
exit_code reqs (some ts) =
    let results = parse_junit_xml ts in
    if is_empty (uncovered_reqs reqs results) && is_empty (orphaned_tests reqs results)
    then 0
    else 1

-- ===== src/VectorCast/Totals.antt =====
-- The totals of the execution against the sums over all test cases.
use automotive_testing_frame.VectorCast.{
  Float, Element, get, find, find_all, Fault, Parsed, tree, malformed, failed, Execution, Metrics,
}
use automotive_testing_frame.VectorCast.Attempts.{
  skip, Attempt, ◌then◌, for_each, add_value, if_found,
}
use automotive_testing_frame.VectorCast.Steps.{then-none}
use automotive_testing_frame.VectorCast.Parser.{
  int_of, add_passed, add_failed, add_total, add_test_cases, add_suite, add_execution, parse_files,
}
use automotive_testing_frame.VectorCast.Added.{
  plus_comm, execution_eq, plus, nothing_executed, plus_assoc, plus_nothing, execution_of,
}
use automotive_testing_frame.VectorCast.Order.{executions, parse_files_adds}
use automotive_testing_frame.Prelude.{
  ◌≡◌, refl, sym, ap, ◌∙◌, Bool, true, false, ◌&&◌, Option, none, some, List, [], ◌∷◌, ◌++◌, arith,
  if◌then◌else◌, Result, ok, err,
}
use automotive_testing_frame.Prelude.Int.{ℤ, pos, ◌+ℤ◌, int_laws}
use automotive_testing_frame.Prelude.Texts.{Text, codes}

-- The test cases of a root: the first `test_cases` of each suite.
abbrev prepend : Option Element → List Element → List Element
prepend none es = es
prepend (some e) es = e ∷ es

abbrev cases_in : List Element → List Element
cases_in [] = []
cases_in (suite ∷ suites) = prepend (find (codes "test_cases") suite) (cases_in suites)

abbrev cases_below : Option Element → List Element
cases_below none = []
cases_below (some node) = cases_in (find_all (codes "test_suite") node)

abbrev pub cases_of : Element → List Element
cases_of root = cases_below (find (codes "execution_report") root)

abbrev is_ok : Result Fault ℤ → Bool
is_ok (ok n) = true
is_ok (err f) = false

abbrev value : Result Fault ℤ → ℤ
value (ok n) = n
value (err f) = pos 0

abbrev number : Text → Element → Result Fault ℤ
number name e = int_of (get name e)

abbrev is_readable : Element → Bool
is_readable e =
    is_ok (number (codes "passed") e)
    && is_ok (number (codes "failed") e)
    && is_ok (number (codes "total") e)

abbrev pub all_readable : List Element → Bool
all_readable [] = true
all_readable (e ∷ es) = is_readable e && all_readable es

abbrev sum : Text → List Element → ℤ
sum name [] = pos 0
sum name (e ∷ es) = value (number name e) +ℤ sum name es

abbrev pub sums : List Element → Execution
sums es = record {
  passed = sum (codes "passed") es;
  failed = sum (codes "failed") es;
  total = sum (codes "total") es;
}

then-ok : (a b : Attempt Execution) (c d : Execution) → a c ≡ (d, none) → (a then b) c ≡ b d
then-ok a b c d h = then-none a b c (ap (λ p. p.1) h) ∙ ap (λ p. b p.0) h

add_value-ok :
    (r : Result Fault ℤ) (add : ℤ → Execution → Execution) (c : Execution)
    → is_ok r ≡ true
    → add_value r add c ≡ (add (value r) c, none)
add_value-ok (ok n) add c h = refl
add_value-ok (err f) add c h = cc

+ℤ_last : (a b : ℤ) → a +ℤ b ≡ a +ℤ (b +ℤ pos 0)
+ℤ_last a b = omega int_laws

add_test_cases-readable :
    (e : Element) (c : Execution)
    → is_readable e ≡ true
    → add_test_cases e c ≡ (plus c (sums (e ∷ [])), none)
unfolding add_test_cases add_passed add_failed add_total
add_test_cases-readable e c h =
    let passed = number (codes "passed") e in
    let failed = number (codes "failed") e in
    let total = number (codes "total") e in
    then-ok (add_value passed add_passed) _ c (add_passed (value passed) c)
      (add_value-ok passed add_passed c (ground (arith, h)))
    ∙ (then-ok (add_value failed add_failed) (add_value total add_total) _ _
          (add_value-ok failed add_failed (add_passed (value passed) c) (ground (arith, h)))
        ∙ (add_value-ok total add_total (add_failed (value failed) (add_passed (value passed) c))
              (ground (arith, h))
            ∙ ap (λ x. (x, none))
                (execution_eq _ _ (+ℤ_last c.passed (value passed))
                  (+ℤ_last c.failed (value failed)) (+ℤ_last c.total (value total)))))

sums_cons : (e : Element) (es : List Element) → sums (e ∷ es) ≡ plus (sums (e ∷ [])) (sums es)
sums_cons e es = execution_eq _ _ (omega int_laws) (omega int_laws) (omega int_laws)

suite-readable :
    (o : Option Element) (rest : Attempt Execution) (es : List Element) (c : Execution)
    → ((d : Execution) → rest d ≡ (plus d (sums es), none))
    → all_readable (prepend o es) ≡ true
    → (if_found o add_test_cases then rest) c ≡ (plus c (sums (prepend o es)), none)
suite-readable none rest es c others h = then-ok skip rest c c refl ∙ others c
suite-readable (some e) rest es c others h =
    then-ok (add_test_cases e) rest c _ (add_test_cases-readable e c (ground (arith, h)))
    ∙ (others (plus c (sums (e ∷ [])))
        ∙ ap (λ x. (x, none))
            (plus_assoc c (sums (e ∷ [])) (sums es) ∙ ap (plus c) (sym (sums_cons e es))))

rest_readable :
    (o : Option Element) (es : List Element)
    → all_readable (prepend o es) ≡ true
    → all_readable es ≡ true
rest_readable none es h = h
rest_readable (some e) es h = ground (arith, h)

suites-readable :
    (suites : List Element) (c : Execution)
    → all_readable (cases_in suites) ≡ true
    → for_each add_suite suites c ≡ (plus c (sums (cases_in suites)), none)
unfolding for_each add_suite
suites-readable [] c h = ap (λ x. (x, none)) (sym (plus_nothing c))
suites-readable (suite ∷ suites) c h =
    let o = find (codes "test_cases") suite in
    suite-readable o (for_each add_suite suites) (cases_in suites) c
      (λ d. suites-readable suites d (rest_readable o (cases_in suites) h)) h

report-readable :
    (o : Option Element) (c : Execution)
    → all_readable (cases_below o) ≡ true
    → if_found o (λ node. for_each add_suite (find_all (codes "test_suite") node)) c
      ≡ (plus c (sums (cases_below o)), none)
report-readable none c h = ap (λ x. (x, none)) (sym (plus_nothing c))
report-readable (some node) c h = suites-readable (find_all (codes "test_suite") node) c h

-- The test cases of a file: none of one that is not parsed.
abbrev pub cases_in_file : Parsed → List Element
cases_in_file (tree root) = cases_of root
cases_in_file (malformed e) = []
cases_in_file (failed e) = []

abbrev pub cases_in_files : (Text → Parsed) → List Text → List Element
cases_in_files parse [] = []
cases_in_files parse (f ∷ fs) = cases_in_file (parse f) ++ cases_in_files parse fs

nothing_plus : (c : Execution) → plus nothing_executed c ≡ c
nothing_plus c = plus_comm nothing_executed c ∙ plus_nothing c

execution_of-readable :
    (p : Parsed) → all_readable (cases_in_file p) ≡ true → execution_of p ≡ sums (cases_in_file p)
unfolding add_execution
execution_of-readable (tree root) h =
    ap (λ p. p.0) (report-readable (find (codes "execution_report") root) nothing_executed h)
    ∙ nothing_plus (sums (cases_of root))
execution_of-readable (malformed e) h = refl
execution_of-readable (failed e) h = refl

all_readable-append :
    (es ds : List Element) → all_readable (es ++ ds) ≡ all_readable es && all_readable ds
all_readable-append [] ds = refl
all_readable-append (e ∷ es) ds = ground (arith, all_readable-append es ds)

sums-append : (es ds : List Element) → sums (es ++ ds) ≡ plus (sums es) (sums ds)
sums-append [] ds = sym (nothing_plus (sums ds))
sums-append (e ∷ es) ds =
    sums_cons e (es ++ ds)
    ∙ (ap (plus (sums (e ∷ []))) (sums-append es ds)
        ∙ (sym (plus_assoc (sums (e ∷ [])) (sums es) (sums ds))
            ∙ ap (λ x. plus x (sums ds)) (sym (sums_cons e es))))

executions-readable :
    {F : Type 0} (num : Float F) (parse : Text → Parsed) (fs : List Text)
    → all_readable (cases_in_files parse fs) ≡ true
    → executions num parse fs ≡ sums (cases_in_files parse fs)
executions-readable num parse [] h = refl
executions-readable num parse (f ∷ fs) h =
    let split = all_readable-append (cases_in_file (parse f)) (cases_in_files parse fs) in
    ap (λ x. plus x (executions num parse fs))
      (execution_of-readable (parse f) (ground (arith, h, split)))
    ∙ (ap (plus (sums (cases_in_file (parse f))))
          (executions-readable num parse fs (ground (arith, h, split)))
        ∙ sym (sums-append (cases_in_file (parse f)) (cases_in_files parse fs)))

-- Where all numbers of the test cases are integers, the totals grow by the sums over all test cases of
-- all files that are parsed, whatever else the files hold and also where others are malformed.
pub parse_files-sums :
    {F : Type 0} (num : Float F) (parse : Text → Parsed) (fs : List Text) (m : Metrics F)
    → all_readable (cases_in_files parse fs) ≡ true
    → (parse_files num parse fs m).execution ≡ plus m.execution (sums (cases_in_files parse fs))
parse_files-sums num parse fs m h =
    (parse_files_adds num parse fs m).0 ∙ ap (plus m.execution) (executions-readable num parse fs h)

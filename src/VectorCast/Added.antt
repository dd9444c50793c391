-- ===== src/VectorCast/Added.antt =====
-- What a file adds to the totals, which does not depend on the totals before it.
use automotive_testing_frame.VectorCast.{
  Float, Element, get, find, find_all, Fault, Parsed, tree, malformed, failed, Execution, Coverage,
  Metrics, init,
}
use automotive_testing_frame.VectorCast.Attempts.{add_value, if_found}
use automotive_testing_frame.VectorCast.Steps.{
  Shifts, IsSteady, then-Shifts, then-IsSteady, for_each-Shifts, for_each-IsSteady,
  add_value-Shifts, add_value-IsSteady, if_found-Shifts, if_found-IsSteady,
}
use automotive_testing_frame.VectorCast.Parser.{
  float_of, int_of, add_passed, add_failed, add_total, add_test_cases, add_suite, add_execution,
  add_coverage, add_statement, add_branch, add_mcdc, add_module, add_coverages, add_root,
}
use automotive_testing_frame.Prelude.{
  ◌≡◌, refl, sym, ap, ◌∙◌, inl, inr, none, some, arith, Option-cases,
}
use automotive_testing_frame.Prelude.Int.{ℤ, pos, ◌+ℤ◌, int_laws}
use automotive_testing_frame.Prelude.Texts.{codes}

abbrev pub plus : Execution → Execution → Execution
plus c d = record {
  passed = c.passed +ℤ d.passed;
  failed = c.failed +ℤ d.failed;
  total = c.total +ℤ d.total;
}

abbrev pub nothing_executed : Execution
nothing_executed = record { passed = pos 0; failed = pos 0; total = pos 0 }

+ℤ_assoc : (a b c : ℤ) → a +ℤ b +ℤ c ≡ a +ℤ (b +ℤ c)
+ℤ_assoc a b c = omega int_laws

+ℤ_comm : (a b : ℤ) → a +ℤ b ≡ b +ℤ a
+ℤ_comm a b = omega int_laws

+ℤ_zero : (a : ℤ) → a +ℤ pos 0 ≡ a
+ℤ_zero a = omega int_laws

pub execution_eq :
    (c d : Execution) → c.passed ≡ d.passed → c.failed ≡ d.failed → c.total ≡ d.total → c ≡ d
execution_eq c d p f t = ground (arith, p, f, t)

pub plus_assoc : (a b c : Execution) → plus (plus a b) c ≡ plus a (plus b c)
plus_assoc a b c =
    execution_eq _ _ (+ℤ_assoc a.passed b.passed c.passed) (+ℤ_assoc a.failed b.failed c.failed)
      (+ℤ_assoc a.total b.total c.total)

pub plus_comm : (a b : Execution) → plus a b ≡ plus b a
plus_comm a b =
    execution_eq _ _ (+ℤ_comm a.passed b.passed) (+ℤ_comm a.failed b.failed)
      (+ℤ_comm a.total b.total)

pub plus_nothing : (a : Execution) → plus a nothing_executed ≡ a
plus_nothing a = execution_eq _ _ (+ℤ_zero a.passed) (+ℤ_zero a.failed) (+ℤ_zero a.total)

add_test_cases-Shifts : (e : Element) → Shifts plus (add_test_cases e)
unfolding add_test_cases add_passed add_failed add_total
add_test_cases-Shifts e =
    then-Shifts plus (add_value (int_of (get (codes "passed") e)) add_passed) _
      (add_value-Shifts plus (int_of (get (codes "passed") e)) add_passed
        (λ n c d. execution_eq _ _ (+ℤ_assoc c.passed d.passed n) refl refl))
      (then-Shifts plus (add_value (int_of (get (codes "failed") e)) add_failed) _
        (add_value-Shifts plus (int_of (get (codes "failed") e)) add_failed
          (λ n c d. execution_eq _ _ refl (+ℤ_assoc c.failed d.failed n) refl))
        (add_value-Shifts plus (int_of (get (codes "total") e)) add_total
          (λ n c d. execution_eq _ _ refl refl (+ℤ_assoc c.total d.total n))))

add_execution-Shifts : (root : Element) → Shifts plus (add_execution root)
unfolding add_execution add_suite
add_execution-Shifts root = if_found-Shifts plus (find (codes "execution_report") root) _ (λ node.
    for_each-Shifts plus _
      (λ suite.
        if_found-Shifts plus (find (codes "test_cases") suite) add_test_cases add_test_cases-Shifts)
      (find_all (codes "test_suite") node))

-- What a file adds to the totals of the execution, and to the errors.
abbrev pub execution_of : Parsed → Execution
execution_of (tree root) = (add_execution root nothing_executed).0
execution_of (malformed e) = nothing_executed
execution_of (failed e) = nothing_executed

add_execution-plus :
    (root : Element) (c : Execution)
    → add_execution root c
      ≡ (plus c (execution_of (tree root)), (add_execution root nothing_executed).1)
add_execution-plus root c =
    ap (add_execution root) (sym (plus_nothing c)) ∙ add_execution-Shifts root c nothing_executed

module _ {F : Type 0} (num : Float F) where
  add_coverage-IsSteady :
      (achieved total : F → Coverage F → Coverage F) (e : Element)
      → IsSteady (add_coverage num achieved total e)
  add_coverage-IsSteady achieved total e =
      then-IsSteady (add_value (float_of num (get (codes "achieved") e)) achieved) _
        (add_value-IsSteady (float_of num (get (codes "achieved") e)) achieved)
        (add_value-IsSteady (float_of num (get (codes "total") e)) total)

  add_module-IsSteady : (m : Element) → IsSteady (add_module num m)
  unfolding add_module add_statement add_branch add_mcdc
  add_module-IsSteady m =
      then-IsSteady (if_found (find (codes "statement_coverage") m) (add_statement num)) _
        (if_found-IsSteady (find (codes "statement_coverage") m) (add_statement num)
          (add_coverage-IsSteady _ _))
        (then-IsSteady (if_found (find (codes "branch_coverage") m) (add_branch num)) _
          (if_found-IsSteady (find (codes "branch_coverage") m) (add_branch num)
            (add_coverage-IsSteady _ _))
          (if_found-IsSteady (find (codes "mcdc_coverage") m) (add_mcdc num)
            (add_coverage-IsSteady _ _)))

  add_coverages-IsSteady : (root : Element) → IsSteady (add_coverages num root)
  unfolding add_coverages
  add_coverages-IsSteady root = if_found-IsSteady (find (codes "coverage_report") root) _ (λ node.
      for_each-IsSteady (add_module num) add_module-IsSteady (find_all (codes "module") node))

  add_root-none :
      (root : Element) (m : Metrics F)
      → (add_execution root m.execution).1 ≡ none
      → add_root num root m ≡ (
        record m {
          execution = (add_execution root m.execution).0;
          coverage = (add_coverages num root m.coverage).0;
        },
        (add_coverages num root m.coverage).1,
      )
  unfolding add_root
  add_root-none root m e = rw (add_root, e) refl

  add_root-some :
      (root : Element) (m : Metrics F) (f : Fault)
      → (add_execution root m.execution).1 ≡ some f
      → add_root num root m ≡ (record m { execution = (add_execution root m.execution).0 }, some f)
  unfolding add_root
  add_root-some root m f e = rw (add_root, e) refl

  -- The body of the `try`, as what it adds.
  pub record RootAdds (root : Element) (m : Metrics F) : Type 0 where
    pub added_execution :
        (add_root num root m).0.execution ≡ plus m.execution (execution_of (tree root))
    pub same_errors : (add_root num root m).0.errors ≡ m.errors
    pub same_fault : (add_root num root m).1 ≡ (add_root num root (init num)).1

  pub add_root-adds : (root : Element) (m : Metrics F) → RootAdds root m
  unfolding init
  add_root-adds root m =
      let shifted = add_execution-plus root m.execution in
      elim (Option-cases (add_execution root nothing_executed).1) [
        | inl e ↦
            let here = add_root-none root m (ap (λ p. p.1) shifted ∙ e) in
            let there = add_root-none root (init num) e in
            record {
              added_execution = ap (λ p. p.0.execution) here ∙ ap (λ p. p.0) shifted;
              same_errors = ap (λ p. p.0.errors) here;
              same_fault =
                  ap (λ p. p.1) here
                  ∙ (add_coverages-IsSteady root m.coverage (init num).coverage
                      ∙ sym (ap (λ p. p.1) there));
            }
        | inr (f, e) ↦
            let here = add_root-some root m f (ap (λ p. p.1) shifted ∙ e) in
            let there = add_root-some root (init num) f e in
            record {
              added_execution = ap (λ p. p.0.execution) here ∙ ap (λ p. p.0) shifted;
              same_errors = ap (λ p. p.0.errors) here;
              same_fault = ap (λ p. p.1) here ∙ sym (ap (λ p. p.1) there);
            }
      ]

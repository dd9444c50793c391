-- ===== src/VectorCast/Drift.antt =====
-- The comparison of a report with a baseline.
use automotive_testing_frame.VectorCast.{Float, DeltaFault, load_error, delta_error, Metrics}
use automotive_testing_frame.VectorCast.Report.{
  drift, Baseline, Loaded, not_found, broken, loaded, Deltas, Report, deltas_of, keep_deltas,
  compute_deltas, summary, generate_json_report,
}
use automotive_testing_frame.Prelude.{
  ℕ, ◌≡◌, refl, ap, ◌∙◌, ◌⊎◌, inl, inr, true, Option, none, some, [], ◌∷◌, ◌++◌, Result, ok, err,
}
use automotive_testing_frame.Prelude.Int.{ℤ, ◌+ℤ◌, ◌-ℤ◌, int_laws}
use automotive_testing_frame.Prelude.Texts.{Text}

-- The entries of a report as a baseline, as `json.dump` writes them for the next run.
abbrev pub saved : {F : Type 0} → Report F → Baseline F
saved r = record {
  execution = true;
  passed = some r.passed;
  failed = some r.failed;
  pass_rate_percentage = some r.pass_rate_percentage;
  coverage = true;
  statement_coverage_percentage = some r.statement_coverage_percentage;
  branch_coverage_percentage = some r.branch_coverage_percentage;
  mcdc_coverage_percentage = some r.mcdc_coverage_percentage;
}

sub_add : (a b : ℤ) → b +ℤ (a -ℤ b) ≡ a
sub_add a b = omega int_laws

module _ {F : Type 0} (num : Float F) where
  -- What the comparison with a report that an earlier run saved promises.
  pub record IsDrift (now before : Report F) (d : Deltas F) : Type 0 where
    pub passed_drift : before.passed +ℤ d.passed_delta ≡ now.passed
    pub failed_drift : before.failed +ℤ d.failed_delta ≡ now.failed
    pub rate_drift :
        d.pass_rate_delta ≡ drift num now.pass_rate_percentage before.pass_rate_percentage
    pub statement_drift :
        d.statement_delta
        ≡ drift num now.statement_coverage_percentage before.statement_coverage_percentage
    pub branch_drift :
        d.branch_delta ≡ drift num now.branch_coverage_percentage before.branch_coverage_percentage
    pub mcdc_drift :
        d.mcdc_delta ≡ drift num now.mcdc_coverage_percentage before.mcdc_coverage_percentage

  deltas-saved :
      (now before : Report F)
      → (d : Deltas F) × (deltas_of num now (saved before) ≡ ok d) × IsDrift now before d
  unfolding deltas_of
  deltas-saved now before = (
    _,
    refl,
    record {
      passed_drift = sub_add now.passed before.passed;
      failed_drift = sub_add now.failed before.failed;
      rate_drift = refl;
      statement_drift = refl;
      branch_drift = refl;
      mcdc_drift = refl;
    },
  )

  -- Against the saved report of an earlier run, the report is compared without an error, and the
  -- deltas are what that run's numbers lack to the current ones.
  generate_json_report-saved :
      (load : Text → Loaded F) (c : ℕ) (path : Text) (before : Report F) (m : Metrics F)
      → load (c ∷ path) ≡ loaded (saved before)
      → let (report, after) = generate_json_report num load (some (c ∷ path)) m in
        (d : Deltas F) × (report.deltas ≡ some (some d))
        × IsDrift report before d
        × (report.errors ≡ m.errors)
        × (after ≡ m)
  unfolding generate_json_report compute_deltas summary
  generate_json_report-saved load c path before m e =
      let (d, found, drifts) = deltas-saved (summary num m) before in
      let step : compute_deltas num (summary num m) (load (c ∷ path)) m ≡ (some d, m) =
        ap (λ l. compute_deltas num (summary num m) l m) e ∙ ap (keep_deltas num m) found in
      (
        d,
        ap (λ p. some p.0) step,
        record {
          passed_drift = drifts.passed_drift;
          failed_drift = drifts.failed_drift;
          rate_drift = drifts.rate_drift;
          statement_drift = drifts.statement_drift;
          branch_drift = drifts.branch_drift;
          mcdc_drift = drifts.mcdc_drift;
        },
        ap (λ p. p.1.errors) step,
        ap (λ p. p.1) step,
      )

  keep_deltas_cases :
      (m : Metrics F) (r : Result DeltaFault (Deltas F))
      → let (d, after) = keep_deltas num m r in
        (after.execution ≡ m.execution)
        × (after.coverage ≡ m.coverage)
        × ((after.errors ≡ m.errors)
            ⊎ ((f : DeltaFault) × (after.errors ≡ m.errors ++ delta_error f ∷ []) × (d ≡ none)))
  keep_deltas_cases m (ok d) = (refl, refl, inl refl)
  keep_deltas_cases m (err f) = (refl, refl, inr (f, refl, refl))

  compute_deltas_cases :
      (r : Report F) (l : Loaded F) (m : Metrics F)
      → let (d, after) = compute_deltas num r l m in
        (after.execution ≡ m.execution)
        × (after.coverage ≡ m.coverage)
        × ((after.errors ≡ m.errors)
            ⊎ ((f : DeltaFault) × (after.errors ≡ m.errors ++ delta_error f ∷ []) × (d ≡ none)))
  unfolding compute_deltas
  compute_deltas_cases r not_found m = (refl, refl, inl refl)
  compute_deltas_cases r (broken x) m = (refl, refl, inr (load_error x, refl, refl))
  compute_deltas_cases r (loaded b) m = keep_deltas_cases m (deltas_of num r b)

  -- Whatever the baseline is, the report holds every error of the metrics after it, the metrics keep
  -- their totals, and the comparison adds at most one error, which leaves the deltas out.
  generate_json_report-errors :
      (load : Text → Loaded F) (baseline_path : Option Text) (m : Metrics F)
      → let (report, after) = generate_json_report num load baseline_path m in
        (report.errors ≡ after.errors)
        × (after.execution ≡ m.execution)
        × (after.coverage ≡ m.coverage)
        × ((after.errors ≡ m.errors)
            ⊎ ((f : DeltaFault) × (after.errors ≡ m.errors ++ delta_error f ∷ [])
                × (report.deltas ≡ some none)))
  unfolding generate_json_report summary
  generate_json_report-errors load none m = (refl, refl, refl, inl refl)
  generate_json_report-errors load (some []) m = (refl, refl, refl, inl refl)
  generate_json_report-errors load (some (c ∷ path)) m =
      let (executed, covered, faulted) = compute_deltas_cases (summary num m) (load (c ∷ path)) m in
      (
        refl,
        executed,
        covered,
        elim faulted [
          | inl same ↦ inl same
          | inr (f, added, left_out) ↦ inr (f, added, ap some left_out)
        ],
      )

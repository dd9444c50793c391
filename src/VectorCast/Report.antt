-- ===== src/VectorCast/Report.antt =====
-- `compute_deltas` and `generate_json_report`.
use automotive_testing_frame.Prelude.{or_raise}
use automotive_testing_frame.VectorCast.{
  Float, DeltaFault, key_error, load_error, Entry, delta_error, Execution, Metrics,
}
use automotive_testing_frame.VectorCast.Parser.{add_errors}
use automotive_testing_frame.Prelude.{
  Bool, Option, none, some, List, [], ◌∷◌, if◌then◌else◌, Result, ok, err, ◌>>=◌,
}
use automotive_testing_frame.Prelude.Int.{ℤ, pos, ltb_ℤ, ◌-ℤ◌}
use automotive_testing_frame.Prelude.Texts.{Text, codes}

-- What `json.load` gives for the baseline: the entries that the comparison reads, where they stand.
pub record Baseline (F : Type 0) : Type 0 where
  pub execution : Bool
  pub passed : Option ℤ
  pub failed : Option ℤ
  pub pass_rate_percentage : Option F
  pub coverage : Bool
  pub statement_coverage_percentage : Option F
  pub branch_coverage_percentage : Option F
  pub mcdc_coverage_percentage : Option F

-- What reading a path gives: no file, another exception, or the baseline.
pub data Loaded (F : Type 0) : Type 0 where
  not_found : Loaded F
  broken : Text → Loaded F
  loaded : Baseline F → Loaded F

pub record Deltas (F : Type 0) : Type 0 where
  pub passed_delta : ℤ
  pub failed_delta : ℤ
  pub pass_rate_delta : F
  pub statement_delta : F
  pub branch_delta : F
  pub mcdc_delta : F

-- The report; `deltas` is absent, None, or the deltas.
pub record Report (F : Type 0) : Type 0 where
  pub passed : ℤ
  pub failed : ℤ
  pub total : ℤ
  pub pass_rate_percentage : F
  pub statement_coverage_percentage : F
  pub branch_coverage_percentage : F
  pub mcdc_coverage_percentage : F
  pub errors : List Entry
  pub deltas : Option (Option (Deltas F))

abbrev pub entry : {A : Type 0} → Text → Option A → Result DeltaFault A
entry key o = or_raise (key_error key) o

-- `baseline[name]` of a section, then `[key]`
abbrev pub entry_of : {A : Type 0} → Text → Bool → Text → Option A → Result DeltaFault A
entry_of name section key o = if section then entry key o else err (key_error name)

module _ {F : Type 0} (num : Float F) where
  abbrev pub drift : F → F → F
  drift current baseline = num.round_2 (num.sub current baseline)

  -- The body of the `try`, in the order of its reads.
  unfoldable pub deltas_of : Report F → Baseline F → Result DeltaFault (Deltas F)
  deltas_of r b = do
    passed ← entry_of (codes "execution") b.execution (codes "passed") b.passed
    failed ← entry_of (codes "execution") b.execution (codes "failed") b.failed
    rate ←
        entry_of (codes "execution") b.execution (codes "pass_rate_percentage")
          b.pass_rate_percentage
    statement ←
        entry_of (codes "coverage") b.coverage (codes "statement_coverage_percentage")
          b.statement_coverage_percentage
    branch ←
        entry_of (codes "coverage") b.coverage (codes "branch_coverage_percentage")
          b.branch_coverage_percentage
    mcdc ←
        entry_of (codes "coverage") b.coverage (codes "mcdc_coverage_percentage")
          b.mcdc_coverage_percentage
    ok (record {
      passed_delta = r.passed -ℤ passed;
      failed_delta = r.failed -ℤ failed;
      pass_rate_delta = drift r.pass_rate_percentage rate;
      statement_delta = drift r.statement_coverage_percentage statement;
      branch_delta = drift r.branch_coverage_percentage branch;
      mcdc_delta = drift r.mcdc_coverage_percentage mcdc;
    })

  abbrev pub keep_deltas : Metrics F → Result DeltaFault (Deltas F) → Option (Deltas F) × Metrics F
  keep_deltas m (ok d) = (some d, m)
  keep_deltas m (err f) = (none, add_errors num (delta_error f ∷ []) m)

  unfoldable pub compute_deltas : Report F → Loaded F → Metrics F → Option (Deltas F) × Metrics F
  compute_deltas r not_found m = (none, m)
  compute_deltas r (broken e) m = (none, add_errors num (delta_error (load_error e) ∷ []) m)
  compute_deltas r (loaded b) m = keep_deltas m (deltas_of r b)

  -- A sum of coverages in per cent, 0.0 without a total.
  unfoldable pub percentage : F → F → F
  percentage achieved total =
      if num.is_positive total
      then num.round_2 (num.times_100 (num.div achieved total))
      else num.zero_f

  unfoldable pub pass_rate : Execution → F
  pass_rate x =
      if ltb_ℤ (pos 0) x.total
      then num.round_2 (num.times_100 (num.ratio x.passed x.total))
      else num.zero_f

  -- The report before the comparison.
  unfoldable pub summary : Metrics F → Report F
  summary m = record {
    passed = m.execution.passed;
    failed = m.execution.failed;
    total = m.execution.total;
    pass_rate_percentage = pass_rate m.execution;
    statement_coverage_percentage =
        percentage m.coverage.statement_achieved_sum m.coverage.statement_total_sum;
    branch_coverage_percentage =
        percentage m.coverage.branch_achieved_sum m.coverage.branch_total_sum;
    mcdc_coverage_percentage = percentage m.coverage.mcdc_achieved_sum m.coverage.mcdc_total_sum;
    errors = m.errors;
    deltas = none;
  }

  -- The report and the metrics, whose list of errors is the report's own: an error of the comparison
  -- stands in both. A path that is empty counts as none.
  unfoldable pub generate_json_report :
      (Text → Loaded F) → Option Text → Metrics F → Report F × Metrics F
  generate_json_report load none m = (summary m, m)
  generate_json_report load (some []) m = (summary m, m)
  generate_json_report load (some (c ∷ path)) m =
      let (compared, after) = compute_deltas (summary m) (load (c ∷ path)) m in
      (record (summary m) { errors = after.errors; deltas = some compared }, after)

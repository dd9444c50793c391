-- ===== src/VectorCast/Html.antt =====
-- `generate_html_report`: the page, without writing it.
use automotive_testing_frame.VectorCast.{
  Float, Fault, bad_int, bad_float, other, DeltaFault, key_error, load_error, Entry, malformed_xml,
  unexpected, delta_error,
}
use automotive_testing_frame.VectorCast.Report.{Deltas, Report}
use automotive_testing_frame.Prelude.{suc, Option, none, some, List, [], ◌∷◌, ◌++◌, if◌then◌else◌}
use automotive_testing_frame.Prelude.Int.{ℤ, pos, negsuc}
use automotive_testing_frame.Prelude.Texts.{Text, codes, join, show_ℕ, show_ℤ}

-- The page up to the first number.
abbrev pub page_head : List Text
page_head =
    []
    ∷ codes "        <!DOCTYPE html>"
    ∷ codes "        <html>"
    ∷ codes "        <head>"
    ∷ codes "            <title>VectorCAST CI/CD Dashboard</title>"
    ∷ codes "            <style>"
    ∷ codes
        "                body { font-family: -apple-system, BlinkMacSystemFont, \"Segoe UI\", Roboto, sans-serif; margin: 40px; background-color: #f4f4f9; color: #333; }"
    ∷ codes "                h1 { color: #2c3e50; }"
    ∷ codes "                .container { display: flex; gap: 20px; }"
    ∷ codes
        "                .card { background: white; padding: 20px; border-radius: 8px; box-shadow: 0 4px 6px rgba(0,0,0,0.1); flex: 1; }"
    ∷ codes "                .metric { font-size: 24px; font-weight: bold; margin-top: 10px; }"
    ∷ codes "                .delta.pos { color: #27ae60; font-size: 14px; margin-left: 10px; }"
    ∷ codes "                .delta.neg { color: #c0392b; font-size: 14px; margin-left: 10px; }"
    ∷ codes
        "                .error { color: #c0392b; padding: 10px; border-left: 4px solid #c0392b; background: #fdf5f5; margin-top: 20px; }"
    ∷ codes "            </style>"
    ∷ codes "        </head>"
    ∷ codes "        <body>"
    ∷ codes "            <h1>VectorCAST Coverage & Execution Dashboard</h1>"
    ∷ codes "            "
    ∷ codes "            <div class=\"container\">"
    ∷ codes "                <div class=\"card\">"
    ∷ []

-- `{n:+}` of an integer
abbrev pub show_signed_ℤ : ℤ → Text
show_signed_ℤ (pos n) = b'+' ∷ show_ℕ n
show_signed_ℤ (negsuc n) = b'-' ∷ show_ℕ (suc n)

-- Python's `repr` of a string, which the messages of the exceptions hold.
module _ (repr : Text → Text) where
  unfoldable pub fault_message : Fault → Text
  fault_message (bad_int s) = codes "invalid literal for int() with base 10: " ++ repr s
  fault_message (bad_float s) = codes "could not convert string to float: " ++ repr s
  fault_message (other e) = e

  unfoldable pub delta_message : DeltaFault → Text
  delta_message (key_error key) = repr key
  delta_message (load_error e) = e

  -- The entry of the list of errors, as the parser writes it.
  unfoldable pub message : Entry → Text
  message (malformed_xml name e) = codes "Malformed XML in " ++ name ++ codes ": " ++ e
  message (unexpected name f) =
      codes "Unexpected error in " ++ name ++ codes ": " ++ fault_message f
  message (delta_error f) = codes "Delta computation error: " ++ delta_message f

  unfoldable pub error_div : Entry → Text
  error_div e = codes "<div class=\"error\">" ++ message e ++ codes "</div>"

  unfoldable pub error_divs : List Entry → Text
  error_divs [] = []
  error_divs (e ∷ es) = error_div e ++ error_divs es

  unfoldable pub faults_part : List Entry → Text
  faults_part [] = []
  faults_part (e ∷ es) =
      codes "<h2 style=\"margin-top: 40px;\">Parser Faults</h2>" ++ error_divs (e ∷ es)

  module _ {F : Type 0} (num : Float F) where
    unfoldable pub cards : Report F → List Text
    cards r =
        codes "                    <h3>Execution Overview</h3>"
        ∷ (codes "                    <div class=\"metric\">Passed: "
            ++ show_ℤ r.passed
            ++ codes "</div>")
        ∷ (codes "                    <div class=\"metric\">Failed: "
            ++ show_ℤ r.failed
            ++ codes "</div>")
        ∷ (codes "                    <div class=\"metric\">Pass Rate: "
            ++ num.show r.pass_rate_percentage
            ++ codes "%</div>")
        ∷ codes "                </div>"
        ∷ codes "                "
        ∷ codes "                <div class=\"card\">"
        ∷ codes "                    <h3>Structural Coverage</h3>"
        ∷ (codes "                    <div class=\"metric\">Statement: "
            ++ num.show r.statement_coverage_percentage
            ++ codes "%</div>")
        ∷ (codes "                    <div class=\"metric\">Branch: "
            ++ num.show r.branch_coverage_percentage
            ++ codes "%</div>")
        ∷ (codes "                    <div class=\"metric\">MC/DC: "
            ++ num.show r.mcdc_coverage_percentage
            ++ codes "%</div>")
        ∷ codes "                </div>"
        ∷ codes "            </div>"
        ∷ codes "        "
        ∷ []

    unfoldable pub delta_class : F → Text
    delta_class delta = if num.is_nonnegative delta then codes "pos" else codes "neg"

    unfoldable pub drift_lines : Deltas F → List Text
    drift_lines d =
        []
        ∷ codes
            "            <h2 style=\"margin-top: 40px;\">Historical Pipeline Drift (vs Baseline)</h2>"
        ∷ codes "            <div class=\"container\">"
        ∷ codes "                <div class=\"card\">"
        ∷ codes "                    <h3>Execution Deltas</h3>"
        ∷ (codes "                    <p>New Passed Tests: <span class=\"delta "
            ++ delta_class d.statement_delta
            ++ codes "\">"
            ++ show_signed_ℤ d.passed_delta
            ++ codes "</span></p>")
        ∷ (codes "                    <p>New Failing Tests: <span class=\"delta "
            ++ delta_class d.branch_delta
            ++ codes "\">"
            ++ show_signed_ℤ d.failed_delta
            ++ codes "</span></p>")
        ∷ codes "                </div>"
        ∷ codes "                <div class=\"card\">"
        ∷ codes "                    <h3>Coverage Deltas</h3>"
        ∷ (codes "                    <p>Statement Range: <span class=\"delta "
            ++ delta_class d.statement_delta
            ++ codes "\">"
            ++ num.show_signed d.statement_delta
            ++ codes "%</span></p>")
        ∷ (codes "                    <p>Branch Math: <span class=\"delta "
            ++ delta_class d.branch_delta
            ++ codes "\">"
            ++ num.show_signed d.branch_delta
            ++ codes "%</span></p>")
        ∷ codes "                </div>"
        ∷ codes "            </div>"
        ∷ codes "            "
        ∷ []

    -- The drift of a report that has deltas; None and an absent entry give nothing.
    unfoldable pub drift_part : Option (Option (Deltas F)) → Text
    drift_part none = []
    drift_part (some none) = []
    drift_part (some (some d)) = join (b'\n' ∷ []) (drift_lines d)

    abbrev pub page_end : List Text
    page_end = [] ∷ codes "        </body>" ∷ codes "        </html>" ∷ codes "        " ∷ []

    unfoldable pub generate_html_report : Report F → Text
    generate_html_report r =
        join (b'\n' ∷ []) (page_head ++ cards r)
        ++ (drift_part r.deltas ++ (faults_part r.errors ++ join (b'\n' ∷ []) page_end))

-- ===== src/VectorCast/Shown.antt =====
-- What the page shows of the errors.
use mathlib.Core.List.{append_assoc}
use automotive_testing_frame.VectorCast.{Float, Entry}
use automotive_testing_frame.VectorCast.Report.{Report}
use automotive_testing_frame.VectorCast.Html.{
  error_div, error_divs, faults_part, drift_part, generate_html_report,
}
use automotive_testing_frame.Prelude.{◌≡◌, refl, true, List, [], ◌∷◌, ◌++◌, arith}
use automotive_testing_frame.Prelude.Texts.{Text, codes, is_in, starts_with}

starts_with-append : (p s : Text) → starts_with p (p ++ s) ≡ true
unfolding starts_with
starts_with-append [] s = refl
starts_with-append (c ∷ p) s = ground (arith, starts_with-append p s)

is_in-front : (p s : Text) → is_in p (p ++ s) ≡ true
unfolding is_in starts_with
is_in-front [] [] = refl
is_in-front [] (c ∷ s) = refl
is_in-front (c ∷ p) s = ground (arith, starts_with-append p s)

is_in-back : (p s t : Text) → is_in p s ≡ true → is_in p (t ++ s) ≡ true
unfolding is_in
is_in-back p s [] h = h
is_in-back p s (c ∷ t) h = ground (arith, is_in-back p s t h)

module _ (repr : Text → Text) where
  error_divs-shown :
      (before after : List Entry) (e : Entry) (rest : Text)
      → is_in (error_div repr e) (error_divs repr (before ++ e ∷ after) ++ rest) ≡ true
  unfolding error_divs
  error_divs-shown [] after e rest =
      rw (append_assoc (error_div repr e) (error_divs repr after) rest)
        (is_in-front (error_div repr e) (error_divs repr after ++ rest))
  error_divs-shown (x ∷ before) after e rest =
      rw (append_assoc (error_div repr x) (error_divs repr (before ++ e ∷ after)) rest)
        (is_in-back (error_div repr e) _ (error_div repr x) (error_divs-shown before after e rest))

  faults_part-shown :
      (before after : List Entry) (e : Entry) (rest : Text)
      → is_in (error_div repr e) (faults_part repr (before ++ e ∷ after) ++ rest) ≡ true
  unfolding faults_part
  faults_part-shown [] after e rest =
      is_in-back (error_div repr e) _ (codes "<h2 style=\"margin-top: 40px;\">Parser Faults</h2>")
        (error_divs-shown [] after e rest)
  faults_part-shown (x ∷ before) after e rest =
      is_in-back (error_div repr e) _ (codes "<h2 style=\"margin-top: 40px;\">Parser Faults</h2>")
        (error_divs-shown (x ∷ before) after e rest)

  -- Each error of the report stands on the page, in a division of its own.
  generate_html_report-shown :
      {F : Type 0} (num : Float F) (r : Report F) (before after : List Entry) (e : Entry)
      → r.errors ≡ before ++ e ∷ after
      → is_in (error_div repr e) (generate_html_report repr num r) ≡ true
  unfolding generate_html_report
  generate_html_report-shown num r before after e h =
      rw (generate_html_report, h)
        (is_in-back (error_div repr e) _ _ (
          is_in-back (error_div repr e) _ (drift_part repr num r.deltas)
            (faults_part-shown before after e _)))

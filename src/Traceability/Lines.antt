-- ===== src/Traceability/Lines.antt =====
-- The file of the matrix, read back by its lines.
-- No line break stands in a text.
use automotive_testing_frame.Traceability.{
  Results, Requirements, Row, RowStatus, row_passed, row_failed, row_uncovered, matrix,
}
use automotive_testing_frame.Traceability.Markdown.{
  show_name, title_of, quoted_names, status_text, row_line, row_lines, header, write_lines,
  markdown, generate_markdown_matrix,
}
use automotive_testing_frame.Prelude.{
  ◌≡◌, refl, ap, ◌∙◌, Bool, true, false, not, ◌&&◌, Option, List, [], ◌∷◌, ◌++◌, arith, ◌==◌,
}
use automotive_testing_frame.Prelude.Texts.{Text, codes, split_on, join}

abbrev pub in_one_line : Text → Bool
in_one_line [] = true
in_one_line (c ∷ s) = not (c == b'\n') && in_one_line s

split_on-line :
    (s rest : Text)
    → in_one_line s ≡ true
    → split_on b'\n' (s ++ b'\n' ∷ rest) ≡ s ∷ split_on b'\n' rest
unfolding split_on
split_on-line [] rest h = refl
split_on-line (c ∷ s) rest h =
    let other : (c == b'\n') ≡ false = ground (arith, h) in
    rw (split_on, other) (rw (split_on-line s rest (ground (arith, h))) refl)

abbrev all_one_line : List Text → Bool
all_one_line [] = true
all_one_line (l ∷ ls) = in_one_line l && all_one_line ls

split_on-write_lines :
    (ls : List Text) → all_one_line ls ≡ true → split_on b'\n' (write_lines ls) ≡ ls ++ [] ∷ []
unfolding write_lines split_on
split_on-write_lines [] h = refl
split_on-write_lines (l ∷ ls) h =
    split_on-line l (write_lines ls) (ground (arith, h))
    ∙ ap (◌∷◌ l) (split_on-write_lines ls (ground (arith, h)))

in_one_line-append : (s t : Text) → in_one_line (s ++ t) ≡ in_one_line s && in_one_line t
in_one_line-append [] t = refl
in_one_line-append (c ∷ s) t = ground (arith, in_one_line-append s t)

-- The texts that a line is made of.
abbrev all_named_one_line : List (Option Text) → Bool
all_named_one_line [] = true
all_named_one_line (n ∷ ns) = in_one_line (show_name n) && all_named_one_line ns

abbrev row_in_one_line : Row → Bool
row_in_one_line r =
    in_one_line r.req_id && in_one_line (title_of r.title) && all_named_one_line r.tests

abbrev pub rows_in_one_line : List Row → Bool
rows_in_one_line [] = true
rows_in_one_line (r ∷ rs) = row_in_one_line r && rows_in_one_line rs

one_line_both :
    (s t : Text) → in_one_line s ≡ true → in_one_line t ≡ true → in_one_line (s ++ t) ≡ true
one_line_both s t hs ht = rw (in_one_line-append, hs) ht

join_one_line :
    (ns : List (Option Text))
    → all_named_one_line ns ≡ true
    → in_one_line (join (codes "<br>") (quoted_names ns)) ≡ true
unfolding join
join_one_line [] h = refl
join_one_line (n ∷ []) h = one_line_both (show_name n) (b'`' ∷ []) (ground (arith, h)) refl
join_one_line (n ∷ m ∷ ns) h =
    one_line_both (show_name n ++ b'`' ∷ [] ++ codes "<br>") _
      (one_line_both (show_name n ++ b'`' ∷ []) (codes "<br>")
        (one_line_both (show_name n) (b'`' ∷ []) (ground (arith, h)) refl) refl)
      (join_one_line (m ∷ ns) (ground (arith, h)))

status_text-one :
    (status : RowStatus) (ns : List (Option Text))
    → all_named_one_line ns ≡ true
    → in_one_line (status_text status ns) ≡ true
unfolding status_text
status_text-one row_passed ns h =
    one_line_both (join (codes "<br>") (quoted_names ns)) (codes " | ✅ PASSED |")
      (join_one_line ns h) refl
status_text-one row_failed ns h =
    one_line_both (join (codes "<br>") (quoted_names ns)) (codes " | ❌ FAILED |")
      (join_one_line ns h) refl
status_text-one row_uncovered ns h = refl

row_line-one : (r : Row) → row_in_one_line r ≡ true → in_one_line (row_line r) ≡ true
unfolding row_line
row_line-one r h =
    let bar : Text = codes " | " in
    one_line_both (r.req_id ++ bar ++ title_of r.title ++ bar) (status_text r.row_status r.tests)
      (one_line_both (r.req_id ++ bar ++ title_of r.title) bar
        (one_line_both (r.req_id ++ bar) (title_of r.title)
          (one_line_both r.req_id bar (ground (arith, h)) refl) (ground (arith, h)))
        refl)
      (status_text-one r.row_status r.tests (ground (arith, h)))

row_lines-one : (rs : List Row) → rows_in_one_line rs ≡ true → all_one_line (row_lines rs) ≡ true
row_lines-one [] h = refl
row_lines-one (r ∷ rs) h =
    ground (arith, row_line-one r (ground (arith, h)), row_lines-one rs (ground (arith, h)))

-- Where no line break stands in the ids, titles and names of tests, the file reads back as its lines:
-- the four of the header, and one for each requirement, in their order.
split_on-generate_markdown_matrix :
    (reqs : Requirements) (results : Results)
    → rows_in_one_line (matrix reqs results) ≡ true
    → split_on b'\n' (generate_markdown_matrix reqs results).0
      ≡ header ++ row_lines (matrix reqs results) ++ [] ∷ []
unfolding generate_markdown_matrix markdown
split_on-generate_markdown_matrix reqs results h =
    split_on-write_lines (header ++ row_lines (matrix reqs results))
      (row_lines-one (matrix reqs results) h)

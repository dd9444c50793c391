-- ===== src/Traceability/Markdown.antt =====
-- `generate_markdown_matrix`: the text of the matrix, and the two lists that it returns.
use automotive_testing_frame.Traceability.{
  Results, Requirements, Row, RowStatus, row_passed, row_failed, row_uncovered, matrix,
  uncovered_reqs, orphaned_tests,
}
use automotive_testing_frame.Prelude.{
  Option, none, some, List, [], ◌∷◌, ◌++◌, Result, ok, err, ◌>>=◌,
}
use automotive_testing_frame.Prelude.Texts.{Text, codes, join}

-- A name in an f-string: None is written out.
abbrev pub show_name : Option Text → Text
show_name none = codes "None"
show_name (some name) = name

abbrev pub title_of : Option Text → Text
title_of none = codes "Unknown"
title_of (some title) = title

abbrev pub quoted_names : List (Option Text) → List Text
quoted_names [] = []
quoted_names (n ∷ ns) = (b'`' ∷ show_name n ++ b'`' ∷ []) ∷ quoted_names ns

unfoldable pub status_text : RowStatus → List (Option Text) → Text
status_text row_passed tests = join (codes "<br>") (quoted_names tests) ++ codes " | ✅ PASSED |"
status_text row_failed tests = join (codes "<br>") (quoted_names tests) ++ codes " | ❌ FAILED |"
status_text row_uncovered tests = codes "**MISSING** | ⚠" ++ 0xFE0F ∷ codes " UNCOVERED |"

-- One line, without its end.
unfoldable pub row_line : Row → Text
row_line r =
    codes "| "
    ++ r.req_id
    ++ codes " | "
    ++ title_of r.title
    ++ codes " | "
    ++ status_text r.row_status r.tests

abbrev pub row_lines : List Row → List Text
row_lines [] = []
row_lines (r ∷ rs) = row_line r ∷ row_lines rs

abbrev pub header : List Text
header =
    codes "# ASPICE Traceability Matrix"
    ∷ []
    ∷ codes "| Requirement ID | Title | Executed Test Cases | Aggregated Status |"
    ∷ codes "|---|---|---|---|"
    ∷ []

-- `f.write` of one line after the other.
unfoldable pub write_lines : List Text → Text
write_lines [] = []
write_lines (l ∷ ls) = l ++ b'\n' ∷ write_lines ls

unfoldable pub markdown : Requirements → Results → Text
markdown reqs results = write_lines (header ++ row_lines (matrix reqs results))

-- The TypeError of `join` on a test without a name.
pub data JoinError : Type 0 where
  name_expected : JoinError

unfoldable pub named : List (Option Text) → Result JoinError (List Text)
named [] = ok []
named (none ∷ ns) = err name_expected
named (some n ∷ ns) = do rest ← named ns; ok (n ∷ rest)

unfoldable pub orphan_lines : List (Text × List (Option Text)) → Result JoinError (List Text)
orphan_lines [] = ok []
orphan_lines ((req_id, tests) ∷ orphans) = do
  names ← named tests
  rest ← orphan_lines orphans
  ok (
      (codes "Req: " ++ req_id ++ codes " -> Tests: [" ++ join (codes ", ") names ++ codes "]")
      ∷ rest)

-- The file, and what is returned after it is written.
unfoldable pub generate_markdown_matrix :
    Requirements → Results → Text × Result JoinError (List Text × List Text)
generate_markdown_matrix reqs results = (
  markdown reqs results,
  do
    orphaned ← orphan_lines (orphaned_tests reqs results)
    ok (uncovered_reqs reqs results, orphaned),
)

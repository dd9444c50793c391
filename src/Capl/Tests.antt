-- ===== src/Capl/Tests.antt =====
-- Small CAPL programs, and the properties of the converter at them.
use automotive_testing_frame.Capl.Forms.{
  set_timer, output, write, hexadecimal, decimal, Statement, capl, set_byte,
}
use automotive_testing_frame.Capl.Names.Extracted.{namespace_line-extract_blocks}
use automotive_testing_frame.Capl.Names.Sequence.{names_of, attributes}
use automotive_testing_frame.Prelude.Bytes.{bytes_eq}
use automotive_testing_frame.Capl.Starts.{AllSupported, started, start_lines-statements}
use automotive_testing_frame.Capl.Generate.{start_lines, thousandths}
use automotive_testing_frame.Prelude.{arith, List, map, ok}
use automotive_testing_frame.Regex.{lazy, greedy, step_char, run, search_from, sub_from, find_from}
use automotive_testing_frame.Capl.Comments.{scan, code, strip_comments-scan}
use automotive_testing_frame.Capl.Refusal.{
  refusal, first_unsupported, translated_lines, refusal-generate_python,
}
use automotive_testing_frame.Prelude.{◌≡◌, refl, some, [], ◌∷◌}
use automotive_testing_frame.Prelude.Texts.{
  digits_of, rstrip, lstrip, Text, codes, split_on, is_in, starts_with,
}
use automotive_testing_frame.Capl.Blocks.{
  put, read_number, message_id, extract_timers, extract_start, extract_variables, init,
  extract_blocks, strip_comments, statements_of,
}
use automotive_testing_frame.Capl.Translate.{unsupported}
use automotive_testing_frame.Capl.Generate.{namespace_line, generate_python}

abbrev program : Text
program =
    codes
      "/* c */ variables { message 0x100 m; msTimer t1; } on start { setTimer(t1, 20); } on timer t1 { m.byte(0) = 0xAA; output(m); } on message 0x200 { write(\"rx\"); }"

abbrev waiting : Text
waiting =
    codes
      "variables { message 0x100 m; } on start { } on message 0x200 { testWaitForMessage(m, 10); }"

extracted : extract_blocks (init program) ≡ record (init program) {
  variables = (codes "m", codes "0x100") ∷ [];
  timers = codes "t1" ∷ [];
  on_start = codes "setTimer(t1, 20)" ∷ [];
  on_timer = (codes "t1", codes "m.byte(0) = 0xAA" ∷ codes "output(m)" ∷ []) ∷ [];
  on_message = (512, codes "write(\"rx\")" ∷ []) ∷ [];
}
unfolding extract_blocks init extract_variables extract_start extract_timers message_id read_number
    statements_of strip_comments put find_from sub_from search_from run step_char greedy lazy lstrip
    rstrip split_on is_in starts_with
extracted = refl

strip_comments-scan_example : strip_comments program ≡ scan code program
strip_comments-scan_example = strip_comments-scan program

abbrev assignment : Statement
assignment = set_byte (codes "m") (codes "0") (hexadecimal (codes "AA"))

abbrev statements : List Statement
statements =
    set_timer (codes "t1") (codes "20")
    ∷ assignment
    ∷ output (codes "m")
    ∷ write (codes "Engine started, 1 = on")
    ∷ set_byte (codes "m") (codes "1") (decimal (codes "17"))
    ∷ []

supported : AllSupported statements
unfolding is_in starts_with
supported = (
  ((((λ e. cc), refl), ((λ e. cc), refl), omega arith), refl),
  (
    ((((λ e. cc), refl), ((λ e. cc), refl), ((λ e. cc), refl)), refl),
    (
      (((λ e. cc), refl), refl),
      (
        ((((λ e. cc), refl), refl), refl),
        (((((λ e. cc), refl), ((λ e. cc), refl), ((λ e. cc), refl)), refl), tt),
      ),
    ),
  ),
)

start_lines-statements_example : start_lines (map capl statements) ≡ ok (started statements)
start_lines-statements_example = start_lines-statements statements supported

thread_of_t1 :
    started statements
    ≡ codes "        # t1 period = 20ms"
      ∷ codes "        t = threading.Thread(target=self._t1_loop, args=(0.02,))"
      ∷ codes "        self.threads.append(t)"
      ∷ codes "        t.start()"
      ∷ codes "        m.data[0] = 0xAA"
      ∷ codes "        self.bus.send(m)"
      ∷ codes "        print(\"Engine started, 1 = on\")"
      ∷ codes "        m.data[1] = 17"
      ∷ []
unfolding thousandths digits_of read_number
thread_of_t1 = refl

refusal-generate_python_example :
    refusal (generate_python (init waiting)).0
    ≡ first_unsupported (translated_lines (extract_blocks (init waiting)))
refusal-generate_python_example = refusal-generate_python (init waiting)

refused :
    first_unsupported (translated_lines (extract_blocks (init waiting)))
    ≡ some (unsupported (codes "testWaitForMessage(self.m, 10)"))
unfolding extract_blocks init extract_variables extract_start extract_timers message_id read_number
    statements_of strip_comments put find_from sub_from search_from run step_char greedy lazy lstrip
    rstrip split_on is_in starts_with namespace_line
refused = refl

abbrev two_messages : Text
two_messages = codes "variables { message 0x100 m; message 0x200 m2; }"

namespace_line-extract_blocks_example :
    let vs = (extract_blocks (init two_messages)).variables in
    namespace_line vs (codes "m.byte(0) = m2x + m2")
    ≡ attributes (names_of [] vs) [] (codes "m.byte(0) = m2x + m2")
unfolding extract_blocks init extract_variables extract_start extract_timers message_id read_number
    statements_of strip_comments put find_from sub_from search_from run step_char greedy lazy lstrip
    rstrip split_on is_in starts_with bytes_eq
namespace_line-extract_blocks_example =
    namespace_line-extract_blocks two_messages (codes "m.byte(0) = m2x + m2") (refl, (refl, tt))

scanned :
    attributes (codes "m" ∷ codes "m2" ∷ []) [] (codes "m.byte(0) = m2x + m2")
    ≡ codes "self.m.byte(0) = m2x + self.m2"
unfolding attributes bytes_eq
scanned = refl

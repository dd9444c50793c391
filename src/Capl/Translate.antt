-- ===== src/Capl/Translate.antt =====
-- `translate_syntax`: one CAPL statement as a line of Python.
use automotive_testing_frame.Prelude.{List, ◌++◌, if◌then◌else◌, Result, ok, err}
use automotive_testing_frame.Prelude.Texts.{Text, codes, is_in}
use automotive_testing_frame.Regex.{sub}
use automotive_testing_frame.Capl.Patterns.{
  write_call, set_timer_call, byte_assignment, output_call,
}
use automotive_testing_frame.Capl.Blocks.{group_of}

-- The ValueError, with the line that it names.
pub data CaplError : Type 0 where
  unsupported : Text → CaplError

abbrev pub to_print : List Text → Text
to_print groups = codes "print(\"" ++ group_of 1 groups ++ codes "\")"

abbrev pub to_period : List Text → Text
to_period groups =
    codes "# " ++ group_of 1 groups ++ codes " period = " ++ group_of 2 groups ++ codes "ms"

abbrev pub to_data : List Text → Text
to_data groups =
    group_of 1 groups ++ codes ".data[" ++ group_of 2 groups ++ codes "] = " ++ group_of 3 groups

abbrev pub to_send : List Text → Text
to_send groups = codes "self.bus.send(" ++ group_of 1 groups ++ codes ")"

-- The four substitutions, in their order.
unfoldable pub rewrite_calls : Text → Text
rewrite_calls line =
    sub output_call to_send
      (sub byte_assignment to_data (sub set_timer_call to_period (sub write_call to_print line)))

abbrev pub unsupported_keyword : Text
unsupported_keyword = codes "testWaitForMessage"

unfoldable pub translate_syntax : Text → Result CaplError Text
translate_syntax line =
    if is_in unsupported_keyword line then err (unsupported line) else ok (rewrite_calls line)

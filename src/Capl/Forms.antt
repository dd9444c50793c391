-- ===== src/Capl/Forms.antt =====
-- The CAPL statements that translate_syntax knows, each beside its line of Python.
use automotive_testing_frame.Prelude.{ℕ, not, ◌==◌, ◌≤◌, ◌≡◌, ◌≢◌, Bool, true, [], ◌++◌, length}
use automotive_testing_frame.Prelude.Texts.{Text, codes}
use automotive_testing_frame.Regex.{is_word, is_digit, is_hex}
use automotive_testing_frame.Regex.Absent.{lacks}
use automotive_testing_frame.Regex.Words.{all_in}
use automotive_testing_frame.Capl.Patterns.{is_dotted}

-- `0xvalue` or `value`
pub data Value : Type 0 where
  hexadecimal decimal : Text → Value

-- `write("text")`, `setTimer(timer, milliseconds)`, `message.byte(index) = value`, `output(message)`
pub data Statement : Type 0 where
  write : Text → Statement
  set_timer : Text → Text → Statement
  set_byte : Text → Text → Value → Statement
  output : Text → Statement

abbrev pub digits : Value → Text
digits (hexadecimal v) = codes "0x" ++ v
digits (decimal v) = v

abbrev pub capl : Statement → Text
capl (write text) = codes "write(\"" ++ (text ++ codes "\")")
capl (set_timer timer ms) = codes "setTimer(" ++ (timer ++ (codes ", " ++ (ms ++ codes ")")))
capl (set_byte message index value) =
    message ++ (codes ".byte(" ++ (index ++ (codes ") = " ++ digits value)))
capl (output message) = codes "output(" ++ (message ++ codes ")")

abbrev pub python : Statement → Text
python (write text) = codes "print(\"" ++ (text ++ codes "\")")
python (set_timer timer ms) = codes "# " ++ timer ++ codes " period = " ++ ms ++ codes "ms"
python (set_byte message index value) =
    message ++ codes ".data[" ++ index ++ codes "] = " ++ digits value
python (output message) = codes "self.bus.send(" ++ message ++ codes ")"

abbrev pub IsRun : (ℕ → Bool) → Text → Type 0
IsRun class w = (w ≢ []) × (all_in class w ≡ true)

abbrev pub is_unquoted : ℕ → Bool
is_unquoted c = not (c == b'"')

abbrev pub IsValue : Value → Type 0
IsValue (hexadecimal v) = IsRun is_hex v
IsValue (decimal v) = IsRun is_digit v

-- Names and numbers as the patterns take them; a text without an opening bracket, which could begin a
-- call in it; and a time of at most fifteen digits.
abbrev pub IsStatement : Statement → Type 0
IsStatement (write text) = IsRun is_unquoted text × (lacks b'(' text ≡ true)
IsStatement (set_timer timer ms) = IsRun is_word timer × IsRun is_digit ms × (length ms ≤ 15)
IsStatement (set_byte message index value) =
    IsRun is_word message × IsRun is_digit index × IsValue value
IsStatement (output message) = IsRun is_dotted message

-- ===== src/Capl/Patterns.antt =====
-- The regular expressions of capl_parser.py.
use automotive_testing_frame.Prelude.{ℕ, Bool, true, not, ◌||◌, [], ◌∷◌, ◌==◌, if◌then◌else◌}
use automotive_testing_frame.Prelude.Texts.{Text, codes, is_space}
use automotive_testing_frame.Regex.{
  Regex, nothing, char, one, many, few, seq, alt, group, boundary, is_digit, is_hex, is_word,
}

-- The characters of a text, one after the other.
abbrev pub literal : Text → Regex
literal [] = nothing
literal (c ∷ s) = seq (char c) (literal s)

infixr 6 ◌then◌
abbrev pub ◌then◌ : Regex → Regex → Regex
a then b = seq a b

-- `c+` for a class
abbrev pub some_of : (ℕ → Bool) → Regex
some_of class = seq (one class) (many class)

abbrev pub spaces : Regex
spaces = many is_space

-- `(0x[0-9A-Fa-f]+|\d+)` without the group
abbrev pub number : Regex
number = alt (literal (codes "0x") then some_of is_hex) (some_of is_digit)

-- `\{([^}]*)\}`
abbrev pub body : Regex
body = char b'{' then group (many (λ c. not (c == b'}'))) then char b'}'

-- `/\*.*?\*/` with DOTALL
abbrev pub comment : Regex
comment = literal (codes "/*") then few (λ c. true) then literal (codes "*/")

abbrev pub variables_block : Regex
variables_block = literal (codes "variables") then spaces then body

abbrev pub message_decl : Regex
message_decl =
    literal (codes "message")
    then some_of is_space
    then group number
    then some_of is_space
    then group (some_of is_word)
    then char b';'

abbrev pub timer_decl : Regex
timer_decl =
    literal (codes "msTimer") then some_of is_space then group (some_of is_word) then char b';'

abbrev pub start_block : Regex
start_block = literal (codes "on start") then spaces then body

-- The name of a timer is a text of word characters, which stand for themselves in a pattern.
abbrev pub timer_block : Text → Regex
timer_block timer =
    literal (codes "on timer") then some_of is_space then literal timer then spaces then body

abbrev pub message_block : Regex
message_block =
    literal (codes "on message") then some_of is_space then group number then spaces then body

-- `write\("([^"]+)"\)`
abbrev pub write_call : Regex
write_call =
    literal (codes "write(\"")
    then group (some_of (λ c. not (c == b'"')))
    then literal (codes "\")")

abbrev pub set_timer_call : Regex
set_timer_call =
    literal (codes "setTimer(")
    then group (some_of is_word)
    then char b','
    then spaces
    then group (some_of is_digit)
    then char b')'

abbrev pub byte_assignment : Regex
byte_assignment =
    group (some_of is_word)
    then literal (codes ".byte(")
    then group (some_of is_digit)
    then char b')'
    then spaces
    then char b'='
    then spaces
    then group number

-- `[a-zA-Z0-9_.]`
abbrev pub is_dotted : ℕ → Bool
is_dotted c = is_word c || c == b'.'

abbrev pub output_call : Regex
output_call = literal (codes "output(") then group (some_of is_dotted) then char b')'

-- `\bname\b`
abbrev pub whole_word : Text → Regex
whole_word name = boundary then literal name then boundary

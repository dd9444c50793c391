-- ===== src/Capl/Generate.antt =====
-- `generate_python`: the lines of the script, after extract_blocks.
use automotive_testing_frame.Prelude.{
  ℕ, ◌+◌, ◌/◌, ◌%◌, none, some, List, [], ◌∷◌, ◌++◌, ◌==◌, if◌then◌else◌, Result, ok, ◌>>=◌,
}
use automotive_testing_frame.Prelude.Texts.{Text, codes, join, show_ℕ}
use automotive_testing_frame.Regex.{search, sub}
use automotive_testing_frame.Capl.Patterns.{set_timer_call, whole_word}
use automotive_testing_frame.Capl.Blocks.{CaplParser, Keyed, group_of, extract_blocks, read_number}
use automotive_testing_frame.Capl.Translate.{CaplError, translate_syntax}

abbrev pub Lines : Type 0
Lines = Result CaplError (List Text)

-- `lines.append(...)` of several lines before the rest
abbrev pub after : List Text → Lines → Lines
after ls rest = do more ← rest; ok (ls ++ more)

abbrev pub preamble : List Text
preamble =
    codes "import time"
    ∷ codes "import threading"
    ∷ codes "import can"
    ∷ []
    ∷ codes "class CAPLNode(can.Listener):"
    ∷ codes "    def __init__(self, channel='vcan0'):"
    ∷ codes "        self.bus = can.interface.Bus(channel=channel, interface='virtual')"
    ∷ codes "        self.running = False"
    ∷ codes "        self.threads = []"
    ∷ []
    ∷ []

unfoldable pub message_init : Text × Text → List Text
message_init (msg_name, msg_id) =
    codes "        # Message Initialization from CAPL variable"
    ∷ (codes "        self."
        ++ msg_name
        ++ codes " = can.Message(arbitration_id="
        ++ msg_id
        ++ codes ", data=[0]*8, is_extended_id=False)")
    ∷ []

unfoldable pub message_inits : Keyed Text Text → List Text
message_inits [] = []
message_inits (v ∷ vs) = message_init v ++ message_inits vs

-- `n/1000` as Python prints it, for up to fifteen digits: at least one decimal and no zeros after it.
abbrev pub decimals : ℕ → Text
decimals m =
    if m % 10 == 0
    then if m / 10 % 10 == 0
      then (b'0' + m / 100) ∷ []
      else (b'0' + m / 100) ∷ (b'0' + m / 10 % 10) ∷ []
    else (b'0' + m / 100) ∷ (b'0' + m / 10 % 10) ∷ (b'0' + m % 10) ∷ []

-- `n / 1000` as Python prints it, for an `n` of at most fifteen digits, which a float holds exactly
-- enough to be printed so; a larger one is printed rounded, and this is not modelled.
unfoldable pub thousandths : ℕ → Text
thousandths n = show_ℕ (n / 1000) ++ b'.' ∷ decimals (n % 1000)

-- The thread that a setTimer statement of the start block spawns.
unfoldable pub spawn_timer : Text → List Text
spawn_timer line = elim (search set_timer_call line) [
  | none ↦ []
  | some groups ↦
      (codes "        t = threading.Thread(target=self._"
        ++ group_of 1 groups
        ++ codes "_loop, args=("
        ++ thousandths (read_number 10 0 (group_of 2 groups))
        ++ codes ",))")
      ∷ codes "        self.threads.append(t)"
      ∷ codes "        t.start()"
      ∷ []
]

unfoldable pub start_lines : List Text → Lines
start_lines [] = ok []
start_lines (line ∷ lines) = do
  translated ← translate_syntax line
  after ((codes "        " ++ translated) ∷ spawn_timer line) (start_lines lines)

-- Each message variable becomes an attribute of the node.
unfoldable pub namespace_line : Keyed Text Text → Text → Text
namespace_line [] line = line
namespace_line ((msg_name, msg_id) ∷ vs) line =
    namespace_line vs (sub (whole_word msg_name) (λ groups. codes "self." ++ msg_name) line)

unfoldable pub block_lines : Keyed Text Text → List Text → Lines
block_lines vs [] = ok []
block_lines vs (line ∷ lines) = do
  translated ← translate_syntax (namespace_line vs line)
  after ((codes "            " ++ translated) ∷ []) (block_lines vs lines)

unfoldable pub timer_methods : Keyed Text Text → Keyed Text (List Text) → Lines
timer_methods vs [] = ok []
timer_methods vs ((timer_name, block) ∷ ts) = do
  body ← block_lines vs block
  after
      ((codes "    def _" ++ timer_name ++ codes "_loop(self, period_sec):")
          ∷ codes "        while self.running:"
          ∷ codes "            time.sleep(period_sec)"
          ∷ body
        ++ [] ∷ [])
      (timer_methods vs ts)

unfoldable pub message_tests : Keyed Text Text → Keyed ℕ (List Text) → Lines
message_tests vs [] = ok []
message_tests vs ((msg_id, block) ∷ ms) = do
  body ← block_lines vs block
  after ((codes "        if msg.arbitration_id == " ++ show_ℕ msg_id ++ codes ":") ∷ body)
      (message_tests vs ms)

unfoldable pub message_handler : Keyed Text Text → Keyed ℕ (List Text) → Lines
message_handler vs [] = ok (codes "        pass" ∷ [])
message_handler vs (m ∷ ms) = message_tests vs (m ∷ ms)

abbrev pub postamble : List Text
postamble =
    []
    ∷ codes "    def stop(self):"
    ∷ codes "        if not self.running: return"
    ∷ codes "        self.running = False"
    ∷ codes "        if hasattr(self, 'notifier'): self.notifier.stop()"
    ∷ codes "        for t in self.threads:"
    ∷ codes "            t.join()"
    ∷ codes "        self.bus.shutdown()"
    ∷ []
    ∷ codes "if __name__ == '__main__':"
    ∷ codes "    node = CAPLNode()"
    ∷ codes "    node.start()"
    ∷ codes "    try:"
    ∷ codes "        while True: time.sleep(1)"
    ∷ codes "    except KeyboardInterrupt:"
    ∷ codes "        node.stop()"
    ∷ []

-- The lines for a program whose blocks are extracted.
unfoldable pub script_lines : CaplParser → Lines
script_lines p = do
  started ← start_lines p.on_start
  loops ← timer_methods p.variables p.on_timer
  handlers ← message_handler p.variables p.on_message
  ok (
      preamble
      ++ message_inits p.variables
      ++ ([]
          ∷ codes "    def start(self):"
          ∷ codes "        self.running = True"
          ∷ codes "        self.notifier = can.Notifier(self.bus, [self])"
          ∷ [])
      ++ started
      ++ [] ∷ loops
      ++ codes "    def on_message_received(self, msg):" ∷ handlers
      ++ postamble)

-- The script, and the parser after the call.
unfoldable pub generate_python : CaplParser → Result CaplError Text × CaplParser
generate_python p =
    let extracted = extract_blocks p in
    ((do lines ← script_lines extracted; ok (join (b'\n' ∷ []) lines)), extracted)

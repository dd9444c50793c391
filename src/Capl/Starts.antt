-- ===== src/Capl/Starts.antt =====
-- The start block of a program that consists of the statements that translate_syntax rewrites.
use automotive_testing_frame.Capl.Forms.{
  write, digits, Statement, set_timer, set_byte, output, capl, python, IsStatement,
}
use automotive_testing_frame.Regex.{
  run, step_char, greedy, Regex, Place, match_at, search_from, search, is_word, is_digit,
}
use automotive_testing_frame.Regex.Absent.{search-absent, search-beyond}
use automotive_testing_frame.Capl.Patterns.{set_timer_call, is_dotted}
use automotive_testing_frame.Capl.Blocks.{read_number}
use automotive_testing_frame.Capl.Translate.{unsupported_keyword, translate_syntax}
use automotive_testing_frame.Capl.Generate.{thousandths, spawn_timer, start_lines}
use automotive_testing_frame.Capl.Matches.{lacks-class, match-set_timer}
use automotive_testing_frame.Capl.Statements.{lacks-digits, lacks-both, rewrite_calls-statement}
use automotive_testing_frame.Prelude.{
  ℕ, ◌≡◌, refl, ap, false, none, some, List, [], ◌∷◌, ◌++◌, map, ok,
}
use automotive_testing_frame.Prelude.Texts.{Text, codes, is_in}

-- The thread of a timer, whose period is in seconds.
abbrev pub thread_lines : Text → Text → List Text
thread_lines timer ms =
    (codes "        t = threading.Thread(target=self._"
      ++ timer
      ++ codes "_loop, args=("
      ++ thousandths (read_number 10 0 ms)
      ++ codes ",))")
    ∷ codes "        self.threads.append(t)"
    ∷ codes "        t.start()"
    ∷ []

abbrev pub threads_of : Statement → List Text
threads_of (write text) = []
threads_of (set_timer timer ms) = thread_lines timer ms
threads_of (set_byte message index value) = []
threads_of (output message) = []

-- The lines of the script for the statements: each one translated, and after a timer its thread.
abbrev pub started : List Statement → List Text
started [] = []
started (st ∷ sts) = ((codes "        " ++ python st) ∷ threads_of st) ++ started sts

abbrev pub IsSupported : Statement → Type 0
IsSupported st = IsStatement st × (is_in unsupported_keyword (capl st) ≡ false)

abbrev pub AllSupported : List Statement → Type 0
AllSupported [] = Unit
AllSupported (st ∷ sts) = IsSupported st × AllSupported sts

search-whole :
    (r : Regex) (c : ℕ) (s : Text) (p : Place)
    → match_at r none (c ∷ s) ≡ some p
    → search r (c ∷ s) ≡ some p.groups
unfolding search_from
search-whole r c s p matched = rw (search_from, matched) refl

spawn_timer-none : (line : Text) → search set_timer_call line ≡ none → spawn_timer line ≡ []
unfolding spawn_timer
spawn_timer-none line e = rw (spawn_timer, e) refl

spawn_timer-some :
    (line timer ms : Text)
    → search set_timer_call line ≡ some (timer ∷ ms ∷ [])
    → spawn_timer line ≡ thread_lines timer ms
unfolding spawn_timer
spawn_timer-some line timer ms e = rw (spawn_timer, e) refl

spawn_timer-statement : (st : Statement) → IsStatement st → spawn_timer (capl st) ≡ threads_of st
unfolding run step_char greedy
spawn_timer-statement (write text) (_, uncalled) = spawn_timer-none (capl (write text)) (
    search-beyond b'(' set_timer_call (codes "write(") (b'"' ∷ (text ++ codes "\")"))
      (refl, (refl, (refl, (refl, (refl, (refl, tt)))))) refl
      (lacks-both b'(' text (codes "\")") uncalled refl))
spawn_timer-statement (set_timer [] m) ((e, _), _, _) = absurd (e refl)
spawn_timer-statement (set_timer (c ∷ w) []) (_, (e, _), _) = absurd (e refl)
spawn_timer-statement (set_timer (c ∷ w) (d ∷ v)) ((_, hw), (_, hv), _) =
    spawn_timer-some (capl (set_timer (c ∷ w) (d ∷ v))) (c ∷ w) (d ∷ v)
      (search-whole set_timer_call b's' _ _ (match-set_timer c d w v hw hv))
spawn_timer-statement (set_byte message index value) ((_, hw), (_, hv), hu) =
    spawn_timer-none (capl (set_byte message index value)) (
      search-absent b',' set_timer_call (capl (set_byte message index value)) refl (
        lacks-both b',' message _ (lacks-class is_word b',' message refl hw) (
          lacks-both b',' (codes ".byte(") (index ++ (codes ") = " ++ digits value)) refl (
            lacks-both b',' index (codes ") = " ++ digits value)
              (lacks-class is_digit b',' index refl hv)
              (lacks-both b',' (codes ") = ") (digits value) refl
                (lacks-digits b',' value refl refl refl hu))))))
spawn_timer-statement (output message) (_, hw) = spawn_timer-none (capl (output message)) (
    search-absent b',' set_timer_call (capl (output message)) refl
      (lacks-both b',' message _ (lacks-class is_dotted b',' message refl hw) refl))

translate_syntax-statement :
    (st : Statement) → IsSupported st → translate_syntax (capl st) ≡ ok (python st)
unfolding translate_syntax
translate_syntax-statement st (known, supported) =
    rw (translate_syntax, supported) (ap ok (rewrite_calls-statement st known))

-- A start block of the statements write("text"), setTimer(timer, milliseconds), message.byte(index) =
-- value, with the value in hexadecimal or decimal, and output(message), spaced as written here, is
-- translated line by line in its order, and each timer that it sets gets a thread with its own loop
-- and its period in seconds. The names and numbers are as the patterns of translate_syntax take them,
-- a time has at most fifteen digits, a text that is written is not empty and holds no quote and no
-- opening bracket, and no statement holds the unsupported testWaitForMessage.
pub start_lines-statements :
    (sts : List Statement) → AllSupported sts → start_lines (map capl sts) ≡ ok (started sts)
unfolding start_lines
start_lines-statements [] h = refl
start_lines-statements (st ∷ sts) (here, later) =
    rw
      (
        start_lines,
        translate_syntax-statement st here,
        spawn_timer-statement st here.0,
        start_lines-statements sts later,
      )
      refl

-- ===== src/Capl/Statements.antt =====
use automotive_testing_frame.Capl.Forms.{
  Value, hexadecimal, decimal, write, digits, IsValue, is_unquoted, Statement, set_timer, set_byte,
  output, capl, python, IsStatement,
}
use automotive_testing_frame.Regex.{run, step_char, greedy, is_word, is_digit, is_hex}
use automotive_testing_frame.Regex.Absent.{sub-beyond, lacks, lacks-append, sub-absent}
use automotive_testing_frame.Regex.Words.{all_in, stops}
use automotive_testing_frame.Capl.Patterns.{
  write_call, set_timer_call, byte_assignment, output_call, is_dotted,
}
use automotive_testing_frame.Capl.Translate.{to_print, to_period, to_data, to_send, rewrite_calls}
use automotive_testing_frame.Capl.Matches.{
  match-write, lacks-class, sub-whole, match-set_timer, match-output, match-set_byte,
}
use automotive_testing_frame.Prelude.{arith, ℕ, ◌≡◌, refl, true, false, [], ◌∷◌, ◌++◌}
use automotive_testing_frame.Prelude.Texts.{Text, codes, is_space}
use Prim.Native.Nat.{ℕ}

-- What translate_syntax makes of the CAPL statements that it knows.
pub lacks-both :
    (c : ℕ) (s t : Text) → lacks c s ≡ true → lacks c t ≡ true → lacks c (s ++ t) ≡ true
lacks-both c s t hs ht = rw (lacks-append, hs) ht

lacks-five :
    (q : ℕ) (a b c d e : Text)
    → lacks q a ≡ true
    → lacks q b ≡ true
    → lacks q c ≡ true
    → lacks q d ≡ true
    → lacks q e ≡ true
    → lacks q (a ++ b ++ c ++ d ++ e) ≡ true
lacks-five q a b c d e ha hb hc hd he =
    lacks-both q (a ++ b ++ c ++ d) e
      (lacks-both q (a ++ b ++ c) d (lacks-both q (a ++ b) c (lacks-both q a b ha hb) hc) hd) he

rewrite_calls-set_timer :
    (c d : ℕ) (w v : Text)
    → all_in is_word (c ∷ w) ≡ true
    → all_in is_digit (d ∷ v) ≡ true
    → rewrite_calls (capl (set_timer (c ∷ w) (d ∷ v))) ≡ python (set_timer (c ∷ w) (d ∷ v))
unfolding rewrite_calls
rewrite_calls-set_timer c d w v hw hv =
    let timer : Text = c ∷ w in
    let ms : Text = d ∷ v in
    let in_timer : (q : ℕ) → is_word q ≡ false → lacks q timer ≡ true =
      λ q h. lacks-class is_word q timer h hw in
    let in_ms : (q : ℕ) → is_digit q ≡ false → lacks q ms ≡ true =
      λ q h. lacks-class is_digit q ms h hv in
    let unwritten : lacks b'"' (capl (set_timer timer ms)) ≡ true =
      lacks-both b'"' timer _ (in_timer b'"' refl) (lacks-both b'"' ms _ (in_ms b'"' refl) refl) in
    let undotted : lacks b'.' (python (set_timer timer ms)) ≡ true =
      lacks-five b'.' (codes "# ") timer (codes " period = ") ms (codes "ms") refl
        (in_timer b'.' refl) refl (in_ms b'.' refl) refl in
    let uncalled : lacks b'(' (python (set_timer timer ms)) ≡ true =
      lacks-five b'(' (codes "# ") timer (codes " period = ") ms (codes "ms") refl
        (in_timer b'(' refl) refl (in_ms b'(' refl) refl in
    rw
      (
        rewrite_calls,
        sub-absent b'"' write_call to_print (capl (set_timer timer ms)) refl unwritten,
        sub-whole set_timer_call to_period b's' _ _ (match-set_timer c d w v hw hv) refl,
        sub-absent b'.' byte_assignment to_data (python (set_timer timer ms)) refl undotted,
        sub-absent b'(' output_call to_send (python (set_timer timer ms)) refl uncalled,
      )
      refl

rewrite_calls-output :
    (c : ℕ) (w : Text)
    → all_in is_dotted (c ∷ w) ≡ true
    → rewrite_calls (capl (output (c ∷ w))) ≡ python (output (c ∷ w))
unfolding rewrite_calls
rewrite_calls-output c w hw =
    let message : Text = c ∷ w in
    rw
      (
        rewrite_calls,
        sub-absent b'"' write_call to_print (capl (output message)) refl
            (lacks-both b'"' message _ (lacks-class is_dotted b'"' message refl hw) refl),
        sub-absent b',' set_timer_call to_period (capl (output message)) refl
            (lacks-both b',' message _ (lacks-class is_dotted b',' message refl hw) refl),
        sub-absent b'=' byte_assignment to_data (capl (output message)) refl
            (lacks-both b'=' message _ (lacks-class is_dotted b'=' message refl hw) refl),
        sub-whole output_call to_send b'o' _ _ (match-output c w hw) refl,
      )
      refl

-- A character that no number has.
pub lacks-digits :
    (q : ℕ) (value : Value)
    → is_digit q ≡ false
    → is_hex q ≡ false
    → lacks q (codes "0x") ≡ true
    → IsValue value
    → lacks q (digits value) ≡ true
lacks-digits q (hexadecimal v) d h x (e, hv) =
    lacks-both q (codes "0x") v x (lacks-class is_hex q v h hv)
lacks-digits q (decimal v) d h x (e, hv) = lacks-class is_digit q v d hv

digits-stops : (value : Value) → IsValue value → stops is_space (digits value) ≡ true
digits-stops (hexadecimal v) h = refl
digits-stops (decimal []) (e, h) = refl
digits-stops (decimal (c ∷ w)) (e, h) = ground (arith, h)

rewrite_calls-set_byte :
    (c d : ℕ) (w v : Text) (value : Value)
    → all_in is_word (c ∷ w) ≡ true
    → all_in is_digit (d ∷ v) ≡ true
    → IsValue value
    → rewrite_calls (capl (set_byte (c ∷ w) (d ∷ v) value))
      ≡ python (set_byte (c ∷ w) (d ∷ v) value)
unfolding rewrite_calls
rewrite_calls-set_byte c d w v value hw hv hu =
    let message : Text = c ∷ w in
    let index : Text = d ∷ v in
    let unwritten : (q : ℕ)
        → is_word q ≡ false
        → is_digit q ≡ false
        → is_hex q ≡ false
        → lacks q (codes "0x") ≡ true
        → lacks q (codes ".byte(") ≡ true
        → lacks q (codes ") = ") ≡ true
        → lacks q (capl (set_byte message index value)) ≡ true =
      λ q hm hi hx x l r. lacks-both q message _ (lacks-class is_word q message hm hw) (
        lacks-both q (codes ".byte(") (index ++ (codes ") = " ++ digits value)) l (
          lacks-both q index (codes ") = " ++ digits value) (lacks-class is_digit q index hi hv)
            (lacks-both q (codes ") = ") (digits value) r (lacks-digits q value hi hx x hu)))) in
    let uncalled : lacks b'(' (python (set_byte message index value)) ≡ true =
      lacks-five b'(' message (codes ".data[") index (codes "] = ") (digits value)
        (lacks-class is_word b'(' message refl hw) refl (lacks-class is_digit b'(' index refl hv)
        refl (lacks-digits b'(' value refl refl refl hu) in
    rw
      (
        rewrite_calls,
        sub-absent b'"' write_call to_print (capl (set_byte message index value)) refl
            (unwritten b'"' refl refl refl refl refl refl),
        sub-absent b',' set_timer_call to_period (capl (set_byte message index value)) refl
            (unwritten b',' refl refl refl refl refl refl),
        sub-whole byte_assignment to_data c _ _
            (match-set_byte c d w v value hw hv (digits-stops value hu) hu) refl,
        sub-absent b'(' output_call to_send (python (set_byte message index value)) refl uncalled,
      )
      refl

rewrite_calls-write :
    (c : ℕ) (w : Text)
    → all_in is_unquoted (c ∷ w) ≡ true
    → lacks b'(' (c ∷ w) ≡ true
    → rewrite_calls (capl (write (c ∷ w))) ≡ python (write (c ∷ w))
unfolding rewrite_calls run step_char greedy
rewrite_calls-write c w hw uncalled =
    let rest : Text = b'"' ∷ ((c ∷ w) ++ codes "\")") in
    let inside : lacks b'(' rest ≡ true = lacks-both b'(' (c ∷ w) (codes "\")") uncalled refl in
    rw
      (
        rewrite_calls,
        sub-whole write_call to_print b'w' _ _ (match-write c w hw) refl,
        sub-beyond b'(' set_timer_call to_period (codes "print(") rest
            (refl, (refl, (refl, (refl, (refl, (refl, tt)))))) refl inside,
        sub-beyond b'(' byte_assignment to_data (codes "print(") rest
            (refl, (refl, (refl, (refl, (refl, (refl, tt)))))) refl inside,
        sub-beyond b'(' output_call to_send (codes "print(") rest
            (refl, (refl, (refl, (refl, (refl, (refl, tt)))))) refl inside,
      )
      refl

-- Each of the four statements becomes its line of Python.
pub rewrite_calls-statement :
    (st : Statement) → IsStatement st → rewrite_calls (capl st) ≡ python st
rewrite_calls-statement (write []) ((e, _), _) = absurd (e refl)
rewrite_calls-statement (write (c ∷ w)) ((_, hw), h) = rewrite_calls-write c w hw h
rewrite_calls-statement (set_timer [] m) ((e, _), _, _) = absurd (e refl)
rewrite_calls-statement (set_timer (c ∷ w) []) (_, (e, _), _) = absurd (e refl)
rewrite_calls-statement (set_timer (c ∷ w) (d ∷ v)) ((_, hw), (_, hv), _) =
    rewrite_calls-set_timer c d w v hw hv
rewrite_calls-statement (set_byte [] m n) ((e, _), _, _) = absurd (e refl)
rewrite_calls-statement (set_byte (c ∷ w) [] n) (_, (e, _), _) = absurd (e refl)
rewrite_calls-statement (set_byte (c ∷ w) (d ∷ v) value) ((_, hw), (_, hv), hu) =
    rewrite_calls-set_byte c d w v value hw hv hu
rewrite_calls-statement (output []) (e, _) = absurd (e refl)
rewrite_calls-statement (output (c ∷ w)) (_, hw) = rewrite_calls-output c w hw

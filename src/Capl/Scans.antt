-- ===== src/Capl/Scans.antt =====
-- The loops of `re.finditer` and `re.sub` in capl_parser.py.
use automotive_testing_frame.Prelude.{refl, none, []}
use automotive_testing_frame.Prelude.Texts.{Text}
use automotive_testing_frame.Regex.{find_iter, sub}
use automotive_testing_frame.Regex.Progress.{consumes}
use automotive_testing_frame.Regex.Scans.{Finds, Replaces, scans_end}
use automotive_testing_frame.Capl.Patterns.{
  comment, message_decl, timer_decl, message_block, write_call, set_timer_call, byte_assignment,
  output_call,
}
use automotive_testing_frame.Capl.Blocks.{strip_comments}
use automotive_testing_frame.Capl.Translate.{to_print, to_period, to_data, to_send, rewrite_calls}

-- The four substitutions of a statement, one on the result of the other, each to the end.
pub record IsRewritten (line result : Text) : Type 0 where
  pub printed : Text
  pub timed : Text
  pub assigned : Text
  pub print_step : Replaces write_call to_print none line printed
  pub timer_step : Replaces set_timer_call to_period none printed timed
  pub byte_step : Replaces byte_assignment to_data none timed assigned
  pub output_step : Replaces output_call to_send none assigned result

-- On every text, each search that the converter repeats over the text comes to its end: the comments
-- are removed up to the last, and all declarations and all message blocks are found.
extraction_ends :
    (content : Text)
    → Replaces comment (λ groups. []) none content (strip_comments content)
      × Finds message_decl none content (find_iter message_decl content)
      × Finds timer_decl none content (find_iter timer_decl content)
      × Finds message_block none content (find_iter message_block content)
unfolding strip_comments consumes
extraction_ends content = (
  (scans_end comment (λ groups. []) content refl).1,
  (scans_end message_decl (λ groups. []) content refl).0,
  (scans_end timer_decl (λ groups. []) content refl).0,
  (scans_end message_block (λ groups. []) content refl).0,
)

-- On every line, the four substitutions of the translation come to their ends, one after the other.
rewrite_calls-IsRewritten : (line : Text) → IsRewritten line (rewrite_calls line)
unfolding rewrite_calls consumes
rewrite_calls-IsRewritten line = record {
  printed = sub write_call to_print line;
  timed = sub set_timer_call to_period (sub write_call to_print line);
  assigned =
      sub byte_assignment to_data (sub set_timer_call to_period (sub write_call to_print line));
  print_step = (scans_end write_call to_print line refl).1;
  timer_step = (scans_end set_timer_call to_period _ refl).1;
  byte_step = (scans_end byte_assignment to_data _ refl).1;
  output_step = (scans_end output_call to_send _ refl).1;
}

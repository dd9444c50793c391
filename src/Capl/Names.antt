-- ===== src/Capl/Names.antt =====
-- How the names of message variables become attributes, by the words of a line.
pub mod Matching
pub mod Words
pub mod Steps
pub mod Renaming
pub mod Sequence
pub mod Extracted
use automotive_testing_frame.Prelude.{Bool, true, false, [], ◌∷◌, ◌++◌, if◌then◌else◌}
use automotive_testing_frame.Prelude.Bytes.{bytes_eq}
use automotive_testing_frame.Prelude.Texts.{Text, codes}
use automotive_testing_frame.Regex.{is_word}

-- A word, with `self.` before it if it is the name.
abbrev pub attribute : Text → Text → Text
attribute name w = if bytes_eq w name then codes "self." ++ name else w

-- A scanner over the words of a text, where the word `w` is read: every longest run of word characters
-- that is the name becomes an attribute.
unfoldable pub rename : Text → Text → Text → Text
rename name w [] = attribute name w
rename name w (c ∷ s) =
    if is_word c then rename name (w ++ c ∷ []) s else attribute name w ++ c ∷ rename name [] s

-- The word that a text begins with, and what follows it.
abbrev pub run_of : Text → Text
run_of [] = []
run_of (c ∷ s) = if is_word c then c ∷ run_of s else []

abbrev pub rest_of : Text → Text
rest_of [] = []
rest_of (c ∷ s) = if is_word c then rest_of s else c ∷ s

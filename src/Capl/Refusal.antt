-- ===== src/Capl/Refusal.antt =====
-- The ValueError of `generate_python`: which statement of the program it names.
use automotive_testing_frame.Capl.Blocks.{CaplParser, Keyed, extract_blocks}
use automotive_testing_frame.Capl.Translate.{
  CaplError, unsupported, unsupported_keyword, translate_syntax,
}
use automotive_testing_frame.Capl.Generate.{
  spawn_timer, Lines, after, namespace_line, start_lines, block_lines, timer_methods, message_tests,
  message_handler, script_lines, generate_python,
}
use automotive_testing_frame.Prelude.{
  ℕ, ◌≡◌, refl, sym, ap, ◌∙◌, inl, inr, Option, none, some, List, [], ◌∷◌, ◌++◌, map, arith,
  if◌then◌else◌, Result, ok, err, ◌>>=◌, Bool-cases,
}
use automotive_testing_frame.Prelude.Texts.{Text, codes, is_in, join}

-- The lines that are translated, in this order: the start block's as they stand, then those of the
-- timers and of the messages, with the message variables as attributes.
abbrev pub namespaced : Keyed Text Text → List (List Text) → List Text
namespaced vs [] = []
namespaced vs (block ∷ blocks) = map (namespace_line vs) block ++ namespaced vs blocks

abbrev pub blocks_of {ℓ} : {K : Type ℓ} → List (K × List Text) → List (List Text)
blocks_of [] = []
blocks_of ((k, block) ∷ bs) = block ∷ blocks_of bs

abbrev pub translated_lines : CaplParser → List Text
translated_lines p =
    p.on_start
    ++ (namespaced p.variables (blocks_of p.on_timer)
        ++ namespaced p.variables (blocks_of p.on_message))

-- The first line with a construct that the converter refuses.
abbrev pub first_unsupported : List Text → Option CaplError
first_unsupported [] = none
first_unsupported (line ∷ lines) =
    if is_in unsupported_keyword line then some (unsupported line) else first_unsupported lines

abbrev pub refusal : {A : Type 0} → Result CaplError A → Option CaplError
refusal (ok x) = none
refusal (err e) = some e

abbrev earlier : Option CaplError → Option CaplError → Option CaplError
earlier (some e) other = some e
earlier none other = other

first_unsupported-append :
    (a b : List Text)
    → first_unsupported (a ++ b) ≡ earlier (first_unsupported a) (first_unsupported b)
first_unsupported-append [] b = refl
first_unsupported-append (line ∷ a) b = ground (arith, first_unsupported-append a b)

refusal-bind :
    {A : Type 0} {B : Type 0} (r : Result CaplError A) (f : A → Result CaplError B)
    (later : Option CaplError)
    → ((x : A) → refusal (f x) ≡ later)
    → refusal (r >>= f) ≡ earlier (refusal r) later
refusal-bind (ok x) f later h = h x
refusal-bind (err e) f later h = refl

refusal-after : (ls : List Text) (r : Lines) → refusal (after ls r) ≡ refusal r
refusal-after ls (ok more) = refl
refusal-after ls (err e) = refl

refusal-translate_syntax :
    (line : Text) → refusal (translate_syntax line) ≡ first_unsupported (line ∷ [])
unfolding translate_syntax
refusal-translate_syntax line = elim (Bool-cases (is_in unsupported_keyword line)) [
  | inl found ↦ rw found refl
  | inr absent ↦ rw absent refl
]

refusal-line :
    (line : Text) (g : Text → List Text) (rest : Lines) (later : List Text)
    → refusal rest ≡ first_unsupported later
    → refusal (translate_syntax line >>= (λ x. after (g x) rest)) ≡ first_unsupported (line ∷ later)
refusal-line line g rest later h =
    refusal-bind (translate_syntax line) _ (first_unsupported later)
      (λ x. refusal-after (g x) rest ∙ h)
    ∙ (ap (λ o. earlier o (first_unsupported later)) (refusal-translate_syntax line)
        ∙ sym (first_unsupported-append (line ∷ []) later))

refusal-start_lines : (lines : List Text) → refusal (start_lines lines) ≡ first_unsupported lines
unfolding start_lines
refusal-start_lines [] = refl
refusal-start_lines (line ∷ lines) =
    refusal-line line (λ x. (codes "        " ++ x) ∷ spawn_timer line) (start_lines lines) lines
      (refusal-start_lines lines)

refusal-block_lines :
    (vs : Keyed Text Text) (lines : List Text)
    → refusal (block_lines vs lines) ≡ first_unsupported (map (namespace_line vs) lines)
unfolding block_lines
refusal-block_lines vs [] = refl
refusal-block_lines vs (line ∷ lines) =
    refusal-line (namespace_line vs line) (λ x. (codes "            " ++ x) ∷ [])
      (block_lines vs lines) (map (namespace_line vs) lines) (refusal-block_lines vs lines)

-- A block, or another part, and then the rest.
refusal-part :
    {A B : Type 0} (part : Result CaplError A) (f : A → Result CaplError B) (own later : List Text)
    → refusal part ≡ first_unsupported own
    → ((x : A) → refusal (f x) ≡ first_unsupported later)
    → refusal (part >>= f) ≡ first_unsupported (own ++ later)
refusal-part part f own later here h =
    refusal-bind part f (first_unsupported later) h
    ∙ (ap (λ o. earlier o (first_unsupported later)) here
        ∙ sym (first_unsupported-append own later))

refusal-timer_methods :
    (vs : Keyed Text Text) (ts : Keyed Text (List Text))
    → refusal (timer_methods vs ts) ≡ first_unsupported (namespaced vs (blocks_of ts))
unfolding timer_methods
refusal-timer_methods vs [] = refl
refusal-timer_methods vs ((name, block) ∷ ts) =
    refusal-part (block_lines vs block) _ (map (namespace_line vs) block)
      (namespaced vs (blocks_of ts)) (refusal-block_lines vs block)
      (λ x. rw refusal-after (refusal-timer_methods vs ts))

refusal-message_tests :
    (vs : Keyed Text Text) (ms : Keyed ℕ (List Text))
    → refusal (message_tests vs ms) ≡ first_unsupported (namespaced vs (blocks_of ms))
unfolding message_tests
refusal-message_tests vs [] = refl
refusal-message_tests vs ((id, block) ∷ ms) =
    refusal-part (block_lines vs block) _ (map (namespace_line vs) block)
      (namespaced vs (blocks_of ms)) (refusal-block_lines vs block)
      (λ x. rw refusal-after (refusal-message_tests vs ms))

refusal-message_handler :
    (vs : Keyed Text Text) (ms : Keyed ℕ (List Text))
    → refusal (message_handler vs ms) ≡ first_unsupported (namespaced vs (blocks_of ms))
unfolding message_handler
refusal-message_handler vs [] = refl
refusal-message_handler vs (m ∷ ms) = refusal-message_tests vs (m ∷ ms)

refusal-ok :
    {A B : Type 0} (part : Result CaplError A) (f : A → B)
    → refusal (part >>= (λ x. ok (f x))) ≡ refusal part
refusal-ok (ok x) f = refl
refusal-ok (err e) f = refl

refusal-script_lines :
    (p : CaplParser) → refusal (script_lines p) ≡ first_unsupported (translated_lines p)
unfolding script_lines
refusal-script_lines p =
    let timers : List Text = namespaced p.variables (blocks_of p.on_timer) in
    let messages : List Text = namespaced p.variables (blocks_of p.on_message) in
    refusal-part (start_lines p.on_start) _ p.on_start (timers ++ messages)
      (refusal-start_lines p.on_start)
      (λ started.
        refusal-part (timer_methods p.variables p.on_timer) _ timers messages
          (refusal-timer_methods p.variables p.on_timer)
          (λ loops.
            refusal-ok (message_handler p.variables p.on_message) _
            ∙ refusal-message_handler p.variables p.on_message))

-- The conversion is refused exactly when a translated line holds the unsupported construct, and the
-- error names the first such line.
pub refusal-generate_python :
    (p : CaplParser)
    → refusal ((generate_python p).0) ≡ first_unsupported (translated_lines (extract_blocks p))
unfolding generate_python
refusal-generate_python p =
    refusal-ok (script_lines (extract_blocks p)) (join (b'\n' ∷ []))
    ∙ refusal-script_lines (extract_blocks p)

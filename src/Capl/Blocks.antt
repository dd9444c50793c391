-- ===== src/Capl/Blocks.antt =====
-- `extract_blocks`: the parts of a CAPL program.
use automotive_testing_frame.Prelude.{
  ℕ, ◌+◌, ◌-◌, ◌*◌, Bool, none, some, List, [], ◌∷◌, ◌++◌, map, leb, ◌==◌, if◌then◌else◌, drop,
  get_or,
}
use automotive_testing_frame.Prelude.Bytes.{bytes_eq}
use automotive_testing_frame.Prelude.Texts.{Text, codes, strip, split_on, is_in}
use automotive_testing_frame.Regex.{search, find_iter, sub}
use automotive_testing_frame.Capl.Patterns.{
  comment, variables_block, message_decl, timer_decl, start_block, timer_block, message_block,
}

-- A dict with strings or numbers for keys, in insertion order.
abbrev pub Keyed {ℓ} : Type ℓ → Type ℓ → Type ℓ
Keyed K V = List (K × V)

pub record CaplParser : Type 0 where
  pub content : Text
  pub variables : Keyed Text Text
  pub timers : List Text
  pub on_start : List Text
  pub on_timer : Keyed Text (List Text)
  pub on_message : Keyed ℕ (List Text)

-- `__init__`, for what the file holds
unfoldable pub init : Text → CaplParser
init content = record {
  content = content;
  variables = [];
  timers = [];
  on_start = [];
  on_timer = [];
  on_message = [];
}

-- `d[k] = v`
unfoldable pub put {ℓ κ} :
    {K : Type ℓ} {V : Type κ} → (K → K → Bool) → K → V → List (K × V) → List (K × V)
put same k v [] = (k, v) ∷ []
put same k v ((j, w) ∷ d) = if same k j then (j, v) ∷ d else (j, w) ∷ put same k v d

-- Group `n` of a match, from 1.
abbrev pub group_of : ℕ → List Text → Text
group_of n groups = get_or groups (n - 1) []

unfoldable pub strip_comments : Text → Text
strip_comments content = sub comment (λ groups. []) content

-- `[line.strip() for line in block.strip().split(';') if line.strip()]`
abbrev pub kept_lines : List Text → List Text
kept_lines [] = []
kept_lines (l ∷ ls) = elim (strip l) [ [] ↦ kept_lines ls | c ∷ s ↦ (c ∷ s) ∷ kept_lines ls ]

unfoldable pub statements_of : Text → List Text
statements_of block = kept_lines (split_on b';' (strip block))

abbrev pub add_variables : List (List Text) → Keyed Text Text → Keyed Text Text
add_variables [] d = d
add_variables (groups ∷ ms) d =
    add_variables ms (put bytes_eq (group_of 2 groups) (group_of 1 groups) d)

unfoldable pub extract_variables : Text → CaplParser → CaplParser
extract_variables clean_content p = elim (search variables_block clean_content) [
  | none ↦ p
  | some groups ↦
      let vars_block = strip (group_of 1 groups) in
      record p {
        variables = add_variables (find_iter message_decl vars_block) p.variables;
        timers = p.timers ++ map (group_of 1) (find_iter timer_decl vars_block);
      }
]

unfoldable pub extract_start : Text → CaplParser → CaplParser
extract_start clean_content p = elim (search start_block clean_content) [
  | none ↦ p
  | some groups ↦ record p { on_start = statements_of (group_of 1 groups) }
]

unfoldable pub extract_timers : Text → List Text → Keyed Text (List Text) → Keyed Text (List Text)
extract_timers clean_content [] d = d
extract_timers clean_content (timer ∷ timers) d =
    extract_timers clean_content timers (elim (search (timer_block timer) clean_content) [
      | none ↦ d
      | some groups ↦ put bytes_eq timer (statements_of (group_of 1 groups)) d
    ])

-- `int(s)` and `int(s, 16)` of what the pattern of a number matches
abbrev pub digit_value : ℕ → ℕ
digit_value c = if leb c b'9' then c - b'0' else if leb c b'F' then c - b'A' + 10 else c - b'a' + 10

unfoldable pub read_number : ℕ → ℕ → Text → ℕ
read_number base acc [] = acc
read_number base acc (c ∷ s) = read_number base (acc * base + digit_value c) s

unfoldable pub message_id : Text → ℕ
message_id s = if is_in (codes "0x") s then read_number 16 0 (drop 2 s) else read_number 10 0 s

abbrev pub add_messages : List (List Text) → Keyed ℕ (List Text) → Keyed ℕ (List Text)
add_messages [] d = d
add_messages (groups ∷ ms) d =
    add_messages ms
      (put ◌==◌ (message_id (group_of 1 groups)) (statements_of (group_of 2 groups)) d)

unfoldable pub extract_blocks : CaplParser → CaplParser
extract_blocks p =
    let clean_content = strip_comments p.content in
    let declared = extract_start clean_content (extract_variables clean_content p) in
    record declared {
      on_timer = extract_timers clean_content declared.timers declared.on_timer;
      on_message = add_messages (find_iter message_block clean_content) declared.on_message;
    }

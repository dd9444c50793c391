-- ===== src/VectorCast.antt =====
-- subProj 10 VectorCAST Parser/parser.py: totals over the XML files of a directory, as a report.
pub mod Numbers
pub mod Digits
pub mod Attempts
pub mod Steps
pub mod Parser
pub mod Added
pub mod Order
pub mod Totals
pub mod Report
pub mod Drift
pub mod Html
pub mod Shown
mod Tests
use automotive_testing_frame.Prelude.{
  ℕ, ◌≡◌, Bool, true, false, ◌&&◌, Option, none, some, List, [], ◌∷◌, if◌then◌else◌, Result, ok,
  err,
}
use automotive_testing_frame.Prelude.Bytes.{bytes_eq}
use automotive_testing_frame.Prelude.Int.{ℤ, pos}
use automotive_testing_frame.Prelude.Texts.{Text}

-- What the parser does with Python's float: its literal 0.0, `float(s)`, arithmetic, `a / b` of two
-- integers, `* 100`, `round(x, 2)`, the tests `> 0` and `>= 0`, and `{x}` and `{x:+}`.
pub record Float (F : Type 0) : Type 0 where
  pub zero_f : F
  pub parse : Text → Option F
  pub add : F → F → F
  pub sub : F → F → F
  pub div : F → F → F
  pub ratio : ℤ → ℤ → F
  pub times_100 : F → F
  pub round_2 : F → F
  pub is_positive : F → Bool
  pub is_nonnegative : F → Bool
  pub show : F → Text
  pub show_signed : F → Text

-- An element of a parsed file, without its text: the tag, the attributes and the children.
mutual
  pub data Element : Type 0 where
    element : Text → List (Text × Text) → Elements → Element

  pub data Elements : Type 0 where
    end : Elements
    child : Element → Elements → Elements

abbrev pub tag_of : Element → Text
tag_of (element tag attributes children) = tag

abbrev pub children_of : Element → Elements
children_of (element tag attributes children) = children

unfoldable pub lookup : Text → List (Text × Text) → Option Text
lookup name [] = none
lookup name ((n, value) ∷ attributes) =
    if bytes_eq name n then some value else lookup name attributes

-- `e.get(name)`
abbrev pub get : Text → Element → Option Text
get name (element tag attributes children) = lookup name attributes

-- `e.find(tag)` and `e.findall(tag)` for a plain tag: the first and all of the children with it.
unfoldable pub find_in : Text → Elements → Option Element
find_in tag end = none
find_in tag (child e es) = if bytes_eq tag (tag_of e) then some e else find_in tag es

unfoldable pub find_all_in : Text → Elements → List Element
find_all_in tag end = []
find_all_in tag (child e es) =
    let others = find_all_in tag es in if bytes_eq tag (tag_of e) then e ∷ others else others

abbrev pub find : Text → Element → Option Element
find tag e = find_in tag (children_of e)

abbrev pub find_all : Text → Element → List Element
find_all tag e = find_all_in tag (children_of e)

-- An exception other than a malformed file: a value that `int` or `float` refuses, or one of `ET.parse`.
pub data Fault : Type 0 where
  bad_int bad_float : Text → Fault
  other : Text → Fault

-- What `ET.parse` gives for a path.
pub data Parsed : Type 0 where
  tree : Element → Parsed
  malformed : Text → Parsed
  failed : Text → Parsed

-- The KeyError of a missing entry of the baseline, or what else loading it raises.
pub data DeltaFault : Type 0 where
  key_error : Text → DeltaFault
  load_error : Text → DeltaFault

-- The entries of `metrics["errors"]`
pub data Entry : Type 0 where
  malformed_xml : Text → Text → Entry
  unexpected : Text → Fault → Entry
  delta_error : DeltaFault → Entry

pub record Execution : Type 0 where
  pub passed : ℤ
  pub failed : ℤ
  pub total : ℤ

pub record Coverage (F : Type 0) : Type 0 where
  pub statement_achieved_sum : F
  pub statement_total_sum : F
  pub branch_achieved_sum : F
  pub branch_total_sum : F
  pub mcdc_achieved_sum : F
  pub mcdc_total_sum : F

pub record Metrics (F : Type 0) : Type 0 where
  pub execution : Execution
  pub coverage : Coverage F
  pub errors : List Entry

-- `__init__`
unfoldable pub init : {F : Type 0} → Float F → Metrics F
init num = record {
  execution = record { passed = pos 0; failed = pos 0; total = pos 0 };
  coverage = record {
    statement_achieved_sum = num.zero_f;
    statement_total_sum = num.zero_f;
    branch_achieved_sum = num.zero_f;
    branch_total_sum = num.zero_f;
    mcdc_achieved_sum = num.zero_f;
    mcdc_total_sum = num.zero_f;
  };
  errors = [];
}

-- ===== src/Prelude/Texts.antt =====
-- Strings by their code points, and the methods of `str` that the modules share.
use automotive_testing_frame.Prelude.{
  ℕ, zero, suc, ◌+◌, ◌/◌, ◌%◌, Bool, true, false, ◌&&◌, ◌||◌, List, [], ◌∷◌, ◌++◌, ltb, leb, ◌==◌,
  if◌then◌else◌,
}
use automotive_testing_frame.Prelude.Int.{ℤ, pos, negsuc}
use Prim.Native.Char.{code}
use Prim.Native.String.{String}

abbrev pub Text : Type 0
Text = List ℕ

-- The code points of a literal.
abbrev pub codes : String → Text
codes String.[] = []
codes (String.◌∷◌ c s) = code c ∷ codes s

-- `s.isspace()` of one character, for ASCII.
abbrev pub is_space : ℕ → Bool
is_space c = (leb 9 c && leb c 13) || (leb 28 c && leb c 32)

unfoldable pub lstrip : Text → Text
lstrip [] = []
lstrip (c ∷ s) = if is_space c then lstrip s else c ∷ s

unfoldable pub rstrip : Text → Text
rstrip [] = []
rstrip (c ∷ s) = elim (rstrip s) [ [] ↦ if is_space c then [] else c ∷ [] | d ∷ t ↦ c ∷ d ∷ t ]

-- `s.strip()`
abbrev pub strip : Text → Text
strip s = rstrip (lstrip s)

-- `s.split(c)` for one character: a list of one piece or more.
unfoldable pub split_on : ℕ → Text → List Text
split_on sep [] = [] ∷ []
split_on sep (c ∷ s) =
    if c == sep
    then [] ∷ split_on sep s
    else elim (split_on sep s) [ [] ↦ (c ∷ []) ∷ [] | p ∷ ps ↦ (c ∷ p) ∷ ps ]

unfoldable pub starts_with : Text → Text → Bool
starts_with [] s = true
starts_with (c ∷ p) [] = false
starts_with (c ∷ p) (d ∷ s) = c == d && starts_with p s

-- `part in s`
unfoldable pub is_in : Text → Text → Bool
is_in part [] = starts_with part []
is_in part (c ∷ s) = starts_with part (c ∷ s) || is_in part s

-- `sep.join(parts)`
unfoldable pub join : Text → List Text → Text
join sep [] = []
join sep (p ∷ []) = p
join sep (p ∷ q ∷ ps) = p ++ sep ++ join sep (q ∷ ps)

-- `str(n)`, with fuel: a number has no more digits than its own value plus one.
unfoldable pub digits_of : ℕ → ℕ → Text
digits_of zero n = []
digits_of (suc fuel) n =
    let higher = digits_of fuel (n / 10) in
    if ltb n 10 then (b'0' + n) ∷ [] else higher ++ (b'0' + n % 10) ∷ []

abbrev pub show_ℕ : ℕ → Text
show_ℕ n = digits_of (suc n) n

-- `str(n)` of an integer
abbrev pub show_ℤ : ℤ → Text
show_ℤ (pos n) = show_ℕ n
show_ℤ (negsuc n) = b'-' ∷ show_ℕ (suc n)

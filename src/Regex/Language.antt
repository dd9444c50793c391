-- ===== src/Regex/Language.antt =====
-- What the matcher takes is in the language of its pattern, with its groups.
use mathlib.Core.Path.{subst}
use mathlib.Core.List.{append-nil, append_assoc}
use automotive_testing_frame.Prelude.{
  ℕ, ◌≡◌, refl, ap, sym, ◌∙◌, ◌⊎◌, inl, inr, Bool, true, ◌==◌, Option, none, some, List, [], ◌∷◌,
  ◌++◌, arith, if◌then◌else◌,
}
use automotive_testing_frame.Prelude.Texts.{Text}
use automotive_testing_frame.Regex.{
  at_boundary, Regex, nothing, char, one, many, few, seq, alt, group, boundary, Place, Cont,
  step_char, greedy, lazy, run, match_at, consumed,
}
use automotive_testing_frame.Regex.Words.{all_in, consumed-append, place}
use automotive_testing_frame.Regex.Progress.{or_else-inv, if-inv}

-- The texts of a pattern, with the groups that they give; a boundary is the empty text.
abbrev pub Lang : Regex → Text → List Text → Type 0
Lang nothing u gs = (u ≡ []) × (gs ≡ [])
Lang (char c) u gs = (u ≡ c ∷ []) × (gs ≡ [])
Lang (one class) u gs = (c : ℕ) × (class c ≡ true) × (u ≡ c ∷ []) × (gs ≡ [])
Lang (many class) u gs = (all_in class u ≡ true) × (gs ≡ [])
Lang (few class) u gs = (all_in class u ≡ true) × (gs ≡ [])
Lang (seq a b) u gs =
    (v : Text) × (w : Text) × (xs : List Text) × (ys : List Text) × (u ≡ v ++ w)
    × (gs ≡ xs ++ ys)
    × Lang a v xs
    × Lang b w ys
Lang (alt a b) u gs = Lang a u gs ⊎ Lang b u gs
Lang (group a) u gs = (xs : List Text) × (gs ≡ xs ++ u ∷ []) × Lang a u xs
Lang boundary u gs = (u ≡ []) × (gs ≡ [])

-- A success is one of the continuation, after a text and its groups.
record Takes (P : Text → List Text → Type 0) (k : Cont) (p end : Place) : Type 0 where
  at : Place
  took : Text
  caught : List Text
  goes_on : k at ≡ some end
  text : p.rest ≡ took ++ at.rest
  groups : at.groups ≡ p.groups ++ caught
  is_in : P took caught

Takes-here :
    (P : Text → List Text → Type 0) (k : Cont) (p end : Place)
    → P [] []
    → k p ≡ some end
    → Takes P k p end
Takes-here P k p end h e = record {
  at = p;
  took = [];
  caught = [];
  goes_on = e;
  text = refl;
  groups = sym (append-nil p.groups);
  is_in = h;
}

-- One character, before a text of a class, without groups.
abbrev Plain : (Text → Type 0) → Text → List Text → Type 0
Plain P u gs = P u × (gs ≡ [])

Takes-char :
    (P Q : Text → Type 0) (k : Cont) (before : Option ℕ) (c : ℕ) (s : Text) (groups : List Text)
    (end : Place)
    → ((u : Text) → P u → Q (c ∷ u))
    → Takes (Plain P) k (place (some c) s groups) end
    → Takes (Plain Q) k (place before (c ∷ s) groups) end
Takes-char P Q k before c s groups end grow t = record {
  at = t.at;
  took = c ∷ t.took;
  caught = [];
  goes_on = t.goes_on;
  text = ap (λ x. c ∷ x) t.text;
  groups = t.groups ∙ ap (λ x. groups ++ x) t.is_in.1;
  is_in = (grow t.took t.is_in.0, refl);
}

test-inv :
    (b : Bool) (p : Option Place) (end : Place) → (if b then p else none) ≡ some end → b ≡ true
test-inv b p end h = ground arith

abbrev IsOne : (ℕ → Bool) → Text → Type 0
IsOne class u = (c : ℕ) × (class c ≡ true) × (u ≡ c ∷ [])

step_char-Takes :
    (class : ℕ → Bool) (k : Cont) (before : Option ℕ) (s : Text) (groups : List Text) (end : Place)
    → step_char class k before s groups ≡ some end
    → Takes (Plain (IsOne class)) k (place before s groups) end
unfolding step_char
step_char-Takes class k before [] groups end h = cc
step_char-Takes class k before (c ∷ s) groups end h =
    Takes-char (λ u. u ≡ []) (IsOne class) k before c s groups end
      (λ u e. (c, test-inv (class c) _ end h, ap (λ x. c ∷ x) e))
      (Takes-here _ k (place (some c) s groups) end (refl, refl) (if-inv (class c) _ end h))

abbrev IsAll : (ℕ → Bool) → Text → Type 0
IsAll class u = all_in class u ≡ true

greedy-Takes :
    (class : ℕ → Bool) (k : Cont) (before : Option ℕ) (s : Text) (groups : List Text) (end : Place)
    → greedy class k before s groups ≡ some end
    → Takes (Plain (IsAll class)) k (place before s groups) end
unfolding greedy
greedy-Takes class k before [] groups end h =
    Takes-here _ k (place before [] groups) end (refl, refl) h
greedy-Takes class k before (c ∷ s) groups end h = elim (or_else-inv _ _ end h) [
  | inl onward ↦
      let is_c = test-inv (class c) _ end onward in
      Takes-char (IsAll class) (IsAll class) k before c s groups end
        (λ u e. ground (arith, is_c, e))
        (greedy-Takes class k (some c) s groups end (if-inv (class c) _ end onward))
  | inr here ↦ Takes-here _ k (place before (c ∷ s) groups) end (refl, refl) here
]

lazy-Takes :
    (class : ℕ → Bool) (k : Cont) (before : Option ℕ) (s : Text) (groups : List Text) (end : Place)
    → lazy class k before s groups ≡ some end
    → Takes (Plain (IsAll class)) k (place before s groups) end
unfolding lazy
lazy-Takes class k before [] groups end h =
    Takes-here _ k (place before [] groups) end (refl, refl) h
lazy-Takes class k before (c ∷ s) groups end h = elim (or_else-inv _ _ end h) [
  | inl here ↦ Takes-here _ k (place before (c ∷ s) groups) end (refl, refl) here
  | inr onward ↦
      let is_c = test-inv (class c) _ end onward in
      Takes-char (IsAll class) (IsAll class) k before c s groups end
        (λ u e. ground (arith, is_c, e))
        (lazy-Takes class k (some c) s groups end (if-inv (class c) _ end onward))
]

Takes-map :
    (P Q : Text → List Text → Type 0) (k : Cont) (p end : Place)
    → ((u : Text) (gs : List Text) → P u gs → Q u gs)
    → Takes P k p end
    → Takes Q k p end
Takes-map P Q k p end f t = record {
  at = t.at;
  took = t.took;
  caught = t.caught;
  goes_on = t.goes_on;
  text = t.text;
  groups = t.groups;
  is_in = f t.took t.caught t.is_in;
}

same_char : (d c : ℕ) → (d == c) ≡ true → d ≡ c
same_char d c h = ground arith

same_place : (p q : Place) → some p ≡ some q → p ≡ q
same_place p q h = ground (arith, h)

-- What a pattern takes, for any continuation.
run-Takes : (r : Regex) (k : Cont) (p end : Place) → run r k p ≡ some end → Takes (Lang r) k p end
unfolding run
run-Takes nothing k p end h = Takes-here _ k p end (refl, refl) h
run-Takes (char c) k p end h =
    Takes-map (Plain (IsOne (λ d. d == c))) (Lang (char c)) k p end
      (λ u gs e. (e.0.2 ∙ ap (λ x. x ∷ []) (same_char e.0.0 c e.0.1), e.1))
      (step_char-Takes (λ d. d == c) k p.before p.rest p.groups end h)
run-Takes (one class) k p end h =
    Takes-map (Plain (IsOne class)) (Lang (one class)) k p end
      (λ u gs e. (e.0.0, e.0.1, e.0.2, e.1))
      (step_char-Takes class k p.before p.rest p.groups end h)
run-Takes (many class) k p end h = greedy-Takes class k p.before p.rest p.groups end h
run-Takes (few class) k p end h = lazy-Takes class k p.before p.rest p.groups end h
run-Takes (seq a b) k p end h =
    let t = run-Takes a (run b k) p end h in
    let u = run-Takes b k t.at end t.goes_on in
    record {
      at = u.at;
      took = t.took ++ u.took;
      caught = t.caught ++ u.caught;
      goes_on = u.goes_on;
      text = t.text ∙ ap (λ x. t.took ++ x) u.text ∙ sym (append_assoc t.took u.took u.at.rest);
      groups =
          u.groups ∙ ap (λ x. x ++ u.caught) t.groups ∙ append_assoc p.groups t.caught u.caught;
      is_in = (t.took, u.took, t.caught, u.caught, refl, refl, t.is_in, u.is_in);
    }
run-Takes (alt a b) k p end h = elim (or_else-inv _ _ end h) [
  | inl l ↦ Takes-map (Lang a) (Lang (alt a b)) k p end (λ u gs e. inl e) (run-Takes a k p end l)
  | inr r ↦ Takes-map (Lang b) (Lang (alt a b)) k p end (λ u gs e. inr e) (run-Takes b k p end r)
]
run-Takes (group a) k p end h =
    let t = run-Takes a _ p end h in
    let whole = ap (λ x. consumed x t.at.rest) t.text ∙ consumed-append t.took t.at.rest in
    record {
      at = record t.at { groups = t.at.groups ++ consumed p.rest t.at.rest ∷ [] };
      took = t.took;
      caught = t.caught ++ t.took ∷ [];
      goes_on = t.goes_on;
      text = t.text;
      groups =
          ap (λ x. x ++ consumed p.rest t.at.rest ∷ []) t.groups
          ∙ ap (λ x. (p.groups ++ t.caught) ++ x ∷ []) whole
          ∙ append_assoc p.groups t.caught (t.took ∷ []);
      is_in = (t.caught, refl, t.is_in);
    }
run-Takes boundary k p end h =
    Takes-here _ k p end (refl, refl) (if-inv (at_boundary p) (k p) end h)

-- A match takes a text of the pattern, whose groups it returns.
pub match_at-Lang :
    (r : Regex) (before : Option ℕ) (s : Text) (end : Place)
    → match_at r before s ≡ some end
    → (u : Text) × (s ≡ u ++ end.rest) × Lang r u end.groups
match_at-Lang r before s end h =
    let t = run-Takes r some (place before s []) end h in
    let at_end = same_place t.at end t.goes_on in
    let caught = sym t.groups ∙ ap (λ q. q.groups) at_end in
    (
      t.took,
      t.text ∙ ap (λ q. t.took ++ q.rest) at_end,
      subst (λ gs. Lang r t.took gs) caught t.is_in,
    )

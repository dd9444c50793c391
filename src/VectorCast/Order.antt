-- ===== src/VectorCast/Order.antt =====
-- The order in which `glob.glob` gives the files, and the files that cannot be read.
use automotive_testing_frame.Prelude.{◌≡◌, refl, sym, ap, ◌∙◌, List, [], ◌∷◌, ◌++◌}
use automotive_testing_frame.Prelude.Texts.{Text, codes}
use mathlib.Core.List.{Permᴰ, append-nil, append_assoc}
use mathlib.Core.List.Permᴰ
use mathlib.Core.Path.{subst}
use automotive_testing_frame.VectorCast.{
  Float, other, Parsed, tree, malformed, failed, Entry, malformed_xml, unexpected, Execution,
  Metrics, init,
}
use automotive_testing_frame.VectorCast.Parser.{
  join_path, basename, unexpected_entries, add_root, parse_file, parse_files, parse_directory,
}
use automotive_testing_frame.VectorCast.Added.{
  plus, nothing_executed, plus_assoc, plus_comm, plus_nothing, execution_of, add_root-adds,
}

module _ {F : Type 0} (num : Float F) (parse : Text → Parsed) where
  -- The entries that a file leaves in the list of errors: at most one.
  abbrev pub entries_of : Text → Parsed → List Entry
  entries_of file_path (tree root) =
      unexpected_entries num file_path (add_root num root (init num)).1
  entries_of file_path (malformed e) = malformed_xml (basename file_path) e ∷ []
  entries_of file_path (failed e) = unexpected (basename file_path) (other e) ∷ []

  abbrev pub executions : List Text → Execution
  executions [] = nothing_executed
  executions (f ∷ fs) = plus (execution_of (parse f)) (executions fs)

  abbrev pub entries : List Text → List Entry
  entries [] = []
  entries (f ∷ fs) = entries_of f (parse f) ++ entries fs

  parse_file_as :
      (f : Text) (m : Metrics F) (p : Parsed)
      → parse f ≡ p
      → ((parse_file num parse f m).execution ≡ plus m.execution (execution_of p))
        × ((parse_file num parse f m).errors ≡ m.errors ++ entries_of f p)
  unfolding parse_file
  parse_file_as f m (tree root) e =
      let adds = add_root-adds num root m in
      rw (parse_file, e) (adds.added_execution, rw (adds.same_errors, adds.same_fault) refl)
  parse_file_as f m (malformed x) e = rw (parse_file, e) (sym (plus_nothing m.execution), refl)
  parse_file_as f m (failed x) e = rw (parse_file, e) (sym (plus_nothing m.execution), refl)

  -- Whatever the files are, the totals of the execution grow by what each of them adds to none, up to
  -- its first bad value, and the errors by the entry of each file that cannot be read to its end.
  pub parse_files_adds :
      (fs : List Text) (m : Metrics F)
      → ((parse_files num parse fs m).execution ≡ plus m.execution (executions fs))
        × ((parse_files num parse fs m).errors ≡ m.errors ++ entries fs)
  unfolding parse_files
  parse_files_adds [] m = (sym (plus_nothing m.execution), sym (append-nil m.errors))
  parse_files_adds (f ∷ fs) m =
      let (executed, faulted) = parse_file_as f m (parse f) refl in
      let (executed_rest, faulted_rest) = parse_files_adds fs (parse_file num parse f m) in
      (
        executed_rest
            ∙ (ap (λ x. plus x (executions fs)) executed
                ∙ plus_assoc m.execution (execution_of (parse f)) (executions fs)),
        faulted_rest
            ∙ (ap (λ x. x ++ entries fs) faulted
                ∙ append_assoc m.errors (entries_of f (parse f)) (entries fs)),
      )

  plus_swap : (a b c : Execution) → plus a (plus b c) ≡ plus b (plus a c)
  plus_swap a b c = sym (plus_assoc a b c) ∙ (ap (λ x. plus x c) (plus_comm a b) ∙ plus_assoc b a c)

  executions-Permᴰ : {fs gs : List Text} → Permᴰ fs gs → executions fs ≡ executions gs
  executions-Permᴰ Permᴰ.nil = refl
  executions-Permᴰ (Permᴰ.cons {b = b} {l₁ = l₁} e p) =
      ap (λ f. plus (execution_of (parse f)) (executions l₁)) e
      ∙ ap (plus (execution_of (parse b))) (executions-Permᴰ p)
  executions-Permᴰ (Permᴰ.swap {a = a} {b = b} {a' = a'} {l = l} e d) =
      plus_swap (execution_of (parse a)) (execution_of (parse b)) (executions l)
      ∙ (ap (λ f. plus (execution_of (parse f)) (plus (execution_of (parse a)) (executions l))) d
          ∙ ap (λ f. plus (execution_of (parse a')) (plus (execution_of (parse f)) (executions l)))
              e)
  executions-Permᴰ (Permᴰ.trans p q) = executions-Permᴰ p ∙ executions-Permᴰ q

  Permᴰ_of : {xs ys zs : List Entry} → ys ≡ zs → Permᴰ xs ys → Permᴰ xs zs
  Permᴰ_of {xs} e p = subst (Permᴰ xs) e p

  entries_swap : (a b c : List Entry) → Permᴰ (a ++ (b ++ c)) (b ++ (a ++ c))
  entries_swap a b c = Permᴰ_of (append_assoc b a c) (
      subst (λ es. Permᴰ es (b ++ a ++ c)) (append_assoc a b c)
        (Permᴰ.append_right c (Permᴰ.append_comm a b)))

  entries-Permᴰ : {fs gs : List Text} → Permᴰ fs gs → Permᴰ (entries fs) (entries gs)
  entries-Permᴰ Permᴰ.nil = Permᴰ.nil
  entries-Permᴰ (Permᴰ.cons {a = a} {l₂ = l₂} e p) =
      Permᴰ_of (ap (λ f. entries_of f (parse f) ++ entries l₂) e)
        (Permᴰ.append_left (entries_of a (parse a)) (entries-Permᴰ p))
  entries-Permᴰ (Permᴰ.swap {a = a} {b = b} {a' = a'} {l = l} e d) =
      Permᴰ_of
        (ap (λ f. entries_of f (parse f) ++ (entries_of a (parse a) ++ entries l)) d
          ∙ ap (λ f. entries_of a' (parse a') ++ (entries_of f (parse f) ++ entries l)) e)
        (entries_swap (entries_of a (parse a)) (entries_of b (parse b)) (entries l))
  entries-Permᴰ (Permᴰ.trans p q) = Permᴰ.trans (entries-Permᴰ p) (entries-Permᴰ q)

  -- Two orders of the same files give the same totals of the execution, and the same errors up to
  -- their order, whatever the files hold.
  pub parse_directory_order :
      (glob list : Text → List Text) (directory_path : Text) (m : Metrics F)
      → Permᴰ
          (glob (join_path directory_path (codes "*.xml")))
          (list (join_path directory_path (codes "*.xml")))
      → let one = parse_directory num glob parse directory_path m in
        let other_one = parse_directory num list parse directory_path m in
        (one.execution ≡ other_one.execution) × Permᴰ one.errors other_one.errors
  unfolding parse_directory
  parse_directory_order glob list directory_path m p =
      let (executed, faulted) =
        parse_files_adds (glob (join_path directory_path (codes "*.xml"))) m in
      let (executed_too, faulted_too) =
        parse_files_adds (list (join_path directory_path (codes "*.xml"))) m in
      (
        executed ∙ (ap (plus m.execution) (executions-Permᴰ p) ∙ sym executed_too),
        Permᴰ_of (sym faulted_too) (
            subst
              (λ es.
                Permᴰ es (m.errors ++ entries (list (join_path directory_path (codes "*.xml")))))
              (sym faulted) (Permᴰ.append_left m.errors (entries-Permᴰ p))),
      )

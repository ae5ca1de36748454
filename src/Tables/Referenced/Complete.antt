-- ===== src/Tables/Referenced/Complete.antt =====
-- What the declared tables refer to is in the extract.
use cumulus_ci.Prelude.{
  String, ℕ, zero, suc, ◌+◌, ◌≡◌, refl, sym, ap, ◌∙◌, subst, inl, List, [], ◌∷◌, ◌||◌, true,
  if◌then◌else◌, contains, All, Result, ok, err, ◌>>=◌, >>=-eq-ok, ok-injective, length, arith,
}
use cumulus_ci.Prelude.Dict
use cumulus_ci.Prelude.Dict.{Dict}
use cumulus_ci.Tables.Referenced.{
  SObjDependency, ExtractError, out_of_fuel, Schema, Extended, is_empty, add_dependencies,
  found_dependencies, extend_loop, declared_dependencies, last_first, extend_declarations,
}
use cumulus_ci.Tables.Referenced.Closed.{InProgress, turn, extend_loop-turn, extend_loop-AllClosed}
use cumulus_ci.Tables.Referenced.Grows.{AllMet, Closed, add_dependencies-Grows}

-- Each declared table is on the stack at the start.
contains-last_first :
    (decls : Dict (List String)) (stack : List String) (x : String)
    → (Dict.has x decls || contains stack x) ≡ true
    → contains (last_first decls stack) x ≡ true
unfolding Dict.has contains
contains-last_first [] stack x there = there
contains-last_first ((table, fields) ∷ decls) stack x there =
    contains-last_first decls (table ∷ stack) x (ground (arith, there))

module _ (not_extractable : List String) (schema : Schema) where
  -- What was declared stays so, with what was collected for it.
  record Keeps (e e' : Extended) : Type 0 where
    declared : (x : String) → Dict.has x e.decls ≡ true → Dict.has x e'.decls ≡ true
    same :
        (x : String)
        → Dict.has x e.decls ≡ true
        → Dict.lookup x e'.dependencies ≡ Dict.lookup x e.dependencies

  Keeps-refl : (e : Extended) → Keeps e e
  Keeps-refl e = record { declared = λ x h. h; same = λ x h. refl }

  Keeps-trans : (a b c : Extended) → Keeps a b → Keeps b c → Keeps a c
  Keeps-trans a b c f g = record {
    declared = λ x h. g.declared x (f.declared x h);
    same = λ x h. g.same x (f.declared x h) ∙ f.same x h;
  }

  turn-Keeps :
      (stack : List String) (next : Extended → Result ExtractError Extended) (e e' : Extended)
      → ((m : Extended) → next m ≡ ok e' → Keeps m e')
      → turn not_extractable schema stack next e ≡ ok e'
      → Keeps e e'
  unfolding turn
  turn-Keeps [] next e e' later h = subst (Keeps e) (ok-injective h) (Keeps-refl e)
  turn-Keeps (t ∷ ts) next e e' later h =
      let ds : List SObjDependency = found_dependencies (Dict.lookup t e.dependencies) in
      let popped : Extended = record e { to_process = ts } in
      let (mid, first, rest) =
        >>=-eq-ok (add_dependencies not_extractable schema ds popped) next h in
      let (g, met) = add_dependencies-Grows not_extractable schema ds popped mid first in
      Keeps-trans e mid e' (record { declared = g.declared; same = g.same }) (later mid rest)

  extend_loop-Keeps :
      (fuel : ℕ) (e e' : Extended) → extend_loop not_extractable fuel schema e ≡ ok e' → Keeps e e'
  unfolding extend_loop
  extend_loop-Keeps zero e e' h = by_stack e.to_process h
    where
      by_stack :
          (stack : List String)
          → (if is_empty stack then ok e else err out_of_fuel) ≡ ok e'
          → Keeps e e'
      by_stack [] h = subst (Keeps e) (ok-injective h) (Keeps-refl e)
      by_stack (t ∷ ts) h = cc
  extend_loop-Keeps (suc fuel) e e' h =
      turn-Keeps e.to_process (extend_loop not_extractable fuel schema) e e'
        (λ m h_m. extend_loop-Keeps fuel m e' h_m)
        (sym (extend_loop-turn not_extractable schema fuel e) ∙ h)

  -- Where the extension succeeds, every table that was declared is still there, and every table that a
  -- lookup collected for it names is there as well, unless the table cannot be extracted.
  pub extend_declarations_complete :
      (decls out : Dict (List String)) (dependencies : Dict (List SObjDependency)) (x : String)
      → declared_dependencies not_extractable schema decls [] ≡ ok dependencies
      → extend_declarations not_extractable schema decls ≡ ok out
      → Dict.has x decls ≡ true
      → (Dict.has x out ≡ true)
        × All (AllMet not_extractable schema out) (found_dependencies (Dict.lookup x dependencies))
  unfolding extend_declarations
  extend_declarations_complete decls out dependencies x collected h there =
      let start : Dict (List SObjDependency) → Extended =
        λ ds. record { decls = decls; dependencies = ds; to_process = last_first decls [] } in
      let fuel : ℕ = length decls + length schema in
      let (ds, first, rest) =
        >>=-eq-ok (declared_dependencies not_extractable schema decls [])
          (λ ds. extend_loop not_extractable fuel schema (start ds) >>= λ e. ok e.decls) h in
      let (e', looped, done) =
        >>=-eq-ok (extend_loop not_extractable fuel schema (start ds)) (λ e. ok e.decls) rest in
      let kept : Keeps (start ds) e' = extend_loop-Keeps fuel (start ds) e' looped in
      let here : Dict.has x e'.decls ≡ true = kept.declared x there in
      let waits : InProgress not_extractable schema (start ds) =
        λ y known. inl (contains-last_first decls [] y (ground (arith, known))) in
      let closed : Closed not_extractable schema e' x =
        extend_loop-AllClosed not_extractable schema fuel (start ds) e' waits looped x here in
      subst
        (λ (o : Dict (List String)).
          (Dict.has x o ≡ true)
          × All (AllMet not_extractable schema o) (found_dependencies (Dict.lookup x dependencies)))
        (ok-injective done)
        (
          here,
          subst (λ o. All (AllMet not_extractable schema e'.decls) (found_dependencies o))
              (kept.same x there ∙ ap (Dict.lookup x) (ok-injective (sym first ∙ collected)))
              closed,
        )

-- ===== src/Tables/Referenced/Closed.antt =====
-- The tables of an extract are closed under the lookups that are followed.
use cumulus_ci.Prelude.{
  String, ℕ, zero, suc, ◌≡◌, refl, sym, ap, ◌∙◌, subst, ◌⊎◌, inl, inr, List, [], ◌∷◌, Bool, true,
  false, if◌then◌else◌, contains, All, text-cases, Result, ok, err, ◌>>=◌, >>=-eq-ok, ok-injective,
  arith,
}
use cumulus_ci.Prelude.Dict
use cumulus_ci.Prelude.Dict.{Dict}
use cumulus_ci.Tables.Referenced.{
  ExtractError, out_of_fuel, Schema, is_empty, Extended, add_dependencies, found_dependencies,
  extend_loop,
}
use cumulus_ci.Tables.Referenced.Grows.{
  All-map, AllMet-Grows, add_dependencies-Grows, AllMet, Closed, Grows,
}

module _ (not_extractable : List String) (schema : Schema) where
  -- Each table is waiting or closed.
  abbrev pub InProgress : Extended → Type 0
  InProgress e =
      (x : String)
      → Dict.has x e.decls ≡ true
      → (contains e.to_process x ≡ true) ⊎ Closed not_extractable schema e x

  Closed-Grows :
      (e e' : Extended)
      → Grows not_extractable schema e e'
      → (x : String) → Dict.has x e.decls ≡ true
      → Closed not_extractable schema e x
      → Closed not_extractable schema e' x
  Closed-Grows e e' g x there closed =
      subst (λ o. All (AllMet not_extractable schema e'.decls) (found_dependencies o))
        (sym (g.same x there))
        (All-map (AllMet not_extractable schema e.decls) (AllMet not_extractable schema e'.decls)
          (AllMet-Grows not_extractable schema e e' g)
          (found_dependencies (Dict.lookup x e.dependencies)) closed)

  turn-InProgress :
      (t : String) (ts : List String) (e e' : Extended)
      → e.to_process ≡ t ∷ ts
      → InProgress e
      → add_dependencies not_extractable schema
          (found_dependencies (Dict.lookup t e.dependencies))
          (record e { to_process = ts })
        ≡ ok e'
      → InProgress e'
  unfolding contains
  turn-InProgress t ts e e' stack inv h x there =
      let start : Extended = record e { to_process = ts } in
      let (g, met) =
        add_dependencies-Grows not_extractable schema
          (found_dependencies (Dict.lookup t e.dependencies)) start e' h in
      elim (g.added x there) [
        | inr later ↦ inl later
        | inl before ↦ elim (inv x before) [
          | inr closed ↦ inr (Closed-Grows start e' g x before closed)
          | inl waits ↦ elim (text-cases t x) [
            | inl same ↦ inr (
                subst (λ o. All (AllMet not_extractable schema e'.decls) (found_dependencies o))
                  (ap (λ k. Dict.lookup k e.dependencies) same ∙ sym (g.same x before)) met)
            | inr other ↦
                let tail : contains (t ∷ ts) x ≡ true =
                  ap (λ l. contains l x) (sym stack) ∙ waits in
                inl (g.waiting x (ground arith))
          ]
        ]
      ]

  -- All the tables are closed.
  abbrev pub AllClosed : Extended → Type 0
  AllClosed e = (x : String) → Dict.has x e.decls ≡ true → Closed not_extractable schema e x

  finished-AllClosed : (e : Extended) → e.to_process ≡ [] → InProgress e → AllClosed e
  unfolding contains
  finished-AllClosed e empty inv x there = elim (inv x there) [
    | inr closed ↦ closed
    | inl waits ↦
        let clash : Path Bool false true = ap (λ l. contains l x) (sym empty) ∙ waits in
        absurd_of clash
  ]
    where
      absurd_of : Path Bool false true → Closed not_extractable schema e x
      absurd_of clash = ground arith

  -- One turn of the loop, and the turns after it.
  unfoldable pub turn :
      List String
      → (Extended → Result ExtractError Extended)
      → Extended
      → Result ExtractError Extended
  turn [] next e = ok e
  turn (t ∷ ts) next e =
      add_dependencies not_extractable schema (found_dependencies (Dict.lookup t e.dependencies))
        (record e { to_process = ts })
      >>= next

  turn-AllClosed :
      (stack : List String) (next : Extended → Result ExtractError Extended) (e e' : Extended)
      → e.to_process ≡ stack
      → ((m : Extended) → InProgress m → next m ≡ ok e' → AllClosed e')
      → InProgress e
      → turn stack next e ≡ ok e'
      → AllClosed e'
  unfolding turn
  turn-AllClosed [] next e e' empty later inv h =
      subst AllClosed (ok-injective h) (finished-AllClosed e empty inv)
  turn-AllClosed (t ∷ ts) next e e' stack later inv h =
      let (mid, first, rest) =
        >>=-eq-ok
          (add_dependencies not_extractable schema
            (found_dependencies (Dict.lookup t e.dependencies)) (record e { to_process = ts }))
          next h in
      later mid (turn-InProgress t ts e mid stack inv first) rest

  pub extend_loop-turn :
      (fuel : ℕ) (e : Extended)
      → extend_loop not_extractable (suc fuel) schema e
        ≡ turn e.to_process (extend_loop not_extractable fuel schema) e
  unfolding extend_loop turn
  extend_loop-turn fuel e = by_stack e.to_process
    where
      by_stack :
          (stack : List String)
          → (elim stack [
            | [] ↦ ok e
            | t ∷ ts ↦
                add_dependencies not_extractable schema
                  (found_dependencies (Dict.lookup t e.dependencies))
                  (record e { to_process = ts })
                >>= λ m. extend_loop not_extractable fuel schema m
          ])
            ≡ turn stack (extend_loop not_extractable fuel schema) e
      by_stack [] = refl
      by_stack (t ∷ ts) = refl

  pub extend_loop-AllClosed :
      (fuel : ℕ) (e e' : Extended)
      → InProgress e
      → extend_loop not_extractable fuel schema e ≡ ok e'
      → AllClosed e'
  unfolding extend_loop
  extend_loop-AllClosed zero e e' inv h = by_stack e.to_process refl h
    where
      by_stack :
          (stack : List String)
          → e.to_process ≡ stack
          → (if is_empty stack then ok e else err out_of_fuel) ≡ ok e'
          → AllClosed e'
      by_stack [] empty h = subst AllClosed (ok-injective h) (finished-AllClosed e empty inv)
      by_stack (t ∷ ts) stack h = cc
  extend_loop-AllClosed (suc fuel) e e' inv h =
      turn-AllClosed e.to_process (extend_loop not_extractable fuel schema) e e' refl
        (λ m inv_m h_m. extend_loop-AllClosed fuel m e' inv_m h_m) inv
        (sym (extend_loop-turn fuel e) ∙ h)

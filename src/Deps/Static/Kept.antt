-- ===== src/Deps/Static/Kept.antt =====
-- A static dependency is never lost on the way.
use cumulus_ci.Prelude.{
  String, ℕ, zero, suc, ◌≡◌, refl, sym, subst, ap, ◌∙◌, List, [], ◌∷◌, ◌++◌, Bool, true, false, ◌⊎◌,
  inl, inr, Result, ok, ◌>>=◌, >>=-eq-ok, ok-injective, arith, Among, Among-append_left,
  Among-append_right, Bool-cases, any, keep,
}
use cumulus_ci.Flow.Sort.{StepOrder}
use cumulus_ci.Deps.Model.{DepError, Dependency, static, Static}
use cumulus_ci.Deps.Resolvers.{Context}
use cumulus_ci.Deps.Pins.{Pin, get_resolver_stack}
use cumulus_ci.Deps.Flatten.{flatten}
use cumulus_ci.Deps.Static.{
  resolve_one, resolve_each, flatten_each, unique, round, is_pending, iterate,
  get_static_dependencies, max_iterations,
}

module _ (order : StepOrder) (same : Dependency → Dependency → Bool) (context : Context)
    (strategies : List String) (pins : List Pin) (filter_function : Dependency → Bool) (s : Static)
    (only : (e : Dependency) → same (static s) e ≡ true → static s ≡ e)
    (passes : filter_function (static s) ≡ true) where
  resolve_each-keeps :
      (ds out : List Dependency)
      → resolve_each order same context strategies pins filter_function ds ≡ ok out
      → Among (static s) ds
      → Among (static s) out
  unfolding resolve_each resolve_one
  resolve_each-keeps [] out h m = elim m [ ]
  resolve_each-keeps (d ∷ ds) out h m =
      let (d', one, h1) =
        >>=-eq-ok (resolve_one order same context strategies pins filter_function d) _ h in
      let (rest, each, h2) =
        >>=-eq-ok (resolve_each order same context strategies pins filter_function ds) _ h1 in
      subst (Among (static s)) (ok-injective {E = DepError} h2) (elim m [
        | inl here ↦
            let one_s : resolve_one order same context strategies pins filter_function (static s)
                ≡ ok d' =
              subst (λ x. resolve_one order same context strategies pins filter_function x ≡ ok d')
                (sym here) one in
            inl (ok-injective {E = DepError} one_s)
        | inr later ↦ inr (resolve_each-keeps ds rest each later)
      ])

  flatten_each-keeps :
      (ds out : List Dependency)
      → flatten_each order same context strategies pins filter_function ds ≡ ok out
      → Among (static s) ds
      → Among (static s) out
  unfolding flatten_each flatten
  flatten_each-keeps [] out h m = elim m [ ]
  flatten_each-keeps (d ∷ ds) out h m = elim (Bool-cases (filter_function d)) [
    | inl kept ↦
        let rest = flatten_each order same context strategies pins filter_function ds in
        let flat : (flatten order context d >>= λ here. rest >>= λ more. ok (here ++ more))
            ≡ ok out =
          ground arith in
        let (here, one, h1) = >>=-eq-ok (flatten order context d) _ flat in
        let (more, each, h2) = >>=-eq-ok rest _ h1 in
        subst (Among (static s)) (ok-injective {E = DepError} h2) (elim m [
          | inl first ↦
              let one_s : flatten order context (static s) ≡ ok here =
                subst (λ x. flatten order context x ≡ ok here) (sym first) one in
              Among-append_left (static s) here more
                (subst (Among (static s)) (ok-injective {E = DepError} one_s) (inl refl))
          | inr later ↦
              Among-append_right (static s) here more (flatten_each-keeps ds more each later)
        ])
    | inr ignored ↦ elim m [
      | inl first ↦
          let clash : filter_function (static s) ≡ false = ap filter_function first ∙ ignored in cc
      | inr later ↦ flatten_each-keeps ds out (ground arith) later
    ]
  ]

  Among-of_same :
      (seen : List Dependency) → any (same (static s)) seen ≡ true → Among (static s) seen
  Among-of_same [] h = cc
  Among-of_same (e ∷ seen) h = elim (Bool-cases (same (static s) e)) [
    | inl here ↦ inl (only e here)
    | inr later ↦ inr (Among-of_same seen (ground arith))
  ]

  unique-keeps :
      (seen ds : List Dependency)
      → Among (static s) ds
      → Among (static s) seen
        ⊎ Among (static s) (unique order same context strategies pins filter_function seen ds)
  unfolding unique
  unique-keeps seen [] m = elim m [ ]
  unique-keeps seen (d ∷ ds) m = elim (Bool-cases (any (same d) seen)) [
    | inl again ↦ elim m [
      | inl here ↦ inl (Among-of_same seen (ap (λ x. any (same x) seen) here ∙ again))
      | inr later ↦ rw again (unique-keeps seen ds later)
    ]
    | inr fresh ↦ elim m [
      | inl here ↦ rw fresh (inr (inl here))
      | inr later ↦ elim (unique-keeps (d ∷ seen) ds later) [
        | inl (inl here) ↦ rw fresh (inr (inl here))
        | inl (inr before) ↦ inl before
        | inr rest ↦ rw fresh (inr (inr rest))
      ]
    ]
  ]

  round-keeps :
      (ds out : List Dependency)
      → round order same context strategies pins filter_function ds ≡ ok out
      → Among (static s) ds
      → Among (static s) out
  unfolding round
  round-keeps ds out h m =
      let (rs, each, h1) =
        >>=-eq-ok (resolve_each order same context strategies pins filter_function ds) _ h in
      let (flat, flats, h2) =
        >>=-eq-ok (flatten_each order same context strategies pins filter_function rs) _ h1 in
      subst (Among (static s)) (ok-injective {E = DepError} h2)
        (elim (unique-keeps [] flat
          (flatten_each-keeps rs flat flats (resolve_each-keeps ds rs each m))) [
            | inl seen ↦ elim seen [ ]
            | inr kept ↦ kept
          ])

  keep-keeps :
      (ds : List Dependency) → Among (static s) ds → Among (static s) (keep filter_function ds)
  keep-keeps [] m = elim m [ ]
  keep-keeps (d ∷ ds) m = elim (Bool-cases (filter_function d)) [
    | inl kept ↦ elim m [
      | inl here ↦ rw kept (inl here)
      | inr later ↦ rw kept (inr (keep-keeps ds later))
    ]
    | inr ignored ↦ elim m [
      | inl here ↦
          let clash : filter_function (static s) ≡ false = ap filter_function here ∙ ignored in cc
      | inr later ↦ rw ignored (keep-keeps ds later)
    ]
  ]

  kept-keeps :
      (ds out : List Dependency)
      → Path (Result DepError (List Dependency)) (ok (keep filter_function ds)) (ok out)
      → Among (static s) ds
      → Among (static s) out
  kept-keeps ds out h m = subst (Among (static s)) (ok-injective {E = DepError} h) (keep-keeps ds m)

  iterate-keeps :
      (rounds : ℕ) (ds out : List Dependency)
      → iterate order same context strategies pins filter_function rounds ds ≡ ok out
      → Among (static s) ds
      → Among (static s) out
  unfolding iterate
  iterate-keeps zero ds out h m =
      elim (Bool-cases (any (is_pending order same context strategies pins filter_function) ds)) [
        | inr settled ↦ kept-keeps ds out (ground arith) m
        | inl pending ↦ ground arith
      ]
  iterate-keeps (suc rounds) ds out h m =
      elim (Bool-cases (any (is_pending order same context strategies pins filter_function) ds)) [
        | inr settled ↦ kept-keeps ds out (ground arith) m
        | inl pending ↦
            let again : (round order same context strategies pins filter_function ds >>= λ next.
            iterate order same context strategies pins filter_function rounds next)
                ≡ ok out =
              ground arith in
            let (next, one, rest) =
              >>=-eq-ok (round order same context strategies pins filter_function ds) _ again in
            iterate-keeps rounds next out rest (round-keeps ds next one m)
      ]

-- A static dependency of the project that passes the filter, and that the equality of dependencies
-- takes for no other, is among those that `get_static_dependencies` returns, where it returns.
pub get_static_dependencies-keeps :
    (order : StepOrder) (same : Dependency → Dependency → Bool) (context : Context)
    (strategy : String) (pins : List Pin) (filter_function : Dependency → Bool) (s : Static)
    (dependencies out : List Dependency)
    → ((e : Dependency) → same (static s) e ≡ true → static s ≡ e)
    → filter_function (static s) ≡ true
    → Among (static s) dependencies
    → get_static_dependencies order same context strategy pins filter_function dependencies ≡ ok out
    → Among (static s) out
unfolding get_static_dependencies
get_static_dependencies-keeps order same context strategy pins filter_function s dependencies out
      only passes m h =
    let (strategies, stack, loop) = >>=-eq-ok (get_resolver_stack context strategy) _ h in
    iterate-keeps order same context strategies pins filter_function s only passes max_iterations
      dependencies out loop m

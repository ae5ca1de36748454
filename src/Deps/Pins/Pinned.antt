-- ===== src/Deps/Pins/Pinned.antt =====
-- Pins go before the strategies.
use cumulus_ci.Prelude.{
  String, ◌≡◌, refl, sym, ◌∙◌, ap, some, List, [], ◌∷◌, ◌++◌, true, false, inl, inr, ok, ◌>>=◌,
  >>=-eq-ok, ok-injective, arith, All, Bool-cases,
}
use cumulus_ci.Deps.Model.{DepError, Dynamic}
use cumulus_ci.Deps.Resolvers.{Context, resolve_tag}
use cumulus_ci.Deps.Pins.{Pin, can_pin, conflicts, pin_to, resolve}

pub resolve-skips :
    (context : Context) (strategies : List String) (before after : List Pin) (d : Dynamic)
    → All (λ p. can_pin p d ≡ false) before
    → resolve context strategies (before ++ after) d ≡ resolve context strategies after d
unfolding resolve
resolve-skips context strategies [] after d h = refl
resolve-skips context strategies (p ∷ before) after d (other_repo, h) =
    rw other_repo (resolve-skips context strategies before after d h)

-- The first pin for the dependency's repository decides, whatever the strategies and the later
-- pins are: where the resolution succeeds, the dependency had no other tag, it has the pin's tag,
-- and its ref and package are those of the release that the tag names.
pub resolve-pinned :
    (context : Context) (strategies : List String) (before after : List Pin) (pin : Pin)
    (d d' : Dynamic)
    → All (λ p. can_pin p d ≡ false) before
    → can_pin pin d ≡ true
    → resolve context strategies (before ++ pin ∷ after) d ≡ ok d'
    → (conflicts pin d.tag ≡ false)
      × (d'.tag ≡ some pin.tag)
      × (resolve_tag context (record d { tag = some pin.tag }) ≡ ok (d'.ref, d'.package_dependency))
unfolding resolve pin_to
resolve-pinned context strategies before after pin d d' others can h =
    let first : resolve context strategies (pin ∷ after) d ≡ ok d' =
      sym (resolve-skips context strategies before (pin ∷ after) d others) ∙ h in
    let pinned : pin_to context pin d ≡ ok d' = ground arith in
    elim (Bool-cases (conflicts pin d.tag)) [
      | inl conflict ↦ ground arith
      | inr free ↦
          let tagged : Dynamic = record d { tag = some pin.tag } in
          let ran : (resolve_tag context tagged >>= λ f.
          ok (record tagged { ref = f.0; package_dependency = f.1 }))
              ≡ ok d' =
            ground arith in
          let (found, resolved, given) =
            >>=-eq-ok (resolve_tag context tagged)
              (λ f. ok (record tagged { ref = f.0; package_dependency = f.1 })) ran in
          let same : record tagged { ref = found.0; package_dependency = found.1 } ≡ d' =
            ok-injective {E = DepError} given in
          (
            free,
            sym (ap (λ x. x.tag) same),
            resolved ∙ ap (λ x. ok (x.ref, x.package_dependency)) same,
          )
    ]

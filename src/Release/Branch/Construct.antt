-- ===== src/Release/Branch/Construct.antt =====
-- A name that is made from an identifier, and what is read from it.
use cumulus_ci.Prelude.{
  ◌≡◌, refl, ap, ◌∙◌, Option, none, some, [], ◌∷◌, ◌++◌, true, false, ok, arith, ok-injective,
  append_assoc, nat_eq,
}
use cumulus_ci.Prelude.Text.{Text, lacks, strip, strip-append, isdigit}
use cumulus_ci.Prelude.Text.Split.{split, mark}
use cumulus_ci.Release.Identifier.{
  ReleaseBranchFormat, is_valid_release_identifier, is_valid_suffix, without, identifier_part,
}
use cumulus_ci.Release.Identifier
use cumulus_ci.Release.Branch.{get_release_identifier, construct_release_branch_name}
use cumulus_ci.Release.Branch.Parents.{identifier_part-some, format_identifier, no_format}

-- The rest of the name of a child branch, if it is one.
abbrev pub tail : Option Text → Text
tail none = []
tail (some rest) = mark ++ rest

split-lacks : (s : Text) (child : Option Text) → lacks 95 s ≡ true → (split (s ++ tail child)).0 ≡ s
unfolding split lacks
split-lacks [] none plain = refl
split-lacks [] (some rest) plain = refl
split-lacks (a ∷ []) none plain = refl
split-lacks (a ∷ []) (some rest) plain =
    let other : nat_eq a 95 ≡ false = ground arith in rw other refl
split-lacks (a ∷ b ∷ s) child plain =
    let other : nat_eq a 95 ≡ false = ground arith in
    rw other (ap (λ t. a ∷ t) (split-lacks (b ∷ s) child (ground arith)))

-- The text after the branch prefix, for an identifier.
abbrev pub full_identifier : Text → Option ReleaseBranchFormat → Text
full_identifier identifier format = construct_release_branch_name [] identifier format

strip-construct :
    (prefix identifier : Text) (format : Option ReleaseBranchFormat) (child : Option Text)
    → strip prefix (construct_release_branch_name prefix identifier format ++ tail child)
      ≡ some (full_identifier identifier format ++ tail child)
unfolding construct_release_branch_name
strip-construct prefix identifier none child =
    ap (strip prefix) (append_assoc prefix identifier (tail child))
    ∙ strip-append prefix (identifier ++ tail child)
strip-construct prefix identifier (some f) child =
    ap (strip prefix) (append_assoc prefix (f.prefix ++ identifier) (tail child))
    ∙ strip-append prefix ((f.prefix ++ identifier) ++ tail child)

-- The branch that is named after a valid identifier without underscores, and each child of that
-- branch, has that identifier.
pub get_release_identifier-construct :
    (prefix identifier : Text) (format : Option ReleaseBranchFormat) (child : Option Text)
    → is_valid_release_identifier (full_identifier identifier format) format ≡ ok true
    → lacks 95 (full_identifier identifier format) ≡ true
    → get_release_identifier
        (construct_release_branch_name prefix identifier format ++ tail child)
        prefix
        format
      ≡ ok (some identifier)
unfolding construct_release_branch_name is_valid_release_identifier get_release_identifier
    Identifier.get_release_identifier
get_release_identifier-construct prefix identifier none child valid plain =
    let first : (split (identifier ++ tail child)).0 ≡ identifier =
      split-lacks identifier child plain in
    let digits : isdigit identifier ≡ true = ok-injective valid in
    no_format (construct_release_branch_name prefix identifier none ++ tail child) prefix
      (identifier ++ tail child) (strip-construct prefix identifier none child)
      (ap isdigit first ∙ digits)
    ∙ ap (λ t. ok (some t)) first
get_release_identifier-construct prefix identifier (some f) child valid plain =
    let part : Text = f.prefix ++ identifier in
    let first : (split (part ++ tail child)).0 ≡ part = split-lacks part child plain in
    let whole = strip-construct prefix identifier (some f) child in
    let name : Text = construct_release_branch_name prefix identifier (some f) ++ tail child in
    format_identifier name prefix part f
      (identifier_part-some name prefix (part ++ tail child) whole ∙ ap some first) valid
    ∙ ap (λ t. ok (some t)) (without-append f.prefix identifier)
  where
    without-append : (p s : Text) → without p (p ++ s) ≡ s
    without-append p s = rw (strip-append p s, without) refl

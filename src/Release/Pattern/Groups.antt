-- ===== src/Release/Pattern/Groups.antt =====
-- What the groups of a match say.
use cumulus_ci.Prelude.{
  ℕ, zero, suc, ◌≡◌, refl, sym, ap, ◌∙◌, Option, none, some, Option-cases, List, [], ◌∷◌, ◌++◌,
  append_assoc, true, false, if◌then◌else◌, Bool-cases, inl, inr, Result, ok, ok-injective, arith,
}
use cumulus_ci.Prelude.Text.{Text, at_end, is_digit}
use cumulus_ci.Release.Pattern.{
  ReleaseError, Token, yyyy, yy, mm, dd, q, n, same_token, Piece, group, literal, has_token,
  distinct, pattern_to_regex, pieces, Groups, take_digits, digit_run, add_group, with_digits,
  match_token, match_pieces, group_value, reconstruct,
}

-- What a continuation that succeeded says of the rest of the text.
abbrev Spells : List Piece → Groups → Text → Type 0
Spells ps gs s =
    (t : Text) × (end : Text) × (reconstruct ps gs ≡ ok t) × (s ≡ t ++ end) × (at_end end ≡ true)

take_digits-append : (k : ℕ) (s g r : Text) → take_digits k s ≡ some (g, r) → s ≡ g ++ r
unfolding take_digits
take_digits-append zero s g r h = ground arith
take_digits-append (suc k) [] g r h = cc
take_digits-append (suc k) (c ∷ s) g r h = elim (Bool-cases (is_digit c)) [
  | inr other ↦ ground arith
  | inl digit ↦ elim (Option-cases (take_digits k s)) [
    | inl failed ↦ ground arith
    | inr ((g', r'), taken) ↦
        let made : Path (Option (Text × Text)) (some (c ∷ g', r')) (some (g, r)) = ground arith in
        let rest : s ≡ g' ++ r' = take_digits-append k s g' r' taken in
        let front : c ∷ g' ≡ g = cc in
        let back : r' ≡ r = cc in
        ap (λ t. c ∷ t) rest ∙ (ap (λ t. t ++ r') front ∙ ap (λ t. g ++ t) back)
  ]
]

digit_run-append : (s : Text) → s ≡ (digit_run s).0 ++ (digit_run s).1
unfolding digit_run
digit_run-append [] = refl
digit_run-append (c ∷ s) = ground (arith, digit_run-append s)

-- A group took the front of the text, and the rest of the pattern matched what was left.
abbrev Takes : Token → (Text → Option Groups) → Text → Groups → Type 0
Takes t rest s gs =
    (g : Text) × (r : Text) × (more : Groups) × (s ≡ g ++ r)
    × (rest r ≡ some more)
    × (gs ≡ (t, g) ∷ more)

add_group-Takes :
    (t : Token) (rest : Text → Option Groups) (s g r : Text) (gs : Groups)
    → s ≡ g ++ r
    → add_group t g (rest r) ≡ some gs
    → Takes t rest s gs
add_group-Takes t rest s g r gs cut h = elim (Option-cases (rest r)) [
  | inl failed ↦ ground arith
  | inr (more, matched) ↦
      let made : Path (Option Groups) (some ((t, g) ∷ more)) (some gs) = ground arith in
      (g, r, more, cut, matched, cc)
]

with_digits-Takes :
    (t : Token) (k : ℕ) (rest : Text → Option Groups) (s : Text) (gs : Groups)
    → with_digits t k rest s ≡ some gs
    → Takes t rest s gs
unfolding with_digits
with_digits-Takes t k rest s gs h = elim (Option-cases (take_digits k s)) [
  | inl failed ↦ ground arith
  | inr ((g, r), taken) ↦
      add_group-Takes t rest s g r gs (take_digits-append k s g r taken) (ground arith)
]

run-Takes :
    (rest : Text → Option Groups) (s run left : Text) (gs : Groups)
    → s ≡ run ++ left
    → (elim run [
      | [] ↦ none
      | c ∷ g ↦ if at_end left then add_group n (c ∷ g) (rest left) else none
    ])
      ≡ some gs
    → Takes n rest s gs
run-Takes rest s [] left gs cut h = cc
run-Takes rest s (c ∷ g) left gs cut h = add_group-Takes n rest s (c ∷ g) left gs cut (ground arith)

match_token-Takes :
    (t : Token) (rest : Text → Option Groups) (s : Text) (gs : Groups)
    → match_token t rest s ≡ some gs
    → Takes t rest s gs
unfolding match_token
match_token-Takes yyyy rest s gs h = elim (Option-cases (with_digits yyyy 2 rest s)) [
  | inl failed ↦ with_digits-Takes yyyy 4 rest s gs (ground arith)
  | inr (more, two) ↦ with_digits-Takes yyyy 2 rest s gs (ground arith)
]
match_token-Takes yy rest s gs h = with_digits-Takes yy 2 rest s gs h
match_token-Takes mm rest s gs h = with_digits-Takes mm 2 rest s gs h
match_token-Takes dd rest s gs h = with_digits-Takes dd 2 rest s gs h
match_token-Takes q rest [] gs h = cc
match_token-Takes q rest (c ∷ s) gs h =
    add_group-Takes q rest (c ∷ s) (c ∷ []) s gs refl (ground arith)
match_token-Takes n rest s gs h =
    run-Takes rest s (digit_run s).0 (digit_run s).1 gs (digit_run-append s) h

group_value-here : (t : Token) (g : Text) (gs : Groups) → group_value t ((t, g) ∷ gs) ≡ ok g
unfolding group_value
group_value-here t g gs = ground arith

group_value-later :
    (s t : Token) (g : Text) (gs : Groups)
    → same_token s t ≡ false
    → group_value s ((t, g) ∷ gs) ≡ group_value s gs
unfolding group_value
group_value-later s t g gs h = ground arith

reconstruct-later :
    (ps : List Piece) (t : Token) (g : Text) (gs : Groups)
    → has_token t ps ≡ false
    → reconstruct ps ((t, g) ∷ gs) ≡ reconstruct ps gs
unfolding reconstruct has_token
reconstruct-later [] t g gs h = refl
reconstruct-later (literal c ∷ ps) t g gs h = rw (reconstruct-later ps t g gs h) refl
reconstruct-later (group s ∷ ps) t g gs h =
    rw (group_value-later s t g gs (ground arith), reconstruct-later ps t g gs (ground arith)) refl

match_pieces-Spells :
    (ps : List Piece) (s : Text) (gs : Groups)
    → distinct ps ≡ true
    → match_pieces ps s ≡ some gs
    → Spells ps gs s
unfolding match_pieces reconstruct distinct
match_pieces-Spells [] s gs d h = ([], s, refl, refl, ground arith)
match_pieces-Spells (literal c ∷ ps) [] gs d h = cc
match_pieces-Spells (literal c ∷ ps) (x ∷ s) gs d h =
    let (t, end, spelled, cut, ends) = match_pieces-Spells ps s gs d (ground arith) in
    let same : c ≡ x = ground arith in
    (c ∷ t, end, rw spelled refl, ap (λ y. y ∷ s) (sym same) ∙ ap (λ y. c ∷ y) cut, ends)
match_pieces-Spells (group t ∷ ps) s gs d h =
    let (g, r, more, cut, matched, made) = match_token-Takes t (match_pieces ps) s gs h in
    let (u, end, spelled, cut', ends) = match_pieces-Spells ps r more (ground arith) matched in
    let spelled_all : reconstruct (group t ∷ ps) ((t, g) ∷ more) ≡ ok (g ++ u) =
      rw (group_value-here t g more, reconstruct-later ps t g more (ground arith), spelled) refl in
    (
      g ++ u,
      end,
      ap (reconstruct (group t ∷ ps)) made ∙ spelled_all,
      cut ∙ (ap (λ y. g ++ y) cut' ∙ sym (append_assoc g u end)),
      ends,
    )

-- An identifier that matches a pattern is put together again, by the pattern, from the groups that
-- were matched: the text that is rebuilt is the identifier, less a final line feed that it may have.
pub reconstruct-match_pieces :
    (pattern s : Text) (ps : List Piece) (gs : Groups)
    → pattern_to_regex pattern ≡ ok ps
    → match_pieces ps s ≡ some gs
    → (t : Text) × (end : Text) × (reconstruct ps gs ≡ ok t) × (s ≡ t ++ end) × (at_end end ≡ true)
unfolding pattern_to_regex
reconstruct-match_pieces [] s ps gs h m = cc
reconstruct-match_pieces (c ∷ pattern) s ps gs h m =
    elim (Bool-cases (distinct (pieces 0 (c ∷ pattern)))) [
      | inl once ↦
          let made : Path (Result ReleaseError (List Piece)) (ok (pieces 0 (c ∷ pattern))) (ok ps) =
            ground arith in
          match_pieces-Spells ps s gs (ap distinct (sym (ok-injective made)) ∙ once) m
      | inr twice ↦ ground arith
    ]

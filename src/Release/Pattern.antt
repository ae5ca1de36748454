-- ===== src/Release/Pattern.antt =====
-- `pattern_to_regex` and `_reconstruct_identifier_from_groups` of
-- cumulusci/utils/release_branch.py, and what the compiled expression matches. A pattern is a list
-- of pieces: a token, which is a named group, or a character. `$` also matches before a final line
-- feed, as in Python's re. `\d` is read as the ASCII digits.
use cumulus_ci.Prelude.{
  ℕ, zero, suc, ◌-◌, Option, none, some, List, [], ◌∷◌, ◌++◌, Bool, true, false, not, ◌&&◌, ◌||◌,
  nat_eq, leb, if◌then◌else◌, Result, ok, err, ◌>>=◌,
}
use cumulus_ci.Prelude.Text.{Text, text_eq, strip, is_digit, codes, at_end}
pub mod Groups

pub data ReleaseError : Type 0 where
  value_error : ReleaseError
  regex_error : ReleaseError
  key_error : ReleaseError

pub data Token : Type 0 where
  yyyy : Token
  yy : Token
  mm : Token
  dd : Token
  q : Token
  n : Token

abbrev pub index : Token → ℕ
index yyyy = 0
index yy = 1
index mm = 2
index dd = 3
index q = 4
index n = 5

abbrev pub same_token : Token → Token → Bool
same_token s t = nat_eq (index s) (index t)

abbrev pub width : Token → ℕ
width yyyy = 4
width yy = 2
width mm = 2
width dd = 2
width q = 1
width n = 1

pub data Piece : Type 0 where
  group : Token → Piece
  literal : ℕ → Piece

unfoldable pub begins : Text → Text → Bool
unfolding strip
begins p s = elim (strip p s) [ none ↦ false | some rest ↦ true ]

-- The token at the front of what is left of the pattern: the longest is tried first, and "n" only
-- counts at the end.
unfoldable pub token_at : Text → Option Token
unfolding begins text_eq
token_at s =
    if begins (codes "yyyy") s
    then some yyyy
    else if begins (codes "yy") s
    then some yy
    else if begins (codes "mm") s
    then some mm
    else if begins (codes "dd") s
    then some dd
    else if begins (codes "q") s
    then some q
    else if text_eq s (codes "n")
    then some n
    else none

-- The loop over the pattern. The number is how many characters of a token are still to pass.
unfoldable pub pieces : ℕ → Text → List Piece
unfolding token_at
pieces skip [] = []
pieces (suc skip) (c ∷ s) = pieces skip s
pieces zero (c ∷ s) =
    let after = pieces 0 s in
    elim (token_at (c ∷ s)) [ none ↦ literal c ∷ after | some t ↦ group t ∷ pieces (width t - 1) s ]

unfoldable pub has_token : Token → List Piece → Bool
has_token t [] = false
has_token t (literal c ∷ ps) = has_token t ps
has_token t (group s ∷ ps) = same_token s t || has_token t ps

-- re.compile refuses a group name that is there twice.
unfoldable pub distinct : List Piece → Bool
unfolding has_token
distinct [] = true
distinct (literal c ∷ ps) = distinct ps
distinct (group t ∷ ps) = not (has_token t ps) && distinct ps

unfoldable pub pattern_to_regex : Text → Result ReleaseError (List Piece)
unfolding pieces distinct
pattern_to_regex [] = err value_error
pattern_to_regex (c ∷ s) =
    if distinct (pieces 0 (c ∷ s)) then ok (pieces 0 (c ∷ s)) else err regex_error

-- What the named groups matched, in the order of the pattern.
abbrev pub Groups : Type 0
Groups = List (Token × Text)

unfoldable pub take_digits : ℕ → Text → Option (Text × Text)
take_digits zero s = some ([], s)
take_digits (suc k) [] = none
take_digits (suc k) (c ∷ s) =
    let rest = take_digits k s in
    if is_digit c then (elim rest [ none ↦ none | some (g, r) ↦ some (c ∷ g, r) ]) else none

-- All the digits at the front.
unfoldable pub digit_run : Text → Text × Text
digit_run [] = ([], [])
digit_run (c ∷ s) = let run = digit_run s in if is_digit c then (c ∷ run.0, run.1) else ([], c ∷ s)

abbrev pub add_group : Token → Text → Option Groups → Option Groups
add_group t g none = none
add_group t g (some gs) = some ((t, g) ∷ gs)

abbrev pub first_of : Option Groups → Option Groups → Option Groups
first_of (some gs) other = some gs
first_of none other = other

unfoldable pub with_digits : Token → ℕ → (Text → Option Groups) → Text → Option Groups
unfolding take_digits
with_digits t k rest s = elim (take_digits k s) [
  | none ↦ none
  | some (g, r) ↦ add_group t g (rest r)
]

-- One group, and then the rest of the pattern.
unfoldable pub match_token : Token → (Text → Option Groups) → Text → Option Groups
unfolding with_digits digit_run at_end
match_token yyyy rest s = first_of (with_digits yyyy 2 rest s) (with_digits yyyy 4 rest s)
match_token yy rest s = with_digits yy 2 rest s
match_token mm rest s = with_digits mm 2 rest s
match_token dd rest s = with_digits dd 2 rest s
match_token q rest [] = none
match_token q rest (c ∷ s) = if leb 49 c && leb c 52 then add_group q (c ∷ []) (rest s) else none
match_token n rest s =
    let run = digit_run s in
    elim run.0 [
      | [] ↦ none
      | c ∷ g ↦ if at_end run.1 then add_group n (c ∷ g) (rest run.1) else none
    ]

-- regex.match
unfoldable pub match_pieces : List Piece → Text → Option Groups
unfolding match_token at_end
match_pieces [] s = if at_end s then some [] else none
match_pieces (literal c ∷ ps) [] = none
match_pieces (literal c ∷ ps) (d ∷ s) =
    let rest = match_pieces ps s in if nat_eq c d then rest else none
match_pieces (group t ∷ ps) s = match_token t (match_pieces ps) s

-- group_values[token]
unfoldable pub group_value : Token → Groups → Result ReleaseError Text
group_value t [] = err key_error
group_value t ((s, g) ∷ gs) = let rest = group_value t gs in if same_token s t then ok g else rest

-- `_reconstruct_identifier_from_groups`, over the same pieces
unfoldable pub reconstruct : List Piece → Groups → Result ReleaseError Text
unfolding group_value
reconstruct [] gs = ok []
reconstruct (literal c ∷ ps) gs = do rest ← reconstruct ps gs; ok (c ∷ rest)
reconstruct (group t ∷ ps) gs = do g ← group_value t gs; rest ← reconstruct ps gs; ok (g ++ rest)

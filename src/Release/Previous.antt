-- ===== src/Release/Previous.antt =====
-- `get_previous_identifier` of cumulusci/utils/release_branch.py, and the decrement with carry of the
-- groups of a date. The numbers in a date are never negative: a group at its lower bound goes to
-- its upper one. `int` is read on ASCII digits, and any other text counts as an error.
use cumulus_ci.Prelude.{
  ℕ, zero, suc, ◌+◌, ◌-◌, ◌*◌, Option, none, some, List, [], ◌∷◌, ◌++◌, Bool, true, false, not,
  ◌&&◌, leb, ltb, if◌then◌else◌, Result, ok, err, ◌>>=◌, length,
}
use cumulus_ci.Prelude.Text.{Text, strip, isdigit, codes}
use cumulus_ci.Prelude.Text.Decimal.{int, str}
use cumulus_ci.Release.Pattern.{
  ReleaseError, value_error, Token, yyyy, yy, mm, dd, q, n, same_token, Piece, has_token, Groups,
  pattern_to_regex, match_pieces, reconstruct,
}
use cumulus_ci.Release.Identifier.{ReleaseBranchFormat, FormatType, sequential, date, unknown}
pub mod Values
pub mod Carry
pub mod InRange
pub mod Sequence

-- str(v - count), which may be negative
unfoldable pub str_minus : ℕ → ℕ → Text
unfolding str
str_minus v count = if leb count v then str (v - count) else codes "-" ++ str (count - v)

-- The bounds of _PATTERN_TOKENS, with those of the sprints where their number is given.
unfoldable pub bounds : ℕ → Token → ℕ × ℕ
bounds max_sprints yyyy = (0, 99)
bounds max_sprints yy = (0, 9999)
bounds max_sprints mm = (1, 12)
bounds max_sprints dd = (1, 31)
bounds max_sprints q = (1, 4)
bounds max_sprints n = if ltb 0 max_sprints then (1, max_sprints) else (0, 9999)

-- _GROUP_ORDER_REVERSE: the finest first
abbrev pub group_order_reverse : List Token
group_order_reverse = n ∷ q ∷ dd ∷ mm ∷ yy ∷ yyyy ∷ []

abbrev pub GroupValues : Type 0
GroupValues = List (Token × ℕ)

unfoldable pub value_in : Token → GroupValues → Option ℕ
value_in t [] = none
value_in t ((s, v) ∷ vs) = let rest = value_in t vs in if same_token s t then some v else rest

unfoldable pub set_value : Token → ℕ → GroupValues → GroupValues
set_value t w [] = []
set_value t w ((s, v) ∷ vs) =
    let rest = set_value t w vs in if same_token s t then (s, w) ∷ vs else (s, v) ∷ rest

-- The loop over the groups: it stops where nothing is carried.
unfoldable pub borrow : (Token → ℕ × ℕ) → List Token → GroupValues → GroupValues
unfolding value_in set_value
borrow limits [] vs = vs
borrow limits (t ∷ ts) vs =
    let wrapped = borrow limits ts (set_value t (limits t).1 vs) in
    let passed = borrow limits ts vs in
    elim (value_in t vs) [
      | none ↦ passed
      | some v ↦ if leb v (limits t).0 then wrapped else set_value t (v - 1) vs
    ]

abbrev pub int_groups : Groups → GroupValues
int_groups [] = []
int_groups ((t, g) ∷ gs) = (t, int g) ∷ int_groups gs

-- f"{v:0{w}d}"
abbrev pub zeros : ℕ → Text
zeros zero = []
zeros (suc k) = 48 ∷ zeros k

unfoldable pub pad : ℕ → ℕ → Text
unfolding str
pad w v = zeros (w - length (str v)) ++ str v

unfoldable pub print_value : Token → ℕ → Text
unfolding pad str
print_value yyyy v = pad 4 v
print_value yy v = pad 2 v
print_value mm v = pad 2 v
print_value dd v = pad 2 v
print_value q v = str v
print_value n v = str v

abbrev pub print_values : GroupValues → Groups
print_values [] = []
print_values ((t, v) ∷ vs) = (t, print_value t v) ∷ print_values vs

-- The groups with their new values, as texts.
unfoldable pub previous_groups : Groups → ℕ → Groups
unfolding borrow bounds print_value
previous_groups gs max_sprints =
    print_values (borrow (bounds max_sprints) group_order_reverse (int_groups gs))

unfoldable pub previous_decrement_with_carry : Groups → List Piece → ℕ → Result ReleaseError Text
unfolding previous_groups reconstruct
previous_decrement_with_carry gs ps max_sprints = reconstruct ps (previous_groups gs max_sprints)

-- `"q" in pattern`
unfoldable pub has_letter_q : Text → Bool
has_letter_q [] = false
has_letter_q (c ∷ s) = let rest = has_letter_q s in if leb c 113 && leb 113 c then true else rest

-- `_previous_date_identifier`: its argument `n` is not used
unfoldable pub previous_date_identifier : Text → ℕ → ReleaseBranchFormat → Result ReleaseError Text
unfolding pattern_to_regex match_pieces previous_decrement_with_carry has_letter_q
previous_date_identifier identifier count format =
    let pattern : Text = elim format.pattern [ none ↦ [] | some p ↦ p ] in
    pattern_to_regex pattern >>= λ ps. elim (match_pieces ps identifier) [
      | none ↦ err value_error
      | some gs ↦
          previous_decrement_with_carry gs ps
            (if has_letter_q pattern then format.max_sprints_per_quarter else 0)
    ]

-- str(int(identifier) - n)
unfoldable pub previous_number : Text → ℕ → Result ReleaseError Text
unfolding isdigit str_minus
previous_number identifier count =
    if isdigit identifier then ok (str_minus (int identifier) count) else err value_error

-- A format's prefix that is not empty has to be there.
unfoldable pub previous_sequential : Text → Text → ℕ → Result ReleaseError Text
unfolding previous_number strip
previous_sequential prefix identifier count = elim (strip prefix identifier) [
  | none ↦ err value_error
  | some suffix ↦ previous_number suffix count >>= λ number. ok (prefix ++ number)
]

unfoldable pub previous_of_type :
    FormatType → Text → ℕ → ReleaseBranchFormat → Result ReleaseError Text
unfolding previous_sequential previous_date_identifier
previous_of_type sequential identifier count format =
    previous_sequential format.prefix identifier count
previous_of_type date identifier count format = elim format.pattern [
  | none ↦ err value_error
  | some [] ↦ err value_error
  | some (c ∷ pattern) ↦ previous_date_identifier identifier count format
]
previous_of_type unknown identifier count format = err value_error

unfoldable pub get_previous_identifier :
    Text → ℕ → Option ReleaseBranchFormat → Result ReleaseError Text
unfolding previous_number previous_of_type
get_previous_identifier identifier zero format = ok identifier
get_previous_identifier identifier (suc count) none = previous_number identifier (suc count)
get_previous_identifier identifier (suc count) (some format) =
    previous_of_type format.type identifier (suc count) format

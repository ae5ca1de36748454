-- ===== src/Release/Tests.antt =====
-- Names of branches and dates, for the theorems on releases.
use cumulus_ci.Prelude.{
  suc, ◌<◌, ◌≡◌, refl, none, some, List, [], ◌∷◌, ◌++◌, true, ok, err, ◌>>=◌, arith,
}
use cumulus_ci.Prelude.Text.{Text, lacks, at_end, codes, strip}
use cumulus_ci.Prelude.Text.Decimal.{value, str}
use cumulus_ci.Prelude.Text.Split.{split, join}
use cumulus_ci.Release.Pattern.{
  value_error, yy, q, n, Piece, group, literal, pattern_to_regex, Groups, match_pieces, reconstruct,
}
use cumulus_ci.Release.Pattern.Groups.{reconstruct-match_pieces}
use cumulus_ci.Release.Identifier.{
  ReleaseBranchFormat, date, is_valid_date, is_valid_release_identifier,
}
use cumulus_ci.Release.Branch.{
  is_release_branch_or_child, get_release_identifier, construct_release_branch_name,
  get_parent_branch_candidates,
}
use cumulus_ci.Release.Branch.Parents.{map, shorter, get_parent_branch_candidates-shorter}
use cumulus_ci.Release.Branch.Construct.{tail, full_identifier, get_release_identifier-construct}
use cumulus_ci.Release.Previous.{previous_groups, get_previous_identifier}
use cumulus_ci.Release.Previous.Carry.{groups_number, previous_groups-number}
use cumulus_ci.Release.Previous.InRange.{previous_groups-is_valid_date}
use cumulus_ci.Release.Previous.Sequence.{numbered, get_previous_identifier-twice}
use cumulus_ci.Release.Naming.{GitConfig, get_release_branch_prefix_and_format_config}
use cumulus_ci.Release.Hosted.{release_error, Naming, Remote, find_branches, get_branches}
use cumulus_ci.Release.Hosted.Parents.{get_branches-current}
use cumulus_ci.Release.Hosted.Offsets.{get_branches-lost_prefix}

abbrev sprints_format : ReleaseBranchFormat
sprints_format = record {
  type = date;
  prefix = codes "FY";
  pattern = some (codes "yyQqSn");
  max_sprints_per_quarter = 4;
}

abbrev sprint_pieces : List Piece
sprint_pieces = group yy ∷ literal 81 ∷ group q ∷ literal 83 ∷ group n ∷ []

sprint_pieces_test : pattern_to_regex (codes "yyQqSn") ≡ ok sprint_pieces
unfolding pattern_to_regex
sprint_pieces_test = refl

abbrev sprint : Groups
sprint = (yy, codes "26") ∷ (q, codes "1") ∷ (n, codes "1") ∷ []

match_test : match_pieces sprint_pieces (codes "26Q1S1") ≡ some sprint
unfolding match_pieces
match_test = refl

previous_test :
    get_previous_identifier (codes "26Q1S1") 1 (some sprints_format) ≡ ok (codes "25Q4S4")
unfolding get_previous_identifier value
previous_test = refl

no_prefix_test : get_previous_identifier (codes "0007") 8 none ≡ ok (codes "-1")
unfolding get_previous_identifier value
no_prefix_test = refl

abbrev child_name : Text
child_name = codes "feature/FY26Q1S1__story__task"

valid_test :
    is_release_branch_or_child child_name (codes "feature/") (some sprints_format) ≡ ok true
unfolding is_release_branch_or_child value
valid_test = refl

strip_test : strip (codes "feature/") child_name ≡ some (codes "FY26Q1S1__story__task")
unfolding strip
strip_test = refl

parents_test :
    get_parent_branch_candidates child_name (codes "feature/") (some sprints_format)
    ≡ ok (codes "feature/FY26Q1S1__story" ∷ codes "feature/FY26Q1S1" ∷ [])
unfolding get_parent_branch_candidates value
parents_test = refl

get_parent_branch_candidates-shorter_example :
    get_parent_branch_candidates child_name (codes "feature/") (some sprints_format)
    ≡ ok (
        map
          (λ parts. codes "feature/" ++ join (split (codes "FY26Q1S1__story__task")).0 parts)
          (shorter (split (codes "FY26Q1S1__story__task")).1))
get_parent_branch_candidates-shorter_example =
    get_parent_branch_candidates-shorter child_name (codes "feature/")
      (codes "FY26Q1S1__story__task") (some sprints_format) strip_test valid_test

full_identifier_test :
    is_valid_release_identifier
      (full_identifier (codes "26Q1S1") (some sprints_format))
      (some sprints_format)
    ≡ ok true
unfolding construct_release_branch_name is_valid_release_identifier value
full_identifier_test = refl

plain_test : lacks 95 (full_identifier (codes "26Q1S1") (some sprints_format)) ≡ true
unfolding lacks construct_release_branch_name
plain_test = refl

get_release_identifier-construct_example :
    get_release_identifier
      (construct_release_branch_name (codes "feature/") (codes "26Q1S1") (some sprints_format)
        ++ tail (some (codes "story")))
      (codes "feature/")
      (some sprints_format)
    ≡ ok (some (codes "26Q1S1"))
get_release_identifier-construct_example =
    get_release_identifier-construct (codes "feature/") (codes "26Q1S1") (some sprints_format)
      (some (codes "story")) full_identifier_test plain_test

reconstruct-match_pieces_example :
    (t : Text) × (end : Text) × (reconstruct sprint_pieces sprint ≡ ok t)
    × (codes "26Q1S1" ≡ t ++ end)
    × (at_end end ≡ true)
reconstruct-match_pieces_example =
    reconstruct-match_pieces (codes "yyQqSn") (codes "26Q1S1") sprint_pieces sprint
      sprint_pieces_test match_test

number_test : 0 < groups_number 4 sprint
unfolding groups_number value
number_test = omega arith

previous_groups-number_example :
    suc (groups_number 4 (previous_groups sprint 4)) ≡ groups_number 4 sprint
previous_groups-number_example = previous_groups-number 4 sprint number_test

date_test : is_valid_date sprint ≡ true
unfolding is_valid_date value
date_test = refl

previous_groups-is_valid_date_example : is_valid_date (previous_groups sprint 4) ≡ true
previous_groups-is_valid_date_example = previous_groups-is_valid_date sprint 4 date_test

get_previous_identifier-twice_example :
    ((get_previous_identifier (codes "rel-" ++ str 232) 2 (some (numbered (codes "rel-") none 0))
        >>= λ identifier.
            get_previous_identifier identifier 30 (some (numbered (codes "rel-") none 0)))
      ≡ get_previous_identifier
          (codes "rel-" ++ str 232)
          32
          (some (numbered (codes "rel-") none 0)))
    × (get_previous_identifier (codes "rel-" ++ str 232) 32 (some (numbered (codes "rel-") none 0))
        ≡ ok (codes "rel-" ++ str 200))
get_previous_identifier-twice_example =
    get_previous_identifier-twice (codes "rel-") none 0 232 2 30 (omega arith)

read_test :
    get_release_identifier
      (codes "feature/rel-232")
      (codes "feature/")
      (some (numbered (codes "rel-") none 0))
    ≡ ok (some (codes "232"))
unfolding get_release_identifier
read_test = refl

abbrev git : GitConfig
git = record {
  format_type = some (codes "date");
  format_prefix = some (codes "FY");
  format_pattern = some (codes "yyQqSn");
  format_max_sprints = 4;
  prefix_feature = some [];
  prefix_release = none;
}

naming_test :
    get_release_branch_prefix_and_format_config git (some child_name)
    ≡ (codes "feature/", some sprints_format)
unfolding get_release_branch_prefix_and_format_config
naming_test = refl

-- A repository where every branch is there and names its releases in one way.
abbrev host : Naming → Remote Text
host naming = record {
  branch = λ name. ok (some name);
  remote_format = λ name. some naming;
  default_branch = codes "main";
}

read_child_test :
    get_release_identifier child_name (codes "feature/") (some sprints_format)
    ≡ ok (some (codes "26Q1S1"))
unfolding get_release_identifier value
read_child_test = refl

split_test :
    split (codes "FY26Q1S1__story__task") ≡ (codes "FY26Q1S1", codes "story" ∷ codes "task" ∷ [])
unfolding split
split_test = refl

get_branches-current_example :
    get_branches
      (record { repo_branch = some child_name; naming = (codes "feature/", some sprints_format) })
      (host (codes "feature/", some sprints_format))
      0
      1
    ≡ find_branches (host (codes "feature/", some sprints_format)) (
        map
          (λ ps. codes "feature/" ++ join (codes "FY26Q1S1") ps)
          (shorter (codes "story" ∷ codes "task" ∷ [])))
get_branches-current_example =
    get_branches-current (host (codes "feature/", some sprints_format)) 102 50
      (codes "eature/FY26Q1S1__story__task") (codes "feature/") (codes "FY26Q1S1__story__task")
      (codes "FY26Q1S1") (codes "story") (codes "6Q1S1") (codes "task" ∷ []) (some sprints_format)
      strip_test split_test valid_test read_child_test λ b. refl

abbrev rel_format : ReleaseBranchFormat
rel_format = numbered (codes "rel-") none 0

no_parents_test :
    get_parent_branch_candidates (codes "feature/rel-232") (codes "feature/") (some rel_format)
    ≡ ok []
unfolding get_parent_branch_candidates
no_parents_test = refl

get_branches-lost_prefix_example :
    get_branches
      (record {
        repo_branch = some (codes "feature/rel-232");
        naming = (codes "feature/", some rel_format);
      })
      (host (codes "feature/", some rel_format))
      1
      2
    ≡ err (release_error value_error)
get_branches-lost_prefix_example =
    get_branches-lost_prefix (host (codes "feature/", some rel_format)) (λ b. (some b, refl)) 102 50
      114 0 1 0 (codes "eature/rel-232") (codes "32") (codes "feature/") (codes "el-") none [] refl
      read_test no_parents_test λ b. refl

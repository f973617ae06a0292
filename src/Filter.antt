-- ===== src/Filter.antt =====
-- The filters: src/boss_sync.rs, `compile_filters`, and src/doer.rs, `apply_filters`.
pub mod Last
use rjrssync.Common.{
  ℕ, suc, Bool, true, false, Option, none, some, List, [], ◌∷◌, ◌++◌, Str, codes, Outcome, ok, err,
  panic, ◌>>=◌, if◌then◌else◌, get_elem?, ◌==◌, nat_eq,
}
use rjrssync.Comms.{SyncError, invalid_filter, bad_pattern}
use rjrssync.Interface.{Filters, FilterKind}
use rjrssync.Path.{RootRelativePath, is_root}

-- The `regex` crate: whether a set of patterns compiles, with its message where it does not, and
-- whether a pattern matches a text.
pub record RegexCrate : Type 0 where
  pub compile_error : List Str → Option Str
  pub is_match : Str → Str → Bool

pub data FilterResult : Type 0 where
  include exclude : FilterResult

-- The match on the first character, and the pattern behind it, wrapped.
unfoldable pub filter_kind : Str → Outcome SyncError FilterKind
filter_kind [] = err (invalid_filter [])
filter_kind (c ∷ f) =
    if c == b'+'
    then ok FilterKind.include
    else if c == b'-'
    then ok FilterKind.exclude
    else err (invalid_filter (c ∷ f))

abbrev pub wrap : Str → Str
wrap [] = codes "^$"
wrap (_ ∷ pattern) = codes "^" ++ pattern ++ codes "$"

-- The loop: the patterns and kinds so far.
unfoldable pub read_filters :
    List Str → List Str → List FilterKind → Outcome SyncError (List Str × List FilterKind)
unfolding filter_kind
read_filters [] patterns kinds = ok (patterns, kinds)
read_filters (f ∷ fs) patterns kinds = do
  kind ← filter_kind f
  read_filters fs (patterns ++ wrap f ∷ []) (kinds ++ kind ∷ [])

abbrev pub of_kind : FilterKind → FilterResult
of_kind FilterKind.include = include
of_kind FilterKind.exclude = exclude

abbrev pub default_result : List FilterKind → FilterResult
default_result [] = include
default_result (FilterKind.include ∷ _) = exclude
default_result (FilterKind.exclude ∷ _) = include

-- The loop over the matches. An index past the kinds panics.
unfoldable pub apply_matches :
    List FilterKind → List ℕ → FilterResult → Outcome SyncError FilterResult
apply_matches kinds [] result = ok result
apply_matches kinds (i ∷ is) result = elim (get_elem? kinds i) [
  | none ↦ panic
  | some kind ↦ apply_matches kinds is (of_kind kind)
]

module _ (crate : RegexCrate) where
  unfoldable pub compile_filters : List Str → Outcome SyncError Filters
  unfolding read_filters
  compile_filters filters = do
    (patterns, kinds) ← read_filters filters [] []
    elim (crate.compile_error patterns) [
      | none ↦ ok (record { regex_set = patterns; kinds = kinds })
      | some message ↦ err (bad_pattern message)
    ]

  -- `RegexSet::matches`: the indices of the patterns that match, in ascending order.
  unfoldable pub matches_from : ℕ → List Str → Str → List ℕ
  matches_from i [] text = []
  matches_from i (p ∷ ps) text =
      let rest = matches_from (suc i) ps text in if crate.is_match p text then i ∷ rest else rest

  unfoldable pub regex_set_matches : RootRelativePath → List Str → List ℕ
  unfolding matches_from
  regex_set_matches path patterns = matches_from 0 patterns path.inner

  unfoldable pub apply_filters : RootRelativePath → Filters → Outcome SyncError FilterResult
  unfolding apply_matches regex_set_matches
  apply_filters path filters =
      if is_root path
      then ok include
      else apply_matches filters.kinds (regex_set_matches path filters.regex_set)
          (default_result filters.kinds)

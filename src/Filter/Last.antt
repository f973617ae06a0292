-- ===== src/Filter/Last.antt =====
-- The filters of the user, compiled by the boss and applied by a doer: the last one that matches
-- decides.
use rjrssync.Common.{
  suc, some, Option-cases, inl, inr, List, [], ◌∷◌, ◌++◌, append_assoc, append-nil, Str, ok,
  >>=-eq-ok, if◌then◌else◌, get_elem?, length, length-append, ◌==◌, nat_eq, ◌≡◌, refl, sym, arith,
  ◌∙◌,
}
use rjrssync.Interface.{Filters, FilterKind}
use rjrssync.Path.{RootRelativePath, is_root}
use rjrssync.Filter.{
  RegexCrate, FilterResult, include, exclude, filter_kind, wrap, read_filters, compile_filters,
  matches_from, regex_set_matches, of_kind, default_result, apply_matches, apply_filters,
}

-- What a filter of the user says of what it matches.
abbrev pub says : Str → FilterResult
says [] = include
says (c ∷ _) = if c == b'+' then include else exclude

abbrev opposite : FilterResult → FilterResult
opposite include = exclude
opposite exclude = include

abbrev by_default : List Str → FilterResult
by_default [] = include
by_default (f ∷ _) = opposite (says f)

-- The pattern of a filter: the text behind its sign, between `^` and `$`.
abbrev pub anchored : Str → Str
anchored [] = b'^' ∷ b'$' ∷ []
anchored (_ ∷ pattern) = b'^' ∷ (pattern ++ b'$' ∷ [])

module _ (crate : RegexCrate) where
  -- The last filter that matches decides.
  pub last_match : List Str → Str → FilterResult → FilterResult
  last_match [] text result = result
  last_match (f ∷ fs) text result =
      let matched = last_match fs text (says f) in
      let unmatched = last_match fs text result in
      if crate.is_match (anchored f) text then matched else unmatched

  -- `include` for the root, and by the filters otherwise.
  abbrev pub selected : List Str → RootRelativePath → FilterResult
  selected filters path =
      if is_root path then include else last_match filters path.inner (by_default filters)

  -- The compiled form of each filter, in order.
  abbrev Compiled : List Str → List Str → List FilterKind → Type 0
  Compiled [] patterns kinds = (patterns ≡ []) × (kinds ≡ [])
  Compiled (f ∷ fs) [] kinds = ⊥
  Compiled (f ∷ fs) (p ∷ ps) [] = ⊥
  Compiled (f ∷ fs) (p ∷ ps) (k ∷ ks) = (p ≡ anchored f) × (of_kind k ≡ says f) × Compiled fs ps ks

  default_result-by_default :
      (fs patterns : List Str) (kinds : List FilterKind)
      → Compiled fs patterns kinds
      → default_result kinds ≡ by_default fs
  default_result-by_default [] patterns kinds (_, e) = rw e refl
  default_result-by_default (f ∷ fs) [] kinds c = absurd c
  default_result-by_default (f ∷ fs) (p ∷ ps) [] c = absurd c
  default_result-by_default (f ∷ fs) (p ∷ ps) (FilterKind.include ∷ ks) (_, e, _) = rw (sym e) refl
  default_result-by_default (f ∷ fs) (p ∷ ps) (FilterKind.exclude ∷ ks) (_, e, _) = rw (sym e) refl

  wrap-anchored : (f : Str) → wrap f ≡ anchored f
  wrap-anchored [] = refl
  wrap-anchored (c ∷ f) = refl

  filter_kind-says : (f : Str) (k : FilterKind) → filter_kind f ≡ ok k → of_kind k ≡ says f
  unfolding filter_kind
  filter_kind-says [] k h = cc
  filter_kind-says (c ∷ f) k h = ground arith

  read_filters-Compiled :
      (fs patterns ps : List Str) (kinds ks : List FilterKind)
      → read_filters fs patterns kinds ≡ ok (ps, ks)
      → (new_patterns : List Str) × (new_kinds : List FilterKind) × (ps ≡ patterns ++ new_patterns)
        × (ks ≡ kinds ++ new_kinds)
        × Compiled fs new_patterns new_kinds
  unfolding read_filters
  read_filters-Compiled [] patterns ps kinds ks h =
      ([], [], rw append-nil (ground arith), rw append-nil (ground arith), (refl, refl))
  read_filters-Compiled (f ∷ fs) patterns ps kinds ks h =
      let (k, is_k, rest) = >>=-eq-ok (filter_kind f) _ h in
      let (new_patterns, new_kinds, p, q, c) =
        read_filters-Compiled fs (patterns ++ wrap f ∷ []) ps (kinds ++ k ∷ []) ks rest in
      (
        wrap f ∷ new_patterns,
        k ∷ new_kinds,
        p ∙ append_assoc patterns (wrap f ∷ []) new_patterns,
        q ∙ append_assoc kinds (k ∷ []) new_kinds,
        (wrap-anchored f, filter_kind-says f k is_k, c),
      )

  get_elem?-append :
      (ks : List FilterKind) (k : FilterKind) (more : List FilterKind)
      → get_elem? (ks ++ k ∷ more) (length ks) ≡ some k
  get_elem?-append [] k more = refl
  get_elem?-append (j ∷ ks) k more = get_elem?-append ks k more

  length_snoc : (ks : List FilterKind) (k : FilterKind) → length (ks ++ k ∷ []) ≡ suc (length ks)
  length_snoc ks k = omega (arith, length-append ks (k ∷ []))

  apply_matches-last_match :
      (before : List FilterKind) (fs patterns : List Str) (kinds : List FilterKind) (text : Str)
      (result : FilterResult)
      → Compiled fs patterns kinds
      → apply_matches (before ++ kinds) (matches_from crate (length before) patterns text) result
        ≡ ok (last_match fs text result)
  unfolding apply_matches matches_from last_match
  apply_matches-last_match before [] patterns kinds text result (e, _) = rw e refl
  apply_matches-last_match before (f ∷ fs) [] kinds text result c = absurd c
  apply_matches-last_match before (f ∷ fs) (p ∷ ps) [] text result c = absurd c
  apply_matches-last_match before (f ∷ fs) (p ∷ ps) (k ∷ ks) text result (e, s, c) =
      let rest : (r : FilterResult)
          → apply_matches (before ++ k ∷ ks) (matches_from crate (suc (length before)) ps text) r
            ≡ ok (last_match fs text r) =
        λ r.
          rw (append_assoc before (k ∷ []) ks, length_snoc before k) at
            (apply_matches-last_match (before ++ k ∷ []) fs ps ks text r c) in
      ground (arith, rest (says f), rest result, get_elem?-append before k ks)

  -- Whatever the filters of the user, if `compile_filters` accepts them then `apply_filters` decides
  -- every path, without a panic: the root is included, the last filter that matches another path
  -- decides it, and a path that none matches gets the opposite of the first filter. A filter matches
  -- where its text between `^` and `$` does as a pattern, which is no match of the whole path if the
  -- text has an alternation.
  pub apply_filters-compile_filters :
      (filters : List Str) (compiled : Filters) (path : RootRelativePath)
      → compile_filters crate filters ≡ ok compiled
      → apply_filters crate path compiled ≡ ok (selected filters path)
  unfolding compile_filters apply_filters regex_set_matches
  apply_filters-compile_filters filters compiled path h =
      let ((patterns, kinds), read, compiles) = >>=-eq-ok (read_filters filters [] []) _ h in
      let (new_patterns, new_kinds, p, q, c) =
        read_filters-Compiled filters [] patterns [] kinds read in
      elim (Option-cases (crate.compile_error patterns)) [
        | inl fine ↦ ground (
          arith,
          apply_matches-last_match [] filters new_patterns new_kinds path.inner (by_default filters)
              c,
          default_result-by_default filters new_patterns new_kinds c,
        )
        | inr (message, bad) ↦ absurd (cc (rw bad at compiles))
      ]

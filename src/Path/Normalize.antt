-- ===== src/Path/Normalize.antt =====
-- The normalised form of a path loses nothing: its components can be read back.
use rjrssync.Common.{
  true, false, ◌||◌, Option, some, List, [], ◌∷◌, ◌++◌, Str, map, contains, nat_eq, ◌==◌,
  if◌then◌else◌, ok, err, ℕ, ◌⊎◌, ◌≡◌, refl, arith, append_assoc, append-nil, ◌∙◌, ap,
}
use rjrssync.Path.{
  RootRelativePath, slash, backslash, is_empty, to_platform_path, push_component, join_components,
  try_from, illegal_characters, replace,
}

-- The parts of a text between its forward slashes; `part` is what the current one has so far.
split_from : Str → Str → List Str
split_from part [] = part ∷ []
split_from part (c ∷ s) =
    let next = part ∷ split_from [] s in
    let more = split_from (part ++ (c ∷ [])) s in if c == slash then next else more

pub split : Str → List Str
unfolding split_from
split s = split_from [] s

-- The same with another separator.
split_on_from : ℕ → Str → Str → List Str
split_on_from sep part [] = part ∷ []
split_on_from sep part (c ∷ s) =
    let next = part ∷ split_on_from sep [] s in
    let more = split_on_from sep (part ++ (c ∷ [])) s in if c == sep then next else more

pub split_on : ℕ → Str → List Str
unfolding split_on_from
split_on sep s = split_on_from sep [] s

-- A component as the platform yields it: not empty, and with no slash of either kind.
abbrev pub IsPlain : Str → Type 0
IsPlain s = (is_empty s ≡ false) × (contains s slash ≡ false) × (contains s backslash ≡ false)

abbrev pub AllPlain : List Str → Type 0
AllPlain [] = Unit
AllPlain (c ∷ cs) = IsPlain c × AllPlain cs

-- The components, joined by forward slashes onto what is there.
abbrev joined : Str → List Str → Str
joined result [] = result
joined result (c ∷ cs) = joined (result ++ slash ∷ c) cs

is_empty-append : (s t : Str) → is_empty s ≡ false → is_empty (s ++ t) ≡ false
is_empty-append [] t h = cc
is_empty-append (c ∷ s) t h = refl

join_components_rest :
    (result : Str) (cs : List Str)
    → is_empty result ≡ false
    → AllPlain cs
    → join_components result (map some cs) ≡ ok (joined result cs)
unfolding join_components push_component
join_components_rest result [] h _ = refl
join_components_rest result (c ∷ cs) h ((_, slashes, backslashes), rest) =
    rw (slashes, backslashes, push_component)
      (ground (
        arith,
        join_components_rest (result ++ slash ∷ c) cs (is_empty-append result (slash ∷ c) h) rest,
        append_assoc result (slash ∷ []) c,
      ))

split_from-component :
    (part s rest : Str)
    → contains s slash ≡ false
    → split_from part (s ++ slash ∷ rest) ≡ (part ++ s) ∷ split_from [] rest
unfolding split_from
split_from-component part [] rest h = rw append-nil
split_from-component part (c ∷ s) rest h =
    ground (arith, split_from-component (part ++ (c ∷ [])) s rest, append_assoc part (c ∷ []) s)

split_from_last : (part s : Str) → contains s slash ≡ false → split_from part s ≡ (part ++ s) ∷ []
unfolding split_from
split_from_last part [] h = rw append-nil
split_from_last part (c ∷ s) h =
    ground (arith, split_from_last (part ++ (c ∷ [])) s, append_assoc part (c ∷ []) s)

joined-append : (s t : Str) (cs : List Str) → joined (s ++ t) cs ≡ s ++ joined t cs
joined-append s t [] = refl
joined-append s t (c ∷ cs) = rw append_assoc (joined-append s (t ++ slash ∷ c) cs)

split_from-joined :
    (cs : List Str) (c : Str) → IsPlain c → AllPlain cs → split_from [] (joined c cs) ≡ c ∷ cs
split_from-joined [] c plain _ = split_from_last [] c plain.1
split_from-joined (d ∷ cs) c plain (first, rest) =
    rw (joined-append c (slash ∷ d) cs, joined-append (slash ∷ []) d cs)
      (split_from-component [] c (joined d cs) plain.1
        ∙ ap (◌∷◌ c) (split_from-joined cs d first rest))

-- A relative path of plain components is accepted, and its components are the parts of the result
-- between the slashes.
pub split-try_from :
    (c : Str) (cs : List Str)
    → AllPlain (c ∷ cs)
    → (p : RootRelativePath) × (try_from
          (record { is_absolute = false; components = map some (c ∷ cs) })
        ≡ ok p)
      × (split p.inner ≡ c ∷ cs)
unfolding try_from split join_components push_component
split-try_from c cs ((nonempty, slashes, backslashes), rest) = (
  record { inner = joined c cs },
  rw (slashes, backslashes, join_components, push_component)
      (rw (join_components_rest c cs nonempty rest)),
  split_from-joined cs c (nonempty, slashes, backslashes) rest,
)

join_components_illegal :
    (result : Str) (before : List Str) (c : Str) (after : List (Option Str))
    → AllPlain before
    → contains c slash || contains c backslash ≡ true
    → join_components result (map some before ++ some c ∷ after) ≡ err illegal_characters
unfolding join_components push_component
join_components_illegal result [] c after _ h = rw h
join_components_illegal result (b ∷ before) c after ((_, slashes, backslashes), rest) h =
    rw (slashes, backslashes, push_component) (join_components_illegal _ before c after rest h)

-- A component with a slash of either kind is refused, wherever it stands.
pub try_from_illegal :
    (before : List Str) (c : Str) (after : List (Option Str))
    → AllPlain before
    → contains c slash || contains c backslash ≡ true
    → try_from (record { is_absolute = false; components = map some before ++ some c ∷ after })
      ≡ err illegal_characters
unfolding try_from
try_from_illegal before c after plain h = rw (join_components_illegal [] before c after plain h)

-- In a path that is converted to a platform's separator, the parts between the separators are those
-- between the slashes of the path, if the separator is the slash or does not occur in the path.
pub split_on-to_platform_path :
    (p : RootRelativePath) (sep : ℕ)
    → (sep ≡ slash) ⊎ (contains p.inner sep ≡ false)
    → split_on sep (to_platform_path p sep) ≡ split p.inner
unfolding to_platform_path split split_on split_on_from split_from replace
split_on-to_platform_path p sep h = parts [] p.inner h
  where
    parts :
        (part s : Str)
        → (sep ≡ slash) ⊎ (contains s sep ≡ false)
        → split_on_from sep part (replace slash sep s) ≡ split_from part s
    parts part [] h = refl
    parts part (c ∷ s) h = ground (arith, parts [] s, parts (part ++ c ∷ []) s)

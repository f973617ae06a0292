-- ===== src/Path.antt =====
-- src/root_relative_path.rs: paths relative to the source or destination root, in a form that is
-- the same on every platform, with forward slashes.
pub mod Normalize
use rjrssync.Common.{
  Bool, true, false, not, ◌&&◌, ◌||◌, Option, none, some, List, [], ◌∷◌, ◌++◌, Eq, str_eq, str_beq,
  str_beq_iff, Str, codes, map, last?, contains, nat_eq, ◌==◌, if◌then◌else◌, Outcome, ok, err,
  ◌>>=◌, ℕ, ◌≡◌, ◌↔◌, arith,
}

pub record RootRelativePath : Type 0 where
  pub inner : Str

pub path_beq_iff : (p q : RootRelativePath) → (str_beq p.inner q.inner ≡ true) ↔ (p ≡ q)
path_beq_iff p q = ground (arith, str_beq_iff p.inner q.inner)

instance abbrev pub path_eq : Eq RootRelativePath
path_eq = record { beq = λ p q. str_beq p.inner q.inner; beq_iff = path_beq_iff }

abbrev pub slash : ℕ
slash = b'/'

abbrev pub backslash : ℕ
backslash = 92

abbrev pub root : RootRelativePath
root = record { inner = [] }

abbrev pub is_empty : Str → Bool
is_empty [] = true
is_empty (c ∷ s) = false

unfoldable pub is_root : RootRelativePath → Bool
is_root p = is_empty p.inner

-- `String::replace` of a character by a character.
unfoldable pub replace : ℕ → ℕ → Str → Str
replace a b = map (λ c. if c == a then b else c)

unfoldable pub to_platform_path : RootRelativePath → ℕ → Str
unfolding replace
to_platform_path p dir_separator = replace slash dir_separator p.inner

-- `Display for RootRelativePath`
unfoldable pub display : RootRelativePath → Str
unfolding is_root
display p = if is_root p then codes "<ROOT>" else p.inner

-- `std::path::Path` as the library parses it: the components that `iter` yields, `none` for one
-- that is not valid Unicode.
pub record FilePath : Type 0 where
  pub is_absolute : Bool
  pub components : List (Option Str)

-- The three errors of `try_from`.
pub data PathError : Type 0 where
  must_be_relative cannot_convert_component illegal_characters : PathError

-- One round of the loop over the components.
unfoldable pub push_component : Str → Option Str → Outcome PathError Str
push_component result none = err cannot_convert_component
push_component result (some cs) =
    if contains cs slash || contains cs backslash
    then err illegal_characters
    else ok ((if not (is_empty result) then result ++ codes "/" else result) ++ cs)

unfoldable pub join_components : Str → List (Option Str) → Outcome PathError Str
unfolding push_component
join_components result [] = ok result
join_components result (c ∷ cs) = do s ← push_component result c; join_components s cs

unfoldable pub try_from : FilePath → Outcome PathError RootRelativePath
unfolding join_components
try_from p =
    if p.is_absolute
    then err must_be_relative
    else (do s ← join_components [] p.components; ok (record { inner = s }))

pub data Side : Type 0 where
  source dest : Side

pub record PrettyPath : Type 0 where
  pub side : Side
  pub dir_separator : ℕ
  pub root : Str
  pub path : RootRelativePath
  pub kind : Str

abbrev side_name : Side → Str
side_name source = codes "source"
side_name dest = codes "dest"

abbrev pub ends_with : Str → ℕ → Bool
ends_with s c = elim (last? s) [ none ↦ false | some d ↦ d == c ]

-- `Display for PrettyPath`. `italic` is the styling of the `console` crate.
unfoldable pub pretty : (Str → Str) → PrettyPath → Str
unfolding is_root to_platform_path
pretty italic p =
    if is_root p.path
    then side_name p.side ++ codes " root " ++ p.kind ++ codes " '" ++ italic p.root ++ codes "'"
    else let shown =
        if ends_with p.root p.dir_separator then p.root else p.root ++ (p.dir_separator ∷ []) in
      side_name p.side
      ++ codes " "
      ++ p.kind
      ++ codes " '"
      ++ italic shown
      ++ to_platform_path p.path p.dir_separator
      ++ codes "'"

-- ===== src/Driver/Slashes.antt =====
-- Trailing slashes: a file or symlink is copied into the folder that the user named with a slash.
use rjrssync.Common.{
  ◌⊎◌, ℕ, Bool, true, false, Option, some, [], ◌∷◌, ◌++◌, ok, >>=-eq-ok, if◌then◌else◌, if_true,
  if_false, ◌≡◌, refl, sym, ap, ◌∙◌, arith, ◌&&◌, Bool-cases, Option-cases, inl, inr, last?, Str,
}
use rjrssync.Comms.{SyncError, send_command, receive_response}
use rjrssync.Driver.Roots.{
  take_src_details, src_details, take_dest_details, dest_details, move_inside, get_root_details,
  is_file_or_symlink, ends_in_slash, is_separator, last_part, last_part_from,
  validate_trailing_slash, with_src,
}
use rjrssync.Interface.{Response, EntryDetails, root_details}
use rjrssync.Sync.{SyncContext}

-- A text that ends in a character that is no separator.
abbrev pub EndsPlain : Str → Type 0
EndsPlain s = (c : ℕ) × (last? s ≡ some c) × (is_separator c ≡ false)

last-append : (xs : Str) (y : ℕ) (ys : Str) → last? (xs ++ y ∷ ys) ≡ last? (y ∷ ys)
last-append [] y ys = refl
last-append (x ∷ []) y ys = refl
last-append (x ∷ x' ∷ xs) y ys = last-append (x' ∷ xs) y ys

EndsPlain-append : (xs ys : Str) → EndsPlain ys → EndsPlain (xs ++ ys)
EndsPlain-append xs [] (c, h, _) = cc
EndsPlain-append xs (y ∷ ys) (c, h, plain) = (c, last-append xs y ys ∙ h, plain)

EndsPlain-last_part_from : (part s : Str) → EndsPlain s → EndsPlain (last_part_from part s)
EndsPlain-last_part_from part [] (c, h, _) = cc
EndsPlain-last_part_from part (x ∷ []) (c, h, plain) =
    let same : x ≡ c = ground arith in
    let x_plain : is_separator x ≡ false = ap is_separator same ∙ plain in
    rw (if_false {b = is_separator x} [] (part ++ x ∷ []) x_plain)
      (EndsPlain-append part (x ∷ []) (x, refl, x_plain))
EndsPlain-last_part_from part (x ∷ y ∷ s) h =
    EndsPlain-last_part_from (if is_separator x then [] else part ++ x ∷ []) (y ∷ s) h

EndsPlain-no_slash : (s : Str) → EndsPlain s → ends_in_slash s ≡ false
EndsPlain-no_slash s (c, h, plain) = ground arith

-- The roots of a context are what they were.
abbrev SameRoots : SyncContext → SyncContext → Type 0
SameRoots ctx ctx' = (ctx'.src_root ≡ ctx.src_root) × (ctx'.dest_root ≡ ctx.dest_root)

validated :
    (s : Str) (d : EntryDetails) (e : SyncError) (u : Unit)
    → validate_trailing_slash s d e ≡ ok u
    → is_file_or_symlink d ≡ true
    → EndsPlain s
unfolding validate_trailing_slash
validated s d e u h is_file = elim (Option-cases (last? s)) [
  | inl nothing ↦ absurd (ground arith)
  | inr (c, is_last) ↦ elim (Bool-cases (is_separator c)) [
    | inl slash ↦ absurd (ground arith)
    | inr plain ↦ (c, is_last, plain)
  ]
]

take_src_details-roots :
    (ctx ctx' : SyncContext) (r : Response) (d : EntryDetails)
    → take_src_details ctx r ≡ ok (d, ctx')
    → SameRoots ctx ctx' × (is_file_or_symlink d ≡ true → EndsPlain ctx.src_root)
unfolding take_src_details
take_src_details-roots ctx ctx' (root_details (some e) b c) d h =
    let (u, checked, ended) = >>=-eq-ok (validate_trailing_slash ctx.src_root e _) _ h in
    (ground arith, λ is_file. validated ctx.src_root e _ u checked (ground arith))
take_src_details-roots ctx ctx' r d h = absurd (ground arith)

src_details-roots :
    (ctx ctx' : SyncContext) (d : EntryDetails)
    → src_details ctx ≡ ok (d, ctx')
    → SameRoots ctx ctx' × (is_file_or_symlink d ≡ true → EndsPlain ctx.src_root)
unfolding src_details
src_details-roots ctx ctx' d h =
    let (m, sent, rest) = >>=-eq-ok (send_command _ _) _ h in
    let ((r, m'), received, taken) = >>=-eq-ok (receive_response m) _ rest in
    take_src_details-roots (with_src m' ctx) ctx' r d taken

dest_details-roots :
    (ctx ctx' : SyncContext) (d : Option EntryDetails) (b : Bool)
    → dest_details ctx ≡ ok (d, (b, ctx'))
    → SameRoots ctx ctx'
unfolding dest_details take_dest_details
dest_details-roots ctx ctx' d b h =
    let (m, sent, rest) = >>=-eq-ok (send_command _ _) _ h in
    let ((r, m'), received, taken) = >>=-eq-ok (receive_response m) _ rest in ground arith

-- Where the file goes.
abbrev pub moved : EntryDetails → Str → Str → Str
moved d src_root dest_root =
    if is_file_or_symlink d && ends_in_slash dest_root
    then dest_root ++ last_part src_root
    else dest_root

move_inside-moved :
    (s : EntryDetails) (d d' : Option EntryDetails) (ctx ctx' : SyncContext)
    → move_inside s d ctx ≡ ok (d', ctx')
    → (ctx'.src_root ≡ ctx.src_root) × (ctx'.dest_root ≡ moved s ctx.src_root ctx.dest_root)
unfolding move_inside
move_inside-moved s d d' ctx ctx' h =
    elim (Bool-cases (is_file_or_symlink s && ends_in_slash ctx.dest_root)) [
      | inl inside ↦
          (let (m, sent, rest) = >>=-eq-ok (send_command _ _) _ (sym (if_true _ _ inside) ∙ h) in
            let ((r, m'), received, taken) = >>=-eq-ok (receive_response m) _ rest in ground arith)
      | inr stays ↦ ground arith
    ]

moved-plain :
    (d : EntryDetails) (src_root dest_root : Str)
    → (is_file_or_symlink d ≡ true → EndsPlain src_root)
    → is_file_or_symlink d ≡ true
    → ends_in_slash (moved d src_root dest_root) ≡ false
moved-plain d src_root dest_root plain is_file = elim (Bool-cases (ends_in_slash dest_root)) [
  | inr no_slash ↦ ground arith
  | inl slash ↦
      (let inside : (is_file_or_symlink d && ends_in_slash dest_root) ≡ true = ground arith in
        rw (if_true (dest_root ++ last_part src_root) dest_root inside) (
          EndsPlain-no_slash (dest_root ++ last_part src_root) (
            EndsPlain-append dest_root (last_part src_root)
              (EndsPlain-last_part_from [] src_root (plain is_file)))))
]

-- Where the details of the roots are found: the source root stays as it was; a file or symlink whose
-- destination is written with a trailing slash goes below it, under the last part of the source
-- path, and any other destination stays as it was; and a file or symlink has a trailing slash on
-- neither side.
pub get_root_details_slashes :
    (ctx ctx' : SyncContext) (src_root : EntryDetails) (dest_root : Option EntryDetails)
    (differentiates : Bool)
    → get_root_details ctx ≡ ok ((src_root, (dest_root, differentiates)), ctx')
    → (ctx'.src_root ≡ ctx.src_root)
      × (ctx'.dest_root ≡ moved src_root ctx.src_root ctx.dest_root)
      × ((is_file_or_symlink src_root ≡ false)
          ⊎ ((ends_in_slash ctx'.src_root ≡ false) × (ends_in_slash ctx'.dest_root ≡ false)))
unfolding get_root_details
get_root_details_slashes ctx ctx' src_root dest_root differentiates h =
    let ((s, ctx1), first, rest) = >>=-eq-ok (src_details ctx) _ h in
    let ((d, (b, ctx2)), second, rest') = >>=-eq-ok (dest_details ctx1) _ rest in
    let ((d', ctx3), third, ended) = >>=-eq-ok (move_inside s d ctx2) _ rest' in
    let same : (s ≡ src_root) × (ctx' ≡ ctx3) = ground arith in
    let (src_same, dest_same, plain) =
      joined s src_root ctx ctx1 ctx2 ctx3 ctx' same (src_details-roots ctx ctx1 s first)
        (dest_details-roots ctx1 ctx2 d b second) (move_inside-moved s d d' ctx2 ctx3 third) in
    (
      src_same,
      dest_same,
      elim (Bool-cases (is_file_or_symlink src_root)) [
        | inl is_file ↦ inr (plain is_file)
        | inr is_folder ↦ inl is_folder
      ],
    )
  where
    joined :
        (s src_root : EntryDetails) (ctx ctx1 ctx2 ctx3 ctx' : SyncContext)
        → (s ≡ src_root) × (ctx' ≡ ctx3)
        → SameRoots ctx ctx1 × (is_file_or_symlink s ≡ true → EndsPlain ctx.src_root)
        → SameRoots ctx1 ctx2
        → (ctx3.src_root ≡ ctx2.src_root) × (ctx3.dest_root ≡ moved s ctx2.src_root ctx2.dest_root)
        → (ctx'.src_root ≡ ctx.src_root)
          × (ctx'.dest_root ≡ moved src_root ctx.src_root ctx.dest_root)
          × (is_file_or_symlink src_root ≡ true
              → (ends_in_slash ctx'.src_root ≡ false) × (ends_in_slash ctx'.dest_root ≡ false))
    joined s src_root ctx ctx1 ctx2 ctx3 ctx' (is_s, is_ctx) ((a, b), plain) (c, d) (e, f) =
        let src_same : ctx'.src_root ≡ ctx.src_root = ap (λ x. x.src_root) is_ctx ∙ e ∙ c ∙ a in
        let dest_same : ctx'.dest_root ≡ moved src_root ctx.src_root ctx.dest_root =
          ap (λ x. x.dest_root) is_ctx ∙ f ∙ cc in
        (
          src_same,
          dest_same,
          λ is_file.
              let was_file : is_file_or_symlink s ≡ true = ap is_file_or_symlink is_s ∙ is_file in
              let moved_s : ctx'.dest_root ≡ moved s ctx.src_root ctx.dest_root = dest_same ∙ cc in
              (
                ap ends_in_slash src_same ∙ EndsPlain-no_slash ctx.src_root (plain was_file),
                ap ends_in_slash moved_s ∙ moved-plain s ctx.src_root ctx.dest_root plain was_file,
              ),
        )

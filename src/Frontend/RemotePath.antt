-- ===== src/Frontend/RemotePath.antt =====
-- src/boss_frontend.rs, `RemotePathDesc`: `user@host:path` and `path`.
use rjrssync.Common.{
  contains, ℕ, Bool, true, false, ◌&&◌, ◌||◌, Option, none, some, Option-cases, inl, inr, [], ◌∷◌,
  ◌++◌, Str, nat_eq, ◌==◌, if◌then◌else◌, Outcome, ok, err, ◌≡◌, refl, arith, ltb, Bool-cases,
}
use rjrssync.Frontend.{UsageError, missing_username, missing_hostname, missing_path}

pub record RemotePathDesc : Type 0 where
  pub username : Str
  pub hostname : Str
  pub path : Str

abbrev colon : ℕ
colon = b':'

abbrev at_sign : ℕ
at_sign = b'@'

abbrev pub is_empty : Str → Bool
is_empty [] = true
is_empty (_ ∷ _) = false

-- `str::split_once`
unfoldable pub split_once : ℕ → Str → Option (Str × Str)
split_once sep [] = none
split_once sep (c ∷ s) =
    let rest = split_once sep s in
    if c == sep then some ([], s) else elim rest [ none ↦ none | some (a, b) ↦ some (c ∷ a, b) ]

-- `a.len() == 1`, which counts bytes.
abbrev is_one_byte : Str → Bool
is_one_byte (c ∷ []) = ltb c 128
is_one_byte _ = false

abbrev starts_with : ℕ → Str → Bool
starts_with c [] = false
starts_with c (d ∷ _) = d == c

abbrev check_path : RemotePathDesc → Outcome UsageError RemotePathDesc
check_path r = if is_empty r.path then err missing_path else ok r

abbrev check_hostname : RemotePathDesc → Outcome UsageError RemotePathDesc
check_hostname r = if is_empty r.hostname then err missing_hostname else check_path r

abbrev from_user_and_host : Str → Str → Outcome UsageError RemotePathDesc
from_user_and_host user_and_host path = elim (split_once at_sign user_and_host) [
  | none ↦ check_hostname (record { username = []; hostname = user_and_host; path = path })
  | some (user, host) ↦
      if is_empty user
      then err missing_username
      else check_hostname (record { username = user; hostname = host; path = path })
]

unfoldable pub from_str : Str → Outcome UsageError RemotePathDesc
unfolding split_once
from_str s = elim (split_once colon s) [
  | none ↦ check_path (record { username = []; hostname = []; path = s })
  | some (a, b) ↦
      if is_one_byte a && (is_empty b || starts_with b'\\' b)
      then check_path (record { username = []; hostname = []; path = s })
      else from_user_and_host a b
]

abbrev print_parts : Str → Str → Str → Str
print_parts user [] path = path
print_parts [] (c ∷ host) path = (c ∷ host) ++ colon ∷ path
print_parts (d ∷ user) (c ∷ host) path = ((d ∷ user) ++ at_sign ∷ c ∷ host) ++ colon ∷ path

-- The text that describes a path.
abbrev pub print : RemotePathDesc → Str
print r = print_parts r.username r.hostname r.path

split_once-some : (sep : ℕ) (s a b : Str) → split_once sep s ≡ some (a, b) → s ≡ a ++ sep ∷ b
unfolding split_once
split_once-some sep [] a b h = cc
split_once-some sep (c ∷ s) a b h = elim (Bool-cases (c == sep)) [
  | inl here ↦ ground arith
  | inr there ↦ elim (Option-cases (split_once sep s)) [
    | inl none_left ↦ absurd (ground arith)
    | inr ((a', b'), found) ↦ ground (arith, split_once-some sep s a' b' found)
  ]
]

split_once-append :
    (sep : ℕ) (a b : Str) → contains a sep ≡ false → split_once sep (a ++ sep ∷ b) ≡ some (a, b)
unfolding split_once
split_once-append sep [] b h = ground (arith, nat_eq.beq_iff sep sep)
split_once-append sep (c ∷ a) b h = ground (arith, split_once-append sep a b)

check_hostname-eq-ok :
    (r r' : RemotePathDesc)
    → check_hostname r ≡ ok r'
    → (r' ≡ r) × (is_empty r.hostname ≡ false) × (is_empty r.path ≡ false)
check_hostname-eq-ok r r' h = ground arith

print_no_user :
    (host path : Str) → is_empty host ≡ false → print_parts [] host path ≡ host ++ colon ∷ path
print_no_user [] path h = cc
print_no_user (c ∷ host) path h = refl

print_user :
    (user host path : Str)
    → is_empty user ≡ false
    → is_empty host ≡ false
    → print_parts user host path ≡ (user ++ at_sign ∷ host) ++ colon ∷ path
print_user [] host path hu hh = cc
print_user (d ∷ user) [] path hu hh = cc
print_user (d ∷ user) (c ∷ host) path hu hh = refl

print-from_user_and_host :
    (a b : Str) (r : RemotePathDesc)
    → from_user_and_host a b ≡ ok r
    → (print r ≡ a ++ colon ∷ b) × (is_empty r.path ≡ false)
print-from_user_and_host a b r h = elim (Option-cases (split_once at_sign a)) [
  | inl no_user ↦
      let (e, hh, hp) =
        check_hostname-eq-ok (record { username = []; hostname = a; path = b }) r
          (rw (no_user, from_user_and_host) at h) in
      rw e (print_no_user a b hh, hp)
  | inr ((user, host), found) ↦ elim (Bool-cases (is_empty user)) [
    | inl missing ↦ absurd (cc (rw (found, missing, from_user_and_host) at h))
    | inr present ↦
        let (e, hh, hp) =
          check_hostname-eq-ok (record { username = user; hostname = host; path = b }) r
            (rw (found, present, from_user_and_host) at h) in
        rw e
          (rw (split_once-some at_sign a user host found) (print_user user host b present hh), hp)
  ]
]

-- A text that is accepted is just the one that describes the result, whose path is not empty: no
-- part of it is lost, and no two texts mean the same.
pub print-from_str :
    (s : Str) (r : RemotePathDesc) → from_str s ≡ ok r → (print r ≡ s) × (is_empty r.path ≡ false)
unfolding from_str
print-from_str s r h = elim (Option-cases (split_once colon s)) [
  | inl no_colon ↦ ground arith
  | inr ((a, b), found) ↦ elim (Bool-cases (is_one_byte a && (is_empty b || starts_with b'\\' b))) [
    | inl drive ↦ ground arith
    | inr remote ↦ ground (arith, print-from_user_and_host a b r, split_once-some colon s a b found)
  ]
]

contains_user_host :
    (user host : Str)
    → contains user colon ≡ false
    → contains host colon ≡ false
    → contains (user ++ at_sign ∷ host) colon ≡ false
contains_user_host [] host hu hh = ground arith
contains_user_host (c ∷ user) host hu hh = ground (arith, contains_user_host user host)

long : (user host : Str) → is_empty user ≡ false → is_one_byte (user ++ at_sign ∷ host) ≡ false
long [] host h = cc
long (c ∷ []) host h = refl
long (c ∷ d ∷ user) host h = refl

-- A user, host and path, none of them empty, are read back from the text that describes them, if
-- neither the user nor the host has a colon, and the user no `@`.
pub from_str-print :
    (user host path : Str)
    → is_empty user ≡ false
    → is_empty host ≡ false
    → is_empty path ≡ false
    → contains user colon ≡ false
    → contains user at_sign ≡ false
    → contains host colon ≡ false
    → let r : RemotePathDesc = record { username = user; hostname = host; path = path } in
      from_str (print r) ≡ ok r
unfolding from_str
from_str-print user host path hu hh hp uc ua hc =
    rw
      (
        print_user user host path hu hh,
        split_once-append colon (user ++ at_sign ∷ host) path (contains_user_host user host uc hc),
        from_str,
        long user host hu,
        split_once-append at_sign user host ua,
        from_user_and_host,
        hu,
        hh,
        hp,
      )
      refl

-- ===== src/Archive/Names.antt =====
-- The text of a path is split into the parts that it was joined from.
use delegate_implementation.Base.{
  has, join_by, split_on-join_by, Text, is_empty, List, [], ◌∷◌, ◌++◌, map, keep, All, Bool, true,
  false, not, ◌&&◌, ◌≡◌, ◌∙◌, refl, ap, arith,
}
use delegate_implementation.Platform.{Bytes}
use delegate_implementation.Archive.{
  Parts, Tree, Member, slash, is_kept, is_dir_name, put, entry_of, under, extract_member,
}

-- A name of a file or a directory.
unfoldable pub is_name : Text → Bool
unfolding is_kept
is_name n = is_kept n && not (has slash n)

abbrev pub AreNames : Parts → Type 0
AreNames = All (λ n. is_name n ≡ true)

no_slash : (n : Text) → is_name n ≡ true → has slash n ≡ false
unfolding is_name
no_slash n h = ground arith

kept : (n : Text) → is_name n ≡ true → is_kept n ≡ true
unfolding is_name
kept n h = ground arith

filled : (n : Text) → is_name n ≡ true → is_empty n ≡ false
unfolding is_name is_kept
filled n h = ground arith

no_slashes : (path : Parts) → AreNames path → All (λ n. has slash n ≡ false) path
no_slashes [] h = tt
no_slashes (n ∷ path) h = (no_slash n h.0, no_slashes path h.1)

keep_names : (path : Parts) → AreNames path → keep is_kept path ≡ path
keep_names [] h = refl
keep_names (n ∷ path) h = rw (kept n h.0) (ap (◌∷◌ n) (keep_names path h.1))

is_dir_name-name : (n : Text) → has slash n ≡ false → is_dir_name n ≡ false
unfolding is_dir_name
is_dir_name-name [] h = refl
is_dir_name-name (c ∷ []) h = ground arith
is_dir_name-name (c ∷ d ∷ s) h = is_dir_name-name (d ∷ s) (ground arith)

is_dir_name-append :
    (n s : Text) → is_empty s ≡ false → is_dir_name (n ++ slash ∷ s) ≡ is_dir_name s
unfolding is_dir_name
is_dir_name-append [] [] h = absurd (ground arith)
is_dir_name-append [] (c ∷ s) h = refl
is_dir_name-append (c ∷ []) s h = is_dir_name-append [] s h
is_dir_name-append (c ∷ d ∷ n) s h = is_dir_name-append (d ∷ n) s h

is_empty-append : (n s : Text) → is_empty n ≡ false → is_empty (n ++ s) ≡ false
is_empty-append [] s h = absurd (ground arith)
is_empty-append (c ∷ n) s h = refl

is_empty-join_by :
    (n : Text) (path : Parts) → AreNames (n ∷ path) → is_empty (join_by slash (n ∷ path)) ≡ false
unfolding join_by
is_empty-join_by n [] h = filled n h.0
is_empty-join_by n (m ∷ path) h =
    is_empty-append n (slash ∷ join_by slash (m ∷ path)) (filled n h.0)

is_dir_name-join_by :
    (n : Text) (path : Parts) → AreNames (n ∷ path) → is_dir_name (join_by slash (n ∷ path)) ≡ false
unfolding join_by
is_dir_name-join_by n [] h = is_dir_name-name n (no_slash n h.0)
is_dir_name-join_by n (m ∷ path) h =
    is_dir_name-append n (join_by slash (m ∷ path)) (is_empty-join_by m path h.1)
    ∙ is_dir_name-join_by m path h.1

-- A member of an archive that names a file by its path is written at that path.
pub extract_member-put :
    (n : Text) (path : Parts) (content : Bytes) (t : Tree)
    → AreNames (n ∷ path)
    → extract_member (entry_of (n ∷ path, content)) t ≡ put (n ∷ path) content t
unfolding extract_member
extract_member-put n path content t h =
    rw
      (
        split_on-join_by slash n path (no_slashes (n ∷ path) h),
        is_dir_name-join_by n path h,
        keep_names (n ∷ path) h,
      )
      refl

-- Every member has a path of names.
abbrev pub AreMembers : List Member → Type 0
AreMembers [] = Unit
AreMembers (([], content) ∷ ms) = ⊥
AreMembers ((n ∷ path, content) ∷ ms) = AreNames (n ∷ path) × AreMembers ms

pub AreMembers-append :
    (xs ys : List Member) → AreMembers xs → AreMembers ys → AreMembers (xs ++ ys)
AreMembers-append [] ys p q = q
AreMembers-append (([], content) ∷ xs) ys p q = absurd p
AreMembers-append ((n ∷ path, content) ∷ xs) ys p q = (p.0, AreMembers-append xs ys p.1 q)

pub AreMembers-under :
    (n : Text) (ms : List Member) → is_name n ≡ true → AreMembers ms → AreMembers (map (under n) ms)
AreMembers-under n [] h p = tt
AreMembers-under n (([], content) ∷ ms) h p = absurd p
AreMembers-under n ((m ∷ path, content) ∷ ms) h p = ((h, p.0), AreMembers-under n ms h p.1)

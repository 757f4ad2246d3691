-- ===== src/Archive/Extraction.antt =====
-- What writing the members of a directory does to an empty one: the directories without a file
-- are not made, everything else is.
use delegate_implementation.Base.{
  Text, text_eq, text_eq_iff, List, [], ◌∷◌, ◌++◌, map, append_assoc, append-nil, Option, none,
  some, Option-cases, true, false, inl, inr, ◌≡◌, ◌∙◌, refl, arith,
}
use delegate_implementation.Platform.{Bytes}
use delegate_implementation.Archive.{
  Parts, Tree, Dirs, node, no_dirs, dir, empty_dir, content_in, dir_in, then_in, Member,
  file_member, under, set_content, within, put,
}
use delegate_implementation.Archive.Names.{is_name, AreMembers}

-- In every directory the names are names, and no name is given twice.
abbrev pub AreFiles : List (Text × Bytes) → Dirs → Type 0
AreFiles [] ds = Unit
AreFiles ((n, content) ∷ fs) ds =
    (is_name n ≡ true) × (content_in n fs ≡ none) × (dir_in n ds ≡ none) × AreFiles fs ds

abbrev mutual
  pub IsTree : Tree → Type 0
  IsTree (node fs ds) = AreFiles fs ds × AreDirs ds

  pub AreDirs : Dirs → Type 0
  AreDirs no_dirs = Unit
  AreDirs (dir n t ds) = (is_name n ≡ true) × (dir_in n ds ≡ none) × IsTree t × AreDirs ds

unfoldable pub put_all : List Member → Tree → Option Tree
put_all [] t = some t
put_all (m ∷ ms) t = then_in (put m.0 m.1 t) (put_all ms)

pub put_all-append :
    (xs ys : List Member) (t : Tree) → put_all (xs ++ ys) t ≡ then_in (put_all xs t) (put_all ys)
unfolding put_all
put_all-append [] ys t = refl
put_all-append (x ∷ xs) ys t = elim (Option-cases (put x.0 x.1 t)) [
  | inl e ↦ rw e refl
  | inr (t', e) ↦ rw e (put_all-append xs ys t')
]

-- Files, put one after the other into a directory that has other files and no directories.
set_content-new :
    (n : Text) (content : Bytes) (fs : List (Text × Bytes))
    → content_in n fs ≡ none
    → set_content n content fs ≡ fs ++ (n, content) ∷ []
unfolding set_content content_in
set_content-new n content [] h = refl
set_content-new n content ((m, old) ∷ fs) h = ground (arith, set_content-new n content fs)

content_in-last :
    (n m : Text) (content : Bytes) (fs : List (Text × Bytes))
    → content_in n fs ≡ none
    → text_eq m n ≡ false
    → content_in n (fs ++ (m, content) ∷ []) ≡ none
unfolding content_in
content_in-last n m content [] h d = ground arith
content_in-last n m content ((k, old) ∷ fs) h d = ground (arith, content_in-last n m content fs)

-- None of the names of the first is a name of the second.
abbrev pub ApartFiles : List (Text × Bytes) → List (Text × Bytes) → Type 0
ApartFiles [] others = Unit
ApartFiles ((n, content) ∷ fs) others = (content_in n others ≡ none) × ApartFiles fs others

ApartFiles-last :
    (fs others : List (Text × Bytes)) (n : Text) (content : Bytes)
    → ApartFiles fs others
    → content_in n fs ≡ none
    → ApartFiles fs (others ++ (n, content) ∷ [])
unfolding content_in
ApartFiles-last [] others n content h d = tt
ApartFiles-last ((m, c) ∷ fs) others n content h d = (
  content_in-last m n content others h.0 (ground (arith, text_eq_iff m n, text_eq_iff n m)),
  ApartFiles-last fs others n content h.1 (ground arith),
)

pub put_all-files :
    (fs others : List (Text × Bytes)) (ds : Dirs)
    → ApartFiles fs others
    → AreFiles fs ds
    → put_all (map file_member fs) (node others no_dirs) ≡ some (node (others ++ fs) no_dirs)
unfolding put_all put dir_in
put_all-files [] others ds h d = rw (append-nil others) refl
put_all-files ((n, content) ∷ fs) others ds h d = rw (set_content-new n content others h.0) (
    put_all-files fs (others ++ (n, content) ∷ []) ds (ApartFiles-last fs others n content h.1 d.1)
      d.3
    ∙ rw (append_assoc others ((n, content) ∷ []) fs) refl)

-- Members below one directory, written into a directory that has it last, or does not have it.
abbrev pub last_dir : Text → Tree → Dirs → Dirs
last_dir n t no_dirs = dir n t no_dirs
last_dir n t (dir m u ds) = dir m u (last_dir n t ds)

within-last_dir :
    (n : Text) (f : Tree → Option Tree) (t : Tree) (ds : Dirs)
    → dir_in n ds ≡ none
    → within n f (last_dir n t ds) ≡ then_in (f t) (λ t'. some (last_dir n t' ds))
unfolding within dir_in
within-last_dir n f t no_dirs h = ground (arith, text_eq_iff n n)
within-last_dir n f t (dir m u ds) h = elim (Option-cases (f t)) [
  | inl e ↦ ground (arith, within-last_dir n f t ds)
  | inr (t', e) ↦ ground (arith, within-last_dir n f t ds)
]

within-new :
    (n : Text) (f : Tree → Option Tree) (ds : Dirs)
    → dir_in n ds ≡ none
    → within n f ds ≡ then_in (f empty_dir) (λ t. some (last_dir n t ds))
unfolding within dir_in
within-new n f no_dirs h = refl
within-new n f (dir m u ds) h = elim (Option-cases (f empty_dir)) [
  | inl e ↦ ground (arith, within-new n f ds)
  | inr (t', e) ↦ ground (arith, within-new n f ds)
]

put-last_dir :
    (n m : Text) (rest : Parts) (content : Bytes) (fs : List (Text × Bytes)) (t : Tree) (ds : Dirs)
    → content_in n fs ≡ none
    → dir_in n ds ≡ none
    → put (n ∷ m ∷ rest) content (node fs (last_dir n t ds))
      ≡ then_in (put (m ∷ rest) content t) (λ t'. some (node fs (last_dir n t' ds)))
unfolding put
put-last_dir n m rest content fs t ds absent h =
    rw (absent, within-last_dir n (put (m ∷ rest) content) t ds h)
      (elim (Option-cases (put (m ∷ rest) content t)) [
        | inl e ↦ rw e refl
        | inr (t', e) ↦ rw e refl
      ])

put-new :
    (n m : Text) (rest : Parts) (content : Bytes) (fs : List (Text × Bytes)) (ds : Dirs)
    → content_in n fs ≡ none
    → dir_in n ds ≡ none
    → put (n ∷ m ∷ rest) content (node fs ds)
      ≡ then_in (put (m ∷ rest) content empty_dir) (λ t. some (node fs (last_dir n t ds)))
unfolding put
put-new n m rest content fs ds absent h =
    rw (absent, within-new n (put (m ∷ rest) content) ds h)
      (elim (Option-cases (put (m ∷ rest) content empty_dir)) [
        | inl e ↦ rw e refl
        | inr (t', e) ↦ rw e refl
      ])

put_all-last_dir :
    (n : Text) (ms : List Member) (fs : List (Text × Bytes)) (t : Tree) (ds : Dirs)
    → AreMembers ms
    → content_in n fs ≡ none
    → dir_in n ds ≡ none
    → put_all (map (under n) ms) (node fs (last_dir n t ds))
      ≡ then_in (put_all ms t) (λ t'. some (node fs (last_dir n t' ds)))
unfolding put_all
put_all-last_dir n [] fs t ds p absent h = refl
put_all-last_dir n (([], content) ∷ ms) fs t ds p absent h = absurd p
put_all-last_dir n ((m ∷ rest, content) ∷ ms) fs t ds p absent h =
    rw (put-last_dir n m rest content fs t ds absent h)
      (elim (Option-cases (put (m ∷ rest) content t)) [
        | inl e ↦ rw e refl
        | inr (t', e) ↦ rw e (put_all-last_dir n ms fs t' ds p.1 absent h)
      ])

-- The members of one directory make it, unless there is none.
pub put_all-under :
    (n : Text) (m : Member) (ms : List Member) (fs : List (Text × Bytes)) (ds : Dirs)
    → AreMembers (m ∷ ms)
    → content_in n fs ≡ none
    → dir_in n ds ≡ none
    → put_all (map (under n) (m ∷ ms)) (node fs ds)
      ≡ then_in (put_all (m ∷ ms) empty_dir) (λ t. some (node fs (last_dir n t ds)))
unfolding put_all
put_all-under n ([], content) ms fs ds p absent h = absurd p
put_all-under n (m ∷ rest, content) ms fs ds p absent h =
    rw (put-new n m rest content fs ds absent h)
      (elim (Option-cases (put (m ∷ rest) content empty_dir)) [
        | inl e ↦ rw e refl
        | inr (t, e) ↦ rw e (put_all-last_dir n ms fs t ds p.1 absent h)
      ])

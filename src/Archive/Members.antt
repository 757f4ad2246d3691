-- ===== src/Archive/Members.antt =====
-- Writing the members of a directory makes the directory without its empty parts.
use delegate_implementation.Base.{
  Text, text_eq, text_eq_iff, List, [], ◌∷◌, map, none, some, false, ◌≡◌, ◌∙◌, refl, ap, arith,
}
use delegate_implementation.Platform.{Bytes}
use delegate_implementation.Archive.{
  Tree, Dirs, node, no_dirs, dir, empty_dir, content_in, dir_in, Member, file_member, under,
  members, members_dirs,
}
use delegate_implementation.Archive.Names.{AreMembers, AreMembers-append, AreMembers-under}
use delegate_implementation.Archive.Extraction.{
  IsTree, AreFiles, AreDirs, ApartFiles, put_all, put_all-append, put_all-files, last_dir,
  put_all-under,
}

abbrev pub keep_dir : List Member → Text → Tree → Dirs → Dirs
keep_dir [] n t ds = ds
keep_dir (m ∷ ms) n t ds = dir n t ds

-- The directory without the directories that hold no file.
unfoldable mutual
  unfolding members

  pub prune : Tree → Tree
  prune (node fs ds) = node fs (prune_dirs ds)

  pub prune_dirs : Dirs → Dirs
  prune_dirs no_dirs = no_dirs
  prune_dirs (dir n t ds) = keep_dir (members t) n (prune t) (prune_dirs ds)

abbrev join_dirs : Dirs → Dirs → Dirs
join_dirs no_dirs es = es
join_dirs (dir n t ds) es = dir n t (join_dirs ds es)

join_dirs-last_dir :
    (n : Text) (t : Tree) (ds es : Dirs)
    → join_dirs (last_dir n t ds) es ≡ join_dirs ds (dir n t es)
join_dirs-last_dir n t no_dirs es = refl
join_dirs-last_dir n t (dir m u ds) es = ap (dir m u) (join_dirs-last_dir n t ds es)

join_dirs_end : (ds : Dirs) → join_dirs ds no_dirs ≡ ds
join_dirs_end no_dirs = refl
join_dirs_end (dir n t ds) = ap (dir n t) (join_dirs_end ds)

-- None of the names of the first is a name of the second.
abbrev ApartDirs : Dirs → Dirs → Type 0
ApartDirs no_dirs es = Unit
ApartDirs (dir n t ds) es = (dir_in n es ≡ none) × ApartDirs ds es

dir_in-last_dir :
    (n m : Text) (t : Tree) (ds : Dirs)
    → dir_in n ds ≡ none
    → text_eq m n ≡ false
    → dir_in n (last_dir m t ds) ≡ none
unfolding dir_in
dir_in-last_dir n m t no_dirs h d = ground arith
dir_in-last_dir n m t (dir k u ds) h d = ground (arith, dir_in-last_dir n m t ds)

ApartDirs-last_dir :
    (ds es : Dirs) (n : Text) (t : Tree)
    → ApartDirs ds es
    → dir_in n ds ≡ none
    → ApartDirs ds (last_dir n t es)
unfolding dir_in
ApartDirs-last_dir no_dirs es n t h d = tt
ApartDirs-last_dir (dir m u ds) es n t h d = (
  dir_in-last_dir m n t es h.0 (ground (arith, text_eq_iff m n, text_eq_iff n m)),
  ApartDirs-last_dir ds es n t h.1 (ground arith),
)

-- What separates the files of a directory from its first directory, and from the others.
absent :
    (n : Text) (t : Tree) (ds : Dirs) (fs : List (Text × Bytes))
    → AreFiles fs (dir n t ds)
    → content_in n fs ≡ none
unfolding content_in dir_in
absent n t ds [] h = refl
absent n t ds ((m, content) ∷ fs) h =
    ground (arith, text_eq_iff m n, text_eq_iff n m, absent n t ds fs h.3, h.2)

others :
    (n : Text) (t : Tree) (ds : Dirs) (fs : List (Text × Bytes))
    → AreFiles fs (dir n t ds)
    → AreFiles fs ds
unfolding dir_in
others n t ds [] h = tt
others n t ds ((m, content) ∷ fs) h = (h.0, h.1, ground (arith, h.2), others n t ds fs h.3)

ApartFiles-nil : (fs : List (Text × Bytes)) → ApartFiles fs []
unfolding content_in
ApartFiles-nil [] = tt
ApartFiles-nil ((n, content) ∷ fs) = (refl, ApartFiles-nil fs)

ApartDirs-none : (ds : Dirs) → ApartDirs ds no_dirs
unfolding dir_in
ApartDirs-none no_dirs = tt
ApartDirs-none (dir n t ds) = (refl, ApartDirs-none ds)

-- A directory with a new last one, unless there are no members for it.
abbrev placed : List Member → Text → Tree → Dirs → Dirs
placed [] n t ds = ds
placed (m ∷ ms) n t ds = last_dir n t ds

put_all-placed :
    (n : Text) (ms : List Member) (fs : List (Text × Bytes)) (ds : Dirs) {t : Tree}
    → AreMembers ms
    → content_in n fs ≡ none
    → dir_in n ds ≡ none
    → put_all ms empty_dir ≡ some t
    → put_all (map (under n) ms) (node fs ds) ≡ some (node fs (placed ms n t ds))
unfolding put_all
put_all-placed n [] fs ds p a d h = refl
put_all-placed n (m ∷ ms) fs ds p a d h = put_all-under n m ms fs ds p a d ∙ rw h refl

join_dirs-placed :
    (n : Text) (ms : List Member) (t : Tree) (ds es : Dirs)
    → join_dirs (placed ms n t ds) es ≡ join_dirs ds (keep_dir ms n t es)
join_dirs-placed n [] t ds es = refl
join_dirs-placed n (m ∷ ms) t ds es = join_dirs-last_dir n t ds es

ApartDirs-placed :
    (ds es : Dirs) (n : Text) (ms : List Member) (t : Tree)
    → ApartDirs ds es
    → dir_in n ds ≡ none
    → ApartDirs ds (placed ms n t es)
ApartDirs-placed ds es n [] t h d = h
ApartDirs-placed ds es n (m ∷ ms) t h d = ApartDirs-last_dir ds es n t h d

AreMembers-files :
    (fs : List (Text × Bytes)) (ds : Dirs) → AreFiles fs ds → AreMembers (map file_member fs)
AreMembers-files [] ds h = tt
AreMembers-files ((n, content) ∷ fs) ds h = ((h.0, tt), AreMembers-files fs ds h.3)

mutual
  unfolding members

  pub AreMembers-members : (t : Tree) → IsTree t → AreMembers (members t)
  AreMembers-members (node fs ds) h =
      AreMembers-append (map file_member fs) (members_dirs ds) (AreMembers-files fs ds h.0)
        (AreMembers-members_dirs ds h.1)

  AreMembers-members_dirs : (ds : Dirs) → AreDirs ds → AreMembers (members_dirs ds)
  AreMembers-members_dirs no_dirs h = tt
  AreMembers-members_dirs (dir n t ds) h =
      AreMembers-append (map (under n) (members t)) (members_dirs ds)
        (AreMembers-under n (members t) h.0 (AreMembers-members t h.2))
        (AreMembers-members_dirs ds h.3)

mutual
  unfolding members prune put_all

  pub put_all-members : (t : Tree) → IsTree t → put_all (members t) empty_dir ≡ some (prune t)
  put_all-members (node fs ds) h =
      put_all-append (map file_member fs) (members_dirs ds) empty_dir
      ∙ rw (put_all-files fs [] ds (ApartFiles-nil fs) h.0)
          (put_all-members_dirs ds no_dirs fs (ApartDirs-none ds) h.0 h.1)

  put_all-members_dirs :
      (ds done : Dirs) (fs : List (Text × Bytes))
      → ApartDirs ds done
      → AreFiles fs ds
      → AreDirs ds
      → put_all (members_dirs ds) (node fs done) ≡ some (node fs (join_dirs done (prune_dirs ds)))
  put_all-members_dirs no_dirs done fs apart files h = rw (join_dirs_end done) refl
  put_all-members_dirs (dir n t ds) done fs apart files h =
      let ms = members t in
      let made =
        put_all-placed n ms fs done (AreMembers-members t h.2) (absent n t ds fs files) apart.0
          (put_all-members t h.2) in
      put_all-append (map (under n) ms) (members_dirs ds) (node fs done)
      ∙ rw made (
          put_all-members_dirs ds (placed ms n (prune t) done) fs
            (ApartDirs-placed ds done n ms (prune t) apart.1 h.1) (others n t ds fs files) h.3
          ∙ rw (join_dirs-placed n ms (prune t) done (prune_dirs ds)) refl)

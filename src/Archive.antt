-- ===== src/Archive.antt =====
-- shared/delegate_protocol/chunked_transfer.py: the archive of a directory, as
-- `zip_directory_to_bytes` collects it and `extract_zip_bytes` writes it out again. The ZIP format
-- is a parameter; a directory tree is listed the way `os.walk` lists it, files and directories
-- apart. Links, modes and times are left out, and so is what an extraction that raises has written.
pub mod Names
pub mod Extraction
pub mod Members
pub mod Prune
pub mod RoundTrip
mod Tests
use delegate_implementation.Base.{
  split_on, join_by, ℕ, Text, codes, text_eq, is_empty, List, [], ◌∷◌, ◌++◌, map, Option, none,
  some, keep, Bool, true, false, not, ◌||◌, ◌==◌, if◌then◌else◌, ◌≡◌,
}
use delegate_implementation.Platform.{Bytes}

-- The parts of a path.
abbrev pub Parts : Type 0
Parts = List Text

-- A directory: its files and its directories.
mutual
  pub data Tree : Type 0 where
    node : List (Text × Bytes) → Dirs → Tree

  pub data Dirs : Type 0 where
    no_dirs : Dirs
    dir : Text → Tree → Dirs → Dirs

abbrev pub empty_dir : Tree
empty_dir = node [] no_dirs

unfoldable pub content_in : Text → List (Text × Bytes) → Option Bytes
content_in n [] = none
content_in n ((m, content) ∷ fs) = if text_eq m n then some content else content_in n fs

unfoldable pub dir_in : Text → Dirs → Option Tree
dir_in n no_dirs = none
dir_in n (dir m t ds) = if text_eq m n then some t else dir_in n ds

abbrev pub then_in {ℓ} : {A : Type ℓ} → Option Tree → (Tree → Option A) → Option A
then_in none f = none
then_in (some t) f = f t

-- The content of the file at a path.
unfoldable pub find : Parts → Tree → Option Bytes
unfolding content_in dir_in
find [] t = none
find (n ∷ []) (node fs ds) = content_in n fs
find (n ∷ m ∷ rest) (node fs ds) = then_in (dir_in n ds) (find (m ∷ rest))

abbrev pub Member : Type 0
Member = Parts × Bytes

abbrev pub file_member : Text × Bytes → Member
file_member (n, content) = (n ∷ [], content)

abbrev pub under : Text → Member → Member
under n (path, content) = (n ∷ path, content)

-- The files in the order of `os.walk`, each with its path from the top (`os.path.relpath`).
unfoldable mutual
  pub members : Tree → List Member
  members (node fs ds) = map file_member fs ++ members_dirs ds

  pub members_dirs : Dirs → List Member
  members_dirs no_dirs = []
  members_dirs (dir n t ds) = map (under n) (members t) ++ members_dirs ds

-- `/`, which is `os.sep`.
abbrev pub slash : ℕ
slash = 47

abbrev pub entry_of : Member → Text × Bytes
entry_of (path, content) = (join_by slash path, content)

-- `zipfile`: the archive of some members, and the members of an archive (`none` where it raises
-- `BadZipFile`). What `ZipFile.write` accepts is read back.
pub record Zip : Type 0 where
  pub zip : List (Text × Bytes) → Bytes
  pub unzip : Bytes → Option (List (Text × Bytes))
  pub accepts : List (Text × Bytes) → Bool
  pub unzip-zip : (ms : List (Text × Bytes)) → accepts ms ≡ true → unzip (zip ms) ≡ some ms

-- The parts that `ZipFile._extract_member` keeps.
unfoldable pub is_kept : Text → Bool
unfolding text_eq
is_kept part = not (is_empty part || (text_eq part (codes ".") || text_eq part (codes "..")))

-- `ZipInfo.is_dir`
unfoldable pub is_dir_name : Text → Bool
is_dir_name [] = false
is_dir_name (c ∷ []) = c == 47
is_dir_name (c ∷ d ∷ s) = is_dir_name (d ∷ s)

-- `open(path, "wb")` and a write of the content
unfoldable pub set_content : Text → Bytes → List (Text × Bytes) → List (Text × Bytes)
set_content n content [] = (n, content) ∷ []
set_content n content ((m, old) ∷ fs) =
    let rest = set_content n content fs in
    if text_eq m n then (m, content) ∷ fs else (m, old) ∷ rest

abbrev pub as_dir : Text → Dirs → Tree → Option Dirs
as_dir n ds t = some (dir n t ds)

abbrev pub with_dirs : List (Text × Bytes) → Option Dirs → Option Tree
with_dirs fs none = none
with_dirs fs (some ds) = some (node fs ds)

abbrev pub before_dirs : Text → Tree → Option Dirs → Option Dirs
before_dirs m t none = none
before_dirs m t (some ds) = some (dir m t ds)

-- A change inside a directory, which is made where it is missing.
unfoldable pub within : Text → (Tree → Option Tree) → Dirs → Option Dirs
within n f no_dirs = then_in (f empty_dir) (as_dir n no_dirs)
within n f (dir m t ds) =
    let rest = within n f ds in
    if text_eq m n then then_in (f t) (as_dir m ds) else before_dirs m t rest

abbrev pub is_there {ℓ} : {A : Type ℓ} → Option A → Bool
is_there none = false
is_there (some a) = true

-- A file is written below the directories that its path names. `none` where an `OSError` is raised,
-- a directory being in the way of a file or a file in the way of a directory.
unfoldable pub put : Parts → Bytes → Tree → Option Tree
unfolding set_content within content_in dir_in
put [] content t = none
put (n ∷ []) content (node fs ds) =
    if is_there (dir_in n ds) then none else some (node (set_content n content fs) ds)
put (n ∷ m ∷ rest) content (node fs ds) =
    if is_there (content_in n fs)
    then none
    else with_dirs fs (within n (λ t. put (m ∷ rest) content t) ds)

unfoldable pub make_dirs : Parts → Tree → Option Tree
unfolding within content_in
make_dirs [] t = some t
make_dirs (n ∷ rest) (node fs ds) =
    if is_there (content_in n fs) then none else with_dirs fs (within n (λ t. make_dirs rest t) ds)

unfoldable pub extract_member : Text × Bytes → Tree → Option Tree
extract_member (name, content) t =
    let path = keep is_kept (split_on slash name) in
    if is_dir_name name then make_dirs path t else put path content t

-- `ZipFile.extractall`
unfoldable pub extract_all : List (Text × Bytes) → Tree → Option Tree
unfolding extract_member
extract_all [] t = some t
extract_all (m ∷ ms) t = then_in (extract_member m t) (extract_all ms)

module _ (z : Zip) where
  unfoldable pub zip_tree : Tree → Bytes
  unfolding members join_by
  zip_tree t = z.zip (map entry_of (members t))

  unfoldable pub extract_zip_bytes : Bytes → Tree → Option Tree
  unfolding extract_all
  extract_zip_bytes archive t = elim (z.unzip archive) [ none ↦ none | some ms ↦ extract_all ms t ]

-- ===== src/Worker/Directories.antt =====
-- The directories of the worker by their paths, none of which lies in another.
use delegate_implementation.Base.{
  Text, text_eq, text_eq_iff, text_eq_refl, List, [], ◌∷◌, Option, none, some, Bool, true, false,
  ◌||◌, ◌&&◌, if◌then◌else◌, ◌≡◌, ◌∙◌, refl, arith, ◌==◌, ltb,
}
use delegate_implementation.Platform.{Bytes}
use delegate_implementation.Archive.{Tree, Dirs, node, no_dirs, dir, empty_dir, set_content}

abbrev pub Directories : Type 0
Directories = List (Text × Tree)

unfoldable pub tree_at : Text → Directories → Option Tree
tree_at path [] = none
tree_at path ((k, t) ∷ ds) = if text_eq k path then some t else tree_at path ds

-- `shutil.rmtree(path, ignore_errors=True)`
unfoldable pub rmtree : Text → Directories → Directories
rmtree path [] = []
rmtree path ((k, t) ∷ ds) =
    let rest = rmtree path ds in if text_eq k path then rest else (k, t) ∷ rest

-- The directory at a path with new contents. With none this is `tempfile.mkdtemp`.
unfoldable pub set_tree : Text → Tree → Directories → Directories
unfolding rmtree
set_tree path t ds = (path, t) ∷ rmtree path ds

-- `os.makedirs(path, exist_ok=True)`
unfoldable pub makedirs : Text → Directories → Directories
makedirs path ds = elim (tree_at path ds) [ none ↦ set_tree path empty_dir ds | some t ↦ ds ]

-- What `os.walk` finds at a path: nothing where there is no directory.
unfoldable pub tree_or_empty : Text → Directories → Tree
tree_or_empty path ds = elim (tree_at path ds) [ none ↦ empty_dir | some t ↦ t ]

pub tree_at-rmtree :
    (path other : Text) (ds : Directories)
    → tree_at other (rmtree path ds) ≡ (if text_eq path other then none else tree_at other ds)
unfolding tree_at rmtree
tree_at-rmtree path other [] = ground arith
tree_at-rmtree path other ((k, t) ∷ ds) = ground (
  arith,
  tree_at-rmtree path other ds,
  text_eq_iff path other,
  text_eq_iff k path,
  text_eq_iff k other,
)

pub tree_at-set_tree :
    (path other : Text) (t : Tree) (ds : Directories)
    → tree_at other (set_tree path t ds) ≡ (if text_eq path other then some t else tree_at other ds)
unfolding tree_at set_tree
tree_at-set_tree path other t ds = ground (arith, tree_at-rmtree path other ds)

-- The order of `str`: by code points.
unfoldable pub text_leb : Text → Text → Bool
text_leb [] t = true
text_leb (c ∷ s) [] = false
text_leb (c ∷ s) (d ∷ t) = ltb c d || ((c == d) && text_leb s t)

unfoldable pub insert_name : Text → List Text → List Text
unfolding text_leb
insert_name n [] = n ∷ []
insert_name n (m ∷ ns) =
    let rest = insert_name n ns in if text_leb n m then n ∷ m ∷ ns else m ∷ rest

-- `sorted`
unfoldable pub sorted : List Text → List Text
unfolding insert_name
sorted [] = []
sorted (n ∷ ns) = insert_name n (sorted ns)

unfoldable pub dir_names : Dirs → List Text
dir_names no_dirs = []
dir_names (dir n t ds) = n ∷ dir_names ds

unfoldable pub file_names : List (Text × Bytes) → Dirs → List Text
unfolding dir_names
file_names [] ds = dir_names ds
file_names ((n, content) ∷ fs) ds = n ∷ file_names fs ds

-- `os.listdir`, up to the order
unfoldable pub listdir : Tree → List Text
unfolding file_names
listdir (node fs ds) = file_names fs ds

-- `open(os.path.join(path, name), "w")` and the write of a text
unfoldable pub write_file : Text → Bytes → Tree → Tree
unfolding set_content
write_file name content (node fs ds) = node (set_content name content fs) ds

pub tree_at_same :
    (path : Text) (t : Tree) (ds : Directories) → tree_at path (set_tree path t ds) ≡ some t
tree_at_same path t ds = tree_at-set_tree path path t ds ∙ rw (text_eq_refl path) refl

pub makedirs_there :
    (path : Text) (ds : Directories) {t : Tree} → tree_at path ds ≡ some t → makedirs path ds ≡ ds
unfolding makedirs
makedirs_there path ds h = rw (makedirs, h) refl

pub tree_or_empty_there :
    (path : Text) (ds : Directories) {t : Tree}
    → tree_at path ds ≡ some t
    → tree_or_empty path ds ≡ t
unfolding tree_or_empty
tree_or_empty_there path ds h = rw (tree_or_empty, h) refl

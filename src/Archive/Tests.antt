-- ===== src/Archive/Tests.antt =====
-- The archive of a small directory.
use delegate_implementation.Base.{split_on, join_by, ◌≡◌, refl, text_eq, [], ◌∷◌, codes, some}
use delegate_implementation.Archive.{
  Parts, Tree, node, dir, no_dirs, empty_dir, content_in, dir_in, find, split_on, members, is_kept,
  is_dir_name, set_content, within, put, make_dirs, extract_member, extract_all, zip_tree,
  extract_zip_bytes,
}
use delegate_implementation.Archive.Names.{is_name}
use delegate_implementation.Archive.Extraction.{IsTree}
use delegate_implementation.Archive.RoundTrip.{extract_zip_bytes-zip_tree}
use delegate_implementation.Samples.Bundle.{tree, zipfile}

program : Unit {0}
unfolding content_in dir_in find join_by split_on members is_kept is_dir_name set_content within put
    make_dirs extract_member extract_all zip_tree extract_zip_bytes is_name text_eq
program = tt

tree-IsTree : IsTree tree
unfolding program
tree-IsTree = ((refl, refl, refl, tt), (refl, refl, ((refl, refl, refl, tt), tt), tt))

-- The directory `empty` has no file, so its archive does not name it.
abbrev with_empty : Tree
with_empty = node [] (dir (codes "empty") (node [] no_dirs) no_dirs)

forgets_empty_directories :
    extract_zip_bytes zipfile (zip_tree zipfile with_empty) empty_dir ≡ some empty_dir
unfolding program
forgets_empty_directories = refl

-- A name cannot leave the directory.
stays_inside :
    extract_all ((codes "../a/./b", 7 ∷ []) ∷ []) empty_dir
    ≡ some (node [] (dir (codes "a") (node ((codes "b", 7 ∷ []) ∷ []) no_dirs) no_dirs))
unfolding program
stays_inside = refl

extract_zip_bytes-zip_tree_example :
    (t' : Tree) × (extract_zip_bytes zipfile (zip_tree zipfile tree) empty_dir ≡ some t')
    × ((path : Parts) → find path t' ≡ find path tree)
extract_zip_bytes-zip_tree_example = extract_zip_bytes-zip_tree zipfile tree tree-IsTree refl

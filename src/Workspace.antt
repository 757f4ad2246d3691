-- ===== src/Workspace.antt =====
-- shared/delegate_protocol/chunked_transfer.py: `zip_directory_to_bytes` and
-- `zip_single_file_to_bytes`. The file system and the ZIP format are a parameter; that an archive
-- cannot be written is left out.
use delegate_implementation.Base.{
  Text, text_eq, text_eq_iff, [], ◌∷◌, ◌++◌, Option, none, some, Bool, true, false, not, ◌&&◌,
  if◌then◌else◌, ◌≡◌, refl, ◌↔◌, arith,
}
use delegate_implementation.Platform.{Bytes}
use delegate_implementation.Archive.{Parts, Tree, Zip, zip_tree}

pub record Os : Type 0 where
  pub join : Text → Text → Text
  pub normpath : Text → Text
  -- `os.path.realpath`, split at the separators
  pub realpath : Text → Parts
  pub isfile : Text → Bool
  pub isdir : Text → Bool
  pub abspath : Text → Text
  -- what is below a directory, and in a file
  pub tree : Text → Tree
  pub content : Text → Bytes
  pub zipfile : Zip

unfoldable pub parts_eq : Parts → Parts → Bool
parts_eq [] [] = true
parts_eq [] (y ∷ ys) = false
parts_eq (x ∷ xs) [] = false
parts_eq (x ∷ xs) (y ∷ ys) = text_eq x y && parts_eq xs ys

-- `os.path.commonpath([a, b])` of two absolute paths
unfoldable pub commonpath : Parts → Parts → Parts
commonpath [] ys = []
commonpath (x ∷ xs) [] = []
commonpath (x ∷ xs) (y ∷ ys) = if text_eq x y then x ∷ commonpath xs ys else []

module _ (os : Os) where
  unfoldable pub zip_directory_to_bytes : Text → Bytes
  zip_directory_to_bytes src_dir = zip_tree os.zipfile (os.tree src_dir)

  unfoldable pub zip_single_file_to_bytes : Text → Text → Option Bytes
  unfolding parts_eq commonpath
  zip_single_file_to_bytes src_dir file_name =
      let full_path = os.normpath (os.join src_dir file_name) in
      let src_dir_real = os.realpath src_dir in
      if not (parts_eq (commonpath src_dir_real (os.realpath full_path)) src_dir_real)
      then none
      else if not (os.isfile full_path)
      then none
      else some (os.zipfile.zip ((file_name, os.content full_path) ∷ []))

commonpath-prefix :
    (xs ys : Parts) → parts_eq (commonpath xs ys) xs ≡ true → (rest : Parts) × (xs ++ rest ≡ ys)
unfolding parts_eq commonpath
commonpath-prefix [] ys h = (ys, refl)
commonpath-prefix (x ∷ xs) [] h = absurd (ground arith)
commonpath-prefix (x ∷ xs) (y ∷ ys) h =
    let (rest, e) = commonpath-prefix xs ys (ground (arith, text_eq_iff x y, text_eq_iff x x)) in
    (rest, ground (arith, text_eq_iff x y))

prefix-commonpath : (xs rest : Parts) → parts_eq (commonpath xs (xs ++ rest)) xs ≡ true
unfolding parts_eq commonpath
prefix-commonpath [] rest = refl
prefix-commonpath (x ∷ xs) rest = ground (arith, text_eq_iff x x, prefix-commonpath xs rest)

-- The request of one file is answered with `z` exactly when the name, resolved against the
-- directory with its `..` and links, is a regular file whose real path lies in the real directory,
-- and `z` is the archive of that file.
pub zip_single_file_to_bytes-confined :
    (os : Os) (src_dir file_name : Text) (z : Bytes)
    → let full = os.normpath (os.join src_dir file_name) in
      (zip_single_file_to_bytes os src_dir file_name ≡ some z) ↔ (
        ((rest : Parts) × (os.realpath src_dir ++ rest ≡ os.realpath full))
        × (os.isfile full ≡ true)
        × (z ≡ os.zipfile.zip ((file_name, os.content full) ∷ [])))
unfolding zip_single_file_to_bytes
zip_single_file_to_bytes-confined os src_dir file_name z = (
  λ h. (
    commonpath-prefix (os.realpath src_dir) (os.realpath (os.normpath (os.join src_dir file_name)))
        (ground arith),
    ground arith,
    ground arith,
  ),
  λ h.
      let (rest, inside) = h.0 in
      let common = prefix-commonpath (os.realpath src_dir) rest in
      let within = rw inside at common in ground arith,
)

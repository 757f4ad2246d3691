-- ===== src/Archive/RoundTrip.antt =====
-- Extracting the archive of a directory gives back its files.
use delegate_implementation.Base.{
  List, [], ◌∷◌, map, some, Option-cases, true, inl, inr, ◌≡◌, ◌∙◌, refl,
}
use delegate_implementation.Archive.{
  Parts, Tree, empty_dir, find, Member, members, put, entry_of, extract_all, Zip, zip_tree,
  extract_zip_bytes,
}
use delegate_implementation.Archive.Names.{AreMembers, extract_member-put}
use delegate_implementation.Archive.Extraction.{IsTree, put_all}
use delegate_implementation.Archive.Members.{prune, put_all-members, AreMembers-members}
use delegate_implementation.Archive.Prune.{find-prune}

extract_all-put_all :
    (ms : List Member) (t : Tree) → AreMembers ms → extract_all (map entry_of ms) t ≡ put_all ms t
unfolding extract_all put_all
extract_all-put_all [] t h = refl
extract_all-put_all (([], content) ∷ ms) t h = absurd h
extract_all-put_all ((n ∷ path, content) ∷ ms) t h =
    rw (extract_member-put n path content t h.0) (elim (Option-cases (put (n ∷ path) content t)) [
      | inl e ↦ rw e refl
      | inr (t', e) ↦ rw e (extract_all-put_all ms t' h.1)
    ])

-- The archive of a directory whose names are names, and which `ZipFile.write` accepts, extracted
-- into an empty directory, raises nothing and makes a directory that has the same files at the same
-- paths, and no others.
pub extract_zip_bytes-zip_tree :
    (z : Zip) (t : Tree)
    → IsTree t
    → z.accepts (map entry_of (members t)) ≡ true
    → (t' : Tree) × (extract_zip_bytes z (zip_tree z t) empty_dir ≡ some t')
      × ((path : Parts) → find path t' ≡ find path t)
unfolding extract_zip_bytes zip_tree
extract_zip_bytes-zip_tree z t h ok = (
  prune t,
  rw (extract_zip_bytes, zip_tree, z.unzip-zip (map entry_of (members t)) ok)
      (extract_all-put_all (members t) empty_dir (AreMembers-members t h) ∙ put_all-members t h),
  λ path. find-prune path t h,
)

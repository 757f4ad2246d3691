-- ===== src/Archive/Prune.antt =====
-- A directory without its empty parts has the same files.
use delegate_implementation.Base.{
  Text, text_eq, text_eq_iff, List, [], ◌∷◌, ◌++◌, map, none, some, Option-cases, Bool-cases, inl,
  inr, ◌≡◌, refl, sym, arith,
}
use delegate_implementation.Archive.{
  Parts, Tree, Dirs, node, no_dirs, dir, dir_in, then_in, find, Member, under, members,
  members_dirs,
}
use delegate_implementation.Archive.Extraction.{IsTree, AreDirs}
use delegate_implementation.Archive.Members.{keep_dir, prune, prune_dirs}

nothing_under :
    (n : Text) (ms rest : List Member) → map (under n) ms ++ rest ≡ [] → (ms ≡ []) × (rest ≡ [])
nothing_under n [] rest h = (refl, h)
nothing_under n (m ∷ ms) rest h = absurd (ground arith)

no_members-dir_in :
    (n : Text) (ds : Dirs) (t : Tree) → members_dirs ds ≡ [] → dir_in n ds ≡ some t → members t ≡ []
unfolding members dir_in
no_members-dir_in n no_dirs t h e = absurd (ground arith)
no_members-dir_in n (dir m u ds) t h e =
    let (here, below) = nothing_under m (members u) (members_dirs ds) h in
    elim (Bool-cases (text_eq m n)) [
      | inl same ↦ let y : u ≡ t = ground arith in rw (sym y) here
      | inr other ↦ no_members-dir_in n ds t below (ground arith)
    ]

-- In a directory whose archive is empty no file is found.
find-no_members : (path : Parts) (t : Tree) → members t ≡ [] → find path t ≡ none
unfolding members find
find-no_members [] t h = refl
find-no_members (n ∷ []) (node [] ds) h = refl
find-no_members (n ∷ []) (node (f ∷ fs) ds) h = absurd (ground arith)
find-no_members (n ∷ m ∷ rest) (node (f ∷ fs) ds) h = absurd (ground arith)
find-no_members (n ∷ m ∷ rest) (node [] ds) h = elim (Option-cases (dir_in n ds)) [
  | inl e ↦ rw e refl
  | inr (t, e) ↦ rw e (find-no_members (m ∷ rest) t (no_members-dir_in n ds t h e))
]

dir_in-prune_dirs : (n : Text) (ds : Dirs) → dir_in n ds ≡ none → dir_in n (prune_dirs ds) ≡ none
unfolding prune dir_in
dir_in-prune_dirs n no_dirs h = refl
dir_in-prune_dirs n (dir m t ds) h =
    let rest = dir_in-prune_dirs n ds (ground arith) in dir_in-keep_dir (members t) rest
  where
    dir_in-keep_dir :
        (ms : List Member)
        → dir_in n (prune_dirs ds) ≡ none
        → dir_in n (keep_dir ms m (prune t) (prune_dirs ds)) ≡ none
    dir_in-keep_dir [] rest = rest
    dir_in-keep_dir (k ∷ ms) rest = ground arith

find-keep_dir :
    (n k m : Text) (rest : Parts) (t : Tree) (ds : Dirs) (ms : List Member)
    → members t ≡ ms
    → dir_in k ds ≡ none
    → find (m ∷ rest) (prune t) ≡ find (m ∷ rest) t
    → then_in (dir_in n (prune_dirs ds)) (find (m ∷ rest)) ≡ then_in (dir_in n ds) (find (m ∷ rest))
    → then_in (dir_in n (keep_dir ms k (prune t) (prune_dirs ds))) (find (m ∷ rest))
      ≡ then_in (dir_in n (dir k t ds)) (find (m ∷ rest))
unfolding dir_in
find-keep_dir n k m rest t ds [] e fresh here below = elim (Bool-cases (text_eq k n)) [
  | inl same ↦
      let y : k ≡ n = ground (arith, text_eq_iff k n) in
      rw (same, dir_in-prune_dirs n ds (rw (sym y) fresh)) (sym (find-no_members (m ∷ rest) t e))
  | inr other ↦ rw other below
]
find-keep_dir n k m rest t ds (x ∷ ms) e fresh here below = elim (Bool-cases (text_eq k n)) [
  | inl same ↦ rw same here
  | inr other ↦ rw other below
]

mutual
  unfolding prune find

  pub find-prune : (path : Parts) (t : Tree) → IsTree t → find path (prune t) ≡ find path t
  find-prune [] t h = refl
  find-prune (n ∷ []) (node fs ds) h = refl
  find-prune (n ∷ m ∷ rest) (node fs ds) h = find-prune_dirs n m rest ds h.1

  find-prune_dirs :
      (n m : Text) (rest : Parts) (ds : Dirs)
      → AreDirs ds
      → then_in (dir_in n (prune_dirs ds)) (find (m ∷ rest))
        ≡ then_in (dir_in n ds) (find (m ∷ rest))
  find-prune_dirs n m rest no_dirs h = refl
  find-prune_dirs n m rest (dir k t ds) h =
      find-keep_dir n k m rest t ds (members t) refl h.1 (find-prune (m ∷ rest) t h.2)
        (find-prune_dirs n m rest ds h.3)

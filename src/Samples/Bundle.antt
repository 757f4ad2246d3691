-- ===== src/Samples/Bundle.antt =====
-- An archive format on which the definitions run: names and contents, each ended by a 0.
use delegate_implementation.Base.{
  ℕ, zero, suc, Text, codes, List, [], ◌∷◌, ◌++◌, Option, none, some, true, ◌≡◌, ◌∙◌, refl, ap,
}
use delegate_implementation.Platform.{Bytes}
use delegate_implementation.Archive.{Zip, Tree, node, dir, no_dirs}

abbrev ended : Text → Bytes
ended [] = 0 ∷ []
ended (c ∷ s) = suc c ∷ ended s

abbrev pub bundle : List (Text × Bytes) → Bytes
bundle [] = []
bundle ((name, content) ∷ ms) = ended name ++ (ended content ++ bundle ms)

abbrev onto_first : ℕ → List Text → List Text
onto_first c [] = (c ∷ []) ∷ []
onto_first c (p ∷ ps) = (c ∷ p) ∷ ps

abbrev pieces : Bytes → List Text
pieces [] = [] ∷ []
pieces (zero ∷ s) = [] ∷ pieces s
pieces (suc c ∷ s) = onto_first c (pieces s)

abbrev with_member : Text × Bytes → Option (List (Text × Bytes)) → Option (List (Text × Bytes))
with_member m none = none
with_member m (some ms) = some (m ∷ ms)

abbrev pairs : List Text → Option (List (Text × Bytes))
pairs [] = none
pairs ([] ∷ []) = some []
pairs ((c ∷ s) ∷ []) = none
pairs (name ∷ content ∷ rest) = with_member (name, content) (pairs rest)

pieces-ended : (t s : Text) → pieces (ended t ++ s) ≡ t ∷ pieces s
pieces-ended [] s = refl
pieces-ended (c ∷ t) s = ap (onto_first c) (pieces-ended t s)

pub pairs-bundle : (ms : List (Text × Bytes)) → pairs (pieces (bundle ms)) ≡ some ms
pairs-bundle [] = refl
pairs-bundle ((name, content) ∷ ms) =
    ap pairs (
      pieces-ended name (ended content ++ bundle ms)
      ∙ ap (◌∷◌ name) (pieces-ended content (bundle ms)))
    ∙ ap (with_member (name, content)) (pairs-bundle ms)

abbrev pub zipfile : Zip
zipfile = record {
  zip = bundle;
  unzip = λ archive. pairs (pieces archive);
  accepts = λ ms. true;
  unzip-zip = λ ms h. pairs-bundle ms;
}

-- `a.txt`, and `b.txt` in `sub`
abbrev pub tree : Tree
tree =
    node ((codes "a.txt", 7 ∷ []) ∷ [])
      (dir (codes "sub") (node ((codes "b.txt", 8 ∷ []) ∷ []) no_dirs) no_dirs)

-- The archive of `a.txt` alone
abbrev pub single : Bytes
single = bundle ((codes "a.txt", 7 ∷ []) ∷ [])

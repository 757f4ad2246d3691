-- ===== src/Base/Split.antt =====
-- Texts cut at a separator, and joined by it.
use Prim.Native.Nat.{ℕ}
use mathlib.Core.Path.{◌≡◌, refl, ap, ◌∙◌}
use mathlib.Core.Bool.{Bool, true, false}
use mathlib.Core.List.{List, [], ◌∷◌, ◌++◌}
use native.Mathlib.Omega.{arith}
use delegate_implementation.Base.Tests.{if◌then◌else◌, ◌==◌}
use delegate_implementation.Base.Lists.{any, All}
use delegate_implementation.Base.Strings.{Text}

abbrev onto_first : ℕ → List Text → List Text
onto_first c [] = (c ∷ []) ∷ []
onto_first c (p ∷ ps) = (c ∷ p) ∷ ps

-- `s.split(sep)`
unfoldable pub split_on : ℕ → Text → List Text
split_on sep [] = [] ∷ []
split_on sep (c ∷ s) =
    let rest = split_on sep s in if c == sep then [] ∷ rest else onto_first c rest

-- `sep.join(parts)`
unfoldable pub join_by : ℕ → List Text → Text
join_by sep [] = []
join_by sep (p ∷ []) = p
join_by sep (p ∷ q ∷ ps) = p ++ sep ∷ join_by sep (q ∷ ps)

-- The separator is a character of the text.
abbrev pub has : ℕ → Text → Bool
has sep = any (λ c. c == sep)

pub split_on_part : (sep : ℕ) (p : Text) → has sep p ≡ false → split_on sep p ≡ p ∷ []
unfolding split_on
split_on_part sep [] h = refl
split_on_part sep (c ∷ p) h = ground (arith, split_on_part sep p)

split_on-append :
    (sep : ℕ) (p s : Text) → has sep p ≡ false → split_on sep (p ++ sep ∷ s) ≡ p ∷ split_on sep s
unfolding split_on
split_on-append sep [] s h = ground arith
split_on-append sep (c ∷ p) s h = ground (arith, split_on-append sep p s)

pub split_on-join_by :
    (sep : ℕ) (p : Text) (ps : List Text)
    → All (λ q. has sep q ≡ false) (p ∷ ps)
    → split_on sep (join_by sep (p ∷ ps)) ≡ p ∷ ps
unfolding join_by
split_on-join_by sep p [] h = split_on_part sep p h.0
split_on-join_by sep p (q ∷ ps) h =
    split_on-append sep p (join_by sep (q ∷ ps)) h.0 ∙ ap (◌∷◌ p) (split_on-join_by sep q ps h.1)

join_by-onto_first :
    (sep c : ℕ) (ps : List Text) → join_by sep (onto_first c ps) ≡ c ∷ join_by sep ps
unfolding join_by
join_by-onto_first sep c [] = refl
join_by-onto_first sep c (p ∷ []) = refl
join_by-onto_first sep c (p ∷ q ∷ ps) = refl

join_by_empty_first :
    (sep : ℕ) (s : Text) → join_by sep ([] ∷ split_on sep s) ≡ sep ∷ join_by sep (split_on sep s)
unfolding split_on join_by
join_by_empty_first sep [] = refl
join_by_empty_first sep (c ∷ s) = filled_first (c == sep) (split_on sep s)
  where
    filled_first :
        (b : Bool) (ps : List Text)
        → join_by sep ([] ∷ (if b then [] ∷ ps else onto_first c ps))
          ≡ sep ∷ join_by sep (if b then [] ∷ ps else onto_first c ps)
    filled_first true ps = refl
    filled_first false [] = refl
    filled_first false (p ∷ ps) = refl

join_by_single : (sep : ℕ) (p : Text) → join_by sep (p ∷ []) ≡ p
unfolding join_by
join_by_single sep p = refl

pub join_by-split_on : (sep : ℕ) (s : Text) → join_by sep (split_on sep s) ≡ s
unfolding split_on
join_by-split_on sep [] = join_by_single sep []
join_by-split_on sep (c ∷ s) =
    let rest = join_by-split_on sep s in
    let first = join_by_empty_first sep s in
    let same = join_by-onto_first sep c (split_on sep s) in ground arith

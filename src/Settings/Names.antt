-- ===== src/Settings/Names.antt =====
-- The extra names of a server certificate, as they are read from one variable.
use delegate_implementation.Base.{
  ℕ, Text, is_empty, has, split_on, join_by, split_on-join_by, List, [], ◌∷◌, map, keep, All, Bool,
  false, not, ◌≡◌, ◌∙◌, refl, ap,
}
use delegate_implementation.Settings.{left_strip, right_strip, strip, extra_names}

module _ (is_space : ℕ → Bool) where
  -- Neither empty nor with a comma, nor with a space at an end.
  pub record IsHostName (n : Text) : Type 0 where
    pub filled : is_empty n ≡ false
    pub no_comma : has 44 n ≡ false
    pub trimmed : strip is_space n ≡ n

  commas : (ns : List Text) → All IsHostName ns → All (λ n. has 44 n ≡ false) ns
  commas [] h = tt
  commas (n ∷ ns) h = (h.0.no_comma, commas ns h.1)

  map-strip : (ns : List Text) → All IsHostName ns → map (strip is_space) ns ≡ ns
  map-strip [] h = refl
  map-strip (n ∷ ns) h = rw (h.0.trimmed, map-strip ns h.1) refl

  keep_names : (ns : List Text) → All IsHostName ns → keep (λ n. not (is_empty n)) ns ≡ ns
  keep_names [] h = refl
  keep_names (n ∷ ns) h = rw (h.0.filled) (ap (◌∷◌ n) (keep_names ns h.1))

  no_names : extra_names is_space (join_by 44 []) ≡ []
  unfolding extra_names strip left_strip right_strip split_on join_by
  no_names = refl

  -- Names that are written one after the other, with commas between them, are read back.
  pub extra_names-join_by :
      (ns : List Text) → All IsHostName ns → extra_names is_space (join_by 44 ns) ≡ ns
  unfolding extra_names
  extra_names-join_by [] h = no_names
  extra_names-join_by (n ∷ ns) h =
      ap (λ (xs : List Text). keep (λ n. not (is_empty n)) (map (strip is_space) xs))
        (split_on-join_by 44 n ns (commas (n ∷ ns) h))
      ∙ (ap (keep (λ n. not (is_empty n))) (map-strip (n ∷ ns) h) ∙ keep_names (n ∷ ns) h)

-- ===== src/Go/Split.antt =====
-- `strings.Split` and `strings.Cut` at one byte, `s[strings.LastIndex(s, sep):]` and
-- `strings.HasPrefix`.
use ringcache.Base.{
  ℕ, ◌≡◌, ◌≢◌, refl, ap, ◌∙◌, Bool, false, List, [], ◌∷◌, ◌++◌, Option, none, some, arith, ◌==◌,
  if◌then◌else◌, All, is_some, ◌⊎◌, inl, inr, ℕ_discrete,
}
use ringcache.Go.Text.{Text}
use ringcache.Go.Trim.{strip}

-- A byte before the first part.
abbrev extend : ℕ → List Text → List Text
extend c [] = (c ∷ []) ∷ []
extend c (p ∷ ps) = (c ∷ p) ∷ ps

unfoldable pub split : ℕ → Text → List Text
split sep [] = [] ∷ []
split sep (c ∷ cs) = let rest = split sep cs in if c == sep then [] ∷ rest else extend c rest

-- The text before and after the first separator.
unfoldable pub cut : ℕ → Text → Option (Text × Text)
cut sep [] = none
cut sep (c ∷ cs) =
    let rest = cut sep cs in
    if c == sep then some ([], cs) else elim rest [ none ↦ none | some (a, b) ↦ some (c ∷ a, b) ]

-- The text from the last separator on.
unfoldable pub from_last : ℕ → Text → Option Text
from_last sep [] = none
from_last sep (c ∷ cs) = elim (from_last sep cs) [
  | some t ↦ some t
  | none ↦ if c == sep then some (c ∷ cs) else none
]

unfoldable pub has_prefix : Text → Text → Bool
unfolding strip
has_prefix s p = is_some (strip p s)

-- The text has no such byte.
abbrev pub Lacks : ℕ → Text → Type 0
Lacks sep = All (λ c. c ≢ sep)

-- Parts with a separator between each two.
abbrev pub join : ℕ → List Text → Text
join sep [] = []
join sep (p ∷ []) = p
join sep (p ∷ q ∷ ps) = p ++ sep ∷ join sep (q ∷ ps)

split_one : (sep : ℕ) (p : Text) → Lacks sep p → split sep p ≡ p ∷ []
unfolding split
split_one sep [] h = refl
split_one sep (c ∷ p) h = rw (split_one sep p h.1) (ground (arith, h.0))

split-append : (sep : ℕ) (p s : Text) → Lacks sep p → split sep (p ++ sep ∷ s) ≡ p ∷ split sep s
unfolding split
split-append sep [] s h = ground arith
split-append sep (c ∷ p) s h = rw (split-append sep p s h.1) (ground (arith, h.0))

-- Parts without the separator are found again between the separators.
pub split-join :
    (sep : ℕ) (p : Text) (ps : List Text)
    → All (Lacks sep) (p ∷ ps)
    → split sep (join sep (p ∷ ps)) ≡ p ∷ ps
split-join sep p [] h = split_one sep p h.0
split-join sep p (q ∷ ps) h =
    split-append sep p (join sep (q ∷ ps)) h.0 ∙ ap (◌∷◌ p) (split-join sep q ps h.1)

pub cut-append : (sep : ℕ) (a b : Text) → Lacks sep a → cut sep (a ++ sep ∷ b) ≡ some (a, b)
unfolding cut
cut-append sep [] b h = ground arith
cut-append sep (c ∷ a) b h = rw (cut-append sep a b h.1) (ground (arith, h.0))

-- The two outcomes of `cut`: there is no separator, or it splits the text at the first.
pub cut-cases :
    (sep : ℕ) (s : Text)
    → ((cut sep s ≡ none) × Lacks sep s)
      ⊎ ((a : Text) × (b : Text) × (cut sep s ≡ some (a, b)) × (s ≡ a ++ sep ∷ b) × Lacks sep a)
unfolding cut
cut-cases sep [] = inl (refl, tt)
cut-cases sep (c ∷ s) = elim (ℕ_discrete c sep) [
  | yes p ↦ inr ([], s, ground arith, ap (λ x. x ∷ s) p, tt)
  | no n ↦ elim (cut-cases sep s) [
    | inl (e, h) ↦ inl (rw (e) (ground arith), (n, h))
    | inr (a, b, e, f, h) ↦ inr (c ∷ a, b, rw (e) (ground arith), ap (◌∷◌ c) f, (n, h))
  ]
]

-- The text from the last separator on starts with it, and is all of its own such text.
pub from_last-cases :
    (sep : ℕ) (s : Text)
    → ((from_last sep s ≡ none) × (has_prefix s (sep ∷ []) ≡ false))
      ⊎ ((t : Text) × (from_last sep s ≡ some (sep ∷ t))
          × (from_last sep (sep ∷ t) ≡ some (sep ∷ t)))
unfolding from_last has_prefix strip
from_last-cases sep [] = inl (refl, refl)
from_last-cases sep (c ∷ s) = elim (from_last-cases sep s) [
  | inr (t, e, f) ↦ inr (t, rw (e, from_last) refl, f)
  | inl (e, f) ↦ elim (ℕ_discrete c sep) [
    | yes p ↦ inr (s, rw (e, from_last) (ground arith), rw (e, from_last) (ground arith))
    | no n ↦ inl (rw (e, from_last) (ground arith), ground arith)
  ]
]

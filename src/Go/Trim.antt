-- ===== src/Go/Trim.antt =====
-- `strings.TrimSpace` and `strings.TrimRight(s, "/")` on the bytes of a string.
use mathlib.Core.List.{reverse, reverse_aux, reverse-reverse}
use ringcache.Base.{
  ℕ, zero, suc, List, [], ◌∷◌, Option, none, some, map, length, ◌==◌, if◌then◌else◌, ◌≤◌, ◌≡◌, refl,
  All, arith, Bool, true, false, ◌&&◌, ◌||◌, ltb,
}
use ringcache.Go.Text.{Text}

-- The encodings in UTF-8 of the code points that `unicode.IsSpace` accepts.
abbrev spaces : List Text
spaces =
    (9 ∷ [])
    ∷ (10 ∷ [])
    ∷ (11 ∷ [])
    ∷ (12 ∷ [])
    ∷ (13 ∷ [])
    ∷ (32 ∷ [])
    ∷ (0xC2 ∷ 0x85 ∷ [])
    ∷ (0xC2 ∷ 0xA0 ∷ [])
    ∷ (0xE1 ∷ 0x9A ∷ 0x80 ∷ [])
    ∷ (0xE2 ∷ 0x80 ∷ 0x80 ∷ [])
    ∷ (0xE2 ∷ 0x80 ∷ 0x81 ∷ [])
    ∷ (0xE2 ∷ 0x80 ∷ 0x82 ∷ [])
    ∷ (0xE2 ∷ 0x80 ∷ 0x83 ∷ [])
    ∷ (0xE2 ∷ 0x80 ∷ 0x84 ∷ [])
    ∷ (0xE2 ∷ 0x80 ∷ 0x85 ∷ [])
    ∷ (0xE2 ∷ 0x80 ∷ 0x86 ∷ [])
    ∷ (0xE2 ∷ 0x80 ∷ 0x87 ∷ [])
    ∷ (0xE2 ∷ 0x80 ∷ 0x88 ∷ [])
    ∷ (0xE2 ∷ 0x80 ∷ 0x89 ∷ [])
    ∷ (0xE2 ∷ 0x80 ∷ 0x8A ∷ [])
    ∷ (0xE2 ∷ 0x80 ∷ 0xA8 ∷ [])
    ∷ (0xE2 ∷ 0x80 ∷ 0xA9 ∷ [])
    ∷ (0xE2 ∷ 0x80 ∷ 0xAF ∷ [])
    ∷ (0xE2 ∷ 0x81 ∷ 0x9F ∷ [])
    ∷ (0xE3 ∷ 0x80 ∷ 0x80 ∷ [])
    ∷ []

-- `s` without the prefix `p`.
unfoldable pub strip : Text → Text → Option Text
strip [] s = some s
strip (x ∷ p) [] = none
strip (x ∷ p) (y ∷ s) = if x == y then strip p s else none

unfoldable pub strip_any : List Text → Text → Option Text
unfolding strip
strip_any [] s = none
strip_any (p ∷ ps) s = elim (strip p s) [ some rest ↦ some rest | none ↦ strip_any ps s ]

-- Each round takes a byte or more, so that the length of `s` is enough of them.
unfoldable pub trim_left : ℕ → List Text → Text → Text
unfolding strip_any
trim_left zero ps s = s
trim_left (suc fuel) ps s = elim (strip_any ps s) [ none ↦ s | some rest ↦ trim_left fuel ps rest ]

unfoldable pub trim_space : Text → Text
unfolding trim_left
trim_space s =
    let l = trim_left (length s) spaces s in
    reverse (trim_left (length l) (map reverse spaces) (reverse l))

unfoldable pub trim_slashes : Text → Text
unfolding trim_left
trim_slashes s = reverse (trim_left (length s) ((b'/' ∷ []) ∷ []) (reverse s))

-- A byte that is printed and is no space, in ASCII.
abbrev pub IsPrintable : ℕ → Type 0
IsPrintable c = (b'!' ≤ c) × (c ≤ b'~')

-- No pattern starts with a printed byte.
unprinted : List Text → Bool
unprinted [] = true
unprinted ([] ∷ ps) = false
unprinted ((c ∷ p) ∷ ps) = (ltb c b'!' || ltb b'~' c) && unprinted ps

strip-printable :
    (x c : ℕ) (p s : Text)
    → (ltb x b'!' || ltb b'~' x) ≡ true
    → IsPrintable c
    → strip (x ∷ p) (c ∷ s) ≡ none
unfolding strip
strip-printable x c p s e h = ground arith

strip_any-printable :
    (ps : List Text) (c : ℕ) (s : Text)
    → unprinted ps ≡ true
    → IsPrintable c
    → strip_any ps (c ∷ s) ≡ none
unfolding strip_any unprinted
strip_any-printable [] c s e h = refl
strip_any-printable ([] ∷ ps) c s e h = absurd (ground arith)
strip_any-printable ((x ∷ p) ∷ ps) c s e h =
    rw (strip-printable x c p s (ground arith) h, strip_any)
      (strip_any-printable ps c s (ground arith) h)

strip_any-nil : (ps : List Text) → unprinted ps ≡ true → strip_any ps [] ≡ none
unfolding strip_any strip unprinted
strip_any-nil [] e = refl
strip_any-nil ([] ∷ ps) e = absurd (ground arith)
strip_any-nil ((x ∷ p) ∷ ps) e = strip_any-nil ps (ground arith)

trim_left-printable :
    (fuel : ℕ) (ps : List Text) (s : Text)
    → unprinted ps ≡ true
    → All IsPrintable s
    → trim_left fuel ps s ≡ s
unfolding trim_left
trim_left-printable zero ps s e h = refl
trim_left-printable (suc fuel) ps [] e h = rw (strip_any-nil ps e, trim_left) refl
trim_left-printable (suc fuel) ps (c ∷ s) e h =
    rw (strip_any-printable ps c s e h.0, trim_left) refl

All-reverse :
    (s t : Text) → All IsPrintable s → All IsPrintable t → All IsPrintable (reverse_aux s t)
All-reverse [] t h k = k
All-reverse (c ∷ s) t h k = All-reverse s (c ∷ t) h.1 (h.0, k)

-- Printed text has no space to trim.
pub trim_space-printable : (s : Text) → All IsPrintable s → trim_space s ≡ s
unfolding trim_space unprinted
trim_space-printable s h =
    rw
      (
        trim_left-printable (length s) spaces s refl h,
        trim_left-printable (length s) (map reverse spaces) (reverse s) refl
            (All-reverse s [] h tt),
      )
      (reverse-reverse s)

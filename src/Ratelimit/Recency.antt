-- ===== src/Ratelimit/Recency.antt =====
-- Lists of keys by their last use, the latest in front.
use mathlib.Core.List.{reverse, reverse-cons}
use ringcache.Base.{
  ℕ, zero, suc, ◌≤◌, ◌≡◌, ◌≢◌, refl, sym, ◌∙◌, ap, subst, true, false, List, [], ◌∷◌, ◌++◌, arith,
  length, take, contains, erase, fresh, Distinct, erase_absent, length-append, append-nil,
  contains-append,
}
use ringcache.Go.Text.{Text, text_dec}

-- A key that has been seen already is skipped, whether or not it is erased first.
pub fresh-skip :
    (k : Text) (seen ks : List Text)
    → contains text_dec k seen ≡ true
    → fresh text_dec seen (erase text_dec k ks) ≡ fresh text_dec seen ks
unfolding fresh erase contains
fresh-skip k seen [] h = refl
fresh-skip k seen (j ∷ ks) h = ground (arith, fresh-skip k seen ks h, fresh-skip k (j ∷ seen) ks)

absent-take :
    (k : Text) (c : ℕ) (ks : List Text)
    → contains text_dec k ks ≡ false
    → contains text_dec k (take c ks) ≡ false
unfolding contains
absent-take k zero ks h = refl
absent-take k (suc c) [] h = refl
absent-take k (suc c) (j ∷ ks) h = ground (arith, absent-take k c ks)

pub take-take : (c : ℕ) (ks : List Text) → take c (take c ks) ≡ take c ks
take-take zero ks = refl
take-take (suc c) [] = refl
take-take (suc c) (k ∷ ks) = ap (◌∷◌ k) (take-take c ks)

erase_hit : (k j : Text) (ks : List Text) → j ≡ k → erase text_dec k (j ∷ ks) ≡ erase text_dec k ks
unfolding erase
erase_hit k j ks p = ground arith

erase_miss :
    (k j : Text) (ks : List Text) → j ≢ k → erase text_dec k (j ∷ ks) ≡ j ∷ erase text_dec k ks
unfolding erase
erase_miss k j ks ne = ground arith

erase_first :
    (k j : Text) (ks js : List Text) (c : ℕ)
    → j ≡ k
    → take c (erase text_dec k js) ≡ take c (erase text_dec k ks)
    → take c (erase text_dec k (j ∷ js)) ≡ take c (erase text_dec k (j ∷ ks))
erase_first k j ks js c p e = rw (erase_hit k j js p, erase_hit k j ks p) e

take-erase_ne :
    (k j : Text) (c : ℕ) (ks : List Text)
    → j ≢ k
    → ((e : ℕ) → take e (erase text_dec k (take (suc e) ks)) ≡ take e (erase text_dec k ks))
    → take c (erase text_dec k (j ∷ take c ks)) ≡ take c (erase text_dec k (j ∷ ks))
take-erase_ne k j zero ks ne h = refl
take-erase_ne k j (suc c) ks ne h =
    rw (erase_miss k j (take (suc c) ks) ne, erase_miss k j ks ne) (ap (◌∷◌ j) (h c))

-- Of distinct keys, the ones that follow the key used last.
pub take-erase :
    (k : Text) (c : ℕ) (ks : List Text)
    → Distinct text_dec ks
    → take c (erase text_dec k (take (suc c) ks)) ≡ take c (erase text_dec k ks)
unfolding erase
take-erase k c [] d = refl
take-erase k c (j ∷ ks) d = elim (text_dec j k) [
  | yes p ↦
      let gone = subst (λ i. contains text_dec i ks ≡ false) p d.0 in
      let gone_too = absent-take k c ks gone in
      erase_first k j ks (take c ks) c p (
        ap (take c) (erase_absent text_dec k (take c ks) gone_too)
        ∙ take-take c ks
        ∙ ap (take c) (sym (erase_absent text_dec k ks gone)))
  | no ne ↦ take-erase_ne k j c ks ne (λ e. take-erase k e ks d.1)
]

module _ {ℓ} {A : Type ℓ} where
  pub length-reverse : (xs : List A) → length (reverse xs) ≡ length xs
  length-reverse [] = refl
  length-reverse (x ∷ xs) =
      omega (
        arith,
        ap length (reverse-cons x xs),
        length-append (reverse xs) (x ∷ []),
        length-reverse xs,
      )

  pub take-append_le : (n : ℕ) (xs ys : List A) → n ≤ length xs → take n (xs ++ ys) ≡ take n xs
  take-append_le zero xs ys h = refl
  take-append_le (suc n) [] ys h = absurd (omega arith)
  take-append_le (suc n) (x ∷ xs) ys h = ap (◌∷◌ x) (take-append_le n xs ys (omega arith))

erase-append :
    (k : Text) (xs ys : List Text)
    → erase text_dec k (xs ++ ys) ≡ erase text_dec k xs ++ erase text_dec k ys
unfolding erase
erase-append k [] ys = refl
erase-append k (x ∷ xs) ys = ground (arith, erase-append k xs ys)

pub erase-reverse :
    (k : Text) (xs : List Text) → reverse (erase text_dec k xs) ≡ erase text_dec k (reverse xs)
unfolding erase
erase-reverse k [] = refl
erase-reverse k (x ∷ xs) =
    rw (reverse-cons x xs, erase-append k (reverse xs) (x ∷ []), sym (erase-reverse k xs))
      (elim (text_dec x k) [
        | yes p ↦
            rw (erase_hit k x xs p, erase_hit k x [] p)
              (sym (append-nil (reverse (erase text_dec k xs))))
        | no ne ↦
            rw (erase_miss k x xs ne, erase_miss k x [] ne) (reverse-cons x (erase text_dec k xs))
      ])

pub contains-reverse :
    (k : Text) (xs : List Text) → contains text_dec k (reverse xs) ≡ contains text_dec k xs
unfolding contains
contains-reverse k [] = refl
contains-reverse k (x ∷ xs) =
    rw (reverse-cons x xs, contains-append text_dec k (reverse xs) (x ∷ []), contains-reverse k xs)
      (ground arith)

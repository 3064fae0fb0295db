-- ===== src/Store/Links.antt =====
-- The element list of internal/store/store.go, read by handle and by key.
use mathlib.Core.Bool.{false≢true}
use ringcache.Base.{
  ℕ, suc, ◌<◌, ◌≡◌, ◌≢◌, refl, sym, ap, ◌∙◌, true, false, List, [], ◌∷◌, map, Option, none, some,
  arith, length, ℕ_discrete, contains, Distinct, All, is_some, take,
}
use ringcache.Go.Text.{Text, text_dec}
use ringcache.Store.{Element, deref, unlink, back}

abbrev pub element_keys : List Element → List Text
element_keys = map (λ e. e.key)

abbrev pub handles : List Element → List ℕ
handles = map (λ e. e.handle)

-- The element with the key.
unfoldable pub find : Text → List Element → Option Element
find k [] = none
find k (e ∷ es) = elim (text_dec e.key k) [ yes _ ↦ some e | no _ ↦ find k es ]

unfoldable pub without : Text → List Element → List Element
without k [] = []
without k (e ∷ es) = elim (text_dec e.key k) [ yes _ ↦ without k es | no _ ↦ e ∷ without k es ]

-- No key and no handle stands twice, and the handles are below `next`.
pub record IsLinked (next : ℕ) (es : List Element) : Type 0 where
  pub keys_distinct : Distinct text_dec (element_keys es)
  pub handles_distinct : Distinct ℕ_discrete (handles es)
  pub below : All (λ e. e.handle < next) es

pub find-key : (k : Text) (es : List Element) {e : Element} → find k es ≡ some e → e.key ≡ k
unfolding find
find-key k [] h = cc
find-key k (f ∷ es) {e} h = ground (arith, find-key k es {e = e})

pub contains-find :
    (k : Text) (es : List Element) → contains text_dec k (element_keys es) ≡ is_some (find k es)
unfolding contains find
contains-find k [] = refl
contains-find k (e ∷ es) = ground (arith, contains-find k es)

find-handle :
    (k : Text) (es : List Element) {e : Element}
    → find k es ≡ some e
    → contains ℕ_discrete e.handle (handles es) ≡ true
unfolding find contains
find-handle k [] h = cc
find-handle k (f ∷ es) {e} h = ground (arith, find-handle k es {e = e})

pub without_absent :
    (k : Text) (es : List Element)
    → contains text_dec k (element_keys es) ≡ false
    → without k es ≡ es
unfolding contains without
without_absent k [] h = refl
without_absent k (e ∷ es) h = ground (arith, without_absent k es)

pub length-keys : (es : List Element) → length (element_keys es) ≡ length es
length-keys [] = refl
length-keys (e ∷ es) = ap suc (length-keys es)

-- The pointer that the map holds for a key leads to the element with the key.
pub deref-find :
    (k : Text) (es : List Element) {e : Element}
    → Distinct ℕ_discrete (handles es)
    → find k es ≡ some e
    → deref e.handle es ≡ some e
unfolding find deref
deref-find k [] d h = cc
deref-find k (f ∷ es) {e} d h =
    ground (arith, deref-find k es {e = e} d.1, find-handle k es {e = e})

-- To unlink that element is to drop the key.
pub unlink-find :
    (k : Text) (es : List Element) {e : Element}
    → Distinct text_dec (element_keys es)
    → Distinct ℕ_discrete (handles es)
    → find k es ≡ some e
    → unlink e.handle es ≡ without k es
unfolding find unlink without
unlink-find k [] d d' h = cc
unlink-find k (f ∷ es) {e} d d' h =
    ground (arith, unlink-find k es {e = e} d.1 d'.1, find-handle k es {e = e}, without_absent k es)

pub find-without_self : (k : Text) (es : List Element) → find k (without k es) ≡ none
unfolding find without
find-without_self k [] = refl
find-without_self k (e ∷ es) = ground (arith, find-without_self k es)

pub find-without_ne : (k j : Text) (es : List Element) → k ≢ j → find j (without k es) ≡ find j es
unfolding find without
find-without_ne k j [] h = refl
find-without_ne k j (e ∷ es) h = ground (arith, find-without_ne k j es h)

pub length-without :
    (k : Text) (es : List Element) {e : Element}
    → Distinct text_dec (element_keys es)
    → find k es ≡ some e
    → suc (length (without k es)) ≡ length es
unfolding find without
length-without k [] d h = cc
length-without k (f ∷ es) {e} d h =
    ground (arith, length-without k es {e = e} d.1, without_absent k es)

not-in-without :
    (k j : Text) (es : List Element)
    → contains text_dec j (element_keys es) ≡ false
    → contains text_dec j (element_keys (without k es)) ≡ false
unfolding contains without
not-in-without k j [] h = refl
not-in-without k j (e ∷ es) h = ground (arith, not-in-without k j es)

no-handle-without :
    (k : Text) (h : ℕ) (es : List Element)
    → contains ℕ_discrete h (handles es) ≡ false
    → contains ℕ_discrete h (handles (without k es)) ≡ false
unfolding contains without
no-handle-without k h [] d = refl
no-handle-without k h (e ∷ es) d = ground (arith, no-handle-without k h es)

pub without-IsLinked :
    {next : ℕ} (k : Text) (es : List Element) → IsLinked next es → IsLinked next (without k es)
unfolding without
without-IsLinked k [] l = l
without-IsLinked {next} k (e ∷ es) l = ground (
  arith,
  without-IsLinked {next = next} k es (record {
    keys_distinct = l.keys_distinct.1;
    handles_distinct = l.handles_distinct.1;
    below = l.below.1;
  }),
  not-in-without k e.key es,
  no-handle-without k e.handle es,
)

pub handle-without :
    (k : Text) (es : List Element) {e : Element}
    → Distinct text_dec (element_keys es)
    → Distinct ℕ_discrete (handles es)
    → find k es ≡ some e
    → contains ℕ_discrete e.handle (handles (without k es)) ≡ false
unfolding find without contains
handle-without k [] d d' h = cc
handle-without k (f ∷ es) {e} d d' h =
    ground
      (arith, handle-without k es {e = e} d.1 d'.1, find-handle k es {e = e}, without_absent k es)

pub find-below :
    {next : ℕ} (k : Text) (es : List Element) {e : Element}
    → All (λ e. e.handle < next) es
    → find k es ≡ some e
    → e.handle < next
unfolding find
find-below k [] b h = cc
find-below {next = next} k (f ∷ es) {e} b h =
    ground (arith, find-below {next = next} k es {e = e} b.1)

pub find-without-none :
    (k j : Text) (es : List Element) → find j es ≡ none → find j (without k es) ≡ none
unfolding find without
find-without-none k j [] h = refl
find-without-none k j (e ∷ es) h = ground (arith, find-without-none k j es)

-- `list.Back` of a list that is not empty: to drop its key is to drop the last element.
pub back-last :
    (f : Element) (es : List Element)
    → Distinct text_dec (element_keys (f ∷ es))
    → (e : Element) × (back (f ∷ es) ≡ some e)
      × (find e.key (f ∷ es) ≡ some e)
      × (without e.key (f ∷ es) ≡ take (length es) (f ∷ es))
unfolding back find without
back-last f [] d = (f, refl, ground arith, ground arith)
back-last f (g ∷ es) d =
    let (e, last, at, dropped) = back-last g es d.1 in
    let other : f.key ≢ e.key = λ p. false≢true (
      sym d.0
      ∙ ap (λ k. contains text_dec k (element_keys (g ∷ es))) p
      ∙ contains-find e.key (g ∷ es)
      ∙ ap is_some at) in
    (e, last, ground arith, ground arith)

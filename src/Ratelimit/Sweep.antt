-- ===== src/Ratelimit/Sweep.antt =====
-- The janitor's `sweep` of internal/ratelimit/store.go: which keys it drops.
use ringcache.Base.{
  ℕ, ◌≡◌, ◌≢◌, ◌≤◌, refl, sym, subst, ap, ◌∙◌, true, false, ◌&&◌, List, [], ◌∷◌, Option, none, some,
  arith, length, lookup, delete, contains, Distinct, is_some, if◌then◌else◌, by_if, Bool-cases,
  Option-cases, ◌⊎◌, inl, inr, lookup-delete_self, lookup-delete_ne,
}
use ringcache.Go.Float.{Float}
use ringcache.Go.Text.{Text, text_dec}
use ringcache.Ratelimit.{Slot, Store, is_idle, sweep_loop, sweep}
use ringcache.Ratelimit.Capacity.{IsValid}
use ringcache.Ratelimit.Keys.{length-delete-le}

module _ {F : Type 0} (s : Store F) (now : ℕ) where
  -- A slot that has not been idle for too long.
  unfoldable pub live : Option (Slot F) → Option (Slot F)
  live none = none
  live (some slot) = if is_idle s now slot then none else some slot

  -- What the loop leaves of a map, for the keys of an order.
  pub record Swept (items : List (Text × Slot F)) (order : List Text)
      (r : List (Text × Slot F) × List Text) : Type 0 where
    pub gone :
        (k : Text)
        → contains text_dec k order ≡ true
        → lookup text_dec k r.0 ≡ live (lookup text_dec k items)
    pub rest :
        (k : Text)
        → contains text_dec k order ≡ false
        → lookup text_dec k r.0 ≡ lookup text_dec k items
    pub kept :
        (k : Text)
        → contains text_dec k r.1 ≡ (contains text_dec k order && is_some (lookup text_dec k r.0))
    pub distinct : Distinct text_dec r.1
    pub fewer : length r.0 ≤ length items

  -- One more key at the front of the order, whose own fate is known.
  Swept-cons :
      (key : Text) (order ks : List Text) (items items' : List (Text × Slot F))
      (r : List (Text × Slot F) × List Text)
      → Swept items' order r
      → ((k : Text) → key ≢ k → lookup text_dec k items' ≡ lookup text_dec k items)
      → lookup text_dec key r.0 ≡ live (lookup text_dec key items)
      → contains text_dec key ks ≡ is_some (lookup text_dec key r.0)
      → ((k : Text) → key ≢ k → contains text_dec k ks ≡ contains text_dec k r.1)
      → Distinct text_dec ks
      → length items' ≤ length items
      → Swept items (key ∷ order) (r.0, ks)
  unfolding contains
  Swept-cons key order ks items items' r w same at_key kept_key kept_other d fewer = record {
    gone = λ k h. elim (text_dec key k) [
      | yes p ↦ subst (λ j. lookup text_dec j r.0 ≡ live (lookup text_dec j items)) p at_key
      | no ne ↦ w.gone k (ground arith) ∙ ap live (same k ne)
    ];
    rest = λ k h. w.rest k (ground arith) ∙ same k (λ p. absurd (ground arith));
    kept = λ k. elim (text_dec key k) [
      | yes p ↦
          let kept_k =
            subst (λ j. contains text_dec j ks ≡ is_some (lookup text_dec j r.0)) p kept_key in
          ground (arith, kept_k, p)
      | no ne ↦ ground (arith, w.kept k, kept_other k ne)
    ];
    distinct = d;
    fewer = omega (arith, w.fewer, fewer);
  }

  -- A key that the order holds no more is not kept either.
  not_kept :
      (key : Text) (order : List Text) (items : List (Text × Slot F))
      (r : List (Text × Slot F) × List Text)
      → Swept items order r
      → contains text_dec key order ≡ false
      → contains text_dec key r.1 ≡ false
  not_kept key order items r w h = ground (arith, w.kept key)

  live-some :
      (slot : Slot F) (o : Option (Slot F))
      → o ≡ some slot
      → live o ≡ (if is_idle s now slot then none else some slot)
  unfolding live
  live-some slot o e = rw (e) refl

  dropped :
      (key : Text) (order : List Text) (items items' : List (Text × Slot F))
      → Distinct text_dec (key ∷ order)
      → ((k : Text) → key ≢ k → lookup text_dec k items' ≡ lookup text_dec k items)
      → lookup text_dec key items' ≡ none
      → live (lookup text_dec key items) ≡ none
      → length items' ≤ length items
      → Swept items' order (sweep_loop s now items' order)
      → Swept items (key ∷ order) (sweep_loop s now items' order)
  dropped key order items items' d same none_left none_live fewer w =
      let r = sweep_loop s now items' order in
      let none_there = w.rest key d.0 ∙ none_left in
      Swept-cons key order r.1 items items' r w same (none_there ∙ sym none_live)
        (not_kept key order items' r w d.0 ∙ sym (ap is_some none_there)) (λ k ne. refl) w.distinct
        fewer

  stays :
      (key : Text) (order : List Text) (items : List (Text × Slot F)) (slot : Slot F)
      → Distinct text_dec (key ∷ order)
      → lookup text_dec key items ≡ some slot
      → is_idle s now slot ≡ false
      → Swept items order (sweep_loop s now items order)
      → let r = sweep_loop s now items order in Swept items (key ∷ order) (r.0, key ∷ r.1)
  unfolding contains
  stays key order items slot d there busy w =
      let r = sweep_loop s now items order in
      let found = w.rest key d.0 ∙ there in
      let is_live : live (lookup text_dec key items) ≡ some slot =
        live-some slot (lookup text_dec key items) there ∙ ground arith in
      Swept-cons key order (key ∷ r.1) items items r w (λ k ne. refl) (found ∙ sym is_live)
        (ground (arith, found)) (λ k ne. ground arith)
        (not_kept key order items r w d.0, w.distinct) (omega arith)

  sweep_loop-Swept :
      (order : List Text) (items : List (Text × Slot F))
      → Distinct text_dec order
      → Swept items order (sweep_loop s now items order)
  unfolding sweep_loop contains live
  sweep_loop-Swept [] items d = record {
    gone = λ k h. absurd (ground arith);
    rest = λ k h. refl;
    kept = λ k. refl;
    distinct = tt;
    fewer = omega arith;
  }
  sweep_loop-Swept (key ∷ order) items d = elim (Option-cases (lookup text_dec key items)) [
    | inl none_there ↦
        rw (none_there, sweep_loop)
          (dropped key order items items d (λ k ne. refl) none_there (ap live none_there)
            (omega arith) (sweep_loop-Swept order items d.1))
    | inr (slot, there) ↦
        rw (there, sweep_loop)
          (by_if (Swept items (key ∷ order)) (is_idle s now slot)
            (λ idle.
              dropped key order items (delete text_dec key items) d
                (λ k ne. lookup-delete_ne text_dec key k items ne)
                (lookup-delete_self text_dec key items)
                (live-some slot (lookup text_dec key items) there ∙ ground arith)
                (length-delete-le key items)
                (sweep_loop-Swept order (delete text_dec key items) d.1))
            (λ busy. stays key order items slot d there busy (sweep_loop-Swept order items d.1)))
  ]

  live_of_some : (o : Option (Slot F)) (slot : Slot F) → live o ≡ some slot → o ≡ some slot
  unfolding live
  live_of_some none slot h = h
  live_of_some (some old) slot h = ground arith

  live-none : (o : Option (Slot F)) → is_some o ≡ false → live o ≡ o
  unfolding live
  live-none none h = refl
  live-none (some slot) h = absurd (ground arith)

  -- `sweep` of a valid store drops exactly the keys that were idle for more than the limit,
  -- keeps the slots of the others as they are, and leaves a valid store.
  pub sweep-IsValid :
      (fl : Float F)
      → IsValid fl s
      → IsValid fl (sweep s now)
        × ((k : Text) → lookup text_dec k (sweep s now).items ≡ live (lookup text_dec k s.items))
  unfolding sweep
  sweep-IsValid fl v =
      let w = sweep_loop-Swept s.order s.items v.agree.distinct in
      let left = λ (k : Text). left_of w k (Bool-cases (contains text_dec k s.order)) in
      (
        record {
          room = v.room;
          bounded = omega (arith, w.fewer, v.bounded);
          agree = record {
            distinct = w.distinct;
            same = λ k. same_of w k (Bool-cases (contains text_dec k s.order));
          };
          buckets = λ k slot h.
              v.buckets k slot (live_of_some (lookup text_dec k s.items) slot (sym (left k) ∙ h));
        },
        left,
      )
    where
      left_of :
          Swept s.items s.order (sweep_loop s now s.items s.order)
          → (k : Text)
          → (contains text_dec k s.order ≡ true) ⊎ (contains text_dec k s.order ≡ false)
          → lookup text_dec k (sweep_loop s now s.items s.order).0
            ≡ live (lookup text_dec k s.items)
      left_of w k (inl h) = w.gone k h
      left_of w k (inr h) =
          w.rest k h ∙ sym (live-none (lookup text_dec k s.items) (sym (v.agree.same k) ∙ h))

      same_of :
          Swept s.items s.order (sweep_loop s now s.items s.order)
          → (k : Text)
          → (contains text_dec k s.order ≡ true) ⊎ (contains text_dec k s.order ≡ false)
          → contains text_dec k (sweep_loop s now s.items s.order).1
            ≡ is_some (lookup text_dec k (sweep_loop s now s.items s.order).0)
      same_of w k (inl h) = ground (arith, w.kept k)
      same_of w k (inr h) =
          not_kept k s.order s.items _ w h
          ∙ sym (ap is_some (w.rest k h) ∙ sym (v.agree.same k) ∙ h)

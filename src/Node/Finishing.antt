-- ===== src/Node/Finishing.antt =====
-- The second step of `join` and of `leave` of internal/node/node.go: the change of the ring.
use ringcache.Base.{
  ℕ, zero, suc, ◌≡◌, ◌≢◌, refl, sym, ◌∙◌, ap, subst, true, false, List, [], ◌∷◌, Option, some,
  some_eq, map, arith, All, All-map, contains, contains-append, Option-cases, inl, inr, lookup,
  is_some,
}
use ringcache.Go.Float.{Float}
use ringcache.Go.Text.{Text, text_dec}
use ringcache.Node.{Node, Change, adds, removes, change_ring}
use ringcache.Node.Changing.{IsServing, Promised}
use ringcache.Node.Handlers.{end_members}
use ringcache.Node.Membership.{
  contains-add_self, contains-add_ne, contains-remove_self, contains-remove_ne,
}
use ringcache.Node.Server.{Server, change_id, take_out, as_ended}
use ringcache.Ring.Build

-- What is taken out of the changes under way, and what is left.
record Taken (P : Change → Type 0) (cs : List Change) (c : Change) (ds : List Change) : Type 0 where
  pub of_it : P c
  pub of_rest : All P ds
  pub ids_left :
      (k : Text)
      → k ≢ change_id c
      → contains text_dec k (map change_id ds) ≡ false
      → contains text_dec k (map change_id cs) ≡ false

pair_eq :
    {c d : Change} {cs ds : List Change}
    → ◌≡◌ {A = Option (Change × List Change)} (some (d, cs)) (some (c, ds))
    → (d ≡ c) × (cs ≡ ds)
pair_eq e =
    let f = some_eq e in
    (ap (λ (x : Change × List Change). x.0) f, ap (λ (x : Change × List Change). x.1) f)

take_out-Taken :
    (P : Change → Type 0) (i : ℕ) (cs : List Change) (c : Change) (ds : List Change)
    → take_out i cs ≡ some (c, ds)
    → All P cs
    → Taken P cs c ds
unfolding take_out contains
take_out-Taken P i [] c ds e p = absurd (ground arith)
take_out-Taken P zero (d ∷ cs) c ds e p =
    let (same, left) = pair_eq e in
    record {
      of_it = subst P same p.0;
      of_rest = subst (All P) left p.1;
      ids_left = λ k ne h.
          let h' = ap (λ x. contains text_dec k (map change_id x)) left ∙ h in
          let ne' : k ≢ change_id d = λ q. ne (q ∙ ap change_id same) in ground (arith, h', ne');
    }
take_out-Taken P (suc i) (d ∷ cs) c ds e p = elim (Option-cases (take_out i cs)) [
  | inl gone ↦ absurd (ground (arith, gone))
  | inr ((c', ds'), f) ↦
      let t = take_out-Taken P i cs c' ds' f p.1 in
      let e' : ◌≡◌ {A = Option (Change × List Change)} (some (c', d ∷ ds')) (some (c, ds)) =
        rw f at e in
      let (same, left) = pair_eq e' in
      record {
        of_it = subst P same t.of_it;
        of_rest = subst (All P) left (p.0, t.of_rest);
        ids_left = λ k ne h.
            let h' = ap (λ x. contains text_dec k (map change_id x)) left ∙ h in
            let ne' : k ≢ change_id c' = λ q. ne (q ∙ ap change_id same) in
            let old = t.ids_left k ne' in ground (arith, h', old);
      }
]

-- The ring after the change agrees with the peers at the changed id, if no two changes of it were
-- under way at once, and at the others as before.
agrees-change_ring :
    (n : Node) (c : Change) (raced : List Text) (k : Text)
    → Promised n raced c
    → contains text_dec k raced ≡ false
    → (k ≢ change_id c → contains text_dec k n.ring.nodes ≡ is_some (lookup text_dec k n.peers))
    → contains text_dec k (change_ring n c).ring.nodes ≡ is_some (lookup text_dec k n.peers)
unfolding change_ring
agrees-change_ring n (adds id) raced k (named, h) free old = elim (text_dec k id) [
  | yes q ↦
      subst
        (λ j.
          contains text_dec j (change_ring n (adds id)).ring.nodes
          ≡ is_some (lookup text_dec j n.peers))
        (sym q)
        (contains-add_self n.ring id named
          ∙ sym (h (ap (λ j. contains text_dec j raced) (sym q) ∙ free)))
  | no ne ↦ contains-add_ne n.ring id k ne ∙ old ne
]
agrees-change_ring n (removes id) raced k (other, h) free old = elim (text_dec k id) [
  | yes q ↦
      subst
        (λ j.
          contains text_dec j (change_ring n (removes id)).ring.nodes
          ≡ is_some (lookup text_dec j n.peers))
        (sym q)
        (contains-remove_self n.ring id
          ∙ sym (h (ap (λ j. contains text_dec j raced) (sym q) ∙ free)))
  | no ne ↦ contains-remove_ne n.ring id k ne ∙ old ne
]

ring-IsValid : (n : Node) (c : Change) → Build.IsValid n.ring → Build.IsValid (change_ring n c).ring
unfolding change_ring
ring-IsValid n (adds id) v = Build.add-IsValid n.ring id v
ring-IsValid n (removes id) v = Build.remove-IsValid n.ring id v

-- No change takes the node itself off its ring.
self_stays :
    (n : Node) (raced : List Text) (c : Change)
    → Promised n raced c
    → contains text_dec n.cfg.id n.ring.nodes ≡ true
    → contains text_dec n.cfg.id (change_ring n c).ring.nodes ≡ true
unfolding change_ring
self_stays n raced (adds id) (named, h) v = elim (text_dec n.cfg.id id) [
  | yes q ↦
      subst (λ j. contains text_dec j (change_ring n (adds id)).ring.nodes ≡ true) (sym q)
        (contains-add_self n.ring id named)
  | no ne ↦ contains-add_ne n.ring id n.cfg.id ne ∙ v
]
self_stays n raced (removes id) (other, h) v =
    contains-remove_ne n.ring id n.cfg.id (λ e. other (sym e)) ∙ v

kept-Promised :
    (n : Node) (c : Change) (raced : List Text) (d : Change)
    → Promised n raced d
    → Promised (change_ring n c) raced d
unfolding change_ring
kept-Promised n (adds i) raced (adds j) p = p
kept-Promised n (adds i) raced (removes j) p = p
kept-Promised n (removes i) raced (adds j) p = p
kept-Promised n (removes i) raced (removes j) p = p

cfg-change_ring : (n : Node) (c : Change) → (change_ring n c).cfg ≡ n.cfg
unfolding change_ring
cfg-change_ring n (adds i) = refl
cfg-change_ring n (removes i) = refl

peers-change_ring : (n : Node) (c : Change) → (change_ring n c).peers ≡ n.peers
unfolding change_ring
peers-change_ring n (adds i) = refl
peers-change_ring n (removes i) = refl

store-change_ring : (n : Node) (c : Change) → (change_ring n c).store ≡ n.store
unfolding change_ring
store-change_ring n (adds i) = refl
store-change_ring n (removes i) = refl

module _ {F : Type 0} (fl : Float F) where
  -- A change ends.
  ended-IsServing :
      (s : Server F) (i : ℕ) (c : Change) (ds : List Change)
      → take_out i s.changing ≡ some (c, ds)
      → IsServing fl s
      → IsServing fl (as_ended s (some (c, ds))).0
  unfolding contains end_members
  ended-IsServing s i c ds e v =
      let n = s.node in
      let t = take_out-Taken (Promised n s.raced) i s.changing c ds e v.promised in
      let same_cfg = cfg-change_ring n c in
      record {
        node_valid = record {
          ring_valid = ring-IsValid n c v.node_valid.ring_valid;
          store_valid = rw (store-change_ring n c) v.node_valid.store_valid;
          has_self = rw same_cfg (self_stays n s.raced c t.of_it v.node_valid.has_self);
          replicated = rw same_cfg v.node_valid.replicated;
          agree = λ k named free.
              let apart = contains-append text_dec k (map change_id ds) s.raced in
              let apart' = contains-append text_dec k (map change_id s.changing) s.raced in
              let not_raced : contains text_dec k s.raced ≡ false = ground (arith, apart, free) in
              let left : contains text_dec k (map change_id ds) ≡ false =
                ground (arith, apart, free) in
              agrees-change_ring n c s.raced k t.of_it not_raced (λ ne.
                v.node_valid.agree k named
                  (apart' ∙ ground (arith, t.ids_left k ne left, not_raced)))
              ∙ sym (ap (λ ps. is_some (lookup text_dec k ps)) (peers-change_ring n c));
        };
        buckets_valid = v.buckets_valid;
        promised = All-map _ _ (kept-Promised n c s.raced) ds t.of_rest;
      }

  pub as_ended-IsServing :
      (s : Server F) (i : ℕ)
      → IsServing fl s
      → IsServing fl (as_ended s (take_out i s.changing)).0
        × ((as_ended s (take_out i s.changing)).0.node.cfg ≡ s.node.cfg)
  unfolding end_members
  as_ended-IsServing s i v = elim (Option-cases (take_out i s.changing)) [
    | inl e ↦ rw e (v, refl)
    | inr ((c, ds), e) ↦ rw e (ended-IsServing s i c ds e v, cfg-change_ring s.node c)
  ]

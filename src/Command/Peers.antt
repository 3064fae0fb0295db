-- ===== src/Command/Peers.antt =====
-- What `parsePeers` of cmd/ringcache/main.go accepts and refuses.
use ringcache.Base.{
  ◌≡◌, ◌≢◌, ◌⊎◌, inl, inr, refl, sym, ◌∙◌, ap, ap₂, List, [], ◌∷◌, ◌++◌, none, some, arith,
  append-nil, put, by_dec,
}
use ringcache.Command.{bad_peer, parsed, not_blank, parse_peer, parse_parts, parse_peers}
use ringcache.Go.Split.{split, Lacks, cut-cases, cut-append}
use ringcache.Go.Text.{Text, text_dec}
use ringcache.Go.Trim.{trim_space}

-- A part that names an id and a URL, neither of them blank.
abbrev pub IsPeer : Text → Text → Text → Type 0
IsPeer part id url =
    (a : Text) × (b : Text) × (part ≡ a ++ b'=' ∷ b)
    × Lacks b'=' a
    × (trim_space a ≡ id)
    × (trim_space b ≡ url)
    × (id ≢ [])
    × (url ≢ [])

-- A part that is not blank and names no peer.
abbrev pub IsBad : Text → Type 0
IsBad part = (part ≢ []) × ((id url : Text) → ¬ IsPeer part id url)

-- What the parts say, in their order; blank parts say nothing.
pub data Reads : List Text → List (Text × Text) → Type 0 where
  end : Reads [] []
  blank :
      {part : Text} {parts : List Text} {ps : List (Text × Text)}
      → trim_space part ≡ []
      → Reads parts ps
      → Reads (part ∷ parts) ps
  peer :
      {part id url : Text} {parts : List Text} {ps : List (Text × Text)}
      → IsPeer (trim_space part) id url
      → Reads parts ps
      → Reads (part ∷ parts) ((id, url) ∷ ps)

-- The entries as a map: a later one replaces an earlier one of the same id.
abbrev pub put_all : List (Text × Text) → List (Text × Text) → List (Text × Text)
put_all [] out = out
put_all ((id, url) ∷ ps) out = put_all ps (put text_dec id url out)

not_blank-cases :
    (id url : Text)
    → (not_blank id url ≡ none) ⊎ ((not_blank id url ≡ some (id, url)) × (id ≢ []) × (url ≢ []))
unfolding not_blank
not_blank-cases id url = elim (text_dec id []) [
  | yes p ↦ inl (ground arith)
  | no n ↦ elim (text_dec url []) [ yes p ↦ inl (ground arith) | no m ↦ inr (ground arith, n, m) ]
]

not_blank-some : (id url : Text) → id ≢ [] → url ≢ [] → not_blank id url ≡ some (id, url)
unfolding not_blank
not_blank-some id url named placed = ground arith

pub parse_peer-IsPeer : (part id url : Text) → IsPeer part id url → parse_peer part ≡ some (id, url)
unfolding parse_peer
parse_peer-IsPeer part id url (a, b, e, h, f, g, named, placed) =
    ap parse_peer e
    ∙ rw (cut-append b'=' a b h, parse_peer)
        (ap₂ not_blank f g ∙ not_blank-some id url named placed)

parse_peer-cases :
    (part : Text) → (parse_peer part ≡ none) ⊎ ((id : Text) × (url : Text) × IsPeer part id url)
unfolding parse_peer
parse_peer-cases part = elim (cut-cases b'=' part) [
  | inl (e, h) ↦ inl (rw (e, parse_peer) refl)
  | inr (a, b, e, f, h) ↦ elim (not_blank-cases (trim_space a) (trim_space b)) [
    | inl g ↦ inl (rw (e, parse_peer) g)
    | inr (_, named, placed) ↦
        inr (trim_space a, trim_space b, (a, b, f, h, refl, refl, named, placed))
  ]
]

pub no-IsPeer : (part : Text) → parse_peer part ≡ none → (id url : Text) → ¬ IsPeer part id url
no-IsPeer part e id url is = ground (arith, parse_peer-IsPeer part id url is)

bad-parse_peer : {part : Text} → IsBad part → parse_peer part ≡ none
bad-parse_peer {part} bad = elim (parse_peer-cases part) [
  | inl e ↦ e
  | inr (id, url, is) ↦ absurd (bad.1 id url is)
]

peer-ne_nil : (part id url : Text) → IsPeer part id url → part ≢ []
peer-ne_nil part id url (a, b, e, _, _, _, _, _) none_left = no_text a b (sym e ∙ none_left)
  where
    no_text : (a b : Text) → a ++ b'=' ∷ b ≡ [] → ⊥
    no_text [] b e = cc
    no_text (c ∷ a) b e = cc

parse_parts-nil : (out : List (Text × Text)) → parse_parts [] out ≡ parsed out
unfolding parse_parts
parse_parts-nil out = refl

parse_parts-blank :
    (part : Text) (parts : List Text) (out : List (Text × Text))
    → trim_space part ≡ []
    → parse_parts (part ∷ parts) out ≡ parse_parts parts out
unfolding parse_parts
parse_parts-blank part parts out e = ground arith

parse_parts-peer :
    (part id url : Text) (parts : List Text) (out : List (Text × Text))
    → IsPeer (trim_space part) id url
    → parse_parts (part ∷ parts) out ≡ parse_parts parts (put text_dec id url out)
unfolding parse_parts
parse_parts-peer part id url parts out is =
    by_dec (λ o. o ≡ parse_parts parts (put text_dec id url out)) (text_dec (trim_space part) [])
      (λ e. absurd (peer-ne_nil (trim_space part) id url is e))
      (λ _. rw (parse_peer-IsPeer (trim_space part) id url is, parse_parts) refl)

parse_parts-bad :
    (part : Text) (parts : List Text) (out : List (Text × Text))
    → trim_space part ≢ []
    → parse_peer (trim_space part) ≡ none
    → parse_parts (part ∷ parts) out ≡ bad_peer (trim_space part)
unfolding parse_parts
parse_parts-bad part parts out some_text e =
    by_dec (λ o. o ≡ bad_peer (trim_space part)) (text_dec (trim_space part) [])
      (λ f. absurd (some_text f)) (λ _. rw (e, parse_parts) refl)

-- What was read of the parts is in the map that the rest goes on with.
pub Reads-parse_parts :
    {pre : List Text} {ps : List (Text × Text)} (post : List Text) (out : List (Text × Text))
    → Reads pre ps
    → parse_parts (pre ++ post) out ≡ parse_parts post (put_all ps out)
Reads-parse_parts post out end = refl
Reads-parse_parts post out (blank {part} {parts} e r) =
    parse_parts-blank part (parts ++ post) out e ∙ Reads-parse_parts post out r
Reads-parse_parts post out (peer {part} {id} {url} {parts} is r) =
    parse_parts-peer part id url (parts ++ post) out is
    ∙ Reads-parse_parts post (put text_dec id url out) r

-- The first part that is bad stands behind parts that read.
abbrev pub SomeBad : List Text → Type 0
SomeBad parts =
    (pre : List Text) × (part : Text) × (post : List Text) × (ps : List (Text × Text)) × (parts
      ≡ pre ++ part ∷ post)
    × Reads pre ps
    × IsBad (trim_space part)

part-cases :
    (part : Text) → (part ≡ []) ⊎ (((id : Text) × (url : Text) × IsPeer part id url) ⊎ IsBad part)
part-cases part = elim (text_dec part []) [
  | yes e ↦ inl e
  | no some_text ↦ elim (parse_peer-cases part) [
    | inl e ↦ inr (inr (some_text, no-IsPeer part e))
    | inr is ↦ inr (inl is)
  ]
]

Reads-or_bad : (parts : List Text) → ((ps : List (Text × Text)) × Reads parts ps) ⊎ SomeBad parts
Reads-or_bad [] = inl ([], end)
Reads-or_bad (part ∷ parts) =
    let rest = Reads-or_bad parts in
    elim (part-cases (trim_space part)) [
      | inl e ↦ elim rest [
        | inl (ps, r) ↦ inl (ps, blank e r)
        | inr (pre, bad, post, ps, f, r, b) ↦
            inr (part ∷ pre, bad, post, ps, ap (◌∷◌ part) f, blank e r, b)
      ]
      | inr (inl (id, url, is)) ↦ elim rest [
        | inl (ps, r) ↦ inl ((id, url) ∷ ps, peer is r)
        | inr (pre, bad, post, ps, f, r, b) ↦
            inr (part ∷ pre, bad, post, (id, url) ∷ ps, ap (◌∷◌ part) f, peer is r, b)
      ]
      | inr (inr bad) ↦ inr ([], part, parts, [], refl, end, bad)
    ]

-- The parts between the commas, and none in a blank text.
abbrev pub parts_of : Text → List Text
parts_of s = split b',' (trim_space s)

parse_peers_parts : (s : Text) → parse_peers s ≡ parse_parts (parts_of s) []
unfolding parse_peers parse_parts split trim_space text_dec
parse_peers_parts s =
    by_dec (λ o. o ≡ parse_parts (parts_of s) []) (text_dec (trim_space s) [])
      (λ e. sym (ap (λ t. parse_parts (split b',' t) []) e)) (λ _. refl)

pub parse_peers-Reads :
    (s : Text) (ps : List (Text × Text))
    → Reads (parts_of s) ps
    → parse_peers s ≡ parsed (put_all ps [])
parse_peers-Reads s ps r =
    parse_peers_parts s
    ∙ ap (λ parts. parse_parts parts []) (sym (append-nil (parts_of s)))
    ∙ Reads-parse_parts [] [] r
    ∙ parse_parts-nil (put_all ps [])

-- `parsePeers` gives an error exactly when a part between the commas of the text is not blank
-- and not of the form `id=url` with both sides not blank, and then names the first such part;
-- else it gives the map of all the parts, where a later part replaces an earlier one of its id.
pub parse_peers-parts :
    (s : Text)
    → ((ps : List (Text × Text)) × Reads (parts_of s) ps × (parse_peers s ≡ parsed (put_all ps [])))
      ⊎ ((pre : List Text) × (part : Text) × (post : List Text) × (ps : List (Text × Text))
          × (parts_of s ≡ pre ++ part ∷ post)
          × Reads pre ps
          × IsBad (trim_space part)
          × (parse_peers s ≡ bad_peer (trim_space part)))
parse_peers-parts s = elim (Reads-or_bad (parts_of s)) [
  | inl (ps, r) ↦ inl (ps, r, parse_peers-Reads s ps r)
  | inr (pre, part, post, ps, e, r, bad) ↦ inr (
    pre,
    part,
    post,
    ps,
    e,
    r,
    bad,
    parse_peers_parts s
        ∙ ap (λ parts. parse_parts parts []) e
        ∙ Reads-parse_parts (part ∷ post) [] r
        ∙ parse_parts-bad part post (put_all ps []) bad.0 (bad-parse_peer bad),
  )
]

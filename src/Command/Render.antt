-- ===== src/Command/Render.antt =====
-- A list of peers as the command is given it, and that `parsePeers` of cmd/ringcache/main.go
-- reads it back.
use ringcache.Base.{
  ◌≡◌, ◌≢◌, refl, sym, ◌∙◌, ap, List, [], ◌∷◌, ◌++◌, map, arith, All, All-append, Distinct, keys,
  lookup, put, lookup-put_self, lookup-put_ne, put-Distinct, none, contains, false, subst,
}
use ringcache.Command.{parsed, parse_peers}
use ringcache.Command.Peers.{IsPeer, Reads, put_all, parts_of, parse_peers-Reads}
use ringcache.Go.Split.{split, join, Lacks, split-join}
use ringcache.Go.Text.{Text, text_dec}
use ringcache.Go.Trim.{IsPrintable, trim_space, trim_space-printable}

-- `id=url`
abbrev pub render_peer : Text × Text → Text
render_peer (id, url) = id ++ b'=' ∷ url

-- `id=url,id=url`
abbrev pub render : List (Text × Text) → Text
render ps = join b',' (map render_peer ps)

-- Printed text without a comma, and without a `=` in the id.
abbrev pub IsPlain : Text × Text → Type 0
IsPlain (id, url) =
    All IsPrintable id
    × All IsPrintable url
    × Lacks b',' id
    × Lacks b',' url
    × Lacks b'=' id
    × (id ≢ [])
    × (url ≢ [])

render_peer-IsPrintable : (p : Text × Text) → IsPlain p → All IsPrintable (render_peer p)
render_peer-IsPrintable (id, url) (i, u, _, _, _, _, _) =
    All-append IsPrintable id (b'=' ∷ url) i ((omega arith, omega arith), u)

render_peer-comma : (p : Text × Text) → IsPlain p → Lacks b',' (render_peer p)
render_peer-comma (id, url) (_, _, i, u, _, _, _) =
    All-append (λ c. c ≢ b',') id (b'=' ∷ url) i ((λ e. ground arith), u)

render_peer-IsPeer : (p : Text × Text) → IsPlain p → IsPeer (trim_space (render_peer p)) p.0 p.1
render_peer-IsPeer (id, url) h =
    let (i, u, _, _, e, named, placed) = h in
    (
      id,
      url,
      trim_space-printable (render_peer (id, url)) (render_peer-IsPrintable (id, url) h),
      e,
      trim_space-printable id i,
      trim_space-printable url u,
      named,
      placed,
    )

render-IsPrintable : (ps : List (Text × Text)) → All IsPlain ps → All IsPrintable (render ps)
render-IsPrintable [] h = tt
render-IsPrintable (p ∷ []) h = render_peer-IsPrintable p h.0
render-IsPrintable (p ∷ q ∷ ps) h =
    All-append IsPrintable (render_peer p) (b',' ∷ render (q ∷ ps)) (render_peer-IsPrintable p h.0)
      ((omega arith, omega arith), render-IsPrintable (q ∷ ps) h.1)

no_commas : (ps : List (Text × Text)) → All IsPlain ps → All (Lacks b',') (map render_peer ps)
no_commas [] h = tt
no_commas (p ∷ ps) h = (render_peer-comma p h.0, no_commas ps h.1)

render-Reads : (ps : List (Text × Text)) → All IsPlain ps → Reads (map render_peer ps) ps
render-Reads [] h = Reads.end
render-Reads ((id, url) ∷ ps) h =
    Reads.peer (render_peer-IsPeer (id, url) h.0) (render-Reads ps h.1)

parts_of-render :
    (p : Text × Text) (ps : List (Text × Text))
    → All IsPlain (p ∷ ps)
    → parts_of (render (p ∷ ps)) ≡ map render_peer (p ∷ ps)
parts_of-render p ps h =
    ap (split b',') (trim_space-printable (render (p ∷ ps)) (render-IsPrintable (p ∷ ps) h))
    ∙ split-join b',' (render_peer p) (map render_peer ps) (no_commas (p ∷ ps) h)

parse_peers-rendered :
    (ps : List (Text × Text)) → All IsPlain ps → parse_peers (render ps) ≡ parsed (put_all ps [])
unfolding parse_peers trim_space text_dec
parse_peers-rendered [] h = refl
parse_peers-rendered (p ∷ ps) h =
    parse_peers-Reads (render (p ∷ ps)) (p ∷ ps) (
      subst (λ parts. Reads parts (p ∷ ps)) (sym (parts_of-render p ps h))
        (render-Reads (p ∷ ps) h))

put_all-Distinct :
    (ps out : List (Text × Text))
    → Distinct text_dec (keys out)
    → Distinct text_dec (keys (put_all ps out))
put_all-Distinct [] out d = d
put_all-Distinct ((i, u) ∷ ps) out d =
    put_all-Distinct ps (put text_dec i u out) (put-Distinct text_dec i u out d)

lookup-put_all_absent :
    (id : Text) (ps out : List (Text × Text))
    → contains text_dec id (keys ps) ≡ false
    → lookup text_dec id (put_all ps out) ≡ lookup text_dec id out
unfolding contains
lookup-put_all_absent id [] out h = refl
lookup-put_all_absent id ((i, u) ∷ ps) out h =
    ground
      (arith, lookup-put_all_absent id ps (put text_dec i u out), lookup-put_ne text_dec i id u out)

-- Entries of distinct ids are all found, in front of those of `out`.
lookup-put_all :
    (id : Text) (ps out : List (Text × Text))
    → Distinct text_dec (keys ps)
    → lookup text_dec id out ≡ none
    → lookup text_dec id (put_all ps out) ≡ lookup text_dec id ps
unfolding lookup
lookup-put_all id [] out d h = h
lookup-put_all id ((i, u) ∷ ps) out d h = elim (text_dec i id) [
  | yes e ↦ ground (
    arith,
    lookup-put_all_absent id ps (put text_dec i u out),
    subst (λ k. contains text_dec k (keys ps) ≡ false) e d.0,
    lookup-put_self text_dec i u out,
  )
  | no ne ↦
      ground (
        arith,
        lookup-put_all id ps (put text_dec i u out) d.1,
        lookup-put_ne text_dec i id u out ne,
      )
]

-- A list of peers with distinct ids, in printed text without commas and without `=` in an id,
-- is read back by `parsePeers` from its rendering `id=url,id=url`: as the map that finds for
-- each id the URL that the list has for it, and for other ids nothing.
pub parse_peers-render :
    (ps : List (Text × Text))
    → All IsPlain ps
    → Distinct text_dec (keys ps)
    → (m : List (Text × Text)) × (parse_peers (render ps) ≡ parsed m)
      × Distinct text_dec (keys m)
      × ((id : Text) → lookup text_dec id m ≡ lookup text_dec id ps)
unfolding lookup
parse_peers-render ps h d = (
  put_all ps [],
  parse_peers-rendered ps h,
  put_all-Distinct ps [] tt,
  λ id. lookup-put_all id ps [] d refl,
)

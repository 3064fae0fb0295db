-- ===== src/Cluster/Deliver.antt =====
-- What the requests of a fan-out do to the nodes of a cluster.
use ringcache.Base.{
  ℕ, ◌≡◌, ◌≢◌, refl, sym, ◌∙◌, ap, subst, true, false, List, [], ◌∷◌, Option, Option-cases, inl,
  inr, none, some, arith, All, contains, Distinct, lookup, lookup-put_self, put, lookup-put_ne,
  by_dec,
}
use ringcache.Go.Text.{Text, text_dec}
use ringcache.Node.{Node, validate_key, not_found}
use ringcache.Node.Handlers.{Reply, KvReply, json, applied, handle_internal_kv, internal_put}
use ringcache.Node.Peers.{
  Method, http_get, http_put, http_post, http_delete, http_other, write_request, KvBody, Request,
  puts, Response, answered, to_duration,
}
use ringcache.Cluster.{
  Cluster, Clocks, url_of, received, receive, answer, deliver, deliver_all, requests, address,
}
use ringcache.Store.{Store}
use ringcache.Store

-- The node at the URL whose store takes the write, with the store after it.
pub record Takes (k : Clocks) (c : Cluster) (body : KvBody) (url : Text) (p : Node) (s : Store)
    : Type 0 where
  pub serves : lookup text_dec url c ≡ some p
  pub takes :
      Store.set p.store (k.now url) body.key body.value (to_duration body.ttl_ms) body.written_at
      ≡ some (s, true)

internal_put-takes :
    (now : ℕ) (p : Node) (body : KvBody) (s : Store)
    → validate_key body.key ≡ none
    → Store.set p.store now body.key body.value (to_duration body.ttl_ms) body.written_at
      ≡ some (s, true)
    → internal_put now p (some body) ≡ some (record p { store = s }, json 200 (applied true))
unfolding internal_put
internal_put-takes now p body s v e = rw (v, internal_put, e, internal_put) refl

receive-puts :
    (now replying : ℕ) (p : Node) (url : Text) (body : KvBody) (s : Store)
    → validate_key body.key ≡ none
    → Store.set p.store now body.key body.value (to_duration body.ttl_ms) body.written_at
      ≡ some (s, true)
    → receive now replying p (puts url body)
      ≡ some (record p { store = s }, json 200 (applied true))
unfolding receive handle_internal_kv
receive-puts now replying p url body s v e = internal_put-takes now p body s v e

-- A write that its node takes is acknowledged, and is in the store after it.
pub deliver-puts :
    (k : Clocks) (c : Cluster) (url : Text) (body : KvBody) (p : Node) (s : Store)
    → validate_key body.key ≡ none
    → Takes k c body url p s
    → deliver k c (puts url body)
      ≡ (put text_dec url (record p { store = s }) c, answered 200 (some (not_found [])))
unfolding deliver answer
deliver-puts k c url body p s v t =
    rw
      (t.serves, deliver, receive-puts (k.now url) (k.replying url) p url body s v t.takes, deliver)
      refl

lookup-received_ne :
    (c : Cluster) (url u : Text) (o : Option (Node × Reply KvReply))
    → url ≢ u
    → lookup text_dec u (received c url o).0 ≡ lookup text_dec u c
lookup-received_ne c url u none ne = refl
lookup-received_ne c url u (some (m, r)) ne = lookup-put_ne text_dec url u m c ne

lookup-deliver_ne :
    (k : Clocks) (c : Cluster) (r : Request) (u : Text)
    → url_of r ≢ u
    → lookup text_dec u (deliver k c r).0 ≡ lookup text_dec u c
unfolding deliver
lookup-deliver_ne k c r u ne = elim (Option-cases (lookup text_dec (url_of r) c)) [
  | inl e ↦ rw (e, deliver) refl
  | inr (n, e) ↦
      rw (e, deliver)
        (lookup-received_ne c (url_of r) u (receive (k.now (url_of r)) (k.replying (url_of r)) n r)
          ne)
]

-- A node that no request goes to stays as it is.
pub lookup-deliver_all_ne :
    (k : Clocks) (rs : List Request) (c : Cluster) (u : Text)
    → All (λ r. url_of r ≢ u) rs
    → lookup text_dec u (deliver_all k c rs) ≡ lookup text_dec u c
unfolding deliver_all
lookup-deliver_all_ne k [] c u h = refl
lookup-deliver_all_ne k (r ∷ rs) c u h =
    lookup-deliver_all_ne k rs (deliver k c r).0 u h.1 ∙ lookup-deliver_ne k c r u h.0

-- Where the owners of a key are: each at a URL of its own, which the node knows.
abbrev pub Placed : (Text → Text) → Node → List Text → Type 0
Placed site n ids = All (λ id. (address n id ≡ site id) × (site id ≢ [])) ids

url_of-write_request :
    (method : Method) (url : Text) (body : KvBody) → url_of (write_request method url body) ≡ url
url_of-write_request http_get url body = refl
url_of-write_request http_put url body = refl
url_of-write_request http_post url body = refl
url_of-write_request http_delete url body = refl
url_of-write_request http_other url body = refl

-- The request turns the node of the URL from one state into another.
abbrev pub Lands : Clocks → Request → Text → Node → Node → Type 0
Lands k r url p q =
    (c : Cluster) → lookup text_dec url c ≡ some p → (deliver k c r).0 ≡ put text_dec url q c

pub Takes-Lands :
    (k : Clocks) (c : Cluster) (body : KvBody) (url : Text) (p : Node) (s : Store)
    → validate_key body.key ≡ none
    → Takes k c body url p s
    → Lands k (puts url body) url p (record p { store = s })
Takes-Lands k c body url p s v t d serves =
    ap (λ (x : Cluster × Response). x.0)
      (deliver-puts k d url body p s v (record { serves = serves; takes = t.takes }))

module _ (site : Text → Text) (apart : (i j : Text) → site i ≡ site j → i ≡ j) (n : Node)
    (method : Method) (body : KvBody) where
  requests_self :
      (i : Text) (ids : List Text)
      → i ≡ n.cfg.id
      → requests n method (i ∷ ids) body ≡ requests n method ids body
  unfolding requests
  requests_self i ids e = ground arith

  requests_sent :
      (i : Text) (ids : List Text)
      → Placed site n (i ∷ ids)
      → i ≢ n.cfg.id
      → requests n method (i ∷ ids) body
        ≡ write_request method (address n i) body ∷ requests n method ids body
  unfolding requests
  requests_sent i ids h other =
      let RS = λ (rs : List Request).
        rs ≡ write_request method (address n i) body ∷ requests n method ids body in
      by_dec RS (text_dec i n.cfg.id) (λ e. absurd (other e))
        (λ _.
          by_dec RS (text_dec (address n i) []) (λ e. absurd (h.0.1 (sym h.0.0 ∙ e))) (λ _. refl))

  requests-elsewhere :
      (o : Text) (ids : List Text)
      → Placed site n ids
      → contains text_dec o ids ≡ false
      → All (λ r. url_of r ≢ site o) (requests n method ids body)
  unfolding requests contains
  requests-elsewhere o [] h c = tt
  requests-elsewhere o (i ∷ ids) h c =
      let rest = requests-elsewhere o ids h.1 (ground arith) in
      elim (text_dec i n.cfg.id) [
        | yes e ↦ subst Elsewhere (sym (requests_self i ids e)) rest
        | no other ↦ subst Elsewhere (sym (requests_sent i ids h other)) (
          (λ e. ne (
              sym (
                apart i o (sym h.0.0 ∙ sym (url_of-write_request method (address n i) body) ∙ e)))),
          rest,
        )
      ]
    where
      Elsewhere : List Request → Type 0
      Elsewhere = All (λ r. url_of r ≢ site o)

      ne : o ≢ i
      ne e = ground arith

  lookup-first :
      (k : Clocks) (o : Text) (p q : Node) (i : Text) (ids : List Text) (c : Cluster)
      → Distinct text_dec (i ∷ ids)
      → Placed site n (i ∷ ids)
      → i ≡ o
      → lookup text_dec (site o) c ≡ some p
      → Lands k (write_request method (site o) body) (site o) p q
      → lookup text_dec
          (site o)
          (deliver_all k c (write_request method (address n i) body ∷ requests n method ids body))
        ≡ some q
  unfolding deliver_all
  lookup-first k o p q i ids c d h e serves lands =
      ap
        (λ u. lookup text_dec (site o) (
          deliver_all k (deliver k c (write_request method u body)).0 (requests n method ids body)))
        (h.0.0 ∙ ap site e)
      ∙ lookup-deliver_all_ne k (requests n method ids body)
          (deliver k c (write_request method (site o) body)).0 (site o)
          (requests-elsewhere o ids h.1 (subst (λ j. contains text_dec j ids ≡ false) e d.0))
      ∙ ap (lookup text_dec (site o)) (lands c serves)
      ∙ lookup-put_self text_dec (site o) q c

  -- The node of an owner after the requests of a fan-out.
  pub lookup-deliver_all :
      (k : Clocks) (o : Text) (p q : Node) (ids : List Text) (c : Cluster)
      → Distinct text_dec ids
      → Placed site n ids
      → contains text_dec o ids ≡ true
      → o ≢ n.cfg.id
      → lookup text_dec (site o) c ≡ some p
      → Lands k (write_request method (site o) body) (site o) p q
      → lookup text_dec (site o) (deliver_all k c (requests n method ids body)) ≡ some q
  unfolding deliver_all contains
  lookup-deliver_all k o p q [] c d h m other serves lands = absurd (ground arith)
  lookup-deliver_all k o p q (i ∷ ids) c d h m other serves lands = elim (text_dec i n.cfg.id) [
    | yes e ↦
        ap (λ rs. lookup text_dec (site o) (deliver_all k c rs)) (requests_self i ids e)
        ∙ lookup-deliver_all k o p q ids c d.1 h.1 (ground arith) other serves lands
    | no sent ↦
        ap (λ rs. lookup text_dec (site o) (deliver_all k c rs)) (requests_sent i ids h sent)
        ∙ elim (text_dec i o) [
          | yes e ↦ lookup-first k o p q i ids c d h e serves lands
          | no ne ↦
              lookup-deliver_all k o p q ids
                (deliver k c (write_request method (address n i) body)).0 d.1 h.1 (ground arith)
                other
                (lookup-deliver_ne k c (write_request method (address n i) body) (site o) (λ f. ne (
                    apart i o
                      (sym h.0.0 ∙ sym (url_of-write_request method (address n i) body) ∙ f)))
                  ∙ serves)
                lands
        ]
  ]

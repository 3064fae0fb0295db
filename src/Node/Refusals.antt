-- ===== src/Node/Refusals.antt =====
-- A request that a handler of internal/node/node.go refuses changes nothing.
use ringcache.Base.{
  ℕ, ◌≡◌, ◌⊎◌, refl, sym, ◌∙◌, ap, Bool, true, ◌||◌, ◌==◌, Option, inl, inr, none, some, arith,
}
use ringcache.Go.Text.{Text}
use ringcache.Node.{Node, Problem, join, leave}
use ringcache.Node.Handlers.{
  Reply, http_error, WriteResp, handle_set, set_at_owners, handle_delete, delete_at_owners,
  handle_internal_kv, internal_get, internal_put, internal_delete, handle_members, begin_members,
  Started, replied, under_way, ended, end_members, Members, stamp,
}
use ringcache.Node.Peers.{
  World, Method, http_get, http_put, http_post, http_delete, http_other, KvBody,
}

-- The node as it was, and a status that blames the request.
abbrev Refused : Node → Node → ℕ → Type 0
Refused n m status = (m ≡ n) × ((status == 400 || status == 405) ≡ true)

-- A reply other than that of `http.Error`, or a refusal.
abbrev Unless : {R : Type 0} → Node → Option (Node × Reply R) → Type 0
Unless {R} n o =
    (m : Node) (status : ℕ) (p : Problem) → o ≡ some (m, http_error status p) → Refused n m status

set_at_owners-Unless :
    (w : World) (n : Node) (body : KvBody) → Unless {R = WriteResp} n (set_at_owners w n body)
unfolding set_at_owners
set_at_owners-Unless w n body m status p e = (ground arith, ground arith)

delete_at_owners-Unless : (w : World) (n : Node) (key : Text) → Unless n (delete_at_owners w n key)
unfolding delete_at_owners
delete_at_owners-Unless w n key m status p e = (ground arith, ground arith)

handle_set-Unless :
    (w : World) (unix_nano : ℕ) (n : Node) (method : Method) (body : Option KvBody)
    → Unless n (handle_set w unix_nano n method body)
unfolding handle_set
handle_set-Unless w unix_nano n method none m status p e = (ground arith, ground arith)
handle_set-Unless w unix_nano n method (some body) m status p e =
    let rest = set_at_owners-Unless w n (stamp unix_nano body) m status p in
    (ground (arith, rest), ground (arith, rest))

handle_delete-Unless :
    (w : World) (n : Node) (method : Method) (key : Text) → Unless n (handle_delete w n method key)
unfolding handle_delete
handle_delete-Unless w n method key m status p e =
    let rest = delete_at_owners-Unless w n key m status p in
    (ground (arith, rest), ground (arith, rest))

internal-Unless :
    (now replying : ℕ) (n : Node) (method : Method) (key : Text) (body : Option KvBody)
    → Unless n (handle_internal_kv now replying n method key body)
unfolding handle_internal_kv internal_get internal_put internal_delete
internal-Unless now replying n http_get key body m status p e = (ground arith, ground arith)
internal-Unless now replying n http_put key none m status p e = (ground arith, ground arith)
internal-Unless now replying n http_put key (some body) m status p e = (ground arith, ground arith)
internal-Unless now replying n http_delete key body m status p e = (ground arith, ground arith)
internal-Unless now replying n http_post key body m status p e = (ground arith, ground arith)
internal-Unless now replying n http_other key body m status p e = (ground arith, ground arith)

ended-Unless :
    (n m : Node) (r : Node × Started) (status : ℕ) (p : Problem)
    → ((l : Node) (q : Reply Members)
        → r ≡ (l, replied q)
        → ended r ≡ (m, http_error status p)
        → Refused n m status)
    → ended r ≡ (m, http_error status p)
    → Refused n m status
unfolding end_members
ended-Unless n m (l, replied q) status p h e = h l q refl e
ended-Unless n m (l, under_way c) status p h e = absurd (ground arith)

begin_members-Unless :
    (parses : Text → Bool) (n l : Node) (method : Method) (body : Option (Text × Text)) (id : Text)
    (q : Reply Members)
    → begin_members parses n method body id ≡ (l, replied q)
    → (l ≡ n)
      × ((status : ℕ) (p : Problem)
          → q ≡ http_error status p
          → (status == 400 || status == 405) ≡ true)
unfolding begin_members join leave
begin_members-Unless parses n l http_get body id q e = (ground arith, λ status p f. ground arith)
begin_members-Unless parses n l http_put none id q e = (ground arith, λ status p f. ground arith)
begin_members-Unless parses n l http_put (some (i, u)) id q e =
    (ground arith, λ status p f. ground arith)
begin_members-Unless parses n l http_post none id q e = (ground arith, λ status p f. ground arith)
begin_members-Unless parses n l http_post (some (i, u)) id q e =
    (ground arith, λ status p f. ground arith)
begin_members-Unless parses n l http_delete body id q e = (ground arith, λ status p f. ground arith)
begin_members-Unless parses n l http_other body id q e = (ground arith, λ status p f. ground arith)

members-Unless :
    (parses : Text → Bool) (n m : Node) (method : Method) (body : Option (Text × Text)) (id : Text)
    (status : ℕ) (p : Problem)
    → handle_members parses n method body id ≡ (m, http_error status p)
    → Refused n m status
unfolding handle_members
members-Unless parses n m method body id status p =
    ended-Unless n m (begin_members parses n method body id) status p (λ l q b e.
      let (same, why) = begin_members-Unless parses n l method body id q b in
      let e' = ap ended (sym b) ∙ e in
      (
        sym (ap (λ (x : Node × Reply Members). x.0) e') ∙ same,
        why status p (ap (λ (x : Node × Reply Members). x.1) e'),
      ))

-- A SET, a DELETE, a request of a peer or a change of members that is refused with a message
-- (the reply of `http.Error`, and not the JSON of a 404 or a 503) leaves the node exactly as it
-- was, whatever the method, the key and the body, and the status is 400 or 405.
pub refused-unchanged :
    (w : World) (now replying : ℕ) (parses : Text → Bool) (n m : Node) (method : Method)
    (key : Text) (body : Option KvBody) (member : Option (Text × Text)) (status : ℕ) (p : Problem)
    → (handle_set w now n method body ≡ some (m, http_error status p))
      ⊎ ((handle_delete w n method key ≡ some (m, http_error status p))
          ⊎ ((handle_internal_kv now replying n method key body ≡ some (m, http_error status p))
              ⊎ (handle_members parses n method member key ≡ (m, http_error status p))))
    → (m ≡ n) × ((status == 400 || status == 405) ≡ true)
refused-unchanged w now replying parses n m method key body member status p (inl e) =
    handle_set-Unless w now n method body m status p e
refused-unchanged w now replying parses n m method key body member status p (inr (inl e)) =
    handle_delete-Unless w n method key m status p e
refused-unchanged w now replying parses n m method key body member status p (inr (inr (inl e))) =
    internal-Unless now replying n method key body m status p e
refused-unchanged w now replying parses n m method key body member status p (inr (inr (inr e))) =
    members-Unless parses n m method member key status p e

-- ===== src/Server/Session.antt =====
-- client/grpc/server_client.go: how a login goes, and the address that it gives.
use mathlib.Core.Path.{subst}
use runetale.Common.{
  String, ◌≡◌, sym, ap, ◌∙◌, inl, inr, arith, Outcome, ok, value, Fallible-cases, bound-ok, ok_or,
}
use runetale.Server.Defs.{
  LoginNodeResponse, ServerCalls, SysInfo, login_address, node_metadata, login_node, node_address,
}

module _ {K S R W : Type 0} (calls : ServerCalls K S R W) (sys : SysInfo)
    (nk wg_priv_key : String) where
  -- The login ends at `w'` with this address: the server's first answer has it, and where the node
  -- was not registered, a session has given the address `session` after the browser was opened.
  pub record LoggedIn (w : W) (ip cidr : String) (w' : W) : Type 0 where
    pub key : K
    pub res : LoginNodeResponse
    pub session : String × String
    pub parsed : calls.parse_key wg_priv_key ≡ value key
    pub answered :
        calls.login_node (node_metadata calls sys nk key) w
        ≡ (ok res, (calls.login_node (node_metadata calls sys nk key) w).1)
    pub addressed :
        login_address calls sys nk res (calls.login_node (node_metadata calls sys nk key) w).1
        ≡ (ok session, w')
    pub ip_first : ip ≡ res.ip
    pub cidr_first : cidr ≡ res.cidr

  login_node_lem :
      (w : W) (res : LoginNodeResponse) (w' : W)
      → login_node calls sys nk wg_priv_key w ≡ (ok res, w')
      → LoggedIn w res.ip res.cidr w'
  unfolding login_node
  login_node_lem w res w' h = elim (Fallible-cases (calls.parse_key wg_priv_key)) [
    | inl (key, is) ↦
        let (first, e₁, h₁) =
          bound-ok _ (calls.login_node (node_metadata calls sys nk key) w) res w' (rw is at h) in
        let (session, e₂, h₂) =
          bound-ok _
            (login_address calls sys nk first
              (calls.login_node (node_metadata calls sys nk key) w).1)
            res w' h₁ in
        let done = ap (λ p. p.1) h₂ in
        let same = ap (λ p. ok_or first p.0) h₂ in
        record {
          key = key;
          res = first;
          session = session;
          parsed = is;
          answered = e₁;
          addressed = e₂ ∙ ap (λ x. (ok session, x)) done;
          ip_first = ap (λ r. r.ip) (sym same);
          cidr_first = ap (λ r. r.cidr) (sym same);
        }
    | inr (e, is) ↦ absurd (ground (arith, ap (λ p. p.0) (rw is at h)))
  ]

  -- If a login without a token succeeds, then the address that the node gets is the one in the first
  -- answer of the server. Where the node was not registered, the browser was opened and the
  -- session has given an address as well, but that one is dropped.
  pub node_address-First :
      (w : W) (ip cidr : String) (w' : W)
      → node_address calls sys "" nk wg_priv_key w ≡ (ok (ip, cidr), w')
      → LoggedIn w ip cidr w'
  unfolding node_address
  node_address-First w ip cidr w' h =
      let (res, e, h') = bound-ok _ (login_node calls sys nk wg_priv_key w) (ip, cidr) w' h in
      let whole = login_node_lem w res (login_node calls sys nk wg_priv_key w).1 e in
      subst
        (λ (p : Outcome (String × String) × W).
          LoggedIn w (ok_or (ip, cidr) p.0).0 (ok_or (ip, cidr) p.0).1 p.1)
        h' whole

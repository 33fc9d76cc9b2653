-- ===== src/Session/Gathering.antt =====
-- rcn/webrtc/ice.go: what a round of the gathering loop leaves.
use mathlib.Core.Path.{subst}
use runetale.Common.{
  ◌≡◌, refl, true, false, Option, none, some, List, [], ◌∷◌, ◌++◌, Outcome, ok, err, panic,
}
use runetale.ControlPlane.Peer.{Ice}
use runetale.Session.Defs.{Kinds, Credentials, Session, IceCalls, State}
use runetale.Session.Signal.{
  signal_answer, put_started, start_session_conn, Received, by_answer, by_offer, taken,
  gather_round, waiting_remote_peer_connections,
}
use runetale.Proxy.Conn.{AgentCalls, Conn, new_conn, start_on, after_reach, reach_peer, start_conn}
use runetale.Session.Prepared.{Post, bound-Post, Post-ok, outside-Post, deref-Post}
use runetale.Proxy.Defs.{ProxyLibraries, WireProxy}
use runetale.Proxy.Lifetime.{start_conn-Running}

-- The credentials that came.
abbrev pub credentials_of :
    {t : Kinds} {calls : IceCalls t} {i : Ice t.U} → Received calls i → Credentials
credentials_of (by_answer c) = c
credentials_of (by_offer c) = c

module _ {L R W : Type 0} (lib : ProxyLibraries L R W) where
  start_on-uname :
      (r : R) (c : Conn L R) (q : Option (WireProxy L R)) (w : W)
      → (start_on lib r c q w).1.0.uname ≡ c.uname
  unfolding start_on
  start_on-uname r c none w = refl
  start_on-uname r c (some p) w = refl

  after_reach-uname :
      (c : Conn L R) (out : Outcome R × W) → (after_reach lib c out).1.0.uname ≡ c.uname
  unfolding after_reach
  after_reach-uname c (ok r, w) = start_on-uname r (record c { remote_conn = some r }) c.wireproxy w
  after_reach-uname c (err e, w) = refl
  after_reach-uname c (panic, w) = refl

  start_conn-uname :
      (agent : AgentCalls R W) (c : Conn L R) (w : W)
      → (start_conn lib agent (c, w)).1.0.uname ≡ c.uname
  unfolding start_conn
  start_conn-uname agent c w = after_reach-uname c (reach_peer lib agent c w)

module _ {t : Kinds} (calls : IceCalls t) (i : Ice t.U) where
  -- The session has a connection that was made with these credentials and reached the peer.
  abbrev pub Joined : Credentials → State t → Type 0
  Joined c (s, cs, w) =
      (k : Conn t.L t.R) × (r : t.R) × (s.conn ≡ some k)
      × (k.uname ≡ c.user_name)
      × (k.remote_conn ≡ some r)

  -- The session is joined, and its goroutine waits for the next credentials.
  abbrev pub Resumed : Credentials → Unit {0} → State t → Type 0
  Resumed c _ st = (st.0.waiting ≡ true) × Joined c st

  abbrev Same : Credentials → Credentials → State t → Type 0
  Same c c' st = c' ≡ c

  taken-Post :
      (r : Received calls i) (st : State t) → Post (Same (credentials_of r)) (taken calls i r st)
  unfolding taken
  taken-Post (by_answer c) st = refl
  taken-Post (by_offer c) st =
      bound-Post (λ _ _. Unit {0}) (Same c) _ (signal_answer calls st)
        (anything (signal_answer calls st)) (λ _ st' h. refl)
    where
      anything : (out : Outcome (Unit {0}) × State t) → Post (λ _ _. Unit {0}) out
      anything (ok _, st') = tt
      anything (err e, st') = tt
      anything (panic, st') = tt

  start_session_conn-Post :
      (a : t.Agent) (c : Credentials) (st : State t)
      → Post (λ _ st'. Joined c st') (start_session_conn calls i a c st)
  unfolding start_session_conn put_started new_conn
  start_session_conn-Post a c (s, cs, w) =
      let k =
        let r : Conn t.L t.R =
          new_conn c.user_name c.pwd s.wireproxy i.remote_wg_pub_key
            (calls.wg_pub_key i.wg_priv_key) in
        r in
      put (start_conn calls.proxy_libraries (calls.agent_calls a) (k, w))
        (start_conn-uname calls.proxy_libraries (calls.agent_calls a) k w)
        (λ e.
          let (r, p, p', reached, old, is_r, new, st) =
            start_conn-Running calls.proxy_libraries (calls.agent_calls a) k w e in
          (r, is_r))
    where
      put :
          (out : Outcome (Unit {0}) × (Conn t.L t.R × t.W))
          → out.1.0.uname ≡ c.user_name
          → (out.0 ≡ ok tt → (r : t.R) × (out.1.0.remote_conn ≡ some r))
          → Post (λ _ st'. Joined c st') (put_started calls i s cs out)
      put (ok _, (k, w')) e h = let (r, is_r) = h refl in (k, r, refl, e, is_r)
      put (err x, (k, w')) e h = tt
      put (panic, (k, w')) e h = tt

  gather_round-Post :
      (r : Received calls i) (st : State t)
      → Post (Resumed (credentials_of r)) (gather_round calls i r st)
  unfolding gather_round
  gather_round-Post r (s, cs, w) =
      let s₁ = let x : Session t = record s { waiting = false } in x in
      let c = credentials_of r in
      bound-Post (Same c) (Resumed c) _ (taken calls i r (s₁, cs, w)) (taken-Post r (s₁, cs, w))
        λ c' (s₂, cs₂, w₂) same.
          deref-Post (Resumed c) _ (s₂, cs₂, w₂) s₂.agent
            λ a is. outside-Post (Resumed c) _ s₂ cs₂ (calls.gather_candidates a w₂) λ _ w₃.
              bound-Post (λ _ st. Joined c st) (Resumed c) _
                (start_session_conn calls i a c' (s₂, cs₂, w₃))
                (subst
                  (λ d. Post (λ _ st. Joined d st) (start_session_conn calls i a c' (s₂, cs₂, w₃)))
                  same (start_session_conn-Post a c' (s₂, cs₂, w₃)))
                λ _ (s₄, cs₄, w₄) joined.
                  outside-Post (Resumed c) _ s₄ cs₄ (calls.server_connect i.nk w₄)
                    λ _ w₅. (refl, joined)

  loop-Post :
      (r : Received calls i) (l : List (Received calls i)) (st : State t)
      → Post (Resumed (credentials_of r)) (waiting_remote_peer_connections calls i (l ++ r ∷ []) st)
  unfolding waiting_remote_peer_connections
  loop-Post r [] st =
      bound-Post (Resumed (credentials_of r)) (Resumed (credentials_of r)) _
        (gather_round calls i r st) (gather_round-Post r st) (λ _ st' h. h)
  loop-Post r (q ∷ l) st =
      bound-Post (Resumed (credentials_of q)) (Resumed (credentials_of r)) _
        (gather_round calls i q st) (gather_round-Post q st) (λ _ st' h. loop-Post r l st')

  -- When the loop has handled credentials, the last of them those of `r`, and no call has failed,
  -- then the session holds a connection that was made with the user name of `r` and reached the
  -- peer, and the goroutine waits for the next credentials.
  pub waiting_remote_peer_connections-Resumed :
      (rs : List (Received calls i)) (r : Received calls i) (st : State t)
      → (waiting_remote_peer_connections calls i (rs ++ r ∷ []) st).0 ≡ ok tt
      → Resumed (credentials_of r) tt (waiting_remote_peer_connections calls i (rs ++ r ∷ []) st).1
  waiting_remote_peer_connections-Resumed rs r st e =
      Post-ok (Resumed (credentials_of r))
        (waiting_remote_peer_connections calls i (rs ++ r ∷ []) st) (loop-Post r rs st) e

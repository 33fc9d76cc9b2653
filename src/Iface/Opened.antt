-- ===== src/Iface/Opened.antt =====
-- iface/iface.go: how the calls of an interface count the clients of wgctrl that are open.
use runetale.Common.{
  ℕ, suc, ◌<◌, String, ◌≡◌, refl, ◌∙◌, List, [], ◌∷◌, arith, Outcome, ok, err, panic, Action, ◌>>=◌,
  ◌>>◌, Fallible, value, error, bound,
}
use runetale.Iface.Defs.{
  WgConfig, Iface, IfaceCalls, returned, with_close, printed, exec_args, exec_cmd, configure_device,
  configure_remote_node_peer, remove_remote_peer,
}
use runetale.Iface.Linux.{succeeds}
use runetale.Proxy.Defs.{UdpAddr}

module _ {K N D T W : Type 0} (calls : IfaceCalls K N D T W) (opened : W → ℕ) where
  -- A call that leaves as many clients open as there were, however it ends.
  abbrev pub Balanced : {A : Type 0} → Action W A → Type 0
  Balanced m = (w : W) → opened (m w).1 ≡ opened w

  abbrev pub AfterNew : {A : Type 0} → ℕ → Outcome A × W → Type 0
  AfterNew n (ok d, w) = opened w ≡ suc n
  AfterNew n (err e, w) = opened w ≡ n
  AfterNew n (panic, w) = opened w ≡ n

  -- wgctrl.New opens a client where it succeeds, Close closes one, and no other call does either.
  pub record Counts : Type 0 where
    pub news : (w : W) → AfterNew (opened w) (calls.new_client w)
    pub closes : (d : D) (w : W) → 0 < opened w → suc (opened (calls.close_client d w)) ≡ opened w
    pub outputs : (p : String) (args : List String) → Balanced (calls.output p args)
    pub combined_outputs :
        (p : String) (args : List String) → Balanced (calls.combined_output p args)
    pub looks : (p : String) → Balanced (calls.look_path p)
    pub devices : (d : D) (n : String) → Balanced (calls.device d n)
    pub configures : (d : D) (n : String) (c : WgConfig K N) → Balanced (calls.configure d n c)
    pub creates : (n : String) (mtu : ℕ) → Balanced (calls.create_tun n mtu)
    pub ups : (t : T) → Balanced (calls.up t)
    pub opens_uapi : (n : String) → Balanced (calls.uapi_open n)
    pub listens_uapi : (n : String) → Balanced (calls.uapi_listen n)

  module _ {A B : Type 0} where
    pub bound-opened :
        (f : A → Action W B) (r : Outcome A × W)
        → ((a : A) → Balanced (f a))
        → opened (bound f r).1 ≡ opened r.1
    bound-opened f (ok a, w) h = h a w
    bound-opened f (err e, w) h = refl
    bound-opened f (panic, w) h = refl

    pub >>=-Balanced :
        (m : Action W A) (f : A → Action W B)
        → Balanced m
        → ((a : A) → Balanced (f a))
        → Balanced (m >>= f)
    >>=-Balanced m f h k w = bound-opened f (m w) k ∙ h w

  pub returned-Balanced : {A : Type 0} (r : Fallible A) → Balanced (returned calls r)
  returned-Balanced (value a) w = refl
  returned-Balanced (error e) w = refl

  pub printed-opened : (r : Outcome (Unit {0}) × W) → opened (printed calls r).1 ≡ opened r.1
  printed-opened (ok _, w) = refl
  printed-opened (err e, w) = refl
  printed-opened (panic, w) = refl

  pub succeeds-opened : (r : Outcome (Unit {0}) × W) → opened (succeeds calls r).1 ≡ opened r.1
  succeeds-opened (ok _, w) = refl
  succeeds-opened (err e, w) = refl
  succeeds-opened (panic, w) = refl

  module _ (counts : Counts) where
    -- A client that is opened for a call and closed after it.
    after_new :
        {A : Type 0} (m : D → Action W A) (n : ℕ) (r : Outcome D × W)
        → ((d : D) → Balanced (m d))
        → AfterNew n r
        → opened (bound (λ d. with_close calls d (m d)) r).1 ≡ n
    after_new m n (ok d, w) h a = ground (arith, counts.closes d (m d w).1, h d w)
    after_new m n (err e, w) h a = a
    after_new m n (panic, w) h a = a

    pub with_new-Balanced :
        {A : Type 0} (m : D → Action W A)
        → ((d : D) → Balanced (m d))
        → Balanced (calls.new_client >>= λ d. with_close calls d (m d))
    with_new-Balanced m h w = after_new m (opened w) (calls.new_client w) h (counts.news w)

    exec_args-Balanced : (args : List String) → Balanced (exec_args calls args)
    unfolding exec_args
    exec_args-Balanced [] w = refl
    exec_args-Balanced (p ∷ args) w = counts.outputs p args w

    pub exec_cmd-Balanced : (c : String) → Balanced (exec_cmd calls c)
    unfolding exec_cmd
    exec_cmd-Balanced c = exec_args-Balanced (calls.fields c)

    pub configure_device-Balanced :
        (i : Iface) (c : WgConfig K N) → Balanced (configure_device calls i c)
    unfolding configure_device
    configure_device-Balanced i c =
        with_new-Balanced (λ d. calls.device d i.tun >> calls.configure d i.tun c)
          λ d. >>=-Balanced _ _ (counts.devices d i.tun) λ a. counts.configures d i.tun c

    pub configure_remote_node_peer-Balanced :
        (i : Iface) (k ip : String) (e : UdpAddr) (ka : ℕ) (psk : String)
        → Balanced (configure_remote_node_peer calls i k ip e ka psk)
    unfolding configure_remote_node_peer
    configure_remote_node_peer-Balanced i k ip e ka psk =
        search (>>=-Balanced, returned-Balanced, configure_device-Balanced)

    pub remove_remote_peer-Balanced :
        (i : Iface) (iface ip k : String) → Balanced (remove_remote_peer calls i iface ip k)
    unfolding remove_remote_peer
    remove_remote_peer-Balanced i iface ip k =
        search (>>=-Balanced, returned-Balanced, configure_device-Balanced)

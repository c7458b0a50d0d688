-- ===== src/Network/Sent.antt =====
-- What create_network exchanges with the kernel, and the network namespaces in which it does.
use mathlib.Core.Path.{subst}
use clonebox.Prelude.{
  ℕ, Text, ◌≡◌, ◌≢◌, ◌⊎◌, refl, sym, ◌∙◌, false, List, [], ◌∷◌, arith, take, drop, if◌then◌else◌,
  ◌==◌,
}
use clonebox.Network.Words.{Endian, from_ne_bytes}
use clonebox.Network.Writer.{Writer}
use clonebox.Network.Messages.{getlink_message}
use clonebox.Network.Requests.{
  clone_newnet, received, refuses, reply_index, create_netlink_socket, send_message, recv_ack,
  transact, get_interface_index, enter_net, open_net,
}
use clonebox.Os.{
  Os, Reply, success, failure, Fd, did, send, recv, setns, History, Sys, Outcome, ok, err, gone,
  proceed, pure, ◌>>=◌,
}

-- A message that went out on a socket, a reply that came back on it, and a network namespace that was
-- entered.
pub data Wire : Type 0 where
  out : Fd → List ℕ → Wire
  back : Fd → List ℕ → Wire
  entered : Fd → Wire

abbrev pub Wires : Type 0
Wires = List Wire

-- All of it, newest first.
unfoldable pub traffic : History → Wires
traffic [] = []
traffic (did (send fd bytes) (success n) ∷ h) = out fd bytes ∷ traffic h
traffic (did (recv fd) (success bytes) ∷ h) = back fd bytes ∷ traffic h
traffic (did (setns fd flag) (success u) ∷ h) =
    let rest = traffic h in if flag == clone_newnet then entered fd ∷ rest else rest
traffic (c ∷ h) = traffic h

abbrev pub empty : Writer
empty = record { buf = [] }

-- The bytes of a reply that came.
abbrev heard : {E : Type 0} → Reply E (List ℕ) → List ℕ
heard (success bytes) = bytes
heard (failure e) = []

-- From a history with this traffic, code that returns a result has in the end traffic for which R
-- holds.
abbrev pub Leads : {B : Type 0} → (B → Wires → Type 0) → Wires → Sys B → Type 0
Leads {B} R before m =
    (h : History) (b : B) → traffic h ≡ before → (m h).0 ≡ ok b → R b (traffic (m h).1)

module _ (e : Endian) where
  -- A reply, of which 24 bytes are looked at, that is no error (type 2), or is one with the code 0, which
  -- acknowledges. The type stands at 4, the code at 16.
  abbrev pub Accepted : List ℕ → Type 0
  Accepted reply =
      (from_ne_bytes e (take 2 (drop 4 (received reply))) ≢ 2)
      ⊎ (from_ne_bytes e (take 4 (drop 16 (received reply))) ≡ 0)

  abbrev pub Granted : Type 0
  Granted = (reply : List ℕ) × Accepted reply

  -- ifi_index stands at 4 of ifinfomsg, and that at 16 of the reply.
  abbrev pub index_of : List ℕ → ℕ
  index_of reply = from_ne_bytes e (take 4 (drop 20 (received reply)))

  refuses-Accepted : (reply : List ℕ) → refuses e reply ≡ false → Accepted reply
  unfolding refuses
  refuses-Accepted reply accepts = ground (arith, accepts)

  module _ ⦃os : Os⦄ {B : Type 0} (R : B → Wires → Type 0) (before : Wires) where
    -- What follows a step with its result.
    proceed-Leads :
        {A : Type 0} (r : Outcome A) (k : A → Sys B) (h1 : History) (b : B)
        → ((a : A) → r ≡ ok a → (k a h1).0 ≡ ok b → R b (traffic (k a h1).1))
        → (proceed r k h1).0 ≡ ok b
        → R b (traffic (proceed r k h1).1)
    proceed-Leads (ok a) k h1 b rest done = rest a refl done
    proceed-Leads (err x) k h1 b rest done = absurd (ground (arith, done))
    proceed-Leads (gone x) k h1 b rest done = absurd (ground (arith, done))

    traffic-create_netlink_socket :
        (h : History) → traffic (create_netlink_socket e h).1 ≡ traffic h
    unfolding create_netlink_socket traffic
    traffic-create_netlink_socket h = ground arith

    traffic-open_net : (path : Text) (h : History) → traffic (open_net e path h).1 ≡ traffic h
    unfolding open_net traffic
    traffic-open_net path h = ground arith

    abbrev reply_to : Fd → Writer → History → List ℕ
    reply_to sk w h =
        heard (os.answers (did (send sk w.buf) (os.answers h (send sk w.buf)) ∷ h) (recv sk))

    transact_exchange :
        (sk : Fd) (w w1 : Writer) (h : History)
        → traffic h ≡ before
        → (transact e sk w h).0 ≡ ok w1
        → (w1 ≡ empty)
          × (refuses e (reply_to sk w h) ≡ false)
          × (traffic (transact e sk w h).1 ≡ back sk (reply_to sk w h) ∷ out sk w.buf ∷ before)
    unfolding transact send_message recv_ack traffic
    transact_exchange sk w w1 h seen done = ground (arith, done, seen)

    get_interface_index_exchange :
        (sk : Fd) (name : Text) (w : Writer) (h : History) (r : ℕ × Writer)
        → traffic h ≡ before
        → (get_interface_index e sk name w h).0 ≡ ok r
        → (r ≡ (reply_index e (reply_to sk (getlink_message e name w) h), empty))
          × (refuses e (reply_to sk (getlink_message e name w) h) ≡ false)
          × (traffic (get_interface_index e sk name w h).1
              ≡ back sk (reply_to sk (getlink_message e name w) h)
                ∷ out sk (getlink_message e name w).buf
                ∷ before)
    unfolding get_interface_index send_message traffic
    get_interface_index_exchange sk name w h r seen done = ground (arith, done, seen)

    enter_net_entered :
        (fd : Fd) (name : Text) (h : History)
        → traffic h ≡ before
        → (enter_net e fd name h).0 ≡ ok tt
        → traffic (enter_net e fd name h).1 ≡ entered fd ∷ before
    unfolding enter_net traffic
    enter_net_entered fd name h seen done = ground (arith, done, seen)

    pub socket_then :
        (k : Fd → Sys B)
        → ((sk : Fd) → Leads R before (k sk))
        → Leads R before (create_netlink_socket e >>= k)
    socket_then k rest h b seen =
        proceed-Leads (create_netlink_socket e h).0 k h1 b
          (λ sk p. rest sk h1 b (traffic-create_netlink_socket h ∙ seen))
      where
        h1 : History
        h1 = (create_netlink_socket e h).1

    pub open_then :
        (path : Text) (k : Fd → Sys B)
        → ((fd : Fd) → Leads R before (k fd))
        → Leads R before (open_net e path >>= k)
    open_then path k rest h b seen =
        proceed-Leads (open_net e path h).0 k (open_net e path h).1 b
          (λ fd p. rest fd (open_net e path h).1 b (traffic-open_net path h ∙ seen))

    pub message_then :
        (sk : Fd) (w : Writer) (k : Writer → Sys B)
        → ((ack : Granted) → Leads R (back sk ack.0 ∷ out sk w.buf ∷ before) (k empty))
        → Leads R before (transact e sk w >>= k)
    message_then sk w k rest h b seen = proceed-Leads (transact e sk w h).0 k h1 b (λ w1 p.
        let (cleared, accepts, seen1) = transact_exchange sk w w1 h seen p in
        let ack = reply_to sk w h in
        subst (λ x. (k x h1).0 ≡ ok b → R b (traffic (k x h1).1)) (sym cleared)
          (rest (ack, refuses-Accepted ack accepts) h1 b seen1))
      where
        h1 : History
        h1 = (transact e sk w h).1

    pub index_then :
        (sk : Fd) (name : Text) (w : Writer) (k : ℕ × Writer → Sys B)
        → ((reply : Granted)
            → Leads R
                (back sk reply.0 ∷ out sk (getlink_message e name w).buf ∷ before)
                (k (index_of reply.0, empty)))
        → Leads R before (get_interface_index e sk name w >>= k)
    unfolding reply_index
    index_then sk name w k rest h b seen =
        proceed-Leads (get_interface_index e sk name w h).0 k h1 b (λ r p.
          let (got, accepts, seen1) = get_interface_index_exchange sk name w h r seen p in
          let reply = reply_to sk (getlink_message e name w) h in
          subst (λ x. (k x h1).0 ≡ ok b → R b (traffic (k x h1).1)) (sym got)
            (rest (reply, refuses-Accepted reply accepts) h1 b seen1))
      where
        h1 : History
        h1 = (get_interface_index e sk name w h).1

    pub enter_then :
        (fd : Fd) (name : Text) (k : Unit {0} → Sys B)
        → Leads R (entered fd ∷ before) (k tt)
        → Leads R before (enter_net e fd name >>= k)
    enter_then fd name k rest h b seen =
        proceed-Leads (enter_net e fd name h).0 k (enter_net e fd name h).1 b
          (λ u p. rest (enter_net e fd name h).1 b (enter_net_entered fd name h seen p))

    pub pure-Leads : (b : B) → R b before → Leads R before (pure b)
    pure-Leads b r h b1 seen done = ground (arith, r, seen, done)

    pub >>=-Leads :
        {A : Type 0} (P : A → Wires → Type 0) (m : Sys A) (k : A → Sys B)
        → Leads P before m
        → ((a : A) (after : Wires) → P a after → Leads R after (k a))
        → Leads R before (m >>= k)
    >>=-Leads P m k first rest h b seen =
        proceed-Leads (m h).0 k (m h).1 b
          (λ a p. rest a (traffic (m h).1) (first h a seen p) (m h).1 b refl)

  -- A step that ends with its message.
  pub message_last :
      ⦃os : Os⦄ (R : Writer → Wires → Type 0) (before : Wires) (sk : Fd) (w : Writer)
      → ((ack : Granted) → R empty (back sk ack.0 ∷ out sk w.buf ∷ before))
      → Leads R before (transact e sk w)
  message_last R before sk w r h b seen done =
      let (cleared, accepts, seen1) = transact_exchange R before sk w b h seen done in
      let ack = reply_to R before sk w h in
      subst (λ x. R x (traffic (transact e sk w h).1)) (sym cleared)
        (subst (R empty) (sym seen1) (r (ack, refuses-Accepted ack accepts)))

-- ===== src/Dashboard/Hub/Delivery.antt =====
-- What becomes of a message, and of a hub whose own loop waits for itself.
use one_dev_army.Common.{
  ℕ, suc, ◌≡◌, refl, ap, ◌∙◌, sym, length, subst, true, false, none, some, List, [], ◌∷◌, String,
  if◌then◌else◌, arith, if-split,
}
use one_dev_army.Dashboard.Hub.{
  Hub, Pc, sending, selecting, unregistering, Channel, Step, Reach, here, later, member,
  set_channel, push, is_full, serve_ws, broadcast, send_next, send_steps, send_at, pong, receive,
  stop, close_all, send_on_closed,
}
use one_dev_army.Dashboard.Hub.Channels.{Distinct, Live, close_all_lem, channels-close_all}
use one_dev_army.Dashboard.Hub.Safety.{IsSound, Step-IsSound}

-- The channels behind a message that went to all clients in the list.
abbrev Got : String → List ℕ → (ℕ → Channel) → (ℕ → Channel) → Type 0
Got m cs old new = (c : ℕ) → new c ≡ (if member c cs then push m (old c) else old c)

abbrev pub HasRoom : Hub → List ℕ → Type 0
HasRoom h cs = (c : ℕ) → member c cs ≡ true → is_full (h.channels c) ≡ false

sent : ℕ → List ℕ → String → Hub → Hub
sent c cs m h = set_channel c (push m (h.channels c)) (record h { pc = sending cs m })

send_next-sent :
    (c : ℕ) (cs : List ℕ) (m : String) (h : Hub)
    → h.pc ≡ sending (c ∷ cs) m
    → (h.channels c).closed ≡ false
    → is_full (h.channels c) ≡ false
    → send_next h ≡ sent c cs m h
unfolding send_next sent
send_next-sent c cs m h p o r = rw (p, o, r)

-- The loop of a broadcast takes one action for each client, and one to end.
send_loop :
    (cs : List ℕ) (m : String) (h : Hub)
    → h.pc ≡ sending cs m
    → Distinct cs
    → Live h cs
    → HasRoom h cs
    → let i = send_steps (suc (length cs)) h in
      (i.panic ≡ h.panic)
      × (i.pc ≡ selecting)
      × (i.clients ≡ h.clients)
      × Got m cs h.channels i.channels
unfolding send_steps send_next sent
send_loop [] m h p d live room = rw p (refl, refl, refl, λ c. refl)
send_loop (c ∷ cs) m h p d live room =
    let step = send_next-sent c cs m h p (live c (ground arith)) (room c (ground arith)) in
    let (calm, q, kept, got) =
      send_loop cs m (sent c cs m h) refl d.1 (λ e k. ground (arith, live e))
        (λ e k. ground (arith, room e)) in
    subst
      (λ g.
        let i = send_steps (suc (length cs)) g in
        (i.panic ≡ h.panic)
        × (i.pc ≡ selecting)
        × (i.clients ≡ h.clients)
        × Got m (c ∷ cs) h.channels i.channels)
      (sym step) (calm, q, kept, λ e. ground (arith, got e))

-- In a state that meets the invariants, with `Run` in its `select` and room in every client's
-- channel: a broadcast that nothing interrupts ends after one action of `Run` for each client and one
-- more, without a panic; every client, and nobody else, has got the message behind what it had, and
-- the clients are those from before.
pub broadcast-delivers :
    (m : String) (h : Hub)
    → IsSound h
    → h.panic ≡ none
    → h.pc ≡ selecting
    → HasRoom h h.clients
    → let i = send_steps (suc (length h.clients)) (broadcast m h) in
      Step h (broadcast m h)
      × (i.panic ≡ none)
      × (i.pc ≡ selecting)
      × (i.clients ≡ h.clients)
      × ((c : ℕ)
          → i.channels c ≡ (if member c h.clients then push m (h.channels c) else h.channels c))
unfolding broadcast
broadcast-delivers m h v calm p room =
    let (quiet, q, kept, got) = send_loop h.clients m (broadcast m h) refl v.distinct v.live room in
    (Step.broadcasting m calm p, quiet ∙ calm, q, kept, got)

-- `Run` waits in its own send, the hub has no more clients than before, and whoever waited for
-- registration still waits.
pub record IsStuck (c : ℕ) (h i : Hub) : Type 0 where
  pub pc : i.pc ≡ unregistering c
  pub clients : (d : ℕ) → member d i.clients ≡ true → member d h.clients ≡ true
  pub waiting : (d : ℕ) → member d h.waiting ≡ true → member d i.waiting ≡ true

module _ (c : ℕ) (h : Hub) where
  stop-IsStuck : (i : Hub) → IsSound i → IsStuck c h i → IsStuck c h (stop i)
  unfolding stop
  stop-IsStuck i v s = if-split (IsStuck c h) i.closed (λ e. s) (λ e. closed_all)
    where
      emptied : Hub
      emptied = record i { closed = true; clients = [] }

      closed_all : IsStuck c h (close_all i.clients emptied)
      closed_all =
          rw (close_all_lem i.clients emptied v.distinct v.live)
            (record { pc = s.pc; clients = λ d m. cc; waiting = s.waiting })

  Step-IsStuck : {i j : Hub} → Step i j → IsSound i → IsStuck c h i → IsStuck c h j
  unfolding send_next pong receive serve_ws
  Step-IsStuck (Step.serving p) v s = record {
    pc = s.pc;
    clients = s.clients;
    waiting = λ d m. ground (arith, s.waiting d);
  }
  Step-IsStuck (Step.registering d p q w) v s = absurd (ground (arith, s.pc))
  Step-IsStuck (Step.leaving d p q) v s = absurd (ground (arith, s.pc))
  Step-IsStuck (Step.broadcasting m p q) v s = absurd (ground (arith, s.pc))
  Step-IsStuck {i} (Step.delivering p) v s = subst (λ p. IsStuck c h (send_at p i)) (sym s.pc) s
  Step-IsStuck (Step.answering d m p) v s = record {
    pc = ground (arith, s.pc);
    clients = λ e k. ground (arith, s.clients e);
    waiting = λ e k. ground (arith, s.waiting e);
  }
  Step-IsStuck (Step.receiving d p) v s = record {
    pc = s.pc;
    clients = s.clients;
    waiting = s.waiting;
  }
  Step-IsStuck {i} (Step.stopping p) v s = stop-IsStuck i v s

  Reach-IsStuck :
      {i : Hub} → IsSound h → h.pc ≡ unregistering c → Reach h i → IsSound i × IsStuck c h i
  Reach-IsStuck v p here = (v, record { pc = p; clients = λ d m. m; waiting = λ d m. m })
  Reach-IsStuck v p (later r s) =
      let (w, k) = Reach-IsStuck v p r in (Step-IsSound s w, Step-IsStuck s w k)

send_at-closed :
    (c : ℕ) (cs : List ℕ) (m : String) (at : Pc) (h : Hub)
    → at ≡ sending (c ∷ cs) m
    → (h.channels c).closed ≡ true
    → (send_at at h).panic ≡ some send_on_closed
send_at-closed c cs m at h p e = rw (p, e)

module _ (c : ℕ) (cs : List ℕ) (m : String) (h : Hub) (v : IsSound h)
    (p : h.pc ≡ sending (c ∷ cs) m) where
  -- In a state that meets the invariants, at a client of a broadcast whose channel is open and full:
  -- the next action of `Run` is a send on `unregister` that nobody receives. From there on, whatever
  -- the goroutines do, `Run` stays in it, no client is added, and whoever waits for registration
  -- still waits.
  pub send_next-IsStuck :
      h.panic ≡ none
      → (h.channels c).closed ≡ false
      → is_full (h.channels c) ≡ true
      → {i : Hub} → Reach (send_next h) i
      → IsStuck c h i
  unfolding send_next
  send_next-IsStuck calm o f {i} r =
      let h1 = record h { pc = unregistering c } in
      let e : send_next h ≡ h1 = rw (p, o, f) in
      let sound = subst IsSound e (Step-IsSound (Step.delivering calm) v) in
      let s = (Reach-IsStuck c h1 sound refl (subst (λ g. Reach g i) e r)).1 in
      record { pc = s.pc; clients = s.clients; waiting = s.waiting }

  -- In a state that meets the invariants and was not stopped, at a client of a broadcast that is
  -- still registered: when `Stop` comes between, the send of the broadcast panics.
  pub stop-panics :
      h.closed ≡ false
      → member c h.clients ≡ true
      → (send_next (stop h)).panic ≡ some send_on_closed
  unfolding stop send_next
  stop-panics o k =
      let emptied = record h { closed = true; clients = [] } in
      let shape = close_all_lem h.clients emptied v.distinct v.live in
      let gone = channels-close_all h.clients emptied v.distinct v.live c in
      send_at-closed c cs m (stop h).pc (stop h) (rw (o, ap (λ (g : Hub). g.pc) shape) p)
        (rw (o, gone, k))

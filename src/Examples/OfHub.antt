-- ===== src/Examples/OfHub.antt =====
-- The hub of internal/dashboard/websocket.go on concrete states.
use one_dev_army.Common.{
  ℕ, zero, suc, ◌≡◌, refl, true, false, none, some, List, [], ◌∷◌, String, if◌then◌else◌, arith,
  length,
}
use one_dev_army.Dashboard.Hub.{
  Hub, Step, Reach, here, later, new_hub_with_limit, serve_ws, register, broadcast, stop, send_next,
  send_steps, sending, selecting, member, push, send_on_closed, send_capacity, is_full,
}
use one_dev_army.Dashboard.Hub.Safety.{IsSound, Reach-IsSound}
use one_dev_army.Dashboard.Hub.Delivery.{
  HasRoom, IsStuck, broadcast-delivers, send_next-IsStuck, stop-panics,
}

-- A hub for two clients, with one.
abbrev one_client : Hub
one_client = register 0 (serve_ws (new_hub_with_limit 2))

one_client-Reach : Reach (new_hub_with_limit 2) one_client
unfolding new_hub_with_limit serve_ws
one_client-Reach = later (later here (Step.serving refl)) (Step.registering 0 refl refl refl)

one_client-calm : one_client.panic ≡ none
unfolding new_hub_with_limit serve_ws register
one_client-calm = refl

one_client-selecting : one_client.pc ≡ selecting
unfolding new_hub_with_limit serve_ws register
one_client-selecting = refl

Reach-IsSound_example : IsSound (stop one_client)
Reach-IsSound_example = Reach-IsSound 2 (later one_client-Reach (Step.stopping one_client-calm))

one_client-IsSound : IsSound one_client
one_client-IsSound = Reach-IsSound 2 one_client-Reach

one_client-HasRoom : HasRoom one_client one_client.clients
unfolding new_hub_with_limit serve_ws register
one_client-HasRoom c m = ground arith

broadcast-delivers_example :
    (let i = send_steps (suc (length one_client.clients)) (broadcast "sync" one_client) in
      Step one_client (broadcast "sync" one_client)
      × (i.panic ≡ none)
      × (i.pc ≡ selecting)
      × (i.clients ≡ one_client.clients)
      × ((c : ℕ)
          → i.channels c ≡ (
              if member c one_client.clients
              then push "sync" (one_client.channels c)
              else one_client.channels c)))
broadcast-delivers_example =
    broadcast-delivers "sync" one_client one_client-IsSound one_client-calm one_client-selecting
      one_client-HasRoom

many : ℕ → List String
many zero = []
many (suc n) = "old" ∷ many n

length-many : (n : ℕ) → length (many n) ≡ n
unfolding many
length-many zero = refl
length-many (suc n) = omega (arith, length-many n)

-- The channel of the one client is full, and `Run` is at it.
abbrev jammed : Hub
jammed = record {
  clients = 0 ∷ [];
  max_clients = 2;
  closed = false;
  pc = sending (0 ∷ []) "new";
  channels = λ _. record { buffer = many send_capacity; closed = false };
  waiting = [];
  next = 1;
  panic = none;
}

jammed-IsSound : IsSound jammed
jammed-IsSound = record {
  few = omega arith;
  distinct = (refl, tt);
  live = λ c m. refl;
  fresh = λ c m. refl;
  apart = λ c m. cc;
  known = λ c m. ground arith;
  asked = λ c m. cc;
  stopped = λ e. cc;
  bounded = λ c. omega (arith, length-many send_capacity);
  calm = λ e. cc;
}

jammed-is_full : is_full (jammed.channels 0) ≡ true
jammed-is_full = rw (length-many send_capacity) refl

send_next-IsStuck_example : IsStuck 0 jammed (send_next jammed)
send_next-IsStuck_example =
    send_next-IsStuck 0 [] "new" jammed jammed-IsSound refl refl refl jammed-is_full here

-- `Run` has copied the clients of a broadcast.
abbrev copied : Hub
copied = broadcast "sync" one_client

copied-IsSound : IsSound copied
copied-IsSound =
    Reach-IsSound 2
      (later one_client-Reach (Step.broadcasting "sync" one_client-calm one_client-selecting))

copied-sending : copied.pc ≡ sending (0 ∷ []) "sync"
unfolding new_hub_with_limit serve_ws register broadcast
copied-sending = refl

copied-open : copied.closed ≡ false
unfolding new_hub_with_limit serve_ws register broadcast
copied-open = refl

copied-member : member 0 copied.clients ≡ true
unfolding new_hub_with_limit serve_ws register broadcast
copied-member = refl

stop-panics_example : (send_next (stop copied)).panic ≡ some send_on_closed
stop-panics_example =
    stop-panics 0 [] "sync" copied copied-IsSound copied-sending copied-open copied-member

-- ===== src/Dashboard/Hub.antt =====
-- internal/dashboard/websocket.go: the hub. `Hub.Run` is one goroutine; requests, the two pumps of
-- each client and `Stop` are others. Each function below is what runs under one hold of the lock, or
-- one operation on a channel, and `Step` lets them interleave freely. A client stands for its
-- pointer, and its connection is left out.
pub mod Safety
pub mod Channels
pub mod Delivery
use one_dev_army.Common.{
  ℕ, zero, suc, ◌+◌, ◌≡◌, ◌==◌, Bool, true, false, not, ◌||◌, Option, none, some, List, [], ◌∷◌,
  ◌++◌, String, if◌then◌else◌, leb, length, any, select,
}

abbrev pub default_connection_limit : ℕ
default_connection_limit = 100

-- `make(chan []byte, 256)`
abbrev pub send_capacity : ℕ
send_capacity = 256

pub record Channel : Type 0 where
  pub buffer : List String
  pub closed : Bool

-- The two ways in which an operation on a channel panics.
pub data Panic : Type 0 where
  close_of_closed send_on_closed : Panic

-- Where `Run` stands: in its `select`, at a client of a broadcast, or in its own send on the channel
-- `unregister`, from which only `Run` receives.
pub data Pc : Type 0 where
  selecting : Pc
  sending : List ℕ → String → Pc
  unregistering : ℕ → Pc

-- `waiting` are the clients that stand in `client.hub.register <- client`, and `next` the first
-- client that is not made yet.
pub record Hub : Type 0 where
  pub clients : List ℕ
  pub max_clients : ℕ
  pub closed : Bool
  pub pc : Pc
  pub channels : ℕ → Channel
  pub waiting : List ℕ
  pub next : ℕ
  pub panic : Option Panic

abbrev pub member : ℕ → List ℕ → Bool
member c = any (◌==◌ c)

abbrev pub without : ℕ → List ℕ → List ℕ
without c = select (λ d. not (c == d))

abbrev pub set_channel : ℕ → Channel → Hub → Hub
set_channel c ch h = record h { channels = λ d. if c == d then ch else h.channels d }

abbrev pub new_channel : Channel
new_channel = record { buffer = []; closed = false }

-- `NewHubWithLimit`; a limit that is not positive is 0 here.
unfoldable pub new_hub_with_limit : ℕ → Hub
new_hub_with_limit limit = record {
  clients = [];
  max_clients = if limit == 0 then default_connection_limit else limit;
  closed = false;
  pc = selecting;
  channels = λ _. new_channel;
  waiting = [];
  next = 0;
  panic = none;
}

-- `close(client.send)`
unfoldable pub close_send : ℕ → Hub → Hub
close_send c h =
    if (h.channels c).closed
    then record h { panic = some close_of_closed }
    else set_channel c (record (h.channels c) { closed = true }) h

abbrev pub is_full : Channel → Bool
is_full ch = leb send_capacity (length ch.buffer)

abbrev pub push : String → Channel → Channel
push m ch = record ch { buffer = ch.buffer ++ m ∷ [] }

-- `ServeWs` up to its send on `register`.
unfoldable pub serve_ws : Hub → Hub
serve_ws h = record (set_channel h.next new_channel h) {
  waiting = h.next ∷ h.waiting;
  next = h.next + 1;
}

-- The case `client := <-h.register` of `Run`.
unfoldable pub register : ℕ → Hub → Hub
unfolding close_send
register c h =
    let h1 = record h { waiting = without c h.waiting } in
    if h.closed || leb h.max_clients (length h.clients)
    then close_send c h1
    else record h1 { clients = c ∷ h.clients }

-- The case `client := <-h.unregister`.
unfoldable pub unregister : ℕ → Hub → Hub
unfolding close_send
unregister c h =
    if member c h.clients then close_send c (record h { clients = without c h.clients }) else h

-- The case `message := <-h.broadcast`, up to the copy of the clients.
unfoldable pub broadcast : String → Hub → Hub
broadcast m h = record h { pc = sending h.clients m }

-- One client of the loop of a broadcast, and the end of the loop.
abbrev pub send_at : Pc → Hub → Hub
send_at (sending [] m) h = record h { pc = selecting }
send_at (sending (c ∷ cs) m) h =
    if (h.channels c).closed
    then record h { panic = some send_on_closed }
    else (if is_full (h.channels c)
        then record h { pc = unregistering c }
        else set_channel c (push m (h.channels c)) (record h { pc = sending cs m }))
send_at selecting h = h
send_at (unregistering c) h = h

unfoldable pub send_next : Hub → Hub
send_next h = send_at h.pc h

-- What the next `steps` actions of `Run` make of the hub, where it is within a broadcast and nothing
-- comes between them.
unfoldable pub send_steps : ℕ → Hub → Hub
send_steps zero h = h
send_steps (suc steps) h = send_steps steps (send_next h)

-- A client's answer to a ping, in `readPump`.
unfoldable pub pong : ℕ → String → Hub → Hub
pong c m h =
    if (h.channels c).closed
    then record h { panic = some send_on_closed }
    else (if is_full (h.channels c) then h else set_channel c (push m (h.channels c)) h)

abbrev pub drop_first : List String → List String
drop_first [] = []
drop_first (m ∷ ms) = ms

-- `writePump` takes a message.
unfoldable pub receive : ℕ → Hub → Hub
receive c h = set_channel c (record (h.channels c) { buffer = drop_first (h.channels c).buffer }) h

abbrev pub close_all : List ℕ → Hub → Hub
close_all [] h = h
close_all (c ∷ cs) h = close_all cs (close_send c h)

-- `Hub.Stop`
unfoldable pub stop : Hub → Hub
unfolding close_send
stop h = if h.closed then h else close_all h.clients (record h { closed = true; clients = [] })

-- What the goroutines can do next; a panic ends the program. A broadcast finds `Run` in its `select`
-- or is dropped.
pub data Step (h : Hub) : Hub → Type 0 where
  serving : h.panic ≡ none → Step h (serve_ws h)
  registering :
      (c : ℕ)
      → h.panic ≡ none
      → h.pc ≡ selecting
      → member c h.waiting ≡ true
      → Step h (register c h)
  leaving : (c : ℕ) → h.panic ≡ none → h.pc ≡ selecting → Step h (unregister c h)
  broadcasting : (m : String) → h.panic ≡ none → h.pc ≡ selecting → Step h (broadcast m h)
  delivering : h.panic ≡ none → Step h (send_next h)
  answering : (c : ℕ) (m : String) → h.panic ≡ none → Step h (pong c m h)
  receiving : (c : ℕ) → h.panic ≡ none → Step h (receive c h)
  stopping : h.panic ≡ none → Step h (stop h)

pub data Reach (h : Hub) : Hub → Type 0 where
  here : Reach h h
  later : {i j : Hub} → Reach h i → Step i j → Reach h j

-- ===== src/Dashboard/Hub/Safety.antt =====
-- What holds of the hub in every state that its goroutines can reach.
use one_dev_army.Common.{
  ℕ, ◌≤◌, ◌<◌, ◌≡◌, ◌≢◌, refl, true, false, some, List, [], ◌∷◌, String, length, arith,
  length-append, if-split,
}
use one_dev_army.Dashboard.Hub.{
  Hub, Pc, Step, Reach, here, later, send_capacity, member, new_hub_with_limit, serve_ws, register,
  unregister, broadcast, send_next, send_at, pong, receive, stop, close_send, close_of_closed,
  close_all, drop_first, sending, selecting, unregistering,
}
use one_dev_army.Dashboard.Hub.Channels.{
  Distinct, Live, member-without, length-without, Distinct-without, close_all_lem,
  channels-close_all,
}

pub record IsSound (h : Hub) : Type 0 where
  pub few : length h.clients ≤ h.max_clients
  pub distinct : Distinct h.clients
  pub live : Live h h.clients
  pub fresh : Live h h.waiting
  pub apart : (c : ℕ) → member c h.waiting ≡ true → member c h.clients ≡ false
  pub known : (c : ℕ) → member c h.clients ≡ true → c < h.next
  pub asked : (c : ℕ) → member c h.waiting ≡ true → c < h.next
  pub stopped : h.closed ≡ true → h.clients ≡ []
  pub bounded : (c : ℕ) → length (h.channels c).buffer ≤ send_capacity
  pub calm : h.panic ≢ some close_of_closed

length-drop_first : (ms : List String) → length (drop_first ms) ≤ length ms
length-drop_first [] = omega arith
length-drop_first (m ∷ ms) = omega arith

new_hub_with_limit-IsSound : (limit : ℕ) → IsSound (new_hub_with_limit limit)
unfolding new_hub_with_limit
new_hub_with_limit-IsSound limit = record {
  few = ground arith;
  distinct = tt;
  live = λ c m. cc;
  fresh = λ c m. cc;
  apart = λ c m. cc;
  known = λ c m. cc;
  asked = λ c m. cc;
  stopped = λ e. refl;
  bounded = λ c. omega arith;
  calm = λ e. cc;
}

module _ (h : Hub) (v : IsSound h) where
  open v use {few, distinct, live, fresh, apart, known, asked, stopped, bounded, calm}

  serve_ws-IsSound : IsSound (serve_ws h)
  unfolding serve_ws
  serve_ws-IsSound = record {
    few = few;
    distinct = distinct;
    live = λ c m. ground (arith, live c, known c);
    fresh = λ c m. ground (arith, fresh c, asked c);
    apart = λ c m. ground (arith, apart c, known c);
    known = λ c m. ground (arith, known c);
    asked = λ c m. ground (arith, asked c);
    stopped = stopped;
    bounded = λ c. ground (arith, bounded c);
    calm = calm;
  }

  register-IsSound : (c : ℕ) → member c h.waiting ≡ true → IsSound (register c h)
  unfolding register close_send
  register-IsSound c w = record {
    few = ground arith;
    distinct = ground (arith, apart c);
    live = λ d m. ground (arith, live d, fresh d, apart d, fresh c, apart c);
    fresh = λ d m. ground (arith, fresh d, fresh c, member-without d c h.waiting);
    apart = λ d m. ground (arith, apart d, fresh c, member-without d c h.waiting);
    known = λ d m. ground (arith, known d, asked d, fresh c);
    asked = λ d m. ground (arith, asked d, fresh c, member-without d c h.waiting);
    stopped = λ e. ground (arith, stopped);
    bounded = λ d. ground (arith, bounded d, bounded c);
    calm = λ e. ground (arith, calm, fresh c);
  }

  unregister-IsSound : (c : ℕ) → IsSound (unregister c h)
  unfolding unregister close_send
  unregister-IsSound c = record {
    few = ground (arith, length-without c h.clients);
    distinct = ground (arith, Distinct-without c h.clients);
    live = λ d m. ground (arith, live d, member-without d c h.clients);
    fresh = λ d m. ground (arith, fresh d, apart d, live c);
    apart = λ d m. ground (arith, apart d, live c, member-without d c h.clients);
    known = λ d m. ground (arith, known d, live c, member-without d c h.clients);
    asked = λ d m. ground (arith, asked d, live c);
    stopped = λ e. ground (arith, stopped, live c);
    bounded = λ d. ground (arith, bounded d, bounded c);
    calm = λ e. ground (arith, calm, live c);
  }

  pong-IsSound : (c : ℕ) (m : String) → IsSound (pong c m h)
  unfolding pong
  pong-IsSound c s = record {
    few = ground arith;
    distinct = ground arith;
    live = λ d m. ground (arith, live d);
    fresh = λ d m. ground (arith, fresh d);
    apart = λ d m. ground (arith, apart d);
    known = λ d m. ground (arith, known d);
    asked = λ d m. ground (arith, asked d);
    stopped = λ e. ground (arith, stopped);
    bounded = λ d. ground (arith, bounded d, length-append (h.channels c).buffer (s ∷ []));
    calm = λ e. ground (arith, calm);
  }

  receive-IsSound : (c : ℕ) → IsSound (receive c h)
  unfolding receive
  receive-IsSound c = record {
    few = few;
    distinct = distinct;
    live = λ d m. ground (arith, live d);
    fresh = λ d m. ground (arith, fresh d);
    apart = apart;
    known = known;
    asked = asked;
    stopped = stopped;
    bounded = λ d. ground (arith, bounded d, length-drop_first (h.channels c).buffer);
    calm = calm;
  }

  stop-IsSound : IsSound (stop h)
  unfolding stop
  stop-IsSound = if-split IsSound h.closed (λ e. v) (λ e. closed_all)
    where
      emptied : Hub
      emptied = record h { closed = true; clients = [] }

      shape :
          close_all h.clients emptied
          ≡ record emptied { channels = (close_all h.clients emptied).channels }
      shape = close_all_lem h.clients emptied distinct live

      buffers : (c : ℕ) → length ((close_all h.clients emptied).channels c).buffer ≤ send_capacity
      buffers c = ground (arith, channels-close_all h.clients emptied distinct live c, bounded c)

      kept : Live (close_all h.clients emptied) h.waiting
      kept c m =
          ground (arith, channels-close_all h.clients emptied distinct live c, fresh c, apart c)

      closed_all : IsSound (close_all h.clients emptied)
      closed_all = rw shape (record {
        few = omega arith;
        distinct = tt;
        live = λ c m. cc;
        fresh = kept;
        apart = λ c m. refl;
        known = λ c m. cc;
        asked = asked;
        stopped = λ e. refl;
        bounded = buffers;
        calm = calm;
      })

module _ (h : Hub) (v : IsSound h) where
  open v use {few, distinct, live, fresh, apart, known, asked, stopped, bounded, calm}

  -- A change of where `Run` stands alone.
  at-IsSound : (p : Pc) → IsSound (record h { pc = p })
  at-IsSound p = record {
    few = few;
    distinct = distinct;
    live = live;
    fresh = fresh;
    apart = apart;
    known = known;
    asked = asked;
    stopped = stopped;
    bounded = bounded;
    calm = calm;
  }

  send-IsSound : (p : Pc) → IsSound (send_at p h)
  send-IsSound (sending [] m) = at-IsSound selecting
  send-IsSound (sending (c ∷ cs) m) = record {
    few = ground arith;
    distinct = ground arith;
    live = λ d k. ground (arith, live d);
    fresh = λ d k. ground (arith, fresh d);
    apart = λ d k. ground (arith, apart d);
    known = λ d k. ground (arith, known d);
    asked = λ d k. ground (arith, asked d);
    stopped = λ e. ground (arith, stopped);
    bounded = λ d. ground (arith, bounded d, length-append (h.channels c).buffer (m ∷ []));
    calm = λ e. ground (arith, calm);
  }
  send-IsSound selecting = v
  send-IsSound (unregistering c) = v

pub Step-IsSound : {h i : Hub} → Step h i → IsSound h → IsSound i
unfolding broadcast send_next
Step-IsSound {h} (Step.serving p) v = serve_ws-IsSound h v
Step-IsSound {h} (Step.registering c p q w) v = register-IsSound h v c w
Step-IsSound {h} (Step.leaving c p q) v = unregister-IsSound h v c
Step-IsSound {h} (Step.broadcasting m p q) v = at-IsSound h v (sending h.clients m)
Step-IsSound {h} (Step.delivering p) v = send-IsSound h v h.pc
Step-IsSound {h} (Step.answering c m p) v = pong-IsSound h v c m
Step-IsSound {h} (Step.receiving c p) v = receive-IsSound h v c
Step-IsSound {h} (Step.stopping p) v = stop-IsSound h v

-- In every state that a new hub reaches, whatever the order of the goroutines: there are at most as
-- many clients as the limit, their channels are open and hold at most 256 messages, a hub that was
-- stopped has no client, and no channel was closed a second time.
pub Reach-IsSound : (limit : ℕ) {h : Hub} → Reach (new_hub_with_limit limit) h → IsSound h
Reach-IsSound limit here = new_hub_with_limit-IsSound limit
Reach-IsSound limit (later r s) = Step-IsSound s (Reach-IsSound limit r)

-- ===== src/Dashboard/Hub/Channels.antt =====
-- The clients of the hub as sets, and the channels that a stop closes.
use one_dev_army.Common.{
  ℕ, ◌≤◌, ◌≡◌, refl, sym, subst, ◌==◌, true, false, not, ◌&&◌, List, [], ◌∷◌, if◌then◌else◌, length,
  arith,
}
use one_dev_army.Dashboard.Hub.{Hub, member, without, set_channel, close_send, close_all}

-- No client stands in the list twice.
abbrev pub Distinct : List ℕ → Type 0
Distinct [] = Unit {0}
Distinct (c ∷ cs) = (member c cs ≡ false) × Distinct cs

pub member-without :
    (d c : ℕ) (cs : List ℕ) → member d (without c cs) ≡ (not (c == d) && member d cs)
member-without d c [] = ground arith
member-without d c (x ∷ cs) = ground (arith, member-without d c cs)

pub length-without : (c : ℕ) (cs : List ℕ) → length (without c cs) ≤ length cs
length-without c [] = omega arith
length-without c (x ∷ cs) = ground (arith, length-without c cs)

pub Distinct-without : (c : ℕ) (cs : List ℕ) → Distinct cs → Distinct (without c cs)
Distinct-without c [] h = tt
Distinct-without c (x ∷ cs) h = ground (arith, Distinct-without c cs, member-without x c cs)

-- The channels of all clients in the list are open.
abbrev pub Live : Hub → List ℕ → Type 0
Live h cs = (c : ℕ) → member c cs ≡ true → (h.channels c).closed ≡ false

pub Live-close_send :
    (h : Hub) (c : ℕ) (cs : List ℕ) → Distinct (c ∷ cs) → Live h cs → Live (close_send c h) cs
unfolding close_send
Live-close_send h c cs (new, _) live d m = ground (arith, live d)

close_send_open :
    (h : Hub) (c : ℕ)
    → (h.channels c).closed ≡ false
    → close_send c h ≡ set_channel c (record (h.channels c) { closed = true }) h
unfolding close_send
close_send_open h c e = rw e

-- Closing the channels of distinct clients that are all open closes each of them once.
pub close_all_lem :
    (cs : List ℕ) (h : Hub)
    → Distinct cs
    → Live h cs
    → close_all cs h ≡ record h { channels = (close_all cs h).channels }
close_all_lem [] h d live = refl
close_all_lem (c ∷ cs) h d live =
    let h1 = set_channel c (record (h.channels c) { closed = true }) h in
    subst (λ g. close_all cs g ≡ record h { channels = (close_all cs g).channels })
      (sym (close_send_open h c (live c (ground arith))))
      (close_all_lem cs h1 d.1 (λ e m. ground (arith, live e)))

pub channels-close_all :
    (cs : List ℕ) (h : Hub)
    → Distinct cs
    → Live h cs
    → (e : ℕ)
    → (close_all cs h).channels e
      ≡ (if member e cs then record (h.channels e) { closed = true } else h.channels e)
channels-close_all [] h d live e = refl
channels-close_all (c ∷ cs) h d live e =
    let h1 = set_channel c (record (h.channels c) { closed = true }) h in
    subst
      (λ g.
        (close_all cs g).channels e
        ≡ (if member e (c ∷ cs) then record (h.channels e) { closed = true } else h.channels e))
      (sym (close_send_open h c (live c (ground arith))))
      (ground (arith, channels-close_all cs h1 d.1 (λ b m. ground (arith, live b)) e))

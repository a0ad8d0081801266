-- ===== src/Mvp/ChatHistory/Window.antt =====
-- The history is a window on the messages that were added.
use one_dev_army.Common.{
  ℕ, zero, suc, ◌-◌, ◌≤◌, ◌<◌, ◌≡◌, refl, sym, ap, ◌∙◌, List, [], ◌∷◌, ◌++◌, if◌then◌else◌, leb,
  length, length-append, arith, if-split,
}
use mathlib.Core.List.{append-nil, append_assoc}
use one_dev_army.Mvp.ChatHistory.{
  ChatMessage, ChatHistory, capacity, new_chat_history, behind_first, add_message, get_messages,
  len,
}

-- The list without its first elements.
abbrev pub drop : ℕ → List ChatMessage → List ChatMessage
drop zero ms = ms
drop (suc n) [] = []
drop (suc n) (m ∷ ms) = drop n ms

abbrev pub add_all : List ChatMessage → ChatHistory → ChatHistory
add_all [] ch = ch
add_all (m ∷ ms) ch = add_all ms (add_message m ch)

-- The last `n` messages of a list.
abbrev pub last : ℕ → List ChatMessage → List ChatMessage
last n ms = drop (length ms - n) ms

drop-nil : (n : ℕ) → drop n [] ≡ []
drop-nil zero = refl
drop-nil (suc n) = refl

length-drop : (n : ℕ) (ms : List ChatMessage) → length (drop n ms) ≡ length ms - n
length-drop zero ms = omega arith
length-drop (suc n) [] = omega arith
length-drop (suc n) (m ∷ ms) = omega (arith, length-drop n ms)

drop-append :
    (n : ℕ) (ms ns : List ChatMessage) → n ≤ length ms → drop n (ms ++ ns) ≡ drop n ms ++ ns
drop-append zero ms ns h = refl
drop-append (suc n) [] ns h = absurd (omega arith)
drop-append (suc n) (m ∷ ms) ns h = drop-append n ms ns (omega arith)

behind_first-drop : (n : ℕ) (ms : List ChatMessage) → behind_first (drop n ms) ≡ drop (suc n) ms
behind_first-drop zero [] = refl
behind_first-drop zero (m ∷ ms) = refl
behind_first-drop (suc n) [] = refl
behind_first-drop (suc n) (m ∷ ms) = behind_first-drop n ms

-- One more message moves the window.
last-snoc :
    (n : ℕ) (ms : List ChatMessage) (m : ChatMessage)
    → 0 < n
    → (if leb n (length (last n ms)) then behind_first (last n ms) else last n ms) ++ m ∷ []
      ≡ last n (ms ++ m ∷ [])
last-snoc n ms m h =
    let k = length ms - n in
    let grown = length-append ms (m ∷ []) in
    let kept = length-drop k ms in
    if-split (λ xs. xs ++ m ∷ [] ≡ last n (ms ++ m ∷ [])) (leb n (length (last n ms)))
      (λ full.
        let room : n ≤ length (last n ms) = ground (arith, full) in
        ap (λ xs. xs ++ m ∷ []) (behind_first-drop k ms)
        ∙ sym (drop-append (suc k) ms (m ∷ []) (omega (arith, kept, room)))
        ∙ ap (λ j. drop j (ms ++ m ∷ [])) {x = suc k} (omega (arith, kept, room, grown)))
      (λ open_end.
        let room : length (last n ms) < n = ground (arith, open_end) in
        sym (drop-append k ms (m ∷ []) (omega (arith, kept, room)))
        ∙ ap (λ j. drop j (ms ++ m ∷ [])) {x = k} (omega (arith, kept, room, grown)))

module _ (n : ℕ) (h : 0 < n) where
  add_all-window :
      (ms seen : List ChatMessage) (ch : ChatHistory)
      → ch.max_size ≡ n
      → ch.messages ≡ last n seen
      → (add_all ms ch).messages ≡ last n (seen ++ ms)
  unfolding add_message
  add_all-window [] seen ch e f = rw (append-nil seen) f
  add_all-window (m ∷ ms) seen ch e f =
      rw (← append_assoc seen (m ∷ []) ms)
        (add_all-window ms (seen ++ m ∷ []) (add_message m ch) e (rw (e, f) (last-snoc n seen m h)))

-- Whatever was added to a new history, it holds the last messages of these in their order, as many as
-- it has room for, and never more.
pub add_all-last :
    (size : ℕ) (ms : List ChatMessage)
    → (get_messages (add_all ms (new_chat_history size)) ≡ last (capacity size) ms)
      × (len (add_all ms (new_chat_history size)) ≤ capacity size)
unfolding new_chat_history get_messages len
add_all-last size ms =
    let window =
      add_all-window (capacity size) (ground arith) ms [] (new_chat_history size) refl
        (sym (drop-nil (0 - capacity size))) in
    (window, omega (arith, ap length window, length-drop (length ms - capacity size) ms))

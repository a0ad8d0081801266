-- ===== src/Mvp/ChatHistory.antt =====
-- internal/mvp/chat_history.go: the bounded list of the messages of a task. `now` is the time that
-- `time.Now` gives. A capacity below 0 is one of 0 here.
pub mod Window
use one_dev_army.Common.{
  ℕ, ◌+◌, ◌==◌, Bool, List, [], ◌∷◌, ◌++◌, String, if◌then◌else◌, ltb, leb, length, select,
}

pub record ChatMessage : Type 0 where
  pub role : String
  pub content : String
  pub timestamp : ℕ

pub record ChatHistory : Type 0 where
  pub messages : List ChatMessage
  pub max_size : ℕ

abbrev pub capacity : ℕ → ℕ
capacity max_size = if max_size == 0 then 1000 else max_size

unfoldable pub new_chat_history : ℕ → ChatHistory
new_chat_history max_size = record { messages = []; max_size = capacity max_size }

-- `messages[1:]`
abbrev pub behind_first : List ChatMessage → List ChatMessage
behind_first [] = []
behind_first (m ∷ ms) = ms

unfoldable pub add_message : ChatMessage → ChatHistory → ChatHistory
add_message msg ch = record ch {
  messages =
      (if leb ch.max_size (length ch.messages) then behind_first ch.messages else ch.messages)
      ++ msg ∷ [];
}

-- A copy of the messages.
unfoldable pub get_messages : ChatHistory → List ChatMessage
get_messages ch = ch.messages

unfoldable pub get_messages_since : ℕ → ChatHistory → List ChatMessage
get_messages_since since ch = select (λ m. ltb since m.timestamp) ch.messages

unfoldable pub clear : ChatHistory → ChatHistory
clear ch = record ch { messages = [] }

unfoldable pub len : ChatHistory → ℕ
len ch = length ch.messages

-- ===== src/Whatsapp/Incoming/Messages.antt =====
-- message-handler.service.ts: messages as they come in and as they are handed on, and the state of
-- the service.
use Prim.Native.Char.{code}
use whataapp_otp_project.Base.{
  ℕ, String, Bool, true, Option, none, some, List, ◌===◌, if◌then◌else◌, ◌==◌,
}

-- `s.endsWith(t)`
unfoldable pub ends_with : String → String → Bool
ends_with t String.[] = String.[] === t
ends_with t (String.◌∷◌ c s) =
    let rest = ends_with t s in if String.◌∷◌ c s === t then true else rest

-- What follows a prefix.
unfoldable pub strip_prefix : String → String → Option String
strip_prefix String.[] s = some s
strip_prefix (String.◌∷◌ d t) String.[] = none
strip_prefix (String.◌∷◌ d t) (String.◌∷◌ c s) =
    let rest = strip_prefix t s in if code d == code c then rest else none

-- `s.replace(t, '')`: the first occurrence goes.
unfoldable pub remove_first : String → String → String
unfolding strip_prefix
remove_first t String.[] = String.[]
remove_first t (String.◌∷◌ c s) =
    let rest = remove_first t s in
    elim (strip_prefix t (String.◌∷◌ c s)) [ some s' ↦ s' | none ↦ String.◌∷◌ c rest ]

unfoldable pub extract_sender : String → String
extract_sender from =
    remove_first "@g.us" (remove_first "@s.whatsapp.net" (remove_first "@c.us" from))

-- The library's message, in the fields that are read.
pub record Message : Type 0 where
  pub id : String
  pub from : String
  pub body : Option String
  pub kind : Option String
  pub timestamp : Option ℕ
  pub has_media : Bool
  pub from_me : Bool
  pub is_forwarded : Bool

pub record ProcessedMessage : Type 0 where
  pub id : String
  pub from : String
  pub from_full : String
  pub body : String
  pub kind : String
  pub timestamp : ℕ
  pub has_media : Bool
  pub is_group_msg : Bool
  pub is_forwarded : Bool
  pub original_message : Message

pub record MessageStats : Type 0 where
  pub total_processed : ℕ
  pub skipped_old : ℕ
  pub skipped_own : ℕ
  pub skipped_broadcast : ℕ
  pub processed_successfully : ℕ
  pub errors : ℕ
  pub last_processed_at : ℕ

pub record Unread : Type 0 where
  pub client_id : String
  pub from : String
  pub timestamp : ℕ

abbrev pub Handler : Type 0
Handler = ProcessedMessage → String → Bool

-- `handed` logs each message given to the handlers, with the account.
pub record State : Type 0 where
  pub message_handlers : List Handler
  pub unread_messages : List (String × Unread)
  pub session_start_times : List (String × ℕ)
  pub processed_message_ids : List (String × Unit {0})
  pub message_stats : MessageStats
  pub handed : List (ProcessedMessage × String)

-- The answer of the accounts' collection: the account's identifier, if there is one.
pub data Lookup : Type 0 where
  found : Option String → Lookup
  lookup_failed : Lookup

-- A message as it comes in; `done_at` is the time at which the handlers have settled.
pub record Incoming : Type 0 where
  pub message : Message
  pub client_id : String
  pub account : Lookup
  pub current_time : ℕ
  pub done_at : ℕ

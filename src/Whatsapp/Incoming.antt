-- ===== src/Whatsapp/Incoming.antt =====
-- src/modules/whatsapp/services/message-handler.service.ts: incoming messages, each handed to the
-- registered handlers at most once. The clock and the answer of the accounts' collection come with
-- a message; a handler is a function that says whether its promise is fulfilled. The log is left
-- out, and so are the figures that are only read.
pub mod Once
pub mod Reasons
pub mod Upkeep
mod Tests
mod Messages
unfoldable pub use Messages.*
use Prim.Native.Char.{Char, code}
use Prim.Native.String
use whataapp_otp_project.Base.{
  ℕ, zero, suc, ◌+◌, ◌-◌, ◌*◌, String, Bool, true, false, not, Option, none, some, List, [], ◌∷◌,
  ◌++◌, ◌===◌, if◌then◌else◌, ltb, ◌==◌, count, length, is_some,
}
use whataapp_otp_project.Base.JsMap

unfoldable pub new_service : ℕ → State
new_service now = record {
  message_handlers = [];
  unread_messages = [];
  session_start_times = [];
  processed_message_ids = [];
  message_stats = record {
    total_processed = 0;
    skipped_old = 0;
    skipped_own = 0;
    skipped_broadcast = 0;
    processed_successfully = 0;
    errors = 0;
    last_processed_at = now;
  };
  handed = [];
}

unfoldable pub register_message_handler : Handler → State → State
register_message_handler h s = record s { message_handlers = s.message_handlers ++ h ∷ [] }

unfoldable pub mark_session_start : String → ℕ → State → State
mark_session_start id now s = record s {
  session_start_times = JsMap.set id now s.session_start_times;
}

-- The differences of times are written as sums on the other side.
unfoldable pub is_old_message : ℕ → ℕ → Option ℕ → Bool
is_old_message zero current start = false
is_old_message (suc t) current none = ltb (suc t + 30000) current
is_old_message (suc t) current (some zero) = ltb (suc t + 30000) current
is_old_message (suc t) current (some (suc start)) = ltb (suc t + 5000) (suc start)

abbrev or_empty {ℓ} : {A : Type ℓ} → A → Option A → A
or_empty a none = a
or_empty a (some b) = b

-- `message.type || 'unknown'`
abbrev or_kind : Option String → String
or_kind none = "unknown"
or_kind (some k) = if k === "" then "unknown" else k

abbrev pub message_time : Message → ℕ
message_time m = or_empty 0 m.timestamp * 1000

unfoldable pub clean_message : Incoming → ProcessedMessage
clean_message i = record {
  id = i.message.id;
  from = extract_sender i.message.from;
  from_full = i.message.from;
  body = or_empty "" i.message.body;
  kind = or_kind i.message.kind;
  timestamp = if message_time i.message == 0 then i.current_time else message_time i.message;
  has_media = i.message.has_media;
  is_group_msg = false;
  is_forwarded = i.message.is_forwarded;
  original_message = i.message;
}

-- All the handlers run, whatever the others come to.
unfoldable pub call_handlers : ProcessedMessage → String → ℕ → State → State
call_handlers p account done s =
    let successful = count (λ (h : Handler). h p account) s.message_handlers in
    let failed = count (λ (h : Handler). not (h p account)) s.message_handlers in
    let stats = s.message_stats in
    record s {
      handed = s.handed ++ (p, account) ∷ [];
      message_stats = record stats {
        processed_successfully =
            if ltb 0 successful
            then stats.processed_successfully + 1
            else stats.processed_successfully;
        errors = if ltb 0 failed then stats.errors + 1 else stats.errors;
        last_processed_at = done;
      };
    }

-- What follows once the account is known.
unfoldable pub deliver : Incoming → String → State → State
deliver i account s =
    let s1 = record s {
      unread_messages =
          JsMap.set i.message.id
            (record {
              client_id = i.client_id;
              from = extract_sender i.message.from;
              timestamp = i.current_time;
            })
            s.unread_messages;
    } in
    if length s.message_handlers == 0
    then s1
    else call_handlers (clean_message i) account i.done_at s1

unfoldable pub find_account : Incoming → Lookup → State → State
find_account i lookup_failed s = record s {
  message_stats = record (s.message_stats) { errors = s.message_stats.errors + 1 };
}
find_account i (found none) s = s
find_account i (found (some account)) s = deliver i account s

-- The filters, in the order of the code.
unfoldable pub filter_message : Incoming → State → State
filter_message i s =
    let stats = s.message_stats in
    if ends_with "@broadcast" i.message.from
    then record s {
      message_stats = record stats { skipped_broadcast = stats.skipped_broadcast + 1 };
    }
    else if i.message.from_me
    then record s { message_stats = record stats { skipped_own = stats.skipped_own + 1 } }
    else if is_old_message (message_time i.message) i.current_time
        (JsMap.get i.client_id s.session_start_times)
    then record s { message_stats = record stats { skipped_old = stats.skipped_old + 1 } }
    else find_account i i.account s

unfoldable pub handle_incoming_message : Incoming → State → State
handle_incoming_message i s =
    let stats = s.message_stats in
    let s1 = record s {
      message_stats = record stats { total_processed = stats.total_processed + 1 };
    } in
    if is_some (JsMap.get i.message.id s.processed_message_ids)
    then s1
    else filter_message i
        (record s1 { processed_message_ids = JsMap.set i.message.id tt s1.processed_message_ids })

-- `Array.from(ids).slice(0, n)`, and the loop that deletes each of these.
unfoldable pub delete_first :
    ℕ → List (String × Unit {0}) → List (String × Unit {0}) → List (String × Unit {0})
delete_first zero ids m = m
delete_first (suc n) [] m = m
delete_first (suc n) ((id, _) ∷ ids) m = delete_first n ids (JsMap.delete id m)

abbrev pub max_size : ℕ
max_size = 10000

abbrev pub one_day : ℕ
one_day = 86400000

unfoldable pub cleanup_old_message_ids : ℕ → State → State
cleanup_old_message_ids now s = record s {
  processed_message_ids =
      (let ids = s.processed_message_ids in
        if ltb max_size (length ids) then delete_first (length ids - max_size) ids ids else ids);
  unread_messages = JsMap.retain (λ id u. not (ltb (u.timestamp + one_day) now)) s.unread_messages;
}

unfoldable pub clear_unread_message : String → State → State
clear_unread_message id s = record s { unread_messages = JsMap.delete id s.unread_messages }

unfoldable pub reset_client_stats : String → State → State
reset_client_stats id s = record s {
  session_start_times = JsMap.delete id s.session_start_times;
  unread_messages = JsMap.retain (λ m u. not (u.client_id === id)) s.unread_messages;
}

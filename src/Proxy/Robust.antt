-- ===== src/Proxy/Robust.antt =====
-- lib/proxy/robust-sockjs.js: sessions that survive the loss of their SockJS connection.
-- The message buffer and the message receiver are those of the package shiny-server-client, a
-- parameter. A connection is a number; `ready` says whether its `readyState` is 1.
pub mod Laws
pub mod Resume
pub mod Calls
pub mod Timers
mod Tests
use shiny_server.Prelude.{
  ℕ, zero, suc, ◌+◌, Bool, true, false, not, List, [], ◌∷◌, ◌++◌, Option, none, some, str_eq,
  if◌then◌else◌, Text, String, string_eq,
}
use shiny_server.Prelude.Dict.{lookup, insert, remove}
use shiny_server.Proxy.ErrorCode.{Code, bad_identifier, bad_protocol, retired}

-- What `handleACK` answers, with the buffer behind it: -1 for another kind of message.
pub data Ack (B : Type 0) : Type 0 where
  no_ack : Ack B
  discarded : B → Ack B
  ack_throws : B → Ack B

-- The classes and functions of shiny-server-client; each call that may throw says so.
pub record ClientLib : Type 1 where
  pub Buffer : Type 0
  pub Receiver : Type 0
  pub new_buffer : Buffer
  pub new_receiver : Receiver
  pub write : Text → Buffer → Buffer × Text
  pub handle_ack : Text → Buffer → Ack Buffer
  pub discard : ℕ → Buffer → Option Buffer
  pub messages_from : ℕ → Buffer → Option (List Text)
  pub parse_continue : Text → Option ℕ
  pub receive : Text → Receiver → Option (Receiver × Text)
  pub continue_text : Receiver → Text
  pub ack_text : Receiver → Text

-- The withheld events of a connection, and the others that it emits.
pub data Ending : Type 0 where
  end_event close_event : Ending

pub data Out : Type 0 where
  write_conn : ℕ → Text → Out
  close_conn : ℕ → Code → Out
  emit_data : String → Text → Out
  emit_ending : String → Ending → Out
  set_timer : String → Out
  clear_timer : String → Out
  exception : Out

-- What `robustify` returns: the connection as it is, nothing, or the robust connection.
pub data Answer : Type 0 where
  unchanged : ℕ → Answer
  handled : Answer
  robust : String → Answer

module _ (lib : ClientLib) where
  open lib use {
    Buffer, Receiver, new_buffer, new_receiver, handle_ack, discard, messages_from, parse_continue,
    receive, continue_text, ack_text,
  }

  pub record RobustConn : Type 0 where
    pub conn : ℕ
    pub nascent : Bool
    pub buffer : Buffer
    pub receiver : Receiver
    pub expect_continue : Bool
    pub timer : Bool
    pub withheld : List Ending

  abbrev pub Connections : Type 0
  Connections = List (String × RobustConn)

  -- `getInfo`, on the path parameters `n` and `o`; an empty one counts as none.
  unfoldable pub get_info : Option String → Option String → Option (String × Bool)
  get_info (some n) o =
      if str_eq n ""
      then (elim o [ none ↦ none | some b ↦ if str_eq b "" then none else some (b, true) ])
      else some (n, false)
  get_info none none = none
  get_info none (some o) = if str_eq o "" then none else some (o, true)

  unfoldable pub writes : ℕ → List Text → List Out
  writes c [] = []
  writes c (m ∷ ms) = write_conn c m ∷ writes c ms

  -- `set` of a connection that already has one. An exception leaves the old connection in place.
  unfoldable pub set : String → ℕ → Bool → RobustConn → RobustConn × List Out
  unfolding writes
  set id c resume r =
      let retire = close_conn r.conn retired ∷ clear_timer id ∷ [] in
      let old = record r { timer = false; withheld = [] } in
      let s = record old { conn = c } in
      if resume
      then (
        record s { expect_continue = true },
        retire ++ (write_conn c (continue_text r.receiver) ∷ []),
      )
      else if r.nascent
      then elim (messages_from 0 r.buffer) [
        | none ↦ (old, retire ++ (exception ∷ []))
        | some ms ↦ (s, retire ++ writes c ms)
      ]
      else (old, retire ++ (exception ∷ []))

  -- The constructor of `RobustConn`, which ends in a first `set`.
  unfoldable pub create : ℕ → RobustConn
  create c = record {
    conn = c;
    nascent = true;
    buffer = new_buffer;
    receiver = new_receiver;
    expect_continue = false;
    timer = false;
    withheld = [];
  }

  -- `robustify` of the connection `c` with a robust id, by what the table holds for the id.
  unfoldable pub answer :
      String → Bool → ℕ → Connections → Option RobustConn → Connections × Answer × List Out
  answer id true c t (some r) = let (s, es) = set id c true r in (insert id s t, handled, es)
  answer id false c t (some r) =
      if r.nascent
      then (let (s, es) = set id c false r in (insert id s t, handled, es))
      else (t, handled, close_conn c bad_identifier ∷ [])
  answer id true c t none = (t, handled, close_conn c bad_identifier ∷ [])
  answer id false c t none = (insert id (create c) t, robust id, [])

  unfoldable pub robustify_info :
      Option (String × Bool) → ℕ → Connections → Connections × Answer × List Out
  unfolding answer
  robustify_info none c t = (t, unchanged c, [])
  robustify_info (some (id, existing)) c t =
      if str_eq id "none" then (t, unchanged c, []) else answer id existing c t (lookup id t)

  unfoldable pub robustify :
      Option String → Option String → ℕ → Connections → Connections × Answer × List Out
  unfolding robustify_info
  robustify n o c t = robustify_info (get_info n o) c t

  unfoldable pub protocol_error : RobustConn → RobustConn × List Out
  protocol_error r = (r, close_conn r.conn bad_protocol ∷ [])

  -- CONTINUE has been received: what the client has is discarded, the rest is sent.
  unfoldable pub continues : ℕ → RobustConn → RobustConn × List Out
  unfolding writes protocol_error
  continues i r = elim (discard i r.buffer) [
    | none ↦ protocol_error (record r { expect_continue = false })
    | some b ↦
        let s = record r { expect_continue = false; buffer = b } in
        elim (messages_from i b) [ none ↦ protocol_error s | some ms ↦ (s, writes r.conn ms) ]
  ]

  unfoldable pub receives : String → Text → RobustConn → RobustConn × List Out
  unfolding protocol_error
  receives id msg r = elim (receive msg r.receiver) [
    | none ↦ protocol_error r
    | some (v, payload) ↦ (record r { receiver = v }, emit_data id payload ∷ [])
  ]

  -- The `data` event of the underlying connection.
  unfoldable pub on_data : String → Text → RobustConn → RobustConn × List Out
  unfolding continues receives protocol_error
  on_data id msg r =
      let m = record r { nascent = false } in
      elim (handle_ack msg r.buffer) [
        | discarded b ↦ (record m { buffer = b }, [])
        | ack_throws b ↦ protocol_error (record m { buffer = b })
        | no_ack ↦
            if r.expect_continue
            then (elim (parse_continue msg) [ none ↦ protocol_error m | some i ↦ continues i m ])
            else receives id msg m
      ]

  -- Its `end` and `close` events are withheld.
  unfoldable pub on_ending : String → Ending → RobustConn → RobustConn × List Out
  on_ending id e r =
      let s = record r { withheld = r.withheld ++ (e ∷ []); timer = true } in
      (s, if r.timer then [] else set_timer id ∷ [])

  -- The events are popped from the end of the array.
  unfoldable pub emit_all : String → List Ending → List Out
  emit_all id [] = []
  emit_all id (e ∷ es) = emit_all id es ++ (emit_ending id e ∷ [])

  -- The timer of the withheld events: the session is over.
  unfoldable pub on_timeout : String → Connections → Connections × List Out
  unfolding emit_all
  on_timeout id t = elim (lookup id t) [
    | none ↦ (t, [])
    | some r ↦ (remove id t, emit_all id r.withheld)
  ]

  -- `write` of the robust connection, which the application calls.
  unfoldable pub write : Bool → Text → RobustConn → RobustConn × List Out
  write ready msg r =
      let (b, tagged) = lib.write msg r.buffer in
      let s = record r { buffer = b } in
      (s, if r.expect_continue then [] else (if ready then write_conn r.conn tagged ∷ [] else []))

  -- `onacktimeout` of the receiver.
  unfoldable pub on_ack_timeout : Bool → RobustConn → List Out
  on_ack_timeout ready r = if ready then write_conn r.conn (ack_text r.receiver) ∷ [] else []

  -- `close` of the robust connection.
  unfoldable pub close : Code → RobustConn → List Out
  close code r = close_conn r.conn code ∷ []

  -- What happens to the table: a connection arrives, an event of the connection of a session, the
  -- end of a wait, a message of the application, or the end of the receiver's wait for an ACK.
  pub data Event : Type 0 where
    arrives : Option String → Option String → ℕ → Event
    gets : String → Text → Event
    loses : String → Ending → Event
    times_out : String → Event
    sends : String → Bool → Text → Event
    acks : String → Bool → Event

  unfoldable pub at_session :
      String → (RobustConn → RobustConn × List Out) → Connections → Connections × List Out
  at_session id f t = elim (lookup id t) [
    | none ↦ (t, [])
    | some r ↦ (let (s, es) = f r in (insert id s t, es))
  ]

  unfoldable pub step : Event → Connections → Connections × List Out
  step (arrives n o c) t = let (u, a, es) = robustify n o c t in (u, es)
  step (gets id msg) t = at_session id (on_data id msg) t
  step (loses id e) t = at_session id (on_ending id e) t
  step (times_out id) t = on_timeout id t
  step (sends id ready msg) t = at_session id (write ready msg) t
  step (acks id ready) t = at_session id (λ r. (r, on_ack_timeout ready r)) t

  unfoldable pub run : List Event → Connections → Connections
  unfolding step
  run [] t = t
  run (e ∷ es) t = run es (step e t).0

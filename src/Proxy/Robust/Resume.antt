-- ===== src/Proxy/Robust/Resume.antt =====
-- The resumption of a session on a new connection.
use shiny_server.Prelude.{
  ℕ, ◌≡◌, refl, Bool, true, false, List, [], ◌∷◌, ◌++◌, Option, none, some, Text, arith, String, ap,
  ◌∙◌, ◌>>=◌,
}
use shiny_server.Proxy.ErrorCode.{bad_protocol, retired}
use shiny_server.Proxy.Robust.{
  Ack, no_ack, discarded, ack_throws, on_ack_timeout, ClientLib, Out, write_conn, close_conn,
  clear_timer, RobustConn, writes, set, on_data, write,
}

-- What may happen to a session that waits for CONTINUE: the application writes, the receiver's wait
-- for an ACK ends, or the client acknowledges messages.
pub data Meanwhile : Type 0 where
  wrote : Bool → Text → Meanwhile
  acked : Bool → Meanwhile
  client_acked : Text → Meanwhile

unfoldable pub meet :
    (lib : ClientLib) → String → Meanwhile → RobustConn lib → RobustConn lib × List Out
unfolding write on_ack_timeout on_data
meet lib id (wrote ready msg) r = write lib ready msg r
meet lib id (acked ready) r = (r, on_ack_timeout lib ready r)
meet lib id (client_acked msg) r = on_data lib id msg r

unfoldable pub meet_all :
    (lib : ClientLib) → String → List Meanwhile → RobustConn lib → RobustConn lib × List Out
unfolding meet
meet_all lib id [] r = (r, [])
meet_all lib id (e ∷ es) r =
    let first = meet lib id e r in
    let rest = meet_all lib id es first.0 in (rest.0, first.1 ++ rest.1)

abbrev buffer_of : {B : Type 0} → Ack B → Option B
buffer_of no_ack = none
buffer_of (discarded b) = some b
buffer_of (ack_throws b) = none

-- The buffer behind that, where every message of the client is an ACK that the buffer takes.
unfoldable pub buffered :
    (lib : ClientLib) → List Meanwhile → ClientLib.Buffer lib → Option (ClientLib.Buffer lib)
buffered lib [] b = some b
buffered lib (wrote ready msg ∷ es) b = buffered lib es (ClientLib.write lib msg b).0
buffered lib (acked ready ∷ es) b = buffered lib es b
buffered lib (client_acked msg ∷ es) b =
    buffer_of (ClientLib.handle_ack lib msg b) >>= buffered lib es

-- The server's ACKs.
abbrev pub acks_sent : ℕ → Text → List Meanwhile → List Out
acks_sent c ack [] = []
acks_sent c ack (wrote ready msg ∷ es) = acks_sent c ack es
acks_sent c ack (acked true ∷ es) = write_conn c ack ∷ acks_sent c ack es
acks_sent c ack (acked false ∷ es) = acks_sent c ack es
acks_sent c ack (client_acked msg ∷ es) = acks_sent c ack es

-- A session that waits for CONTINUE.
abbrev waiting : (lib : ClientLib) → RobustConn lib → RobustConn lib
waiting lib r = record r { expect_continue = true }

-- What the waiting session does while it waits: it fills its buffer and sends ACKs only.
abbrev Waits :
    (lib : ClientLib) → String → List Meanwhile → RobustConn lib → ClientLib.Buffer lib → Type 0
Waits lib id es r b =
    (n : Bool) × (meet_all lib id es (waiting lib r) ≡ (
      waiting lib (record r { buffer = b; nascent = n }),
      acks_sent r.conn (ClientLib.ack_text lib r.receiver) es,
    ))

on_data-acks :
    (lib : ClientLib) (id : String) (msg : Text) (r : RobustConn lib) (c : ClientLib.Buffer lib)
    → ClientLib.handle_ack lib msg r.buffer ≡ discarded c
    → on_data lib id msg (waiting lib r)
      ≡ (waiting lib (record r { buffer = c; nascent = false }), [])
unfolding on_data
on_data-acks lib id msg r c e = ground (arith, e)

Waits-ack :
    (lib : ClientLib) (id : String) (msg : Text) (es : List Meanwhile) (r : RobustConn lib)
    (b : ClientLib.Buffer lib) (a : Ack (ClientLib.Buffer lib))
    → ClientLib.handle_ack lib msg r.buffer ≡ a
    → (buffer_of a >>= buffered lib es) ≡ some b
    → ((c : ClientLib.Buffer lib)
        → buffered lib es c ≡ some b
        → Waits lib id es (record r { buffer = c; nascent = false }) b)
    → Waits lib id (client_acked msg ∷ es) r b
unfolding meet_all meet
Waits-ack lib id msg es r b no_ack e h k = cc h
Waits-ack lib id msg es r b (ack_throws c) e h k = cc h
Waits-ack lib id msg es r b (discarded c) e h k =
    let (n, met) = k c h in
    (
      n,
      ap (λ p. let rest = meet_all lib id es p.0 in (rest.0, p.1 ++ rest.1))
            (on_data-acks lib id msg r c e)
          ∙ met,
    )

meet_all-Waits :
    (lib : ClientLib) (id : String) (es : List Meanwhile) (r : RobustConn lib)
    (b : ClientLib.Buffer lib)
    → buffered lib es r.buffer ≡ some b
    → Waits lib id es r b
unfolding meet_all meet buffered
meet_all-Waits lib id [] r b h =
    (r.nascent, ap (λ c. (waiting lib (record r { buffer = c }), [])) (cc h))
meet_all-Waits lib id (wrote ready msg ∷ es) r b h =
    meet_all-Waits lib id es (record r { buffer = (ClientLib.write lib msg r.buffer).0 }) b h
meet_all-Waits lib id (acked true ∷ es) r b h =
    let (n, met) = meet_all-Waits lib id es r b h in
    (n, ap (λ p. (p.0, write_conn r.conn (ClientLib.ack_text lib r.receiver) ∷ p.1)) met)
meet_all-Waits lib id (acked false ∷ es) r b h = meet_all-Waits lib id es r b h
meet_all-Waits lib id (client_acked msg ∷ es) r b h =
    Waits-ack lib id msg es r b (ClientLib.handle_ack lib msg r.buffer) refl h
      (λ c. meet_all-Waits lib id es (record r { buffer = c; nascent = false }) b)

on_data-continues :
    (lib : ClientLib) (id : String) (r : RobustConn lib) (cont : Text) (i : ℕ)
    (b : ClientLib.Buffer lib) (replay : List Text)
    → ClientLib.handle_ack lib cont r.buffer ≡ no_ack
    → ClientLib.parse_continue lib cont ≡ some i
    → ClientLib.discard lib i r.buffer ≡ some b
    → ClientLib.messages_from lib i b ≡ some replay
    → on_data lib id cont (waiting lib r) ≡ (
      record r { nascent = false; expect_continue = false; buffer = b },
      writes lib r.conn replay,
    )
unfolding on_data
on_data-continues lib id r cont i b replay a p d m = ground arith

-- When a client resumes a session, the new connection carries first the server's CONTINUE. Until the
-- client's CONTINUE it carries ACKs of the server only, whatever the application writes meanwhile
-- and however the client acknowledges messages that the buffer has. At the client's CONTINUE it
-- carries exactly the messages that the buffer then holds from the position that the client names,
-- in their order.
pub resume-order :
    (lib : ClientLib) (id : String) (c : ℕ) (r : RobustConn lib) (es : List Meanwhile)
    (replay : List Text) (cont : Text) (i : ℕ) (held b : ClientLib.Buffer lib)
    → buffered lib es r.buffer ≡ some held
    → ClientLib.handle_ack lib cont held ≡ no_ack
    → ClientLib.parse_continue lib cont ≡ some i
    → ClientLib.discard lib i held ≡ some b
    → ClientLib.messages_from lib i b ≡ some replay
    → (s : RobustConn lib) × (set lib id c true r ≡ (
      s,
      close_conn r.conn retired
          ∷ clear_timer id
          ∷ write_conn c (ClientLib.continue_text lib r.receiver)
          ∷ [],
    ))
      × (u : RobustConn lib) × (meet_all lib id es s
          ≡ (u, acks_sent c (ClientLib.ack_text lib r.receiver) es))
      × (v : RobustConn lib) × (on_data lib id cont u ≡ (v, writes lib c replay))
      × (v.expect_continue ≡ false)
      × (v.buffer ≡ b)
unfolding set
resume-order lib id c r es replay cont i held b f a p d m =
    let s = record r { conn = c; timer = false; withheld = [] } in
    let (n, met) = meet_all-Waits lib id es s held f in
    let t = record s { buffer = held; nascent = n } in
    (
      waiting lib s,
      refl,
      waiting lib t,
      met,
      record t { nascent = false; expect_continue = false; buffer = b },
      on_data-continues lib id t cont i b replay a p d m,
      refl,
      refl,
    )

-- A nascent session that still waits for CONTINUE and is taken over by a new client goes on
-- waiting for it: a first message of that client that is neither an ACK nor a CONTINUE closes
-- the connection as a violation of the protocol.
pub restart-stale :
    (lib : ClientLib) (id : String) (c : ℕ) (r : RobustConn lib) (msg : Text) (ms : List Text)
    → r.nascent ≡ true
    → r.expect_continue ≡ true
    → ClientLib.messages_from lib 0 r.buffer ≡ some ms
    → ClientLib.handle_ack lib msg r.buffer ≡ no_ack
    → ClientLib.parse_continue lib msg ≡ none
    → (on_data lib id msg (set lib id c false r).0).1 ≡ close_conn c bad_protocol ∷ []
unfolding on_data set
restart-stale lib id c r msg ms new waits kept a p = ground arith

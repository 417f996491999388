-- ===== src/Proxy/Robust/Calls.antt =====
-- What the operations on a session do to the timers of the runtime.
use shiny_server.Prelude.{
  str_eq, ℕ, ◌≡◌, refl, sym, ap, ◌∙◌, Bool, true, false, List, [], ◌∷◌, ◌++◌, Option, none, some,
  if◌then◌else◌, Text, String, string_eq, Option-cases, inl, inr, eq_iff,
}
use shiny_server.Proxy.ErrorCode.{retired}
use shiny_server.Proxy.Robust.{
  Ack, no_ack, discarded, ack_throws, protocol_error, continues, receives, ClientLib, Ending, Out,
  write_conn, close_conn, emit_ending, set_timer, clear_timer, exception, RobustConn, writes, set,
  on_data, on_ending, emit_all, write, on_ack_timeout,
}

-- Whether the timer for an id runs behind an effect, and behind effects.
abbrev runs_behind : String → Out → Bool → Bool
runs_behind id (set_timer i) b = if str_eq i id then true else b
runs_behind id (clear_timer i) b = if str_eq i id then false else b
runs_behind id _ b = b

abbrev pub running : String → List Out → Bool → Bool
running id [] b = b
running id (o ∷ os) b = running id os (runs_behind id o b)

pub eq_refl : (id : String) → str_eq id id ≡ true
eq_refl id = (eq_iff id id).1 refl

module _ (lib : ClientLib) where
  abbrev pub flag : Option (RobustConn lib) → Bool
  flag none = false
  flag (some r) = r.timer

  running-append :
      (id : String) (xs ys : List Out) (b : Bool)
      → running id (xs ++ ys) b ≡ running id ys (running id xs b)
  running-append id [] ys b = refl
  running-append id (x ∷ xs) ys b = running-append id xs ys (runs_behind id x b)

  running-writes :
      (id : String) (c : ℕ) (ms : List Text) (b : Bool) → running id (writes lib c ms) b ≡ b
  unfolding writes
  running-writes id c [] b = refl
  running-writes id c (m ∷ ms) b = running-writes id c ms b

  pub running-emit_all :
      (id i : String) (es : List Ending) (b : Bool) → running id (emit_all lib i es) b ≡ b
  unfolding emit_all
  running-emit_all id i [] b = refl
  running-emit_all id i (e ∷ es) b =
      running-append id (emit_all lib i es) (emit_ending i e ∷ []) b ∙ running-emit_all id i es b

  -- What a session's operation does to its own timer, and to no other.
  abbrev pub Keeps : String → RobustConn lib → RobustConn lib × List Out → Type 0
  Keeps id r (s, os) =
      (running id os r.timer ≡ s.timer)
      × ((j : String) (b : Bool) → str_eq id j ≡ false → running j os b ≡ b)

  -- An operation that leaves all timers alone.
  abbrev IsCalm : RobustConn lib → RobustConn lib × List Out → Type 0
  IsCalm r (s, os) = ((j : String) (b : Bool) → running j os b ≡ b) × (s.timer ≡ r.timer)

  IsCalm-Keeps :
      (id : String) (r : RobustConn lib) (p : RobustConn lib × List Out) → IsCalm r p → Keeps id r p
  IsCalm-Keeps id r (s, os) (calm, same) = (calm id r.timer ∙ sym same, λ j b ne. calm j b)

  continues_at :
      (r : RobustConn lib) (s : RobustConn lib) (o : Option (List Text))
      → s.timer ≡ r.timer
      → IsCalm r (elim o [ none ↦ protocol_error lib s | some ms ↦ (s, writes lib r.conn ms) ])
  unfolding protocol_error
  continues_at r s none e = (λ j b. refl, e)
  continues_at r s (some ms) e = (λ j b. running-writes j r.conn ms b, e)

  continues-IsCalm : (i : ℕ) (r : RobustConn lib) → IsCalm r (continues lib i r)
  unfolding continues protocol_error
  continues-IsCalm i r = elim (Option-cases (ClientLib.discard lib i r.buffer)) [
    | inl none_left ↦ rw (none_left, continues) (λ j b. refl, refl)
    | inr (c, left) ↦
        rw (left, continues)
          (continues_at r (record r { expect_continue = false; buffer = c })
            (ClientLib.messages_from lib i c) refl)
  ]

  receives-IsCalm :
      (id : String) (msg : Text) (r : RobustConn lib) → IsCalm r (receives lib id msg r)
  unfolding receives protocol_error
  receives-IsCalm id msg r = elim (Option-cases (ClientLib.receive lib msg r.receiver)) [
    | inl refused ↦ rw (refused, receives) (λ j b. refl, refl)
    | inr (v, received) ↦ rw (received, receives) (λ j b. refl, refl)
  ]

  on_message-IsCalm :
      (id : String) (msg : Text) (r : RobustConn lib) (expect : Bool) (o : Option ℕ)
      → IsCalm r (
          if expect
          then (elim o [ none ↦ protocol_error lib r | some i ↦ continues lib i r ])
          else receives lib id msg r)
  unfolding protocol_error
  on_message-IsCalm id msg r true none = (λ j b. refl, refl)
  on_message-IsCalm id msg r true (some i) = continues-IsCalm i r
  on_message-IsCalm id msg r false o = receives-IsCalm id msg r

  on_data_at :
      (id : String) (msg : Text) (r : RobustConn lib) (a : Ack (ClientLib.Buffer lib))
      → ClientLib.handle_ack lib msg r.buffer ≡ a
      → IsCalm r (on_data lib id msg r)
  unfolding on_data protocol_error
  on_data_at id msg r (discarded c) e = rw (e, on_data) (λ j b. refl, refl)
  on_data_at id msg r (ack_throws c) e = rw (e, on_data) (λ j b. refl, refl)
  on_data_at id msg r no_ack e =
      rw (e, on_data)
        (on_message-IsCalm id msg (record r { nascent = false }) r.expect_continue
          (ClientLib.parse_continue lib msg))

  pub on_data-Keeps :
      (id : String) (msg : Text) (r : RobustConn lib) → Keeps id r (on_data lib id msg r)
  on_data-Keeps id msg r =
      IsCalm-Keeps id r (on_data lib id msg r)
        (on_data_at id msg r (ClientLib.handle_ack lib msg r.buffer) refl)

  retired_then :
      (id : String) (c : ℕ) (os : List Out) (r s : RobustConn lib)
      → ((j : String) (b : Bool) → running j os b ≡ b)
      → s.timer ≡ false
      → Keeps id r (s, close_conn c retired ∷ clear_timer id ∷ os)
  retired_then id c os r s calm off = (
    calm id _ ∙ ap (λ t. if t then false else r.timer) (eq_refl id) ∙ sym off,
    λ j b ne. calm j _ ∙ ap (λ t. if t then false else b) ne,
  )

  set_at :
      (id : String) (c : ℕ) (r s old : RobustConn lib) (nascent : Bool) (o : Option (List Text))
      → s.timer ≡ false
      → old.timer ≡ false
      → Keeps id r (
          if nascent
          then (elim o [
            | none ↦ (old, close_conn r.conn retired ∷ clear_timer id ∷ exception ∷ [])
            | some ms ↦ (s, close_conn r.conn retired ∷ clear_timer id ∷ writes lib c ms)
          ])
          else (old, close_conn r.conn retired ∷ clear_timer id ∷ exception ∷ []))
  set_at id c r s old true none e f = retired_then id r.conn (exception ∷ []) r old (λ j b. refl) f
  set_at id c r s old true (some ms) e f =
      retired_then id r.conn (writes lib c ms) r s (λ j b. running-writes j c ms b) e
  set_at id c r s old false o e f = retired_then id r.conn (exception ∷ []) r old (λ j b. refl) f

  pub set-Keeps :
      (id : String) (c : ℕ) (resume : Bool) (r : RobustConn lib)
      → Keeps id r (set lib id c resume r)
  unfolding set
  set-Keeps id c true r =
      retired_then id r.conn (write_conn c (ClientLib.continue_text lib r.receiver) ∷ []) r
        (record r { timer = false; withheld = []; conn = c; expect_continue = true }) (λ j b. refl)
        refl
  set-Keeps id c false r =
      let old = record r { timer = false; withheld = [] } in
      set_at id c r (record old { conn = c }) old r.nascent (ClientLib.messages_from lib 0 r.buffer)
        refl refl

  ending_at :
      (id : String) (r s : RobustConn lib) (on : Bool)
      → r.timer ≡ on
      → s.timer ≡ true
      → Keeps id r (s, if on then [] else set_timer id ∷ [])
  ending_at id r s true e f = (e ∙ sym f, λ j b ne. refl)
  ending_at id r s false e f = (
    ap (λ t. if t then true else r.timer) (eq_refl id) ∙ sym f,
    λ j b ne. ap (λ t. if t then true else b) ne,
  )

  pub on_ending-Keeps :
      (id : String) (e : Ending) (r : RobustConn lib) → Keeps id r (on_ending lib id e r)
  unfolding on_ending
  on_ending-Keeps id e r =
      ending_at id r (record r { withheld = r.withheld ++ (e ∷ []); timer = true }) r.timer refl
        refl

  write_at :
      (r s : RobustConn lib) (expect ready : Bool) (o : Out)
      → ((j : String) (b : Bool) → runs_behind j o b ≡ b)
      → s.timer ≡ r.timer
      → IsCalm r (s, if expect then [] else (if ready then o ∷ [] else []))
  write_at r s true ready o h e = (λ j b. refl, e)
  write_at r s false true o h e = (h, e)
  write_at r s false false o h e = (λ j b. refl, e)

  pub write-Keeps :
      (id : String) (ready : Bool) (msg : Text) (r : RobustConn lib)
      → Keeps id r (write lib ready msg r)
  unfolding write
  write-Keeps id ready msg r = IsCalm-Keeps id r (write lib ready msg r) (
      write_at r (record r { buffer = (ClientLib.write lib msg r.buffer).0 }) r.expect_continue
        ready (write_conn r.conn (ClientLib.write lib msg r.buffer).1) (λ j b. refl) refl)

  pub acks-Keeps :
      (id : String) (ready : Bool) (r : RobustConn lib) → Keeps id r (r, on_ack_timeout lib ready r)
  unfolding on_ack_timeout
  acks-Keeps id true r = (refl, λ j b ne. refl)
  acks-Keeps id false r = (refl, λ j b ne. refl)

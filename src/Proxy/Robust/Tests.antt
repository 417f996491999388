-- ===== src/Proxy/Robust/Tests.antt =====
-- The theorems on robust sessions at concrete inputs, with a small client library.
use shiny_server.Prelude.{
  ℕ, zero, suc, ◌+◌, ◌-◌, ◌≡◌, ◌↔◌, refl, true, false, List, [], ◌∷◌, ◌++◌, Option, none, some, ltb,
  ◌==◌, if◌then◌else◌, codes, Text, string_eq,
}
use shiny_server.Prelude.Dict.{lookup}
use shiny_server.Proxy.ErrorCode.{retired}
use shiny_server.Proxy.Robust.{
  Ack, no_ack, discarded, ack_throws, ClientLib, end_event, write_conn, close_conn, clear_timer,
  RobustConn, writes, set, on_data, Event, arrives, loses, run,
}
use shiny_server.Proxy.Robust.Timers.{timer_runs, Withholds, run-Armed}
use shiny_server.Proxy.Robust.Resume.{
  Meanwhile, wrote, acked, client_acked, meet_all, buffered, resume-order,
}

abbrev drop : ℕ → List Text → Option (List Text)
drop zero ms = some ms
drop (suc n) [] = none
drop (suc n) (m ∷ ms) = drop n ms

-- The first message that is kept, and the messages from it on.
abbrev Kept : Type 0
Kept = ℕ × List Text

abbrev kept_from : ℕ → Kept → Option (List Text)
kept_from i (n, ms) = if ltb i n then none else drop (i - n) ms

abbrev number_behind : ℕ → Text → Option ℕ
number_behind mark (c ∷ d ∷ []) = if c == mark then some (d - b'0') else none
number_behind mark _ = none

abbrev acknowledged : Kept → Option ℕ → Ack Kept
acknowledged b none = no_ack
acknowledged b (some i) = elim (kept_from i b) [ none ↦ ack_throws b | some ms ↦ discarded (i, ms) ]

abbrev dropped : ℕ → Option (List Text) → Option Kept
dropped i none = none
dropped i (some ms) = some (i, ms)

abbrev client_lib : ClientLib
client_lib = record {
  Buffer = Kept;
  Receiver = ℕ;
  new_buffer = (0, []);
  new_receiver = 0;
  write = λ m b. ((b.0, b.1 ++ (m ∷ [])), m);
  handle_ack = λ m b. acknowledged b (number_behind b'A' m);
  discard = λ i b. dropped i (kept_from i b);
  messages_from = kept_from;
  parse_continue = number_behind b'C';
  receive = λ m n. some (n + 1, m);
  continue_text = λ n. b'C' ∷ (n + b'0') ∷ [];
  ack_text = λ n. b'A' ∷ (n + b'0') ∷ [];
}

abbrev fresh : RobustConn client_lib
fresh = record {
  conn = 1;
  nascent = true;
  buffer = (0, []);
  receiver = 0;
  expect_continue = false;
  timer = false;
  withheld = [];
}

-- A client connects and its connection ends.
abbrev lost_events : List (Event client_lib)
lost_events = arrives (some "x") none 1 ∷ loses "x" end_event ∷ []

abbrev lost : RobustConn client_lib
lost = record fresh { timer = true; withheld = end_event ∷ [] }

run-Armed_example :
    (timer_runs client_lib "x" lost_events [] false ≡ true)
    ↔ Withholds client_lib (lookup "x" (run client_lib lost_events []))
run-Armed_example = run-Armed client_lib lost_events "x"

-- While the client waits to go on, the application writes, an ACK is due, the client acknowledges
-- that message, and the application writes again.
abbrev away : List Meanwhile
away = wrote true (codes "a") ∷ acked true ∷ client_acked (codes "A1") ∷ wrote true (codes "b") ∷ []

abbrev held : Kept
held = (1, codes "b" ∷ [])

resume_facts :
    (buffered client_lib away (0, []) ≡ some held)
    × (ClientLib.handle_ack client_lib (codes "C1") held ≡ no_ack)
    × (ClientLib.parse_continue client_lib (codes "C1") ≡ some 1)
    × (ClientLib.discard client_lib 1 held ≡ some held)
    × (ClientLib.messages_from client_lib 1 held ≡ some (codes "b" ∷ []))
unfolding buffered
resume_facts = (refl, refl, refl, refl, refl)

resume-order_example :
    (s : RobustConn client_lib) × (set client_lib "x" 2 true lost
      ≡ (s, close_conn 1 retired ∷ clear_timer "x" ∷ write_conn 2 (codes "C0") ∷ []))
    × (u : RobustConn client_lib) × (meet_all client_lib "x" away s
        ≡ (u, write_conn 2 (codes "A0") ∷ []))
    × (v : RobustConn client_lib) × (on_data client_lib "x" (codes "C1") u
        ≡ (v, writes client_lib 2 (codes "b" ∷ [])))
    × (v.expect_continue ≡ false)
    × (v.buffer ≡ held)
resume-order_example =
    resume-order client_lib "x" 2 lost away (codes "b" ∷ []) (codes "C1") 1 held held resume_facts.0
      resume_facts.1 resume_facts.2 resume_facts.3 resume_facts.4

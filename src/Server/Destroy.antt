-- ===== src/Server/Destroy.antt =====
-- What `destroy` does to a Server.
use shiny_server.Prelude.{
  ℕ, ◌≡◌, refl, sym, ◌∙◌, Bool, List, ◌++◌, none, some, ◌&&◌, ◌||◌, Text, arith, walked_eq, nat_eq,
}
use shiny_server.Prelude.Dict.{lookup}
use shiny_server.Prelude.Sets.{contains, keys, NoDup, contains-keys}
use shiny_server.Server.{
  Table, Effect, Server, Kind, wildcard, host, destroy, same_server, is_listening,
}
use shiny_server.Server.Tables.{Closes, close-Closes}
use shiny_server.Server.Effects.{stopped, stopped-append}
use shiny_server.Server.Refines.{table, IsTable, IsValid, each}

close_every : (flags : List (ℕ × Bool)) (t : Table) → NoDup (keys t) → Closes flags t (keys t)
close_every flags t u = close-Closes flags t (keys t) u u (λ k c. sym (contains-keys k t) ∙ c)

-- The server is at the key of one of the tables.
abbrev pub holds : Server → Text → ℕ → Bool
holds s k id = same_server (lookup k s.wildcards) id || same_server (lookup k s.hosts) id

same_server-keys :
    (t : Table) (k : Text) (id : ℕ) (b : Bool)
    → (contains k (keys t) && (same_server (lookup k t) id && b))
      ≡ (same_server (lookup k t) id && b)
unfolding same_server
same_server-keys t k id b = ground (arith, contains-keys k t)

-- What `destroy` leaves of a Server.
pub record Destroys (s : Server) : Type 0 where
  pub server : Server
  pub effects : List Effect
  pub runs : destroy s ≡ some (server, effects)
  pub valid : IsValid server
  pub same_next : server.next ≡ s.next
  pub empty : (kind : Kind) (k : Text) → lookup k (table kind server) ≡ none
  pub stops :
      (k : Text) (id : ℕ) → stopped k id effects ≡ (holds s k id && is_listening s.listening id)

emptied-IsTable :
    (flags : List (ℕ × Bool)) (n : ℕ) (t : Table) (c : Closes flags t (keys t)) → IsTable n c.table
emptied-IsTable flags n t c = record {
  unique = c.unique;
  bounded = λ k i found. absurd (ground (arith, c.reads k, contains-keys k t, found));
}

-- `destroy` fails no assertion and empties both tables, and it stops exactly the servers of the
-- tables that are listening: one that has not begun to listen is dropped and never stopped.
pub destroy-Destroys : (s : Server) → IsValid s → Destroys s
destroy-Destroys s v =
    let w = close_every s.listening s.wildcards ((v wildcard).unique) in
    let h = close_every s.listening s.hosts ((v host).unique) in
    let u = record s { wildcards = w.table; hosts = h.table } in
    record {
      server = u;
      effects = w.effects ++ h.effects;
      runs = unfold destroy in rw (w.runs, h.runs) refl;
      valid =
          each (λ kind. IsTable s.next (table kind u))
            (emptied-IsTable s.listening s.next s.wildcards w)
            (emptied-IsTable s.listening s.next s.hosts h);
      same_next = refl;
      empty =
          each (λ kind. (k : Text) → lookup k (table kind u) ≡ none)
            (λ k. ground (arith, w.reads k, contains-keys k s.wildcards))
            (λ k. ground (arith, h.reads k, contains-keys k s.hosts));
      stops = λ k id. ground (
        arith,
        stopped-append k id w.effects h.effects,
        w.stops k id,
        h.stops k id,
        same_server-keys s.wildcards k id (is_listening s.listening id),
        same_server-keys s.hosts k id (is_listening s.listening id),
      );
    }

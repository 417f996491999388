-- ===== src/Server/Runs.antt =====
-- A Server over any sequence of calls and events.
use shiny_server.Prelude.{
  ℕ, ◌≤◌, ◌<◌, ◌≡◌, ◌≢◌, refl, sym, ap, ◌∙◌, Bool, true, false, List, [], ◌∷◌, Option, none, some,
  All, Text, arith, Bool-cases, Option-cases, inl, inr, is_some, walked_eq, nat_eq, ◌>>=◌, ◌==◌,
  ==_iff,
}
use shiny_server.Prelude.Dict.{lookup, insert, lookup-remove}
use shiny_server.Prelude.Sets.{keys, NoDup, keys-remove-NoDup}
use shiny_server.Server.{
  Url, Address, Table, Effect, Server, Kind, wildcard, host, created, destroy, set_addresses,
  drop_server, on_close, on_listening, on_error, same_server, is_listening, remove_from_table,
}
use shiny_server.Server.Destroy.{Destroys, destroy-Destroys}
use shiny_server.Server.Requests.{WellFormed, requested}
use shiny_server.Server.Refines.{table, IsTable, IsValid, Sets, set_addresses-Sets, each}
use shiny_server.Router.Scores.{AddressLib}

pub created-IsValid : IsValid created
unfolding created keys NoDup lookup
created-IsValid =
    each (λ k. IsTable 0 (table k created))
      (record { unique = tt; bounded = λ k i found. cc found })
      (record { unique = tt; bounded = λ k i found. cc found })

-- What a Server meets: calls of its methods and events of the http.Servers.
pub data Op : Type 0 where
  set_to : List Address → Op
  destroyed : Op
  closed errored : Kind → Text → ℕ → Op
  begun : ℕ → Op

abbrev pub without_effects : Option (Server × List Effect) → Option Server
without_effects none = none
without_effects (some (s, fx)) = some s

-- Neither call fails, no key stands twice, and a server that is at no key never comes back to it.
pub record Keeps (s u : Server) : Type 0 where
  pub valid : IsValid u
  pub grows : s.next ≤ u.next
  pub gone :
      (kind : Kind) (k : Text) (i : ℕ)
      → i < s.next
      → lookup k (table kind s) ≢ some i
      → lookup k (table kind u) ≢ some i

module _ (lib : AddressLib) (parse_url : Text → Option Url) where
  set_addresses-Keeps :
      (addresses : List Address) (s : Server) (c : Sets lib parse_url addresses s)
      → Keeps s c.server
  set_addresses-Keeps addresses s c = record {
    valid = c.valid;
    grows = c.grows;
    gone = λ kind k i low away here. elim (Option-cases (lookup k (table kind s))) [
      | inl missing ↦
          let (late, _) = (c.follows kind).fresh k i missing here in
          absurd (omega (arith, late, low))
      | inr (j, there) ↦
          let want : requested lib addresses kind k ≡ true =
            sym (ap (λ f. f k) ((c.follows kind).serves)) ∙ ap is_some here in
          away (there ∙ sym ((c.follows kind).kept k j want there) ∙ here)
    ];
  }

remove_from_table-IsTable :
    (n : ℕ) (t : Table) (key : Text) (id : ℕ) → IsTable n t → IsTable n (remove_from_table t key id)
unfolding remove_from_table
remove_from_table-IsTable n t key id v = elim (Bool-cases (same_server (lookup key t) id)) [
  | inl same ↦ rw same record {
    unique = keys-remove-NoDup key t v.unique;
    bounded = λ k i found. v.bounded k i (ground (arith, lookup-remove key k t, found));
  }
  | inr other ↦ rw other v
]

remove_from_table-gone :
    (t : Table) (key : Text) (id : ℕ) (k : Text) (i : ℕ)
    → lookup k t ≢ some i
    → lookup k (remove_from_table t key id) ≢ some i
unfolding remove_from_table
remove_from_table-gone t key id k i away here = away (ground (arith, lookup-remove key k t, here))

drop_server-Keeps :
    (kind : Kind) (key : Text) (id : ℕ) (s : Server)
    → IsValid s
    → Keeps s (drop_server kind key id s)
unfolding drop_server
drop_server-Keeps wildcard key id s v = record {
  valid =
      each (λ k. IsTable s.next (table k (drop_server wildcard key id s)))
        (remove_from_table-IsTable s.next s.wildcards key id (v wildcard)) (v host);
  grows = omega arith;
  gone =
      each
        (λ d.
          (k : Text) (i : ℕ)
          → i < s.next
          → lookup k (table d s) ≢ some i
          → lookup k (table d (drop_server wildcard key id s)) ≢ some i)
        (λ k i low. remove_from_table-gone s.wildcards key id k i) (λ k i low away. away);
}
drop_server-Keeps host key id s v = record {
  valid =
      each (λ k. IsTable s.next (table k (drop_server host key id s))) (v wildcard)
        (remove_from_table-IsTable s.next s.hosts key id (v host));
  grows = omega arith;
  gone =
      each
        (λ d.
          (k : Text) (i : ℕ)
          → i < s.next
          → lookup k (table d s) ≢ some i
          → lookup k (table d (drop_server host key id s)) ≢ some i)
        (λ k i low away. away) (λ k i low. remove_from_table-gone s.hosts key id k i);
}

flags-Keeps :
    (s : Server) (flags : List (ℕ × Bool)) → IsValid s → Keeps s (record s { listening = flags })
flags-Keeps s flags v = record {
  valid =
      each (λ k. IsTable s.next (table k (record s { listening = flags }))) (v wildcard) (v host);
  grows = omega arith;
  gone =
      each
        (λ d.
          (k : Text) (i : ℕ)
          → i < s.next
          → lookup k (table d s) ≢ some i
          → lookup k (table d (record s { listening = flags })) ≢ some i)
        (λ k i low away. away) (λ k i low away. away);
}

destroy-Keeps : (s : Server) (d : Destroys s) → Keeps s d.server
destroy-Keeps s d = record {
  valid = d.valid;
  grows = omega (arith, d.same_next);
  gone = λ kind k i low away here. absurd (ground (arith, d.empty kind k, here));
}

on_error-Keeps :
    (kind : Kind) (key : Text) (id : ℕ) (s : Server) → IsValid s → Keeps s (on_error kind key id s)
unfolding on_error
on_error-Keeps kind key id s v = elim (Bool-cases (is_listening s.listening id)) [
  | inl on ↦ rw on (flags-Keeps s s.listening v)
  | inr off ↦ rw off (drop_server-Keeps kind key id s v)
]

Keeps-trans : (s u w : Server) → Keeps s u → Keeps u w → Keeps s w
Keeps-trans s u w a b = record {
  valid = b.valid;
  grows = omega (arith, a.grows, b.grows);
  gone =
      λ kind k i low away. b.gone kind k i (omega (arith, low, a.grows)) (a.gone kind k i low away);
}

not_same : (o : Option ℕ) (id : ℕ) → o ≢ some id → same_server o id ≡ false
unfolding same_server
not_same none id away = refl
not_same (some i) id away = elim (Bool-cases (i == id)) [
  | inl same ↦ absurd (away (ap some ((==_iff i id).0 same)))
  | inr other ↦ other
]

on_close-stale :
    (kind : Kind) (key : Text) (id : ℕ) (u : Server)
    → lookup key (table kind u) ≢ some id
    → (other : Kind) → table other (on_close kind key id u) ≡ table other u
unfolding on_close drop_server remove_from_table
on_close-stale wildcard key id u away =
    each (λ k. table k (on_close wildcard key id u) ≡ table k u)
      (rw (not_same (lookup key u.wildcards) id away) refl) refl
on_close-stale host key id u away =
    each (λ k. table k (on_close host key id u) ≡ table k u) refl
      (rw (not_same (lookup key u.hosts) id away) refl)

module _ (lib : AddressLib) (parse_url : Text → Option Url) where
  unfoldable pub step : Op → Server → Option Server
  unfolding set_addresses destroy on_close on_listening on_error
  step (set_to addresses) s = without_effects (set_addresses lib parse_url addresses s)
  step destroyed s = without_effects (destroy s)
  step (closed kind key id) s = some (on_close kind key id s)
  step (errored kind key id) s = some (on_error kind key id s)
  step (begun id) s = some (on_listening id s)

  unfoldable pub run : List Op → Server → Option Server
  unfolding step
  run [] s = some s
  run (op ∷ ops) s = step op s >>= run ops

  abbrev pub GoodOp : Op → Type 0
  GoodOp (set_to addresses) = All (WellFormed lib parse_url) addresses
  GoodOp _ = Unit

  step-Keeps :
      (op : Op) (s : Server)
      → GoodOp op
      → IsValid s
      → (u : Server) × (step op s ≡ some u) × Keeps s u
  step-Keeps (set_to addresses) s good v =
      let c = set_addresses-Sets lib parse_url addresses s good v in
      (c.server, unfold step in rw c.runs refl, set_addresses-Keeps lib parse_url addresses s c)
  step-Keeps destroyed s good v =
      let d = destroy-Destroys s v in (d.server, unfold step in rw d.runs refl, destroy-Keeps s d)
  step-Keeps (closed kind key id) s good v =
      let f = flags-Keeps s (insert id false s.listening) v in
      (
        on_close kind key id s,
        unfold step in refl,
        unfold on_close in
            Keeps-trans s (record s { listening = insert id false s.listening })
              (drop_server kind key id (record s { listening = insert id false s.listening })) f
              (drop_server-Keeps kind key id (record s { listening = insert id false s.listening })
                f.valid),
      )
  step-Keeps (errored kind key id) s good v =
      (on_error kind key id s, unfold step in refl, on_error-Keeps kind key id s v)
  step-Keeps (begun id) s good v = (
    on_listening id s,
    unfold step in refl,
    unfold on_listening in flags-Keeps s (insert id true s.listening) v,
  )

  -- From a Server without duplicate keys, any sequence of calls with well-formed addresses and of
  -- events fails no assertion and gives such a Server, and a server that is not at a key, though
  -- it was created, is never at it again.
  pub run-Keeps :
      (ops : List Op) (s : Server)
      → All GoodOp ops
      → IsValid s
      → (u : Server) × (run ops s ≡ some u) × Keeps s u
  unfolding run
  run-Keeps [] s good v = (s, refl, flags-Keeps s s.listening v)
  run-Keeps (op ∷ ops) s (first, good) v =
      let (t, e, a) = step-Keeps op s first v in
      let (u, f, b) = run-Keeps ops t good a.valid in (u, rw (e, f) refl, Keeps-trans s t u a b)

  -- The event `close` of a server that has been dropped from its key may come at any later time:
  -- it removes no server from a table.
  pub run-late_close :
      (ops : List Op) (s : Server) (kind : Kind) (key : Text) (id : ℕ)
      → All GoodOp ops
      → IsValid s
      → id < s.next
      → lookup key (table kind s) ≢ some id
      → (u : Server) × (run ops s ≡ some u)
        × ((other : Kind) → table other (on_close kind key id u) ≡ table other u)
  run-late_close ops s kind key id good v low away =
      let (u, e, k) = run-Keeps ops s good v in
      (u, e, on_close-stale kind key id u (k.gone kind key id low away))

-- ===== src/Server/Refines.antt =====
-- `setAddresses` against its documentation: the servers are those of the addresses, the ones that
-- were there already are undisturbed, and the others are new.
use shiny_server.Prelude.{
  some_is, subst, false, not, ◌&&◌, ◌||◌, ℕ, ◌≤◌, ◌<◌, ◌≡◌, fun_ext, refl, sym, ap, ◌∙◌, Bool, true,
  List, ◌++◌, Option, none, some, Text, arith, Bool-cases, Option-cases, inl, inr, is_some,
  walked_eq, nat_eq, All,
}
use shiny_server.Prelude.Dict.{lookup}
use shiny_server.Prelude.Sets.{
  contains, keys, NoDup, difference, uniq, uniq-NoDup, contains-uniq, contains-difference,
  difference-NoDup, contains-keys,
}
use shiny_server.Server.{
  Url, Address, Table, Effect, Server, Kind, wildcard, host, same_server, is_listening, port_of,
  set_addresses,
}
use shiny_server.Server.Hostname.{hostname_to_addr}
use shiny_server.Server.Requests.{WellFormed, requested, Listed, keys_of-Listed}
use shiny_server.Server.Tables.{Closes, close-Closes, Opens, open-Opens}
use shiny_server.Server.Effects.{
  four, opened, listened, stopped, listened_in, opened_in, stopped_in,
}
use native.Mathlib.Nat.{le_refl}
use shiny_server.Router.Scores.{AddressLib}

abbrev pub table : Kind → Server → Table
table wildcard s = s.wildcards
table host s = s.hosts

pub each {ℓ} : (P : Kind → Type ℓ) → P wildcard → P host → (k : Kind) → P k
each P w h wildcard = w
each P w h host = h

-- No key twice, and every server was created.
pub record IsTable (n : ℕ) (t : Table) : Type 0 where
  pub unique : NoDup (keys t)
  pub bounded : (k : Text) (i : ℕ) → lookup k t ≡ some i → i < n

abbrev pub IsValid : Server → Type 0
IsValid s = (k : Kind) → IsTable s.next (table k s)

-- What becomes of a table `t` when the keys of `ws` are wanted, with the next server from `n` to `m`.
pub record Refreshed (n m : ℕ) (t : Table) (ws : List Text) (u : Table) : Type 0 where
  pub wanted : (k : Text) → is_some (lookup k u) ≡ contains k ws
  pub kept : (k : Text) (i : ℕ) → contains k ws ≡ true → lookup k t ≡ some i → lookup k u ≡ some i
  pub fresh : (k : Text) (i : ℕ) → lookup k t ≡ none → lookup k u ≡ some i → (n ≤ i) × (i < m)
  pub valid : NoDup (keys u)

module _ (lib : AddressLib) (parse_url : Text → Option Url) where
  refresh-Refreshed :
      (flags : List (ℕ × Bool)) (n : ℕ) (t : Table) (ws : List Text)
      (c : Closes flags t (difference (keys t) ws))
      (o : Opens lib parse_url n c.table (difference ws (keys t)))
      → Refreshed n o.next t ws o.table
  refresh-Refreshed flags n t ws c o = record {
    wanted = λ k. elim (Bool-cases (contains k (difference ws (keys t)))) [
      | inl new ↦
          let (i, found, low, high) = o.adds k new in
          ground (arith, contains-difference k ws (keys t), found, new)
      | inr old ↦ ground (
        arith,
        contains-difference k ws (keys t),
        contains-difference k (keys t) ws,
        contains-keys k t,
        c.reads k,
        o.keeps k old,
        old,
      )
    ];
    kept = λ k i want found. ground (
      arith,
      contains-difference k ws (keys t),
      contains-difference k (keys t) ws,
      contains-keys k t,
      c.reads k,
      o.keeps k,
    );
    fresh = λ k i missing found. elim (Bool-cases (contains k (difference ws (keys t)))) [
      | inl new ↦ let (j, found', low, high) = o.adds k new in ground (arith, found', low, high)
      | inr old ↦ ground (arith, c.reads k, o.keeps k old)
    ];
    valid = o.unique;
  }

  -- A table as the documentation has it: keys that were asked for, servers that were there at such
  -- keys undisturbed, and servers that are new at the others.
  pub record Follows (wants : Text → Bool) (n m : ℕ) (t u : Table) : Type 0 where
    pub serves : (λ k. is_some (lookup k u)) ≡ wants
    pub kept : (k : Text) (i : ℕ) → wants k ≡ true → lookup k t ≡ some i → lookup k u ≡ some i
    pub fresh : (k : Text) (i : ℕ) → lookup k t ≡ none → lookup k u ≡ some i → (n ≤ i) × (i < m)

  widen :
      (n n' m m' : ℕ) (t : Table) (ws : List Text) (u : Table)
      → Refreshed n m t ws u
      → n' ≤ n
      → m ≤ m'
      → Refreshed n' m' t ws u
  widen n n' m m' t ws u r low high = record {
    wanted = r.wanted;
    kept = r.kept;
    fresh = λ k i missing found.
        let (a, b) = r.fresh k i missing found in (omega (arith, a, low), omega (arith, b, high));
    valid = r.valid;
  }

  follow :
      (kind : Kind) (addresses : List Address) (l : Listed lib parse_url kind addresses) (n m : ℕ)
      (t u : Table)
      → Refreshed n m t (uniq l.list) u
      → Follows (requested lib addresses kind) n m t u
  follow kind addresses l n m t u r = record {
    serves = fun_ext (λ k. r.wanted k ∙ contains-uniq k l.list ∙ l.members k);
    kept = λ k i want found. r.kept k i (contains-uniq k l.list ∙ l.members k ∙ want) found;
    fresh = r.fresh;
  }

  refresh-IsTable :
      (n b m : ℕ) (t : Table) (ws : List Text) (u : Table)
      → Refreshed n m t ws u
      → IsTable b t
      → b ≤ m
      → IsTable m u
  refresh-IsTable n b m t ws u r v le = record {
    unique = r.valid;
    bounded = λ k i found. elim (Option-cases (lookup k t)) [
      | inl missing ↦ (r.fresh k i missing found).1
      | inr (j, there) ↦ omega (
        arith,
        v.bounded k j there,
        le,
        some_is j i (sym (r.kept k j (sym (r.wanted k) ∙ ap is_some found) there) ∙ found),
      )
    ];
  }

  -- Both steps on one table run to their ends.
  record Steps (flags : List (ℕ × Bool)) (n : ℕ) (t : Table) (ws : List Text) : Type 0 where
    closes : Closes flags t (difference (keys t) ws)
    opens : Opens lib parse_url n closes.table (difference ws (keys t))

  open_new :
      (kind : Kind) (addresses : List Address) (l : Listed lib parse_url kind addresses)
      (flags : List (ℕ × Bool)) (n : ℕ) (t : Table)
      → NoDup (keys t)
      → Closes flags t (difference (keys t) (uniq l.list))
      → Steps flags n t (uniq l.list)
  open_new kind addresses l flags n t u c = record {
    closes = c;
    opens =
        open-Opens lib parse_url n c.table (difference (uniq l.list) (keys t))
          (difference-NoDup (uniq l.list) (keys t) (uniq-NoDup l.list)) c.unique
          (λ k new. ground (
            arith,
            c.reads k,
            contains-difference k (uniq l.list) (keys t),
            contains-keys k t,
            new,
          ))
          (λ k new. l.urls k (
            ground
              (arith, contains-difference k (uniq l.list) (keys t), contains-uniq k l.list, new)));
  }

  steps :
      (kind : Kind) (addresses : List Address) (l : Listed lib parse_url kind addresses)
      (flags : List (ℕ × Bool)) (n : ℕ) (t : Table)
      → NoDup (keys t)
      → Steps flags n t (uniq l.list)
  steps kind addresses l flags n t u = open_new kind addresses l flags n t u (
      close-Closes flags t (difference (keys t) (uniq l.list))
        (difference-NoDup (keys t) (uniq l.list) u) u
        (λ k out.
          ground (arith, contains-difference k (keys t) (uniq l.list), contains-keys k t, out)))

  -- The server at a key that is new is made to listen where `url.URL` reads in the key.
  abbrev pub Listens : Table → Table → List Effect → Type 0
  Listens t u effects =
      (k : Text) (i : ℕ)
      → lookup k t ≡ none
      → lookup k u ≡ some i
      → (url : Url) × (parse_url k ≡ some url)
        × (listened i (port_of url.port) (hostname_to_addr url.hostname) effects ≡ true)

  start_new :
      (flags : List (ℕ × Bool)) (n : ℕ) (t : Table) (ws : List Text) (st : Steps flags n t ws)
      → Listens t st.opens.table st.opens.effects
  start_new flags n t ws st k i missing found =
      elim (Bool-cases (contains k (difference ws (keys t)))) [
        | inl new ↦
            let (j, url, at, read, heard) = st.opens.listens k new in
            (
              url,
              read,
              subst
                  (λ m.
                    listened m (port_of url.port) (hostname_to_addr url.hostname) st.opens.effects
                    ≡ true)
                  (some_is j i (sym at ∙ found)) heard,
            )
        | inr old ↦ absurd (ground (arith, st.opens.keeps k old, st.closes.reads k, missing, found))
      ]

  at_none : {A : Type 0} → (o : Option A) → is_some o ≡ false → o ≡ none
  at_none none e = refl
  at_none (some a) e = cc e

  only_new :
      (flags : List (ℕ × Bool)) (n : ℕ) (t : Table) (ws : List Text) (st : Steps flags n t ws)
      (i : ℕ)
      → opened i st.opens.effects ≡ true
      → (k : Text) × (lookup k t ≡ none) × (lookup k st.opens.table ≡ some i)
  only_new flags n t ws st i heard =
      let (k, new, found) = st.opens.only i heard in
      (
        k,
        at_none (lookup k t)
            (ground (arith, new, contains-difference k ws (keys t), contains-keys k t)),
        found,
      )

  -- A listening server is at the key, and the key is not wanted.
  abbrev pub is_stopped : (Text → Bool) → List (ℕ × Bool) → Table → Text → ℕ → Bool
  is_stopped wants flags t k i =
      same_server (lookup k t) i && (is_listening flags i && not (wants k))

  stop_old :
      (kind : Kind) (addresses : List Address) (l : Listed lib parse_url kind addresses)
      (flags : List (ℕ × Bool)) (n : ℕ) (t : Table) (st : Steps flags n t (uniq l.list)) (k : Text)
      (i : ℕ)
      → stopped k i st.closes.effects ≡ is_stopped (requested lib addresses kind) flags t k i
  unfolding same_server
  stop_old kind addresses l flags n t st k i = ground (
    arith,
    st.closes.stops k i,
    contains-difference k (keys t) (uniq l.list),
    contains-keys k t,
    contains-uniq k l.list,
    l.members k,
  )

  -- What is called: `listen` for the new servers and no others, and `close` for the listening servers
  -- at keys that are not wanted and no others.
  pub record Calls (addresses : List Address) (s t : Server) (effects : List Effect) : Type 0 where
    pub listens : (kind : Kind) → Listens (table kind s) (table kind t) effects
    pub only :
        (i : ℕ)
        → opened i effects ≡ true
        → (kind : Kind) × (k : Text) × (lookup k (table kind s) ≡ none)
          × (lookup k (table kind t) ≡ some i)
    pub stops :
        (k : Text) (i : ℕ)
        → stopped k i effects ≡ (
            is_stopped (requested lib addresses wildcard) s.listening s.wildcards k i
            || is_stopped (requested lib addresses host) s.listening s.hosts k i)

  -- What `setAddresses` leaves of a Server.
  pub record Sets (addresses : List Address) (s : Server) : Type 0 where
    pub server : Server
    pub effects : List Effect
    pub runs : set_addresses lib parse_url addresses s ≡ some (server, effects)
    pub grows : s.next ≤ server.next
    pub follows :
        (kind : Kind)
        → Follows
            (requested lib addresses kind)
            s.next
            server.next
            (table kind s)
            (table kind server)
    pub valid : IsValid server
    pub calls : Calls addresses s server effects

  abbrev after : Server → Table → Table → ℕ → Server
  after s ws hs n = record s { wildcards = ws; hosts = hs; next = n }

  calls :
      (addresses : List Address) (s : Server) (lw : Listed lib parse_url wildcard addresses)
      (lh : Listed lib parse_url host addresses)
      (w : Steps s.listening s.next s.wildcards (uniq lw.list))
      (h : Steps s.listening w.opens.next s.hosts (uniq lh.list))
      → Calls addresses s
          (after s w.opens.table h.opens.table h.opens.next)
          (four w.closes.effects h.closes.effects w.opens.effects h.opens.effects)
  calls addresses s lw lh w h =
      let a = w.closes.effects in
      let b = h.closes.effects in
      let c = w.opens.effects in
      let d = h.opens.effects in
      record {
        listens =
            each
              (λ kind.
                Listens (table kind s)
                  (table kind (after s w.opens.table h.opens.table h.opens.next)) (four a b c d))
              (λ k i missing found.
                let (url, read, heard) =
                  start_new s.listening s.next s.wildcards (uniq lw.list) w k i missing found in
                (
                  url,
                  read,
                  ground (
                    arith,
                    heard,
                    listened_in i (port_of url.port) (hostname_to_addr url.hostname) a b c d,
                  ),
                ))
              (λ k i missing found.
                let (url, read, heard) =
                  start_new s.listening w.opens.next s.hosts (uniq lh.list) h k i missing found in
                (
                  url,
                  read,
                  ground (
                    arith,
                    heard,
                    listened_in i (port_of url.port) (hostname_to_addr url.hostname) a b c d,
                  ),
                ));
        only = λ i heard. elim (Bool-cases (opened i c)) [
          | inl first ↦
              let (k, missing, found) =
                only_new s.listening s.next s.wildcards (uniq lw.list) w i first in
              (wildcard, k, missing, found)
          | inr later ↦
              let (k, missing, found) =
                only_new s.listening w.opens.next s.hosts (uniq lh.list) h i (
                  ground (
                    arith,
                    heard,
                    later,
                    opened_in i a b c d,
                    w.closes.silent i,
                    h.closes.silent i,
                  )) in
              (host, k, missing, found)
        ];
        stops = λ k i.
            stopped_in k i a b c d
            ∙ ground (
              arith,
              stop_old wildcard addresses lw s.listening s.next s.wildcards w k i,
              stop_old host addresses lh s.listening w.opens.next s.hosts h k i,
              w.opens.unstopped k i,
              h.opens.unstopped k i,
            );
      }

  sets :
      (addresses : List Address) (s : Server) (lw : Listed lib parse_url wildcard addresses)
      (lh : Listed lib parse_url host addresses)
      (w : Steps s.listening s.next s.wildcards (uniq lw.list))
      (h : Steps s.listening w.opens.next s.hosts (uniq lh.list))
      → IsValid s
      → Sets addresses s
  sets addresses s lw lh w h v =
      let t = after s w.opens.table h.opens.table h.opens.next in
      let grown : s.next ≤ h.opens.next = omega (arith, w.opens.grows, h.opens.grows) in
      let fw : Refreshed s.next h.opens.next s.wildcards (uniq lw.list) w.opens.table =
        widen s.next s.next w.opens.next h.opens.next s.wildcards (uniq lw.list) w.opens.table
          (refresh-Refreshed s.listening s.next s.wildcards (uniq lw.list) w.closes w.opens)
          (le_refl s.next) h.opens.grows in
      let fh : Refreshed s.next h.opens.next s.hosts (uniq lh.list) h.opens.table =
        widen w.opens.next s.next h.opens.next h.opens.next s.hosts (uniq lh.list) h.opens.table
          (refresh-Refreshed s.listening w.opens.next s.hosts (uniq lh.list) h.closes h.opens)
          w.opens.grows (le_refl h.opens.next) in
      record {
        server = t;
        effects = w.closes.effects ++ (h.closes.effects ++ (w.opens.effects ++ h.opens.effects));
        runs =
            unfold set_addresses in
            rw (lw.runs, lh.runs, w.closes.runs, h.closes.runs, w.opens.runs, h.opens.runs) refl;
        grows = grown;
        follows =
            each (λ k. Follows (requested lib addresses k) s.next t.next (table k s) (table k t))
              (follow wildcard addresses lw s.next t.next s.wildcards t.wildcards fw)
              (follow host addresses lh s.next t.next s.hosts t.hosts fh);
        valid =
            each (λ k. IsTable t.next (table k t))
              (refresh-IsTable s.next s.next t.next s.wildcards (uniq lw.list) t.wildcards fw
                (v wildcard) grown)
              (refresh-IsTable s.next s.next t.next s.hosts (uniq lh.list) t.hosts fh (v host)
                grown);
        calls = calls addresses s lw lh w h;
      }

  -- For addresses that are well formed, `setAddresses` fails no assertion. Each table then serves
  -- exactly the keys of the addresses of its kind; a server that was there at such a key is the one that is
  -- there, and a server at any other key was created by the call. No key stands twice. The call makes
  -- exactly the servers that it created listen, where `url.URL` reads in their keys, and it closes
  -- exactly the listening servers at keys that no address asks for.
  pub set_addresses-Sets :
      (addresses : List Address) (s : Server)
      → All (WellFormed lib parse_url) addresses
      → IsValid s
      → Sets addresses s
  set_addresses-Sets addresses s good v =
      let lw = keys_of-Listed lib parse_url wildcard addresses good in
      let lh = keys_of-Listed lib parse_url host addresses good in
      let w = steps wildcard addresses lw s.listening s.next s.wildcards ((v wildcard).unique) in
      sets addresses s lw lh w
        (steps host addresses lh s.listening w.opens.next s.hosts ((v host).unique)) v

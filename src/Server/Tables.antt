-- ===== src/Server/Tables.antt =====
-- What `$close` and `$open` make of one table: neither fails an assertion where `setAddresses` and
-- `destroy` call it.
use shiny_server.Prelude.{
  ℕ, suc, ◌≤◌, ◌<◌, ◌≡◌, refl, Bool, true, false, List, [], ◌∷◌, ◌++◌, Option, none, some,
  if◌then◌else◌, Text, arith, Bool-cases, Option-cases, inl, inr, is_some, walked_eq, nat_eq,
  text_eq, text_eq_iff, text_eq_sound, subst, ap, ◌∙◌, ◌&&◌, ◌||◌,
}
use shiny_server.Prelude.Dict.{lookup, insert, remove, lookup-remove, lookup-insert}
use shiny_server.Prelude.Sets.{contains, keys, NoDup, keys-remove-NoDup, keys-insert-NoDup}
use shiny_server.Server.Effects.{
  stopped, stopped-append, opened, opened-append, listened, opened-do_close, stopped-do_close,
}
use shiny_server.Server.{
  Url, Table, Effect, listen, is_listening, close, do_close, same_server, open_keys, port_of,
}
use shiny_server.Server.Hostname.{hostname_to_addr}
use shiny_server.Router.Scores.{AddressLib}

pub same_server_refl : (i : ℕ) → same_server (some i) i ≡ true
unfolding same_server
same_server_refl i = ground arith

-- The outcome of closing the keys of a table.
pub record Closes (flags : List (ℕ × Bool)) (t : Table) (ks : List Text) : Type 0 where
  pub table : Table
  pub effects : List Effect
  pub runs : close flags t ks ≡ some (table, effects)
  pub unique : NoDup (keys table)
  pub reads : (k : Text) → lookup k table ≡ (if contains k ks then none else lookup k t)
  pub stops :
      (k : Text) (id : ℕ)
      → stopped k id effects
        ≡ (contains k ks && (same_server (lookup k t) id && is_listening flags id))
  pub silent : (id : ℕ) → opened id effects ≡ false

stops_cons :
    (flags : List (ℕ × Bool)) (t : Table) (key : Text) (ks : List Text) (i : ℕ)
    → lookup key t ≡ some i
    → (k : Text) (id : ℕ) (later : Bool)
    → later ≡ (contains k ks && (same_server (lookup k (remove key t)) id && is_listening flags id))
    → (stopped k id (do_close flags i key) || later)
      ≡ (contains k (key ∷ ks) && (same_server (lookup k t) id && is_listening flags id))
unfolding contains same_server
stops_cons flags t key ks i e k id later h = elim (Bool-cases (text_eq key k)) [
  | inl same ↦
      let there : lookup k t ≡ some i =
        subst (λ j. lookup j t ≡ some i) (text_eq_sound key k same) e in
      ground (
        arith,
        stopped-do_close flags i key k id,
        lookup-remove key k t,
        h,
        there,
        same,
        ap (is_listening flags) {x = i} {y = id},
      )
  | inr other ↦ ground (arith, stopped-do_close flags i key k id, lookup-remove key k t, h, other)
]

close-cons :
    (flags : List (ℕ × Bool)) (t : Table) (key : Text) (ks : List Text) (i : ℕ)
    → lookup key t ≡ some i
    → Closes flags (remove key t) ks
    → Closes flags t (key ∷ ks)
unfolding contains
close-cons flags t key ks i e c = record {
  table = c.table;
  effects = do_close flags i key ++ c.effects;
  runs = unfold close in rw (e, same_server_refl i, c.runs) refl;
  unique = c.unique;
  reads = λ k. ground (arith, c.reads k, lookup-remove key k t);
  stops = λ k id.
      stopped-append k id (do_close flags i key) c.effects
      ∙ stops_cons flags t key ks i e k id (stopped k id c.effects) (c.stops k id);
  silent = λ id. ground (
    arith,
    opened-append id (do_close flags i key) c.effects,
    opened-do_close flags i key id,
    c.silent id,
  );
}

still_there :
    (t : Table) (key : Text) (ks : List Text)
    → contains key ks ≡ false
    → ((k : Text) → contains k (key ∷ ks) ≡ true → is_some (lookup k t) ≡ true)
    → (k : Text) → contains k ks ≡ true
    → is_some (lookup k (remove key t)) ≡ true
unfolding contains
still_there t key ks fresh h k c =
    ground (arith, lookup-remove key k t, h k, text_eq_iff key k, fresh, c)

contains_first : (key : Text) (ks : List Text) → contains key (key ∷ ks) ≡ true
unfolding contains
contains_first key ks = ground (arith, text_eq_iff key key)

-- Closing distinct keys of the table runs to its end and removes exactly them.
pub close-Closes :
    (flags : List (ℕ × Bool)) (t : Table) (ks : List Text)
    → NoDup ks
    → NoDup (keys t)
    → ((k : Text) → contains k ks ≡ true → is_some (lookup k t) ≡ true)
    → Closes flags t ks
unfolding NoDup
close-Closes flags t [] d u h = record {
  table = t;
  effects = [];
  runs = unfold close in refl;
  unique = u;
  reads = λ k. unfold contains in refl;
  stops = λ k id. unfold contains in refl;
  silent = λ id. refl;
}
close-Closes flags t (key ∷ ks) d u h = elim (Option-cases (lookup key t)) [
  | inl missing ↦ cc (missing, h key (contains_first key ks))
  | inr (i, found) ↦ close-cons flags t key ks i found (
      close-Closes flags (remove key t) ks d.1 (keys-remove-NoDup key t u)
        (still_there t key ks d.0 h))
]

module _ (lib : AddressLib) (parse_url : Text → Option Url) where
  -- The outcome of opening the keys in a table.
  pub record Opens (id : ℕ) (t : Table) (ks : List Text) : Type 0 where
    pub next : ℕ
    pub table : Table
    pub effects : List Effect
    pub runs : open_keys lib parse_url id t ks ≡ some (next, table, effects)
    pub grows : id ≤ next
    pub unique : NoDup (keys table)
    pub keeps : (k : Text) → contains k ks ≡ false → lookup k table ≡ lookup k t
    pub adds :
        (k : Text)
        → contains k ks ≡ true
        → (i : ℕ) × (lookup k table ≡ some i) × (id ≤ i) × (i < next)
    pub listens :
        (k : Text)
        → contains k ks ≡ true
        → (i : ℕ) × (url : Url) × (lookup k table ≡ some i)
          × (parse_url k ≡ some url)
          × (listened i (port_of url.port) (hostname_to_addr url.hostname) effects ≡ true)
    pub only :
        (i : ℕ)
        → opened i effects ≡ true
        → (k : Text) × (contains k ks ≡ true) × (lookup k table ≡ some i)
    pub unstopped : (k : Text) (i : ℕ) → stopped k i effects ≡ false

  Opens-cons :
      (id : ℕ) (t : Table) (key : Text) (ks : List Text) (url : Url)
      → lookup key t ≡ none
      → parse_url key ≡ some url
      → contains key ks ≡ false
      → Opens (suc id) (insert key id t) ks
      → Opens id t (key ∷ ks)
  unfolding contains
  Opens-cons id t key ks url missing parsed fresh o = record {
    next = o.next;
    table = o.table;
    effects = listen id (port_of url.port) (hostname_to_addr url.hostname) ∷ o.effects;
    runs = unfold open_keys in rw (missing, parsed, o.runs) refl;
    grows = omega (arith, o.grows);
    unique = o.unique;
    keeps = λ k out. ground (arith, o.keeps k, lookup-insert key k id t, out);
    adds = λ k there. elim (Bool-cases (contains k ks)) [
      | inl later ↦
          let (i, found, low, high) = o.adds k later in (i, found, omega (arith, low), high)
      | inr now ↦ (
        id,
        ground (arith, o.keeps k, lookup-insert key k id t, there, now),
        omega arith,
        omega (arith, o.grows),
      )
    ];
    listens = λ k there. elim (Bool-cases (contains k ks)) [
      | inl later ↦
          let (i, u, found, read, heard) = o.listens k later in
          (i, u, found, read, ground (arith, heard))
      | inr now ↦
          let same : key ≡ k = text_eq_sound key k (ground (arith, there, now)) in
          (
            id,
            url,
            ground (arith, o.keeps k, lookup-insert key k id t, there, now),
            subst (λ j. parse_url j ≡ some url) same parsed,
            ground (
              arith,
              text_eq_iff (hostname_to_addr url.hostname) (hostname_to_addr url.hostname),
            ),
          )
    ];
    only = λ i heard. elim (Bool-cases (opened i o.effects)) [
      | inl later ↦ let (k, there, found) = o.only i later in (k, ground (arith, there), found)
      | inr now ↦ (
        key,
        ground (arith, text_eq_iff key key),
        ground (
          arith,
          heard,
          now,
          o.keeps key,
          fresh,
          lookup-insert key key id t,
          text_eq_iff key key,
        ),
      )
    ];
    unstopped = λ k i. ground (arith, o.unstopped k i);
  }

  still_missing :
      (id : ℕ) (t : Table) (key : Text) (ks : List Text)
      → contains key ks ≡ false
      → ((k : Text) → contains k (key ∷ ks) ≡ true → lookup k t ≡ none)
      → (k : Text) → contains k ks ≡ true
      → lookup k (insert key id t) ≡ none
  unfolding contains
  still_missing id t key ks fresh h k c =
      ground (arith, lookup-insert key k id t, h k, text_eq_iff key k, fresh, c)

  -- Opening distinct keys that the table does not have, and that are URLs, runs to its end, adds a
  -- new server at each of them and leaves the other keys alone.
  pub open-Opens :
      (id : ℕ) (t : Table) (ks : List Text)
      → NoDup ks
      → NoDup (keys t)
      → ((k : Text) → contains k ks ≡ true → lookup k t ≡ none)
      → ((k : Text) → contains k ks ≡ true → (url : Url) × (parse_url k ≡ some url))
      → Opens id t ks
  unfolding NoDup contains
  open-Opens id t [] d u h valid = record {
    next = id;
    table = t;
    effects = [];
    runs = unfold open_keys in refl;
    grows = omega arith;
    unique = u;
    keeps = λ k out. refl;
    adds = λ k there. cc there;
    listens = λ k there. cc there;
    only = λ i heard. cc heard;
    unstopped = λ k i. refl;
  }
  open-Opens id t (key ∷ ks) d u h valid =
      let first = contains_first key ks in
      let (url, parsed) = valid key first in
      Opens-cons id t key ks url (h key first) parsed d.0 (
        open-Opens (suc id) (insert key id t) ks d.1 (keys-insert-NoDup key id t u)
          (still_missing id t key ks d.0 h) (λ k c. valid k (ground (arith, c))))

-- ===== src/Server/Requests.antt =====
-- The keys that a list of addresses asks for.
use shiny_server.Prelude.{
  ◌≡◌, refl, Bool, true, false, not, ◌&&◌, ◌||◌, List, [], ◌∷◌, Option, none, some, if◌then◌else◌,
  Text, arith, Bool-cases, inl, inr, walked_eq, nat_eq, text_eq_sound, subst, All,
}
use shiny_server.Prelude.Sets.{contains}
use shiny_server.Server.{Url, Address, Kind, wildcard, host, address_to_key, keys_of}
use shiny_server.Router.Scores.{AddressLib, is_wildcard}

abbrev pub has_key : Text → Option Text → Bool
has_key k none = false
has_key k (some key) = walked_eq.beq key k

abbrev is_kind : Kind → Bool → Bool
is_kind wildcard b = b
is_kind host b = not b

abbrev is_wild : Kind → Bool
is_wild wildcard = true
is_wild host = false

picked :
    (kind : Kind) (b : Bool) (key : Text) (ks : List Text)
    → (if b
        then (if is_wild kind then key ∷ ks else ks)
        else (if is_wild kind then ks else key ∷ ks))
      ≡ (if is_kind kind b then key ∷ ks else ks)
picked wildcard true key ks = refl
picked wildcard false key ks = refl
picked host true key ks = refl
picked host false key ks = refl

module _ (lib : AddressLib) where
  -- Some address of the kind has the key.
  abbrev pub requested : List Address → Kind → Text → Bool
  requested [] kind k = false
  requested (a ∷ addresses) kind k =
      is_kind kind (is_wildcard lib a.address) && has_key k (address_to_key lib a)
      || requested addresses kind k

module _ (lib : AddressLib) (parse_url : Text → Option Url) where
  -- `normalize` does not throw on the address, and its key is a URL.
  abbrev pub WellFormed : Address → Type 0
  WellFormed a =
      (key : Text) × (address_to_key lib a ≡ some key) × ((url : Url) × (parse_url key ≡ some url))

  pub record Listed (kind : Kind) (addresses : List Address) : Type 0 where
    pub list : List Text
    pub runs : keys_of lib (is_wild kind) addresses ≡ some list
    pub members : (k : Text) → contains k list ≡ requested lib addresses kind k
    pub urls : (k : Text) → contains k list ≡ true → (url : Url) × (parse_url k ≡ some url)

  cons_urls :
      (key : Text) (ks : List Text)
      → ((url : Url) × (parse_url key ≡ some url))
      → ((k : Text) → contains k ks ≡ true → (url : Url) × (parse_url k ≡ some url))
      → (k : Text) → contains k (key ∷ ks) ≡ true
      → (url : Url) × (parse_url k ≡ some url)
  unfolding contains
  cons_urls key ks first rest k c = elim (Bool-cases (walked_eq.beq key k)) [
    | inl same ↦
        subst (λ j. (url : Url) × (parse_url j ≡ some url)) (text_eq_sound key k same) first
    | inr other ↦ rest k (ground (arith, c, other))
  ]

  cons-Listed :
      (kind : Kind) (a : Address) (addresses : List Address) (key : Text)
      → address_to_key lib a ≡ some key
      → ((url : Url) × (parse_url key ≡ some url))
      → Listed kind addresses
      → Listed kind (a ∷ addresses)
  unfolding contains keys_of
  cons-Listed kind a addresses key e valid rest =
      elim (Bool-cases (is_kind kind (is_wildcard lib a.address))) [
        | inl same ↦ record {
          list = key ∷ rest.list;
          runs =
              rw (e, rest.runs, picked kind (is_wildcard lib a.address) key rest.list, same) refl;
          members = λ k. rw (e, same) (ground (arith, rest.members k));
          urls = cons_urls key rest.list valid rest.urls;
        }
        | inr other ↦ record {
          list = rest.list;
          runs =
              rw (e, rest.runs, picked kind (is_wildcard lib a.address) key rest.list, other) refl;
          members = λ k. rw (e, other) (rest.members k);
          urls = rest.urls;
        }
      ]

  pub keys_of-Listed :
      (kind : Kind) (addresses : List Address) → All WellFormed addresses → Listed kind addresses
  unfolding contains keys_of
  keys_of-Listed kind [] h = record {
    list = [];
    runs = refl;
    members = λ k. refl;
    urls = λ k c. cc c;
  }
  keys_of-Listed kind (a ∷ addresses) ((key, e, valid), h) =
      cons-Listed kind a addresses key e valid (keys_of-Listed kind addresses h)

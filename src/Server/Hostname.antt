-- ===== src/Server/Hostname.antt =====
-- lib/core/iputil.js: an address as the host of a URL and back, and the normal form of an address.
use shiny_server.Prelude.{
  ℕ, ◌≡◌, ◌≢◌, refl, Bool, true, false, [], ◌∷◌, ◌++◌, Option, none, some, ◌==◌, if◌then◌else◌,
  Text, codes, All, arith, Bool-cases, inl, inr,
}
use shiny_server.Prelude.Chars.{is_line_end}
use shiny_server.Router.Scores.{AddressLib, is_valid6}

module _ (lib : AddressLib) where
  unfoldable pub normalize6 : Option lib.Address6 → Option Text
  normalize6 none = none
  normalize6 (some a) = some (lib.correct_form a ++ lib.zone a)

  -- `normalize`; nothing where it throws.
  unfoldable pub normalize : Text → Option Text
  unfolding normalize6
  normalize addr =
      if lib.is_address4 addr then some (lib.correct_form4 addr) else normalize6 (lib.address6 addr)

  unfoldable pub addr_to_hostname : Text → Text
  unfolding is_valid6
  addr_to_hostname addr =
      if is_valid6 lib (lib.address6 addr) then (b'[' ∷ addr) ++ codes "]" else addr

  unfoldable pub zone_of : Option lib.Address6 → Bool
  zone_of none = false
  zone_of (some a) = elim (lib.zone a) [ [] ↦ false | _ ∷ _ ↦ true ]

  -- `hasZone`
  unfoldable pub has_zone : Text → Bool
  unfolding zone_of
  has_zone addr = zone_of (lib.address6 addr)

unfoldable pub cons_some : ℕ → Option Text → Option Text
cons_some c none = none
cons_some c (some t) = some (c ∷ t)

-- What stands in front of a closing bracket at the end of a line.
unfoldable pub before_bracket : Text → Option Text
unfolding cons_some is_line_end
before_bracket [] = none
before_bracket (c ∷ []) = if c == b']' then some [] else none
before_bracket (c ∷ d ∷ cs) =
    let rest = before_bracket (d ∷ cs) in if is_line_end c then none else cons_some c rest

-- `m[1]`, which has at least one character, or the hostname itself.
unfoldable pub inner_or : Text → Option Text → Text
inner_or hostname none = hostname
inner_or hostname (some []) = hostname
inner_or hostname (some (c ∷ cs)) = c ∷ cs

-- `hostnameToAddr`: /^\[(.+)\]$/
unfoldable pub hostname_to_addr : Text → Text
unfolding inner_or before_bracket
hostname_to_addr [] = []
hostname_to_addr (c ∷ cs) = if c == b'[' then inner_or (c ∷ cs) (before_bracket cs) else c ∷ cs

before_bracket-close :
    (t : Text) → All (λ c. is_line_end c ≡ false) t → before_bracket (t ++ codes "]") ≡ some t
unfolding before_bracket cons_some
before_bracket-close [] h = refl
before_bracket-close (c ∷ []) h = rw (h.0, before_bracket) refl
before_bracket-close (c ∷ d ∷ t) h = rw (h.0, before_bracket-close (d ∷ t) h.1, cons_some) refl

-- An address without line ends and without a bracket at its start is read back from the host name
-- that it is written as, whatever version of address it is.
pub hostname_to_addr-addr_to_hostname :
    (lib : AddressLib) (c : ℕ) (cs : Text)
    → c ≢ b'['
    → All (λ x. is_line_end x ≡ false) (c ∷ cs)
    → hostname_to_addr (addr_to_hostname lib (c ∷ cs)) ≡ c ∷ cs
unfolding hostname_to_addr addr_to_hostname
hostname_to_addr-addr_to_hostname lib c cs ne h =
    elim (Bool-cases (is_valid6 lib (lib.address6 (c ∷ cs)))) [
      | inl six ↦ rw (six, before_bracket-close (c ∷ cs) h, inner_or) refl
      | inr other ↦ ground arith
    ]

-- ===== src/Proxy/Multiplex/Laws.antt =====
-- Messages are read back, and packets of one channel leave the others alone.
use shiny_server.Prelude.{
  ℕ, ◌≡◌, ◌≢◌, refl, ap, ◌∙◌, sym, Bool, true, false, [], ◌∷◌, ◌++◌, Option, none, some, Text,
  arith, All, append-nil, append_assoc, walked_eq, Option-cases, inl, inr, text_eq_iff,
}
use shiny_server.Prelude.Dict.{lookup, insert, lookup-insert, lookup-insert_ne}
use shiny_server.Prelude.Chars.{is_digit, is_line_end}
use shiny_server.Proxy.Multiplex.{
  Method, message, open_channel, close_channel, Packet, behind_id, match_digits, search_lines,
  parse_multiplex_data, format_message, format_open_event, format_close_event, Channel, Channels,
  data_event, close_event, dispatch,
}

abbrev letter : Method → ℕ
letter message = b'm'
letter open_channel = b'o'
letter close_channel = b'c'

-- The wire form of a packet.
abbrev wire : Method → Text → Text → Text
wire k id payload = id ++ (b'|' ∷ letter k ∷ b'|' ∷ payload)

behind_id-wire :
    (k : Method) (d : ℕ) (ds payload : Text)
    → behind_id (d ∷ ds) (b'|' ∷ letter k ∷ b'|' ∷ payload)
      ≡ some (record { id = d ∷ ds; method = k; payload = payload })
unfolding behind_id
behind_id-wire message d ds payload = refl
behind_id-wire open_channel d ds payload = refl
behind_id-wire close_channel d ds payload = refl

match_digits-wire :
    (k : Method) (d : ℕ) (acc ds payload : Text)
    → All (λ c. is_digit c ≡ true) ds
    → match_digits (d ∷ acc) (wire k ds payload)
      ≡ some (record { id = d ∷ (acc ++ ds); method = k; payload = payload })
unfolding match_digits
match_digits-wire k d acc [] payload h =
    behind_id-wire k d acc payload
    ∙ ap (λ i. some (record { id = d ∷ i; method = k; payload = payload })) (sym (append-nil acc))
match_digits-wire k d acc (c ∷ ds) payload h =
    rw (h.0, match_digits)
      (match_digits-wire k d (acc ++ (c ∷ [])) ds payload h.1
        ∙ ap (λ i. some (record { id = d ∷ i; method = k; payload = payload }))
            (append_assoc acc (c ∷ []) ds))

search_lines-start :
    (c : ℕ) (cs : Text) (p : Packet)
    → match_digits [] (c ∷ cs) ≡ some p
    → search_lines true (c ∷ cs) ≡ some p
unfolding search_lines
search_lines-start c cs p e = rw e

search_lines-wire :
    (k : Method) (d : ℕ) (ds payload : Text)
    → All (λ c. is_digit c ≡ true) (d ∷ ds)
    → search_lines true (wire k (d ∷ ds) payload)
      ≡ some (record { id = d ∷ ds; method = k; payload = payload })
search_lines-wire k d ds payload h =
    search_lines-start d _ _
      (unfold match_digits in rw h.0 (match_digits-wire k d [] ds payload h.1))

parse_of_search :
    (json : Text → Option Text) (msg : Text) (p : Packet) (v : Text)
    → search_lines true msg ≡ some p
    → json p.payload ≡ some v
    → parse_multiplex_data json msg
      ≡ some (record {
        id = p.id;
        method = p.method;
        payload = elim p.method [ close_channel ↦ v | _ ↦ p.payload ];
      })
unfolding parse_multiplex_data
parse_of_search json msg p v e j = ground arith

-- What a channel writes is what the other side reads: for every nonempty decimal id, a formatted
-- message or open event parses to its id and payload, and a close event to the value that its
-- text stands for.
pub parse-format :
    (json : Text → Option Text) (d : ℕ) (ds payload v : Text)
    → All (λ c. is_digit c ≡ true) (d ∷ ds)
    → json payload ≡ some v
    → (parse_multiplex_data json (format_message (d ∷ ds) payload)
        ≡ some (record { id = d ∷ ds; method = message; payload = payload }))
      × (parse_multiplex_data json (format_open_event (d ∷ ds) payload)
          ≡ some (record { id = d ∷ ds; method = open_channel; payload = payload }))
      × (parse_multiplex_data json (format_close_event (d ∷ ds) payload)
          ≡ some (record { id = d ∷ ds; method = close_channel; payload = v }))
unfolding format_message format_open_event format_close_event
parse-format json d ds payload v h j = (
  parse_of_search json _ _ v (search_lines-wire message d ds payload h) j,
  parse_of_search json _ _ v (search_lines-wire open_channel d ds payload h) j,
  parse_of_search json _ _ v (search_lines-wire close_channel d ds payload h) j,
)

search_lines-skip :
    (junk rest : Text) (start : Bool)
    → All (λ c. is_line_end c ≡ false) junk
    → start ≡ false
    → search_lines start (junk ++ (b'\n' ∷ rest)) ≡ search_lines true rest
unfolding search_lines
search_lines-skip [] rest start h s = ground arith
search_lines-skip (c ∷ junk) rest start h s =
    rw s (search_lines-skip junk rest (is_line_end c) h.1 h.0)

not_digit-none : (c : ℕ) (cs : Text) → is_digit c ≡ false → match_digits [] (c ∷ cs) ≡ none
unfolding match_digits
not_digit-none c cs h = rw h

search_lines-junk :
    (c : ℕ) (cs : Text)
    → match_digits [] (c ∷ cs) ≡ none
    → search_lines true (c ∷ cs) ≡ search_lines (is_line_end c) cs
unfolding search_lines
search_lines-junk c cs e = rw e

parse-search :
    (json : Text → Option Text) (a b : Text)
    → search_lines true a ≡ search_lines true b
    → parse_multiplex_data json a ≡ parse_multiplex_data json b
unfolding parse_multiplex_data
parse-search json a b e = rw (e, parse_multiplex_data)

-- A first line that is not empty and does not begin with a digit is skipped: the message
-- parses as the text behind that line does.
pub parse-junk :
    (json : Text → Option Text) (c : ℕ) (junk msg : Text)
    → is_digit c ≡ false
    → All (λ x. is_line_end x ≡ false) (c ∷ junk)
    → parse_multiplex_data json ((c ∷ junk) ++ (b'\n' ∷ msg)) ≡ parse_multiplex_data json msg
parse-junk json c junk msg d h = parse-search json _ msg (
    search_lines-junk c (junk ++ (b'\n' ∷ msg)) (not_digit-none c (junk ++ (b'\n' ∷ msg)) d)
    ∙ search_lines-skip junk msg (is_line_end c) h.1 h.0)

-- A packet of one channel leaves every other channel as it was.
pub lookup-dispatch :
    (resolve : Text → Text) (p : Packet) (j : Text) (t : Channels)
    → j ≢ p.id
    → lookup j (dispatch resolve p t).0 ≡ lookup j t
unfolding dispatch
lookup-dispatch resolve p j t ne = elim (Option-cases (lookup p.id t)) [
  | inl missing ↦
      ground
        (arith, lookup-insert_ne p.id j (record { is_open = true; url = resolve p.payload }) t ne)
  | inr (c, found) ↦ ground (arith, lookup-insert_ne p.id j (record c { is_open = false }) t ne)
]

-- After the client has closed a channel, its entry stays in the table: a later message for it is
-- still raised as data, and a request to open the id again is ignored.
dispatch-closed :
    (resolve : Text → Text) (id v msg url : Text) (c : Channel) (t : Channels)
    → lookup id t ≡ some c
    → (u : Channels) × (dispatch resolve (record { id = id; method = close_channel; payload = v }) t
        ≡ (u, close_event id v ∷ []))
      × (dispatch resolve (record { id = id; method = message; payload = msg }) u
          ≡ (u, data_event id msg ∷ []))
      × (dispatch resolve (record { id = id; method = open_channel; payload = url }) u ≡ (u, []))
unfolding dispatch
dispatch-closed resolve id v msg url c t found =
    let u = insert id (record c { is_open = false }) t in
    let there : lookup id u ≡ some (record c { is_open = false }) =
      ground (arith, lookup-insert id id (record c { is_open = false }) t, text_eq_iff id id) in
    (u, rw (found, dispatch), rw (there, dispatch), rw (there, dispatch))

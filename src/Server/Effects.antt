-- ===== src/Server/Effects.antt =====
-- What the effects of a Server stop and start.
use shiny_server.Prelude.{
  ℕ, ◌≡◌, refl, Bool, false, List, [], ◌∷◌, ◌++◌, Text, arith, Bool-cases, inl, inr, nat_eq,
  walked_eq, text_eq, ◌&&◌, ◌||◌, ◌==◌,
}
use shiny_server.Server.{Effect, stop, listen, is_listening, do_close}

-- The effects stop the server at the key.
abbrev is_stop : Text → ℕ → Effect → Bool
is_stop key id (stop k i) = text_eq k key && i == id
is_stop key id (listen i port addr) = false

abbrev pub stopped : Text → ℕ → List Effect → Bool
stopped key id [] = false
stopped key id (e ∷ es) = is_stop key id e || stopped key id es

pub stopped-append :
    (key : Text) (id : ℕ) (xs ys : List Effect)
    → stopped key id (xs ++ ys) ≡ (stopped key id xs || stopped key id ys)
stopped-append key id [] ys = refl
stopped-append key id (x ∷ xs) ys = ground (arith, stopped-append key id xs ys)

-- The effects make the server with the number listen at the port and the address, or anywhere.
abbrev is_listen : ℕ → ℕ → Text → Effect → Bool
is_listen id port addr (stop k i) = false
is_listen id port addr (listen i p a) = i == id && (p == port && text_eq a addr)

abbrev pub listened : ℕ → ℕ → Text → List Effect → Bool
listened id port addr [] = false
listened id port addr (e ∷ es) = is_listen id port addr e || listened id port addr es

abbrev is_opened : ℕ → Effect → Bool
is_opened id (stop k i) = false
is_opened id (listen i p a) = i == id

abbrev pub opened : ℕ → List Effect → Bool
opened id [] = false
opened id (e ∷ es) = is_opened id e || opened id es

pub listened-append :
    (id port : ℕ) (addr : Text) (xs ys : List Effect)
    → listened id port addr (xs ++ ys) ≡ (listened id port addr xs || listened id port addr ys)
listened-append id port addr [] ys = refl
listened-append id port addr (x ∷ xs) ys = ground (arith, listened-append id port addr xs ys)

pub opened-append :
    (id : ℕ) (xs ys : List Effect) → opened id (xs ++ ys) ≡ (opened id xs || opened id ys)
opened-append id [] ys = refl
opened-append id (x ∷ xs) ys = ground (arith, opened-append id xs ys)

pub opened-do_close :
    (flags : List (ℕ × Bool)) (i : ℕ) (k : Text) (id : ℕ) → opened id (do_close flags i k) ≡ false
unfolding do_close
opened-do_close flags i k id = elim (Bool-cases (is_listening flags i)) [
  | inl on ↦ rw on refl
  | inr off ↦ rw off refl
]

pub stopped-do_close :
    (flags : List (ℕ × Bool)) (i : ℕ) (k key : Text) (id : ℕ)
    → stopped key id (do_close flags i k) ≡ (is_listening flags i && (text_eq k key && i == id))
unfolding do_close
stopped-do_close flags i k key id = elim (Bool-cases (is_listening flags i)) [
  | inl on ↦ rw on (ground arith)
  | inr off ↦ rw off refl
]

-- The effects of the four steps.
abbrev pub four : List Effect → List Effect → List Effect → List Effect → List Effect
four a b c d = a ++ (b ++ (c ++ d))

pub listened_in :
    (id port : ℕ) (addr : Text) (a b c d : List Effect)
    → listened id port addr (four a b c d) ≡ (
        listened id port addr a
        || (listened id port addr b || (listened id port addr c || listened id port addr d)))
listened_in id port addr a b c d = ground (
  arith,
  listened-append id port addr a (b ++ (c ++ d)),
  listened-append id port addr b (c ++ d),
  listened-append id port addr c d,
)

pub opened_in :
    (id : ℕ) (a b c d : List Effect)
    → opened id (four a b c d) ≡ (opened id a || (opened id b || (opened id c || opened id d)))
opened_in id a b c d =
    ground
      (arith, opened-append id a (b ++ (c ++ d)), opened-append id b (c ++ d), opened-append id c d)

pub stopped_in :
    (k : Text) (id : ℕ) (a b c d : List Effect)
    → stopped k id (four a b c d)
      ≡ (stopped k id a || (stopped k id b || (stopped k id c || stopped k id d)))
stopped_in k id a b c d = ground (
  arith,
  stopped-append k id a (b ++ (c ++ d)),
  stopped-append k id b (c ++ d),
  stopped-append k id c d,
)

-- ===== src/Network/Accept.antt =====
-- accept_incoming_connections and connection_close of src/network/network.c: the list of clients
-- and its count.
use stronk.Base.{
  ℕ, ◌+◌, ◌-◌, ◌^◌, ◌<◌, ◌≡◌, ◌↔◌, ◌⊎◌, inl, inr, subst, refl, ap, arith, Bool, true, false, not,
  ◌==◌, u64,
}
use stronk.Base.{
  Option, none, some, List, [], ◌∷◌, ◌++◌, length, length-append, if◌then◌else◌, Bool-cases,
}
use stronk.Base.{Outcome, ok, fault, exited}
use stronk.Connection.{Closing, mcpr_connection_close}
use stronk.Session.{Session, new_session}
use stronk.Network.{Net}

-- The calls behind `accept` that may fail: true where they succeed.
pub record Calls : Type 0 where
  pub nonblocking : Bool
  pub opened : Bool
  pub unbuffered : Bool
  pub created : Bool
  pub allocated : Bool
  pub appended : Bool

-- What `accept` answers: EAGAIN or EWOULDBLOCK; ECONNABORTED, behind which the code runs on with
-- the descriptor -1; another error; or a connection, with the address of its struct connection.
pub data Accepted : Type 0 where
  would_block connection_aborted error : Accepted
  connected : (address : ℕ) → Calls → Accepted

-- What is done with a connection: it is added, or dropped, with so many calls of `close` on its
-- descriptor, by `close` or by `fclose`.
pub data Turn : Type 0 where
  added : Turn
  dropped : (closes : ℕ) → Turn

unfoldable pub turn : Calls → Turn
turn c =
    if not c.nonblocking
    then dropped 1
    else if not c.opened
    then dropped 0
    else if not c.unbuffered
    then dropped 0
    else if not c.created
    then dropped 1
    else if not c.allocated
    then dropped 2
    else if not c.appended
    then dropped 2
    else added

abbrev pub after_turn : Turn → ℕ → ℕ → Net → Net
after_turn added address time net = record {
  clients = net.clients ++ ((address, new_session time) ∷ []);
  client_count = u64 (net.client_count + 1);
}
after_turn (dropped closes) address time net = net

-- The answers of `accept`, up to the first that ends the loop.
unfoldable pub accept_incoming_connections : ℕ → List Accepted → Net → Net
unfolding turn
accept_incoming_connections time [] net = net
accept_incoming_connections time (Accepted.would_block ∷ rest) net = net
accept_incoming_connections time (Accepted.connection_aborted ∷ rest) net =
    accept_incoming_connections time rest net
accept_incoming_connections time (Accepted.error ∷ rest) net =
    accept_incoming_connections time rest net
accept_incoming_connections time (Accepted.connected address calls ∷ rest) net =
    accept_incoming_connections time rest (after_turn (turn calls) address time net)

abbrev pub find : ℕ → List (ℕ × Session) → Option Session
find address [] = none
find address ((a, s) ∷ rest) = if a == address then some s else find address rest

-- The first entry with the address is taken out.
abbrev pub remove : ℕ → List (ℕ × Session) → List (ℕ × Session)
remove address [] = []
remove address ((a, s) ∷ rest) = if a == address then rest else (a, s) ∷ remove address rest

abbrev after_closing : Closing → Net → Outcome Net
after_closing (Closing.closed conn) net = ok net
after_closing (Closing.stuck frames x) net = fault x

abbrev close_found : Option Session → ℕ → Option (List ℕ) → Net → Outcome Net
close_found none address reason net = fault exited
close_found (some s) address reason net =
    after_closing (mcpr_connection_close s.conn reason) (record {
      clients = remove address net.clients;
      client_count = u64 (net.client_count + (2 ^ 64 - 1));
    })

-- A client that is not in the list ends the program.
unfoldable pub connection_close : ℕ → Option (List ℕ) → Net → Outcome Net
unfolding mcpr_connection_close
connection_close address reason net = close_found (find address net.clients) address reason net

-- The count is the number of clients, and fits a `size_t`.
pub record IsCounted (net : Net) : Type 0 where
  pub counted : net.client_count ≡ length net.clients
  pub fits : length net.clients < 2 ^ 64

-- Whatever `accept` and the calls behind it answer, the count stays the number of clients, if the
-- clients and the answers together are fewer than 2 ^ 64.
pub accept_incoming_connections-IsCounted :
    (time : ℕ) (answers : List Accepted) (net : Net)
    → IsCounted net
    → length net.clients + length answers < 2 ^ 64
    → IsCounted (accept_incoming_connections time answers net)
unfolding accept_incoming_connections
accept_incoming_connections-IsCounted time [] net c room = c
accept_incoming_connections-IsCounted time (Accepted.would_block ∷ rest) net c room = c
accept_incoming_connections-IsCounted time (Accepted.connection_aborted ∷ rest) net c room =
    accept_incoming_connections-IsCounted time rest net c (omega arith)
accept_incoming_connections-IsCounted time (Accepted.error ∷ rest) net c room =
    accept_incoming_connections-IsCounted time rest net c (omega arith)
accept_incoming_connections-IsCounted time (Accepted.connected a calls ∷ rest) net c room =
    by_turn (turn calls)
      (λ net' c' room'. accept_incoming_connections-IsCounted time rest net' c' room')
  where
    by_turn :
        (t : Turn)
        → ((net' : Net)
            → IsCounted net'
            → length net'.clients + length rest < 2 ^ 64
            → IsCounted (accept_incoming_connections time rest net'))
        → IsCounted (accept_incoming_connections time rest (after_turn t a time net))
    by_turn added go =
        let more = length-append net.clients ((a, new_session time) ∷ []) in
        go _ (record { counted = omega (arith, more, c.counted, c.fits); fits = omega arith })
          (omega arith)
    by_turn (dropped n) go = go net c (omega arith)

-- What stands before and behind the client with an address, which is the first with it.
pub record Splits (address : ℕ) (s : Session) (l rest : List (ℕ × Session)) : Type 0 where
  pub before : List (ℕ × Session)
  pub behind : List (ℕ × Session)
  pub first : find address before ≡ none
  pub whole : l ≡ before ++ ((address, s) ∷ behind)
  pub left : rest ≡ before ++ behind

remove-Splits :
    (a : ℕ) (l : List (ℕ × Session)) (s : Session) → find a l ≡ some s → Splits a s l (remove a l)
remove-Splits a [] s e = absurd (cc)
remove-Splits a ((b, t) ∷ l) s e = elim (Bool-cases (b == a)) [
  | inl here ↦
      let found : some t ≡ some s = subst (λ x. (if x then some t else find a l) ≡ some s) here e in
      let same : t ≡ s = cc in
      let at : b ≡ a = ground (arith, here) in
      rw (here, at, same)
        (record { before = []; behind = l; first = refl; whole = refl; left = refl })
  | inr away ↦
      let further : find a l ≡ some s =
        subst (λ x. (if x then some t else find a l) ≡ some s) away e in
      let split = remove-Splits a l s further in
      rw away (record {
        before = (b, t) ∷ split.before;
        behind = split.behind;
        first = rw away split.first;
        whole = ap (λ m. (b, t) ∷ m) split.whole;
        left = ap (λ m. (b, t) ∷ m) split.left;
      })
]

length-Splits :
    {address : ℕ} {s : Session} {l rest : List (ℕ × Session)}
    → Splits address s l rest
    → length rest + 1 ≡ length l
length-Splits {address} {s} split =
    rw (split.whole, split.left)
      (omega (
        arith,
        length-append split.before ((address, s) ∷ split.behind),
        length-append split.before split.behind,
      ))

closed_only : (c : Closing) (net after : Net) → after_closing c net ≡ ok after → net ≡ after
closed_only (Closing.closed conn) net after e = cc
closed_only (Closing.stuck frames x) net after e = absurd (cc)

close_found-IsCounted :
    (o : Option Session) (address : ℕ) (reason : Option (List ℕ)) (net after : Net)
    → find address net.clients ≡ o
    → IsCounted net
    → close_found o address reason net ≡ ok after
    → IsCounted after × (s : Session) × Splits address s net.clients after.clients
close_found-IsCounted none address reason net after f c e = absurd (cc)
close_found-IsCounted (some s) address reason net after f c e =
    let split = remove-Splits address net.clients s f in
    let less = length-Splits split in
    subst (λ n. IsCounted n × (t : Session) × Splits address t net.clients n.clients)
      (closed_only (mcpr_connection_close s.conn reason) _ after e)
      (
        record { counted = omega (arith, c.counted, c.fits, less); fits = omega (arith, c.fits) },
        s,
        split,
      )

-- Where connection_close returns on a list whose count is right, the client was in the list, the
-- first with its address is taken out and every other one stays in its place, and the count is
-- again the number of clients.
pub connection_close-IsCounted :
    (address : ℕ) (reason : Option (List ℕ)) (net after : Net)
    → IsCounted net
    → connection_close address reason net ≡ ok after
    → IsCounted after × (s : Session) × Splits address s net.clients after.clients
unfolding connection_close
connection_close-IsCounted address reason net after c e =
    close_found-IsCounted (find address net.clients) address reason net after refl c e

-- A connection that is not added is closed exactly once where the descriptor could not be made
-- nonblocking or no connection object was made; otherwise it leaks, or is closed twice.
pub turn_closes_once_iff :
    (c : Calls)
    → (turn c ≡ dropped 1) ↔ (
        (c.nonblocking ≡ false) ⊎ ((c.opened ≡ true) × (c.unbuffered ≡ true) × (c.created ≡ false)))
unfolding turn
turn_closes_once_iff c = (λ e. ground arith, λ e. ground arith)

-- ===== src/Network/Batches.antt =====
-- serve_clients and serve_client_batch of src/network/network.c: the clients shared out among the
-- threads of the pool.
use stronk.Base.{ℕ, zero, suc, ◌+◌, ◌*◌, ◌/◌, ◌%◌, ◌^◌, ◌≤◌, ◌<◌, ◌≡◌, refl, sym, arith}
use stronk.Base.{
  List, [], ◌∷◌, ◌++◌, append-nil, length, length-drop, take-long, split_at, take, drop, ltb, ◌==◌,
  if◌then◌else◌, u32,
}
use stronk.Base.{true, false, Bool-cases, inl, inr, Outcome, ok, fault, zero_divide}

ltb→le : (a b : ℕ) → ltb a b ≡ false → b ≤ a
ltb→le a b h = ground arith

ltb→lt : (a b : ℕ) → ltb a b ≡ true → a < b
ltb→lt a b h = ground arith

-- The number of clients of a batch: the last thread gets the rest too.
abbrev pub share : ℕ → ℕ → ℕ → ℕ
share left conns_per_thread rest = u32 (conns_per_thread + (if left == 0 then rest else 0))

module _ {A : Type 0} where
  -- The clients that serve_client_batch updates: `amount` of them from entry `index` on.
  unfoldable pub batch : List A → ℕ → ℕ → List A
  batch clients index amount = take amount (drop index clients)

  -- The loop over the threads, `left` of them to come behind this one. An index behind the last
  -- entry gives no batch.
  unfoldable pub batch_loop : ℕ → ℕ → ℕ → ℕ → List A → List (List A)
  unfolding batch
  batch_loop zero conns_per_thread rest index clients = []
  batch_loop (suc left) conns_per_thread rest index clients =
      let amount = share left conns_per_thread rest in
      let given =
        batch clients index amount
        ∷ batch_loop left conns_per_thread rest (u32 (index + amount)) clients in
      let skipped = batch_loop left conns_per_thread rest index clients in
      if ltb index (length clients) then given else skipped

  unfoldable pub serve_clients : ℕ → ℕ → List A → Outcome (List (List A))
  unfolding batch_loop
  serve_clients threadcount client_count clients =
      if threadcount == 0
      then fault zero_divide
      else ok (
          batch_loop threadcount (u32 (client_count / threadcount))
            (u32 (client_count % threadcount)) 0 clients)

  abbrev pub concat : List (List A) → List A
  concat [] = []
  concat (l ∷ ls) = l ++ concat ls

  drop-over : (n : ℕ) (l : List A) → length l ≤ n → drop n l ≡ []
  drop-over zero [] h = refl
  drop-over (suc n) [] h = refl
  drop-over zero (x ∷ l) h = absurd (omega arith)
  drop-over (suc n) (x ∷ l) h = drop-over n l (omega arith)

  batch_loop-within :
      (left per rest index : ℕ) (clients : List A)
      → ltb index (length clients) ≡ true
      → batch_loop (suc left) per rest index clients
        ≡ batch clients index (share left per rest)
          ∷ batch_loop left per rest (u32 (index + share left per rest)) clients
  unfolding batch_loop
  batch_loop-within left per rest index clients e = rw e refl

  batch_loop-beyond :
      (left per rest index : ℕ) (clients : List A)
      → ltb index (length clients) ≡ false
      → batch_loop (suc left) per rest index clients ≡ batch_loop left per rest index clients
  unfolding batch_loop
  batch_loop-beyond left per rest index clients e = rw e refl

  batch_loop-zero :
      (per rest index : ℕ) (clients : List A) → batch_loop 0 per rest index clients ≡ []
  unfolding batch_loop
  batch_loop-zero per rest index clients = refl

  -- What is left from `index` on is shared out, where the shares make up the whole.
  concat-batch_loop :
      (left per rest index : ℕ) (clients : List A)
      → length clients < 2 ^ 32
      → index + suc left * per + rest ≡ length clients
      → concat (batch_loop (suc left) per rest index clients) ≡ drop index clients
  unfolding batch
  concat-batch_loop zero per rest index clients small e =
      elim (Bool-cases (ltb index (length clients))) [
        | inl within ↦
            let whole : u32 (per + rest) ≡ per + rest = omega arith in
            rw
              (
                batch_loop-within 0 per rest index clients within,
                batch_loop-zero,
                whole,
                append-nil (take (per + rest) (drop index clients)),
              )
              (take-long (per + rest) (drop index clients)
                (omega (arith, length-drop index clients, ltb→lt _ _ within)))
        | inr beyond ↦
            rw (batch_loop-beyond 0 per rest index clients beyond, batch_loop-zero)
              (sym (drop-over index clients (ltb→le _ _ beyond)))
      ]
  concat-batch_loop (suc left) per rest index clients small e =
      let one : suc (suc left) * per ≡ per + suc left * per = grind arith in
      elim (Bool-cases (ltb index (length clients))) [
        | inl within ↦
            let amount : u32 (per + 0) ≡ per = omega arith in
            let more : (suc left == 0) ≡ false = ground arith in
            let next : u32 (index + per) ≡ index + per = omega arith in
            rw
              (
                batch_loop-within (suc left) per rest index clients within,
                more,
                amount,
                next,
                concat-batch_loop left per rest (index + per) clients small (omega arith),
              )
              (split_at index per clients)
        | inr beyond ↦
            rw (batch_loop-beyond (suc left) per rest index clients beyond) (
              concat-batch_loop left per rest index clients small
                (omega (arith, ltb→le _ _ beyond)))
      ]

  length-batch_loop :
      (left per rest index : ℕ) (clients : List A)
      → length (batch_loop left per rest index clients) ≤ left
  unfolding batch_loop
  length-batch_loop zero per rest index clients = omega arith
  length-batch_loop (suc left) per rest index clients =
      elim (Bool-cases (ltb index (length clients))) [
        | inl within ↦ rw within (omega (arith, length-batch_loop left per rest _ clients))
        | inr beyond ↦ rw beyond (omega (arith, length-batch_loop left per rest index clients))
      ]

  -- The threads together serve every client once, in the order of the list, if there is a thread
  -- and the count is the number of clients, which an `unsigned int` holds.
  pub serve_clients-concat :
      (threads : ℕ) (clients : List A)
      → 0 < threads
      → threads < 2 ^ 32
      → length clients < 2 ^ 32
      → (batches : List (List A)) × (serve_clients threads (length clients) clients ≡ ok batches)
        × (concat batches ≡ clients)
        × (length batches ≤ threads)
  unfolding serve_clients
  serve_clients-concat zero clients h few small = absurd (omega arith)
  serve_clients-concat (suc n) clients h few small =
      let len = length clients in
      let some_thread : (suc n == 0) ≡ false = ground arith in
      let quotient : u32 (len / suc n) ≡ len / suc n = grind arith in
      let remainder : u32 (len % suc n) ≡ len % suc n = grind arith in
      let whole : 0 + suc n * (len / suc n) + len % suc n ≡ len = grind arith in
      rw (some_thread, quotient, remainder)
        (
          batch_loop (suc n) (len / suc n) (len % suc n) 0 clients,
          refl,
          concat-batch_loop n (len / suc n) (len % suc n) 0 clients small whole,
          length-batch_loop (suc n) (len / suc n) (len % suc n) 0 clients,
        )

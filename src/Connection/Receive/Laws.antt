-- ===== src/Connection/Receive/Laws.antt =====
-- What update_receiving_buffer of src/mcpr/connection.c leaves in the buffer.
use stronk.Base.{
  ℕ, ◌+◌, ◌≤◌, ◌≡◌, refl, ap, ◌∙◌, sym, arith, true, false, ltb, Bool-cases, inl, inr,
}
use stronk.Base.{
  List, [], ◌∷◌, ◌++◌, length, take, drop, replicate, map, length-append, length-take, length-drop,
}
use stronk.Base.{take-append_le, take-length_add, take-length_append, append_assoc, append-nil}
use stronk.Base.{Option, some, over_write}
use stronk.Connection.{Conn, Receiving, with_buffer, mcpr_connection_new}
use stronk.Connection.Receive.{
  Event, got, updated, stopped, with_room, stores, plain_loop, encrypted_loop,
}

abbrev pub valid : Receiving → List ℕ
valid buf = take buf.size buf.content

-- The memory has `max_size` bytes, and `size` of them are in use.
abbrev pub IsValid : Receiving → Type 0
IsValid buf = (length buf.content ≡ buf.max_size) × (buf.size ≤ buf.max_size)

room_lem :
    (buf : Receiving)
    → IsValid buf
    → (valid (with_room buf) ≡ valid buf)
      × IsValid (with_room buf)
      × ((with_room buf).size ≡ buf.size)
      × (buf.size + 1 ≤ (with_room buf).max_size)
room_lem buf h = elim (Bool-cases (ltb buf.max_size (buf.size + 1))) [
  | inl more ↦ rw more (
    take-append_le buf.size buf.content (replicate 256 0) (omega (arith, h.0, h.1)),
    (omega (arith, length-append buf.content (replicate 256 0), h.0), omega (arith, h.1)),
    refl,
    omega (arith, h.1),
  )
  | inr enough ↦ rw enough (refl, h, refl, ground arith)
]

stores_lem :
    (buf : Receiving) (bytes : List ℕ)
    → IsValid buf
    → buf.size + length bytes ≤ buf.max_size
    → (valid (stores buf bytes (length bytes)) ≡ valid buf ++ bytes)
      × IsValid (stores buf bytes (length bytes))
stores_lem buf bytes h room =
    let front = take buf.size buf.content in
    let size : length front ≡ buf.size =
      omega (arith, length-take buf.size buf.content, h.0, h.1) in
    let rest = drop (buf.size + length bytes) buf.content in
    (
      ap (λ (k : ℕ). take (k + length bytes) (front ++ (bytes ++ rest))) (sym size)
          ∙ take-length_add front (bytes ++ rest) (length bytes)
          ∙ ap (λ l. front ++ l) (take-length_append bytes rest),
      (
        omega (
          arith,
          length-append front (bytes ++ rest),
          length-append bytes rest,
          length-drop (buf.size + length bytes) buf.content,
          h.0,
        ),
        omega arith,
      ),
    )

-- Without encryption, two bytes or more that arrive at a new connection and are followed by any
-- more make the second `fread` write behind the end of the buffer: 256 are counted for each byte,
-- and the buffer grows by 256.
pub plain_loop_overruns :
    (first second : List ℕ) (events : List Event)
    → 2 ≤ length first
    → length first ≤ 256
    → 1 ≤ length second
    → plain_loop
        (got first ∷ got second ∷ events)
        mcpr_connection_new
        mcpr_connection_new.receiving_buf
      ≡ stopped over_write
unfolding plain_loop mcpr_connection_new
plain_loop_overruns first second events two small one = ground arith

-- What the cipher makes of a sequence of blocks, one byte of each.
pub data Decrypts {C : Type 0} (decrypt : C → List ℕ → Option (List ℕ × C))
    : C → List (List ℕ) → List ℕ → Type 0 where
  finished : (ctx : C) → Decrypts decrypt ctx [] []
  block :
      (ctx ctx' : C) (cipher : List ℕ) (b : ℕ) (ciphers : List (List ℕ)) (bs : List ℕ)
      → decrypt ctx cipher ≡ some (b ∷ [], ctx')
      → Decrypts decrypt ctx' ciphers bs
      → Decrypts decrypt ctx (cipher ∷ ciphers) (b ∷ bs)

-- With encryption, the decrypted bytes of all blocks stand in the buffer behind those it had, in
-- order, and the buffer is large enough for them. The cipher must give one byte for each block.
pub encrypted_loop_appends :
    {C : Type 0} (decrypt : C → List ℕ → Option (List ℕ × C)) (ctx : C) (blocks : List (List ℕ))
    (plain : List ℕ) (conn : Conn) (buf : Receiving)
    → Decrypts decrypt ctx blocks plain
    → IsValid buf
    → (buf' : Receiving) × (encrypted_loop decrypt (map got blocks) ctx conn buf
        ≡ updated true (with_buffer conn buf'))
      × (valid buf' ≡ valid buf ++ plain)
      × IsValid buf'
unfolding encrypted_loop
encrypted_loop_appends decrypt ctx [] [] conn buf (Decrypts.finished _) h =
    let (kept, good, size, large) = room_lem buf h in
    (with_room buf, refl, kept ∙ sym (append-nil (valid buf)), good)
encrypted_loop_appends decrypt ctx (cipher ∷ ciphers) (b ∷ bs) conn buf
      (Decrypts.block _ ctx' _ _ _ _ e rest) h =
    let (kept, good, size, large) = room_lem buf h in
    let fits : ltb (with_room buf).max_size ((with_room buf).size + 1) ≡ false =
      ground (arith, size, large) in
    let (stands, sound) = stores_lem (with_room buf) (b ∷ []) good (omega (arith, size, large)) in
    let (buf', run, has, valid') =
      encrypted_loop_appends decrypt ctx' ciphers bs conn (stores (with_room buf) (b ∷ []) 1) rest
        sound in
    (
      buf',
      rw (e, fits) run,
      has
          ∙ ap (λ l. l ++ bs) (stands ∙ ap (λ l. l ++ (b ∷ [])) kept)
          ∙ append_assoc (valid buf) (b ∷ []) bs,
      valid',
    )
encrypted_loop_appends decrypt ctx [] (b ∷ bs) conn buf d h = elim d [ ]
encrypted_loop_appends decrypt ctx (cipher ∷ ciphers) [] conn buf d h = elim d [ ]

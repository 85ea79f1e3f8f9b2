-- ===== src/World/Chunks/Laws.antt =====
-- What holds of the keys, the packets and the numbers of src/world/world.c.
use stronk.Base.{ℕ, zero, suc, ◌+◌, ◌-◌, ◌*◌, ◌%◌, ◌^◌, ◌≤◌, ◌<◌, ◌≡◌, ◌↔◌, refl, ap, ◌∙◌, arith}
use stronk.Base.{length, bit_or, u32, u64}
use stronk.Base.{get_elem?, get_elem?-left, get_elem?-right, some, ap₂}
use stronk.Base.{bit_or-split, bit_or-ones, bit_or_high_low}
use stronk.World.Chunks.{
  get_chunk_key, generate_new_entity_id, nth_entity_id, row_loop, view_loop, world_send_chunk_data1,
}

key_sum : (x z : ℕ) → z < 2 ^ 32 → get_chunk_key x z ≡ x % 2 ^ 32 * 2 ^ 32 + z
unfolding get_chunk_key
key_sum x z h =
    let cut : u64 (x * 2 ^ 32) ≡ x % 2 ^ 32 * 2 ^ 32 = omega arith in
    ap (λ (n : ℕ). bit_or n z) cut ∙ bit_or_high_low 32 (x % 2 ^ 32) z h

-- Chunks whose coordinates are 0 or more, and below 2 ^ 32, have one key only if they are one.
pub get_chunk_key_iff :
    (x z x' z' : ℕ)
    → x < 2 ^ 32
    → z < 2 ^ 32
    → x' < 2 ^ 32
    → z' < 2 ^ 32
    → (get_chunk_key x z ≡ get_chunk_key x' z') ↔ (x ≡ x') × (z ≡ z')
get_chunk_key_iff x z x' z' hx hz hx' hz' =
    let e = key_sum x z hz in
    let e' = key_sum x' z' hz' in ((λ same. (omega arith, omega arith)), λ (a, b). rw (a, b) refl)

-- If `z` is negative, and not below -2 ^ 32, the key does not depend on `x`: all the chunks of
-- such a row have the key of one.
pub get_chunk_key_collides : (x z : ℕ) → 2 ^ 64 - 2 ^ 32 ≤ z → z < 2 ^ 64 → get_chunk_key x z ≡ z
unfolding get_chunk_key
get_chunk_key_collides x z lo hi =
    let cut : u64 (x * 2 ^ 32) ≡ x % 2 ^ 32 * 2 ^ 32 = omega arith in
    let parts : z ≡ (2 ^ 32 - 1) * 2 ^ 32 + z % 2 ^ 32 = omega arith in
    ap (λ (n : ℕ). bit_or n z) cut
    ∙ ap (bit_or (x % 2 ^ 32 * 2 ^ 32)) parts
    ∙ bit_or-split 32 (x % 2 ^ 32) (2 ^ 32 - 1) (z % 2 ^ 32) (omega arith)
    ∙ omega (arith, bit_or-ones 32 (x % 2 ^ 32) (omega arith))

nth_lem : (n : ℕ) → nth_entity_id n ≡ u32 (2 ^ 31 + 1 + n)
unfolding nth_entity_id generate_new_entity_id
nth_lem zero = refl
nth_lem (suc n) = omega (arith, nth_lem n)

-- No id is given twice in the first 2 ^ 32 calls, whatever the threads that make them: two such
-- calls with one id are the same call.
pub nth_entity_id_iff :
    (i j : ℕ) → i < 2 ^ 32 → j < 2 ^ 32 → (nth_entity_id i ≡ nth_entity_id j) ↔ (i ≡ j)
nth_entity_id_iff i j hi hj =
    let e = nth_lem i in
    let e' = nth_lem j in ((λ same. omega arith), λ same. ap nth_entity_id same)

length-row : (left x z : ℕ) → length (row_loop left x z) ≡ left
unfolding row_loop
length-row zero x z = refl
length-row (suc left) x z = ap suc (length-row left x (z + 1))

row_at : (left x z j : ℕ) → j < left → get_elem? (row_loop left x z) j ≡ some (u64 x, u64 (z + j))
unfolding row_loop
row_at zero x z j h = absurd (omega arith)
row_at (suc left) x z zero h =
    let e : z ≡ z + 0 = omega arith in ap (λ (n : ℕ). some (u64 x, u64 n)) e
row_at (suc left) x z (suc j) h =
    let e : z + 1 + j ≡ z + suc j = omega arith in
    row_at left x (z + 1) j (omega arith) ∙ ap (λ (n : ℕ). some (u64 x, u64 n)) e

view_at :
    (left x z i j : ℕ)
    → i < left
    → j < 21
    → get_elem? (view_loop left x z) (21 * i + j) ≡ some (u64 (x + i), u64 (z + j))
unfolding view_loop
view_at zero x z i j hi hj = absurd (omega arith)
view_at (suc left) x z zero j hi hj =
    let index : 21 * 0 + j ≡ j = omega arith in
    let e : x ≡ x + 0 = omega arith in
    rw index (
      get_elem?-left (row_loop 21 x z) (view_loop left (x + 1) z) j
        (omega (arith, length-row 21 x z))
      ∙ row_at 21 x z j hj
      ∙ ap (λ (n : ℕ). some (u64 n, u64 (z + j))) e)
view_at (suc left) x z (suc i) j hi hj =
    let index : 21 * suc i + j ≡ length (row_loop 21 x z) + (21 * i + j) =
      omega (arith, length-row 21 x z) in
    let e : x + 1 + i ≡ x + suc i = omega arith in
    rw index (
      get_elem?-right (row_loop 21 x z) (view_loop left (x + 1) z) (21 * i + j)
      ∙ view_at left (x + 1) z i j (omega arith) hj
      ∙ ap (λ (n : ℕ). some (u64 n, u64 (z + j))) e)

-- The chunks sent to a player are those from ten before to ten behind the player's own, in both
-- directions, column by column: number 21 i + j is that of column i and row j.
pub world_send_chunk_data1_at :
    (base_x base_z i j : ℕ)
    → i < 21
    → j < 21
    → get_elem? (world_send_chunk_data1 base_x base_z) (21 * i + j)
      ≡ some ((base_x + i + (2 ^ 64 - 10)) % 2 ^ 64, (base_z + j + (2 ^ 64 - 10)) % 2 ^ 64)
unfolding world_send_chunk_data1
world_send_chunk_data1_at base_x base_z i j hi hj =
    view_at 21 (base_x + (2 ^ 64 - 10)) (base_z + (2 ^ 64 - 10)) i j hi hj
    ∙ ap₂ (λ (a b : ℕ). some (u64 a, u64 b)) (omega arith) (omega arith)

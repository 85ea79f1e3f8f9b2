-- ===== src/Packet/Ids/Laws.antt =====
-- The packet ids against the protocol's numbering.
use stronk.Base.{ℕ, zero, suc, ◌+◌, ◌≡◌, ◌≢◌, ◌↔◌, refl, arith, List, [], ◌∷◌}
use stronk.Base.{Option, none, some, get_elem?}
use stronk.Packet.Types.{State, PacketType}
use stronk.Packet.Ids.{get_packet_type, play_serverbound}
use stronk.Packet.Ids.{login_serverbound, status_serverbound}

-- The id of a serverbound packet in its state, by the numbering of the protocol.
abbrev pub serverbound_id : PacketType → Option ℕ
serverbound_id PacketType.lg_sb_login_start = some 0
serverbound_id PacketType.lg_sb_encryption_response = some 1
serverbound_id PacketType.st_sb_request = some 0
serverbound_id PacketType.st_sb_ping = some 1
serverbound_id PacketType.pl_sb_teleport_confirm = some 0
serverbound_id PacketType.pl_sb_tab_complete = some 1
serverbound_id PacketType.pl_sb_chat_message = some 2
serverbound_id PacketType.pl_sb_client_status = some 3
serverbound_id PacketType.pl_sb_client_settings = some 4
serverbound_id PacketType.pl_sb_confirm_transaction = some 5
serverbound_id PacketType.pl_sb_enchant_item = some 6
serverbound_id PacketType.pl_sb_click_window = some 7
serverbound_id PacketType.pl_sb_close_window = some 8
serverbound_id PacketType.pl_sb_plugin_message = some 9
serverbound_id PacketType.pl_sb_use_entity = some 10
serverbound_id PacketType.pl_sb_keep_alive = some 11
serverbound_id PacketType.pl_sb_player = some 12
serverbound_id PacketType.pl_sb_player_position = some 13
serverbound_id PacketType.pl_sb_player_position_and_look = some 14
serverbound_id PacketType.pl_sb_player_look = some 15
serverbound_id PacketType.pl_sb_vehicle_move = some 16
serverbound_id PacketType.pl_sb_steer_boat = some 17
serverbound_id PacketType.pl_sb_craft_recipe_request = some 18
serverbound_id PacketType.pl_sb_player_abilities = some 19
serverbound_id PacketType.pl_sb_player_digging = some 20
serverbound_id PacketType.pl_sb_entity_action = some 21
serverbound_id PacketType.pl_sb_steer_vehicle = some 22
serverbound_id PacketType.pl_sb_crafting_book_data = some 23
serverbound_id PacketType.pl_sb_resource_pack_status = some 24
serverbound_id PacketType.pl_sb_advancement_tab = some 25
serverbound_id PacketType.pl_sb_held_item_change = some 26
serverbound_id PacketType.pl_sb_creative_inventory_action = some 27
serverbound_id PacketType.pl_sb_update_sign = some 28
serverbound_id PacketType.pl_sb_animation = some 29
serverbound_id PacketType.pl_sb_spectate = some 30
serverbound_id PacketType.pl_sb_player_block_placement = some 31
serverbound_id PacketType.pl_sb_use_item = some 32
serverbound_id _ = none

-- The state that a serverbound packet belongs to, but for the handshake.
abbrev pub serverbound_state : PacketType → Option State
serverbound_state PacketType.lg_sb_login_start = some State.login
serverbound_state PacketType.lg_sb_encryption_response = some State.login
serverbound_state PacketType.st_sb_request = some State.status
serverbound_state PacketType.st_sb_ping = some State.status
serverbound_state PacketType.pl_sb_teleport_confirm = some State.play
serverbound_state PacketType.pl_sb_tab_complete = some State.play
serverbound_state PacketType.pl_sb_chat_message = some State.play
serverbound_state PacketType.pl_sb_client_status = some State.play
serverbound_state PacketType.pl_sb_client_settings = some State.play
serverbound_state PacketType.pl_sb_confirm_transaction = some State.play
serverbound_state PacketType.pl_sb_enchant_item = some State.play
serverbound_state PacketType.pl_sb_click_window = some State.play
serverbound_state PacketType.pl_sb_close_window = some State.play
serverbound_state PacketType.pl_sb_plugin_message = some State.play
serverbound_state PacketType.pl_sb_use_entity = some State.play
serverbound_state PacketType.pl_sb_keep_alive = some State.play
serverbound_state PacketType.pl_sb_player = some State.play
serverbound_state PacketType.pl_sb_player_position = some State.play
serverbound_state PacketType.pl_sb_player_position_and_look = some State.play
serverbound_state PacketType.pl_sb_player_look = some State.play
serverbound_state PacketType.pl_sb_vehicle_move = some State.play
serverbound_state PacketType.pl_sb_steer_boat = some State.play
serverbound_state PacketType.pl_sb_craft_recipe_request = some State.play
serverbound_state PacketType.pl_sb_player_abilities = some State.play
serverbound_state PacketType.pl_sb_player_digging = some State.play
serverbound_state PacketType.pl_sb_entity_action = some State.play
serverbound_state PacketType.pl_sb_steer_vehicle = some State.play
serverbound_state PacketType.pl_sb_crafting_book_data = some State.play
serverbound_state PacketType.pl_sb_resource_pack_status = some State.play
serverbound_state PacketType.pl_sb_advancement_tab = some State.play
serverbound_state PacketType.pl_sb_held_item_change = some State.play
serverbound_state PacketType.pl_sb_creative_inventory_action = some State.play
serverbound_state PacketType.pl_sb_update_sign = some State.play
serverbound_state PacketType.pl_sb_animation = some State.play
serverbound_state PacketType.pl_sb_spectate = some State.play
serverbound_state PacketType.pl_sb_player_block_placement = some State.play
serverbound_state PacketType.pl_sb_use_item = some State.play
serverbound_state _ = none

-- `types` lists the packets of `state` with the ids from `k` on.
abbrev Numbered : State → ℕ → List PacketType → Type 0
Numbered state k [] = Unit {0}
Numbered state k (t ∷ ts) =
    (serverbound_id t ≡ some k) × (serverbound_state t ≡ some state) × Numbered state (suc k) ts

get_elem?-numbered :
    (ts : List PacketType) (state : State) (k i : ℕ) (t : PacketType)
    → Numbered state k ts
    → get_elem? ts i ≡ some t
    → (serverbound_id t ≡ some (k + i)) × (serverbound_state t ≡ some state)
get_elem?-numbered [] state k i t n e = cc
get_elem?-numbered (x ∷ ts) state k zero t n e = ground arith
get_elem?-numbered (x ∷ ts) state k (suc i) t n e =
    ground (arith, get_elem?-numbered ts state (suc k) i t n.2 e)

play_numbered : Numbered State.play 0 play_serverbound
play_numbered = ground arith

named_has_id :
    (id : ℕ) (state : State) (t : PacketType)
    → serverbound_id t ≡ some id
    → serverbound_state t ≡ some state
    → get_packet_type id state ≡ some t
unfolding get_packet_type
named_has_id id state PacketType.st_sb_ping e h = ground arith
named_has_id id state _ e h = ground arith

-- Outside the handshake state, a type is found for an id exactly if the protocol numbers that
-- packet of that state so: every packet is found under its id, and no id finds another.
pub get_packet_type_iff :
    (id : ℕ) (state : State) (t : PacketType)
    → state ≢ State.handshake
    → (get_packet_type id state ≡ some t)
      ↔ (serverbound_id t ≡ some id) × (serverbound_state t ≡ some state)
unfolding get_packet_type
get_packet_type_iff id State.handshake t ne = absurd (ne refl)
get_packet_type_iff id State.status t ne = (
  (λ e. ground (arith, get_elem?-numbered status_serverbound State.status 0 id t (ground arith) e)),
  λ (a, b). named_has_id id State.status t a b,
)
get_packet_type_iff id State.login t ne = (
  (λ e. ground (arith, get_elem?-numbered login_serverbound State.login 0 id t (ground arith) e)),
  λ (a, b). named_has_id id State.login t a b,
)
get_packet_type_iff id State.play t ne = (
  (λ e. ground (arith, get_elem?-numbered play_serverbound State.play 0 id t play_numbered e)),
  λ (a, b). named_has_id id State.play t a b,
)

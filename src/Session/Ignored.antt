-- ===== src/Session/Ignored.antt =====
-- The handlers of src/network/packethandlers/play.c that only return HP_RESULT_OK.
use stronk.Session.{Session, HpResultType, plain, Handled, answer}

abbrev pub handle_pl_tab_complete : Session → Handled
handle_pl_tab_complete s = answer s (plain HpResultType.ok)

abbrev pub handle_pl_client_status : Session → Handled
handle_pl_client_status s = answer s (plain HpResultType.ok)

abbrev pub handle_pl_confirm_transaction : Session → Handled
handle_pl_confirm_transaction s = answer s (plain HpResultType.ok)

abbrev pub handle_pl_enchant_item : Session → Handled
handle_pl_enchant_item s = answer s (plain HpResultType.ok)

abbrev pub handle_pl_click_window : Session → Handled
handle_pl_click_window s = answer s (plain HpResultType.ok)

abbrev pub handle_pl_close_window : Session → Handled
handle_pl_close_window s = answer s (plain HpResultType.ok)

abbrev pub handle_pl_use_entity : Session → Handled
handle_pl_use_entity s = answer s (plain HpResultType.ok)

abbrev pub handle_pl_player_position : Session → Handled
handle_pl_player_position s = answer s (plain HpResultType.ok)

abbrev pub handle_pl_player_position_and_look : Session → Handled
handle_pl_player_position_and_look s = answer s (plain HpResultType.ok)

abbrev pub handle_pl_player_look : Session → Handled
handle_pl_player_look s = answer s (plain HpResultType.ok)

abbrev pub handle_pl_player : Session → Handled
handle_pl_player s = answer s (plain HpResultType.ok)

abbrev pub handle_pl_vehicle_move : Session → Handled
handle_pl_vehicle_move s = answer s (plain HpResultType.ok)

abbrev pub handle_pl_steer_boat : Session → Handled
handle_pl_steer_boat s = answer s (plain HpResultType.ok)

abbrev pub handle_pl_player_abilities : Session → Handled
handle_pl_player_abilities s = answer s (plain HpResultType.ok)

abbrev pub handle_pl_player_digging : Session → Handled
handle_pl_player_digging s = answer s (plain HpResultType.ok)

abbrev pub handle_pl_entity_action : Session → Handled
handle_pl_entity_action s = answer s (plain HpResultType.ok)

abbrev pub handle_pl_steer_vehicle : Session → Handled
handle_pl_steer_vehicle s = answer s (plain HpResultType.ok)

abbrev pub handle_pl_resource_pack_status : Session → Handled
handle_pl_resource_pack_status s = answer s (plain HpResultType.ok)

abbrev pub handle_pl_creative_inventory_action : Session → Handled
handle_pl_creative_inventory_action s = answer s (plain HpResultType.ok)

abbrev pub handle_pl_update_sign : Session → Handled
handle_pl_update_sign s = answer s (plain HpResultType.ok)

abbrev pub handle_pl_animation : Session → Handled
handle_pl_animation s = answer s (plain HpResultType.ok)

abbrev pub handle_pl_spectate : Session → Handled
handle_pl_spectate s = answer s (plain HpResultType.ok)

abbrev pub handle_pl_player_block_placement : Session → Handled
handle_pl_player_block_placement s = answer s (plain HpResultType.ok)

abbrev pub handle_pl_use_item : Session → Handled
handle_pl_use_item s = answer s (plain HpResultType.ok)

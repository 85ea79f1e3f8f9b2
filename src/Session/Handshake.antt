-- ===== src/Session/Handshake.antt =====
-- src/network/packethandlers/handshake.c
use stronk.Base.{ℕ, Bool, true, false, ◌&&◌, not, List, ◌++◌, some, ◌==◌, if◌then◌else◌}
use stronk.Packet.Types.{State}
use stronk.Packet.Json.{codes, print_int}
use stronk.Crypto.{mcpr_as_chat}
use stronk.Session.{Session, HpResultType, plain, fatal_with, Handled, answer, set_state}

-- MCPR_PROTOCOL_VERSION
abbrev pub protocol_version_number : ℕ
protocol_version_number = 340

-- MCPR_MINECRAFT_VERSION
abbrev pub minecraft_version : List ℕ
minecraft_version = codes "1.12.2"

abbrev pub is_login : State → Bool
is_login State.login = true
is_login _ = false

unfoldable pub version_message : ℕ → List ℕ
unfolding print_int
version_message protocol_version =
    codes "Protocol version "
    ++ (print_int protocol_version
        ++ (codes " is not supported! I'm on protocol version "
            ++ (print_int protocol_version_number
                ++ (codes " (MC " ++ (minecraft_version ++ codes ")")))))

-- The protocol version is an `int32_t`. The strings are copied.
unfoldable pub handle_hs_handshake : ℕ → List ℕ → ℕ → State → Session → Handled
handle_hs_handshake protocol_version server_address server_port next_state s =
    let s' = set_state s next_state in
    if not (protocol_version == protocol_version_number) && is_login next_state
    then answer s' (fatal_with (mcpr_as_chat (version_message protocol_version)))
    else answer
        (record s' { server_address_used = some server_address; port_used = some server_port })
        (plain HpResultType.ok)

-- ===== src/Peer/Flags.antt =====
-- btor/bpeer.h: the four flags of a peer and the kinds of messages.
use btor.Base.{Bool}
use btor.Base.Int.{ℤ, pos, negsuc}
use btor.Peer.{BPeer}

unfoldable pub get_am_choking : BPeer → Bool
get_am_choking p = p.am_choking

unfoldable pub get_am_interested : BPeer → Bool
get_am_interested p = p.am_interested

unfoldable pub get_peer_choking : BPeer → Bool
get_peer_choking p = p.peer_choking

unfoldable pub get_peer_interested : BPeer → Bool
get_peer_interested p = p.peer_interested

unfoldable pub set_am_choking : Bool → BPeer → BPeer
set_am_choking val p = record p { am_choking = val }

unfoldable pub set_am_interested : Bool → BPeer → BPeer
set_am_interested val p = record p { am_interested = val }

unfoldable pub set_peer_choking : Bool → BPeer → BPeer
set_peer_choking val p = record p { peer_choking = val }

unfoldable pub set_peer_interested : Bool → BPeer → BPeer
set_peer_interested val p = record p { peer_interested = val }

-- `enum class messages`
pub data Messages : Type 0 where
  handshake keep_alive choke unchoke interested not_interested have bitfield request piece cancel
        port :
      Messages

unfoldable pub message_value : Messages → ℤ
message_value handshake = negsuc 1
message_value keep_alive = negsuc 0
message_value choke = pos 0
message_value unchoke = pos 1
message_value interested = pos 2
message_value not_interested = pos 3
message_value have = pos 4
message_value bitfield = pos 5
message_value request = pos 6
message_value piece = pos 7
message_value cancel = pos 8
message_value port = pos 9

-- ===== src/Server/Registry.antt =====
-- The channels of the server: `createChannelData`, `getChannelData`, `findChannelByName`,
-- `getAvailableChannels` and `getChannelName` of libdill/src/server_netio.cpp. A null pointer is
-- `none`.
use mathlib.Core.Option
use dill.Base.{
  ℕ, ◌%◌, Option, none, some, List, [], ◌∷◌, ◌++◌, Bytes, u32, c_str, ltb, if◌then◌else◌, bytes_eq,
  length, get_elem?,
}
use dill.Channel.{DillServerChannel, new_channel}
use dill.Server.State.{DillServer}

unfoldable pub get_channel_data : ℕ → DillServer → Option DillServerChannel
get_channel_data channel_id s =
    if ltb channel_id (length s.channel_data) then get_elem? s.channel_data channel_id else none

unfoldable pub find_name : Bytes → List DillServerChannel → Option DillServerChannel
find_name name [] = none
find_name name (c ∷ cs) = if bytes_eq c.name name then some c else find_name name cs

unfoldable pub find_channel_by_name : Option Bytes → DillServer → Option DillServerChannel
find_channel_by_name none s = none
find_channel_by_name (some name) s = find_name name s.channel_data

unfoldable pub create_channel_data :
    Option Bytes → DillServer → Option DillServerChannel × DillServer
create_channel_data none s = (none, s)
create_channel_data (some name) s =
    if ltb (length s.channel_data) s.maxchannels
    then (let fresh = new_channel (length s.channel_data % u32) s.bufsize name in
        (some fresh, record s { channel_data = s.channel_data ++ (fresh ∷ []) }))
    else (none, s)

unfoldable pub get_available_channels : DillServer → ℕ
get_available_channels s = length s.channel_data % u32

unfoldable pub get_channel_name : ℕ → DillServer → Option Bytes
unfolding get_channel_data
get_channel_name id s = Option.map (λ c. c_str c.name) (get_channel_data id s)

-- ===== src/Client.antt =====
-- libdill/src/client_netio.h and client_netio.cpp: the connection of a client to the server, which the
-- log agent and the subscriber share. The virtual functions of the host are returned as what is to
-- be called. `pending` holds the operations handed to `boost::asio` whose handlers have not run;
-- closing the socket leaves them there, to complete with an error. Resolving the address, and the
-- threads and the sockets themselves, are left out.
use dill.Base.{
  ℕ, ◌+◌, Bool, true, false, ◌&&◌, Option, none, some, List, [], ◌∷◌, ◌++◌, Bytes, overwrite,
  Result, ok, ◌>>=◌, ◌==◌, if◌then◌else◌, length, take,
}
use dill.Protocol.{DillParcel, deflate_len, inflate}
use dill.Protocol.Wire.{get_u16}
use dill.Server.State.{framed}

-- `onConnectFinished`, `onReadParcelLengthFinished`, `onReadParcelContentFinished` and
-- `onWriteParcelFinished`, with what was asked for.
pub data ClientOp : Type 0 where
  connecting : ClientOp
  reading_length : ClientOp
  reading_content : ℕ → ClientOp
  writing : Bytes → ClientOp

pub record ClientIo : Type 0 where
  pub running : Bool
  pub sig_exit : Bool
  pub sig_connected : Bool
  pub addr : Bytes
  pub port : ℕ
  pub rd_buf : Bytes
  pub expecting_rdlen : ℕ
  pub wt_buf : Bytes
  pub expecting_wtlen : ℕ
  pub pending : List ClientOp

-- A call of a virtual function of the host.
pub data Upcall : Type 0 where
  on_connected : Bool → Upcall
  on_parcel_read : DillParcel → Upcall
  on_parcel_sent : Bool → Upcall
  on_io_error : Upcall

-- The constructor, with what the two buffers hold.
unfoldable pub new_client : ℕ → Bytes → Bytes → Bytes → ClientIo
new_client port addr rd_buf wt_buf = record {
  running = false;
  sig_exit = false;
  sig_connected = false;
  addr = addr;
  port = port;
  rd_buf = rd_buf;
  expecting_rdlen = 0;
  wt_buf = wt_buf;
  expecting_wtlen = 0;
  pending = [];
}

-- The thread is started; its body calls `onStarted` of the host.
unfoldable pub start : ClientIo → ClientIo
start io = record io { sig_exit = false; running = true }

-- The thread is told to end, and joined.
unfoldable pub stop : ClientIo → ClientIo
stop io = if io.running then record io { sig_exit = true; running = false } else io

unfoldable pub is_connected : ClientIo → Bool
is_connected io = io.sig_connected

abbrev begin : ClientOp → ClientIo → ClientIo
begin op io = record io { pending = io.pending ++ (op ∷ []) }

unfoldable pub async_connect : ClientIo → ClientIo
async_connect io = begin connecting io

unfoldable pub async_read_parcel : ClientIo → ClientIo
async_read_parcel io = begin reading_length (record io { expecting_rdlen = 2 })

unfoldable pub async_read_parcel_content : ℕ → ClientIo → ClientIo
async_read_parcel_content len io = begin (reading_content len) (record io { expecting_rdlen = len })

unfoldable pub async_write_parcel : DillParcel → ClientIo → ClientIo
async_write_parcel p io =
    let wt_buf = framed p io.wt_buf in
    let len = deflate_len p + 2 in
    begin (writing (take len wt_buf)) (record io { wt_buf = wt_buf; expecting_wtlen = len })

-- `resetSocket`.
unfoldable pub reset_socket : ClientIo → ClientIo
reset_socket io = record io { sig_connected = false }

unfoldable pub on_connect_finished : Bool → ClientIo → ClientIo × Option Upcall
on_connect_finished success io =
    let io' = record io { sig_connected = success } in
    if io.sig_exit
    then (io', none)
    else ((if success then io' else reset_socket io'), some (on_connected success))

-- The branch that the two read handlers share.
unfoldable pub read_failed : ClientIo → ClientIo × Option Upcall
read_failed io = if io.sig_exit then (io, none) else (reset_socket io, some on_io_error)

-- `bytes` has been put at the start of `_rd_buf`.
unfoldable pub on_read_parcel_length_finished :
    Bool → Bytes → ClientIo → Result (ClientIo × Option Upcall)
on_read_parcel_length_finished success bytes io =
    let io' = record io { rd_buf = overwrite bytes io.rd_buf } in
    if success && length bytes == io.expecting_rdlen
    then (get_u16 io'.rd_buf >>= λ (len, _). ok (async_read_parcel_content len io', none))
    else ok (read_failed io')

unfoldable pub on_read_parcel_content_finished :
    Bool → Bytes → ClientIo → Result (ClientIo × Option Upcall)
on_read_parcel_content_finished success bytes io =
    let io' = record io { rd_buf = overwrite bytes io.rd_buf } in
    if success && length bytes == io.expecting_rdlen
    then (inflate io'.rd_buf >>= λ (_, p). ok (io', some (on_parcel_read p)))
    else ok (read_failed io')

unfoldable pub on_write_parcel_finished : Bool → ℕ → ClientIo → ClientIo × Option Upcall
on_write_parcel_finished success transferred io =
    let succeed = success && transferred == io.expecting_wtlen in
    if io.sig_exit
    then (io, none)
    else ((if succeed then io else reset_socket io), some (on_parcel_sent succeed))

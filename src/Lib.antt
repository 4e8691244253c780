-- ===== src/Lib.antt =====
-- Tunel: a reverse tunnel. A server, tunels, listens on public ports and carries what arrives there
-- over one multiplexed session to a client, tunelc, which passes it on to a local service. In VPN
-- mode the server also joins the clients of a room into one small IP network, and the clients may
-- connect to each other directly.
--
-- The parts and the files that model them:
--
-- Protocol (internal/protocol). Protocol/Stream: the byte streams that everything reads and writes.
-- A reader is the bytes that are still to come and how the stream ends; a writer is what it has
-- taken and how much more it takes. Protocol/Framing: framing.go, the headers and frames of a data
-- stream (WriteTunnelID, ReadFrame and the like). Protocol/Packet: vpn.go, the packets of the VPN
-- and the addresses in their headers. Protocol/Messages: protocol.go, the messages of the control
-- streams as values; their JSON text is left to encoding/json. Protocol/Duplex: a data stream and a
-- TCP socket that are joined, as a sequence of what the two give.
--
-- Server (internal/server). Server/Peer: vpnPeer of vpn.go; rooms hold pointers to peers, so a
-- pointer is a number and a heap says what it points to. Server/Room: room.go, one room with its
-- addresses. Server/Hub: vpn.go, the rooms by name, and the loop that reads the packets of a peer;
-- Server/Hub/History: its calls, in any order. Server/Tunnels: the registry of a connection in
-- connection.go (register is the first part of grantTunnel) and the listeners of tunnel.go, with
-- the ports that the machine has bound. Server/Control: handleControl and handleVPNAuth of
-- connection.go, serveControl of tunnel.go, validProto and portAllowed of server.go: a control
-- stream from its first frame to its end. Server/Udp: udp.go, the public peers of a UDP tunnel.
-- Server/Tcp: a public connection of a TCP tunnel, and the address of its listener, in tunnel.go.
-- Server/Dispatch: handleStream, handleVPNPackets and the end of run in connection.go, which put
-- these together. Server/Dashboard: the rows and rooms of dashboard.go. Server/Life: how Run of
-- server.go and run of connection.go accept, are cancelled and wait.
--
-- Client (internal/client and cmd/tunelc). Client/Spec: the checks of New and validateTunnels in
-- client.go. Client/Run: the loop of Run and backoff in client.go. Client/Dial: dial in client.go.
-- Client/Tunnels: a session in client.go, with setupTunnel, runOnce, handleData and the two relays.
-- Client/Pipe: pipeBoth of tunnel.go. Client/Vpn: a VPN session in vpn.go, with the loops between
-- the TUN device and the packet stream, and RunVPN. Client/Tun: the commands of configureTUN in
-- tun_unix.go and tun_windows.go. Client/Peers: the peers that a client is told of, in client.go
-- and vpn.go. Client/P2p: the frames and the table of the direct connections of quic.go;
-- Client/Links: how one is dialled, stopped and reaped. Client/Mode: main.go and dispatch_nogui.go.
-- Client/Flag: parseTunnelFlag of cli_impl.go; Client/Cli: how runCLI of cli_impl.go comes from its
-- flags and the profile to a client. Client/Gui: the rows of tunnels and the saved profile of
-- gui.go; Client/Window: its buttons, log and status line, with the states of state.go.
--
-- Config (internal/config). Config: ParseAllowedPorts of config.go, on ASCII text. Config/Level:
-- the log level. Config/Profile: LoadProfile of profile.go. Keys (internal/crypto): the key pairs
-- of keys.go with their text and file, and the fingerprints of tls.go and of
-- internal/client/quic.go.
--
-- EndToEnd has no code of its own: it puts the client and the server together. EndToEnd/Grant: how
-- a tunnel comes about. EndToEnd/Traffic: what goes through it. EndToEnd/Relay: a packet from one
-- client of a room over the server to another.
--
-- Prelude holds what the others share: Boolean tests, lists and maps over the native numbers,
-- decimal text. Tests holds the inputs at which the theorems apply.
--
-- How the code is modelled. A method is a function from the state of its component to a result and
-- the new state; what runs under a lock is one step. So is grantPeer of a room, although it takes
-- the lock twice and stores the count of the peers after it; Server/Room/Race takes two calls of it
-- apart. A Go map is an association list, whose order stands for the order of a range; a theorem
-- about two ranges over one map takes two orders of it. An error is a value; where the text of an
-- error is sent to the peer it is kept. A byte, a uint16 and an int64 keep their wrap-around. A
-- stream that fails does so at any byte.
--
-- What the surroundings decide is given as a value: the TUN device and the context as a list of
-- rounds (Client/Vpn), a dial as what it reaches (Client/Links), a session of Run as how it ended.
-- What the code does not define is a parameter: the bytes that rand.Read gives, the curve, SHA-256,
-- json.Unmarshal, the certificates of crypto/x509, the int that strconv.Atoi leaves with an error,
-- and whether a command of the shell succeeds.
--
-- Bounds and fuel. readLoop has fuel for its rounds and tells whether it has returned: each round
-- takes at least two bytes off the stream, so one more round than there are bytes is enough. The
-- same holds of the loop from a data stream to the local UDP target, which takes at least a byte a
-- round and is run with that fuel, and of pumpIncoming. The loop of allocate has the 254 rounds of
-- the code, and itoa the 20 bytes of its buffer. The loops of Run, RunVPN, streamToTun, tunToStream
-- and vpnControlReader are given their rounds as a list that says how each attempt, read or wait
-- ends. From attempt 64 on the conversion in backoff is left to the machine and is a parameter, and
-- so is the hash behind a fingerprint.
--
-- Not modelled: TLS, yamux, QUIC and the sockets below the streams, which are libraries; STUN,
-- which is a library's too; the JSON of the messages and of the dashboard; the pings of a client;
-- the making of certificates; widgets and layout; the entry points of the other programs; logging.
-- The grants of two streams of one connection are interleaved only where a theorem says so
-- (Server/Tunnels/Race), and the two loops of a VPN session run apart.
pub mod Prelude
pub mod Protocol
pub mod Server
pub mod Client
pub mod Config
pub mod Keys
pub mod EndToEnd
pub mod Tests

-- ===== src/Lib.antt =====
-- slfhst turns a machine into a self-hosting appliance: an installer, a first-boot setup and a set of
-- services around systemd. This library models parts of the Go program.
--
--   Prelude      shared types, tests on numbers, lists and bytes
--   Dbus         internal/dbus: signatures, the encoder and the decoder of marshal.go, and the messages
--                of message.go
--   Disks        internal/disks/disks.go: the choice of the root disk and the bulk disk
--   Sysupdate    internal/sysupdate/sysupdate.go: update check and apply, over the bus
--   Dnscf        internal/dnscf/dnscf.go: which records are written at Cloudflare
--   Runx         internal/runx/runx.go: external commands and their exits
--   Backing      internal/backing/backing.go: waitFor, Garage's bootstrap, Stalwart's hardening, Run
--   Deploy       internal/deploy/deploy.go: the images that are pulled, and the stack's start
--   Config       internal/config/config.go: config.json and the stage markers
--   Monitor      internal/monitor/monitor.go: the periodic check
--   Quadlet      internal/quadlet/quadlet.go, expand.go: secrets and templates
--   Host         the files, the typed lines and the commands, under the steps of the installer
--   Users        internal/users/users.go: the accounts on the installed system
--   Firewall     internal/firewall/preboot.go: firewalld's files on the target
--   Installer    internal/installer/installer.go: the installation, composed of its steps
--   Netconf      internal/netconf/netconf.go: the network's questions and files
--   Prompt       internal/prompt: questions at the terminal
--   Sshauth      internal/sshauth/sshauth.go: sshd's configuration
--   Wizard       internal/wizard/wizard.go: what the installer asks for
--
-- Dbus. A Go value that the marshaler is handed is a Value; `any` holding a type it does not know is
-- `other`. An encoder is its buffer, a decoder its buffer and position; an error, an out-of-range
-- index (panic) and exhausted fuel are the other results. encodeValue, decodeValue and the loops over
-- wire data take fuel: the nesting depth of the value is enough to encode, the length of the signature
-- plus twice the length of the buffer, plus one, to decode. Datum, Put and Wire hold the wire format as
-- the D-Bus specification gives it, written apart from the code, with the alignment of a variant as a
-- parameter: the specification says 1, marshal.go 8. A map is encoded in the order of one iteration.
--
-- Dbus.Conn models Call of dbus.go: a connection is its serial, what it has sent, what the peer will
-- send and whether it still takes writes. The loop over replies has the length of the incoming bytes,
-- plus one, as fuel: every message takes at least twelve of them.
--
-- Disks. sort.Slice is a parameter that keeps the elements and orders them; it is not stable. The sort
-- of a pool that is the candidates' own slice reorders the candidates.
--
-- Sysupdate. The bus is a parameter, a record with the one operation Call. A report stands for the line
-- that is printed or the error that is kept for a target.
--
-- Dnscf. The API is a parameter with one operation for each of PublicIP, zoneID, existingRecords and a
-- write; stalwartDKIMTXT is a stub in the source and gives no record.
--
-- Runx and Backing. A process is a parameter from an argv and a state to its end and the next state; a
-- world adds a clock in seconds, sleeping and statfs. The loop of waitFor has the timeout in seconds
-- plus two as fuel, and each of its rounds sleeps two. strings.ToLower and strings.TrimSpace are those
-- of ASCII text.
--
-- Config. A disk is the root, config.json, the paths of the markers, and what stands in the way of the
-- next write; names of stages have no slash; encoding/json is a parameter on an abstract type of documents.
--
-- Monitor. A snapshot holds what systemctl, the ports, the resolver, PublicIP and CheckNewVersion
-- answer during one check; a verdict is what CheckAll prints or hands to sendAlert.
--
-- Quadlet. cfg has its string values only, which is all that is read of it; paths are joined with one
-- slash, as filepath.Join does for the clean paths that are used.
--
-- Host. The steps of the installer and of the set-up act on a Host: its tree maps clean paths to
-- directories, files and links with their mode and owner, typed holds the lines still to be typed,
-- log the commands that were run, the last one first. The kernel is a parameter: what a process does
-- to the tree and to everything else, which paths cannot be written, and the names that os.MkdirTemp
-- chooses. A link in a parent's place is not followed. Host/Triples has the rules for what holds
-- after a step, with its log, Host/Files those for a single file.
--
-- Users. The paths of the target are joined from a clean, non-empty root, as the installer passes
-- it. A line of the password file is shorter than the 64 KiB of a bufio.Scanner. The walk of
-- recursiveChown visits the tree in the order of its list, which only matters for what was changed
-- before a failure.
--
-- Disks. Disks/Volumes and Disks/Deploy hold the steps that partition, fill and mount the disks;
-- lsblk's JSON is read by two parameters, for whole devices and for partitions. Loops over Go maps
-- run in the order of a list.
--
-- Prompt, Netconf, Wizard. A question reads the typed lines, each of which ends in a newline; the end
-- of the lines is an error. The regular expressions are functions on bytes. The loop over the IPv6
-- addresses of a static configuration is on fuel, one round more than there are lines.
--
-- Installer. The store of config.json is an interface over the operations of Config; a Setup names
-- what the installation is given from outside. The kernel answers every command.
--
-- Backing.Harden retries stalwart-cli on fuel: the deadline is 120 seconds and a round sleeps 5, so 122
-- rounds pass it. Quadlet.Secrets takes the entries of secretEnvNames in any order, as Go's map gives
-- them, and a process with its standard input. Quadlet.Expand writes out what regexp's leftmost match of
-- varPattern is; Deploy does the same for imageLineRE, line by line, and takes filepath.Glob as a
-- parameter.
--
-- Sysupdate.Attempts and Dnscf.Runs put a log behind the bus and the API: what was sent is read off it
-- by a description of its own.
--
-- Not modelled: what is printed, modes beyond those that are passed (the umask), the set-up after the
-- boot with its wizard, the dispatch of subcommands, firewalld and varlink over their sockets, and the
-- health check's message of the day.
pub mod Backing
pub mod Config
pub mod Dbus
pub mod Deploy
pub mod Disks
pub mod Dnscf
pub mod Firewall
pub mod Host
pub mod Installer
pub mod Monitor
pub mod Netconf
pub mod Prelude
pub mod Prompt
pub mod Quadlet
pub mod Runx
pub mod Sshauth
pub mod Sysupdate
pub mod Users
pub mod Wizard

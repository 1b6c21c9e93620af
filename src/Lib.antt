-- ===== src/Lib.antt =====
-- binport installs command line tools on remote hosts over ssh and moves files to and from them. This
-- library models its core logic and proves what makes it correct.
--
-- The program and its files:
-- - src/lib.rs builds the shell commands that test, upload and run a cached tool on a host: Shell
--   (`shell_quote`, `quote_remote_path`, `remote_paths`, `upload_command`, `execute_command`, ...). A
--   Rust `OsStr` is a text or bytes that are not UTF-8. Shell.Posix is an independent reader of POSIX
--   shell words, against which the commands are held, and Shell.Quoting and Shell.Commands are its
--   laws. Shell.Injection has the theorems.
-- - src/remote_command.rs builds the commands for files on a host: RemoteCommand has one function and
--   one script constant per function of the source. Each is a constant script, which
--   RemoteCommand.Leads runs through the reader, and quoted arguments behind it.
-- - src/bastion.rs, the login formats of known bastions: Bastion.
-- - src/host.rs keeps the host aliases in a managed file of the ssh configuration: Host (the entry and
--   its validation), Host.Config (`parse` and `render`), Host.Registry (the `BTreeMap` of entries by
--   name, as the list of its values in the order of the keys), Host.Store (`list`, `find`, `add`,
--   `remove`, `ensure_include`). The state is the pair of the two files' texts; a file that is not
--   there is `none`. Host.Lines, Host.Directives, Host.Block and Host.Checks are the steps of the round
--   trip.
-- - src/catalog.rs, the catalog of official tools: Catalog.
-- - src/binfile.rs, the Binfile of a project: Binfile, with its parser and the errors by line.
-- - src/lockfile.rs resolves a Binfile against the catalog: Lockfile (`resolve`). What the file system
--   holds for the source of a copy is an argument, `locate`. Lockfile.File is the lock file itself.
--   `safe_tool_name` of src/lib.rs is in Shell.ToolName, with `Path::file_name` as the last component
--   of a path.
-- - src/hop.rs, the requests to a relay hop and their length-prefixed frames: Hop (`new_exec`,
--   `new_relay`, `encode_*`, `write_request`, `read_*`). A reader is the list of the bytes it has still
--   to give. `serde_json` is an argument, a Coder; the theorems of Hop.Frames suppose that it reads
--   back what it writes and writes no empty text (IsFaithful). Hop.Route is `resolve_host_chain`, which
--   follows the managed hosts; the stored passwords and the resolution of the entry host are arguments.
--   Hop.Checksum is `checksum_for`.
-- - src/registry.rs, the client of an OCI registry: Registry.Reference, Registry.Challenge,
--   Registry.Digest, Registry.Disk (the cache and the layout, with hard links), Registry.Client (the
--   requests and the token), Registry.Transfer, Registry.Pull and Registry.Push. The HTTP
--   client, the url library, the JSON coder and the hash are an argument, Services; the server is a state that each request may
--   change. Exec is the monad of these methods: a failed action gives back the state it left.
-- - src/oci.rs packs a toolbox into a layout and unpacks one: Oci (the documents), Oci.Blobs, Oci.Pack
--   and Oci.Unpack. The project is a tree of files (Places: the components of an absolute path, with
--   `.` and `..` resolved), the layout two directories of files by name. Toolbox has the types of
--   src/toolbox.rs.
-- - src/ssh.rs finds out how to reach a host: Ssh.Config (`apply_ssh_config`), Ssh.Resolve
--   (`Destination::resolve`), Ssh.Login (`format_username`, `identity_paths`, `auth_methods`) and
--   Ssh.Groups (`select_hosts_from_config`). The environment, the two files and the files that are
--   there are arguments. Ssh.Config.Pairs and Ssh.Config.Scan read what Host.Config renders.
--   Two paths of keys are equal when their components are, as `PathBuf` compares them.
-- - src/cmd/ reads the arguments of the commands: Cmd.Routes (src/cmd/runtime.rs), Cmd.Paths
--   (src/cmd/transfer.rs), Cmd.Tunnel (src/cmd/tunnel.rs) and Cmd.Tools (src/cmd/remote.rs).
-- - src/auth.rs, the stored passwords and managed keys: Auth. The hash, the environment and a
--   generated key pair are arguments; the two directories are files by name.
--
-- A remote command runs the tool that an alias or a Binfile names, on the host that the alias names:
-- the host commands write the managed file, and `Destination::resolve` reads it back with another
-- parser. Host.Directory is the abstract view of the host commands, a function from names to entries; Host.Rewrite
-- is about managed files that were edited by hand.
--
-- Text is Rust's `str` as the list of its Unicode scalar values, with the methods of the standard
-- library that the program calls; Text.Decimal is the print and the parse of unsigned integers.
-- Base has the Boolean tests, lists and `Result` with its `do` blocks. An error is a constructor
-- for each message of the source, with the values the message holds. All recursion is structural,
-- but for the loop of `resolve_host_chain`: it has five units of fuel, one more than the hops that
-- it allows, since each round adds a hop and the fifth is refused. A `u64` sum keeps its
-- wrap-around (`% 2 ^ 64`), and a port is parsed with the bound 65535.
--
-- Not modelled: file permissions, the atomic replacement of files and failures of the file system;
-- the ssh sessions, channels and transfers (src/ssh.rs, src/probe.rs, src/cmd/), the archives and
-- downloads of src/toolbox.rs, the sessions and downloads of src/hop.rs, the generation of keys,
-- the reports on environments, profiles and networks (src/cmd/) and the printing of progress and tables.
-- Symbolic links are left out of the tree of files. The Unicode tables that the program takes from
-- the standard library are those of White_Space and the ASCII classes. The YAML reader behind the
-- catalog is not modelled: the theorems on a catalog hold for every value it may return.
pub mod Base
pub mod Text
pub mod Json
pub mod Exec
pub mod Files
pub mod Ssh
pub mod Auth
pub mod Cmd
pub mod Places
pub mod Toolbox
pub mod Oci
pub mod Shell
pub mod RemoteCommand
pub mod Bastion
pub mod Catalog
pub mod Binfile
pub mod Lockfile
pub mod Hop
pub mod Registry
pub mod Host
mod Tests
